-- ===== src/Api.antt =====
-- api/: the handlers of the HTTP API.
pub mod Multipart
pub mod Uploads
pub mod Paths
pub mod Listings
pub mod FolderView

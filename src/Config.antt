-- ===== src/Config.antt =====
-- config/: the settings of a provider, their defaults and their validation, and the files of its home
-- directory.
pub mod Types
pub mod Validate
pub mod Disk
pub mod Files
pub mod Wallet

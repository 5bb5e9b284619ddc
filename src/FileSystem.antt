-- ===== src/FileSystem.antt =====
-- file_system/: what a provider keeps on disk, contract entries in a key-value database and the
-- data itself as a DAG of IPFS blocks.
pub mod Keys
pub mod Dag
pub mod Stores
pub mod Node
pub mod Tree
pub mod Write
pub mod Read
pub mod Delete
pub mod Listing
pub mod Contracts

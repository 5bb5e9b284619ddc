-- ===== src/Examples.antt =====
-- Concrete stores, chains and queues, on which the theorems are applied.
pub mod Stores
pub mod Homes
pub mod Wallets
pub mod Commands
pub mod Boots
pub mod Files
pub mod Removal
pub mod Proving
pub mod Queues
pub mod Cycles
pub mod Parts
pub mod Uploads
pub mod Posted
pub mod Downloads
pub mod Paths
pub mod Starts
pub mod Hands
pub mod Contracts
pub mod Jobs

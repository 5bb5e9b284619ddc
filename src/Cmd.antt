-- ===== src/Cmd.antt =====
-- cmd/: the commands that ask, the wallet and the database.
pub mod Confirm
pub mod Account
pub mod Data
pub mod Start

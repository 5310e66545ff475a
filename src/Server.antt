-- ===== src/Server.antt =====
-- nteedb-server: the network front of the store.
pub mod Text
pub mod Proto
pub mod Accounts
pub mod Settings
pub mod State
pub mod Reads
pub mod Writes
pub mod Dispatch
pub mod Conn
pub mod Policy
pub mod Continuing
pub mod Rights
pub mod Ending
pub mod Sessions
pub mod Framing
pub mod Words
pub mod Inline

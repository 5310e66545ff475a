-- ===== src/Capi.antt =====
-- The C interface, nteedb-js/capi.
pub mod Registry
pub mod Values
pub mod Batches
pub mod Settings
pub mod Calls
pub mod Exports
pub mod Pieces
pub mod Handles

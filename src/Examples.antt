-- ===== src/Examples.antt =====
-- Tests and concrete runs.
pub mod World
pub mod TransferCalls
pub mod Fields
pub mod Locals
pub mod Objects
pub mod Info
pub mod Session
pub mod Helpers
pub mod Closing
pub mod Join
pub mod Sizes
pub mod Declarations
pub mod Polling
pub mod Attributes
pub mod Runs
pub mod BindingRows

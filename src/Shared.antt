-- ===== src/Shared.antt =====
-- include/shared.h: exit codes, options, timing, forced prefix mode, and closing of objects.
pub mod ExitCode
pub mod Options
pub mod Timing
pub mod Prefix
pub mod CloseFid
pub mod Sizes
pub mod OptsFields
pub mod Macros

-- ===== src/Disklib.antt =====
-- Package disklib (pkg/disklib): the low-level API, one Go function for each call of VixDiskLib.
pub mod Types
pub mod Params
pub mod Session
pub mod Log
pub mod Images
pub mod Metadata
pub mod Io
pub mod Info
pub mod ThumbPrint
pub mod ErrorCodes

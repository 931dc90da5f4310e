-- ===== src/Disk.antt =====
-- Package virtual_disks (pkg/virtual_disks/gvddk.go): the high-level API, reads and writes of bytes
-- at any offset on top of the library's reads and writes of sectors.
pub mod Handle
pub mod Methods
pub mod Lock
pub mod ReadAt
pub mod WriteAt
pub mod Stream
pub mod Opening
pub mod Bounds
pub mod RoundTrip
pub mod Footprint
pub mod Concurrent
pub mod Errors
pub mod Logged
pub mod Aligned
pub mod Progress

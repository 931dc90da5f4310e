-- ===== src/Tests.antt =====
-- The theorems at concrete inputs: a world with one small disk, and each theorem applied to it.
mod Device
mod Disk
mod Opening
mod Dumper
mod Threads
mod Metadata
mod ThumbPrint
mod Params
mod Errors
mod ReadAll
mod WriteAll
mod Info

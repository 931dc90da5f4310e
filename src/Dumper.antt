-- ===== src/Dumper.antt =====
-- Package dumper (dumper/dumper.go, with the structs of dumper/cbt.go): jobs that copy a disk of a
-- virtual machine. A method of `*VadpDumper` takes the dumper and gives back the one it leaves.
pub mod Types
pub mod Cbt
pub mod Params
pub mod Access
pub mod Disks
pub mod Blocks
pub mod Copy
pub mod Metadata
pub mod Errors

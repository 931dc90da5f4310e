-- ===== src/Lib.antt =====
-- virtual-disks: a Go library over VMware's VixDiskLib (VDDK), and a tool that copies disks with it.
--
-- The program has three parts. pkg/disklib wraps the C library, one Go function per C function: it
-- builds the C structs, calls, and turns a code that is not `VIX_OK` into a `VddkError`.
-- pkg/virtual_disks/gvddk.go builds on it a disk that is read and written at any byte offset
-- (`DiskConnectHandle`: `ReadAt`, `WriteAt`), a stream with a shared offset on top of the disk
-- (`DiskReaderWriter`: `Read`, `Write`, `Seek`), and `Open`, which prepares the access, connects, opens
-- the disk and asks for its description. dumper/dumper.go runs jobs with both.
--
-- Files:
--   Base            shared names; lists and tests over the native numbers (Base/Lists, Base/Tests),
--                   a disk's content as a function from positions (Base/Bytes), integers (Base/Int),
--                   machine words with their wrap-around (Base/Word), and decimal text (Base/Decimal)
--   Vddk            the C library's calls and replies; a `World` answers them and is a parameter
--   Effects         Go code as a tree of steps (mutexes, shared variables, calls, panics), `run`, which
--                   runs one thread, and `Ensures`: the run ends, with no panic and no deadlock, and
--                   its result and last state are as wanted
--   Disklib         pkg/disklib: structs and errors of gvddk_helper.go (Types), `prepareConnectParams`
--                   and `Params_helper` of gvddk_c.c (Params), and the functions of gvddk_api.go by what
--                   they are about (Session, Images, Metadata, Io, Info); thumbprints (ThumbPrint); the
--                   table of gvddk_errors.go (ErrorCodes); the log of what the library has been
--                   asked and answered of accesses, connections and disks (Log)
--   Device          what is relied on of the library's reads and writes, as documented: `IsDisk`;
--                   `IsHealthy` and `IsAtomic` are assumed only where a theorem names them
--   Disk/Handle     `DiskConnectHandle`, `Capacity`, `mapError`, `aligned`; Disk/Methods its small methods
--   Disk/ReadAt     `ReadAt`, in the parts that the source's comments name: `read_head`, `read_middle`,
--                   `read_tail`; its children follow the buffer through them
--   Disk/WriteAt    `WriteAt` in the same way
--   Disk/Lock       the lock of unaligned accesses; Disk/Errors and Disk/Logged follow a call of the
--                   library, and the log, to where its error ends the function
--   Threads         goroutines on one machine: `Step` and `Reach` interleave their steps; sections of
--                   one mutex (Threads/Sections) beside runs of one after another (Threads/Serial), and
--                   how a run can go on (Threads/Progress); Disk/Progress for reads and writes
--   Disk/Stream     `DiskReaderWriter`; its calls by goroutines that share it (Disk/Stream/Calls,
--                   Disk/Stream/Concurrent), and by a client that reads to the end
--                   (Disk/Stream/ReadAll) or writes pieces first (Disk/Stream/WriteAll)
--   Disk/Opening    `Open` and `OpenFCD`; what `Open` asks for (Disk/Opening/Asked), also by counts
--                   (Balance), and with `Close` behind it (Closing)
--   Disk/Bounds, Disk/RoundTrip   reads past the end; a write and a read
--   Effects/Only    programs that take only steps of a kind; Disk/Footprint: those of `ReadAt` and `WriteAt`
--   Disk/Footprint/Inside   which requests they make of the library
--   Disk/Aligned    accesses of whole sectors; Disk/Concurrent: unaligned ones by several goroutines
--   Dumper          dumper/dumper.go with the structs of dumper/cbt.go (Types), its parsers (Cbt), the
--                   parameters of a job (Params), the retry loops (Access), opening and closing disks
--                   (Disks; Disks/Release is on the calls of `Cleanup`, Disks/Counted on their number), `QueryAllocatedBlocks` (Blocks), `NullTermToStrings` and `SaveMetaData`
--                   (Metadata), whose library calls Metadata/Calls describes, and `DumpCloneDisk`
--                   (Copy) between two disks of one library (Copy/Pair)
--   Dumper/Errors   the error codes that the code tests, beside the others
--   Tests           small disks, and each result at a concrete input
--
-- Numbers: lengths, counts and sector numbers of the C side are natural numbers; an `int64` offset is
-- an integer, and each conversion or sum that can leave 64 or 32 bits wraps as in Go. Theorems on reads
-- and writes are about disks of fewer than 2^63 bytes, as an `int64` offset requires. The sector size
-- is 512 bytes. A slice that is passed down and written to comes back as a result, in the caller's
-- buffer at its place. Decimal text is written with 20 digits at most, enough for 64 bits. Four loops
-- run on fuel: that of the dumper's `QueryAllocatedBlocks` starts with the number of blocks, that of
-- `NullTermToStrings` with the number of bytes, and `DumpCloneDisk` and the client that reads to the
-- end are given their fuel; the theorems say when it is enough.
--
-- Not modelled: logging and progress callbacks, `malloc` and `free` of C texts, the calls
-- `VixDiskLib_FreeInfo` and `VixDiskLib_FreeBlockList` by which the library frees its own copy of what
-- has been read off, the waits between retries, and the flag, disk-type and adapter constants, whose
-- values only the C header has; the flag that the code uses is a parameter. So are `tls.Dial`, the
-- SHA-1 digest, the number that `rand.Intn` draws and `json.Unmarshal`. Goroutines interleave at the
-- steps of `Effects`; a call of the library is one step.
pub mod Base
pub mod Vddk
pub mod Effects
pub mod Disklib
pub mod Device
pub mod Disk
pub mod Dumper
pub mod Threads
pub mod Tests

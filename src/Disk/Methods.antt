-- ===== src/Disk/Methods.antt =====
-- `Close` of `DiskConnectHandle` in pkg/virtual_disks/gvddk.go, and the methods that hand their
-- arguments on to the library with the handle's `dli`.
use virtual_disks.Base.{ℕ, Option, none, some, List}
use virtual_disks.Base.Bytes.{Byte}
use virtual_disks.Vddk.{VixDiskLibBlock}
use virtual_disks.Effects.{Prog, ret, ◌>>=◌}
use virtual_disks.Disklib.Types.{VddkError}
use virtual_disks.Disklib.Io
use virtual_disks.Disklib.Images
use virtual_disks.Disklib.Session.{disconnect, end_access}
use virtual_disks.Disklib.Metadata
use virtual_disks.Disklib.Metadata.{Fetched}
use virtual_disks.Disk.Handle.{GoError, with_code, DiskConnectHandle, unless_error}

-- The first failure ends it: what comes after it is not closed.
unfoldable pub close : DiskConnectHandle → Prog (Option GoError)
close h = do
  err ← Images.close h.dli
  unless_error err (λ e. ret (some (with_code e)))
      do
        err ← disconnect h.conn
        unless_error err (λ e. ret (some (with_code e)))
            do
              err ← end_access h.params
              unless_error err (λ e. ret (some (with_code e))) (ret none)

unfoldable pub query_allocated_blocks :
    DiskConnectHandle
    → (start_sector num_sectors chunk_size : ℕ) → Prog (List VixDiskLibBlock × Option VddkError)
query_allocated_blocks h start_sector num_sectors chunk_size =
    Io.query_allocated_blocks h.dli start_sector num_sectors chunk_size

unfoldable pub get_metadata_keys :
    DiskConnectHandle → List Byte → (buf_len : ℕ) → (require_len : Option ℕ) → Prog Fetched
get_metadata_keys h buf buf_len require_len =
    Metadata.get_metadata_keys h.dli buf buf_len require_len

unfoldable pub read_metadata :
    DiskConnectHandle
    → (key : List Byte) → List Byte
    → (buf_len : ℕ) → (required_len : Option ℕ) → Prog Fetched
read_metadata h key buf buf_len required_len =
    Metadata.read_metadata h.dli key buf buf_len required_len

unfoldable pub write_metadata :
    DiskConnectHandle → (key : List Byte) → List Byte → Prog (Option VddkError)
write_metadata h key buf = Metadata.write_metadata h.dli key buf

-- ===== src/Disk/Handle.antt =====
-- `DiskConnectHandle` of pkg/virtual_disks/gvddk.go, its capacity, and the helpers that `ReadAt` and
-- `WriteAt` share. An `int` that is never negative (a length, a count) is a number; an offset and
-- what is computed from it is an integer, and conversions and sums that can leave 64 bits wrap.
use virtual_disks.Base.{
  arith, ℕ, ◌*◌, ◌<◌, ◌^◌, ◌≤◌, ◌⊎◌, ◌-◌, ◌%◌, Bool, true, false, Option, none, some, List, String,
  length, take, drop, replicate, length-replicate, ◌≡◌, leb, ◌==◌, ◌&&◌, if◌then◌else◌,
}
use virtual_disks.Base.Bytes.{Byte}
use virtual_disks.Base.Int.{ℤ, pos, negsuc, ltb_ℤ, rem, scale, is_zero, pos_part}
use virtual_disks.Base.Word.{int64, int64-pos}
use virtual_disks.Effects.{Prog, ret, ◌>>=◌, ◌>>◌, take_lock, give_lock}
use virtual_disks.Disklib.Types.{
  ConnectParams, VixDiskLibInfo, VddkError, vix_error_code, sector_size, vix_e_disk_outofrange,
}

-- Go errors other than `nil`, which is `none`.
pub data GoError : Type 0 where
  eof : GoError  -- io.EOF
  short_write : GoError  -- io.ErrShortWrite
  vix : VddkError → GoError
  wrapped : VddkError → (context : String) → GoError  -- errors.Wrap
  with_code : VddkError → GoError  -- the text with " with error code: %d" after it
  new : (text : String) → GoError  -- errors.New

pub record DiskConnectHandle : Type 0 where
  pub mutex : ℕ
  pub dli : ℕ
  pub conn : ℕ
  pub params : ConnectParams
  pub info : VixDiskLibInfo

-- `mutex` names the fresh `var mutex sync.Mutex` of this call.
unfoldable pub new_disk_handle :
    (mutex dli conn : ℕ) → ConnectParams → VixDiskLibInfo → DiskConnectHandle
new_disk_handle mutex dli conn params info = record {
  mutex = mutex;
  dli = dli;
  conn = conn;
  params = params;
  info = info;
}

-- The capacity is counted in sectors; both the conversion and the product may wrap.
unfoldable pub capacity : DiskConnectHandle → ℤ
capacity h = int64 (scale (int64 (pos h.info.capacity)) sector_size)

-- The bytes of the disk, counted without wrap-around.
abbrev pub size : DiskConnectHandle → ℕ
size h = h.info.capacity * sector_size

unfoldable pub map_error : VddkError → GoError
map_error e = if vix_error_code e == vix_e_disk_outofrange then eof else vix e

unfoldable pub aligned : (len : ℕ) → (off : ℤ) → Bool
aligned len off = (len % sector_size == 0) && is_zero (rem off sector_size)

-- `xs[lo:hi]`, a panic out of range. No slice of the code has room behind its length.
unfoldable pub slice : List Byte → (lo hi : ℤ) → Option (List Byte)
slice xs (pos lo) (pos hi) =
    if leb lo hi && leb hi (length xs) then some (take (hi - lo) (drop lo xs)) else none
slice xs (pos lo) (negsuc hi) = none
slice xs (negsuc lo) hi = none

-- `if count > len(p) { count = len(p) }`, for a count that is positive.
abbrev pub at_most : ℤ → ℕ → ℕ
at_most count len = if ltb_ℤ (pos len) count then len else pos_part count

-- `make([]byte, VIXDISKLIB_SECTOR_SIZE)`
unfoldable pub sector_buf : List Byte
sector_buf = replicate sector_size 0

-- `if err != nil { return ... }`, and the rest of the function.
abbrev pub unless_error {ℓ} : {A : Type ℓ} → Option VddkError → (VddkError → A) → A → A
unless_error none bad good = good
unless_error (some e) bad good = bad e

-- `if test { mutex.Lock(); defer mutex.Unlock() }`, and the rest of the function.
unfoldable pub with_lock : {A : Type 0} → Bool → (mutex : ℕ) → Prog A → Prog A
with_lock true m p = do take_lock m; r ← p; give_lock m; ret r
with_lock false m p = p

pub length-sector_buf : length sector_buf ≡ sector_size
unfolding sector_buf
length-sector_buf = length-replicate {A = Byte} sector_size 0

-- A slice within range.
pub slice_lem :
    (xs : List Byte) (lo hi : ℕ)
    → lo ≤ hi
    → hi ≤ length xs
    → slice xs (pos lo) (pos hi) ≡ some (take (hi - lo) (drop lo xs))
unfolding slice
slice_lem xs lo hi h k = ground arith

-- A count that is cut down to what is there.
pub at_most_cases :
    (c len : ℕ)
    → (at_most (pos c) len ≤ len)
      × (at_most (pos c) len ≤ c)
      × ((at_most (pos c) len ≡ len) ⊎ (at_most (pos c) len ≡ c))
at_most_cases c len = ground arith

-- A capacity that fits into 63 bits.
pub capacity_lem :
    (h : DiskConnectHandle)
    → h.info.capacity * sector_size < 2 ^ 63
    → capacity h ≡ pos (h.info.capacity * sector_size)
unfolding capacity
capacity_lem h small =
    rw (int64-pos h.info.capacity (omega arith)) (int64-pos (h.info.capacity * sector_size) small)

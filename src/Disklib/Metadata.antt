-- ===== src/Disklib/Metadata.antt =====
-- The metadata table of a disk: keys and values (pkg/disklib/gvddk_api.go). With a pointer to a
-- length the library is asked how long the buffer must be, else it fills the buffer.
use virtual_disks.Base.{ℕ, Option, none, some, List, [], ◌∷◌, String, ◌==◌, if◌then◌else◌}
use virtual_disks.Base.Bytes.{Byte}
use virtual_disks.Vddk.{Call, MetadataReply}
use virtual_disks.Effects.{Prog, ret, panic, ◌>>=◌, perform}
use virtual_disks.Disklib.Types.{VddkError, vix_e_buffer_toosmall, check}

-- The error, what `*requiredLen` holds after the call, and the buffer.
pub record Fetched : Type 0 where
  pub err : Option VddkError
  pub required : Option ℕ
  pub buf : List Byte

-- The answer to a question for the length: only the code "buffer too small" stores it.
unfoldable pub length_answer : (wanted : ℕ) → List Byte → String → MetadataReply → Fetched
length_answer wanted buf format r = record {
  err = check r.code format;
  required = some (if r.code == vix_e_buffer_toosmall then r.required else wanted);
  buf = buf;
}

unfoldable pub buffer_answer : String → MetadataReply → Fetched
buffer_answer format r = record { err = check r.code format; required = none; buf = r.buf }

-- `&buf[0]` panics on an empty buffer.
abbrev pub first_byte : {A : Type 0} → List Byte → Prog A → Prog A
first_byte [] p = panic
first_byte (b ∷ bs) p = p

unfoldable pub get_metadata_keys :
    (dli : ℕ) → List Byte → (buf_len : ℕ) → (require_len : Option ℕ) → Prog Fetched
unfolding length_answer buffer_answer
get_metadata_keys dli buf buf_len (some wanted) = do
  r ← perform (Call.get_metadata_keys dli none 0 (some wanted))
  ret (length_answer wanted buf "GetMetadataKeys failed. The error code is %d." r)
get_metadata_keys dli buf buf_len none = first_byte buf do
  r ← perform (Call.get_metadata_keys dli (some buf) buf_len none)
  ret (buffer_answer "GetMetadataKeys failed. The error code is %d." r)

unfoldable pub read_metadata :
    (dli : ℕ)
    → (key : List Byte) → List Byte
    → (buf_len : ℕ) → (required_len : Option ℕ) → Prog Fetched
unfolding length_answer buffer_answer
read_metadata dli key buf buf_len (some wanted) = do
  r ← perform (Call.read_metadata dli key none 0 (some wanted))
  ret (
      length_answer wanted buf "Read meta data from virtual disk file failed. The error code is %d."
        r)
read_metadata dli key buf buf_len none = first_byte buf do
  r ← perform (Call.read_metadata dli key (some buf) buf_len none)
  ret (buffer_answer "Read meta data from virtual disk file failed. The error code is %d." r)

unfoldable pub write_metadata : (dli : ℕ) → (key : List Byte) → List Byte → Prog (Option VddkError)
write_metadata dli key buf = first_byte buf do
  res ← perform (Call.write_metadata dli key buf)
  ret (check res "Write meta data failed. The error code is %d.")

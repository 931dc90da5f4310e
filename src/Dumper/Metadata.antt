-- ===== src/Dumper/Metadata.antt =====
-- `NullTermToStrings` and `SaveMetaData` of dumper/dumper.go. A Go string is the list of its bytes.
pub mod Strings
pub mod Calls
pub mod Saved
use mathlib.Core.Option
use virtual_disks.Base.{
  ℕ, zero, suc, ◌+◌, Bool, true, false, Option, none, some, List, [], ◌∷◌, ◌++◌, ◌==◌, ◌&&◌, ◌||◌,
  leb, length, take, drop, replicate, if◌then◌else◌,
}
use virtual_disks.Base.Bytes.{Byte}
use virtual_disks.Effects.{◌>>=◌, Prog, ret}
use virtual_disks.Disklib.Types.{VddkError, vix_error_code, vix_e_buffer_toosmall}
use virtual_disks.Disk.Handle.{DiskConnectHandle, unless_error}
use virtual_disks.Disk.Methods.{get_metadata_keys, read_metadata, write_metadata}
use virtual_disks.Dumper.Types.{VadpDumper, DumpError, err_disk_handle, around_vix}

-- `bytes.IndexByte`; no index is -1 in Go.
unfoldable pub index_byte : List Byte → Byte → Option ℕ
index_byte [] c = none
index_byte (b ∷ bs) c = if b == c then some 0 else Option.map (λ i. i + 1) (index_byte bs c)

-- Each pass but the last takes a byte at least from `b`, so that as many passes as it has bytes are
-- enough: where none is left, `b` is empty, and the last pass would stop too.
unfoldable pub strings_loop : (fuel : ℕ) → (s : List (List Byte)) → List Byte → List (List Byte)
strings_loop zero s b = s
strings_loop (suc fuel) s b = elim (index_byte b 0) [
  | none ↦ s
  | some i ↦ strings_loop fuel (s ++ take i b ∷ []) (drop (i + 1) b)
]

unfoldable pub null_term_to_strings : List Byte → List (List Byte)
null_term_to_strings b = strings_loop (length b) [] b

-- The UTF-8 texts of the runes that `strings.TrimSpace` takes away.
is_space : List Byte → Bool
is_space (a ∷ []) = (leb 9 a && leb a 13) || (a == 32)
is_space (a ∷ b ∷ []) = (a == 194) && ((b == 133) || (b == 160))
is_space (a ∷ b ∷ c ∷ []) =
    ((a == 225) && ((b == 154) && (c == 128)))
    || (((a == 226)
          && (((b == 128)
                && ((leb 128 c && leb c 138) || ((c == 168) || ((c == 169) || (c == 175)))))
              || ((b == 129) && (c == 159))))
        || ((a == 227) && ((b == 128) && (c == 128))))
is_space _ = false

-- The beginnings of those that have more than one byte.
begins_space : List Byte → Bool
begins_space (a ∷ []) = (a == 194) || ((a == 225) || ((a == 226) || (a == 227)))
begins_space (a ∷ b ∷ []) =
    ((a == 225) && (b == 154))
    || (((a == 226) && ((b == 128) || (b == 129))) || ((a == 227) && (b == 128)))
begins_space _ = false

-- What has been read of a rune, after one more byte; nothing where it is no space.
next_byte : List Byte → Byte → Option (List Byte)
unfolding is_space begins_space
next_byte begun b =
    let rune = begun ++ b ∷ [] in
    if is_space rune then some [] else if begins_space rune then some rune else none

all_space : Option (List Byte) → List Byte → Bool
unfolding next_byte
all_space none bs = false
all_space (some []) [] = true
all_space (some (c ∷ cs)) [] = false
all_space (some begun) (b ∷ bs) = all_space (next_byte begun b) bs

-- `len(strings.TrimSpace(key)) == 0`.
unfoldable pub is_blank : List Byte → Bool
unfolding all_space
is_blank key = all_space (some []) key

-- `errVix != nil && errVix.VixErrorCode() != disklib.VIX_E_BUFFER_TOOSMALL`.
abbrev pub unless_refused : {A : Type 0} → Option VddkError → (VddkError → Prog A) → Prog A → Prog A
unless_refused none bad good = good
unless_refused (some e) bad good = if vix_error_code e == vix_e_buffer_toosmall then good else bad e

-- `requireLen` after the call that was given its address.
abbrev pub stored : Option ℕ → (before : ℕ) → ℕ
stored none before = before
stored (some n) before = n

-- A pass of the loop for a key that is not blank, and the passes behind it.
unfoldable pub save_key :
    (r w : DiskConnectHandle)
    → (key : List Byte) → (require_len : ℕ) → (ℕ → Prog (Option DumpError))
    → Prog (Option DumpError)
save_key r w key require_len rest = do
  asked ← read_metadata r key [] 0 (some require_len)
  unless_refused asked.err (λ e. ret (some (around_vix "ReadMetadata: %v" (some e))))
      do
        let buf_len = stored asked.required require_len
        fetched ← read_metadata r key (replicate buf_len 0) buf_len none
        unless_error fetched.err (λ e. ret (some (around_vix "ReadMetadata: %v" (some e))))
            do
              err ← write_metadata w key fetched.buf
              unless_error err (λ e. ret (some (around_vix "WriteMetadata: %v" (some e))))
                  (rest buf_len)

unfoldable pub save_keys :
    (r w : DiskConnectHandle) → List (List Byte) → (require_len : ℕ) → Prog (Option DumpError)
save_keys r w [] require_len = ret none
save_keys r w (key ∷ keys) require_len =
    let rest : ℕ → Prog (Option DumpError) = save_keys r w keys in
    if is_blank key then rest require_len else save_key r w key require_len rest

unfoldable pub save_between : (r w : DiskConnectHandle) → Prog (Option DumpError)
save_between r w = do
  asked ← get_metadata_keys r [] 0 (some 0)
  unless_refused asked.err (λ e. ret (some (around_vix "GetMetadataKeys: %v" (some e))))
      do
        let buf_len = stored asked.required 0
        fetched ← get_metadata_keys r (replicate buf_len 0) buf_len none
        unless_error fetched.err (λ e. ret (some (around_vix "GetMetadataKeys: %v" (some e))))
            (save_keys r w (null_term_to_strings fetched.buf) buf_len)

unfoldable pub save_meta_data : VadpDumper → Prog (Option DumpError)
unfolding save_between
save_meta_data d = elim d.read_handle [
  | none ↦ ret (some err_disk_handle)
  | some r ↦ elim d.write_handle [ none ↦ ret (some err_disk_handle) | some w ↦ save_between r w ]
]

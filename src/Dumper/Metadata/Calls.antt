-- ===== src/Dumper/Metadata/Calls.antt =====
-- What is relied on of the library's metadata calls, as documented with the VDDK: the
-- question for a length answers "buffer too small" with the length, the list of the keys has a zero
-- byte behind each key and one more behind all, and a value has a byte at least, the zero at its end.
use virtual_disks.Base.{
  ℕ, ◌<◌, ◌≡◌, refl, sym, ap, subst, none, some, List, [], ◌∷◌, ◌++◌, arith, length, replicate,
  length-replicate, length-append, String,
}
use virtual_disks.Base.Bytes.{Byte}
use mathlib.Core.List.{Mem}
use virtual_disks.Vddk.{Call, World, MetadataReply}
use virtual_disks.Effects.{Machine, run, Ensures}
use virtual_disks.Disklib.Types.{
  VddkError, vix_error_code, vix_e_buffer_toosmall, vix_ok, check, new_vddk_error,
}
use virtual_disks.Disklib.Metadata
use virtual_disks.Disklib.Metadata.{Fetched, length_answer, buffer_answer}
use virtual_disks.Disk.Handle.{DiskConnectHandle}
use virtual_disks.Disk.Methods.{get_metadata_keys, read_metadata, write_metadata}
use virtual_disks.Dumper.Metadata.Strings.{joined}

-- The metadata of the source, and what has been written to the target, the oldest first.
pub record Tables : Type 0 where
  pub keys : List (List Byte)
  pub value : List Byte → List Byte
  pub written : List (List Byte × List Byte)

pub record IsMetadata (W : World) (source target : ℕ) (view : W.State → Tables) : Type 0 where
  pub keys_length :
      (s : W.State) (n : ℕ)
      → ((W.answer (Call.get_metadata_keys source none 0 (some n)) s).0.code
          ≡ vix_e_buffer_toosmall)
        × ((W.answer (Call.get_metadata_keys source none 0 (some n)) s).0.required
            ≡ length (joined (view s).keys (0 ∷ [])))
        × (view (W.answer (Call.get_metadata_keys source none 0 (some n)) s).1 ≡ view s)
  pub keys_filled :
      (s : W.State) (buf : List Byte) (n : ℕ)
      → length buf ≡ length (joined (view s).keys (0 ∷ []))
      → n ≡ length buf
      → ((W.answer (Call.get_metadata_keys source (some buf) n none) s).0.code ≡ vix_ok)
        × ((W.answer (Call.get_metadata_keys source (some buf) n none) s).0.buf
            ≡ joined (view s).keys (0 ∷ []))
        × (view (W.answer (Call.get_metadata_keys source (some buf) n none) s).1 ≡ view s)
  pub value_some :
      (s : W.State) (key : List Byte) → Mem key (view s).keys → 0 < length ((view s).value key)
  pub value_length :
      (s : W.State) (key : List Byte) (n : ℕ)
      → Mem key (view s).keys
      → ((W.answer (Call.read_metadata source key none 0 (some n)) s).0.code
          ≡ vix_e_buffer_toosmall)
        × ((W.answer (Call.read_metadata source key none 0 (some n)) s).0.required
            ≡ length ((view s).value key))
        × (view (W.answer (Call.read_metadata source key none 0 (some n)) s).1 ≡ view s)
  pub value_filled :
      (s : W.State) (key buf : List Byte) (n : ℕ)
      → Mem key (view s).keys
      → length buf ≡ length ((view s).value key)
      → n ≡ length buf
      → ((W.answer (Call.read_metadata source key (some buf) n none) s).0.code ≡ vix_ok)
        × ((W.answer (Call.read_metadata source key (some buf) n none) s).0.buf
            ≡ (view s).value key)
        × (view (W.answer (Call.read_metadata source key (some buf) n none) s).1 ≡ view s)
  pub value_written :
      (s : W.State) (key buf : List Byte)
      → ((W.answer (Call.write_metadata target key buf) s).0 ≡ vix_ok)
        × (view (W.answer (Call.write_metadata target key buf) s).1
            ≡ record (view s) { written = (view s).written ++ (key, buf) ∷ [] })

-- The answer to a question for a length.
pub record IsAsked (len : ℕ) (f : Fetched) : Type 0 where
  pub err : VddkError
  pub failed : f.err ≡ some err
  pub small : vix_error_code err ≡ vix_e_buffer_toosmall
  pub required : f.required ≡ some len

length_answer-IsAsked :
    (wanted len : ℕ) (format : String) (r : MetadataReply)
    → r.code ≡ vix_e_buffer_toosmall
    → r.required ≡ len
    → IsAsked len (length_answer wanted [] format r)
unfolding length_answer check new_vddk_error
length_answer-IsAsked wanted len format r e n = record {
  err = new_vddk_error r.code (record { format = format; args = r.code ∷ [] });
  failed = rw e refl;
  small = e;
  required = rw e (ap some n);
}

check-vix_ok : (code : ℕ) (format : String) → code ≡ vix_ok → check code format ≡ none
unfolding check
check-vix_ok code format e = rw e refl

abbrev pub with_written : Tables → List (List Byte × List Byte) → Tables
with_written v es = record v { written = v.written ++ es }

-- The keys as the library lists them.
abbrev pub listing : Tables → List Byte
listing v = joined v.keys (0 ∷ [])

-- A call that gives the bytes wanted and leaves the metadata alone.
pub record IsFetched {W : World} (view : W.State → Tables) (v : Tables) (bytes : List Byte)
    (f : Fetched) (t : Machine W) : Type 0 where
  pub clean : f.err ≡ none
  pub buf : f.buf ≡ bytes
  pub kept : view t.lib ≡ v

module _ {W : World} (r w : DiskConnectHandle) (view : W.State → Tables)
    (M : IsMetadata W r.dli w.dli view) where
  pub ask_value :
      (s : Machine W) (key : List Byte) (n : ℕ)
      → Mem key (view s.lib).keys
      → Ensures
          (run (read_metadata r key [] 0 (some n)) s)
          (λ f t. IsAsked (length ((view s.lib).value key)) f × (view t.lib ≡ view s.lib))
  unfolding run read_metadata Metadata.read_metadata
  ask_value s key n known =
      let (code, required, kept) = M.value_length s.lib key n known in
      (
        length_answer-IsAsked n _ _
            (W.answer (Call.read_metadata r.dli key none 0 (some n)) s.lib).0 code required,
        kept,
      )

  fill_value :
      (s : Machine W) (key buf : List Byte) (n : ℕ)
      → Mem key (view s.lib).keys
      → length buf ≡ length ((view s.lib).value key)
      → n ≡ length buf
      → Ensures
          (run (read_metadata r key buf n none) s)
          (IsFetched view (view s.lib) ((view s.lib).value key))
  unfolding run read_metadata Metadata.read_metadata buffer_answer
  fill_value s key [] n known e len = absurd (omega (arith, M.value_some s.lib key known, e))
  fill_value s key (b ∷ bs) n known e len =
      let (code, filled, kept) = M.value_filled s.lib key (b ∷ bs) n known e len in
      record { clean = check-vix_ok _ _ code; buf = filled; kept = kept }

  -- Into a new buffer of the value's length.
  pub fetch_value :
      (s : Machine W) (v : Tables) (key : List Byte)
      → view s.lib ≡ v
      → Mem key v.keys
      → Ensures
          (run
            (read_metadata r key (replicate (length (v.value key)) 0) (length (v.value key)) none)
            s)
          (IsFetched view v (v.value key))
  fetch_value s v key e =
      subst
        (λ v.
          Mem key v.keys
          → Ensures
              (run
                (read_metadata r key (replicate (length (v.value key)) 0) (length (v.value key))
                  none)
                s)
              (IsFetched view v (v.value key)))
        e
        (λ known.
          let len = length-replicate (length ((view s.lib).value key)) 0 in
          fill_value s key (replicate (length ((view s.lib).value key)) 0) _ known len (sym len))

  pub put_value :
      (s : Machine W) (key buf : List Byte)
      → 0 < length buf
      → Ensures
          (run (write_metadata w key buf) s)
          (λ e t. (e ≡ none) × (view t.lib ≡ with_written (view s.lib) ((key, buf) ∷ [])))
  unfolding run write_metadata Metadata.write_metadata
  put_value s key [] some_byte = absurd (omega arith)
  put_value s key (b ∷ bs) some_byte =
      let (code, written) = M.value_written s.lib key (b ∷ bs) in (check-vix_ok _ _ code, written)

  pub ask_keys :
      (s : Machine W) (n : ℕ)
      → Ensures
          (run (get_metadata_keys r [] 0 (some n)) s)
          (λ f t. IsAsked (length (listing (view s.lib))) f × (view t.lib ≡ view s.lib))
  unfolding run get_metadata_keys Metadata.get_metadata_keys
  ask_keys s n =
      let (code, required, kept) = M.keys_length s.lib n in
      (
        length_answer-IsAsked n _ _
            (W.answer (Call.get_metadata_keys r.dli none 0 (some n)) s.lib).0 code required,
        kept,
      )

  fill_keys :
      (s : Machine W) (buf : List Byte) (n : ℕ)
      → 0 < length buf
      → length buf ≡ length (listing (view s.lib))
      → n ≡ length buf
      → Ensures
          (run (get_metadata_keys r buf n none) s)
          (IsFetched view (view s.lib) (listing (view s.lib)))
  unfolding run get_metadata_keys Metadata.get_metadata_keys buffer_answer
  fill_keys s [] n some_byte e len = absurd (omega (arith, some_byte))
  fill_keys s (b ∷ bs) n some_byte e len =
      let (code, filled, kept) = M.keys_filled s.lib (b ∷ bs) n e len in
      record { clean = check-vix_ok _ _ code; buf = filled; kept = kept }

  listing_some : (keys : List (List Byte)) → 0 < length (joined keys (0 ∷ []))
  listing_some [] = omega arith
  listing_some (k ∷ keys) = omega (arith, length-append {0} k (0 ∷ joined keys (0 ∷ [])))

  pub fetch_keys :
      (s : Machine W) (v : Tables)
      → view s.lib ≡ v
      → Ensures
          (run (get_metadata_keys r (replicate (length (listing v)) 0) (length (listing v)) none) s)
          (IsFetched view v (listing v))
  fetch_keys s v e =
      subst
        (λ v.
          Ensures
            (run (get_metadata_keys r (replicate (length (listing v)) 0) (length (listing v)) none)
              s)
            (IsFetched view v (listing v)))
        e
        (let len = length-replicate (length (listing (view s.lib))) 0 in
          fill_keys s (replicate (length (listing (view s.lib))) 0) _
            (subst (λ n. 0 < n) (sym len) (listing_some (view s.lib).keys)) len (sym len))

-- ===== src/Tests/Metadata.antt =====
-- Metadata of a library with three keys, of which one is a space.
use virtual_disks.Base.{
  ℕ, suc, ◌≡◌, refl, none, some, List, [], ◌∷◌, ◌++◌, arith, length, length-append, false,
}
use virtual_disks.Base.Bytes.{Byte}
use virtual_disks.Base.Int.{pos}
use virtual_disks.Vddk.{Call, Reply, World}
use virtual_disks.Effects.{Machine, run, Ensures}
use virtual_disks.Disklib.Types.{vix_ok, vix_e_buffer_toosmall}
use virtual_disks.Dumper.Types.{VadpDumper}
use virtual_disks.Dumper.Metadata.{null_term_to_strings, save_meta_data, is_blank}
use virtual_disks.Dumper.Metadata.Strings.{
  NoNulls, NoNull, joined, null_term_to_strings-joined, null_term_to_strings-splits,
}
use virtual_disks.Dumper.Metadata.Calls.{Tables, IsMetadata, with_written}
use virtual_disks.Dumper.Metadata.Saved.{entries, save_meta_data-saves}
use virtual_disks.Tests.Device.{small_world}
use virtual_disks.Tests.Disk.{handle}
use virtual_disks.Tests.Dumper.{dumper}

abbrev names : List (List Byte)
names = (97 ∷ []) ∷ (32 ∷ []) ∷ (98 ∷ 99 ∷ []) ∷ []

abbrev value_of : List Byte → List Byte
value_of key = key ++ 0 ∷ []

abbrev Written : Type 0
Written = List (List Byte × List Byte)

abbrev answer : (c : Call) → Written → Reply c × Written
answer (Call.get_metadata_keys _ none _ _) w = (
  record { code = vix_e_buffer_toosmall; buf = []; required = length (joined names (0 ∷ [])) },
  w,
)
answer (Call.get_metadata_keys _ (some buf) _ _) w =
    (record { code = vix_ok; buf = joined names (0 ∷ []); required = 0 }, w)
answer (Call.read_metadata _ key none _ _) w =
    (record { code = vix_e_buffer_toosmall; buf = []; required = length (value_of key) }, w)
answer (Call.read_metadata _ key (some buf) _ _) w =
    (record { code = vix_ok; buf = value_of key; required = 0 }, w)
answer (Call.write_metadata _ key buf) w = (vix_ok, w ++ (key, buf) ∷ [])
answer c w = (((small_world 0).answer c (λ d i. 0)).0, w)

abbrev metadata_world : World
metadata_world = record { State = Written; answer = answer }

abbrev view : Written → Tables
view w = record { keys = names; value = value_of; written = w }

metadata_world-IsMetadata : IsMetadata metadata_world 9 9 view
metadata_world-IsMetadata = record {
  keys_length = λ s n. (refl, refl, refl);
  keys_filled = λ s buf n e h. (refl, refl, refl);
  value_some = λ s key m. omega (arith, length-append {0} key (0 ∷ []));
  value_length = λ s key n m. (refl, refl, refl);
  value_filled = λ s key buf n m e h. (refl, refl, refl);
  value_written = λ s key buf. (refl, refl);
}

abbrev machine : Machine metadata_world
machine = record { held = λ m. false; cells = λ c. pos 0; lib = [] }

abbrev job : VadpDumper
job = record dumper { read_handle = some handle; write_handle = some handle }

ne_zero : (n : ℕ) → suc n ≡ 0 → ⊥
ne_zero n e = omega (arith, e)

names-NoNulls : NoNulls names
names-NoNulls = ((ne_zero 96, tt), ((ne_zero 31, tt), ((ne_zero 97, (ne_zero 98, tt)), tt)))

-- The blank key is left out.
names_saved :
    entries names value_of ≡ ((97 ∷ []), (97 ∷ 0 ∷ [])) ∷ ((98 ∷ 99 ∷ []), (98 ∷ 99 ∷ 0 ∷ [])) ∷ []
unfolding is_blank
names_saved = refl

null_term_to_strings-joined_example : null_term_to_strings (joined names (7 ∷ [])) ≡ names
null_term_to_strings-joined_example =
    null_term_to_strings-joined names (7 ∷ []) names-NoNulls (ne_zero 6, tt)

null_term_to_strings-splits_example :
    (rest : List Byte) × (joined (null_term_to_strings (5 ∷ 0 ∷ 0 ∷ 6 ∷ [])) rest
      ≡ 5 ∷ 0 ∷ 0 ∷ 6 ∷ [])
    × NoNulls (null_term_to_strings (5 ∷ 0 ∷ 0 ∷ 6 ∷ []))
    × NoNull rest
null_term_to_strings-splits_example = null_term_to_strings-splits (5 ∷ 0 ∷ 0 ∷ 6 ∷ [])

save_meta_data-saves_example :
    Ensures
      (run (save_meta_data job) machine)
      (λ e t. (e ≡ none) × (view t.lib ≡ with_written (view []) (entries names value_of)))
save_meta_data-saves_example =
    save_meta_data-saves handle handle view metadata_world-IsMetadata job machine refl refl
      names-NoNulls

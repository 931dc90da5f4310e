-- ===== src/Tests/ThumbPrint.antt =====
-- A server that answers at one address, and a digest of three bytes.
use virtual_disks.Base.{
  ℕ, ◌≡◌, refl, none, ◌⊎◌, inl, inr, List, [], ◌∷◌, String, arith, length, if◌then◌else◌,
}
use virtual_disks.Base.Bytes.{Byte}
use virtual_disks.Disklib.ThumbPrint.{thumb_print_loop, get_thumb_print_for_server}
use virtual_disks.Disklib.ThumbPrint.ReadBack.{read_back, get_thumb_print_for_server-reads_back}
use text.Mathlib.Text.{◌==◌}

abbrev pub dial : String → ℕ ⊎ List (List Byte)
dial address = if address == "vc:443" then inr ((1 ∷ 2 ∷ []) ∷ []) else inl 111

abbrev pub sha1 : List Byte → List Byte
sha1 cert = 175 ∷ 9 ∷ length cert ∷ []

thumb_print_text : get_thumb_print_for_server dial sha1 "vc" "443" ≡ ("AF:09:02", none)
unfolding get_thumb_print_for_server thumb_print_loop
thumb_print_text = refl

get_thumb_print_for_server-reads_back_example :
    (read_back (get_thumb_print_for_server dial sha1 "vc" "443").0 ≡ 175 ∷ 9 ∷ 2 ∷ [])
    × ((get_thumb_print_for_server dial sha1 "vc" "443").1 ≡ none)
get_thumb_print_for_server-reads_back_example =
    get_thumb_print_for_server-reads_back dial sha1 "vc" "443" (1 ∷ 2 ∷ []) [] refl
      (omega arith, (omega arith, (omega arith, tt)))

-- ===== src/Disklib/ThumbPrint/ReadBack.antt =====
-- Reading the digest back from a thumbprint.
use virtual_disks.Base.{
  ℕ, ◌+◌, ◌-◌, ◌*◌, ◌/◌, ◌%◌, ◌<◌, ◌≡◌, refl, sym, ap, ◌∙◌, none, ◌⊎◌, inr, List, String, arith,
  ltb, ◌==◌, ==_iff, all_below-lt, if◌then◌else◌,
}
use virtual_disks.Base.Bytes.{Byte}
use virtual_disks.Disklib.ThumbPrint.{
  hex_digit, two_hex, with_colon, thumb_print_loop, address, get_thumb_print_for_server,
}
use mathlib.Core.List as L
use Prim.Native.Nat.{Ordering}
use Prim.Native.Char.{Char, code}
use Prim.Native.String.{[], ◌∷◌, ◌++◌, compare}
use Prim.Native.String.compare.{cons-nil}
use text.Mathlib.TextLemmas.{nil-append, cons-append, append-nil, append_assoc}

abbrev digit_value : Char → ℕ
digit_value c = if ltb (code c) 58 then code c - 48 else code c - 55

-- Two digits for a byte, with one character between two bytes.
abbrev pub read_back : String → List Byte
read_back (a ∷ b ∷ []) = L.◌∷◌ (digit_value a * 16 + digit_value b) L.[]
read_back (a ∷ b ∷ c ∷ rest) = L.◌∷◌ (digit_value a * 16 + digit_value b) (read_back rest)
read_back _ = L.[]

abbrev pub AreBytes : List ℕ → Type 0
AreBytes L.[] = Unit
AreBytes (L.◌∷◌ b bs) = (b < 256) × AreBytes bs

digit_value-hex_digit : (n : ℕ) → n < 16 → digit_value (hex_digit n) ≡ n
digit_value-hex_digit n h =
    (==_iff (digit_value (hex_digit n)) n).0
      (all_below-lt 16 (λ m. digit_value (hex_digit m) == m) refl n h)

byte_value :
    (b : Byte)
    → b < 256
    → digit_value (hex_digit (b / 16)) * 16 + digit_value (hex_digit (b % 16)) ≡ b
byte_value b h =
    rw (digit_value-hex_digit (b / 16) (omega arith), digit_value-hex_digit (b % 16) (omega arith))
      (omega arith)

two_hex-append :
    (b : Byte) (rest : String) → two_hex b ++ rest ≡ hex_digit (b / 16) ∷ hex_digit (b % 16) ∷ rest
two_hex-append b rest =
    cons-append (hex_digit (b / 16)) (hex_digit (b % 16) ∷ []) rest
    ∙ ap (◌∷◌ (hex_digit (b / 16)))
        (cons-append (hex_digit (b % 16)) [] rest ∙ ap (◌∷◌ (hex_digit (b % 16))) (nil-append rest))

with_colon-cons : (c : Char) (cs : String) → with_colon (c ∷ cs) ≡ c ∷ (cs ++ ":")
with_colon-cons c cs =
    let not_empty : compare (c ∷ cs) "" ≡ Ordering.gt = λ i. cons-nil c cs i in
    rw not_empty (cons-append c cs ":")

-- What the loop adds behind a thumbprint that is not empty.
abbrev more_text : List Byte → String
more_text L.[] = []
more_text (L.◌∷◌ b bs) = ":" ++ (two_hex b ++ more_text bs)

thumb_print_loop-append :
    (c : Char) (cs : String) (bs : List Byte)
    → thumb_print_loop (c ∷ cs) bs ≡ c ∷ (cs ++ more_text bs)
unfolding thumb_print_loop
thumb_print_loop-append c cs L.[] = ap (◌∷◌ c) (sym (append-nil cs))
thumb_print_loop-append c cs (L.◌∷◌ b bs) =
    ap (λ text. thumb_print_loop (text ++ two_hex b) bs) (with_colon-cons c cs)
    ∙ ap (λ text. thumb_print_loop text bs) (cons-append c (cs ++ ":") (two_hex b))
    ∙ thumb_print_loop-append c ((cs ++ ":") ++ two_hex b) bs
    ∙ ap (◌∷◌ c) (
        append_assoc (cs ++ ":") (two_hex b) (more_text bs)
        ∙ append_assoc cs ":" (two_hex b ++ more_text bs))

more_text-cons :
    (b : Byte) (bs : List Byte)
    → more_text (L.◌∷◌ b bs) ≡ ":" ++ (hex_digit (b / 16) ∷ hex_digit (b % 16) ∷ more_text bs)
more_text-cons b bs = ap (λ text. ":" ++ text) (two_hex-append b (more_text bs))

read_back-more_text :
    (b : Byte) (bs : List Byte)
    → b < 256
    → AreBytes bs
    → read_back (hex_digit (b / 16) ∷ hex_digit (b % 16) ∷ more_text bs) ≡ L.◌∷◌ b bs
read_back-more_text b L.[] h hs = ap (λ x. L.◌∷◌ x L.[]) (byte_value b h)
read_back-more_text b (L.◌∷◌ c bs) h hs =
    let digits = hex_digit (c / 16) ∷ hex_digit (c % 16) ∷ more_text bs in
    ap (λ text. read_back (hex_digit (b / 16) ∷ hex_digit (b % 16) ∷ text))
      (more_text-cons c bs ∙ cons-append ":" [] digits ∙ ap (◌∷◌ ":") (nil-append digits))
    ∙ ap (λ x. L.◌∷◌ x (read_back digits)) (byte_value b h)
    ∙ ap (L.◌∷◌ b) (read_back-more_text c bs hs.0 hs.1)

read_back-thumb_print_loop :
    (bs : List Byte) → AreBytes bs → read_back (thumb_print_loop "" bs) ≡ bs
unfolding thumb_print_loop
read_back-thumb_print_loop L.[] h = refl
read_back-thumb_print_loop (L.◌∷◌ b bs) h =
    ap (λ text. read_back (thumb_print_loop text bs)) (nil-append (two_hex b))
    ∙ ap read_back (
        thumb_print_loop-append (hex_digit (b / 16)) (hex_digit (b % 16) ∷ []) bs
        ∙ ap (◌∷◌ (hex_digit (b / 16))) (
            cons-append (hex_digit (b % 16)) [] (more_text bs)
            ∙ ap (◌∷◌ (hex_digit (b % 16))) (nil-append (more_text bs))))
    ∙ read_back-more_text b bs h.0 h.1

-- A server that shows a certificate has a thumbprint, without an error, and the digest of its first
-- certificate can be read back from it, where the digest consists of bytes.
pub get_thumb_print_for_server-reads_back :
    {E : Type 0} (dial : (address : String) → E ⊎ List (List Byte)) (sha1 : List Byte → List Byte)
    (host port : String) (cert : List Byte) (peer_certs : List (List Byte))
    → dial (address host port) ≡ inr (L.◌∷◌ cert peer_certs)
    → AreBytes (sha1 cert)
    → (read_back (get_thumb_print_for_server dial sha1 host port).0 ≡ sha1 cert)
      × ((get_thumb_print_for_server dial sha1 host port).1 ≡ none)
unfolding get_thumb_print_for_server
get_thumb_print_for_server-reads_back dial sha1 host port cert peer_certs shown bytes =
    let e : get_thumb_print_for_server dial sha1 host port
        ≡ (thumb_print_loop "" (sha1 cert), none) =
      rw (get_thumb_print_for_server, shown) refl in
    (ap (λ r. read_back r.0) e ∙ read_back-thumb_print_loop (sha1 cert) bytes, ap (λ r. r.1) e)

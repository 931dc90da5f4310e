-- ===== src/Dumper/Metadata/Strings.antt =====
-- `NullTermToStrings` beside strings that end with zero bytes.
use virtual_disks.Base.{
  ℕ, zero, suc, ◌≤◌, ◌≡◌, ◌≢◌, refl, sym, ap, ◌∙◌, subst, none, some, List, [], ◌∷◌, ◌++◌, ◌==◌,
  ==_iff, arith, length, length-append, take-append, drop-append, append-nil, append_assoc,
  Bool-cases, inl, inr, false,
}
use virtual_disks.Base.Bytes.{Byte}
use virtual_disks.Dumper.Metadata.{index_byte, strings_loop, null_term_to_strings}

-- No byte is zero.
abbrev pub NoNull : List Byte → Type 0
NoNull [] = Unit
NoNull (b ∷ bs) = (b ≢ 0) × NoNull bs

abbrev pub NoNulls : List (List Byte) → Type 0
NoNulls [] = Unit
NoNulls (k ∷ ks) = NoNull k × NoNulls ks

-- The strings, each with a zero byte behind it, and then the rest.
abbrev pub joined : List (List Byte) → (rest : List Byte) → List Byte
joined [] rest = rest
joined (k ∷ ks) rest = k ++ 0 ∷ joined ks rest

==_ne : (b c : ℕ) → b ≢ c → (b == c) ≡ false
==_ne b c ne = elim (Bool-cases (b == c)) [ inl e ↦ absurd (ne ((==_iff b c).0 e)) | inr e ↦ e ]

index_byte-none : (b : List Byte) → NoNull b → index_byte b 0 ≡ none
unfolding index_byte
index_byte-none [] h = refl
index_byte-none (b ∷ bs) h = rw (==_ne b 0 h.0, index_byte-none bs h.1) refl

index_byte-append : (k bs : List Byte) → NoNull k → index_byte (k ++ 0 ∷ bs) 0 ≡ some (length k)
unfolding index_byte
index_byte-append [] bs h = refl
index_byte-append (b ∷ k) bs h =
    rw (==_ne b 0 h.0, index_byte-append k bs h.1) (ap some (omega arith))

strings_loop-joined :
    (fuel : ℕ) (s ks : List (List Byte)) (rest : List Byte)
    → NoNulls ks
    → NoNull rest
    → length (joined ks rest) ≤ fuel
    → strings_loop fuel s (joined ks rest) ≡ s ++ ks
unfolding strings_loop
strings_loop-joined zero s [] rest h g le = sym (append-nil s)
strings_loop-joined (suc fuel) s [] rest h g le =
    rw (strings_loop, index_byte-none rest g) (sym (append-nil s))
strings_loop-joined zero s (k ∷ ks) rest h g le =
    absurd (omega (arith, le, length-append {0} k (0 ∷ joined ks rest)))
strings_loop-joined (suc fuel) s (k ∷ ks) rest h g le =
    rw
      (
        strings_loop,
        index_byte-append k (joined ks rest) h.0,
        take-append k (0 ∷ joined ks rest),
        drop-append k (0 ∷ joined ks rest) 1,
      )
      (strings_loop-joined fuel (s ++ k ∷ []) ks rest h.1 g
          (omega (arith, le, length-append {0} k (0 ∷ joined ks rest)))
        ∙ append_assoc s (k ∷ []) ks)

-- Strings without a zero byte, each with a zero byte behind it, and any bytes without a zero byte
-- behind all of them: they come back as they were, and what no zero byte ends is dropped.
pub null_term_to_strings-joined :
    (ks : List (List Byte)) (rest : List Byte)
    → NoNulls ks
    → NoNull rest
    → null_term_to_strings (joined ks rest) ≡ ks
unfolding null_term_to_strings
null_term_to_strings-joined ks rest h g =
    strings_loop-joined (length (joined ks rest)) [] ks rest h g (omega arith)

record Split (b : List Byte) : Type 0 where
  strings : List (List Byte)
  rest : List Byte
  whole : joined strings rest ≡ b
  clean : NoNulls strings
  rest_clean : NoNull rest

one_byte_more :
    (b : Byte) (ss : List (List Byte)) (rest : List Byte)
    → NoNulls ss
    → NoNull rest
    → Split (b ∷ joined ss rest)
one_byte_more b ss rest h g = elim (Bool-cases (b == 0)) [
  | inl e ↦ record {
    strings = [] ∷ ss;
    rest = rest;
    whole = ap (λ c. c ∷ joined ss rest) (sym ((==_iff b 0).0 e));
    clean = (tt, h);
    rest_clean = g;
  }
  | inr e ↦ longer ss h (λ z. cc ((==_iff b 0).1 z, e))
]
  where
    longer : (ss : List (List Byte)) → NoNulls ss → b ≢ 0 → Split (b ∷ joined ss rest)
    longer [] h ne = record {
      strings = [];
      rest = b ∷ rest;
      whole = refl;
      clean = tt;
      rest_clean = (ne, g);
    }
    longer (k ∷ ks) h ne = record {
      strings = (b ∷ k) ∷ ks;
      rest = rest;
      whole = refl;
      clean = ((ne, h.0), h.1);
      rest_clean = g;
    }

split : (b : List Byte) → Split b
split [] = record { strings = []; rest = []; whole = refl; clean = tt; rest_clean = tt }
split (b ∷ bs) =
    let s = split bs in
    subst (λ x. Split (b ∷ x)) s.whole (one_byte_more b s.strings s.rest s.clean s.rest_clean)

-- Any bytes are the strings that it returns, each with a zero byte behind it, and a rest; neither
-- the strings nor the rest have a zero byte.
pub null_term_to_strings-splits :
    (b : List Byte)
    → (rest : List Byte) × (joined (null_term_to_strings b) rest ≡ b)
      × NoNulls (null_term_to_strings b)
      × NoNull rest
null_term_to_strings-splits b =
    let s = split b in
    let e : null_term_to_strings b ≡ s.strings =
      ap null_term_to_strings (sym s.whole)
      ∙ null_term_to_strings-joined s.strings s.rest s.clean s.rest_clean in
    (s.rest, ap (λ ks. joined ks s.rest) e ∙ s.whole, subst NoNulls (sym e) s.clean, s.rest_clean)

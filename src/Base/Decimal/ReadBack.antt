-- ===== src/Base/Decimal/ReadBack.antt =====
-- Reading the number back from decimal text.
use virtual_disks.Base.{
  ℕ, zero, suc, ◌+◌, ◌-◌, ◌*◌, ◌/◌, ◌%◌, ◌^◌, ◌<◌, ◌≡◌, refl, ap, ◌∙◌, inl, inr, String, Bool-cases,
  ◌==◌, ==_iff, all_below-lt, ltb, ltb→lt, lt→ltb, arith,
}
use virtual_disks.Base.Int.{pos}
use virtual_disks.Base.Decimal.{digit, write_digits, format_int}
use Prim.Native.Char.{code}
use Prim.Native.String.{[], ◌∷◌}

-- The number that digits spell behind `n`.
pub read_digits : ℕ → String → ℕ
read_digits n [] = n
read_digits n (c ∷ text) = read_digits (n * 10 + (code c - 48)) text

code-digit : (n : ℕ) → n < 10 → code (digit n) ≡ 48 + n
code-digit n h =
    (==_iff (code (digit n)) (48 + n)).0 (all_below-lt 10 (λ m. code (digit m) == 48 + m) refl n h)

-- Ten to the number of digits.
abbrev limit : ℕ → ℕ
limit zero = 10
limit (suc fuel) = 10 * limit fuel

last_digit :
    (n : ℕ) (text : String) → read_digits (n / 10) (digit (n % 10) ∷ text) ≡ read_digits n text
unfolding read_digits
last_digit n text =
    ap (λ k. read_digits k text) (rw (code-digit (n % 10) (omega arith)) (omega arith))

only_digit :
    (n : ℕ) (text : String) → n < 10 → read_digits 0 (digit (n % 10) ∷ text) ≡ read_digits n text
only_digit n text small =
    let no_tens : 0 ≡ n / 10 = omega (arith, small) in
    ap (λ k. read_digits k (digit (n % 10) ∷ text)) no_tens ∙ last_digit n text

read_digits-write_digits :
    (fuel n : ℕ) (text : String)
    → n < limit fuel
    → read_digits 0 (write_digits (suc fuel) n text) ≡ read_digits n text
unfolding write_digits
read_digits-write_digits zero n text small =
    let less : n < 10 = omega (arith, small) in rw (lt→ltb n 10 less) (only_digit n text less)
read_digits-write_digits (suc fuel) n text small = elim (Bool-cases (ltb n 10)) [
  | inl less ↦ rw less (only_digit n text (ltb→lt n 10 less))
  | inr more ↦ rw more (
      read_digits-write_digits fuel (n / 10) (digit (n % 10) ∷ text) (omega (arith, small))
      ∙ last_digit n text)
]

pub read_digits-format_int : (n : ℕ) → n < 2 ^ 63 → read_digits 0 (format_int (pos n)) ≡ n
unfolding format_int read_digits
read_digits-format_int n small = read_digits-write_digits 19 n "" (omega arith)

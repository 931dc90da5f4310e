-- ===== src/Base/Decimal.antt =====
-- Decimal text, as `strconv.FormatInt` with base 10 and the verb `%v` give it for an int.
pub mod ReadBack
use virtual_disks.Base.{ℕ, zero, suc, ◌/◌, ◌%◌, String, ltb, if◌then◌else◌}
use virtual_disks.Base.Int.{ℤ, pos, negsuc}
use Prim.Native.Char.{Char}
use Prim.Native.String.{◌∷◌, ◌++◌, char_at}

abbrev pub digit : ℕ → Char
digit n = char_at "0123456789" n

-- The digits of `n` in front of a text, the last one first.
unfoldable pub write_digits : (fuel n : ℕ) → String → String
write_digits zero n text = text
write_digits (suc fuel) n text =
    let written = digit (n % 10) ∷ text in
    let rest = write_digits fuel (n / 10) written in if ltb n 10 then written else rest

-- A number of 64 bits has at most 20 digits.
abbrev pub format_uint : ℕ → String
format_uint n = write_digits 20 n ""

unfoldable pub format_int : ℤ → String
format_int (pos n) = format_uint n
format_int (negsuc n) = "-" ++ format_uint (suc n)

-- ===== src/Base/Lists.antt =====
-- Lists measured by native numbers, under the library's names, and Go's `copy` into a slice.
use Prim.Native.Nat.{ℕ, zero, suc, ◌+◌, ◌-◌, ◌≤◌, min}
use mathlib.Core.Path.{◌≡◌, refl, ap}
use mathlib.Core.List.{List, [], ◌∷◌, ◌++◌}
use native.Mathlib.Omega.{arith}
use native.Mathlib.Nat.{zero-add, suc-add}

module _ {ℓ} {A : Type ℓ} where
  abbrev pub length : List A → ℕ
  length [] = 0
  length (x ∷ xs) = suc (length xs)

  abbrev pub take : ℕ → List A → List A
  take zero xs = []
  take (suc n) [] = []
  take (suc n) (x ∷ xs) = x ∷ take n xs

  abbrev pub drop : ℕ → List A → List A
  drop zero xs = xs
  drop (suc n) [] = []
  drop (suc n) (x ∷ xs) = drop n xs

  abbrev pub replicate : ℕ → A → List A
  replicate zero a = []
  replicate (suc n) a = a ∷ replicate n a

  -- `copy(dst[off:], src)`: as many items as both sides have.
  abbrev pub overwrite : List A → ℕ → List A → List A
  overwrite [] off src = []
  overwrite (x ∷ xs) (suc off) src = x ∷ overwrite xs off src
  overwrite (x ∷ xs) zero [] = x ∷ xs
  overwrite (x ∷ xs) zero (y ∷ ys) = y ∷ overwrite xs zero ys

  pub length-append : (xs ys : List A) → length (xs ++ ys) ≡ length xs + length ys
  length-append [] ys = omega arith
  length-append (x ∷ xs) ys = omega (arith, length-append xs ys)

  pub take-append-drop : (n : ℕ) (xs : List A) → take n xs ++ drop n xs ≡ xs
  take-append-drop zero xs = refl
  take-append-drop (suc n) [] = refl
  take-append-drop (suc n) (x ∷ xs) = ap (◌∷◌ x) (take-append-drop n xs)

  pub length-take : (n : ℕ) (xs : List A) → length (take n xs) ≡ min n (length xs)
  length-take zero xs = omega arith
  length-take (suc n) [] = omega arith
  length-take (suc n) (x ∷ xs) = omega (arith, length-take n xs)

  pub length-drop : (n : ℕ) (xs : List A) → length (drop n xs) ≡ length xs - n
  length-drop zero xs = omega arith
  length-drop (suc n) [] = omega arith
  length-drop (suc n) (x ∷ xs) = omega (arith, length-drop n xs)

  pub length-replicate : (n : ℕ) (a : A) → length (replicate n a) ≡ n
  length-replicate zero a = refl
  length-replicate (suc n) a = ap suc (length-replicate n a)

  pub length-overwrite :
      (xs : List A) (off : ℕ) (ys : List A) → length (overwrite xs off ys) ≡ length xs
  length-overwrite [] off ys = refl
  length-overwrite (x ∷ xs) (suc off) ys = ap suc (length-overwrite xs off ys)
  length-overwrite (x ∷ xs) zero [] = refl
  length-overwrite (x ∷ xs) zero (y ∷ ys) = ap suc (length-overwrite xs zero ys)

  -- A copy that fits, written out.
  pub overwrite_lem :
      (xs : List A) (off : ℕ) (ys : List A)
      → off + length ys ≤ length xs
      → overwrite xs off ys ≡ take off xs ++ (ys ++ drop (off + length ys) xs)
  overwrite_lem [] zero [] h = refl
  overwrite_lem [] zero (y ∷ ys) h = absurd (omega arith)
  overwrite_lem [] (suc off) ys h = absurd (omega arith)
  overwrite_lem (x ∷ xs) (suc off) ys h =
      rw suc-add (ap (◌∷◌ x) (overwrite_lem xs off ys (omega arith)))
  overwrite_lem (x ∷ xs) zero [] h = refl
  overwrite_lem (x ∷ xs) zero (y ∷ ys) h =
      rw zero-add (ap (◌∷◌ y) (rw zero-add at (overwrite_lem xs zero ys (omega arith))))

  pub drop-drop : (m n : ℕ) (xs : List A) → drop n (drop m xs) ≡ drop (m + n) xs
  drop-drop zero n xs = rw zero-add
  drop-drop (suc m) zero [] = rw suc-add
  drop-drop (suc m) (suc n) [] = rw suc-add
  drop-drop (suc m) n (x ∷ xs) = rw suc-add (drop-drop m n xs)

  pub take-length : (xs : List A) → take (length xs) xs ≡ xs
  take-length [] = refl
  take-length (x ∷ xs) = ap (◌∷◌ x) (take-length xs)

  pub drop-length : (xs : List A) → drop (length xs) xs ≡ []
  drop-length [] = refl
  drop-length (x ∷ xs) = drop-length xs

  pub take-append : (xs ys : List A) → take (length xs) (xs ++ ys) ≡ xs
  take-append [] ys = refl
  take-append (x ∷ xs) ys = ap (◌∷◌ x) (take-append xs ys)

  pub drop-append : (xs ys : List A) (n : ℕ) → drop (length xs + n) (xs ++ ys) ≡ drop n ys
  drop-append [] ys n = rw zero-add
  drop-append (x ∷ xs) ys n = rw suc-add (drop-append xs ys n)

  -- Cutting a prefix off a prefix.
  pub take-take : (m n : ℕ) (xs : List A) → m ≤ n → take m (take n xs) ≡ take m xs
  take-take zero n xs h = refl
  take-take (suc m) zero xs h = absurd (omega arith)
  take-take (suc m) (suc n) [] h = refl
  take-take (suc m) (suc n) (x ∷ xs) h = ap (◌∷◌ x) (take-take m n xs (omega arith))

  pub take-add : (m n : ℕ) (xs : List A) → take (m + n) xs ≡ take m xs ++ take n (drop m xs)
  take-add zero n xs = rw zero-add
  take-add (suc m) zero [] = rw suc-add
  take-add (suc m) (suc n) [] = rw suc-add
  take-add (suc m) n (x ∷ xs) = rw suc-add (ap (◌∷◌ x) (take-add m n xs))

  -- The same with the length of the first part as a number.
  pub take-append_of_length : (n : ℕ) (xs ys : List A) → length xs ≡ n → take n (xs ++ ys) ≡ xs
  take-append_of_length n xs ys h = rw (← h) (take-append xs ys)

  pub drop-append_of_length :
      (n m : ℕ) (xs ys : List A) → length xs ≡ n → drop (n + m) (xs ++ ys) ≡ drop m ys
  drop-append_of_length n m xs ys h = rw (← h) (drop-append xs ys m)

  pub overwrite-append :
      (xs ys src : List A)
      → length src ≤ length ys
      → overwrite (xs ++ ys) (length xs) src ≡ xs ++ (src ++ drop (length src) ys)
  overwrite-append [] ys src h = rw zero-add at (overwrite_lem ys 0 src (omega arith))
  overwrite-append (x ∷ xs) ys src h = ap (◌∷◌ x) (overwrite-append xs ys src h)

  pub overwrite-append_of_length :
      (n : ℕ) (xs ys src : List A)
      → length xs ≡ n
      → length src ≤ length ys
      → overwrite (xs ++ ys) n src ≡ xs ++ (src ++ drop (length src) ys)
  overwrite-append_of_length n xs ys src e h = rw (← e) (overwrite-append xs ys src h)

  pub take-append_le : (n : ℕ) (xs ys : List A) → n ≤ length xs → take n (xs ++ ys) ≡ take n xs
  take-append_le zero xs ys h = refl
  take-append_le (suc n) [] ys h = absurd (omega arith)
  take-append_le (suc n) (x ∷ xs) ys h = ap (◌∷◌ x) (take-append_le n xs ys (omega arith))

  pub take-all : (n : ℕ) (xs : List A) → length xs ≤ n → take n xs ≡ xs
  take-all zero [] h = refl
  take-all zero (x ∷ xs) h = absurd (omega arith)
  take-all (suc n) [] h = refl
  take-all (suc n) (x ∷ xs) h = ap (◌∷◌ x) (take-all n xs (omega arith))

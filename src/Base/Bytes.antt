-- ===== src/Base/Bytes.antt =====
-- A disk's content as a function from byte positions, and its runs as lists.
use virtual_disks.Base.Tests.{◌==◌, if◌then◌else◌, ==_iff, Bool-cases}
use virtual_disks.Base.Lists.{length, take, drop, overwrite, overwrite_lem, length-take, take-add}
use Prim.Native.Nat.{ℕ, zero, suc, ◌+◌, ◌-◌, ◌≤◌, ◌<◌}
use mathlib.Core.Path.{◌≡◌, refl, sym, ap, ap₂, fun_ext, ◌∙◌, ◌≡⟨◌⟩◌, ◌∎}
use mathlib.Core.Logic.{inl, inr}
use mathlib.Core.List.{List, [], ◌∷◌, ◌++◌}
use native.Mathlib.Omega.{arith}
use native.Mathlib.Nat.{zero-add, add-zero, suc-add}

abbrev pub Byte : Type 0
Byte = ℕ

abbrev pub Content : Type 0
Content = ℕ → Byte

-- The `n` bytes from position `off` on.
abbrev pub bytes_at : Content → ℕ → ℕ → List Byte
bytes_at f off zero = []
bytes_at f off (suc n) = f off ∷ bytes_at f (off + 1) n

-- The content after the bytes from `off` on have been replaced by the list's.
abbrev pub patch : Content → ℕ → List Byte → Content
patch f off [] i = f i
patch f off (b ∷ bs) i = if i == off then b else patch f (off + 1) bs i

cons_eq : {x y : Byte} {xs ys : List Byte} → x ≡ y → xs ≡ ys → x ∷ xs ≡ y ∷ ys
cons_eq p q i = p i ∷ q i

pub bytes_at_eq : (f : Content) (a b m n : ℕ) → a ≡ b → m ≡ n → bytes_at f a m ≡ bytes_at f b n
bytes_at_eq f a b m n p q = ap₂ (bytes_at f) p q

pub length-bytes_at : (f : Content) (off n : ℕ) → length (bytes_at f off n) ≡ n
length-bytes_at f off zero = refl
length-bytes_at f off (suc n) = ap suc (length-bytes_at f (off + 1) n)

pub bytes_at-add :
    (f : Content) (off m n : ℕ)
    → bytes_at f off (m + n) ≡ bytes_at f off m ++ bytes_at f (off + m) n
bytes_at-add f off zero n = simp (zero-add, add-zero)
bytes_at-add f off (suc m) n = rw suc-add (
    ap (◌∷◌ (f off)) (
      rw (bytes_at-add f (off + 1) m n)
        (ap (λ k. bytes_at f (off + 1) m ++ bytes_at f k n) (omega arith))))

pub take-bytes_at :
    (f : Content) (off m n : ℕ) → m ≤ n → take m (bytes_at f off n) ≡ bytes_at f off m
take-bytes_at f off zero n h = refl
take-bytes_at f off (suc m) zero h = absurd (omega arith)
take-bytes_at f off (suc m) (suc n) h =
    ap (◌∷◌ (f off)) (take-bytes_at f (off + 1) m n (omega arith))

pub drop-bytes_at :
    (f : Content) (off m n : ℕ) → drop m (bytes_at f off n) ≡ bytes_at f (off + m) (n - m)
drop-bytes_at f off zero n = bytes_at_eq f off (off + 0) n (n - 0) (omega arith) (omega arith)
drop-bytes_at f off (suc m) zero =
    bytes_at_eq f (off + suc m) (off + suc m) 0 (0 - suc m) refl (omega arith)
drop-bytes_at f off (suc m) (suc n) =
    drop-bytes_at f (off + 1) m n
    ∙ bytes_at_eq f (off + 1 + m) (off + suc m) (n - m) (suc n - suc m) (omega arith) (omega arith)

-- The patched content, position by position.
pub patch_below :
    (f : Content) (off : ℕ) (bs : List Byte) (i : ℕ) → i < off → patch f off bs i ≡ f i
patch_below f off [] i h = refl
patch_below f off (b ∷ bs) i h = ground (arith, patch_below f (off + 1) bs i)

pub patch_above :
    (f : Content) (off : ℕ) (bs : List Byte) (i : ℕ) → off + length bs ≤ i → patch f off bs i ≡ f i
patch_above f off [] i h = refl
patch_above f off (b ∷ bs) i h = ground (arith, patch_above f (off + 1) bs i)

patch_shift :
    (f g : Content) (a b : ℕ) (bs : List Byte) (i : ℕ)
    → a ≡ b
    → f i ≡ g i
    → patch f a bs i ≡ patch g b bs i
patch_shift f g a b [] i e h = h
patch_shift f g a b (x ∷ bs) i e h = ground (arith, patch_shift f g (a + 1) (b + 1) bs i)

patch-append_at :
    (f : Content) (off : ℕ) (ds bs : List Byte) (i : ℕ)
    → patch f off (ds ++ bs) i ≡ patch (patch f off ds) (off + length ds) bs i
patch-append_at f off [] bs i = ap (λ k. patch f k bs i) (omega arith)
patch-append_at f off (d ∷ ds) bs i = elim (Bool-cases (i == off)) [
  | inl here ↦ ground (arith, patch_below (patch f off (d ∷ ds)) (off + suc (length ds)) bs i)
  | inr past ↦ rw past (
      patch-append_at f (off + 1) ds bs i
      ∙ patch_shift (patch f (off + 1) ds) (patch f off (d ∷ ds)) (off + 1 + length ds)
          (off + suc (length ds)) bs i (omega arith) (rw past))
]

-- Two runs written one after the other are one run.
pub patch-append :
    (f : Content) (off : ℕ) (ds bs : List Byte)
    → patch f off (ds ++ bs) ≡ patch (patch f off ds) (off + length ds) bs
patch-append f off ds bs = fun_ext (patch-append_at f off ds bs)

pub bytes_at_cong :
    (f g : Content) (off n : ℕ)
    → ((i : ℕ) → off ≤ i → i < off + n → f i ≡ g i)
    → bytes_at f off n ≡ bytes_at g off n
bytes_at_cong f g off zero h = refl
bytes_at_cong f g off (suc n) h =
    cons_eq (h off (omega arith) (omega arith))
      (bytes_at_cong f g (off + 1) n (λ i a b. h i (omega arith) (omega arith)))

-- Reading what has just been written.
pub bytes_at-patch_self :
    (f : Content) (off : ℕ) (bs : List Byte) → bytes_at (patch f off bs) off (length bs) ≡ bs
bytes_at-patch_self f off [] = refl
bytes_at-patch_self f off (b ∷ bs) = cons_eq (ground arith) (
    bytes_at_cong (patch f off (b ∷ bs)) (patch f (off + 1) bs) (off + 1) (length bs)
      (λ i a c. ground arith)
    ∙ bytes_at-patch_self f (off + 1) bs)

patch-bytes_at_at : (f : Content) (off n i : ℕ) → patch f off (bytes_at f off n) i ≡ f i
patch-bytes_at_at f off zero i = refl
patch-bytes_at_at f off (suc n) i = elim (Bool-cases (i == off)) [
  | inl here ↦ rw here (ap f (omega (arith, (==_iff i off).0 here)))
  | inr past ↦ rw past (patch-bytes_at_at f (off + 1) n i)
]

-- Writing back what was read.
pub patch-bytes_at : (f : Content) (off n : ℕ) → patch f off (bytes_at f off n) ≡ f
patch-bytes_at f off n = fun_ext (patch-bytes_at_at f off n)

-- A run that is read, changed within and written back: the change alone.
pub patch-overwrite :
    (f : Content) (base n off : ℕ) (src : List Byte)
    → off + length src ≤ n
    → patch f base (overwrite (bytes_at f base n) off src) ≡ patch f (base + off) src
patch-overwrite f base n off src h =
    patch f base (overwrite run off src)
    ≡⟨ ap (patch f base) (overwrite_lem run off src (omega (arith, length-bytes_at f base n))) ⟩
      patch f base (take off run ++ (src ++ drop (off + length src) run))
    ≡⟨ patch-append f base (take off run) _ ⟩
      patch (patch f base (take off run)) (base + length (take off run))
        (src ++ drop (off + length src) run)
    ≡⟨ ap₂ (λ c k. patch c k (src ++ drop (off + length src) run))
        (ap (patch f base) (take-bytes_at f base off n (omega arith)) ∙ patch-bytes_at f base off)
        (omega (arith, length-take {0} off run, length-bytes_at f base n)) ⟩
      patch f (base + off) (src ++ drop (off + length src) run)
    ≡⟨ patch-append f (base + off) src _ ⟩
      patch g (base + off + length src) (drop (off + length src) run)
    ≡⟨ ap (patch g (base + off + length src)) behind ⟩
      patch g (base + off + length src)
        (bytes_at g (base + off + length src) (n - (off + length src)))
    ≡⟨ patch-bytes_at g (base + off + length src) (n - (off + length src)) ⟩ g ∎
  where
    run : List Byte
    run = bytes_at f base n

    g : Content
    g = patch f (base + off) src

    behind :
        drop (off + length src) run ≡ bytes_at g (base + off + length src) (n - (off + length src))
    behind =
        drop-bytes_at f base (off + length src) n
        ∙ bytes_at_eq f (base + (off + length src)) (base + off + length src)
            (n - (off + length src)) (n - (off + length src)) (omega arith) refl
        ∙ bytes_at_cong f g (base + off + length src) (n - (off + length src))
            (λ i a b. sym (patch_above f (base + off) src i a))

-- What has been written of a list, and the next part of it.
pub patch-take :
    (f : Content) (off total m : ℕ) (xs : List Byte)
    → total ≤ length xs
    → patch (patch f off (take total xs)) (off + total) (take m (drop total xs))
      ≡ patch f off (take (total + m) xs)
patch-take f off total m xs h = sym (
    ap (patch f off) (take-add total m xs)
    ∙ patch-append f off (take total xs) (take m (drop total xs))
    ∙ ap (λ k. patch (patch f off (take total xs)) (off + k) (take m (drop total xs)))
        (omega (arith, length-take {0} total xs)))

-- The same with the buffer, the place and the list up to equations.
pub patch_rewritten :
    (f : Content) (base n off place : ℕ) (buf src part : List Byte)
    → buf ≡ bytes_at f base n
    → off + length src ≤ n
    → base + off ≡ place
    → src ≡ part
    → patch f base (overwrite buf off src) ≡ patch f place part
patch_rewritten f base n off place buf src part e h at same =
    ap (λ b. patch f base (overwrite b off src)) e
    ∙ patch-overwrite f base n off src h
    ∙ ap₂ (λ k xs. patch f k xs) at same

-- ===== src/Disk/ReadAt/Filled.antt =====
-- A buffer that `ReadAt` has filled up to some count, and how a copy behind that part extends it.
use virtual_disks.Base.{
  ℕ, zero, suc, ◌+◌, ◌-◌, ◌≤◌, ◌≡◌, refl, sym, ap, ◌∙◌, List, [], ◌∷◌, ◌++◌, arith, length, take,
  drop, overwrite, length-append, length-drop, overwrite-append_of_length, take-append_of_length,
  ◌≡⟨◌⟩◌, ◌∎, drop-drop, drop-length, append-nil, append_assoc,
}
use virtual_disks.Base.Bytes.{Byte, Content, bytes_at, length-bytes_at, bytes_at-add, take-bytes_at}

-- The first `total` bytes of the buffer are the disk's from `o` on, the others those of `p`.
abbrev pub Filled : Content → ℕ → List Byte → ℕ → List Byte → Type 0
Filled f o p total q = q ≡ bytes_at f o total ++ drop total p

-- A further run that is copied behind the filled part extends it.
pub Filled-overwrite :
    (f : Content) (o : ℕ) (p : List Byte) (total n : ℕ) (q : List Byte)
    → total + n ≤ length p
    → Filled f o p total q
    → Filled f o p (total + n) (overwrite q total (bytes_at f (o + total) n))
Filled-overwrite f o p total n q h e =
    overwrite q total run
    ≡⟨ (rw e) ⟩ overwrite (bytes_at f o total ++ drop total p) total run
    ≡⟨ overwrite-append_of_length total (bytes_at f o total) (drop total p) run
        (length-bytes_at f o total)
        (omega (arith, length-bytes_at f (o + total) n, length-drop {0} total p)) ⟩
      bytes_at f o total ++ (run ++ drop (length run) (drop total p))
    ≡⟨ sym (append_assoc (bytes_at f o total) run (drop (length run) (drop total p))) ⟩
      (bytes_at f o total ++ run) ++ drop (length run) (drop total p)
    ≡⟨ (rw (length-bytes_at f (o + total) n, drop-drop, ← bytes_at-add)) ⟩
      bytes_at f o (total + n) ++ drop (total + n) p ∎
  where
    run : List Byte
    run = bytes_at f (o + total) n

-- A copy behind the filled part leaves it as it is.
pub take-overwrite :
    (total : ℕ) (q buf : List Byte) → take total (overwrite q total buf) ≡ take total q
take-overwrite zero q buf = refl
take-overwrite (suc n) [] buf = refl
take-overwrite (suc n) (x ∷ q) buf = ap (◌∷◌ x) (take-overwrite n q buf)

pub take-Filled :
    (f : Content) (o : ℕ) (p : List Byte) (total : ℕ) (q : List Byte)
    → Filled f o p total q
    → take total q ≡ bytes_at f o total
take-Filled f o p total q e =
    rw e
      (take-append_of_length total (bytes_at f o total) (drop total p) (length-bytes_at f o total))

pub length-Filled :
    (f : Content) (o : ℕ) (p : List Byte) (total : ℕ) (q : List Byte)
    → total ≤ length p
    → Filled f o p total q
    → length q ≡ length p
length-Filled f o p total q h e =
    rw e (rw length-append (omega (arith, length-bytes_at f o total, length-drop {0} total p)))

pub Filled-all :
    (f : Content) (o : ℕ) (p : List Byte) (total : ℕ) (q : List Byte)
    → total ≡ length p
    → Filled f o p total q
    → q ≡ bytes_at f o (length p)
Filled-all f o p total q e filled =
    filled ∙ ap (λ c. bytes_at f o c ++ drop c p) e ∙ rw (drop-length, append-nil)

-- Copying the rest completes it.
pub Filled-rest :
    (f : Content) (o : ℕ) (p : List Byte) (total n : ℕ) (q buf : List Byte)
    → total ≤ length p
    → length p - total ≤ n
    → buf ≡ bytes_at f (o + total) n
    → Filled f o p total q
    → overwrite q total (take (length q - total) buf) ≡ bytes_at f o (length p)
Filled-rest f o p total n q buf le room e filled =
    overwrite q total (take (length q - total) buf)
    ≡⟨ (rw (length-Filled f o p total q le filled, e, take-bytes_at f (o + total) rest n room)) ⟩
      overwrite q total (bytes_at f (o + total) rest)
    ≡⟨ Filled-overwrite f o p total rest q (omega arith) filled ⟩
      bytes_at f o (total + rest) ++ drop (total + rest) p
    ≡⟨ Filled-all f o p (total + rest) _ (omega arith) refl ⟩ bytes_at f o (length p) ∎
  where
    rest : ℕ
    rest = length p - total

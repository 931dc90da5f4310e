-- ===== src/Disk/Footprint.antt =====
-- What `ReadAt` and `WriteAt` touch: the mutex of their handle and its disk, no shared variable.
pub mod Inside
use virtual_disks.Base.{ℕ, ◌≡◌, refl, Bool, true, false, Option, none, some, List, [], ◌∷◌}
use virtual_disks.Base.Bytes.{Byte}
use virtual_disks.Base.Int.{ℤ}
use virtual_disks.Vddk.{Call}
use virtual_disks.Effects.{Prog, or_panic}
use virtual_disks.Effects.Only.{Action, Only, Only-bind, Only-if, Only-or_panic, Only-ret}
use virtual_disks.Disklib.Types.{VddkError}
use virtual_disks.Disklib.Io.{read, write}
use virtual_disks.Disk.Handle.{DiskConnectHandle, unless_error, with_lock}
use virtual_disks.Disk.ReadAt.{read_tail, read_middle, read_head, read_at}
use virtual_disks.Disk.WriteAt.{write_tail, write_middle, write_head, write_at}

abbrev pub IsReadOf : (dli : ℕ) → Call → Type 0
IsReadOf dli (Call.read d k n buf) = d ≡ dli
IsReadOf dli _ = ⊥

abbrev pub IsAccessOf : (dli : ℕ) → Call → Type 0
IsAccessOf dli (Call.read d k n buf) = d ≡ dli
IsAccessOf dli (Call.write d k n buf) = d ≡ dli
IsAccessOf dli _ = ⊥

-- The steps of a `ReadAt`, and those of a `WriteAt`.
abbrev pub IsReadStep : DiskConnectHandle → Action → Type 0
IsReadStep h (Action.locks m) = m ≡ h.mutex
IsReadStep h (Action.unlocks m) = m ≡ h.mutex
IsReadStep h (Action.loads c) = ⊥
IsReadStep h (Action.stores c) = ⊥
IsReadStep h (Action.calls c) = IsReadOf h.dli c

abbrev pub IsAccessStep : DiskConnectHandle → Action → Type 0
IsAccessStep h (Action.locks m) = m ≡ h.mutex
IsAccessStep h (Action.unlocks m) = m ≡ h.mutex
IsAccessStep h (Action.loads c) = ⊥
IsAccessStep h (Action.stores c) = ⊥
IsAccessStep h (Action.calls c) = IsAccessOf h.dli c

module _ (Q : Action → Type 0) where
  pub Only-unless_error :
      {A : Type 0} (err : Option VddkError) (bad : VddkError → Prog A) (good : Prog A)
      → ((e : VddkError) → Only Q (bad e))
      → Only Q good
      → Only Q (unless_error err bad good)
  Only-unless_error none bad good h k = k
  Only-unless_error (some e) bad good h k = h e

  pub Only-with_lock :
      {A : Type 0} (locked : Bool) (m : ℕ) (p : Prog A)
      → Q (Action.locks m)
      → Q (Action.unlocks m)
      → Only Q p
      → Only Q (with_lock locked m p)
  unfolding with_lock Only
  Only-with_lock true m p a b h = (a, Only-bind Q p _ h (λ r. (b, tt)))
  Only-with_lock false m p a b h = h

  module _ (dli : ℕ)
      (reads : (k n : ℕ) (buf : List Byte) → Q (Action.calls (Call.read dli k n buf))) where
    Only-read : (k n : ℕ) (buf : List Byte) → Only Q (read dli k n buf)
    unfolding read Only
    Only-read k n [] = tt
    Only-read k n (b ∷ bs) = (reads k n (b ∷ bs), λ r. tt)

    Only-read_tail : (p : List Byte) (k : ℤ) (total : ℕ) → Only Q (read_tail dli p k total)
    unfolding read_tail
    Only-read_tail p k total =
        Only-if Q _ _ _
          (Only-bind Q (read dli _ _ _) _ (Only-read _ _ _)
            (λ r. Only-unless_error r.0 _ _ (λ e. Only-ret Q _) (Only-ret Q _)))
          (Only-ret Q _)

    Only-read_middle : (p : List Byte) (k : ℤ) (total : ℕ) → Only Q (read_middle dli p k total)
    unfolding read_middle
    Only-read_middle p k total =
        Only-if Q _ _ _
          (Only-bind Q (read dli _ _ _) _ (Only-read _ _ _)
            (λ r. Only-unless_error r.0 _ _ (λ e. Only-ret Q _) (Only-read_tail _ _ _)))
          (Only-read_tail _ _ _)

    pub Only-read_head : (p : List Byte) (o k : ℤ) → Only Q (read_head dli p o k)
    unfolding read_head
    Only-read_head p o k = Only-if Q _ _ _ (Only-read_middle _ _ _) (
        Only-bind Q (read dli _ _ _) _ (Only-read _ _ _) (λ r.
          Only-unless_error r.0 _ _ (λ e. Only-ret Q _)
            (Only-bind Q (or_panic _) _ (Only-or_panic Q _) (λ x. Only-read_middle _ _ _))))

    module _
        (writes : (k n : ℕ) (buf : List Byte) → Q (Action.calls (Call.write dli k n buf))) where
      Only-write : (k n : ℕ) (buf : List Byte) → Only Q (write dli k n buf)
      unfolding write Only
      Only-write k n [] = tt
      Only-write k n (b ∷ bs) = (writes k n (b ∷ bs), λ r. tt)

      Only-write_tail : (p : List Byte) (k : ℤ) (total : ℕ) → Only Q (write_tail dli p k total)
      unfolding write_tail
      Only-write_tail p k total =
          Only-if Q _ _ _
            (Only-bind Q (read dli _ _ _) _ (Only-read _ _ _) (λ r.
              Only-unless_error r.0 _ _ (λ e. Only-ret Q _)
                (Only-bind Q (write dli _ _ _) _ (Only-write _ _ _)
                  (λ x. Only-unless_error x _ _ (λ e. Only-ret Q _) (Only-ret Q _)))))
            (Only-ret Q _)

      Only-write_middle : (p : List Byte) (k : ℤ) (total : ℕ) → Only Q (write_middle dli p k total)
      unfolding write_middle
      Only-write_middle p k total =
          Only-if Q _ _ _
            (Only-bind Q (write dli _ _ _) _ (Only-write _ _ _)
              (λ r. Only-unless_error r _ _ (λ e. Only-ret Q _) (Only-write_tail _ _ _)))
            (Only-write_tail _ _ _)

      pub Only-write_head : (p : List Byte) (o k : ℤ) → Only Q (write_head dli p o k)
      unfolding write_head
      Only-write_head p o k = Only-if Q _ _ _ (Only-write_middle _ _ _) (
          Only-bind Q (read dli _ _ _) _ (Only-read _ _ _) (λ r.
            Only-unless_error r.0 _ _ (λ e. Only-ret Q _)
              (Only-bind Q (or_panic _) _ (Only-or_panic Q _) (λ x.
                Only-bind Q (write dli _ _ _) _ (Only-write _ _ _)
                  (λ y. Only-unless_error y _ _ (λ e. Only-ret Q _) (Only-write_middle _ _ _))))))

pub read_at-Only :
    (h : DiskConnectHandle) (p : List Byte) (o : ℤ) → Only (IsReadStep h) (read_at h p o)
unfolding read_at
read_at-Only h p o = Only-if _ _ _ _ (Only-ret _ _) (
    Only-bind _ (or_panic _) _ (Only-or_panic _ _) (λ q.
      Only-bind _ (with_lock _ _ _) _
        (Only-with_lock _ _ _ _ refl refl (Only-read_head _ h.dli (λ k n buf. refl) q _ _))
        (λ r. Only-ret _ _)))

pub write_at-Only :
    (h : DiskConnectHandle) (p : List Byte) (o : ℤ) → Only (IsAccessStep h) (write_at h p o)
unfolding write_at
write_at-Only h p o = Only-if _ _ _ _ (Only-ret _ _) (
    Only-with_lock _ _ _ _ refl refl
      (Only-write_head _ h.dli (λ k n buf. refl) (λ k n buf. refl) p _ _))

-- ===== src/Tests/Errors.antt =====
-- Two constants of the table of error codes.
use virtual_disks.Base.{
  ℕ, zero, suc, ◌≡◌, refl, inl, inr, none, some, false, Option, List, [], ◌∷◌, String,
}
use virtual_disks.Effects.{Prog, ret}
use virtual_disks.Disklib.Types.{Message, check, new_vddk_error}
use virtual_disks.Disklib.ErrorCodes.{error_codes}
use virtual_disks.Disk.Handle.{map_error, vix}
use virtual_disks.Dumper.Types.{DumpError, err_disk_handle}
use virtual_disks.Dumper.Metadata.{unless_refused}
use virtual_disks.Dumper.Errors.{error_codes-told_apart}
use mathlib.Core.List.{Mem, mem-cons}

abbrev at_place : ℕ → List (String × ℕ) → Option (String × ℕ)
at_place i [] = none
at_place zero (x ∷ xs) = some x
at_place (suc i) (x ∷ xs) = at_place i xs

at_place-Mem : (i : ℕ) (xs : List (String × ℕ)) (x : String × ℕ) → at_place i xs ≡ some x → Mem x xs
at_place-Mem i [] x h = cc h
at_place-Mem zero (y ∷ xs) x h = mem-cons.1 ∣ inl (cc h) ∣₁
at_place-Mem (suc i) (y ∷ xs) x h = mem-cons.1 ∣ inr (at_place-Mem i xs x h) ∣₁

toosmall : Mem ("VIX_E_BUFFER_TOOSMALL", 24) error_codes
unfolding error_codes
toosmall = at_place-Mem 21 error_codes ("VIX_E_BUFFER_TOOSMALL", 24) refl

outofrange : Mem ("VIX_E_DISK_OUTOFRANGE", 16007) error_codes
unfolding error_codes
outofrange = at_place-Mem 129 error_codes ("VIX_E_DISK_OUTOFRANGE", 16007) refl

abbrev failure : Message
failure = record { format = "GetMetadataKeys failed"; args = [] }

abbrev give_up : Prog (Option DumpError)
give_up = ret (some err_disk_handle)

abbrev go_on : Prog (Option DumpError)
go_on = ret none

error_codes-told_apart_example :
    (false ≡ false)
    × (check 24 "failed" ≡ some (new_vddk_error 24 (record { format = "failed"; args = 24 ∷ [] })))
    × (map_error (new_vddk_error 24 failure) ≡ vix (new_vddk_error 24 failure))
    × (unless_refused (some (new_vddk_error 24 failure)) (λ e. give_up) go_on ≡ go_on)
error_codes-told_apart_example =
    error_codes-told_apart "VIX_E_BUFFER_TOOSMALL" "VIX_E_DISK_OUTOFRANGE" 24 16007 "failed" failure
      (λ e. give_up) go_on toosmall outofrange

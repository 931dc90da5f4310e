-- ===== src/Dumper/Errors.antt =====
-- Which of the library's errors the code tells from the others.
use virtual_disks.Base.{
  ℕ, Bool, true, false, ◌&&◌, ◌≡◌, refl, sym, ap, ◌∙◌, inl, inr, Option, none, some, List, [], ◌∷◌,
  ◌==◌, Bool-cases, String, if◌then◌else◌,
}
use virtual_disks.Effects.{Prog}
use virtual_disks.Disklib.Types.{VddkError, Message, check, new_vddk_error}
use virtual_disks.Disklib.ErrorCodes.{error_codes}
use virtual_disks.Disk.Handle.{map_error, eof, vix}
use virtual_disks.Dumper.Types.{DumpError}
use virtual_disks.Dumper.Metadata.{unless_refused}
use mathlib.Core.Logic.Or
use mathlib.Core.List.{Mem, mem-cons, not-mem-nil}
use text.Mathlib.Text.{◌==◌ as str_eq}

all : {A : Type 0} → (A → Bool) → List A → Bool
all test [] = true
all test (x ∷ xs) = test x && all test xs

-- Whether two tests agree.
agree : Bool → Bool → Bool
agree true b = b
agree false true = false
agree false false = true

agree_lem : (a b : Bool) → agree a b ≡ true → a ≡ b
unfolding agree
agree_lem true true h = refl
agree_lem true false h = cc h
agree_lem false true h = cc h
agree_lem false false h = refl

-- A test of every element of a list is run.
all-Mem :
    {A : Type 0} (test : A → Bool) (xs : List A)
    → all test xs ≡ true
    → (x : A) → Mem x xs
    → test x ≡ true
unfolding all
all-Mem test [] h x m = absurd (not-mem-nil m)
all-Mem test (y ∷ xs) h x m = elim (Bool-cases (test y)) [
  | inl passed ↦
      Or.elim (hlevel) (mem-cons.0 m) (λ e. ap test e ∙ passed)
        (all-Mem test xs (ap (λ b. b && all test xs) (sym passed) ∙ h) x)
  | inr failed ↦ cc (ap (λ b. b && all test xs) (sym failed) ∙ h)
]

code-name :
    (name : String) (code : ℕ)
    → all (λ e. agree (e.1 == code) (str_eq e.0 name)) error_codes ≡ true
    → (e : String × ℕ) → Mem e error_codes
    → (e.1 == code) ≡ str_eq e.0 name
code-name name code tested e m =
    agree_lem (e.1 == code) (str_eq e.0 name)
      (all-Mem (λ f. agree (f.1 == code) (str_eq f.0 name)) error_codes tested e m)

told_ok : all (λ e. agree (e.1 == 0) (str_eq e.0 "VIX_OK")) error_codes ≡ true
unfolding all agree error_codes
told_ok = refl

told_outofrange :
    all (λ e. agree (e.1 == 16007) (str_eq e.0 "VIX_E_DISK_OUTOFRANGE")) error_codes ≡ true
unfolding all agree error_codes
told_outofrange = refl

told_toosmall : all (λ e. agree (e.1 == 24) (str_eq e.0 "VIX_E_BUFFER_TOOSMALL")) error_codes ≡ true
unfolding all agree error_codes
told_toosmall = refl

told_apart :
    all (λ f. all (λ e. agree (e.1 == f.1) (str_eq e.0 f.0)) error_codes) error_codes ≡ true
unfolding all agree error_codes
told_apart = refl

-- Any two constants of the table have the same code exactly if they have the same name. Of a call that
-- gives the code of a constant, `check` makes no error exactly if the constant is VIX_OK; `mapError`
-- makes io.EOF of its error exactly if it is VIX_E_DISK_OUTOFRANGE, and else leaves the error; and
-- SaveMetaData goes on in spite of it exactly if it is VIX_E_BUFFER_TOOSMALL.
pub error_codes-told_apart :
    (name other : String) (code other_code : ℕ) (format : String) (message : Message)
    (bad : VddkError → Prog (Option DumpError)) (good : Prog (Option DumpError))
    → Mem (name, code) error_codes
    → Mem (other, other_code) error_codes
    → ((code == other_code) ≡ str_eq name other)
      × (check code format ≡ (
          if str_eq name "VIX_OK"
          then none
          else some (new_vddk_error code (record { format = format; args = code ∷ [] }))))
      × (map_error (new_vddk_error code message) ≡ (
          if str_eq name "VIX_E_DISK_OUTOFRANGE" then eof else vix (new_vddk_error code message)))
      × (unless_refused (some (new_vddk_error code message)) bad good ≡ (
          if str_eq name "VIX_E_BUFFER_TOOSMALL" then good else bad (new_vddk_error code message)))
unfolding check map_error new_vddk_error
error_codes-told_apart name other code other_code format message bad good m m' = (
  code-name other other_code (all-Mem _ error_codes told_apart (other, other_code) m') (name, code)
      m,
  rw (code-name "VIX_OK" 0 told_ok (name, code) m) refl,
  rw (code-name "VIX_E_DISK_OUTOFRANGE" 16007 told_outofrange (name, code) m) refl,
  rw (code-name "VIX_E_BUFFER_TOOSMALL" 24 told_toosmall (name, code) m) refl,
)

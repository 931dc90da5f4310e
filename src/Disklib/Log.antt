-- ===== src/Disklib/Log.antt =====
-- What the program has asked of the library: a world that writes down, on top of any world, the calls
-- that take, describe and give back accesses, connections and disks, with their handles and their codes.
use virtual_disks.Base.{
  ℕ, ◌≡◌, ◌≢◌, refl, Option, none, some, List, ◌∷◌, String, ◌==◌, ==_iff, Bool-cases, inl, inr,
  arith,
}
use virtual_disks.Vddk.{Call, Reply, World}
use virtual_disks.Effects.{Machine, run, Ensures}
use virtual_disks.Disklib.Types.{ConnectParams, VddkError, vix_ok, check}
use virtual_disks.Disklib.Params.{prepare_connect_params}
use virtual_disks.Disklib.Session.{
  nil_on_error, prepare_for_access, connect_ex, end_access, disconnect, cleanup,
}
use virtual_disks.Disklib.Images
use virtual_disks.Disklib.Images.{open_disk}
use virtual_disks.Disklib.Io.{get_info}

pub data Event : Type 0 where
  prepares ends : (identity : String) → (code : ℕ) → Event
  cleans : (code : ℕ) → Event
  connects disconnects : (conn code : ℕ) → Event
  opens describes closes : (dli code : ℕ) → Event

-- The last call stands first.
abbrev pub Log : Type 0
Log = List Event

abbrev pub logged : (c : Call) → Reply c → Log → Log
logged (Call.prepare_for_access cnx identity) code log = prepares identity code ∷ log
logged (Call.end_access cnx identity) code log = ends identity code ∷ log
logged (Call.cleanup cnx up remaining) code log = cleans code ∷ log
logged (Call.connect cnx) (code, conn) log = connects conn code ∷ log
logged (Call.connect_ex cnx read_only snap modes) (code, conn) log = connects conn code ∷ log
logged (Call.disconnect conn) code log = disconnects conn code ∷ log
logged (Call.open_disk conn path flags) (code, dli) log = opens dli code ∷ log
logged (Call.get_info dli) (code, info) log = describes dli code ∷ log
logged (Call.close dli) code log = closes dli code ∷ log
logged _ r log = log

abbrev pub logging : World → World
logging W = record {
  State = Log × W.State;
  answer = λ c s. let (r, w) = W.answer c s.1 in (r, (logged c r s.0, w));
}

-- The code is `VIX_OK` where there is no error, and another one where there is.
abbrev pub Gives : (code : ℕ) → Option VddkError → Type 0
Gives code none = code ≡ vix_ok
Gives code (some e) = code ≢ vix_ok

check-Gives : (code : ℕ) (format : String) → Gives code (check code format)
unfolding check
check-Gives code format = elim (Bool-cases (code == vix_ok)) [
  | inl same ↦ rw same ((==_iff code vix_ok).0 same)
  | inr other ↦ rw other (λ e. cc ((==_iff code vix_ok).1 e, other))
]

nil_on_error-ok :
    (code conn : ℕ) (format : String) → check code format ≡ none → nil_on_error code conn ≡ conn
unfolding check
nil_on_error-ok code conn format h = ground arith

-- One call of this kind, whose code is that of the error.
abbrev pub Logs : Log → (ℕ → Event) → Option VddkError → Log → Type 0
Logs before event e now = (code : ℕ) × (now ≡ event code ∷ before) × Gives code e

-- The same of a call that gives a handle, which is the one that the library has given where there is
-- no error.
abbrev pub Takes : Log → (ℕ → ℕ → Event) → ℕ × Option VddkError → Log → Type 0
Takes before event (given, e) now =
    (handle : ℕ) × Logs before (event handle) e now × (e ≡ none → given ≡ handle)

module _ (W : World) (s : Machine (logging W)) where
  pub prepare-Logs :
      (params : ConnectParams)
      → Ensures
          (run (prepare_for_access params) s)
          (λ e t. Logs s.lib.0 (prepares params.identity) e t.lib.0)
  unfolding run prepare_for_access prepare_connect_params
  prepare-Logs params = (_, refl, check-Gives _ _)

  pub end-Logs :
      (params : ConnectParams)
      → Ensures (run (end_access params) s) (λ e t. Logs s.lib.0 (ends params.identity) e t.lib.0)
  unfolding run end_access prepare_connect_params
  end-Logs params = (_, refl, check-Gives _ _)

  pub cleanup-Logs :
      (params : ConnectParams) (up remaining : ℕ)
      → Ensures (run (cleanup params up remaining) s) (λ e t. Logs s.lib.0 cleans e t.lib.0)
  unfolding run cleanup prepare_connect_params
  cleanup-Logs params up remaining = (_, refl, check-Gives _ _)

  pub connect_ex-Logs :
      (params : ConnectParams)
      → Ensures (run (connect_ex params) s) (λ r t. Takes s.lib.0 connects r t.lib.0)
  unfolding run connect_ex prepare_connect_params
  connect_ex-Logs params = (_, (_, refl, check-Gives _ _), nil_on_error-ok _ _ _)

  pub disconnect-Logs :
      (conn : ℕ)
      → Ensures (run (disconnect conn) s) (λ e t. Logs s.lib.0 (disconnects conn) e t.lib.0)
  unfolding run disconnect
  disconnect-Logs conn = (_, refl, check-Gives _ _)

  pub open_disk-Logs :
      (conn : ℕ) (params : ConnectParams)
      → Ensures (run (open_disk conn params) s) (λ r t. Takes s.lib.0 opens r t.lib.0)
  unfolding run open_disk
  open_disk-Logs conn params = (_, (_, refl, check-Gives _ _), λ ok. refl)

  pub get_info-Logs :
      (dli : ℕ) → Ensures (run (get_info dli) s) (λ r t. Logs s.lib.0 (describes dli) r.1 t.lib.0)
  unfolding run get_info
  get_info-Logs dli = (_, refl, check-Gives _ _)

  pub close-Logs :
      (dli : ℕ) → Ensures (run (Images.close dli) s) (λ e t. Logs s.lib.0 (closes dli) e t.lib.0)
  unfolding run Images.close
  close-Logs dli = (_, refl, check-Gives _ _)

-- ===== src/Dumper/Access/Attempts.antt =====
-- What the retry loops of dumper/dumper.go ask of the library, and with which answers.
use virtual_disks.Base.{
  ℕ, zero, suc, ◌<◌, ◌≡◌, ◌≢◌, refl, ap, ◌∙◌, ◌⊎◌, inl, inr, subst, Option, none, some, List, [],
  ◌∷◌, String, length, arith,
}
use virtual_disks.Vddk.{World}
use virtual_disks.Effects.{ret, Machine, run, Ensures, Ensures-bind, Ensures-weaken}
use virtual_disks.Disklib.Types.{ConnectParams, VddkError, vix_ok}
use virtual_disks.Disklib.Session
use virtual_disks.Disklib.Log.{
  Log, logging, Logs, prepares, ends, cleans, prepare-Logs, end-Logs, cleanup-Logs,
}
use virtual_disks.Disk.Logged.{step_or_error}
use virtual_disks.Dumper.Types.{VadpDumper, DumpError}
use virtual_disks.Dumper.Access.{
  prepare_loop, prepare_for_access, lib_cleanup, end_loop, end_access,
}

-- Attempts to prepare the access, each followed by a call of `EndAccess`: the codes of both calls, the
-- first attempt first.
abbrev pub taken_back : (identity : String) → List (ℕ × ℕ) → Log → Log
taken_back identity [] log = log
taken_back identity ((code, code') ∷ rest) log =
    taken_back identity rest (ends identity code' ∷ prepares identity code ∷ log)

abbrev pub AreRefused : List (ℕ × ℕ) → Type 0
AreRefused [] = Unit
AreRefused ((code, code') ∷ rest) = (code ≢ vix_ok) × AreRefused rest

-- The attempts that the library refused have each been taken back; then one has succeeded, and was
-- the last, or no attempt was left.
pub record ArePrepared (attempts : ℕ) (identity : String) (before : Log) (e : Option DumpError)
    (now : Log) : Type 0 where
  pub failed : List (ℕ × ℕ)
  pub refused : AreRefused failed
  pub outcome :
      ((e ≡ none)
        × (length failed < attempts)
        × (now ≡ prepares identity vix_ok ∷ taken_back identity failed before))
      ⊎ ((e ≢ none) × (length failed ≡ attempts) × (now ≡ taken_back identity failed before))

-- One attempt that failed and was taken back, before the others.
one_refused :
    (n : ℕ) (identity : String) (before now : Log) (e : Option DumpError) (code code' : ℕ)
    → code ≢ vix_ok
    → ArePrepared n identity (ends identity code' ∷ prepares identity code ∷ before) e now
    → ArePrepared (suc n) identity before e now
one_refused n identity before now e code code' bad p = record {
  failed = (code, code') ∷ p.failed;
  refused = (bad, p.refused);
  outcome = elim p.outcome [
    | inl (ok, less, log) ↦ inl (ok, omega (arith, less), log)
    | inr (err, all, log) ↦ inr (err, omega (arith, all), log)
  ];
}

-- Attempts to end the access, by their codes, the first first.
abbrev pub in_vain : (identity : String) → List ℕ → Log → Log
in_vain identity [] log = log
in_vain identity (code ∷ rest) log = in_vain identity rest (ends identity code ∷ log)

abbrev pub AreFailures : List ℕ → Type 0
AreFailures [] = Unit
AreFailures (code ∷ rest) = (code ≢ vix_ok) × AreFailures rest

-- After the attempts that the library refused one has succeeded, and the library has been asked once
-- to clean up, or no attempt was left.
pub record AreEnded (attempts : ℕ) (identity : String) (before : Log) (e : Option DumpError)
    (now : Log) : Type 0 where
  pub failed : List ℕ
  pub refused : AreFailures failed
  pub outcome :
      ((e ≡ none)
        × (length failed < attempts)
        × ((code : ℕ) × (now
              ≡ cleans code ∷ ends identity vix_ok ∷ in_vain identity failed before)))
      ⊎ ((e ≢ none) × (length failed ≡ attempts) × (now ≡ in_vain identity failed before))

one_failure :
    (n : ℕ) (identity : String) (before now : Log) (e : Option DumpError) (code : ℕ)
    → code ≢ vix_ok
    → AreEnded n identity (ends identity code ∷ before) e now
    → AreEnded (suc n) identity before e now
one_failure n identity before now e code bad p = record {
  failed = code ∷ p.failed;
  refused = (bad, p.refused);
  outcome = elim p.outcome [
    | inl (ok, less, log) ↦ inl (ok, omega (arith, less), log)
    | inr (err, all, log) ↦ inr (err, omega (arith, all), log)
  ];
}

module _ (W : World) where
  prepare_loop-ArePrepared :
      (attempts : ℕ) (params : ConnectParams) (last : Option VddkError) (s : Machine (logging W))
      → Ensures
          (run (prepare_loop attempts params last) s)
          (λ e t. ArePrepared attempts params.identity s.lib.0 e t.lib.0)
  unfolding prepare_loop run
  prepare_loop-ArePrepared zero params last s = record {
    failed = [];
    refused = tt;
    outcome = inr ((λ e. cc e), refl, refl);
  }
  prepare_loop-ArePrepared (suc n) params last s =
      let identity = params.identity in
      step_or_error W s (Session.prepare_for_access params) (prepares identity) _ _ _
        (prepare-Logs W s params)
        (λ x t code refused at.
          Ensures-bind (Session.end_access params) _ t
            (λ y u. Logs t.lib.0 (ends identity) y u.lib.0) _ (end-Logs W t params)
            (λ y u (code', at', _).
              Ensures-weaken (run (prepare_loop n params (some x)) u)
                (λ z v. ArePrepared n identity u.lib.0 z v.lib.0) _
                (λ z v p. one_refused n identity s.lib.0 v.lib.0 z code code' refused (
                  subst (λ log. ArePrepared n identity log z v.lib.0)
                    (at' ∙ ap (◌∷◌ (ends identity code')) at) p))
                (prepare_loop-ArePrepared n params (some x) u)))
        (λ t at. record { failed = []; refused = tt; outcome = inl (refl, omega arith, at) })

  -- Whatever the library answers, `PrepareForAccess` with parameters ends, and all that it asks of the
  -- library's accesses, connections and disks is this: at most ten attempts to prepare the access of
  -- the parameters' identity; each that the library refused is taken back by a call of `EndAccess`
  -- before the next; without an error the library has granted the last attempt, and with one it has
  -- refused all ten.
  pub prepare_for_access-ArePrepared :
      (d : VadpDumper) (params : ConnectParams) (s : Machine (logging W))
      → d.remote_conn_params ≡ some params
      → Ensures
          (run (prepare_for_access d) s)
          (λ e t. ArePrepared 10 params.identity s.lib.0 e t.lib.0)
  unfolding prepare_for_access
  prepare_for_access-ArePrepared d params s given =
      rw given (prepare_loop-ArePrepared 10 params none s)

  lib_cleanup-Logs :
      (params : ConnectParams) (s : Machine (logging W))
      → Ensures (run (lib_cleanup params) s) (λ x t. (code : ℕ) × (t.lib.0 ≡ cleans code ∷ s.lib.0))
  unfolding lib_cleanup run
  lib_cleanup-Logs params s =
      Ensures-bind (Session.cleanup params 0 0) _ s (λ e t. Logs s.lib.0 cleans e t.lib.0) _
        (cleanup-Logs W s params 0 0) (λ e t (code, at, gives). (code, at))

  end_loop-AreEnded :
      (attempts : ℕ) (params : ConnectParams) (last : Option VddkError) (s : Machine (logging W))
      → Ensures
          (run (end_loop attempts params last) s)
          (λ e t. AreEnded attempts params.identity s.lib.0 e t.lib.0)
  unfolding end_loop run
  end_loop-AreEnded zero params last s = record {
    failed = [];
    refused = tt;
    outcome = inr ((λ e. cc e), refl, refl);
  }
  end_loop-AreEnded (suc n) params last s =
      let identity = params.identity in
      step_or_error W s (Session.end_access params) (ends identity) _ _ _ (end-Logs W s params)
        (λ x t code refused at.
          Ensures-weaken (run (end_loop n params (some x)) t)
            (λ y v. AreEnded n identity t.lib.0 y v.lib.0) _
            (λ y v p.
              one_failure n identity s.lib.0 v.lib.0 y code refused
                (subst (λ log. AreEnded n identity log y v.lib.0) at p))
            (end_loop-AreEnded n params (some x) t))
        (λ t at.
          Ensures-bind (lib_cleanup params) (λ x. ret none) t _ _ (lib_cleanup-Logs params t)
            (λ x u (code', at'). record {
              failed = [];
              refused = tt;
              outcome = inl (refl, omega arith, (code', at' ∙ ap (◌∷◌ (cleans code')) at));
            }))

  -- Whatever the library answers, `EndAccess` with parameters ends, and all that it asks of the
  -- library's accesses, connections and disks is this: at most thirty attempts to end the access of
  -- the parameters' identity; without an error the library has granted the last one, and has then been
  -- asked once to clean up; with an error it has refused all thirty and was not asked to clean up.
  pub end_access-AreEnded :
      (d : VadpDumper) (params : ConnectParams) (s : Machine (logging W))
      → d.remote_conn_params ≡ some params
      → Ensures (run (end_access d) s) (λ e t. AreEnded 30 params.identity s.lib.0 e t.lib.0)
  unfolding end_access
  end_access-AreEnded d params s given = rw given (end_loop-AreEnded 30 params none s)

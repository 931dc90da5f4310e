-- ===== src/Dumper/Disks/Release.antt =====
-- What `Cleanup` of a dumper gives back.
use virtual_disks.Base.{ℕ, ◌≡◌, refl, ap, ◌∙◌, Option, none, some, ◌∷◌}
use virtual_disks.Vddk.{World}
use virtual_disks.Effects.{Machine, run, Ensures, Ensures-bind}
use virtual_disks.Disklib.Session.{disconnect}
use virtual_disks.Disklib.Images
use virtual_disks.Disklib.Log.{Log, logging, Logs, closes, disconnects, close-Logs, disconnect-Logs}
use virtual_disks.Dumper.Types.{VadpDumper}
use virtual_disks.Dumper.Disks.{cleanup, close_if, disconnect_if}

-- The call for a pointer that is not nil, and none for one that is.
abbrev pub closed : Option ℕ → (code : ℕ) → Log → Log
closed none code log = log
closed (some dli) code log = closes dli code ∷ log

abbrev pub cut : Option ℕ → (code : ℕ) → Log → Log
cut none code log = log
cut (some conn) code log = disconnects conn code ∷ log

module _ (W : World) (s : Machine (logging W)) where
  close_if-closed :
      (handle : Option ℕ)
      → Ensures
          (run (close_if handle) s)
          (λ x t. (code : ℕ) × (t.lib.0 ≡ closed handle code s.lib.0))
  unfolding close_if run
  close_if-closed none = (0, refl)
  close_if-closed (some dli) =
      Ensures-bind (Images.close dli) _ s (λ e t. Logs s.lib.0 (closes dli) e t.lib.0) _
        (close-Logs W s dli) (λ e t (code, at, gives). (code, at))

  disconnect_if-cut :
      (connection : Option ℕ)
      → Ensures
          (run (disconnect_if connection) s)
          (λ x t. (code : ℕ) × (t.lib.0 ≡ cut connection code s.lib.0))
  unfolding disconnect_if run
  disconnect_if-cut none = (0, refl)
  disconnect_if-cut (some conn) =
      Ensures-bind (disconnect conn) _ s (λ e t. Logs s.lib.0 (disconnects conn) e t.lib.0) _
        (disconnect-Logs W s conn) (λ e t (code, at, gives). (code, at))

module _ (W : World) (d : VadpDumper) where
  -- Whatever the library answers and whichever of the four pointers are set, `Cleanup` ends without an
  -- error and leaves the dumper as it was, and all that it asks of the library's accesses, connections
  -- and disks is this: each handle that is set is closed and each connection that is set disconnected,
  -- with one call each, by that handle or connection: the remote disk, the remote connection, the
  -- local disk, the local connection, in this order, also after a call that the library refused.
  pub cleanup-releases :
      (s : Machine (logging W))
      → Ensures (run (cleanup d) s) (λ r t.
        (r ≡ (d, none))
        × ((a b c e : ℕ) × (t.lib.0
              ≡ cut d.local_connect e (
                  closed d.local_handle c
                    (cut d.remote_connect b (closed d.remote_handle a s.lib.0))))))
  unfolding cleanup run
  cleanup-releases s =
      Ensures-bind (close_if d.remote_handle) _ s _ _ (close_if-closed W s d.remote_handle)
        (λ x t (a, h).
          Ensures-bind (disconnect_if d.remote_connect) _ t _ _
            (disconnect_if-cut W t d.remote_connect)
            (λ x u (b, k).
              Ensures-bind (close_if d.local_handle) _ u _ _ (close_if-closed W u d.local_handle)
                (λ x v (c, l).
                  Ensures-bind (disconnect_if d.local_connect) _ v _ _
                    (disconnect_if-cut W v d.local_connect)
                    (λ x w (e, m). (
                      refl,
                      (
                        a,
                        b,
                        c,
                        e,
                        m
                            ∙ ap (cut d.local_connect e) (
                                l
                                ∙ ap (closed d.local_handle c) (k ∙ ap (cut d.remote_connect b) h)),
                      ),
                    )))))

-- ===== src/Dumper/Disks/Counted.antt =====
-- How many connections and disks `Cleanup` of a dumper gives back, whatever code the library answers.
use virtual_disks.Base.{ℕ, ◌-◌, ◌≡◌, refl, ap, ◌∙◌, Option, none, some, arith}
use virtual_disks.Vddk.{World}
use virtual_disks.Effects.{Machine, run, Ensures, Ensures-bind}
use virtual_disks.Disklib.Session.{disconnect}
use virtual_disks.Disklib.Images
use virtual_disks.Disk.Opening.Counts.{counting, disconnect-counts, close-counts}
use virtual_disks.Dumper.Types.{VadpDumper}
use virtual_disks.Dumper.Disks.{cleanup, close_if, disconnect_if}

-- A pointer that is not nil.
abbrev pub one_if_some : Option ℕ → ℕ
one_if_some none = 0
one_if_some (some n) = 1

sub_zero : (n : ℕ) → n ≡ n - 0
sub_zero n = omega arith

module _ (W : World) (s : Machine (counting W)) where
  close_if-counts :
      (handle : Option ℕ)
      → Ensures
          (run (close_if handle) s)
          (λ x t. t.lib.0 ≡ record (s.lib.0) { disks = s.lib.0.disks - one_if_some handle })
  unfolding close_if run
  close_if-counts none = ap (λ n. record (s.lib.0) { disks = n }) (sub_zero s.lib.0.disks)
  close_if-counts (some dli) =
      Ensures-bind (Images.close dli) _ s
        (λ e t. t.lib.0 ≡ record (s.lib.0) { disks = s.lib.0.disks - 1 }) _ (close-counts W s dli)
        (λ e t h. h)

  disconnect_if-counts :
      (connection : Option ℕ)
      → Ensures (run (disconnect_if connection) s) (λ x t.
        t.lib.0 ≡ record (s.lib.0) { connections = s.lib.0.connections - one_if_some connection })
  unfolding disconnect_if run
  disconnect_if-counts none =
      ap (λ n. record (s.lib.0) { connections = n }) (sub_zero s.lib.0.connections)
  disconnect_if-counts (some conn) =
      Ensures-bind (disconnect conn) _ s
        (λ e t. t.lib.0 ≡ record (s.lib.0) { connections = s.lib.0.connections - 1 }) _
        (disconnect-counts W s conn) (λ e t h. h)

module _ (W : World) (d : VadpDumper) where
  -- A call to close or disconnect counts once for each pointer that is set.
  pub cleanup-counts :
      (s : Machine (counting W))
      → Ensures (run (cleanup d) s) (λ r t.
        (r ≡ (d, none))
        × (t.lib.0 ≡ record (s.lib.0) {
          connections =
              s.lib.0.connections - one_if_some d.remote_connect - one_if_some d.local_connect;
          disks = s.lib.0.disks - one_if_some d.remote_handle - one_if_some d.local_handle;
        }))
  unfolding cleanup run
  cleanup-counts s =
      Ensures-bind (close_if d.remote_handle) _ s _ _ (close_if-counts W s d.remote_handle)
        (λ x t h.
          Ensures-bind (disconnect_if d.remote_connect) _ t _ _
            (disconnect_if-counts W t d.remote_connect)
            (λ x u k.
              Ensures-bind (close_if d.local_handle) _ u _ _ (close_if-counts W u d.local_handle)
                (λ x v l.
                  Ensures-bind (disconnect_if d.local_connect) _ v _ _
                    (disconnect_if-counts W v d.local_connect)
                    (λ x w m. (refl, m ∙ rw (l, k, h) refl)))))

-- ===== src/Dumper/Disks/Local.antt =====
-- What `ReadLocalDisk` and `CreateLocalDisk` take, and where the dumper keeps it.
pub mod Cleanup
use virtual_disks.Base.{ℕ, ◌+◌, ◌-◌, ◌≡◌, refl, ◌∙◌, Option, none, some, arith}
use virtual_disks.Vddk.{World}
use virtual_disks.Effects.{Machine, run, Ensures, Ensures-bind, Ensures-weaken}
use virtual_disks.Disklib.Types.{ConnectParams, VddkError}
use virtual_disks.Disklib.Images
use virtual_disks.Disklib.Io.{get_info}
use virtual_disks.Disk.Handle.{DiskConnectHandle}
use virtual_disks.Disk.Errors.{unless_error-Ensures}
use virtual_disks.Disk.Opening.Counts.{Counts, counting, gained, open_disk-counts, get_info-counts}
use virtual_disks.Disk.Opening.Balance.{Counts_eq}
use virtual_disks.Dumper.Types.{VadpDumper}
use virtual_disks.Dumper.Disks.{open_local}
use virtual_disks.Dumper.Disks.Counted.{one_if_some}

-- The dumper's pointers name all that has been taken since `n`, and nothing remote.
pub record IsHeld (n : Counts) (d : VadpDumper) (m : Counts) : Type 0 where
  pub taken : m ≡ record n {
    connections = n.connections + one_if_some d.local_connect;
    disks = n.disks + one_if_some d.local_handle;
  }
  pub no_connect : d.remote_connect ≡ none
  pub no_handle : d.remote_handle ≡ none

-- Nothing has been taken yet.
pub record IsIdle (n : Counts) (d : VadpDumper) (m : Counts) : Type 0 where
  pub at : m ≡ n
  pub no_local_connect : d.local_connect ≡ none
  pub no_local_handle : d.local_handle ≡ none
  pub no_remote_connect : d.remote_connect ≡ none
  pub no_remote_handle : d.remote_handle ≡ none

-- What the caller does with the handle leaves these pointers alone.
pub record KeepsPointers (keep : VadpDumper → DiskConnectHandle → VadpDumper) : Type 0 where
  pub local_connect :
      (d : VadpDumper) (h : DiskConnectHandle) → (keep d h).local_connect ≡ d.local_connect
  pub local_handle :
      (d : VadpDumper) (h : DiskConnectHandle) → (keep d h).local_handle ≡ d.local_handle
  pub remote_connect :
      (d : VadpDumper) (h : DiskConnectHandle) → (keep d h).remote_connect ≡ d.remote_connect
  pub remote_handle :
      (d : VadpDumper) (h : DiskConnectHandle) → (keep d h).remote_handle ≡ d.remote_handle

module _ (W : World) (n : Counts) where
  kept :
      (keep : VadpDumper → DiskConnectHandle → VadpDumper) (d : VadpDumper) (h : DiskConnectHandle)
      (m : Counts)
      → KeepsPointers keep
      → IsHeld n d m
      → IsHeld n (keep d h) m
  kept keep d h m k held = record {
    taken = rw (k.local_connect d h, k.local_handle d h) held.taken;
    no_connect = k.remote_connect d h ∙ held.no_connect;
    no_handle = k.remote_handle d h ∙ held.no_handle;
  }

  pub open_local-IsHeld :
      (mutex conn : ℕ) (params : ConnectParams) (keep : VadpDumper → DiskConnectHandle → VadpDumper)
      (d : VadpDumper) (s : Machine (counting W))
      → KeepsPointers keep
      → d.local_handle ≡ none
      → IsHeld n d s.lib.0
      → Ensures (run (open_local mutex conn params keep d) s) (λ r t. IsHeld n r.0 t.lib.0)
  unfolding open_local run
  open_local-IsHeld mutex conn params keep d s k closed held =
      Ensures-bind (Images.open_disk conn params) _ s
        (λ r t. t.lib.0 ≡ record (s.lib.0) { disks = s.lib.0.disks + gained r.1 }) _
        (Ensures-weaken (run (Images.open_disk conn params) s) _ _ (λ r t h. h.0)
          (open_disk-counts W s conn params))
        (λ r t h.
          unless_error-Ensures t _ r.1 _ _
            (λ e failed. record {
              taken = h ∙ rw (failed, held.taken) (Counts_eq _ _ _ _ _ _ refl refl (omega arith));
              no_connect = held.no_connect;
              no_handle = held.no_handle;
            })
            (λ ok.
              Ensures-bind (get_info r.0) _ t (λ x u. u.lib.0 ≡ t.lib.0) _
                (Ensures-weaken (run (get_info r.0) t) _ _ (λ x u g. g.0) (get_info-counts W t r.0))
                (λ x u same.
                  unless_error-Ensures u _ x.1 _ _ (λ e failed. opened r u (same ∙ h) ok)
                    (λ done. kept keep _ _ _ k (opened r u (same ∙ h) ok)))))
    where
      opened :
          (r : ℕ × Option VddkError) (u : Machine (counting W))
          → u.lib.0 ≡ record (s.lib.0) { disks = s.lib.0.disks + gained r.1 }
          → r.1 ≡ none
          → IsHeld n (record d { local_handle = some r.0 }) u.lib.0
      opened r u h ok = record {
        taken = h ∙ rw (ok, held.taken, closed) (Counts_eq _ _ _ _ _ _ refl refl (omega arith));
        no_connect = held.no_connect;
        no_handle = held.no_handle;
      }

  -- Once the connection has been tried for.
  pub connected :
      (d d' : VadpDumper) (m m' : Counts) (c : ℕ)
      → IsIdle n d m
      → m' ≡ record m { connections = m.connections + c }
      → one_if_some d'.local_connect ≡ c
      → d'.local_handle ≡ d.local_handle
      → d'.remote_connect ≡ d.remote_connect
      → d'.remote_handle ≡ d.remote_handle
      → IsHeld n d' m'
  connected d d' m m' c idle taken one handle rc rh = record {
    taken =
        taken
        ∙ rw (idle.at, one, handle, idle.no_local_handle)
            (Counts_eq _ _ _ _ _ _ refl refl (omega arith));
    no_connect = rc ∙ idle.no_remote_connect;
    no_handle = rh ∙ idle.no_remote_handle;
  }

-- ===== src/Dumper/Disks/Local/Cleanup.antt =====
-- `ReadLocalDisk` or `CreateLocalDisk`, and `Cleanup` after it.
use virtual_disks.Base.{ℕ, ◌+◌, ◌/◌, ◌≡◌, refl, ap, ◌∙◌, some, String, arith}
use virtual_disks.Vddk.{World}
use virtual_disks.Effects.{Prog, Machine, run, ◌>>=◌, Ensures, Ensures-bind, Ensures-weaken}
use virtual_disks.Disklib.Types.{sector_size, new_create_params}
use virtual_disks.Disklib.Session.{connect}
use virtual_disks.Disklib.Images
use virtual_disks.Disk.Errors.{unless_error-Ensures}
use virtual_disks.Disk.Opening.Counts.{Counts, counting, gained, connect-counts, create-counts}
use virtual_disks.Disk.Opening.Balance.{Counts_eq}
use virtual_disks.Dumper.Types.{VadpDumper}
use virtual_disks.Dumper.Disks.{Dumped, read_local_disk, create_local_disk, cleanup}
use virtual_disks.Dumper.Disks.Balance.{with_params-Ensures}
use virtual_disks.Dumper.Disks.Counted.{one_if_some, cleanup-counts}
use virtual_disks.Dumper.Disks.Local.{IsHeld, IsIdle, KeepsPointers, open_local-IsHeld, connected}

module _ (W : World) (n : Counts) where
  nobody : (d : VadpDumper) (m : Counts) → IsIdle n d m → one_if_some d.local_connect ≡ 0
  nobody d m idle = ap one_if_some idle.no_local_connect

  reads_only : KeepsPointers (λ d h. record d { read_handle = some h })
  reads_only = record {
    local_connect = λ d h. refl;
    local_handle = λ d h. refl;
    remote_connect = λ d h. refl;
    remote_handle = λ d h. refl;
  }

  writes_only : KeepsPointers (λ d h. record d { write_handle = some h })
  writes_only = record {
    local_connect = λ d h. refl;
    local_handle = λ d h. refl;
    remote_connect = λ d h. refl;
    remote_handle = λ d h. refl;
  }

  read_local_disk-IsHeld :
      (mutex : ℕ) (d : VadpDumper) (s : Machine (counting W))
      → IsIdle n d s.lib.0
      → Ensures (run (read_local_disk mutex d) s) (λ r t. IsHeld n r.0 t.lib.0)
  unfolding read_local_disk run
  read_local_disk-IsHeld mutex d s idle =
      with_params-Ensures s _ d.local_conn_params _ _
        (connected W n d d s.lib.0 s.lib.0 0 idle
          (ap (λ c. record (s.lib.0) { connections = c }) (omega arith)) (nobody d s.lib.0 idle)
          refl refl refl)
        (λ params.
          Ensures-bind (connect params) _ s
            (λ r t. t.lib.0 ≡ record (s.lib.0) { connections = s.lib.0.connections + gained r.1 }) _
            (connect-counts W s params)
            (λ r t h.
              unless_error-Ensures t _ r.1 _ _
                (λ e failed.
                  connected W n d d s.lib.0 t.lib.0 0 idle (h ∙ rw failed refl)
                    (nobody d s.lib.0 idle) refl refl refl)
                (λ ok.
                  open_local-IsHeld W n mutex r.0 params _ (record d { local_connect = some r.0 }) t
                    reads_only idle.no_local_handle
                    (connected W n d (record d { local_connect = some r.0 }) s.lib.0 t.lib.0 1 idle
                      (h ∙ rw ok refl) refl refl refl refl))))

  create_local_disk-IsHeld :
      (disk_type adapter_type mutex : ℕ) (d : VadpDumper) (disk_name : String) (disk_len : ℕ)
      (s : Machine (counting W))
      → IsIdle n d s.lib.0
      → Ensures
          (run (create_local_disk disk_type adapter_type mutex d disk_name disk_len) s)
          (λ r t. IsHeld n r.0 t.lib.0)
  unfolding create_local_disk run
  create_local_disk-IsHeld disk_type adapter_type mutex d disk_name disk_len s idle =
      with_params-Ensures s _ d.local_conn_params _ _
        (connected W n d d s.lib.0 s.lib.0 0 idle
          (ap (λ c. record (s.lib.0) { connections = c }) (omega arith)) (nobody d s.lib.0 idle)
          refl refl refl)
        (λ params.
          Ensures-bind (connect params) _ s
            (λ r t. t.lib.0 ≡ record (s.lib.0) { connections = s.lib.0.connections + gained r.1 }) _
            (connect-counts W s params)
            (λ r t h.
              unless_error-Ensures t _ r.1 _ _
                (λ e failed.
                  connected W n d d s.lib.0 t.lib.0 0 idle (h ∙ rw failed refl)
                    (nobody d s.lib.0 idle) refl refl refl)
                (λ ok.
                  let d' = record d { local_connect = some r.0 } in
                  Ensures-bind
                    (Images.create r.0 disk_name
                      (new_create_params disk_type adapter_type 7 (disk_len / sector_size)) "")
                    _ t (λ e u. u.lib.0 ≡ t.lib.0) _ (create-counts W t r.0 disk_name _ "")
                    (λ e u same.
                      let held =
                        connected W n d d' s.lib.0 u.lib.0 1 idle (same ∙ h ∙ rw ok refl) refl refl
                          refl refl in
                      unless_error-Ensures u _ e _ _ (λ x failed. held)
                        (λ made.
                          open_local-IsHeld W n mutex r.0 params _ d' u writes_only
                            idle.no_local_handle held)))))

  cleaned_up :
      (p : Prog Dumped) (s : Machine (counting W))
      → Ensures (run p s) (λ r t. IsHeld n r.0 t.lib.0)
      → Ensures (run (p >>= λ r. cleanup r.0) s) (λ r t. t.lib.0 ≡ n)
  cleaned_up p s held =
      Ensures-bind p (λ r. cleanup r.0) s (λ r t. IsHeld n r.0 t.lib.0) _ held
        (λ r t h.
          Ensures-weaken (run (cleanup r.0) t) _ _
            (λ x u k.
              k.1
              ∙ rw (h.taken, h.no_connect, h.no_handle)
                  (Counts_eq _ _ _ _ _ _ refl (omega arith) (omega arith)))
            (cleanup-counts W r.0 t))

  -- `ReadLocalDisk` of a dumper whose four pointers are nil, and then `Cleanup`, end, whatever the
  -- library answers: whether opening succeeded or failed, and at which step, the accesses, connections
  -- and disks are as many as before.
  pub read_local_disk-cleanup :
      (mutex : ℕ) (d : VadpDumper) (s : Machine (counting W))
      → IsIdle n d s.lib.0
      → Ensures (run (read_local_disk mutex d >>= λ r. cleanup r.0) s) (λ r t. t.lib.0 ≡ n)
  read_local_disk-cleanup mutex d s idle =
      cleaned_up (read_local_disk mutex d) s (read_local_disk-IsHeld mutex d s idle)

  -- `CreateLocalDisk` of a dumper whose four pointers are nil, with any name and length, and then
  -- `Cleanup`, end, whatever the library answers: whether creating and opening succeeded or failed,
  -- and at which step, the accesses, connections and disks are as many as before.
  pub create_local_disk-cleanup :
      (disk_type adapter_type mutex : ℕ) (d : VadpDumper) (disk_name : String) (disk_len : ℕ)
      (s : Machine (counting W))
      → IsIdle n d s.lib.0
      → Ensures
          (run
            (create_local_disk disk_type adapter_type mutex d disk_name disk_len >>= λ r.
              cleanup r.0)
            s)
          (λ r t. t.lib.0 ≡ n)
  create_local_disk-cleanup disk_type adapter_type mutex d disk_name disk_len s idle =
      cleaned_up (create_local_disk disk_type adapter_type mutex d disk_name disk_len) s
        (create_local_disk-IsHeld disk_type adapter_type mutex d disk_name disk_len s idle)

-- ===== src/Dumper/Disks/Balance.antt =====
-- What `OpenRemoteDisk` of a dumper takes and gives back, and `Cleanup` after it.
use virtual_disks.Base.{ℕ, ◌+◌, ◌-◌, ◌≡◌, refl, ◌∙◌, Option, none, some, arith}
use virtual_disks.Vddk.{World}
use virtual_disks.Effects.{
  Machine, Prog, ret, run, ◌>>=◌, ◌>>◌, Ensures, Ensures-bind, Ensures-weaken,
}
use virtual_disks.Disklib.Types.{ConnectParams}
use virtual_disks.Disklib.Session.{connect_ex, disconnect}
use virtual_disks.Disklib.Images
use virtual_disks.Disklib.Io.{get_info}
use virtual_disks.Disk.Handle.{unless_error, new_disk_handle}
use virtual_disks.Disk.Opening.Counts.{
  Counts, counting, gained, connect_ex-counts, open_disk-counts, get_info-counts, disconnect-counts,
  close-counts,
}
use virtual_disks.Disk.Opening.Balance.{Counts_eq}
use virtual_disks.Disk.Errors.{unless_error-Ensures}
use virtual_disks.Dumper.Types.{VadpDumper, DumpError, around_vix, with_params}
use virtual_disks.Dumper.Disks.{Dumped, open_remote_disk, keep_handle}

-- A connection and a disk more, or nothing.
abbrev pub IsOpening : Counts → Dumped → Counts → Type 0
IsOpening n (d, none) m = m ≡ record n { connections = n.connections + 1; disks = n.disks + 1 }
IsOpening n (d, some e) m = m ≡ n

module _ {W : World} {A : Type 0} (s : Machine W) (P : A → Machine W → Type 0) where
  pub with_params-Ensures :
      (o : Option ConnectParams) (bad : Prog A) (good : ConnectParams → Prog A)
      → Ensures (run bad s) P
      → ((params : ConnectParams) → Ensures (run (good params) s) P)
      → Ensures (run (with_params o bad good) s) P
  with_params-Ensures none bad good h k = h
  with_params-Ensures (some params) bad good h k = k params

module _ (W : World) (mutex : ℕ) (d : VadpDumper) (n : Counts) where
  abbrev Opening : Dumped → Machine (counting W) → Type 0
  Opening r t = IsOpening n r t.lib.0

  disconnected :
      (s : Machine (counting W)) (conn : ℕ) (d' : VadpDumper) (e : DumpError)
      → s.lib.0 ≡ record n { connections = n.connections + 1 }
      → Ensures (run (disconnect conn >> ret (d', some e)) s) Opening
  unfolding run
  disconnected s conn d' e at =
      Ensures-bind (disconnect conn) _ s
        (λ x t. t.lib.0 ≡ record (s.lib.0) { connections = s.lib.0.connections - 1 }) Opening
        (disconnect-counts W s conn)
        (λ x t h. h ∙ rw at (Counts_eq _ _ _ _ _ _ refl (omega arith) refl))

  closed :
      (s : Machine (counting W)) (dli conn : ℕ) (d' : VadpDumper) (e : DumpError)
      → s.lib.0 ≡ record n { connections = n.connections + 1; disks = n.disks + 1 }
      → Ensures (run (Images.close dli >> (disconnect conn >> ret (d', some e))) s) Opening
  closed s dli conn d' e at =
      Ensures-bind (Images.close dli) _ s
        (λ x t. t.lib.0 ≡ record (s.lib.0) { disks = s.lib.0.disks - 1 }) Opening
        (close-counts W s dli)
        (λ x t h.
          disconnected t conn d' e (h ∙ rw at (Counts_eq _ _ _ _ _ _ refl refl (omega arith))))

  disk_opened :
      (s : Machine (counting W)) (conn : ℕ) (params : ConnectParams) (d' : VadpDumper)
      → s.lib.0 ≡ record n { connections = n.connections + 1 }
      → Ensures
          (run
            (Images.open_disk conn params >>= λ r.
              unless_error r.1
                (λ e. disconnect conn >> ret (d', some (around_vix "disklib.Open: %v" (some e))))
                (get_info r.0 >>= λ x.
                  let d'' = record d' { remote_handle = some r.0 } in
                  unless_error x.1
                    (λ e.
                      Images.close r.0
                      >> (disconnect conn
                          >> ret (d'', some (around_vix "disklib.GetInfo: %v" (some e)))))
                    (ret (
                      keep_handle
                          (record d'' { remote_disk_info = some x.0 })
                          (new_disk_handle mutex r.0 conn params x.0),
                      none,
                    ))))
            s)
          Opening
  unfolding run
  disk_opened s conn params d' at =
      Ensures-bind (Images.open_disk conn params) _ s
        (λ r t.
          t.lib.0 ≡ record n { connections = n.connections + 1; disks = n.disks + gained r.1 })
        Opening
        (Ensures-weaken (run (Images.open_disk conn params) s) _ _ (λ r t h. h.0 ∙ rw at refl)
          (open_disk-counts W s conn params))
        (λ r t opened.
          unless_error-Ensures t Opening r.1 _ _
            (λ e failed.
              disconnected t conn d' _
                (opened ∙ rw failed (Counts_eq _ _ _ _ _ _ refl refl (omega arith))))
            (λ ok.
              Ensures-bind (get_info r.0) _ t
                (λ x u. u.lib.0 ≡ record n { connections = n.connections + 1; disks = n.disks + 1 })
                Opening
                (Ensures-weaken (run (get_info r.0) t) _ _ (λ x u h. h.0 ∙ opened ∙ rw ok refl)
                  (get_info-counts W t r.0))
                (λ x u known.
                  unless_error-Ensures u Opening x.1 _ _ (λ e failed. closed u r.0 conn _ _ known)
                    (λ done. known))))

  -- `OpenRemoteDisk` ends, whatever the library answers. If it succeeds, one connection and one disk
  -- more are open; if it fails, as many as before.
  pub open_remote_disk-IsOpening :
      (s : Machine (counting W)) → s.lib.0 ≡ n → Ensures (run (open_remote_disk mutex d) s) Opening
  unfolding open_remote_disk run
  open_remote_disk-IsOpening s start =
      with_params-Ensures s Opening d.remote_conn_params _ _ start (λ params.
        Ensures-bind (connect_ex params) _ s
          (λ r t. t.lib.0 ≡ record n { connections = n.connections + gained r.1 }) Opening
          (Ensures-weaken (run (connect_ex params) s) _ _ (λ r t h. h.0 ∙ rw start refl)
            (connect_ex-counts W s params))
          (λ c t at.
            unless_error-Ensures t Opening c.1 _ _
              (λ e failed. at ∙ rw failed (Counts_eq _ _ _ _ _ _ refl (omega arith) refl))
              (λ ok. disk_opened t c.0 params _ (at ∙ rw ok refl))))

-- ===== src/Disk/Opening/Balance.antt =====
-- What an `Open` that fails gives back.
use virtual_disks.Base.{ℕ, ◌+◌, ◌-◌, ◌≡◌, refl, ◌∙◌, Option, none, some, if◌then◌else◌, arith}
use text.Mathlib.Text.{◌==◌ as str_eq}
use virtual_disks.Vddk.{World}
use virtual_disks.Effects.{Machine, ret, run, ◌>>=◌, ◌>>◌, Ensures, Ensures-bind}
use virtual_disks.Disklib.Types.{ConnectParams, VixDiskLibInfo, VddkError}
use virtual_disks.Disklib.Session.{prepare_for_access, connect_ex, end_access, disconnect}
use virtual_disks.Disklib.Images.{open_disk}
use virtual_disks.Disklib.Io.{get_info}
use virtual_disks.Disk.Handle.{unless_error, new_disk_handle}
use virtual_disks.Disk.Stream.{new_disk_reader_writer}
use virtual_disks.Disk.Opening.{Fresh, Opened, open_stream}
use virtual_disks.Disk.Opening.Counts.{
  Counts, counting, gained, Tells, prepare-counts, connect_ex-counts, open_disk-counts,
  get_info-counts, end_access-counts, disconnect-counts,
}

-- The error comes from `GetInfo`.
abbrev pub leaked : VddkError → ℕ
leaked e = if str_eq e.err_msg.format "GetInfo failed. The error code is %d." then 1 else 0

-- An access, a connection and a disk with a stream; or an error with nothing taken, but for the disk
-- where it is `GetInfo` that failed.
abbrev pub IsBalanced : Counts → Opened → Counts → Type 0
IsBalanced n (some rw, none) m =
    m ≡ record { accesses = n.accesses + 1; connections = n.connections + 1; disks = n.disks + 1 }
IsBalanced n (none, some e) m = m ≡ record n { disks = n.disks + leaked e }
IsBalanced n (some rw, some e) m = ⊥
IsBalanced n (none, none) m = ⊥

pub Counts_eq :
    (a b c a' b' c' : ℕ)
    → a ≡ a'
    → b ≡ b'
    → c ≡ c'
    → ◌≡◌ {A = Counts}
        (record { accesses = a; connections = b; disks = c })
        (record { accesses = a'; connections = b'; disks = c' })
Counts_eq a b c a' b' c' p q r i = record { accesses = p i; connections = q i; disks = r i }

module _ (W : World) (fresh : Fresh) (params : ConnectParams) (n : Counts) where
  abbrev Balanced : Opened → Machine (counting W) → Type 0
  Balanced r t = IsBalanced n r t.lib.0

  abbrev counted : (accesses connections disks : ℕ) → Counts
  counted accesses connections disks = record {
    accesses = n.accesses + accesses;
    connections = n.connections + connections;
    disks = n.disks + disks;
  }

  give_back :
      (s : Machine (counting W)) (conn disks : ℕ) (e : VddkError)
      → s.lib.0 ≡ counted 1 1 disks
      → leaked e ≡ disks
      → Ensures (run (disconnect conn >> (end_access params >> ret (none, some e))) s) Balanced
  unfolding run
  give_back s conn disks e at leak =
      Ensures-bind (disconnect conn) _ s
        (λ x t. t.lib.0 ≡ record (s.lib.0) { connections = s.lib.0.connections - 1 }) Balanced
        (disconnect-counts W s conn)
        (λ x t h.
          Ensures-bind (end_access params) _ t
            (λ y u. u.lib.0 ≡ record (t.lib.0) { accesses = t.lib.0.accesses - 1 }) Balanced
            (end_access-counts W t params)
            (λ y u k.
              k ∙ rw (h, at, leak) (Counts_eq _ _ _ _ _ _ (omega arith) (omega arith) refl)))

  info_end :
      (s : Machine (counting W)) (dli conn : ℕ) (info : VixDiskLibInfo) (err : Option VddkError)
      → s.lib.0 ≡ counted 1 1 1
      → Tells err "GetInfo failed. The error code is %d."
      → Ensures
          (run
            (unless_error err
              (λ e. disconnect conn >> (end_access params >> ret (none, some e)))
              (new_disk_reader_writer fresh.offset fresh.mutex
                  (new_disk_handle fresh.handle_mutex dli conn params info)
                >>= λ rw. ret (some rw, none)))
            s)
          Balanced
  unfolding run new_disk_reader_writer
  info_end s dli conn info none at tells = at
  info_end s dli conn info (some e) at tells = give_back s conn 1 e at (rw tells)

  disk_end :
      (s : Machine (counting W)) (dli conn : ℕ) (err : Option VddkError)
      → s.lib.0 ≡ counted 1 1 (gained err)
      → Tells err "Open virtual disk file failed. The error code is %d."
      → Ensures
          (run
            (unless_error err
              (λ e. disconnect conn >> (end_access params >> ret (none, some e)))
              (get_info dli >>= λ x.
                unless_error x.1
                  (λ e. disconnect conn >> (end_access params >> ret (none, some e)))
                  (new_disk_reader_writer fresh.offset fresh.mutex
                      (new_disk_handle fresh.handle_mutex dli conn params x.0)
                    >>= λ rw. ret (some rw, none))))
            s)
          Balanced
  disk_end s dli conn none at tells =
      Ensures-bind (get_info dli) _ s
        (λ r t. (t.lib.0 ≡ s.lib.0) × Tells r.1 "GetInfo failed. The error code is %d.") Balanced
        (get_info-counts W s dli) (λ r t h. info_end t dli conn r.0 r.1 (h.0 ∙ at) h.1)
  disk_end s dli conn (some e) at tells = give_back s conn 0 e at (rw tells)

  conn_end :
      (s : Machine (counting W)) (conn : ℕ) (err : Option VddkError)
      → s.lib.0 ≡ counted 1 (gained err) 0
      → Tells err "ConnectEx failed. The error code is %d."
      → Ensures
          (run
            (unless_error err
              (λ e. end_access params >> ret (none, some e))
              (open_disk conn params >>= λ d.
                unless_error d.1
                  (λ e. disconnect conn >> (end_access params >> ret (none, some e)))
                  (get_info d.0 >>= λ x.
                    unless_error x.1
                      (λ e. disconnect conn >> (end_access params >> ret (none, some e)))
                      (new_disk_reader_writer fresh.offset fresh.mutex
                          (new_disk_handle fresh.handle_mutex d.0 conn params x.0)
                        >>= λ rw. ret (some rw, none)))))
            s)
          Balanced
  unfolding run
  conn_end s conn none at tells =
      Ensures-bind (open_disk conn params) _ s
        (λ r t.
          (t.lib.0 ≡ record (s.lib.0) { disks = s.lib.0.disks + gained r.1 })
          × Tells r.1 "Open virtual disk file failed. The error code is %d.")
        Balanced (open_disk-counts W s conn params)
        (λ r t h.
          disk_end t r.0 conn r.1 (h.0 ∙ rw at (Counts_eq _ _ _ _ _ _ refl refl (omega arith))) h.1)
  conn_end s conn (some e) at tells =
      Ensures-bind (end_access params) _ s
        (λ y u. u.lib.0 ≡ record (s.lib.0) { accesses = s.lib.0.accesses - 1 }) Balanced
        (end_access-counts W s params)
        (λ y u k. k ∙ rw (at, tells) (Counts_eq _ _ _ _ _ _ (omega arith) (omega arith) refl))

  access_end :
      (s : Machine (counting W)) (err : Option VddkError)
      → s.lib.0 ≡ record n { accesses = n.accesses + gained err }
      → Tells err "Prepare for access failed. The error code is %d."
      → Ensures
          (run
            (unless_error err
              (λ e. ret (none, some e))
              (connect_ex params >>= λ c.
                unless_error c.1
                  (λ e. end_access params >> ret (none, some e))
                  (open_disk c.0 params >>= λ d.
                    unless_error d.1
                      (λ e. disconnect c.0 >> (end_access params >> ret (none, some e)))
                      (get_info d.0 >>= λ x.
                        unless_error x.1
                          (λ e. disconnect c.0 >> (end_access params >> ret (none, some e)))
                          (new_disk_reader_writer fresh.offset fresh.mutex
                              (new_disk_handle fresh.handle_mutex d.0 c.0 params x.0)
                            >>= λ rw. ret (some rw, none))))))
            s)
          Balanced
  unfolding run
  access_end s none at tells =
      Ensures-bind (connect_ex params) _ s
        (λ r t.
          (t.lib.0 ≡ record (s.lib.0) { connections = s.lib.0.connections + gained r.1 })
          × Tells r.1 "ConnectEx failed. The error code is %d.")
        Balanced (connect_ex-counts W s params)
        (λ r t h.
          conn_end t r.0 r.1 (h.0 ∙ rw at (Counts_eq _ _ _ _ _ _ refl refl (omega arith))) h.1)
  access_end s (some e) at tells =
      at ∙ rw tells (Counts_eq _ _ _ _ _ _ (omega arith) refl (omega arith))

  -- `Open` ends, whatever the library answers. If it succeeds, one access is prepared, one
  -- connection and one disk are open, and there is a stream. If it fails, there is no stream, and the
  -- accesses, connections and disks are as many as before, but for one disk that stays open where it
  -- is `GetInfo` that failed.
  pub open_stream-IsBalanced :
      (s : Machine (counting W))
      → s.lib.0 ≡ n
      → Ensures (run (open_stream fresh params) s) (λ r t. IsBalanced n r t.lib.0)
  unfolding open_stream
  open_stream-IsBalanced s start =
      Ensures-bind (prepare_for_access params) _ s
        (λ e t.
          (t.lib.0 ≡ record (s.lib.0) { accesses = s.lib.0.accesses + gained e })
          × Tells e "Prepare for access failed. The error code is %d.")
        Balanced (prepare-counts W s params) (λ e t h. access_end t e (h.0 ∙ rw start) h.1)

-- ===== src/Disk/Opening/Counts.antt =====
-- What the program has taken from the library and not given back: a world that counts, on top of
-- any world, the accesses prepared, the connections and the open disks. Giving back counts whatever
-- code the library answers.
use virtual_disks.Base.{
  ℕ, ◌+◌, ◌-◌, ◌≡◌, refl, ap, Option, none, some, String, ◌==◌, if◌then◌else◌, arith, Bool-cases,
  inl, inr,
}
use virtual_disks.Vddk.{Call, Reply, World}
use virtual_disks.Effects.{Machine, run, Ensures}
use virtual_disks.Disklib.Types.{ConnectParams, VixDiskLibCreateParams, VddkError, vix_ok, check}
use virtual_disks.Disklib.Params.{prepare_connect_params, prepare_create_params}
use virtual_disks.Disklib.Session.{prepare_for_access, connect, connect_ex, end_access, disconnect}
use virtual_disks.Disklib.Images
use virtual_disks.Disklib.Images.{open_disk}
use virtual_disks.Disklib.Io.{get_info}

pub record Counts : Type 0 where
  pub accesses : ℕ
  pub connections : ℕ
  pub disks : ℕ

abbrev pub one_if_ok : (code : ℕ) → ℕ
one_if_ok code = if code == vix_ok then 1 else 0

abbrev pub count : (c : Call) → Reply c → Counts → Counts
count (Call.prepare_for_access cnx identity) code n = record n {
  accesses = n.accesses + one_if_ok code;
}
count (Call.end_access cnx identity) code n = record n { accesses = n.accesses - 1 }
count (Call.connect cnx) r n = record n { connections = n.connections + one_if_ok r.0 }
count (Call.connect_ex cnx read_only snap modes) r n = record n {
  connections = n.connections + one_if_ok r.0;
}
count (Call.disconnect conn) code n = record n { connections = n.connections - 1 }
count (Call.open_disk conn path flags) r n = record n { disks = n.disks + one_if_ok r.0 }
count (Call.close dli) code n = record n { disks = n.disks - 1 }
count _ r n = n

abbrev pub counting : World → World
counting W = record {
  State = Counts × W.State;
  answer = λ c s. let (r, w) = W.answer c s.1 in (r, (count c r s.0, w));
}

-- A call that succeeds gives no error.
abbrev pub gained : Option VddkError → ℕ
gained none = 1
gained (some e) = 0

-- The error's text, if there is one, was made with this format.
abbrev pub Tells : Option VddkError → String → Type 0
Tells none format = Unit
Tells (some e) format = e.err_msg.format ≡ format

gained-check : (code : ℕ) (format : String) → one_if_ok code ≡ gained (check code format)
unfolding check
gained-check code format = ground arith

check-Tells : (code : ℕ) (format : String) → Tells (check code format) format
unfolding check
check-Tells code format = elim (Bool-cases (code == vix_ok)) [ inl e ↦ rw e tt | inr e ↦ rw e refl ]

module _ (W : World) (s : Machine (counting W)) where
  pub prepare-counts :
      (params : ConnectParams)
      → Ensures (run (prepare_for_access params) s) (λ e t.
        (t.lib.0 ≡ record (s.lib.0) { accesses = s.lib.0.accesses + gained e })
        × Tells e "Prepare for access failed. The error code is %d.")
  unfolding run prepare_for_access prepare_connect_params
  prepare-counts params = (
    ap (λ n. record (s.lib.0) { accesses = s.lib.0.accesses + n }) (gained-check _ _),
    check-Tells _ _,
  )

  pub connect-counts :
      (params : ConnectParams)
      → Ensures
          (run (connect params) s)
          (λ r t. t.lib.0 ≡ record (s.lib.0) { connections = s.lib.0.connections + gained r.1 })
  unfolding run connect prepare_connect_params
  connect-counts params =
      ap (λ n. record (s.lib.0) { connections = s.lib.0.connections + n }) (gained-check _ _)

  pub create-counts :
      (conn : ℕ) (path : String) (create_params : VixDiskLibCreateParams) (progress : String)
      → Ensures (run (Images.create conn path create_params progress) s) (λ e t. t.lib.0 ≡ s.lib.0)
  unfolding run Images.create prepare_create_params
  create-counts conn path create_params progress = refl

  pub connect_ex-counts :
      (params : ConnectParams)
      → Ensures (run (connect_ex params) s) (λ r t.
        (t.lib.0 ≡ record (s.lib.0) { connections = s.lib.0.connections + gained r.1 })
        × Tells r.1 "ConnectEx failed. The error code is %d.")
  unfolding run connect_ex prepare_connect_params
  connect_ex-counts params = (
    ap (λ n. record (s.lib.0) { connections = s.lib.0.connections + n }) (gained-check _ _),
    check-Tells _ _,
  )

  pub open_disk-counts :
      (conn : ℕ) (params : ConnectParams)
      → Ensures (run (open_disk conn params) s) (λ r t.
        (t.lib.0 ≡ record (s.lib.0) { disks = s.lib.0.disks + gained r.1 })
        × Tells r.1 "Open virtual disk file failed. The error code is %d.")
  unfolding run open_disk
  open_disk-counts conn params =
      (ap (λ n. record (s.lib.0) { disks = s.lib.0.disks + n }) (gained-check _ _), check-Tells _ _)

  pub get_info-counts :
      (dli : ℕ)
      → Ensures
          (run (get_info dli) s)
          (λ r t. (t.lib.0 ≡ s.lib.0) × Tells r.1 "GetInfo failed. The error code is %d.")
  unfolding run get_info
  get_info-counts dli = (refl, check-Tells _ _)

  pub end_access-counts :
      (params : ConnectParams)
      → Ensures
          (run (end_access params) s)
          (λ e t. t.lib.0 ≡ record (s.lib.0) { accesses = s.lib.0.accesses - 1 })
  unfolding run end_access prepare_connect_params
  end_access-counts params = refl

  pub disconnect-counts :
      (conn : ℕ)
      → Ensures
          (run (disconnect conn) s)
          (λ e t. t.lib.0 ≡ record (s.lib.0) { connections = s.lib.0.connections - 1 })
  unfolding run disconnect
  disconnect-counts conn = refl

  pub close-counts :
      (dli : ℕ)
      → Ensures
          (run (Images.close dli) s)
          (λ e t. t.lib.0 ≡ record (s.lib.0) { disks = s.lib.0.disks - 1 })
  unfolding run Images.close
  close-counts dli = refl

-- ===== src/Dumper/Params/Remote.antt =====
-- From the parameters of a job to the struct that the library connects with.
use virtual_disks.Base.{
  ℕ, ◌<◌, ◌≡◌, ◌≢◌, refl, sym, ap, ◌∙◌, Bool, false, Option, none, some, ◌⊎◌, inl, inr, List, [],
  ◌∷◌, String, Bool-cases, arith,
}
use virtual_disks.Base.Bytes.{Byte}
use virtual_disks.Base.Int.{ℤ, pos}
use virtual_disks.Base.Decimal.{format_int}
use virtual_disks.Base.Decimal.ReadBack.{read_digits, read_digits-format_int}
use virtual_disks.Vddk.{SpecType, CredType, Creds, CConnectParams}
use virtual_disks.Disklib.Types.{ConnectParams, new_connect_params}
use virtual_disks.Disklib.Params.{
  params_helper, fill_spec, fill_server, fill_creds, fill_connect_params,
}
use virtual_disks.Disklib.ThumbPrint.{address}
use virtual_disks.Disklib.ThumbPrint
use virtual_disks.Disklib.ThumbPrint.ReadBack.{
  read_back, AreBytes, get_thumb_print_for_server-reads_back,
}
use virtual_disks.Dumper.Types.{
  ConnParams, DiskParams, DumpMode, new_vadp_dumper, set_remote_conn_params,
}
use virtual_disks.Dumper.Params.{
  get_thumb_print_for_server, new_conn_params, identity_of, new_vddk_params,
}
use Prim.Native.String.{◌++◌}
use text.Mathlib.Text.{◌==◌}
use text.Mathlib.TextEquality.{eq_iff}
use text.Mathlib.TextLemmas.{append_cancel_left}

-- The parameters of the connection of a dumper that is made for a disk.
abbrev pub remote_params :
    (flag drawn : ℕ)
    → ConnParams
    → DiskParams
    → DumpMode
    → (read_only : Bool) → Option ConnectParams
remote_params flag drawn conn disk mode read_only =
    let dumper = new_vadp_dumper (new_vddk_params drawn conn disk) mode in
    (set_remote_conn_params flag dumper read_only).remote_conn_params

-- The struct names the virtual machine and the server, proves who asks by name and password, and has
-- the thumbprint of a digest.
pub record IsReady (host name password mo_ref : String) (digest : List Byte) (cnx : CConnectParams)
    : Type 0 where
  pub spec : cnx.spec_type ≡ SpecType.vmx
  pub machine : cnx.vmx_spec ≡ some mo_ref
  pub server : cnx.server_name ≡ some host
  pub by_name : cnx.cred_type ≡ CredType.uid
  pub creds : cnx.creds ≡ Creds.uid (some name) (some password)
  pub thumb_print : (text : String) × (cnx.thumb_print ≡ some text) × (read_back text ≡ digest)

ne→== : (s t : String) → s ≢ t → (s == t) ≡ false
ne→== s t ne = elim (Bool-cases (s == t)) [
  | inl same ↦ absurd (ne ((eq_iff s t).0 same))
  | inr other ↦ other
]

carried :
    (flag : ℕ) (p : ConnParams) (drawn : ℕ) (disk : DiskParams) (mode : DumpMode) (read_only : Bool)
    (cnx : CConnectParams) (digest : List Byte)
    → p.vsphere_host_name ≢ ""
    → p.vm_mo_ref ≢ ""
    → digest ≢ []
    → read_back p.vsphere_thumb_print ≡ digest
    → (cp : ConnectParams) × (remote_params flag drawn p disk mode read_only ≡ some cp)
      × IsReady p.vsphere_host_name p.vsphere_username p.vsphere_password p.vm_mo_ref digest
          (fill_connect_params cp cnx)
unfolding set_remote_conn_params new_vadp_dumper new_vddk_params new_connect_params
    fill_connect_params fill_spec fill_server fill_creds params_helper
carried flag p drawn disk mode read_only cnx digest host mo_ref full same = (
  _,
  refl,
  record {
    spec = rw named refl;
    machine = rw named refl;
    server = rw (ne→== p.vsphere_host_name "" host) refl;
    by_name = refl;
    creds = refl;
    thumb_print = (p.vsphere_thumb_print, rw shown refl, same);
  },
)
  where
    named : (p.vm_mo_ref == "") ≡ false
    named = ne→== p.vm_mo_ref "" mo_ref

    shown : (p.vsphere_thumb_print == "") ≡ false
    shown = ne→== p.vsphere_thumb_print "" (λ e. full (sym same ∙ ap read_back e))

-- The server at a host and a port shows a certificate
-- whose digest is not empty and consists of bytes; the host and the name of the machine are not empty.
-- Then NewConnParams gives parameters without an error, and a dumper made with them, for any disk, any
-- number drawn and any mode, connects with a struct that names this machine at this host, with the
-- user's name and password, and with a thumbprint from which this digest can be read back; whatever
-- the struct held before.
pub new_conn_params-IsReady :
    {E : Type 0} (dial : (address : String) → E ⊎ List (List Byte)) (sha1 : List Byte → List Byte)
    (host : String) (port : ℤ) (name password mo_ref snap_ref : String) (cert : List Byte)
    (peer_certs : List (List Byte)) (flag drawn : ℕ) (disk : DiskParams) (mode : DumpMode)
    (read_only : Bool) (cnx : CConnectParams)
    → host ≢ ""
    → mo_ref ≢ ""
    → dial (address host (format_int port)) ≡ inr (cert ∷ peer_certs)
    → sha1 cert ≢ []
    → AreBytes (sha1 cert)
    → (p : ConnParams) × (cp : ConnectParams) × (new_conn_params dial sha1 host port name password
          mo_ref snap_ref
        ≡ (some p, none))
      × (remote_params flag drawn p disk mode read_only ≡ some cp)
      × IsReady host name password mo_ref (sha1 cert) (fill_connect_params cp cnx)
unfolding new_conn_params get_thumb_print_for_server
new_conn_params-IsReady dial sha1 host port name password mo_ref snap_ref cert peer_certs flag drawn
      disk mode read_only cnx named machine shown full bytes =
    let (same, well) =
      get_thumb_print_for_server-reads_back dial sha1 host (format_int port) cert peer_certs shown
        bytes in
    let p : ConnParams = record {
      vm_mo_ref = mo_ref;
      vsphere_host_name = host;
      vsphere_host_port = port;
      vsphere_username = name;
      vsphere_password = password;
      vsphere_thumb_print =
          (ThumbPrint.get_thumb_print_for_server dial sha1 host (format_int port)).0;
      vsphere_snapshot_mo_ref = snap_ref;
    } in
    let (cp, made, ready) =
      carried flag p drawn disk mode read_only cnx (sha1 cert) named machine full same in
    (p, cp, rw (new_conn_params, well) refl, made, ready)

-- Two different numbers below 1000 that are drawn for two jobs give them different identities.
pub identity_of-ne :
    (drawn other : ℕ)
    → drawn < 1000
    → other < 1000
    → drawn ≢ other
    → identity_of drawn ≢ identity_of other
unfolding identity_of
identity_of-ne drawn other small small' ne same =
    let texts =
      append_cancel_left ("rsb_dumper_" ++ "_") (format_int (pos drawn)) (format_int (pos other))
        same in
    ne (
      sym (read_digits-format_int drawn (omega (arith, small)))
      ∙ ap (read_digits 0) texts
      ∙ read_digits-format_int other (omega (arith, small')))

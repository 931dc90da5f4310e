-- ===== src/Tests/Device.antt =====
-- A library of disks of four sectors, whose requests fail where they leave the disk, whose `GetInfo`
-- answers with a code of choice, and which calls the first 2048 sectors allocated, of 5000.
use virtual_disks.Base.{
  ltb, ◌∷◌, ℕ, ◌+◌, ◌*◌, refl, ap, none, [], length, leb, le→leb, Bool-cases, inl, inr,
  if◌then◌else◌,
}
use virtual_disks.Base.Bytes.{Content, bytes_at, patch, length-bytes_at}
use virtual_disks.Vddk.{
  Call, Reply, World, CConnectParams, CInfo, CGeometry, SpecType, CredType, Creds,
}
use virtual_disks.Effects.{set_at, set_at_self}
use virtual_disks.Disklib.Types.{sector_size, vix_e_disk_outofrange}
use virtual_disks.Device.{IsDisk, IsHealthy, IsAtomic}

abbrev pub num_sectors : ℕ
num_sectors = 4

abbrev geometry : CGeometry
geometry = record { cylinders = 1; heads = 1; sectors = num_sectors }

abbrev info : CInfo
info = record {
  bios_geo = geometry;
  phys_geo = geometry;
  capacity = num_sectors;
  adapter_type = 3;
  num_links = 1;
  parent_file_name_hint = "";
  uuid = "6000C293";
}

abbrev pub empty_params : CConnectParams
empty_params = record {
  spec_type = SpecType.unknown;
  vmx_spec = none;
  server_name = none;
  thumb_print = none;
  id = none;
  datastore_mo_ref = none;
  ss_id = none;
  cred_type = CredType.unknown;
  creds = Creds.unset;
}

abbrev range_code : (sector count : ℕ) → ℕ
range_code sector count = if leb (sector + count) num_sectors then 0 else vix_e_disk_outofrange

abbrev answer : (info_code : ℕ) → (c : Call) → (ℕ → Content) → Reply c × (ℕ → Content)
answer e (Call.init_ex _ _ _ _) f = (0, f)
answer e Call.exit f = (tt, f)
answer e Call.allocate_connect_params f = (empty_params, f)
answer e (Call.prepare_for_access _ _) f = (0, f)
answer e (Call.end_access _ _) f = (0, f)
answer e (Call.connect _) f = ((0, 7), f)
answer e (Call.connect_ex _ _ _ _) f = ((0, 7), f)
answer e (Call.disconnect _) f = (0, f)
answer e (Call.cleanup _ _ _) f = (0, f)
answer e (Call.open_disk _ _ _) f = ((0, 9), f)
answer e (Call.close _) f = (0, f)
answer e (Call.attach _ _) f = (1, f)
answer e (Call.check_repair _ _ _) f = (1, f)
answer e (Call.create _ _ _ _) f = (1, f)
answer e (Call.create_child _ _ _ _) f = (1, f)
answer e (Call.clone _ _ _ _ _ _ _) f = (1, f)
answer e (Call.grow _ _ _ _ _) f = (1, f)
answer e (Call.shrink _ _) f = (1, f)
answer e (Call.defragment _ _) f = (1, f)
answer e (Call.rename _ _) f = (1, f)
answer e (Call.unlink _ _) f = (1, f)
answer e (Call.space_needed_for_clone _ _ _) f = ((1, 0), f)
answer e Call.list_transport_modes f = ("nbd", f)
answer e (Call.get_transport_mode _) f = ("nbd", f)
answer e (Call.get_info _) f = ((e, info), f)
answer e (Call.read dli sector count buf) f =
    ((range_code sector count, bytes_at (f dli) (sector * sector_size) (length buf)), f)
answer e (Call.write dli sector count buf) f = (
  range_code sector count,
  if leb (sector + count) num_sectors
      then set_at f dli (patch (f dli) (sector * sector_size) buf)
      else f,
)
answer e (Call.get_metadata_keys _ _ _ _) f = (record { code = 0; buf = []; required = 0 }, f)
answer e (Call.read_metadata _ _ _ _ _) f = (record { code = 0; buf = []; required = 0 }, f)
answer e (Call.write_metadata _ _ _) f = (0, f)
answer e (Call.query_allocated_blocks _ start num _) f = (
  record {
    failed = ltb 5000 (start + num);
    code = 1;
    blocks =
        if ltb start 2048
        then record { offset = start; length = (if leb num 2048 then num else 2048) } ∷ []
        else [];
  },
  f,
)

abbrev pub small_world : (info_code : ℕ) → World
small_world e = record { State = ℕ → Content; answer = answer e }

abbrev pub disk_of : (dli : ℕ) → IsDisk (small_world 0) dli num_sectors
disk_of dli = record {
  content = λ f. f dli;
  read_keeps = λ f k n buf. refl;
  read_length = λ f k n buf. length-bytes_at (f dli) (k * sector_size) (length buf);
  read_fills = λ f k n buf e h ok. ap (bytes_at (f dli) (k * sector_size)) e;
  write_patches = λ f k n buf e h ok.
      rw (le→leb (k + n) num_sectors h) (set_at_self f dli (patch (f dli) (k * sector_size) buf));
}

pub disk_of-IsHealthy : (dli : ℕ) → IsHealthy (disk_of dli)
disk_of-IsHealthy dli = record {
  read_ok = λ f k n buf h. rw (le→leb (k + n) num_sectors h) refl;
  write_ok = λ f k n buf h. rw (le→leb (k + n) num_sectors h) refl;
}

pub disk_of-IsAtomic : (dli : ℕ) → IsAtomic (disk_of dli)
disk_of-IsAtomic dli = record {
  write_fails = λ f k n buf bad. elim (Bool-cases (leb (k + n) num_sectors)) [
    | inl e ↦ absurd (bad (rw e refl))
    | inr e ↦ rw e refl
  ];
}

abbrev pub disk : IsDisk (small_world 0) 9 num_sectors
disk = disk_of 9

pub disk-IsHealthy : IsHealthy disk
disk-IsHealthy = disk_of-IsHealthy 9

pub disk-IsAtomic : IsAtomic disk
disk-IsAtomic = disk_of-IsAtomic 9

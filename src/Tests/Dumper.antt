-- ===== src/Tests/Dumper.antt =====
-- The dumper's loops on the library of small disks.
use virtual_disks.Base.{
  ℕ, ◌*◌, ◌%◌, ◌≤◌, ◌≡◌, refl, Bool, false, Bool-cases, inl, inr, ltb, ltb→lt, none, some, [], ◌∷◌,
  List, ltb→le, if◌then◌else◌, arith,
}
use virtual_disks.Base.Bytes.{Content}
use virtual_disks.Base.Int.{pos}
use virtual_disks.Vddk.{Call}
use virtual_disks.Effects.{Machine, run, ◌>>=◌, Ensures}
use virtual_disks.Disklib.Types.{no_info}
use virtual_disks.Disk.Handle.{DiskConnectHandle}
use virtual_disks.Disk.Footprint.{IsReadOf, IsAccessOf}
use virtual_disks.Dumper.Types.{VadpDumper, DumpMode}
use virtual_disks.Dumper.Blocks.{query_allocated_blocks}
use virtual_disks.Dumper.Blocks.Coverage.{IsMap}
use virtual_disks.Dumper.Blocks.Report.{Reports, query_allocated_blocks-Reports}
use virtual_disks.Dumper.Access.{prepare_for_access, end_access}
use virtual_disks.Dumper.Access.Attempts.{
  ArePrepared, AreEnded, prepare_for_access-ArePrepared, end_access-AreEnded,
}
use virtual_disks.Dumper.Disks.{open_remote_disk, read_local_disk, create_local_disk, cleanup}
use virtual_disks.Dumper.Disks.Local.{IsIdle}
use virtual_disks.Dumper.Disks.Local.Cleanup.{read_local_disk-cleanup, create_local_disk-cleanup}
use virtual_disks.Disklib.Log.{logging, closes, disconnects}
use virtual_disks.Dumper.Disks.Release.{cleanup-releases}
use virtual_disks.Dumper.Disks.Balance.{IsOpening, open_remote_disk-IsOpening}
use virtual_disks.Disk.Opening.Counts.{Counts, counting}
use virtual_disks.Dumper.Copy.{transfer_size, dump_clone_disk}
use virtual_disks.Dumper.Copy.Pair.{ArePair, Holds}
use virtual_disks.Dumper.Copy.Pass.{between}
use virtual_disks.Dumper.Copy.Clone.{in_regions, areas_at, dump_clone_disk-clones}
use virtual_disks.Dumper.Copy.Stuck.{dump_clone_disk_stuck}
use virtual_disks.Tests.Device.{small_world, disk_of, disk_of-IsHealthy}
use virtual_disks.Tests.Disk.{handle, params}

abbrev target : DiskConnectHandle
target = record handle { mutex = 3; dli = 10 }

source_kept :
    (c : Call) (f : ℕ → Content) → IsAccessOf 10 c → ((small_world 0).answer c f).1 9 ≡ f 9
source_kept (Call.read d k n buf) f e = refl
source_kept (Call.write d k n buf) f e = ground (arith, e)
source_kept _ f e = absurd e

target_kept : (c : Call) (f : ℕ → Content) → IsReadOf 9 c → ((small_world 0).answer c f).1 10 ≡ f 10
target_kept (Call.read d k n buf) f e = refl
target_kept _ f e = absurd e

abbrev pair : ArePair (small_world 0) handle target
pair = record {
  source = disk_of 9;
  target = disk_of 10;
  reads_apart = target_kept;
  writes_apart = source_kept;
}

abbrev machine : Machine (small_world 0)
machine = record { held = λ m. false; cells = λ c. pos 0; lib = λ dli i. (dli * i) % 251 }

abbrev pub dumper : VadpDumper
dumper = record {
  vddk_params = record {
    identity = "job";
    conn_params = record {
      vm_mo_ref = "";
      vsphere_host_name = "";
      vsphere_host_port = pos 443;
      vsphere_username = "";
      vsphere_password = "";
      vsphere_thumb_print = "";
      vsphere_snapshot_mo_ref = "";
    };
    disk_params = record { disk_path = ""; disk_path_root = ""; change_id = "" };
  };
  dump_mode = DumpMode.dump_clone;
  remote_conn_params = some params;
  remote_connect = none;
  remote_handle = none;
  remote_disk_info = some (record no_info { capacity = 5000 });
  read_handle = some handle;
  write_handle = none;
  local_conn_params = none;
  local_connect = none;
  local_handle = none;
  change_info = none;
}

abbrev regions : List (ℕ × ℕ)
regions = (0, 512) ∷ (1024, 1024) ∷ []

holding : Holds handle target pair (machine.lib 9) (machine.lib 10) machine
holding = record { source_is = refl; target_is = refl; source_free = refl; target_free = refl }

one_transfer : (n : ℕ) → n ≤ 2048 * 512 → n ≤ 1 * transfer_size
unfolding transfer_size
one_transfer n h = h

dump_clone_disk-clones_example :
    Ensures
      (run
        (dump_clone_disk 1
          (between dumper handle target)
          (record { start_offset = pos 0; length = pos 2048; changed_area = areas_at regions }))
        machine)
      (λ r t.
        (r ≡ some none)
        × (t.lib 9 ≡ machine.lib 9)
        × ((x : ℕ)
            → t.lib 10 x ≡ (if in_regions 0 regions x then machine.lib 9 x else machine.lib 10 x)))
dump_clone_disk-clones_example =
    dump_clone_disk-clones dumper handle target pair (disk_of-IsHealthy 9) (disk_of-IsHealthy 10)
      (machine.lib 9) 1 0 2048 regions (machine.lib 10) machine holding
      (
        refl,
        refl,
        one_transfer 512 (omega arith),
        omega arith,
        omega arith,
        (refl, refl, one_transfer 1024 (omega arith), omega arith, omega arith, tt),
      )
      (omega arith) (omega arith)

dump_clone_disk_stuck_example :
    Ensures
      (run
        (dump_clone_disk 1000 (between dumper handle target) (record {
          start_offset = pos 0;
          length = pos 2048;
          changed_area = record { start = pos 512; length = pos 700 } ∷ [];
        }))
        machine)
      (λ r t. r ≡ none)
dump_clone_disk_stuck_example =
    dump_clone_disk_stuck dumper handle target pair (disk_of-IsHealthy 9) (disk_of-IsHealthy 10)
      (machine.lib 9) 1000 0 512 700 2048 [] (machine.lib 10) machine holding refl (omega arith)
      (omega arith) (omega arith) (omega arith) (omega arith)

abbrev first_only : (chunk : ℕ) → Bool
first_only chunk = ltb chunk 1

first_allocated : IsMap (small_world 0) 9 5000 1 first_only
first_allocated = record {
  blocks_within = λ s first chunks question ok. elim (Bool-cases (ltb first 2048)) [
    | inl low ↦ rw low (ground (arith, ltb→lt first 2048 low), tt)
    | inr high ↦ rw high tt
  ];
  blocks_exact = λ s first chunks question ok j. elim (Bool-cases (ltb first 2048)) [
    | inl low ↦ rw low (ground (arith, ltb→lt first 2048 low, question.1.0, question.1.1))
    | inr high ↦ rw high (ground (arith, ltb→le first 2048 high, question.1.0, question.1.1))
  ];
  fails_with_code = λ s first chunks bad. refl;
}

-- A disk of two megabytes and 904 sectors, of which the first megabyte is allocated, one chunk at a time.
query_allocated_blocks-Reports_example :
    Ensures (run (query_allocated_blocks 1 dumper) machine) (λ r t.
      Reports
        (small_world 0)
        dumper
        handle
        (record no_info { capacity = 5000 })
        1
        first_only
        first_allocated
        machine.lib
        r
        t.lib)
query_allocated_blocks-Reports_example =
    query_allocated_blocks-Reports (small_world 0) dumper handle
      (record no_info { capacity = 5000 }) 1 first_only first_allocated machine refl refl
      (omega arith) (omega arith)

abbrev nothing : Counts
nothing = record { accesses = 0; connections = 0; disks = 0 }

-- `GetInfo` fails in this world.
abbrev failing_machine : Machine (counting (small_world 1))
failing_machine = record { held = λ m. false; cells = λ c. pos 0; lib = (nothing, λ dli i. 0) }

open_remote_disk-IsOpening_example :
    Ensures (run (open_remote_disk 4 dumper) failing_machine) (λ r t. IsOpening nothing r t.lib.0)
open_remote_disk-IsOpening_example =
    open_remote_disk-IsOpening (small_world 1) 4 dumper nothing failing_machine refl

abbrev logged : Machine (logging (small_world 1))
logged = record { held = λ m. false; cells = λ c. pos 0; lib = ([], λ dli i. 0) }

prepare_for_access-ArePrepared_example :
    Ensures (run (prepare_for_access dumper) logged) (λ e t. ArePrepared 10 "id" [] e t.lib.0)
prepare_for_access-ArePrepared_example =
    prepare_for_access-ArePrepared (small_world 1) dumper params logged refl

end_access-AreEnded_example :
    Ensures (run (end_access dumper) logged) (λ e t. AreEnded 30 "id" [] e t.lib.0)
end_access-AreEnded_example = end_access-AreEnded (small_world 1) dumper params logged refl

-- A handle and a connection that are set.
abbrev in_use : VadpDumper
in_use = record dumper { remote_connect = some 7; remote_handle = some 9 }

cleanup-releases_example :
    Ensures (run (cleanup in_use) logged) (λ r t.
      (r ≡ (in_use, none)) × ((a b c e : ℕ) × (t.lib.0 ≡ disconnects 7 b ∷ closes 9 a ∷ [])))
cleanup-releases_example = cleanup-releases (small_world 1) in_use logged

abbrev local_job : VadpDumper
local_job = record dumper { local_conn_params = some params }

local_job-IsIdle : IsIdle nothing local_job failing_machine.lib.0
local_job-IsIdle = record {
  at = refl;
  no_local_connect = refl;
  no_local_handle = refl;
  no_remote_connect = refl;
  no_remote_handle = refl;
}

read_local_disk-cleanup_example :
    Ensures
      (run (read_local_disk 4 local_job >>= λ r. cleanup r.0) failing_machine)
      (λ r t. t.lib.0 ≡ nothing)
read_local_disk-cleanup_example =
    read_local_disk-cleanup (small_world 1) nothing 4 local_job failing_machine local_job-IsIdle

create_local_disk-cleanup_example :
    Ensures
      (run (create_local_disk 5 3 4 local_job "disk" 4096 >>= λ r. cleanup r.0) failing_machine)
      (λ r t. t.lib.0 ≡ nothing)
create_local_disk-cleanup_example =
    create_local_disk-cleanup (small_world 1) nothing 5 3 4 local_job "disk" 4096 failing_machine
      local_job-IsIdle

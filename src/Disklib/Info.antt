-- ===== src/Disklib/Info.antt =====
-- `createDiskInfo` of pkg/disklib/gvddk_api.go, which no function calls. The C strings are texts.
use virtual_disks.Base.{Option, none, some, List, [], ◌∷◌, String}
use virtual_disks.Vddk.{CGeometry, CInfo}
use virtual_disks.Effects.{Prog, ret, panic, ◌>>=◌}
use virtual_disks.Disklib.Types.{VixDiskLibGeometry, VixDiskLibInfo}

abbrev c_geometry : VixDiskLibGeometry → CGeometry
c_geometry g = record { cylinders = g.cylinders; heads = g.heads; sectors = g.sectors }

-- An assignment to a field behind a pointer, which is `none` where it is nil.
abbrev assign : Option CInfo → (CInfo → CInfo) → Prog (Option CInfo)
assign none f = panic
assign (some i) f = ret (some (f i))

abbrev c_params : Option CInfo → Prog (Option CInfo × List String)
c_params none = panic
c_params (some i) = ret (some i, i.parent_file_name_hint ∷ i.uuid ∷ [])

unfoldable pub create_disk_info : VixDiskLibInfo → Prog (Option CInfo × List String)
create_disk_info disk_info = do
  dli_info ← assign none (λ i. record i { bios_geo = c_geometry disk_info.bios_geo })
  dli_info ← assign dli_info (λ i. record i { phys_geo = c_geometry disk_info.phys_geo })
  dli_info ← assign dli_info (λ i. record i { capacity = disk_info.capacity })
  dli_info ← assign dli_info (λ i. record i { adapter_type = disk_info.adapter_type })
  dli_info ← assign dli_info (λ i. record i { num_links = disk_info.num_links })
  dli_info ←
      assign dli_info (λ i. record i { parent_file_name_hint = disk_info.parent_file_name_hint })
  dli_info ← assign dli_info (λ i. record i { uuid = disk_info.uuid })
  c_params dli_info

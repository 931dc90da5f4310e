-- ===== src/Tests/Info.antt =====
-- The pointer that `createDiskInfo` writes through is nil.
use virtual_disks.Base.{◌≡◌, refl}
use virtual_disks.Effects.{panic}
use virtual_disks.Disklib.Types.{no_info}
use virtual_disks.Disklib.Info.{create_disk_info}

create_disk_info_panics : create_disk_info no_info ≡ panic
unfolding create_disk_info
create_disk_info_panics = refl

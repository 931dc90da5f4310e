-- ===== src/Tests/Opening.antt =====
-- `Open` on the small disk.
use virtual_disks.Base.{refl, false, []}
use virtual_disks.Base.Int.{pos}
use virtual_disks.Disklib.Log.{logging}
use virtual_disks.Effects.{Machine, run, Ensures}
use virtual_disks.Disk.Opening.{Fresh, open_stream}
use virtual_disks.Disk.Opening.Counts.{Counts, counting}
use virtual_disks.Disk.Opening.Balance.{IsBalanced, open_stream-IsBalanced}
use virtual_disks.Disk.Opening.Closing.{open_and_close, IsOver, open_and_close-IsOver}
use virtual_disks.Tests.Device.{small_world}
use virtual_disks.Tests.Disk.{params}

abbrev fresh : Fresh
fresh = record { handle_mutex = 1; offset = 5; mutex = 2 }

abbrev nothing : Counts
nothing = record { accesses = 0; connections = 0; disks = 0 }

-- `GetInfo` fails in this world.
abbrev machine : Machine (counting (small_world 1))
machine = record { held = λ m. false; cells = λ c. pos 0; lib = (nothing, λ dli i. 0) }

open_stream-IsBalanced_example :
    Ensures (run (open_stream fresh params) machine) (λ r t. IsBalanced nothing r t.lib.0)
open_stream-IsBalanced_example =
    open_stream-IsBalanced (small_world 1) fresh params nothing machine refl

-- `GetInfo` succeeds in this one.
abbrev working : Machine (logging (small_world 0))
working = record { held = λ m. false; cells = λ c. pos 0; lib = ([], λ dli i. 0) }

open_and_close-IsOver_example :
    Ensures (run (open_and_close fresh params) working) (λ r t. IsOver params.identity [] r t.lib.0)
open_and_close-IsOver_example = open_and_close-IsOver (small_world 0) fresh params working

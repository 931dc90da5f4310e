-- ===== src/Tests/ReadAll.antt =====
-- A stream that is read to its end, with a buffer that is no whole number of sectors.
use virtual_disks.Base.{List, arith, replicate}
use virtual_disks.Base.Bytes.{Byte}
use virtual_disks.Effects.{run, Ensures}
use virtual_disks.Disk.Stream.ReadAll.{read_all, IsAllRead, read_all-IsAllRead}
use virtual_disks.Tests.Device.{disk, disk-IsHealthy}
use virtual_disks.Tests.Disk.{machine, stream, stream-IsAt}

abbrev pub buffer : List Byte
buffer = replicate 700 0

read_all-IsAllRead_example :
    Ensures (run (read_all stream 2000 buffer) machine) (IsAllRead stream disk machine 100)
read_all-IsAllRead_example =
    read_all-IsAllRead stream disk disk-IsHealthy (omega arith) 2000 machine buffer 100 stream-IsAt
      (omega arith) (omega arith) (omega arith) (omega arith)

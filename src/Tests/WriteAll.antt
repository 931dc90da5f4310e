-- ===== src/Tests/WriteAll.antt =====
-- Three pieces that are written to a stream and read back with what lies behind them.
use virtual_disks.Base.{◌+◌, ◌-◌, ◌≡◌, none, some, List, [], ◌∷◌, ◌++◌, arith, length}
use virtual_disks.Base.Bytes.{Byte, bytes_at, patch}
use virtual_disks.Base.Int.{pos}
use virtual_disks.Effects.{run, Ensures}
use virtual_disks.Disk.Handle.{eof}
use virtual_disks.Disk.Stream.WriteAll.{concat, write_and_read_back, write_and_read_back-returns}
use virtual_disks.Tests.Device.{disk, disk-IsHealthy}
use virtual_disks.Tests.Disk.{machine, stream, four, stream-IsAt}
use virtual_disks.Tests.ReadAll.{buffer}

abbrev parts : List (List Byte)
parts = four ∷ (9 ∷ []) ∷ four ∷ []

write_and_read_back-returns_example :
    Ensures (run (write_and_read_back stream 100 parts 2000 buffer) machine) (λ (w, z, got, err) t.
      (w ≡ (9, none))
      × (z ≡ (pos 100, none))
      × (got
          ≡ concat parts
            ++ bytes_at
                (machine.lib 9)
                (100 + length (concat parts))
                (2048 - (100 + length (concat parts))))
      × (err ≡ some eof)
      × (t.lib 9 ≡ patch (machine.lib 9) 100 (concat parts)))
write_and_read_back-returns_example =
    write_and_read_back-returns stream disk disk-IsHealthy (omega arith) machine 100 parts 2000
      buffer stream-IsAt (omega arith) (omega arith) (omega arith) (omega arith)

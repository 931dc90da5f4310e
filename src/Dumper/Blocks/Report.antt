-- ===== src/Dumper/Blocks/Report.antt =====
-- What `QueryAllocatedBlocks` leaves in the dumper.
use virtual_disks.Base.{
  ℕ, ◌*◌, ◌/◌, ◌<◌, ◌^◌, ◌≡◌, refl, ◌∙◌, Bool, ◌&&◌, Option, none, some, List, [], arith, ltb,
}
use virtual_disks.Vddk.{World}
use virtual_disks.Effects.{ret, ◌>>=◌, or_panic, Machine, run, Ensures, Ensures-bind}
use virtual_disks.Disklib.Types.{VixDiskLibInfo, sector_size}
use virtual_disks.Disk.Handle.{DiskConnectHandle}
use virtual_disks.Dumper.Types.{VadpDumper, ChangedArea}
use virtual_disks.Dumper.Disks.{Dumped}
use virtual_disks.Dumper.Blocks.{
  block_size, Queried, finished, failed, out_of_fuel, query_loop, keep_areas, keep_queried,
  query_allocated_blocks,
}
use virtual_disks.Dumper.Blocks.Coverage.{in_areas, IsMap, IsFailure, not_yet}
use virtual_disks.Dumper.Blocks.Loop.{Found, query_loop-Found}

-- The areas that a dumper has stored.
abbrev pub stored_areas : VadpDumper → List ChangedArea
stored_areas d = elim (d.change_info) [ none ↦ [] | some i ↦ i.changed_area ]

module _ (W : World) (d : VadpDumper) (h : DiskConnectHandle) (info : VixDiskLibInfo)
    (max_chunk_num : ℕ) (allocated : ℕ → Bool)
    (M : IsMap W h.dli info.capacity max_chunk_num allocated) where
  -- The loop has ended; with the bytes of the allocated chunks, or with the error of a question of it
  -- that failed.
  abbrev pub Reports : W.State → Option Dumped → W.State → Type 0
  Reports start none final = ⊥
  Reports start (some (d', none)) final =
      (x : ℕ)
      → in_areas (stored_areas d') x ≡ (
          ltb (x / sector_size) (info.capacity / block_size * block_size)
          && allocated (x / sector_size / block_size))
  Reports start (some (d', some e)) final =
      IsFailure W h.dli info.capacity max_chunk_num start e final

  kept-Reports :
      (start final : W.State) (q : Queried)
      → Found W h info.capacity max_chunk_num allocated M start
          (info.capacity / block_size)
          0
          []
          q
          final
      → Reports start (keep_queried d h q) final
  unfolding keep_queried keep_areas
  kept-Reports start final (finished out) found = λ x. found x ∙ ground arith
  kept-Reports start final (failed out e) found = found
  kept-Reports start final out_of_fuel found = found

  with_handle :
      (s : Machine W) (o : Option DiskConnectHandle) (i : Option VixDiskLibInfo)
      → o ≡ some h
      → i ≡ some info
      → 0 < max_chunk_num
      → info.capacity * sector_size < 2 ^ 63
      → Ensures
          (run
            (do
              h' ← or_panic o
              info' ← or_panic i
              q ←
                  query_loop max_chunk_num h'
                    (info'.capacity / block_size)
                    (info'.capacity / block_size)
                    0
                    []
              ret (keep_queried d h' q))
            s)
          (λ r t. Reports s.lib r t.lib)
  unfolding run
  with_handle s o i has_handle has_info some_chunks small =
      rw (has_handle, has_info)
        (Ensures-bind
          (query_loop max_chunk_num h (info.capacity / block_size) (info.capacity / block_size) 0
            [])
          _ s
          (λ q t.
            Found W h info.capacity max_chunk_num allocated M s.lib (info.capacity / block_size) 0
              [] q t.lib)
          (λ r t. Reports s.lib r t.lib)
          (query_loop-Found W h info.capacity max_chunk_num allocated M s.lib s _ _ 0 [] not_yet
            some_chunks small (0, refl) (omega arith) (omega arith))
          (λ q t found. kept-Reports s.lib t.lib q found))

  -- With a handle and a disk info, of a disk of fewer than 2^63 bytes, the loop of
  -- `QueryAllocatedBlocks` ends with the fuel that it is given. If it gives an error, it has asked the
  -- library about the chunks from the disk's start on and was answered, until a question failed; that
  -- was the last, and the error carries its code. Else a byte lies in a stored area exactly if it lies
  -- in an allocated chunk of the whole ones of the disk. A chunk is the megabyte that the library is
  -- asked in.
  pub query_allocated_blocks-Reports :
      (s : Machine W)
      → d.read_handle ≡ some h
      → d.remote_disk_info ≡ some info
      → 0 < max_chunk_num
      → info.capacity * sector_size < 2 ^ 63
      → Ensures (run (query_allocated_blocks max_chunk_num d) s) (λ r t. Reports s.lib r t.lib)
  unfolding query_allocated_blocks
  query_allocated_blocks-Reports s has_handle has_info some_chunks small =
      with_handle s d.read_handle d.remote_disk_info has_handle has_info some_chunks small

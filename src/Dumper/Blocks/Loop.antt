-- ===== src/Dumper/Blocks/Loop.antt =====
-- The loop of `QueryAllocatedBlocks`: what each pass adds to the areas, and that it ends.
use virtual_disks.Base.{
  ℕ, zero, suc, ◌+◌, ◌-◌, ◌*◌, ◌/◌, ◌≤◌, ◌<◌, ◌^◌, ◌≡◌, refl, sym, subst, ◌∙◌, Bool, true, false,
  ◌&&◌, ◌||◌, Option, none, some, List, ◌++◌, arith, ltb, leb, if◌then◌else◌, Bool-cases, inl, inr,
  ltb→lt, ltb→le, le→ltb,
}
use virtual_disks.Vddk.{World, VixDiskLibBlock}
use virtual_disks.Effects.{ret, Machine, run, Ensures, Ensures-bind, Ensures-weaken}
use virtual_disks.Disklib.Types.{VddkError, sector_size, vix_error_code}
use virtual_disks.Disklib.Io
use virtual_disks.Disk.Handle.{DiskConnectHandle, unless_error}
use virtual_disks.Disk.Methods
use virtual_disks.Dumper.Types.{ChangedArea, around_vix}
use virtual_disks.Dumper.Blocks.{
  block_size, areas_of, Queried, finished, failed, out_of_fuel, query_loop,
}
use virtual_disks.Dumper.Blocks.Coverage.{
  in_blocks, in_areas, Within, IsMap, IsMultiple, IsQuestion, IsFailure, Asked, and_then, answer_to,
  in_areas-append, in_areas-areas_of,
}

module _ (W : World) (h : DiskConnectHandle) (sectors max_chunk_num : ℕ) (allocated : ℕ → Bool)
    (M : IsMap W h.dli sectors max_chunk_num allocated) where
  abbrev pub Answered :
      (first chunks : ℕ) → W.State → List VixDiskLibBlock × Option VddkError → W.State → Type 0
  Answered first chunks s (blocks, none) t =
      Within sectors blocks
      × ((j : ℕ)
          → in_blocks blocks j
            ≡ (leb first j && ltb j (first + chunks * block_size) && allocated (j / block_size)))
      × ((answer_to W h.dli first chunks s).0.failed ≡ false)
      × (t ≡ (answer_to W h.dli first chunks s).1)
  Answered first chunks s (blocks, some e) t =
      ((answer_to W h.dli first chunks s).0.failed ≡ true)
      × (vix_error_code e ≡ (answer_to W h.dli first chunks s).0.code)
      × (t ≡ (answer_to W h.dli first chunks s).1)

  query-Answered :
      (s : Machine W) (first chunks : ℕ)
      → IsQuestion sectors max_chunk_num first chunks
      → Ensures
          (run (Methods.query_allocated_blocks h first (chunks * block_size) block_size) s)
          (λ r t. Answered first chunks s.lib r t.lib)
  unfolding run Methods.query_allocated_blocks Io.query_allocated_blocks
  query-Answered s first chunks question =
      elim (Bool-cases (answer_to W h.dli first chunks s.lib).0.failed) [
        | inl bad ↦ rw (bad, M.fails_with_code s.lib first chunks bad) (bad, refl, refl)
        | inr good ↦ rw good (
          M.blocks_within s.lib first chunks question good,
          M.blocks_exact s.lib first chunks question good,
          good,
          refl,
        )
      ]

  -- What the loop adds to the areas that it starts with.
  abbrev pub Found :
      W.State → (block_count offset : ℕ) → List ChangedArea → Queried → W.State → Type 0
  Found start count offset areas (finished out) final =
      (x : ℕ)
      → in_areas out x ≡ (
          in_areas areas x
          || (leb offset (x / sector_size)
              && ltb (x / sector_size) (offset + count * block_size)
              && allocated (x / sector_size / block_size)))
  Found start count offset areas (failed out e) final =
      IsFailure W h.dli sectors max_chunk_num start e final
  Found start count offset areas out_of_fuel final = ⊥

  nothing_left :
      (start final : W.State) (offset count : ℕ) (areas : List ChangedArea)
      → count ≡ 0
      → Found start count offset areas (finished areas) final
  nothing_left start final offset count areas e x =
      no_sector (in_areas areas x) (allocated (x / sector_size / block_size))
    where
      no_sector :
          (a c : Bool)
          → a ≡ (
              a
              || (leb offset (x / sector_size)
                  && ltb (x / sector_size) (offset + count * block_size)
                  && c))
      no_sector a c = ground arith

  -- One run of chunks, and then the rest.
  and_the_rest :
      (start s t final : W.State) (count once offset : ℕ) (areas : List ChangedArea)
      (blocks : List VixDiskLibBlock) (r : Queried)
      → once ≤ count
      → sectors * sector_size < 2 ^ 63
      → Answered offset once s (blocks, none) t
      → Found start (count - once) (offset + once * block_size) (areas ++ areas_of blocks) r final
      → Found start count offset areas r final
  and_the_rest start s t final count once offset areas blocks (finished out) le small answer rest =
      λ x.
        rest x
        ∙ rw
            (
              in_areas-append,
              in_areas-areas_of blocks sectors x answer.0 small,
              answer.1 (x / sector_size),
            )
            (two_runs (in_areas areas x) (allocated (x / sector_size / block_size))
              (x / sector_size))
    where
      two_runs :
          (a c : Bool) (j : ℕ)
          → ((a || (leb offset j && ltb j (offset + once * block_size) && c))
              || (leb (offset + once * block_size) j
                  && ltb j (offset + once * block_size + (count - once) * block_size)
                  && c))
            ≡ (a || (leb offset j && ltb j (offset + count * block_size) && c))
      two_runs a c j = ground arith
  and_the_rest start s t final count once offset areas blocks (failed out e) le small answer rest =
      rest
  and_the_rest start s t final count once offset areas blocks out_of_fuel le small answer rest =
      rest

  once_bounds :
      (count : ℕ)
      → 0 < max_chunk_num
      → 0 < count
      → let once = if ltb max_chunk_num count then max_chunk_num else count in
        (once ≤ max_chunk_num) × (once ≤ count) × (0 < once)
  once_bounds count some_chunks some_blocks = ground arith

  pub query_loop-Found :
      (start : W.State) (s : Machine W) (fuel count offset : ℕ) (areas : List ChangedArea)
      → Asked W h.dli start offset s.lib
      → 0 < max_chunk_num
      → sectors * sector_size < 2 ^ 63
      → IsMultiple offset block_size
      → count ≤ fuel
      → offset + count * block_size ≤ sectors
      → Ensures
          (run (query_loop max_chunk_num h fuel count offset areas) s)
          (λ r t. Found start count offset areas r t.lib)
  unfolding run query_loop
  query_loop-Found start s zero count offset areas asked some_chunks small at_chunk enough fits =
      rw (le→ltb 0 count enough) (nothing_left start s.lib offset count areas (omega arith))
  query_loop-Found start s (suc fuel) count offset areas asked some_chunks small at_chunk enough
        fits =
      elim (Bool-cases (ltb 0 count)) [
        | inl more ↦
            let once = if ltb max_chunk_num count then max_chunk_num else count in
            let bounds = once_bounds count some_chunks (ltb→lt 0 count more) in
            rw more (
              Ensures-bind (Methods.query_allocated_blocks h offset (once * block_size) block_size)
                _ s (λ r t. Answered offset once s.lib r t.lib)
                (λ r t. Found start count offset areas r t.lib)
                (query-Answered s offset once (bounds.0, at_chunk, omega (arith, bounds)))
                (λ r t answer.
                  next once r.0 r.1 t (bounds.0, at_chunk, omega (arith, bounds)) bounds.1 bounds.2
                    answer
                    (λ more_areas u asked.
                      query_loop-Found start u fuel (count - once) (offset + once * block_size)
                        more_areas asked some_chunks small
                        (at_chunk.0 + once, omega (arith, at_chunk.1)) (omega (arith, bounds))
                        (omega (arith, bounds)))))
        | inr no_more ↦
            rw no_more
              (nothing_left start s.lib offset count areas (omega (arith, ltb→le 0 count no_more)))
      ]
    where
      next :
          (once : ℕ) (blocks : List VixDiskLibBlock) (err : Option VddkError) (t : Machine W)
          → IsQuestion sectors max_chunk_num offset once
          → once ≤ count
          → 0 < once
          → Answered offset once s.lib (blocks, err) t.lib
          → ((more_areas : List ChangedArea) (u : Machine W)
              → Asked W h.dli start (offset + once * block_size) u.lib
              → Ensures
                  (run
                    (query_loop max_chunk_num h fuel
                      (count - once)
                      (offset + once * block_size)
                      more_areas)
                    u)
                  (λ r v.
                    Found start (count - once) (offset + once * block_size) more_areas r v.lib))
          → Ensures
              (run
                (unless_error err
                  (λ e. ret (failed areas (around_vix "QueryAllocatedBlocks: %v" (some e))))
                  (query_loop max_chunk_num h fuel
                    (count - once)
                    (offset + once * block_size)
                    (areas ++ areas_of blocks)))
                t)
              (λ r u. Found start count offset areas r u.lib)
      next once blocks none t question le pos_once answer rest =
          Ensures-weaken
            (run
              (query_loop max_chunk_num h fuel (count - once) (offset + once * block_size)
                (areas ++ areas_of blocks))
              t)
            (λ r u.
              Found start (count - once) (offset + once * block_size) (areas ++ areas_of blocks) r
                u.lib)
            _
            (λ r u.
              and_the_rest start s.lib t.lib u.lib count once offset areas blocks r le small answer)
            (rest (areas ++ areas_of blocks) t (
              subst (Asked W h.dli start (offset + once * block_size)) (sym answer.3)
                (and_then once asked answer.2)))
      next once blocks (some e) t question le pos_once answer rest = record {
        state = s.lib;
        first = offset;
        chunks = once;
        asked = asked;
        question = question;
        fails = answer.0;
        error = e;
        error_is = refl;
        code_is = answer.1;
        final_is = answer.2;
      }

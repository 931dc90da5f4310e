-- ===== src/Dumper/Blocks/Coverage.antt =====
-- Which bytes `QueryAllocatedBlocks` of a dumper finds.
use virtual_disks.Base.{
  ℕ, ◌+◌, ◌*◌, ◌/◌, ◌≤◌, ◌<◌, ◌^◌, ◌≡◌, refl, Bool, true, false, some, ◌&&◌, ◌||◌, List, [], ◌∷◌,
  ◌++◌, arith, ltb, leb, ◌==◌,
}
use mathlib.Core.Path.{ap₂}
use virtual_disks.Base.Int.{pos, ◌+ℤ◌, leb_ℤ, ltb_ℤ}
use virtual_disks.Base.Word.{int64-pos, +ℤ_pos}
use virtual_disks.Vddk.{Call, Reply, World, VixDiskLibBlock}
use virtual_disks.Disklib.Types.{VddkError, sector_size, vix_ok, vix_error_code}
use virtual_disks.Dumper.Types.{ChangedArea, DumpError, around_vix}
use virtual_disks.Dumper.Blocks.{block_size, area_of, areas_of}

-- The sector lies in one of the blocks.
abbrev pub in_blocks : List VixDiskLibBlock → ℕ → Bool
in_blocks [] j = false
in_blocks (b ∷ bs) j = (leb b.offset j && ltb j (b.offset + b.length)) || in_blocks bs j

-- The byte lies in one of the areas.
abbrev pub in_areas : List ChangedArea → ℕ → Bool
in_areas [] x = false
in_areas (a ∷ rest) x =
    (leb_ℤ a.start (pos x) && ltb_ℤ (pos x) (a.start +ℤ a.length)) || in_areas rest x

abbrev pub Within : (sectors : ℕ) → List VixDiskLibBlock → Type 0
Within sectors [] = Unit
Within sectors (b ∷ bs) = (b.offset + b.length ≤ sectors) × Within sectors bs

abbrev pub IsMultiple : (k chunk : ℕ) → Type 0
IsMultiple k chunk = (q : ℕ) × (k ≡ q * chunk)

-- The library's answer to a question about so many chunks of `block_size` sectors, from sector `first` on.
abbrev pub answer_to :
    (W : World) (dli first chunks : ℕ)
    → W.State
    → Reply (Call.query_allocated_blocks dli first (chunks * block_size) block_size) × W.State
answer_to W dli first chunks s =
    W.answer (Call.query_allocated_blocks dli first (chunks * block_size) block_size) s

-- A question about whole chunks within the disk, from the start of one, not more than the largest number.
abbrev pub IsQuestion : (sectors max_chunk_num first chunks : ℕ) → Type 0
IsQuestion sectors max_chunk_num first chunks =
    (chunks ≤ max_chunk_num) × IsMultiple first block_size × (first + chunks * block_size ≤ sectors)

-- What is relied on of the library's answer to such a question: it lists the sectors of the allocated
-- chunks among those asked about, and no others. `allocated` is about chunks: one of which a part only
-- is allocated is listed as a whole.
pub record IsMap (W : World) (dli sectors max_chunk_num : ℕ) (allocated : ℕ → Bool) : Type 0 where
  pub blocks_within :
      (s : W.State) (first chunks : ℕ)
      → IsQuestion sectors max_chunk_num first chunks
      → (answer_to W dli first chunks s).0.failed ≡ false
      → Within sectors (answer_to W dli first chunks s).0.blocks
  pub blocks_exact :
      (s : W.State) (first chunks : ℕ)
      → IsQuestion sectors max_chunk_num first chunks
      → (answer_to W dli first chunks s).0.failed ≡ false
      → (j : ℕ)
      → in_blocks (answer_to W dli first chunks s).0.blocks j
        ≡ (leb first j && ltb j (first + chunks * block_size) && allocated (j / block_size))
  pub fails_with_code :
      (s : W.State) (first chunks : ℕ)
      → (answer_to W dli first chunks s).0.failed ≡ true
      → ((answer_to W dli first chunks s).0.code == vix_ok) ≡ false

-- The library has been asked about all chunks before `first`, in runs from the disk's start on, has
-- answered each time, and is in this state.
pub data Asked (W : World) (dli : ℕ) (start : W.State) : (first : ℕ) → W.State → Type 0 where
  not_yet : Asked W dli start 0 start
  and_then :
      {first : ℕ} {s : W.State} (chunks : ℕ)
      → Asked W dli start first s
      → (answer_to W dli first chunks s).0.failed ≡ false
      → Asked W dli start (first + chunks * block_size) (answer_to W dli first chunks s).1

-- The question after these has failed; the error carries its code, and it was the last.
pub record IsFailure (W : World) (dli sectors max_chunk_num : ℕ) (start : W.State) (e : DumpError)
    (final : W.State) : Type 0 where
  pub state : W.State
  pub first : ℕ
  pub chunks : ℕ
  pub asked : Asked W dli start first state
  pub question : IsQuestion sectors max_chunk_num first chunks
  pub fails : (answer_to W dli first chunks state).0.failed ≡ true
  pub error : VddkError
  pub error_is : e ≡ around_vix "QueryAllocatedBlocks: %v" (some error)
  pub code_is : vix_error_code error ≡ (answer_to W dli first chunks state).0.code
  pub final_is : final ≡ (answer_to W dli first chunks state).1

pub in_areas-append :
    (xs bs : List ChangedArea) (x : ℕ) → in_areas (xs ++ bs) x ≡ (in_areas xs x || in_areas bs x)
in_areas-append [] bs x = refl
in_areas-append (a ∷ rest) bs x = ground (arith, in_areas-append rest bs x)

area_lem :
    (b : VixDiskLibBlock) (sectors x : ℕ)
    → b.offset + b.length ≤ sectors
    → sectors * sector_size < 2 ^ 63
    → (leb_ℤ (area_of b).start (pos x) && ltb_ℤ (pos x) ((area_of b).start +ℤ (area_of b).length))
      ≡ (leb b.offset (x / sector_size) && ltb (x / sector_size) (b.offset + b.length))
unfolding area_of
area_lem b sectors x h small =
    rw
      (
        int64-pos b.offset (omega arith),
        int64-pos b.length (omega arith),
        int64-pos (b.offset * sector_size) (omega arith),
        int64-pos (b.length * sector_size) (omega arith),
        +ℤ_pos (b.offset * sector_size) (b.length * sector_size),
      )
      (ground arith)

pub in_areas-areas_of :
    (bs : List VixDiskLibBlock) (sectors x : ℕ)
    → Within sectors bs
    → sectors * sector_size < 2 ^ 63
    → in_areas (areas_of bs) x ≡ in_blocks bs (x / sector_size)
in_areas-areas_of [] sectors x h small = refl
in_areas-areas_of (b ∷ bs) sectors x h small =
    ap₂ (◌||◌) (area_lem b sectors x h.0 small) (in_areas-areas_of bs sectors x h.1 small)

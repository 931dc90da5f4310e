-- ===== src/Disk/Stream/Concurrent.antt =====
-- Goroutines that share one `DiskReaderWriter`.
use virtual_disks.Base.{
  ℕ, ◌+◌, ◌≤◌, ◌<◌, ◌^◌, ◌≡◌, ◌≢◌, refl, sym, ap, ◌∙◌, ◌⊎◌, inl, inr, subst, false, List, [], ◌∷◌,
  ◌++◌, arith, length, length-append, take, leb, Bool-cases, leb→le, leb→lt, length-take,
}
use virtual_disks.Base.Bytes.{Byte, bytes_at, bytes_at-add}
use virtual_disks.Base.Int.{pos}
use virtual_disks.Vddk.{World}
use virtual_disks.Effects.{Machine, run, Ensures, Ensures-bind, Ensures-weaken}
use virtual_disks.Threads.{System, Reach}
use virtual_disks.Threads.Serial.{Serially, nobody, after, left}
use virtual_disks.Threads.Serial.Reached.{Reach-Serially}
use virtual_disks.Device.{IsDisk}
use virtual_disks.Disk.Handle.{size}
use virtual_disks.Disk.ReadAt.{ReadResult, read_at}
use virtual_disks.Disk.ReadAt.Correct.{IsReadAt, CutFits, read_at-reads}
use virtual_disks.Disk.Bounds.{read_at_past_end}
use virtual_disks.Disk.Stream.{DiskReaderWriter, read}
use virtual_disks.Disk.Stream.Sequential.{IsAt, IsStreamRead, read_by}
use virtual_disks.Disk.Stream.Calls.{
  Op, reads, Answer, was_read, was_written, was_sought, run_op, run_op-IsSection,
}

-- `calls i` is the call of goroutine `i`.
abbrev pub sharing : {W : World} → DiskReaderWriter → (ℕ → Op) → Machine W → System W Answer
sharing d calls s = record { machine = s; threads = λ i. run_op d (calls i) }

-- Any calls of `Read`, `Write` and `Seek` by any number of goroutines that share a stream, interleaved
-- in any way: whenever nobody holds the stream's mutex, which is free at the start and is not the
-- handle's, the machine is as after some of the calls, run alone one after another, and their
-- goroutines have ended with the answers of those runs; no other has started.
pub stream_calls-Serially :
    {W : World} (d : DiskReaderWriter) (calls : ℕ → Op) (s₀ : Machine W) {s : System W Answer}
    → d.disk_handle.mutex ≢ d.mutex
    → s₀.held d.mutex ≡ false
    → Reach (sharing d calls s₀) s
    → s.machine.held d.mutex ≡ false
    → (runs : List (ℕ × Answer)) × Serially (λ i. run_op d (calls i)) s₀ runs s.machine
      × ((i : ℕ) → s.threads i ≡ left (λ j. run_op d (calls j)) s₀ runs i)
stream_calls-Serially d calls s₀ apart free r free_now =
    Reach-Serially (λ i. run_op d (calls i)) s₀ d.mutex (λ i. run_op-IsSection d apart (calls i))
      free r free_now

-- The bytes that the reads have reported, in the order of the runs.
abbrev pub pieces : List (ℕ × Answer) → List Byte
pieces [] = []
pieces ((i, was_read r) ∷ runs) = pieces runs ++ take r.1 r.0
pieces ((i, was_written r) ∷ runs) = pieces runs
pieces ((i, was_sought r) ∷ runs) = pieces runs

module _ {W : World} (d : DiskReaderWriter)
    (D : IsDisk W d.disk_handle.dli d.disk_handle.info.capacity) where
  pub cut_fits : (o len : ℕ) → len ≤ 2 ^ 31 → CutFits d.disk_handle o len
  cut_fits o len short = elim (Bool-cases (leb (o + len) (size d.disk_handle))) [
    | inl within ↦ inl (leb→le _ _ within)
    | inr past ↦ inr (omega (arith, leb→lt (o + len) (size d.disk_handle) past))
  ]

  -- A read of at most 2 GiB, within the disk or behind its end.
  read_anywhere :
      (s : Machine W) (p : List Byte) (o : ℕ)
      → IsAt d D o s
      → length p ≤ 2 ^ 31
      → size d.disk_handle + 2 ^ 32 < 2 ^ 63
      → o ≤ size d.disk_handle + 2 ^ 31
      → Ensures
          (run (read d p) s)
          (λ r t. IsStreamRead d D s p o r t × (o + r.1 ≤ size d.disk_handle + 2 ^ 31))
  read_anywhere s p o at short small near =
      Ensures-weaken (run (read d p) s)
        (λ r t. IsStreamRead d D s p o r t × ((o < size d.disk_handle) ⊎ (r.1 ≡ 0))) _
        (λ r t post. (post.0, bounded r.1 post.0.count_le post.1))
        (read_by d D s p o at (λ r. (o < size d.disk_handle) ⊎ (r.1 ≡ 0)) (omega arith)
          (λ held free. elim (Bool-cases (leb (size d.disk_handle) o)) [
            | inl past ↦
                rw
                  (read_at_past_end d.disk_handle (record s { held = held }) p o (omega arith)
                    (leb→le _ _ past))
                  (
                    record {
                      same = record { held = refl; cells = refl; kept = refl };
                      same_length = refl;
                      valid = refl;
                      complete = λ e. cc;
                    },
                    inr refl,
                  )
            | inr inside ↦
                let before_end = leb→lt (size d.disk_handle) o inside in
                Ensures-weaken (run (read_at d.disk_handle p (pos o)) (record s { held = held }))
                  (IsReadAt d.disk_handle D (record s { held = held }) p o) _
                  (λ r t post. (post, inl before_end))
                  (read_at-reads d.disk_handle D (record s { held = held }) p o before_end
                    (omega arith) (omega arith) (cut_fits o (length p) short) free)
          ]))
    where
      bounded :
          (n : ℕ)
          → n ≤ length p
          → (o < size d.disk_handle) ⊎ (n ≡ 0)
          → o + n ≤ size d.disk_handle + 2 ^ 31
      bounded n le (inl inside) = omega arith
      bounded n le (inr none_read) = omega arith

  module _ (bufs : ℕ → List Byte) (s₀ : Machine W) (o : ℕ) where
    abbrev pub reading : ℕ → Op
    reading i = reads (bufs i)

    -- After these runs: the pieces are the disk from `o` on, and the stream stands behind them.
    pub record IsStanding (runs : List (ℕ × Answer)) (t : Machine W) : Type 0 where
      pub at : IsAt d D (o + length (pieces runs)) t
      pub kept : D.content t.lib ≡ D.content s₀.lib
      pub got : pieces runs ≡ bytes_at (D.content s₀.lib) o (length (pieces runs))

    unfoldable pub Standing : List (ℕ × Answer) → Machine W → Type 0
    Standing runs t = IsStanding runs t × (o + length (pieces runs) ≤ size d.disk_handle + 2 ^ 31)

    one_more :
        (runs : List (ℕ × Answer)) (i : ℕ) (s t : Machine W) (r : ReadResult)
        → Standing runs s
        → IsStreamRead d D s (bufs i) (o + length (pieces runs)) r t
          × (o + length (pieces runs) + r.1 ≤ size d.disk_handle + 2 ^ 31)
        → Standing ((i, was_read r) ∷ runs) t
    unfolding Standing
    one_more runs i s t r (standing, near) (h, near') = (
      record {
        at = subst (λ n. IsAt d D n t) (omega (arith, more)) h.at;
        kept = h.kept ∙ standing.kept;
        got = got;
      },
      omega (arith, more, near'),
    )
      where
        more : length (pieces runs ++ take r.1 r.0) ≡ length (pieces runs) + r.1
        more = omega (
          arith,
          length-append {0} (pieces runs) (take r.1 r.0),
          length-take {0} r.1 r.0,
          h.same_length,
          h.count_le,
        )

        got :
            pieces runs ++ take r.1 r.0
            ≡ bytes_at (D.content s₀.lib) o (length (pieces runs ++ take r.1 r.0))
        got =
            ap (◌++◌ (pieces runs))
              (h.valid ∙ ap (λ f. bytes_at f (o + length (pieces runs)) r.1) standing.kept)
            ∙ ap (λ b. b ++ bytes_at (D.content s₀.lib) (o + length (pieces runs)) r.1) standing.got
            ∙ sym (bytes_at-add (D.content s₀.lib) o (length (pieces runs)) r.1)
            ∙ ap (bytes_at (D.content s₀.lib) o) (sym more)

    module _ (short : (i : ℕ) → length (bufs i) ≤ 2 ^ 31)
        (small : size d.disk_handle + 2 ^ 32 < 2 ^ 63) (near : o ≤ size d.disk_handle + 2 ^ 31)
        (at : IsAt d D o s₀) where
      pub reads_one_more :
          (runs : List (ℕ × Answer)) (i : ℕ) (s : Machine W)
          → Standing runs s
          → Ensures (run (run_op d (reading i)) s) (λ a t. Standing ((i, a) ∷ runs) t)
      unfolding run_op run Standing
      reads_one_more runs i s standing =
          Ensures-bind (read d (bufs i)) _ s
            (λ r t.
              IsStreamRead d D s (bufs i) (o + length (pieces runs)) r t
              × (o + length (pieces runs) + r.1 ≤ size d.disk_handle + 2 ^ 31))
            _
            (read_anywhere s (bufs i) (o + length (pieces runs)) standing.0.at (short i) small
              standing.1)
            (λ r t post. one_more runs i s t r standing post)

      pub Serially-Standing :
          (runs : List (ℕ × Answer)) (t : Machine W)
          → Serially (λ i. run_op d (reading i)) s₀ runs t
          → Standing runs t
      unfolding Standing
      Serially-Standing [] t nobody = (
        record { at = subst (λ n. IsAt d D n s₀) (omega arith) at; kept = refl; got = refl },
        omega arith,
      )
      Serially-Standing ((i, a) ∷ runs) t (after {s} before fresh ran) =
          subst (λ x. Ensures x (λ b u. Standing ((i, b) ∷ runs) u)) ran
            (reads_one_more runs i s (Serially-Standing runs s before))

      -- Any number of goroutines read from a stream that stands at `o` and whose locks are free and
      -- two, each with a buffer of at most 2 GiB, interleaved in any way. Whenever nobody holds the
      -- stream's mutex, the machine is as after some of the reads, run alone one after another, and
      -- the pieces that these have reported, put together in that order, are the disk's bytes from
      -- `o` on, no byte twice and none left out; the other reads have not started;
      -- the stream stands behind them and the disk is unchanged. `o` lies at most 2 GiB behind the
      -- disk's end, and the disk is more than 4 GiB smaller than the largest offset.
      pub concurrent_reads_contiguous :
          {s : System W Answer}
          → Reach (sharing d reading s₀) s
          → s.machine.held d.mutex ≡ false
          → (runs : List (ℕ × Answer)) × ((i : ℕ)
              → s.threads i ≡ left (λ j. run_op d (reading j)) s₀ runs i)
            × Serially (λ j. run_op d (reading j)) s₀ runs s.machine
            × IsStanding runs s.machine
      unfolding Standing
      concurrent_reads_contiguous {s} r free_now =
          let (runs, serially, threads) =
            stream_calls-Serially d reading s₀ at.apart at.free r free_now in
          (runs, threads, serially, (Serially-Standing runs s.machine serially).0)

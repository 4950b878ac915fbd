-- ===== src/Flash/Correct.antt =====
-- Laws of one chunk of the write loop of crates/imi-core/src/phases/phase_4.rs.
use imi.Common.{
  ℕ, ◌+◌, ◌≤◌, ◌<◌, ◌^◌, Bytes, [], Option, none, some, false, ◌≡◌, ◌⊎◌, inr, refl, sym, ◌∙◌, arith,
  ◌==◌, length, take, Result, length-take, take_of_le,
}
use imi.Error.{Error, IoKind, context_none}
use imi.Exec.{Exec, pure, continue}
use imi.Exec.Ends.{Ends, Ends-continue, Ends-if, done, stop}
use imi.Host.{Host}
use imi.Host.Disk.{Disk, Same, overlay}
use imi.Host.Keep.{Sourced, Holds, set_direct-Kept, within-Kept}
use imi.DirectIo.{set_direct}
use imi.Flash.Chunk.{
  ChunkOutcome, more, final, chunk_end_within, written_or, prefix, write_direct, write_tail,
  write_filled, checked_write, process_chunk,
}

-- A chunk ends within the device exactly when its last byte is on it.
pub chunk_end_within_iff :
    (offset len dev_size end : ℕ)
    → dev_size < 2 ^ 64
    → (chunk_end_within offset len dev_size ≡ some end → (end ≡ offset + len) × (end ≤ dev_size))
      × (chunk_end_within offset len dev_size ≡ none → dev_size < offset + len)
unfolding chunk_end_within
chunk_end_within_iff offset len dev_size end h = (λ e. ground arith, λ e. ground arith)

prefix_fits : (n : ℕ) (bs : Bytes) → n ≤ length bs → prefix n bs ≡ some (take n bs)
prefix_fits n bs h = ground arith

overlay-nil : (f : ℕ → ℕ) (off : ℕ) → Same (overlay f off []) f
overlay-nil f off i = ground arith

-- every byte behind the device's end is as it was
abbrev pub Beyond : (ℕ → ℕ) → ℕ → (ℕ → ℕ) → Type 0
Beyond f n g = (i : ℕ) → n ≤ i → g i ≡ f i

module _ (h : Host) (d : Disk h) (size : ℕ) where
  open h use {World, write_all_at}

  -- a write, whichever message its failure gets
  write-Ends :
      (toerr : IoKind → Error) (bs : Bytes) (offset dev_size : ℕ) (f : ℕ → ℕ) (s : World)
      → ((k : IoKind) → Sourced (toerr k))
      → offset + length bs ≤ dev_size
      → Holds h d f s
      → Ends
          (λ _ s'. Holds h d (overlay f offset bs) s')
          (λ e s'. Sourced e × Beyond f dev_size (d.byte s'))
          (written_or toerr (write_all_at bs offset s).0 (write_all_at bs offset s).1)
  write-Ends toerr bs offset dev_size f s ne le p = go (d.write_at bs offset s)
    where
      go :
          {r : Result IoKind (Unit {0}) × World}
          → Ends
              (λ _ s'. Same (d.byte s') (overlay (d.byte s) offset bs))
              (λ _ s'. (i : ℕ) → (i < offset) ⊎ (offset + length bs ≤ i) → d.byte s' i ≡ d.byte s i)
              r
          → Ends
              (λ _ s'. Holds h d (overlay f offset bs) s')
              (λ e s'. Sourced e × Beyond f dev_size (d.byte s'))
              (written_or toerr r.0 r.1)
      go (done {s = s'} q) = done (λ i. q i ∙ overlay_same i)
        where
          overlay_same : (i : ℕ) → overlay (d.byte s) offset bs i ≡ overlay f offset bs i
          overlay_same i = ground (arith, p i)
      go (stop {e = k} {s = s'} q) = stop (ne k, λ i b. q i (inr (omega arith)) ∙ p i)

  -- what a chunk has done with the first `filled` bytes of the buffer
  abbrev pub ChunkDone : (ℕ → ℕ) → Bytes → ℕ → ℕ → ℕ → ChunkOutcome → World → Type 0
  ChunkDone f buf filled offset dev_size (more end) s' =
      (filled ≡ size)
      × (end ≡ offset + filled)
      × (end ≤ dev_size)
      × Holds h d (overlay f offset (take filled buf)) s'
  ChunkDone f buf filled offset dev_size (final end) s' =
      (filled < size)
      × (end ≡ offset + filled)
      × (end ≤ dev_size)
      × Holds h d (overlay f offset (take filled buf)) s'

  abbrev pub ChunkEnds : (ℕ → ℕ) → Bytes → ℕ → ℕ → ℕ → Exec World ChunkOutcome → World → Type 0
  ChunkEnds f buf filled offset dev_size m s =
      Ends (ChunkDone f buf filled offset dev_size)
        (λ e s'. Sourced e × Beyond f dev_size (d.byte s')) (m s)

  module _ (f : ℕ → ℕ) (buf : Bytes) (filled offset dev_size : ℕ) (full : length buf ≡ size)
      (fits : filled ≤ size) where
    write_full :
        (s : World)
        → filled ≡ size
        → offset + filled ≤ dev_size
        → Holds h d f s
        → Ends
            (λ _ s'. Holds h d (overlay f offset (take filled buf)) s')
            (λ e s'. Sourced e × Beyond f dev_size (d.byte s'))
            (write_direct h size buf offset s)
    unfolding write_direct
    write_full s e le p = rw (take_of_le filled buf (omega arith)) (
        write-Ends _ buf offset dev_size f s (λ k. (λ x. ground arith, λ x. ground arith))
          (omega arith) p)

    write_filled_ends :
        (end : ℕ) (s : World)
        → end ≡ offset + filled
        → end ≤ dev_size
        → Holds h d f s
        → ChunkEnds f buf filled offset dev_size (write_filled h size buf filled offset end) s
    unfolding write_tail context_none
    write_filled_ends end s e le p =
        Ends-if (filled == size) _ _ s
          (λ t.
            let eq : filled ≡ size = ground arith in
            Ends-continue _ (write_full s eq (omega arith) p) (λ _ s' q. done (eq, e, le, q))
              (λ e s' x. x))
          (λ u.
            Ends-continue _
              (within-Kept h d _ (set_direct h false) s (λ x. cc) (set_direct-Kept h d false s p))
              (λ _ s' q. rw (prefix_fits filled buf (omega arith)) (tail s' (ground arith) q))
              (λ e s' x. (x.0, λ i _. x.1 i)))
      where
        tail :
            (s' : World)
            → filled < size
            → Holds h d f s'
            → ChunkEnds f buf filled offset dev_size
                (λ z.
                  continue
                    (λ _. pure (final end))
                    (write_tail h size (take filled buf) offset z).0
                    (write_tail h size (take filled buf) offset z).1)
                s'
        tail s' lt q =
            Ends-continue (λ _. pure (final end))
              (write-Ends _ (take filled buf) offset dev_size f s'
                (λ k. (λ x. ground arith, λ x. ground arith))
                (omega (arith, length-take filled buf)) q)
              (λ _ s'' w. done (lt, e, le, w)) (λ e s'' x. x)

    -- A chunk is written whole and on the device, or nothing behind the device's end has changed.
    pub process_chunk_ends :
        (s : World)
        → offset ≤ dev_size
        → dev_size < 2 ^ 64
        → 1 ≤ size
        → Holds h d f s
        → ChunkEnds f buf filled offset dev_size (process_chunk h size buf filled offset dev_size) s
    unfolding process_chunk
    process_chunk_ends s le big pos p =
        Ends-if (filled == 0) _ _ s (λ z. done (empty (ground arith)))
          (λ _. go (chunk_end_within offset filled dev_size) refl)
      where
        empty :
            filled ≡ 0
            → (filled < size)
              × (offset ≡ offset + filled)
              × (offset ≤ dev_size)
              × Holds h d (overlay f offset (take filled buf)) s
        empty z = (omega arith, omega arith, le, rw z (λ i. p i ∙ sym (overlay-nil f offset i)))

        go :
            (o : Option ℕ)
            → chunk_end_within offset filled dev_size ≡ o
            → ChunkEnds f buf filled offset dev_size
                (checked_write h size buf filled offset dev_size o)
                s
        go none e = stop (((λ x. cc), λ x. cc), λ i _. p i)
        go (some end) e =
            let r = (chunk_end_within_iff offset filled dev_size end big).0 e in
            write_filled_ends end s r.0 r.1 p

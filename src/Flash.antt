-- ===== src/Flash.antt =====
-- Phase 4, the write loop of a raw image: crates/imi-core/src/phases/phase_4.rs.
pub mod Chunk
pub mod Correct
pub mod Rounds
pub mod Serial
pub mod Pipeline
pub mod Phase
pub mod Written
use Chunk.{ChunkOutcome, more, final, process_chunk, flash_finalize}
use imi.Common.{
  ℕ, zero, suc, ◌+◌, Bytes, List, [], ◌∷◌, Option, none, some, Bool, true, false, if◌then◌else◌,
  replicate, Result, ok, err,
}
use imi.Error.{text, say, msg, out_of_fuel, from_source, cancelled_during, context_io}
use imi.Exec.{Exec, pure, raise, lift, call, within, get, act, ◌>>=◌, ◌>>◌}
use imi.Host.{Host, Read}
use imi.Events.{progress, flash}
use imi.Config.{chunk_target_nanos}
use imi.DirectIo.{set_direct}
use imi.Image.Fill.{fill_buffer}
use imi.Pace.{start_clock, pace}

module _ (h : Host) (size : ℕ) where
  open h use {World, emit, load_cancel, alloc}

  -- the rest of a round behind the write; `next` is the next round
  abbrev pub on_outcome :
      Option ℕ → Option ℕ → Option ℕ → (ℕ → Exec World ℕ) → ChunkOutcome → Exec World ℕ
  on_outcome raw_size target start next (final total) = pure total
  on_outcome raw_size target start next (more end) = do
    act (emit (progress flash end raw_size))
    pace h target start
    next end

  abbrev pub on_filled :
      ℕ
      → Option ℕ
      → Option ℕ
      → Option ℕ
      → (List Read → Bytes → ℕ → Exec World ℕ)
      → ℕ
      → ℕ × Bytes × List Read
      → Exec World ℕ
  on_filled dev_size raw_size target start next offset (filled, buf, es) = do
    outcome ← process_chunk h size buf filled offset dev_size
    on_outcome raw_size target start (next es buf) outcome

  -- one round of the loop
  pub flash_round :
      ℕ
      → Option ℕ
      → Option ℕ
      → (List Read → Bytes → ℕ → Exec World ℕ)
      → List Read
      → Bytes
      → ℕ
      → Exec World ℕ
  flash_round dev_size raw_size target next es buf offset = do
    cancelled ← get load_cancel
    if cancelled then raise (from_source (cancelled_during none)) else do
      start ← start_clock h target
      filled ← lift (context_io (text "reading from image stream") (fill_buffer es buf))
      on_filled dev_size raw_size target start next offset filled

  -- the loop, with what it returns as `total`
  pub flash_loop : ℕ → ℕ → Option ℕ → Option ℕ → List Read → Bytes → ℕ → Exec World ℕ
  unfolding flash_round
  flash_loop zero dev_size raw_size target es buf offset = raise (msg out_of_fuel)
  flash_loop (suc fuel) dev_size raw_size target es buf offset =
      flash_round dev_size raw_size target (flash_loop fuel dev_size raw_size target) es buf offset

  -- `flash_serial`; `dev_size + 1` rounds are enough, since every round but the last writes
  unfoldable pub flash_serial : List Read → Option ℕ → ℕ → Option ℕ → Exec World ℕ
  unfolding flash_loop
  flash_serial es raw_size dev_size throttle = do
    within (text "enabling O_DIRECT for flash phase") (set_direct h true)
    act (emit (progress flash 0 raw_size))
    call (text "allocating the 4 MiB aligned I/O buffer (out of memory)") alloc
    target ← lift (chunk_target_nanos throttle)
    total ← flash_loop (dev_size + 1) dev_size raw_size target es (replicate size 0) 0
    act (emit (progress flash total raw_size))
    flash_finalize h size
    pure total

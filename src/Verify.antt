-- ===== src/Verify.antt =====
-- Phase 5b, the read-back compare of a raw image, and Phase 5a, the cooldown:
-- crates/imi-core/src/phases/phase_5.rs.
pub mod Compare
pub mod Rounds
pub mod Serial
pub mod Agree
use imi.Common.{
  ℕ, zero, suc, ◌+◌, ◌-◌, min, Bytes, List, [], ◌∷◌, Option, none, some, Bool, true, false, ◌==◌,
  if◌then◌else◌, Result, ok, err,
}
use imi.Error.{text, say, msg, out_of_fuel, from_source, cancelled_during, context_io}
use imi.Exec.{Exec, pure, raise, lift, call, within, get, act, ◌>>=◌, ◌>>◌}
use imi.Host.{Host, Read}
use imi.Events.{progress, verify, cooldown, phase_started, phase_finished, completed, failed}
use imi.Config.{chunk_target_nanos}
use imi.Image.Exact.{fill_exact}
use imi.Pace.{start_clock, pace}
use Compare.{compare_chunk}

module _ (h : Host) where
  open h use {World, emit, load_cancel, sleep}

  -- the loop of `cooldown`, with `left` of the `seconds` to go
  pub cooldown_loop : ℕ → ℕ → Exec World (Unit {0})
  cooldown_loop seconds zero = do
    act (emit (progress cooldown seconds (some seconds)))
    act (emit (phase_finished cooldown completed))
  cooldown_loop seconds (suc left) = do
    cancelled ← get load_cancel
    if cancelled
        then (do
          act (emit (phase_finished cooldown failed))
          raise (from_source (cancelled_during (some "cooldown"))))
        else (do
          act (emit (progress cooldown (seconds - suc left) (some seconds)))
          act (sleep 1_000_000_000)
          cooldown_loop seconds left)

  -- `cooldown`
  unfoldable pub cooling : ℕ → Exec World (Unit {0})
  unfolding cooldown_loop
  cooling seconds = do act (emit (phase_started cooldown)); cooldown_loop seconds seconds

module _ (h : Host) (size : ℕ) where
  open h use {World, emit, load_cancel, alloc, read_exact_at}

  -- the rest of a round behind the two reads; `next` is the next round
  abbrev pub on_chunk :
      ℕ
      → Bytes
      → Option ℕ
      → Option ℕ
      → (List Read → ℕ → ℕ → Exec World (Unit {0}))
      → ℕ
      → ℕ
      → ℕ
      → Bytes
      → Bytes × List Read
      → Exec World (Unit {0})
  on_chunk bytes_written path target start next remaining offset chunk dev_chunk (img_chunk, es) =
      do
        lift (compare_chunk dev_chunk img_chunk offset path)
        act (emit (progress verify (offset + chunk) (some bytes_written)))
        pace h target start
        next es (remaining - chunk) (offset + chunk)

  -- one round of the loop
  pub verify_round :
      ℕ
      → Bytes
      → Option ℕ
      → (List Read → ℕ → ℕ → Exec World (Unit {0}))
      → List Read
      → ℕ
      → ℕ
      → Exec World (Unit {0})
  verify_round bytes_written path target next es remaining offset = do
    cancelled ← get load_cancel
    if cancelled then raise (from_source (cancelled_during none)) else do
      start ← start_clock h target
      let chunk = min remaining size
      dev_chunk ←
          call (say "reading bytes from device at offset" (chunk ∷ offset ∷ []) [])
            (read_exact_at chunk offset)
      read ←
          lift (
            context_io (say "reading bytes from image stream" (chunk ∷ []) [])
              (fill_exact es chunk))
      on_chunk bytes_written path target start next remaining offset chunk dev_chunk read

  -- the loop; `remaining` rounds are enough
  pub verify_loop : ℕ → ℕ → Bytes → Option ℕ → List Read → ℕ → ℕ → Exec World (Unit {0})
  unfolding verify_round
  verify_loop zero bytes_written path target es remaining offset =
      if remaining == 0 then pure tt else raise (msg out_of_fuel)
  verify_loop (suc fuel) bytes_written path target es remaining offset =
      if remaining == 0
      then pure tt
      else verify_round bytes_written path target (verify_loop fuel bytes_written path target) es
          remaining offset

  -- `verify_serial`
  unfoldable pub verify_serial : List Read → Bytes → ℕ → Option ℕ → Exec World (Unit {0})
  unfolding verify_loop
  verify_serial es path bytes_written throttle = do
    act (emit (progress verify 0 (some bytes_written)))
    call (text "allocating the 4 MiB aligned I/O buffer (out of memory)") alloc
    call (text "allocating the 4 MiB verify image buffer (out of memory)") alloc
    target ← lift (chunk_target_nanos throttle)
    verify_loop bytes_written bytes_written path target es bytes_written 0

-- ===== src/Tests/Pipeline.antt =====
-- The two arms of the flash on the simulated host.
use imi.Common.{ℕ, ◌≡◌, ◌≢◌, refl, arith, [], ◌∷◌, List, none, some, ok}
use imi.Error.{context, context_io, context_none}
use imi.DirectIo.{set_direct}
use imi.Config.{chunk_target_nanos}
use imi.Pace.{start_clock, pace}
use imi.Events.{raw, gzip}
use imi.Image.{stream}
use imi.Image.Fill.{fill_buffer}
use imi.Host.{Read, bytes}
use imi.Flash.{flash_serial}
use imi.Flash.Chunk.{process_chunk, flash_finalize}
use imi.Flash.Pipeline.{pace_checked, exited, main_step, worker_step, panic_step}
use imi.Flash.Pipeline.Run.{
  Choice, main_runs, worker_runs, decoder_panics, End, returned, unwound, spawned, choose, execute,
  set_up, flash_pipelined, flash,
}
use imi.Flash.Pipeline.Ends.{Flashes, flash_pipelined-Flashes}
use imi.Flash.Pipeline.Arms.{flash-agrees, flash_pipelined_protocol}
use imi.Tests.Sim.{World, sim, sim_disk, sim_clock, blank}

abbrev seven : List Read
seven = bytes (1 ∷ 2 ∷ 3 ∷ []) ∷ bytes (4 ∷ 5 ∷ 6 ∷ 7 ∷ []) ∷ []

-- the worker runs until it is blocked
abbrev eager : ℕ → Choice
eager i = worker_runs

-- the main thread runs until it is blocked
abbrev lazy : ℕ → Choice
lazy i = main_runs

-- the decoder panics as soon as it can
abbrev broken : ℕ → Choice
broken i = decoder_panics

gzip_eager : (flash (sim 8) 4 gzip eager seven none 8 none blank).0 ≡ returned (ok 7)
unfolding flash set_up context set_direct context_io chunk_target_nanos start_clock fill_buffer
    process_chunk pace_checked flash_finalize execute choose main_step worker_step panic_step
    flash_pipelined stream context_none
gzip_eager = refl

gzip_lazy : (flash (sim 8) 4 gzip lazy seven none 8 none blank).0 ≡ returned (ok 7)
unfolding flash set_up context set_direct context_io chunk_target_nanos start_clock fill_buffer
    process_chunk pace_checked flash_finalize execute choose main_step worker_step panic_step
    flash_pipelined stream context_none
gzip_lazy = refl

gzip_broken : (flash (sim 8) 4 gzip broken seven none 8 none blank).0 ≡ unwound
unfolding flash set_up context set_direct context_io chunk_target_nanos start_clock fill_buffer
    process_chunk pace_checked flash_finalize execute choose main_step worker_step panic_step
    flash_pipelined stream context_none
gzip_broken = refl

flash_pipelined-Flashes_example :
    Flashes
      (sim 8)
      (sim_disk 8)
      (sim_clock 8)
      4
      8
      (λ i. 0)
      (omega arith)
      (omega arith)
      seven
      (flash_pipelined (sim 8) 4 eager seven 8 none blank)
flash_pipelined-Flashes_example =
    flash_pipelined-Flashes (sim 8) (sim_disk 8) (sim_clock 8) 4 8 (λ i. 0) (omega arith)
      (omega arith) seven none eager blank (λ i. refl)

abbrev by_pipeline : End × World
by_pipeline = flash (sim 8) 4 gzip eager seven none 8 none blank

abbrev by_loop : End × World
by_loop = flash (sim 8) 4 raw lazy seven (some 7) 8 none blank

flash-agrees_example :
    (◌≡◌ {A = ℕ} 7 7) × ((i : ℕ) → by_pipeline.1.contents i ≡ by_loop.1.contents i)
unfolding flash set_up context set_direct context_io chunk_target_nanos start_clock fill_buffer
    process_chunk pace_checked flash_finalize execute choose main_step worker_step panic_step
    flash_pipelined stream context_none flash_serial pace
flash-agrees_example =
    flash-agrees (sim 8) (sim_disk 8) (sim_clock 8) 4 8 (λ i. 0) (omega arith) (omega arith) gzip
      raw eager lazy seven seven none (some 7) none none blank blank by_pipeline.1 by_loop.1 7 7
      refl (λ i. refl) (λ i. refl) refl refl

flash_pipelined_protocol_example :
    (execute (sim 8) 4 8 none 2 lazy (spawned (sim 8) 4 seven blank)).worker ≢ exited
unfolding execute choose main_step worker_step panic_step start_clock fill_buffer process_chunk
    pace_checked
flash_pipelined_protocol_example =
    flash_pipelined_protocol (sim 8) (sim_disk 8) (sim_clock 8) 4 8 none (λ i. 0) seven 2 lazy blank
      none 0 (omega arith) (omega arith) (λ i. refl) refl refl

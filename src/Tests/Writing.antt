-- ===== src/Tests/Writing.antt =====
-- Phase 4 on the simulated host, whose image is ten bytes long.
use imi.Common.{ℕ, ◌≡◌, refl, arith, codes, none, ok}
use imi.Error.{context, context_io, context_none}
use imi.Config.{chunk_target_nanos}
use imi.DirectIo.{set_direct}
use imi.Pace.{start_clock, pace}
use imi.Guard.{ArmedPhase}
use imi.Session.{ArmedSession, set_phase}
use imi.Image.{stream}
use imi.Image.Fill.{fill_buffer}
use imi.Flash.{flash_serial}
use imi.Flash.Chunk.{process_chunk, flash_finalize}
use imi.Flash.Pipeline.Run.{Choice, main_runs, returned, flash}
use imi.Flash.Phase.{flash_run}
use imi.Flash.Written.{Written, flash_run-Written}
use imi.Tests.Phases.{target}
use imi.Tests.Sim.{sim, sim_disk, sim_clock, blank}

abbrev session : ArmedSession
session = record {
  guard = record { inner = record { dev_path = codes "/dev/sdb"; phase = 1 } };
  target = record target { dev_size = 16 };
}

abbrev turns : ℕ → Choice
turns i = main_runs

flash_run-Written_example :
    ((flash_run (sim 16) 4 turns none session blank).0 ≡ set_phase session ArmedPhase.writing)
    × Written
        (sim 16)
        (sim_disk 16)
        (sim_clock 16)
        4
        (λ i. 0)
        (omega arith)
        session
        (omega arith)
        none
        turns
        (flash_run (sim 16) 4 turns none session blank).1
flash_run-Written_example =
    flash_run-Written (sim 16) (sim_disk 16) (sim_clock 16) 4 (λ i. 0) (omega arith) session
      (omega arith) none turns blank (λ i. refl)

writes_ten : (flash_run (sim 16) 4 turns none session blank).1.0 ≡ returned (ok 10)
unfolding flash_run flash flash_serial context set_direct context_io chunk_target_nanos start_clock
    fill_buffer process_chunk flash_finalize stream context_none pace
writes_ten = refl

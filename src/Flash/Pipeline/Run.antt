-- ===== src/Flash/Pipeline/Run.antt =====
-- `flash_pipelined` of crates/imi-core/src/phases/phase_4.rs as a whole, and the dispatcher `flash`.
use imi.Common.{
  ℕ, zero, suc, ◌+◌, ◌*◌, List, [], ◌∷◌, Option, none, some, true, false, if◌then◌else◌, length,
  replicate, Result, ok, err,
}
use imi.Error.{Error, text}
use imi.Exec.{Exec, pure, lift, call, within, act, ◌>>=◌, ◌>>◌}
use imi.Host.{Host, Read}
use imi.Events.{Compression, is_compressed, progress, flash as ui_flash}
use imi.Config.{chunk_target_nanos}
use imi.DirectIo.{set_direct}
use imi.Image.{stream}
use imi.Flash.Chunk.{flash_finalize}
use imi.Flash.{flash_serial}
use imi.Flash.Pipeline.{
  completed, failed, panicking, Main, top, finished, waiting, State, worker_step, panic_step,
  main_step,
}

-- what the scheduler does next: it lets a thread run, or the decoder panics
pub data Choice : Type 0 where
  main_runs worker_runs decoder_panics : Choice

-- how the call ends: it returns, it re-raises the worker's panic, or it never comes to an end
pub data End : Type 0 where
  returned : Result Error ℕ → End
  unwound hung : End

abbrev pub or_else : {S : Type 0} → Option S → Option S → Option S
or_else none other = other
or_else (some s) other = some s

module _ (h : Host) where
  open h use {World, emit, alloc}

  -- the state behind `thread::spawn`
  abbrev pub spawned : ℕ → List Read → World → State h
  spawned size es s = record {
    main = top 0;
    worker = waiting es;
    free = replicate size 0 ∷ replicate size 0 ∷ [];
    filled = [];
    mirror = false;
    rx_open = true;
    tx_open = true;
    world = s;
  }

  module _ (size dev_size : ℕ) (target : Option ℕ) where
    -- a thread that is blocked lets the other run
    unfoldable pub choose : Choice → State h → Option (State h)
    unfolding worker_step main_step panic_step
    choose main_runs st =
        or_else (main_step h size dev_size target st) (worker_step h size dev_size target st)
    choose worker_runs st =
        or_else (worker_step h size dev_size target st) (main_step h size dev_size target st)
    choose decoder_panics st =
        or_else (panic_step h size dev_size target st)
          (or_else (main_step h size dev_size target st) (worker_step h size dev_size target st))

    abbrev pub resume : (State h → State h) → State h → Option (State h) → State h
    resume next st none = st
    resume next st (some st') = next st'

    -- at most `fuel` steps in the order of the schedule
    unfoldable pub execute : ℕ → (ℕ → Choice) → State h → State h
    unfolding choose
    execute zero schedule st = st
    execute (suc fuel) schedule st =
        resume (execute fuel (λ i. schedule (suc i))) st (choose (schedule 0) st)

  module _ (size : ℕ) where
    abbrev pub ending : Result Error ℕ × World → End × World
    ending (r, s) = (returned r, s)

    -- behind the join: `resume_unwind`, `outcome?` and the rest
    abbrev pub conclude : Main → World → End × World
    conclude (finished (completed total)) s =
        ending ((do act (emit (progress ui_flash total none)); flash_finalize h size; pure total) s)
    conclude (finished (failed e)) s = (returned (err e), s)
    conclude (finished panicking) s = (unwound, s)
    conclude _ s = (hung, s)

    -- up to the spawn, with the throttle's target
    unfoldable pub set_up : Option ℕ → Exec World (Option ℕ)
    unfolding set_direct
    set_up throttle = do
      within (text "enabling O_DIRECT for flash phase") (set_direct h true)
      act (emit (progress ui_flash 0 none))
      target ← lift (chunk_target_nanos throttle)
      call (text "allocating the 4 MiB aligned I/O buffer (out of memory)") alloc
      call (text "allocating the 4 MiB aligned I/O buffer (out of memory)") alloc
      pure target

    -- the threads from the spawn to the join, and the end; no run takes more steps than this fuel
    abbrev pub threads :
        (ℕ → Choice) → List Read → ℕ → Result Error (Option ℕ) → World → End × World
    threads schedule es dev_size (err e) s = (returned (err e), s)
    threads schedule es dev_size (ok target) s =
        let st =
          execute size dev_size target (13 + 8 * length (stream es)) schedule (spawned size es s) in
        conclude st.main st.world

    unfoldable pub flash_pipelined : (ℕ → Choice) → List Read → ℕ → Option ℕ → World → End × World
    unfolding set_up execute flash_finalize
    flash_pipelined schedule es dev_size throttle s =
        let (r, s') = set_up throttle s in threads schedule es dev_size r s'

    -- `flash`, the choice of the arm
    unfoldable pub flash :
        Compression → (ℕ → Choice) → List Read → Option ℕ → ℕ → Option ℕ → World → End × World
    unfolding flash_pipelined flash_serial
    flash comp schedule es raw_size dev_size throttle s =
        if is_compressed comp
        then flash_pipelined schedule es dev_size throttle s
        else ending (flash_serial h size es raw_size dev_size throttle s)

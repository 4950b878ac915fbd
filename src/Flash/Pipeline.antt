-- ===== src/Flash/Pipeline.antt =====
-- Phase 4 for a compressed image: `worker_loop`, `flash_pipelined` and the dispatcher `flash` of
-- crates/imi-core/src/phases/phase_4.rs. The two threads are two machines that share two channels
-- and the mirror of the cancel flag; each step makes at most one access to what is shared.
pub mod Feed
pub mod Producer
pub mod Measure
pub mod Safety
pub mod Writing
pub mod Consumer
pub mod Run
pub mod Progress
pub mod Ends
pub mod Arms
use imi.Common.{
  ℕ, zero, suc, ◌+◌, ◌*◌, ◌-◌, Bytes, List, [], ◌∷◌, ◌++◌, Option, none, some, Bool, true, false,
  ltb, leb, if◌then◌else◌, length, replicate, Result, ok, err,
}
use imi.Error.{Error, text, msg, io, from_source, add_context, cancelled_during}
use imi.Exec.{Exec, pure, raise, lift, call, within, get, act, ◌>>=◌, ◌>>◌}
use imi.Host.{Host, Read}
use imi.Events.{Compression, is_compressed, progress, flash}
use imi.Config.{chunk_target_nanos, u64_or_max}
use imi.DirectIo.{set_direct}
use imi.Cancel.{cancellable_sleep}
use imi.Image.Fill.{Fill, fill_buffer}
use imi.Pace.{start_clock}
use imi.Flash.Chunk.{ChunkOutcome, more, final, process_chunk, flash_finalize}

-- `FilledItem`
abbrev pub Item : Type 0
Item = Result Error (Bytes × ℕ)

-- how the main thread leaves `'write_loop`
pub data Exit : Type 0 where
  completed : ℕ → Exit
  failed : Error → Exit
  panicking : Exit

-- where the worker is; it holds what is left of the image's stream
pub data Worker : Type 0 where
  waiting : List Read → Worker
  holding filling : List Read → Bytes → Worker
  sending : List Read → Item → Worker
  exited panicked : Worker

-- where the main thread is, with the `offset` or the exit
pub data Main : Type 0 where
  top : ℕ → Main
  receiving : Option ℕ → ℕ → Main
  writing : Option ℕ → Bytes → ℕ → ℕ → Main
  pacing : Option ℕ → ℕ → Main
  leaving dropping joining finished : Exit → Main

abbrev pub protocol_violation : Error
protocol_violation =
    msg (text "image worker exited without sending a final chunk (pipeline protocol violation)")

-- `Error::from_source(e).context(...)` for a failed fill
abbrev pub filled_by : Fill → Worker
filled_by (ok (n, buf, es)) = sending es (ok (buf, n))
filled_by (err k) =
    sending [] (err (add_context (text "reading from image stream") (from_source (io k))))

-- behind a send: an error or a short fill is the last item
abbrev pub after_send : ℕ → List Read → Item → Worker
after_send size es (err e) = exited
after_send size es (ok (buf, n)) = if ltb n size then exited else waiting es

module _ (h : Host) where
  open h use {World, emit, load_cancel, now}

  pub record State : Type 0 where
    pub main : Main
    pub worker : Worker
    pub free : List Bytes  -- the channel of drained buffers
    pub filled : List Item  -- the channel of filled ones
    pub mirror : Bool  -- `local_cancel`
    pub rx_open : Bool  -- `filled_rx` is not dropped
    pub tx_open : Bool  -- `free_tx` is not dropped
    pub world : World

  module _ (size dev_size : ℕ) (target : Option ℕ) where
    abbrev pub take_buffer : List Read → State → List Bytes → Option State
    take_buffer es st (b ∷ bs) = some (record st { worker = holding es b; free = bs })
    take_buffer es st [] = if st.tx_open then none else some (record st { worker = exited })

    -- `worker_loop`, one step; `none` where the worker is blocked or gone
    abbrev pub worker_at : Worker → State → Option State
    worker_at (waiting es) st = take_buffer es st st.free
    worker_at (holding es b) st =
        some (record st { worker = if st.mirror then exited else filling es b })
    worker_at (filling es b) st = some (record st { worker = filled_by (fill_buffer es b) })
    worker_at (sending es item) st =
        if st.rx_open
        then some
            (record st { worker = after_send size es item; filled = st.filled ++ (item ∷ []) })
        else some (record st { worker = exited })
    worker_at exited st = none
    worker_at panicked st = none

    unfoldable pub worker_step : State → Option State
    unfolding fill_buffer add_context from_source
    worker_step st = worker_at st.worker st

    -- a decoder that panics
    abbrev pub panic_at : Worker → State → Option State
    panic_at (filling es b) st = some (record st { worker = panicked })
    panic_at _ st = none

    unfoldable pub panic_step : State → Option State
    panic_step st = panic_at st.worker st

    abbrev pub stopped : State → State
    stopped st = record st {
      main = leaving (failed (from_source (cancelled_during none)));
      mirror = true;
    }

    abbrev pub on_start : ℕ → State → Result Error (Option ℕ) → State
    on_start offset st (ok start) = record st { main = receiving start offset }
    on_start offset st (err e) = record st { main = leaving (failed e) }

    -- the cancel check, and the clock
    abbrev pub top_step : ℕ → State → State
    top_step offset st =
        let (cancelled, w) = load_cancel st.world in
        if cancelled
        then stopped (record st { world = w })
        else on_start offset (record st { world = (start_clock h target w).1 })
            (start_clock h target w).0

    -- a receive on an empty channel: it blocks unless the worker is gone
    abbrev pub on_empty : State → Worker → Option State
    on_empty st exited = some (record st { main = leaving (failed protocol_violation) })
    on_empty st panicked = some (record st { main = leaving panicking })
    on_empty st _ = none

    abbrev pub on_received : Option ℕ → ℕ → State → List Item → Option State
    on_received start offset st [] = on_empty st st.worker
    on_received start offset st (ok (buf, n) ∷ items) =
        some (record st { main = writing start buf n offset; filled = items })
    on_received start offset st (err e ∷ items) =
        some (record st { main = leaving (failed e); filled = items })

    -- `free_tx.send(buf)`, which is lost when the worker is gone
    abbrev pub give_back : Worker → Bytes → List Bytes → List Bytes
    give_back exited buf free = free
    give_back panicked buf free = free
    give_back _ buf free = free ++ (buf ∷ [])

    abbrev pub on_written : Option ℕ → Bytes → State → Result Error ChunkOutcome → State
    on_written start buf st (ok (more end)) = record st {
      main = pacing start end;
      free = give_back st.worker buf st.free;
      world = emit (progress flash end none) st.world;
    }
    on_written start buf st (ok (final end)) = record st { main = leaving (completed end) }
    on_written start buf st (err e) = record st { main = leaving (failed e) }

    -- the throttle, with whether the run was cancelled behind a sleep
    unfoldable pub pace_checked : Option ℕ → Exec World Bool
    unfolding cancellable_sleep
    pace_checked start = elim target [
      | none ↦ pure false
      | some target_ns ↦ elim start [
        | none ↦ pure false
        | some t0 ↦ (do
          t ← get now
          let elapsed_ns = u64_or_max (t - t0)
          if leb elapsed_ns target_ns
              then (do cancellable_sleep h (target_ns - elapsed_ns); get load_cancel)
              else pure false)
      ]
    ]

    abbrev pub on_paced : ℕ → State → Result Error Bool → State
    on_paced end st (ok true) = stopped st
    on_paced end st (ok false) = record st { main = top end }
    on_paced end st (err e) = record st { main = leaving (failed e) }

    abbrev pub on_join : Exit → State → Worker → Option State
    on_join x st exited = some (record st { main = finished x })
    on_join x st panicked = some (record st { main = finished panicking })
    on_join x st _ = none

    -- the main thread from the loop to the join, one step; `none` where it is blocked or has ended
    abbrev pub main_at : Main → State → Option State
    main_at (top offset) st = some (top_step offset st)
    main_at (receiving start offset) st = on_received start offset st st.filled
    main_at (writing start buf n offset) st =
        let (r, w) = process_chunk h size buf n offset dev_size st.world in
        some (on_written start buf (record st { world = w }) r)
    main_at (pacing start end) st =
        let (r, w) = pace_checked start st.world in some (on_paced end (record st { world = w }) r)
    main_at (leaving x) st = some (record st { main = dropping x; filled = []; rx_open = false })
    main_at (dropping x) st = some (record st { main = joining x; tx_open = false })
    main_at (joining x) st = on_join x st st.worker
    main_at (finished x) st = none

    unfoldable pub main_step : State → Option State
    unfolding start_clock process_chunk pace_checked from_source msg
    main_step st = main_at st.main st

-- ===== src/Flash/Pipeline/Consumer.antt =====
-- Laws of the steps of the main thread of `flash_pipelined` of
-- crates/imi-core/src/phases/phase_4.rs.
use imi.Common.{
  ℕ, ◌+◌, ◌*◌, ◌-◌, ◌≤◌, ◌<◌, ◌^◌, Bytes, List, [], ◌∷◌, Option, none, some, ◌≡◌, refl, ◌∙◌, arith,
  length, Bool, true, false, leb, if◌then◌else◌, Result, ok, err,
}
use imi.Error.{Error, IoKind, from_source, cancelled_during}
use imi.Config.{u64_or_max}
use imi.Cancel.Wait.{Clock}
use imi.Exec.Ends.{Ends, Ends-continue, Ends-if, done, stop}
use imi.Host.{Host}
use imi.Host.Disk.{Disk, overlay}
use imi.Host.Keep.{Holds, Kept, Sourced, start_clock-Kept, sleep-Kept}
use imi.Pace.{start_clock}
use imi.Flash.Pipeline.{
  Item, Exit, failed, panicking, Worker, exited, panicked, State, Main, top, receiving, writing,
  pacing, leaving, dropping, joining, finished, pace_checked, top_step, stopped, on_start, on_empty,
  on_received, on_paced, on_join, main_at,
}
use imi.Flash.Pipeline.Feed.{Owns, Promise, settled, in_flight}
use imi.Flash.Pipeline.Producer.{After, Sized, Live, moved}
use imi.Flash.Pipeline.Measure.{worker_weight}
use imi.Flash.Pipeline.Safety.{Running, Left, Left-Beyond, At, Safe, left, past, Next}
use imi.Flash.Pipeline.Writing.{written_lives}

module _ (h : Host) (d : Disk h) (c : Clock h) (size dev_size : ℕ) where
  open h use {World, now, load_cancel}

  pace_checked-Kept :
      {g : ℕ → ℕ} (target start : Option ℕ) (s : World)
      → Holds h d g s
      → Kept h d g (pace_checked h size dev_size target start) s
  unfolding pace_checked
  pace_checked-Kept none start s p = done p
  pace_checked-Kept (some ns) none s p = done p
  pace_checked-Kept (some ns) (some t0) s p =
      let q = λ (i : ℕ). d.now_keeps s i ∙ p i in
      let e = u64_or_max ((now s).0 - t0) in
      Ends-if (leb e ns) _ _ (now s).1
        (λ _.
          Ends-continue _ (sleep-Kept h d c (ns - e) (now s).1 q)
            (λ _ s' q'. done (λ i. d.load_keeps s' i ∙ q' i)) (λ _ _ x. x))
        (λ _. done q)

module _ (h : Host) (d : Disk h) (c : Clock h) (size dev_size : ℕ) (target : Option ℕ) (f : ℕ → ℕ)
    (pos : 1 ≤ size) (big : dev_size < 2 ^ 64) (src : Bytes) (fault : Option IoKind) where
  open h use {World, emit, load_cancel, now}

  module _ (st : State h) (sized : Sized size st.free) (owns : Owns size st.worker) where
    top_lives :
        (offset : ℕ)
        → Running h d c size dev_size target f pos big src fault [] offset st
        → Next h d c size dev_size target f pos big src fault st sized owns
            (top offset)
            (some (top_step h size dev_size target offset st))
    unfolding from_source
    top_lives offset l = go (load_cancel st.world).0
      where
        p₁ : Holds h d (overlay f 0 l.written) (load_cancel st.world).1
        p₁ i = d.load_keeps st.world i ∙ l.bytes_are i

        clock :
            {r : Result Error (Option ℕ) × World}
            → Ends
                (λ _ s'. Holds h d (overlay f 0 l.written) s')
                (λ e s'. Sourced e × Holds h d (overlay f 0 l.written) s')
                r
            → Next h d c size dev_size target f pos big src fault st sized owns
                (top offset)
                (some (on_start h size dev_size target offset (record st { world = r.1 }) r.0))
        clock (done {a = start} {s = s'} q) = record {
          sized = sized;
          owns = owns;
          lighter = omega arith;
          at_main =
              moved h d size dev_size target f src fault l st.worker st.free st.filled
                (record st { main = receiving start offset; world = s' }) q (refl, refl, refl)
                l.coming l.pool;
        }
        clock (stop {e} {s = s'} x) =
            left h d c size dev_size target f pos big src fault st sized owns (failed e) st.mirror
              st.filled s' _ (omega arith)
              (x.0, past h d c size dev_size target f pos big src fault st sized owns l x.1)

        go :
            (t : Bool)
            → Next h d c size dev_size target f pos big src fault st sized owns (top offset) (
                some (
                  if t
                  then stopped h size dev_size target
                      (record st { world = (load_cancel st.world).1 })
                  else on_start h size dev_size target offset
                      (record st { world = (start_clock h target (load_cancel st.world).1).1 })
                      (start_clock h target (load_cancel st.world).1).0))
        go true =
            left h d c size dev_size target f pos big src fault st sized owns
              (failed (from_source (cancelled_during none))) true st.filled (load_cancel st.world).1
              _ (omega arith)
              (
                ((λ x. cc), λ x. cc),
                past h d c size dev_size target f pos big src fault st sized owns l p₁,
              )
        go false = clock (start_clock-Kept h d c target (load_cancel st.world).1 p₁)

    received_lives :
        (start : Option ℕ) (offset : ℕ) (q : List Item)
        → length st.filled ≡ length q
        → Live h d size dev_size target f src fault st.worker st.free q offset st
        → After
            (Safe h d c size dev_size target f pos big src fault
              (4 + 4 * length q + worker_weight size st.worker))
            (on_received h size dev_size target start offset st q)
    received_lives start offset [] len l = empty st.worker l.coming
      where
        empty :
            (w : Worker)
            → Promise size fault (settled size fault w) (in_flight w) l.rest
            → After
                (Safe h d c size dev_size target f pos big src fault
                  (4 + worker_weight size st.worker))
                (on_empty h size dev_size target st w)
        empty exited p = absurd p
        empty panicked p =
            left h d c size dev_size target f pos big src fault st sized owns panicking st.mirror
              st.filled st.world _ (omega (arith, len))
              (past h d c size dev_size target f pos big src fault st sized owns l l.bytes_are)
        empty _ p = tt
    received_lives start offset (ok (buf, n) ∷ items) len l = record {
      sized = sized;
      owns = owns;
      lighter = omega arith;
      at_main =
          moved h d size dev_size target f src fault l st.worker st.free (ok (buf, n) ∷ items)
            (record st { main = writing start buf n offset; filled = items }) l.bytes_are
            (refl, refl, refl) l.coming l.pool;
    }
    received_lives start offset (err e ∷ items) len l =
        left h d c size dev_size target f pos big src fault st sized owns (failed e) st.mirror items
          st.world _ (omega arith)
          (
            l.coming.0,
            past h d c size dev_size target f pos big src fault st sized owns l l.bytes_are,
          )

    paced_lives :
        (start : Option ℕ) (end : ℕ)
        → Running h d c size dev_size target f pos big src fault [] end st
        → Next h d c size dev_size target f pos big src fault st sized owns
            (pacing start end)
            (main_at h size dev_size target (pacing start end) st)
    unfolding from_source
    paced_lives start end l =
        go (pace_checked-Kept h d c size dev_size target start st.world l.bytes_are)
      where
        go :
            {r : Result Error Bool × World}
            → Ends
                (λ _ s'. Holds h d (overlay f 0 l.written) s')
                (λ e s'. Sourced e × Holds h d (overlay f 0 l.written) s')
                r
            → Next h d c size dev_size target f pos big src fault st sized owns
                (pacing start end)
                (some (on_paced h size dev_size target end (record st { world = r.1 }) r.0))
        go (done {a = true} {s} q) =
            left h d c size dev_size target f pos big src fault st sized owns
              (failed (from_source (cancelled_during none))) true st.filled s _ (omega arith)
              (
                ((λ x. cc), λ x. cc),
                past h d c size dev_size target f pos big src fault st sized owns l q,
              )
        go (done {a = false} {s} q) = record {
          sized = sized;
          owns = owns;
          lighter = omega arith;
          at_main =
              moved h d size dev_size target f src fault l st.worker st.free st.filled
                (record st { main = top end; world = s }) q (refl, refl, refl) l.coming l.pool;
        }
        go (stop {e} {s} x) =
            left h d c size dev_size target f pos big src fault st sized owns (failed e) st.mirror
              st.filled s _ (omega arith)
              (x.0, past h d c size dev_size target f pos big src fault st sized owns l x.1)

    joined_lives :
        (x : Exit) (w : Worker)
        → Left h d c size dev_size target f pos big src fault x st.world
        → Next h d c size dev_size target f pos big src fault st sized owns
            (joining x)
            (on_join h size dev_size target x st w)
    joined_lives x exited p = record {
      sized = sized;
      owns = owns;
      lighter = omega arith;
      at_main = p;
    }
    joined_lives x panicked p = record {
      sized = sized;
      owns = owns;
      lighter = omega arith;
      at_main = Left-Beyond h d c size dev_size target f pos big src fault x st.world p;
    }
    joined_lives x _ p = tt

    -- A step of the main thread keeps the state safe.
    pub main_lives :
        (m : Main)
        → At h d c size dev_size target f pos big src fault m st
        → Next h d c size dev_size target f pos big src fault st sized owns m
            (main_at h size dev_size target m st)
    main_lives (top offset) p = top_lives offset p
    main_lives (receiving start offset) p = received_lives start offset st.filled refl p
    main_lives (writing start buf n offset) p =
        written_lives h d c size dev_size target f pos big src fault st sized owns start buf n
          offset p
    main_lives (pacing start end) p = paced_lives start end p
    main_lives (leaving x) p = record {
      sized = sized;
      owns = owns;
      lighter = omega arith;
      at_main = p;
    }
    main_lives (dropping x) p = record {
      sized = sized;
      owns = owns;
      lighter = omega arith;
      at_main = (p, refl);
    }
    main_lives (joining x) p = joined_lives x st.worker p.0
    main_lives (finished x) p = tt

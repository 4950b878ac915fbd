-- ===== src/Flash/Phase.antt =====
-- `run` and `run_inner` of crates/imi-core/src/phases/phase_4.rs.
use imi.Common.{ℕ, List, Option, Result, ok, err, map_err}
use imi.Error.{Error, text, at, indeterminate, context}
use imi.Events.{flash as ui_flash, phase_started, phase_finished}
use imi.Exec.{Exec, within}
use imi.Image.Reader.{reader_open}
use imi.Guard.{ArmedPhase}
use imi.Host.{Host, Read}
use imi.Session.{ArmedSession, set_phase, outcome_of}
use imi.Flash.Pipeline.Run.{Choice, End, returned, unwound, hung, flash}

module _ (h : Host) where
  open h use {World, emit}

  -- `ImageReader::open`, with the phase's context
  unfoldable pub opening : ArmedSession → Exec World (List Read)
  unfolding context reader_open
  opening session =
      within (text "Phase 4: opening image")
        (reader_open h session.target.img_canon session.target.comp)

  -- `.context("Phase 4: flash write loop")`
  abbrev pub during_loop : End × World → End × World
  during_loop (returned r, s) = (returned (context (text "Phase 4: flash write loop") r), s)
  during_loop (unwound, s) = (unwound, s)
  during_loop (hung, s) = (hung, s)

  -- a panic passes by the report
  abbrev pub report : End × World → End × World
  report (returned r, s) =
      let r' = map_err (at indeterminate) r in
      (returned r', emit (phase_finished ui_flash (outcome_of r')) s)
  report (unwound, s) = (unwound, s)
  report (hung, s) = (hung, s)

  module _ (size : ℕ) (schedule : ℕ → Choice) (throttle : Option ℕ) (session : ArmedSession) where
    abbrev pub with_reader : Result Error (List Read) × World → End × World
    with_reader (err e, s) = (returned (err e), s)
    with_reader (ok es, s) = during_loop (
        flash h size session.target.comp schedule es session.target.raw_size session.target.dev_size
          throttle s)

    -- `run_inner`, from the opening on
    abbrev pub write_image : World → End × World
    write_image s = with_reader (opening session (emit (phase_started ui_flash) s))

    -- `run`, with the session whose phase was set
    unfoldable pub flash_run : World → ArmedSession × (End × World)
    unfolding set_phase opening context flash
    flash_run s = (set_phase session ArmedPhase.writing, report (write_image s))

-- ===== src/Flash/Written.antt =====
-- Laws of phase 4 as a whole: crates/imi-core/src/phases/phase_4.rs.
use imi.Common.{ℕ, ◌≤◌, ◌<◌, ◌^◌, List, Option, none, ◌≡◌, refl, ◌∙◌, length, Result, ok, err}
use imi.Error.{Error, context, indeterminate, text}
use imi.Events.{flash as ui_flash, phase_started}
use imi.Cancel.Wait.{Clock}
use imi.Guard.{ArmedPhase}
use imi.Host.{Host, Read}
use imi.Host.Disk.{Disk, overlay}
use imi.Host.Spare.{holds_after, within_held}
use imi.Image.Reader.{reader_open-held}
use imi.Host.Keep.{Holds}
use imi.Image.{stream, failure}
use imi.Session.{ArmedSession, set_phase}
use imi.Wipe.Run.{at-device}
use imi.Flash.Correct.{Beyond}
use imi.Flash.Pipeline.Run.{Choice, End, returned, unwound, hung, flash}
use imi.Flash.Pipeline.Ends.{Flashes}
use imi.Flash.Pipeline.Arms.{flash-Flashes}
use imi.Flash.Phase.{opening, during_loop, report, with_reader, write_image, flash_run}

module _ (h : Host) (d : Disk h) (c : Clock h) (size : ℕ) (f : ℕ → ℕ) (pos : 1 ≤ size)
    (session : ArmedSession) (big : session.target.dev_size < 2 ^ 64) (throttle : Option ℕ)
    (schedule : ℕ → Choice) where
  open h use {World, emit}

  -- what is on the device when the phase has ended
  abbrev pub Written : End × World → Type 0
  Written (returned (ok total), s') =
      (es : List Read) × (s₁ : World) × ((opening h session s₁).0 ≡ ok es)
      × (total ≡ length (stream es))
      × (total ≤ session.target.dev_size)
      × (failure es ≡ none)
      × Holds h d (overlay f 0 (stream es)) s'
  Written (returned (err e), s') =
      (e.device ≡ indeterminate) × Beyond f session.target.dev_size (d.byte s')
  Written (unwound, s') = Beyond f session.target.dev_size (d.byte s')
  Written (hung, s') = ⊥

  reported :
      (es : List Read) (s₁ : World)
      → (opening h session s₁).0 ≡ ok es
      → (r : End × World) → Flashes h d c size session.target.dev_size f pos big es r
      → Written (report h (during_loop h r))
  unfolding context
  reported es s₁ e (returned (ok total), s') p =
      (es, s₁, e, p.0, p.1, p.2, λ i. d.emit_keeps _ s' i ∙ p.3 i)
  reported es s₁ e (returned (err x), s') p =
      (at-device indeterminate _, λ i le. d.emit_keeps _ s' i ∙ p.1 i le)
  reported es s₁ e (unwound, s') p = p
  reported es s₁ e (hung, s') p = absurd p

  write_image-Written :
      (s : World)
      → Holds h d f s
      → Written (report h (write_image h size schedule throttle session s))
  unfolding opening
  write_image-Written s p = go (opening h session (emit (phase_started ui_flash) s)).0 refl (
      holds_after (Holds h d f) (
        within_held (Holds h d f) (text "Phase 4: opening image") (
          reader_open-held h d f session.target.img_canon session.target.comp
            (emit (phase_started ui_flash) s) (λ i. d.emit_keeps _ s i ∙ p i))))
    where
      go :
          {s' : World} (r : Result Error (List Read))
          → (opening h session (emit (phase_started ui_flash) s)).0 ≡ r
          → Holds h d f s'
          → Written (report h (with_reader h size schedule throttle session (r, s')))
      go {s'} (err e) x q = (at-device indeterminate _, λ i le. d.emit_keeps _ s' i ∙ q i)
      go {s'} (ok es) x q =
          reported es (emit (phase_started ui_flash) s) x
            (flash h size session.target.comp schedule es session.target.raw_size
              session.target.dev_size throttle s')
            (flash-Flashes h d c size session.target.dev_size f pos big es session.target.raw_size
              throttle session.target.comp schedule s' q)

  -- From a device that holds `f`, with blocks of any positive size, a size of the device below
  -- 2 ^ 64, any format and any schedule of the threads: phase 4 ends with the session whose phase is
  -- that of writing. If it returns a total, this is the length of the stream of the opened image,
  -- which fits the device and was read without a failure, and the device holds that stream from
  -- offset 0 on and `f` everywhere else. If it returns an error, this says that the device is in
  -- doubt. If it returns an error or a panic of the decoder passes by, no byte at the device's size
  -- or behind it has changed.
  pub flash_run-Written :
      (s : World)
      → Holds h d f s
      → ((flash_run h size schedule throttle session s).0 ≡ set_phase session ArmedPhase.writing)
        × Written (flash_run h size schedule throttle session s).1
  unfolding flash_run
  flash_run-Written s p = (refl, write_image-Written s p)

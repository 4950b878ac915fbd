-- ===== src/Flash/Serial.antt =====
-- Laws of `flash_serial` of crates/imi-core/src/phases/phase_4.rs as a whole.
use imi.Common.{
  ℕ, ◌+◌, ◌≤◌, ◌<◌, ◌^◌, Bytes, List, [], Option, none, true, false, ◌≡◌, refl, sym, ◌∙◌, arith,
  length, replicate, Result, ok, err, length-replicate,
}
use imi.Error.{Error, IoKind, msg}
use imi.Events.{progress, flash}
use imi.Exec.{pure, continue, act, ◌>>=◌, ◌>>◌}
use imi.Exec.Ends.{Ends, Ends-continue, done, stop}
use imi.Host.{Host, Read}
use imi.Host.Disk.{Disk, overlay}
use imi.Host.Keep.{Sourced, Holds, Kept, set_direct-Kept, within-Kept, call-Kept}
use imi.Cancel.Wait.{Clock}
use imi.DirectIo.{set_direct}
use imi.Config.{chunk_target_nanos}
use imi.Image.{stream, failure}
use imi.Flash.Chunk.{flash_finalize}
use imi.Flash.Correct.{Beyond}
use imi.Flash.{flash_loop, flash_serial}
use imi.Flash.Rounds.{Flashed, Aborted, flash_loop_ends, overlay-nil, overlay-Beyond}

pub target_Sourced :
    (throttle : Option ℕ) (e : Error) → chunk_target_nanos throttle ≡ err e → Sourced e
unfolding chunk_target_nanos msg
target_Sourced throttle e eq = (λ x. ground arith, λ x. ground arith)

module _ (h : Host) (d : Disk h) (c : Clock h) (size dev_size : ℕ) (f : ℕ → ℕ)
    (raw_size target : Option ℕ) (pos : 1 ≤ size) (big : dev_size < 2 ^ 64) where
  open h use {World, emit, load_cancel, alloc, fdatasync}

  abbrev pub Whole : Bytes → Option IoKind → ℕ → World → Type 0
  Whole = Flashed h d c size dev_size f raw_size target pos big

  abbrev pub Part : Error → World → Type 0
  Part = Aborted h d c size dev_size f raw_size target pos big

  finalize-Kept : {g : ℕ → ℕ} (s : World) → Holds h d g s → Kept h d g (flash_finalize h size) s
  unfolding flash_finalize
  finalize-Kept s p =
      Ends-continue _
        (within-Kept h d _ (set_direct h false) s (λ e. cc) (set_direct-Kept h d false s p))
        (λ _ s₁ q. call-Kept h d _ fdatasync s₁ (λ e. cc) (d.sync_keeps s₁) q) (λ _ _ x. x)

  pub ended :
      (src : Bytes) (fault : Option IoKind) (total : ℕ) (s : World)
      → Whole src fault total s
      → Ends (Whole src fault) Part (
          continue
            (λ u. pure total)
            (flash_finalize h size (emit (progress flash total raw_size) s)).0
            (flash_finalize h size (emit (progress flash total raw_size) s)).1)
  ended src fault total s (eq, le, ok_, p) =
      Ends-continue (λ u. pure total)
        (finalize-Kept (emit (progress flash total raw_size) s) (λ i. d.emit_keeps _ s i ∙ p i))
        (λ _ s' q. done (eq, le, ok_, q))
        (λ e s' x.
          (x.0, λ i le'. x.1 i ∙ overlay-Beyond f src dev_size (omega (arith, eq, le)) i le'))

  loop-Ends :
      (es : List Read) (s : World)
      → Holds h d f s
      → Ends
          (Whole (stream es) (failure es))
          Part
          (flash_loop h size (dev_size + 1) dev_size raw_size target es (replicate size 0) 0 s)
  loop-Ends es s p =
      flash_loop_ends h d c size dev_size f raw_size target pos big (stream es) (failure es)
        (dev_size + 1) es (replicate size 0) 0 [] s (omega arith)
        record {
          on_device = omega arith;
          at_end = refl;
          buffer = length-replicate size 0;
          rest = refl;
          ending = refl;
          bytes_are = λ i. p i ∙ sym (overlay-nil f i);
        }

  -- the body behind the choice of the target
  body-Ends :
      (es : List Read) (s : World)
      → Holds h d f s
      → Ends (Whole (stream es) (failure es)) Part (
          (do
            total ←
                flash_loop h size (dev_size + 1) dev_size raw_size target es (replicate size 0) 0
            act (emit (progress flash total raw_size))
            flash_finalize h size
            pure total)
            s)
  body-Ends es s p =
      Ends-continue _ (loop-Ends es s p) (λ total s' x. ended (stream es) (failure es) total s' x)
        (λ e s' x. x)

-- From a device that holds `f`, with blocks of any positive size and a size of the device below
-- 2 ^ 64: the flash ends. If it succeeds, the total it returns is the length of the image's stream
-- and at most the device's size, no read of the stream failed, and the device holds the stream from
-- offset 0 on and `f` everywhere else. If it fails, the error is one of the source's own and no
-- verification mismatch, and every byte at the device's size or behind it is as it was.
pub flash_serial-Ends :
    (h : Host) (d : Disk h) (c : Clock h) (size dev_size : ℕ) (f : ℕ → ℕ)
    (raw_size throttle : Option ℕ) (es : List Read) (s : h.World)
    → 1 ≤ size
    → dev_size < 2 ^ 64
    → Holds h d f s
    → Ends
        (λ total s'.
          (total ≡ length (stream es))
          × (total ≤ dev_size)
          × (failure es ≡ none)
          × Holds h d (overlay f 0 (stream es)) s')
        (λ e s'. Sourced e × Beyond f dev_size (d.byte s'))
        (flash_serial h size es raw_size dev_size throttle s)
unfolding flash_serial
flash_serial-Ends h d c size dev_size f raw_size throttle es s pos big p =
    Ends-continue _
      (within-Kept h d _ (set_direct h true) s (λ e. cc) (set_direct-Kept h d true s p))
      (λ _ s₁ q.
        let s₂ = h.emit (progress flash 0 raw_size) s₁ in
        Ends-continue _
          (call-Kept h d _ h.alloc s₂ (λ e. cc) (d.alloc_keeps s₂) (λ i. d.emit_keeps _ s₁ i ∙ q i))
          (λ _ s₃ q'. target_ends s₃ q' (chunk_target_nanos throttle) (target_Sourced throttle))
          unchanged)
      unchanged
  where
    unchanged :
        (e : Error) (s' : h.World)
        → Sourced e × Holds h d f s'
        → Sourced e × Beyond f dev_size (d.byte s')
    unchanged e s' x = (x.0, λ i le. x.1 i)

    target_ends :
        (s₃ : h.World)
        → Holds h d f s₃
        → (r : Result Error (Option ℕ)) → ((e : Error) → r ≡ err e → Sourced e)
        → Ends
            (Flashed h d c size dev_size f raw_size none pos big (stream es) (failure es))
            (Aborted h d c size dev_size f raw_size none pos big)
            (continue
              (λ target. do
                total ←
                    flash_loop h size
                      (dev_size + 1)
                      dev_size
                      raw_size
                      target
                      es
                      (replicate size 0)
                      0
                act (h.emit (progress flash total raw_size))
                flash_finalize h size
                pure total)
              r
              s₃)
    target_ends s₃ q (err e) ne = stop (ne e refl, λ i le. q i)
    target_ends s₃ q (ok target) ne =
        body-Ends h d c size dev_size f raw_size target pos big es s₃ q

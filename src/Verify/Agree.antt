-- ===== src/Verify/Agree.antt =====
-- The compare after the flash, and the length of the wait between them.
use imi.Common.{
  ℕ, zero, suc, ◌+◌, ◌*◌, ◌-◌, ◌^◌, ◌≤◌, ◌<◌, ◌≡◌, ◌∙◌, arith, Bytes, List, Option, some, ◌⊎◌, inl,
  inr, length, get_or,
}
use imi.Error.{Error, cancelled, from_source}
use imi.Events.{progress, cooldown, phase_started, phase_finished, completed}
use imi.Exec.{◌>>=◌}
use imi.Exec.Ends.{Ends, Ends-continue, Ends-mono, Ends-if, done, stop}
use imi.Host.{Host, Read}
use imi.Host.Disk.{Disk, overlay}
use imi.Host.Keep.{Sourced, Holds}
use imi.Cancel.Wait.{Clock}
use imi.Image.{stream}
use imi.Flash.{flash_serial}
use imi.Flash.Correct.{Beyond}
use imi.Flash.Rounds.{overlay-Beyond}
use imi.Flash.Serial.{flash_serial-Ends}
use imi.Verify.{verify_serial, cooling, cooldown_loop}
use imi.Verify.Serial.{verify_serial-Ends}
use imi.Verify.Rounds.{Blames}

overlay-front : (f : ℕ → ℕ) (bs : Bytes) (i : ℕ) → i < length bs → overlay f 0 bs i ≡ get_or bs i 0
overlay-front f bs i lt = ground arith

-- On a device that keeps its bytes, a compare behind the flash never reports a mismatch: what was
-- written and then compared with the same stream either succeeds, and then the device holds the
-- stream and is otherwise as it was, or fails with another of the source's errors and with no byte
-- changed at the device's size or behind it.
pub flash_serial-verify_serial :
    (h : Host) (d : Disk h) (c : Clock h) (size dev_size : ℕ) (f : ℕ → ℕ) (path : Bytes)
    (raw_size throttle : Option ℕ) (es : List Read) (s : h.World)
    → 1 ≤ size
    → dev_size < 2 ^ 64
    → Holds h d f s
    → Ends
        (λ _ s'. Holds h d (overlay f 0 (stream es)) s')
        (λ e s'. Sourced e × Beyond f dev_size (d.byte s'))
        ((flash_serial h size es raw_size dev_size throttle >>= λ total.
            verify_serial h size es path total throttle)
          s)
flash_serial-verify_serial h d c size dev_size f path raw_size throttle es s pos big p =
    Ends-continue _ (flash_serial-Ends h d c size dev_size f raw_size throttle es s pos big p)
      (λ total s' q. compared total s' q.0 q.1 q.3) (λ e s' x. x)
  where
    beyond :
        (total : ℕ) (s' : h.World)
        → total ≡ length (stream es)
        → total ≤ dev_size
        → Holds h d (overlay f 0 (stream es)) s'
        → Beyond f dev_size (d.byte s')
    beyond total s' eq le q i b =
        q i ∙ overlay-Beyond f (stream es) dev_size (omega (arith, eq, le)) i b

    compared :
        (total : ℕ) (s' : h.World)
        → total ≡ length (stream es)
        → total ≤ dev_size
        → Holds h d (overlay f 0 (stream es)) s'
        → Ends
            (λ _ s''. Holds h d (overlay f 0 (stream es)) s'')
            (λ e s''. Sourced e × Beyond f dev_size (d.byte s''))
            (verify_serial h size es path total throttle s')
    compared total s' eq le q =
        Ends-mono
          (verify_serial-Ends h d c size total (overlay f 0 (stream es)) path throttle es s' pos q)
          (λ _ s'' v. v.1) judged
      where
        judged :
            (e : Error) (s'' : h.World)
            → (Sourced e ⊎ Blames (overlay f 0 (stream es)) (stream es) total path e)
              × Holds h d (overlay f 0 (stream es)) s''
            → Sourced e × Beyond f dev_size (d.byte s'')
        judged e s'' (inl x, w) = (x, beyond total s'' eq le w)
        judged e s'' (inr (k, lt, is, differ, rest), w) =
            absurd (differ (overlay-front f (stream es) k (omega (arith, lt, eq))))

module _ (h : Host) (c : Clock h) (seconds : ℕ) where
  open h use {World, emit, load_cancel, sleep}

  cooldown_loop_lem :
      (left : ℕ) (s : World)
      → Ends
          (λ _ s'. c.time s + left * 1_000_000_000 ≤ c.time s')
          (λ (e : Error) _. e.kind ≡ cancelled)
          (cooldown_loop h seconds left s)
  unfolding cooldown_loop from_source
  cooldown_loop_lem zero s =
      let s₁ = emit (progress cooldown seconds (some seconds)) s in
      done (
        omega (
          arith,
          c.emit_time (progress cooldown seconds (some seconds)) s,
          c.emit_time (phase_finished cooldown completed) s₁,
        ))
  cooldown_loop_lem (suc left) s =
      let s₁ = (load_cancel s).1 in
      let s₂ = emit (progress cooldown (seconds - suc left) (some seconds)) s₁ in
      let s₃ = sleep 1_000_000_000 s₂ in
      let later : c.time s + 1_000_000_000 ≤ c.time s₃ = omega (
        arith,
        c.load_time s,
        c.emit_time (progress cooldown (seconds - suc left) (some seconds)) s₁,
        c.sleep_time 1_000_000_000 s₂,
      ) in
      Ends-if (load_cancel s).0 _ _ s₁ (λ _. stop cc)
        (λ _.
          Ends-mono (cooldown_loop_lem left s₃) (λ _ s' q. omega (arith, later, q)) (λ e s' x. x))

  -- The cooldown ends. If it succeeds, at least that many seconds have passed on the clock; it fails
  -- only as a cancellation.
  pub cooling_lem :
      (s : World)
      → Ends
          (λ _ s'. c.time s + seconds * 1_000_000_000 ≤ c.time s')
          (λ (e : Error) _. e.kind ≡ cancelled)
          (cooling h seconds s)
  unfolding cooling
  cooling_lem s =
      let lt = c.emit_time (phase_started cooldown) s in
      Ends-mono (cooldown_loop_lem seconds (emit (phase_started cooldown) s))
        (λ _ s' q. omega (arith, lt, q)) (λ e s' x. x)

-- ===== src/Verify/Serial.antt =====
-- Laws of `verify_serial` of crates/imi-core/src/phases/phase_5.rs as a whole.
use imi.Common.{
  ℕ, ◌≤◌, Bytes, List, [], Option, some, ◌≡◌, refl, ◌∙◌, arith, Result, ok, err, ◌⊎◌, inl,
}
use imi.Error.{Error}
use imi.Events.{progress, verify}
use imi.Exec.{continue}
use imi.Exec.Ends.{Ends, Ends-continue, stop}
use imi.Host.{Host, Read}
use imi.Host.Disk.{Disk}
use imi.Host.Keep.{Sourced, Holds, call-Kept}
use imi.Cancel.Wait.{Clock}
use imi.Flash.Serial.{target_Sourced}
use imi.Config.{chunk_target_nanos}
use imi.Image.{stream}
use imi.Verify.{verify_loop, verify_serial}
use imi.Verify.Rounds.{Matches, Blames, verify_loop_ends}

start-Ends :
    (h : Host) (d : Disk h) (c : Clock h) (size n : ℕ) (f : ℕ → ℕ) (path : Bytes) (es : List Read)
    (s : h.World)
    → 1 ≤ size
    → Holds h d f s
    → (r : Result Error (Option ℕ)) → ((e : Error) → r ≡ err e → Sourced e)
    → Ends
        (λ u s'. Matches f (stream es) n × Holds h d f s')
        (λ e s'. (Sourced e ⊎ Blames f (stream es) n path e) × Holds h d f s')
        (continue (λ target. verify_loop h size n n path target es n 0) r s)
start-Ends h d c size n f path es s pos p (err e) ne = stop (inl (ne e refl), p)
start-Ends h d c size n f path es s pos p (ok target) ne =
    verify_loop_ends h d c size n f path target pos (stream es) n es n 0 [] s (omega arith) record {
      sum = omega arith;
      at_end = refl;
      rest = refl;
      so_far = (omega arith, λ i lt. absurd (omega arith));
      bytes_are = p;
    }

-- On a device that holds `f`, with blocks of any positive size: the compare of the first `n` bytes
-- ends and changes no byte of the device. If it succeeds, the stream has at least `n` bytes and the
-- first `n` of the device are the same. If it fails with a verification mismatch, the error names
-- the first byte that differs, which is one of those `n`; every other error is one of the source's.
pub verify_serial-Ends :
    (h : Host) (d : Disk h) (c : Clock h) (size n : ℕ) (f : ℕ → ℕ) (path : Bytes)
    (throttle : Option ℕ) (es : List Read) (s : h.World)
    → 1 ≤ size
    → Holds h d f s
    → Ends
        (λ _ s'. Matches f (stream es) n × Holds h d f s')
        (λ e s'. (Sourced e ⊎ Blames f (stream es) n path e) × Holds h d f s')
        (verify_serial h size es path n throttle s)
unfolding verify_serial
verify_serial-Ends h d c size n f path throttle es s pos p =
    let s₁ = h.emit (progress verify 0 (some n)) s in
    Ends-continue _
      (call-Kept h d _ h.alloc s₁ (λ e. cc) (d.alloc_keeps s₁) (λ i. d.emit_keeps _ s i ∙ p i))
      (λ _ s₂ q.
        Ends-continue _ (call-Kept h d _ h.alloc s₂ (λ e. cc) (d.alloc_keeps s₂) q)
          (λ _ s₃ q'.
            start-Ends h d c size n f path es s₃ pos q' (chunk_target_nanos throttle)
              (target_Sourced throttle))
          (λ e s' x. (inl x.0, x.1)))
      (λ e s' x. (inl x.0, x.1))

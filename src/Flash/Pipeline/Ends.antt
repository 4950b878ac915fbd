-- ===== src/Flash/Pipeline/Ends.antt =====
-- Laws of `flash_pipelined` of crates/imi-core/src/phases/phase_4.rs as a whole.
use imi.Common.{
  ℕ, zero, suc, ◌+◌, ◌*◌, ◌≤◌, ◌<◌, ◌^◌, Bytes, List, [], Option, none, some, ◌≡◌, refl, sym, ◌∙◌,
  arith, length, true, Result, ok, err, length-replicate,
}
use imi.Error.{Error, IoKind, text}
use imi.Events.{progress, flash as ui_flash}
use imi.Exec.{pure, lift, call, ◌>>=◌, ◌>>◌}
use imi.Exec.Ends.{Ends, Ends-continue, done, stop}
use imi.Cancel.Wait.{Clock}
use imi.Config.{chunk_target_nanos}
use imi.DirectIo.{set_direct}
use imi.Host.{Host, Read}
use imi.Host.Disk.{Disk, overlay}
use imi.Host.Keep.{Sourced, Holds, Kept, set_direct-Kept, within-Kept, call-Kept}
use imi.Image.{stream, failure}
use imi.Flash.Correct.{Beyond}
use imi.Flash.Rounds.{overlay-nil}
use imi.Flash.Serial.{target_Sourced, ended}
use imi.Flash.Pipeline.{
  completed, failed, panicking, Main, State, main_step, worker_step, top, receiving, writing,
  pacing, leaving, dropping, joining, finished,
}
use imi.Flash.Pipeline.Measure.{main_weight}
use imi.Flash.Pipeline.Producer.{After}
use imi.Flash.Pipeline.Safety.{At, Safe}
use imi.Flash.Pipeline.Progress.{Safely, steps_left, Over, choose_safe, blocked, choose-none}
use imi.Flash.Pipeline.Run.{
  Choice, End, returned, unwound, hung, spawned, resume, choose, execute, ending, conclude, set_up,
  threads, flash_pipelined,
}

module _ (h : Host) (d : Disk h) (c : Clock h) (size dev_size : ℕ) (target : Option ℕ) (f : ℕ → ℕ)
    (pos : 1 ≤ size) (big : dev_size < 2 ^ 64) (src : Bytes) (fault : Option IoKind) where
  open h use {World}

  abbrev Finished : State h → Type 0
  Finished st = Over h d c size dev_size target f pos big src fault st st.main st.world

  no_weight :
      (st : State h) (m : Main)
      → At h d c size dev_size target f pos big src fault m st
      → main_weight m ≤ 0
      → Over h d c size dev_size target f pos big src fault st m st.world
  no_weight st (finished x) p le = p
  no_weight st (top offset) p le = absurd (omega (arith, le))
  no_weight st (receiving start offset) p le = absurd (omega (arith, le))
  no_weight st (writing start buf n offset) p le = absurd (omega (arith, le))
  no_weight st (pacing start end) p le = absurd (omega (arith, le))
  no_weight st (leaving x) p le = absurd (omega (arith, le))
  no_weight st (dropping x) p le = absurd (omega (arith, le))
  no_weight st (joining x) p le = absurd (omega (arith, le))

  -- Under every schedule the threads come to the end.
  execute-Finished :
      (fuel budget : ℕ) (schedule : ℕ → Choice) (st : State h)
      → Safely h d c size dev_size target f pos big src fault budget st
      → steps_left h d c size dev_size target f pos big src fault st ≤ fuel
      → Finished (execute h size dev_size target fuel schedule st)
  unfolding execute main_step worker_step
  execute-Finished zero budget schedule st safe le =
      no_weight st st.main safe.at_main (omega (arith, le))
  execute-Finished (suc fuel) budget schedule st safe le =
      go (choose h size dev_size target (schedule 0) st) refl
        (choose_safe h d c size dev_size target f pos big src fault st safe (schedule 0))
        (λ st' p.
          execute-Finished fuel _ (λ i. schedule (suc i)) st' p (omega (arith, p.lighter, le)))
    where
      Next : State h → Type 0
      Next st' =
          Safely h d c size dev_size target f pos big src fault
            (steps_left h d c size dev_size target f pos big src fault st) st'

      stuck : (choose h size dev_size target (schedule 0) st ≡ none) → Finished st
      stuck e =
          let r = choose-none h d c size dev_size target f pos big src fault st (schedule 0) e in
          blocked h d c size dev_size target f pos big src fault st st.main safe.at_main r.0 r.1

      go :
          (o : Option (State h))
          → choose h size dev_size target (schedule 0) st ≡ o
          → After Next o
          → ((st' : State h)
              → Next st'
              → Finished (execute h size dev_size target fuel (λ i. schedule (suc i)) st'))
          → Finished (
              resume h size dev_size target
                (execute h size dev_size target fuel (λ i. schedule (suc i)))
                st
                o)
      go none e p next = stuck e
      go (some st') e p next = next st' p

module _ (h : Host) (d : Disk h) (c : Clock h) (size dev_size : ℕ) (f : ℕ → ℕ) (pos : 1 ≤ size)
    (big : dev_size < 2 ^ 64) (es : List Read) where
  open h use {World}

  -- how the call may end
  abbrev pub Flashes : End × World → Type 0
  Flashes (returned (ok total), s') =
      (total ≡ length (stream es))
      × (total ≤ dev_size)
      × (failure es ≡ none)
      × Holds h d (overlay f 0 (stream es)) s'
  Flashes (returned (err e), s') = Sourced e × Beyond f dev_size (d.byte s')
  Flashes (unwound, s') = Beyond f dev_size (d.byte s')
  Flashes (hung, s') = ⊥

  pub ending-Flashes :
      {r : Result Error ℕ × World}
      → Ends
          (λ total s'. Flashes (returned (ok total), s'))
          (λ e s'. Flashes (returned (err e), s'))
          r
      → Flashes (ending h size r)
  ending-Flashes (done q) = q
  ending-Flashes (stop x) = x

  conclude-Flashes :
      (target : Option ℕ) (st : State h) (m : Main) (s : World)
      → Over h d c size dev_size target f pos big (stream es) (failure es) st m s
      → Flashes (conclude h size m s)
  conclude-Flashes target st (finished (completed total)) s p =
      ending-Flashes
        (ended h d c size dev_size f none target pos big (stream es) (failure es) total s p)
  conclude-Flashes target st (finished (failed e)) s p = p
  conclude-Flashes target st (finished panicking) s p = p
  conclude-Flashes target st (top offset) s p = absurd p
  conclude-Flashes target st (receiving start offset) s p = absurd p
  conclude-Flashes target st (writing start buf n offset) s p = absurd p
  conclude-Flashes target st (pacing start end) s p = absurd p
  conclude-Flashes target st (leaving x) s p = absurd p
  conclude-Flashes target st (dropping x) s p = absurd p
  conclude-Flashes target st (joining x) s p = absurd p

  pub spawned-Safe :
      (target : Option ℕ) (s : World)
      → Holds h d f s
      → Safe h d c size dev_size target f pos big
          (stream es)
          (failure es)
          (14 + 8 * length (stream es))
          (spawned h size es s)
  spawned-Safe target s p = record {
    sized = (length-replicate size 0, (length-replicate size 0, tt));
    owns = tt;
    lighter = omega arith;
    at_main = record {
      written = [];
      rest = stream es;
      on_device = omega arith;
      at_end = refl;
      splits = refl;
      coming = (refl, refl);
      bytes_are = λ i. p i ∙ sym (overlay-nil f i);
      pool = omega arith;
      running = refl;
      receives = refl;
      returns = refl;
    };
  }

  threads_flash :
      (schedule : ℕ → Choice) (target : Option ℕ) (s : World)
      → Holds h d f s
      → Flashes (threads h size schedule es dev_size (ok target) s)
  threads_flash schedule target s p =
      let st =
        execute h size dev_size target (13 + 8 * length (stream es)) schedule
          (spawned h size es s) in
      conclude-Flashes target st st.main st.world (
        execute-Finished h d c size dev_size target f pos big (stream es) (failure es)
          (13 + 8 * length (stream es)) _ schedule (spawned h size es s) (spawned-Safe target s p)
          (omega arith))

  set_up-Kept :
      (throttle : Option ℕ) (s : World) → Holds h d f s → Kept h d f (set_up h size throttle) s
  unfolding set_up
  set_up-Kept throttle s p =
      Ends-continue _
        (within-Kept h d _ (set_direct h true) s (λ e. cc) (set_direct-Kept h d true s p))
        (λ _ s₁ q.
          on_target (h.emit (progress ui_flash 0 none) s₁) (λ i. d.emit_keeps _ s₁ i ∙ q i)
            (chunk_target_nanos throttle) (target_Sourced throttle))
        (λ e s' x. x)
    where
      alloc-Kept :
          (s₂ : World)
          → Holds h d f s₂
          → Kept h d f
              (call (text "allocating the 4 MiB aligned I/O buffer (out of memory)") h.alloc)
              s₂
      alloc-Kept s₂ q = call-Kept h d _ h.alloc s₂ (λ e. cc) (d.alloc_keeps s₂) q

      on_target :
          (s₂ : World)
          → Holds h d f s₂
          → (r : Result Error (Option ℕ)) → ((e : Error) → r ≡ err e → Sourced e)
          → Kept h d f
              (do
                target ← lift r
                call (text "allocating the 4 MiB aligned I/O buffer (out of memory)") h.alloc
                call (text "allocating the 4 MiB aligned I/O buffer (out of memory)") h.alloc
                pure target)
              s₂
      on_target s₂ q (err e) ne = stop (ne e refl, q)
      on_target s₂ q (ok target) ne =
          Ends-continue _ (alloc-Kept s₂ q)
            (λ _ s₃ q'. Ends-continue _ (alloc-Kept s₃ q') (λ _ s₄ q''. done q'') (λ e s₄ x. x))
            (λ e s₃ x. x)

-- From a device that holds `f`, with blocks of any positive size and a size of the device below
-- 2 ^ 64, and whichever thread the scheduler lets run at each step: the call comes to an end. If it
-- returns a total, that is the length of the image's stream and at most the device's size, no read
-- of the stream failed, and the device holds the stream from offset 0 on and `f` everywhere else. If
-- it returns an error, that is one of the source's own and no verification mismatch. If it returns an
-- error or re-raises a panic of the decoder, every byte at the device's size or behind it is as it was.
pub flash_pipelined-Flashes :
    (h : Host) (d : Disk h) (c : Clock h) (size dev_size : ℕ) (f : ℕ → ℕ) (pos : 1 ≤ size)
    (big : dev_size < 2 ^ 64) (es : List Read) (throttle : Option ℕ) (schedule : ℕ → Choice)
    (s : h.World)
    → Holds h d f s
    → Flashes h d c size dev_size f pos big es
        (flash_pipelined h size schedule es dev_size throttle s)
unfolding flash_pipelined
flash_pipelined-Flashes h d c size dev_size f pos big es throttle schedule s p =
    go (set_up-Kept h d c size dev_size f pos big es throttle s p)
  where
    go :
        {r : Result Error (Option ℕ) × h.World}
        → Ends (λ _ s'. Holds h d f s') (λ e s'. Sourced e × Holds h d f s') r
        → Flashes h d c size dev_size f pos big es (threads h size schedule es dev_size r.0 r.1)
    go (done {a = target} {s = s'} q) =
        threads_flash h d c size dev_size f pos big es schedule target s' q
    go (stop x) = (x.0, λ i le. x.1 i)

-- ===== src/Flash/Pipeline/Arms.antt =====
-- Laws of the dispatcher `flash` of crates/imi-core/src/phases/phase_4.rs and of what its arms share.
use imi.Common.{
  ℕ, zero, suc, ◌≤◌, ◌<◌, ◌^◌, Bytes, List, [], Option, none, some, ◌≡◌, ◌≢◌, sym, ap, ◌∙◌, length,
  true, false, Bool, if◌then◌else◌, ◌++◌, ok,
}
use mathlib.Core.Path.{subst}
use imi.Error.{IoKind}
use imi.Events.{Compression, is_compressed}
use imi.Cancel.Wait.{Clock}
use imi.Host.{Host, Read}
use imi.Host.Disk.{Disk, overlay}
use imi.Host.Keep.{Holds}
use imi.Image.{stream, failure}
use imi.Flash.{flash_serial}
use imi.Flash.Serial.{flash_serial-Ends}
use imi.Flash.Pipeline.{exited, receiving, State}
use imi.Flash.Pipeline.Feed.{Promise, settled, in_flight}
use imi.Flash.Pipeline.Producer.{After}
use imi.Flash.Pipeline.Safety.{At}
use imi.Flash.Pipeline.Progress.{Safely, steps_left, choose_safe}
use imi.Flash.Pipeline.Run.{
  Choice, returned, spawned, resume, choose, execute, ending, flash_pipelined, flash,
}
use imi.Flash.Pipeline.Ends.{Flashes, ending-Flashes, spawned-Safe, flash_pipelined-Flashes}

module _ (h : Host) (d : Disk h) (c : Clock h) (size dev_size : ℕ) (f : ℕ → ℕ) (pos : 1 ≤ size)
    (big : dev_size < 2 ^ 64) (es : List Read) (raw_size throttle : Option ℕ) where
  open h use {World}

  pub flash-Flashes :
      (comp : Compression) (schedule : ℕ → Choice) (s : World)
      → Holds h d f s
      → Flashes h d c size dev_size f pos big es
          (flash h size comp schedule es raw_size dev_size throttle s)
  unfolding flash
  flash-Flashes comp schedule s p = go (is_compressed comp)
    where
      go :
          (t : Bool)
          → Flashes h d c size dev_size f pos big es (
              if t
              then flash_pipelined h size schedule es dev_size throttle s
              else ending h size (flash_serial h size es raw_size dev_size throttle s))
      go true = flash_pipelined-Flashes h d c size dev_size f pos big es throttle schedule s p
      go false =
          ending-Flashes h d c size dev_size f pos big es
            (flash_serial-Ends h d c size dev_size f raw_size throttle es s pos big p)

-- The result does not depend on the arm, on the schedule, on the throttle or on the format: if two
-- flashes whose decoders yield the same bytes, from states whose devices hold the same bytes, both
-- return a total, it is the same, and the devices hold the same bytes again.
pub flash-agrees :
    (h : Host) (d : Disk h) (c : Clock h) (size dev_size : ℕ) (f : ℕ → ℕ) (pos : 1 ≤ size)
    (big : dev_size < 2 ^ 64) (comp comp' : Compression) (schedule schedule' : ℕ → Choice)
    (es es' : List Read) (raw_size raw_size' throttle throttle' : Option ℕ) (s s' t t' : h.World)
    (total total' : ℕ)
    → stream es ≡ stream es'
    → Holds h d f s
    → Holds h d f s'
    → flash h size comp schedule es raw_size dev_size throttle s ≡ (returned (ok total), t)
    → flash h size comp' schedule' es' raw_size' dev_size throttle' s' ≡ (returned (ok total'), t')
    → (total ≡ total') × ((i : ℕ) → d.byte t i ≡ d.byte t' i)
flash-agrees h d c size dev_size f pos big comp comp' schedule schedule' es es' raw_size raw_size'
      throttle throttle' s s' t t' total total' e p p' r r' =
    let q =
      subst (λ x. Flashes h d c size dev_size f pos big es x) r
        (flash-Flashes h d c size dev_size f pos big es raw_size throttle comp schedule s p) in
    let q' =
      subst (λ x. Flashes h d c size dev_size f pos big es' x) r'
        (flash-Flashes h d c size dev_size f pos big es' raw_size' throttle' comp' schedule' s'
          p') in
    (q.0 ∙ ap length e ∙ sym q'.0, λ i. q.3 i ∙ ap (λ x. overlay f 0 x i) e ∙ sym (q'.3 i))

module _ (h : Host) (d : Disk h) (c : Clock h) (size dev_size : ℕ) (target : Option ℕ) (f : ℕ → ℕ)
    (pos : 1 ≤ size) (big : dev_size < 2 ^ 64) (src : Bytes) (fault : Option IoKind) where
  execute-Safe :
      (steps budget : ℕ) (schedule : ℕ → Choice) (st : State h)
      → Safely h d c size dev_size target f pos big src fault budget st
      → (budget' : ℕ) × Safely h d c size dev_size target f pos big src fault budget'
          (execute h size dev_size target steps schedule st)
  unfolding execute
  execute-Safe zero budget schedule st safe = (budget, safe)
  execute-Safe (suc steps) budget schedule st safe =
      go (choose h size dev_size target (schedule 0) st)
        (choose_safe h d c size dev_size target f pos big src fault st safe (schedule 0))
        (λ st' p. execute-Safe steps _ (λ i. schedule (suc i)) st' p)
    where
      Next : State h → Type 0
      Next st' =
          Safely h d c size dev_size target f pos big src fault
            (steps_left h d c size dev_size target f pos big src fault st) st'

      Some : State h → Type 0
      Some st' = (budget' : ℕ) × Safely h d c size dev_size target f pos big src fault budget' st'

      go :
          (o : Option (State h))
          → After Next o
          → ((st' : State h)
              → Next st'
              → Some (execute h size dev_size target steps (λ i. schedule (suc i)) st'))
          → Some (
              resume h size dev_size target
                (execute h size dev_size target steps (λ i. schedule (suc i)))
                st
                o)
      go none p next = (budget, safe)
      go (some st') p next = next st' p

  delivered :
      (st : State h) (start : Option ℕ) (offset : ℕ)
      → At h d c size dev_size target f pos big src fault (receiving start offset) st
      → st.filled ≡ []
      → st.worker ≢ exited
  delivered st start offset l n x =
      subst (λ q. Promise size fault exited (q ++ []) l.rest) n
        (subst (λ w. Promise size fault (settled size fault w) (st.filled ++ in_flight w) l.rest) x
          l.coming)

-- The pipeline's protocol is never violated: in a run of any number of steps under any schedule,
-- when the main thread is to receive and the queue is empty, the worker has not exited.
pub flash_pipelined_protocol :
    (h : Host) (d : Disk h) (c : Clock h) (size dev_size : ℕ) (target : Option ℕ) (f : ℕ → ℕ)
    (es : List Read) (steps : ℕ) (schedule : ℕ → Choice) (s : h.World) (start : Option ℕ)
    (offset : ℕ)
    → 1 ≤ size
    → dev_size < 2 ^ 64
    → Holds h d f s
    → let st = execute h size dev_size target steps schedule (spawned h size es s) in
      st.main ≡ receiving start offset → st.filled ≡ [] → st.worker ≢ exited
flash_pipelined_protocol h d c size dev_size target f es steps schedule s start offset pos big p e
      n =
    let st = execute h size dev_size target steps schedule (spawned h size es s) in
    let r =
      execute-Safe h d c size dev_size target f pos big (stream es) (failure es) steps _ schedule
        (spawned h size es s) (spawned-Safe h d c size dev_size f pos big es target s p) in
    delivered h d c size dev_size target f pos big (stream es) (failure es) st start offset
      (subst (λ m. At h d c size dev_size target f pos big (stream es) (failure es) m st) e
        r.1.at_main)
      n

-- ===== src/Flash/Pipeline/Safety.antt =====
-- What holds of the states that `flash_pipelined` of crates/imi-core/src/phases/phase_4.rs reaches.
use imi.Common.{
  ℕ, ◌+◌, ◌*◌, ◌≤◌, ◌<◌, ◌^◌, Bytes, List, [], ◌∷◌, Option, none, ◌≡◌, ◌∙◌, arith, length, Bool,
  false, ok,
}
use imi.Error.{IoKind}
use imi.Cancel.Wait.{Clock}
use imi.Host.{Host}
use imi.Host.Disk.{Disk, overlay}
use imi.Host.Keep.{Holds}
use imi.Flash.Correct.{Beyond}
use imi.Flash.Rounds.{Flashed, Aborted, overlay-Beyond}
use imi.Flash.Pipeline.{
  Item, Exit, completed, failed, panicking, State, Main, top, receiving, writing, pacing, leaving,
  dropping, joining, finished,
}
use imi.Flash.Pipeline.Feed.{Owns}
use imi.Flash.Pipeline.Producer.{After, Sized, Live, Lives}
use imi.Flash.Pipeline.Measure.{main_weight, worker_weight, weight}

module _ (h : Host) (d : Disk h) (c : Clock h) (size dev_size : ℕ) (target : Option ℕ) (f : ℕ → ℕ)
    (pos : 1 ≤ size) (big : dev_size < 2 ^ 64) (src : Bytes) (fault : Option IoKind) where
  open h use {World, emit, load_cancel, now}

  abbrev pub Running : List Item → ℕ → State h → Type 0
  Running = Lives h d size dev_size target f src fault

  -- what holds of the world behind the loop
  abbrev pub Left : Exit → World → Type 0
  Left (completed total) s = Flashed h d c size dev_size f none target pos big src fault total s
  Left (failed e) s = Aborted h d c size dev_size f none target pos big e s
  Left panicking s = Beyond f dev_size (d.byte s)

  pub Left-Beyond : (x : Exit) (s : World) → Left x s → Beyond f dev_size (d.byte s)
  Left-Beyond (completed total) s (e, le, ok_, p) =
      λ i b. p i ∙ overlay-Beyond f src dev_size (omega (arith, e, le)) i b
  Left-Beyond (failed e) s p = p.1
  Left-Beyond panicking s p = p

  -- what holds of the state where the main thread is
  abbrev pub At : Main → State h → Type 0
  At (top offset) st = Running [] offset st
  At (receiving start offset) st = Running [] offset st
  At (writing start buf n offset) st = Running (ok (buf, n) ∷ []) offset st
  At (pacing start end) st = Running [] end st
  At (leaving x) st = Left x st.world
  At (dropping x) st = Left x st.world
  At (joining x) st = Left x st.world × (st.tx_open ≡ false)
  At (finished x) st = Left x st.world

  -- The state is one that the run may reach, with less than `budget` steps to go.
  pub record Safe (budget : ℕ) (st : State h) : Type 0 where
    pub sized : Sized size st.free
    pub owns : Owns size st.worker
    pub lighter : weight h size dev_size target st < budget
    pub at_main : At st.main st

  module _ (st : State h) (sized : Sized size st.free) (owns : Owns size st.worker) where
    -- The main thread leaves the loop, or goes on in another world.
    pub left :
        (x : Exit) (mirror : Bool) (filled : List Item) (s : World) (budget : ℕ)
        → 3 + 4 * length filled + worker_weight size st.worker < budget
        → Left x s
        → Safe budget (record st { main = leaving x; mirror = mirror; filled = filled; world = s })
    left x mirror filled s budget lt p = record {
      sized = sized;
      owns = owns;
      lighter = lt;
      at_main = p;
    }

    pub past :
        {front : List Item} {offset : ℕ} {s : World}
        (l : Live h d size dev_size target f src fault st.worker st.free front offset st)
        → Holds h d (overlay f 0 l.written) s
        → Beyond f dev_size (d.byte s)
    past l p i le =
        p i ∙ overlay-Beyond f l.written dev_size (omega (arith, l.at_end, l.on_device)) i le

    abbrev pub Next : Main → Option (State h) → Type 0
    Next m = After (Safe (main_weight m + 4 * length st.filled + worker_weight size st.worker))

-- ===== src/Flash/Pipeline/Producer.antt =====
-- Laws of the steps of the worker of `flash_pipelined` of crates/imi-core/src/phases/phase_4.rs.
use imi.Common.{
  ℕ, ◌+◌, ◌≤◌, Bytes, List, [], ◌∷◌, ◌++◌, Option, none, some, ◌≡◌, refl, ◌∙◌, arith, length, Bool,
  true, false, ltb, if◌then◌else◌, ok, err, append_assoc, length-append,
}
use mathlib.Core.Path.{subst}
use imi.Error.{IoKind}
use imi.Host.{Host, Read}
use imi.Host.Disk.{Disk, overlay}
use imi.Host.Keep.{Holds}
use imi.Image.Fill.{Fill, fill_buffer}
use imi.Flash.Pipeline.{
  Item, Worker, waiting, holding, filling, sending, exited, panicked, filled_by, after_send, State,
  take_buffer, worker_at, panic_at,
}
use imi.Flash.Pipeline.Feed.{
  in_flight, Owns, settled, Promise, Promise-step, fill_delivers, send_delivers,
}

-- `P` of the state behind the step, if there is a step
abbrev pub After : {S : Type 0} → (S → Type 0) → Option S → Type 0
After P none = Unit
After P (some s) = P s

pub After-true :
    {S : Type 0} (P : S → Type 0) (m n : Option S) (t : Bool)
    → t ≡ true
    → After P m
    → After P (if t then m else n)
After-true P m n true e p = p
After-true P m n false e p = absurd (cc)

-- every buffer of the pool has the size
abbrev pub Sized : ℕ → List Bytes → Type 0
Sized size [] = Unit
Sized size (b ∷ bs) = (length b ≡ size) × Sized size bs

-- a worker that waits is not the last to hold a buffer
abbrev pub Pool : Worker → ℕ → Type 0
Pool (waiting es) n = 1 ≤ n
Pool _ n = Unit

Pool-filled : (got : Fill) (n : ℕ) → Pool (filled_by got) n
Pool-filled (ok x) n = tt
Pool-filled (err k) n = tt

Pool-sent :
    (size : ℕ) (es : List Read) (item : Item) (n : ℕ) → 1 ≤ n → Pool (after_send size es item) n
Pool-sent size es (err e) n le = tt
Pool-sent size es (ok (b, m)) n le = go (ltb m size)
  where
    go : (t : Bool) → Pool (if t then exited else waiting es) n
    go true = tt
    go false = le

module _ (h : Host) (d : Disk h) (size dev_size : ℕ) (target : Option ℕ) (f : ℕ → ℕ) (src : Bytes)
    (fault : Option IoKind) where
  open h use {World}

  -- The main thread is in the loop, behind `offset` bytes; `q` are the filled buffers it may still write.
  pub record Live (w : Worker) (free : List Bytes) (q : List Item) (offset : ℕ) (st : State h)
      : Type 0 where
    pub written : Bytes
    pub rest : Bytes
    pub on_device : offset ≤ dev_size
    pub at_end : offset ≡ length written
    pub splits : src ≡ written ++ rest
    pub coming : Promise size fault (settled size fault w) (q ++ in_flight w) rest
    pub bytes_are : Holds h d (overlay f 0 written) st.world
    pub pool : Pool w (length free + length q)
    pub running : st.mirror ≡ false
    pub receives : st.rx_open ≡ true
    pub returns : st.tx_open ≡ true

  -- the worker has come to `w'`, with `free` and `q` as they are then
  pub moved :
      {w : Worker} {free : List Bytes} {q : List Item} {offset : ℕ} {st : State h}
      (l : Live w free q offset st) (w' : Worker) (free' : List Bytes) (q' : List Item)
      (st' : State h)
      → Holds h d (overlay f 0 l.written) st'.world
      → (st'.mirror ≡ st.mirror) × (st'.rx_open ≡ st.rx_open) × (st'.tx_open ≡ st.tx_open)
      → Promise size fault (settled size fault w') (q' ++ in_flight w') l.rest
      → Pool w' (length free' + length q')
      → Live w' free' q' offset st'
  moved l w' free' q' st' b (m, r, t) p pool = record {
    written = l.written;
    rest = l.rest;
    on_device = l.on_device;
    at_end = l.at_end;
    splits = l.splits;
    coming = p;
    bytes_are = b;
    pool = pool;
    running = m ∙ l.running;
    receives = r ∙ l.receives;
    returns = t ∙ l.returns;
  }

  abbrev pub Lives : List Item → ℕ → State h → Type 0
  Lives front offset st' = Live st'.worker st'.free (front ++ st'.filled) offset st'

  module _ (front : List Item) (offset : ℕ) (st : State h) where
    waiting-Lives :
        (es : List Read) (free : List Bytes)
        → Live (waiting es) free (front ++ st.filled) offset st
        → After (Lives front offset) (take_buffer h size dev_size target es st free)
    waiting-Lives es [] l = rw (l.returns) tt
    waiting-Lives es (b ∷ bs) l =
        moved l (holding es b) bs (front ++ st.filled)
          (record st { worker = holding es b; free = bs }) l.bytes_are (refl, refl, refl)
          (Promise-step size fault (waiting es) (holding es b) (front ++ st.filled) [] l.rest
            (λ e. cc) (λ r p. p) l.coming)
          tt

    holding-Lives :
        (es : List Read) (b : Bytes)
        → Live (holding es b) st.free (front ++ st.filled) offset st
        → (t : Bool) → t ≡ false
        → After
            (Lives front offset)
            (some (record st { worker = if t then exited else filling es b }))
    holding-Lives es b l true e = absurd (cc)
    holding-Lives es b l false e =
        moved l (filling es b) st.free (front ++ st.filled) (record st { worker = filling es b })
          l.bytes_are (refl, refl, refl)
          (Promise-step size fault (holding es b) (filling es b) (front ++ st.filled) [] l.rest
            (λ e. cc) (λ r p. p) l.coming)
          tt

    -- The worker's step delivers what it has to.
    pub worker-Lives :
        (w : Worker)
        → Owns size w
        → Live w st.free (front ++ st.filled) offset st
        → After (Lives front offset) (worker_at h size dev_size target w st)
    worker-Lives (waiting es) o l = waiting-Lives es st.free l
    worker-Lives (holding es b) o l = holding-Lives es b l st.mirror l.running
    worker-Lives (filling es b) o l =
        moved l (filled_by (fill_buffer es b)) st.free (front ++ st.filled)
          (record st { worker = filled_by (fill_buffer es b) }) l.bytes_are (refl, refl, refl)
          (Promise-step size fault (filling es b) _ (front ++ st.filled) _ l.rest (λ e. cc)
            (λ r p. fill_delivers size fault es b r o p) l.coming)
          (Pool-filled (fill_buffer es b) _)
    worker-Lives (sending es item) o l =
        After-true (Lives front offset) _ _ st.rx_open (l.receives) (
          moved l (after_send size es item) st.free (front ++ (st.filled ++ (item ∷ [])))
            (record st { worker = after_send size es item; filled = st.filled ++ (item ∷ []) })
            l.bytes_are (refl, refl, refl)
            (send_delivers size fault es (front ++ (st.filled ++ (item ∷ []))) l.rest item (
              subst (λ t. Promise size fault (after_send size es item) t l.rest)
                (append_assoc front st.filled (item ∷ [])) l.coming))
            (Pool-sent size es item _ (
              omega (
                arith,
                length-append front (st.filled ++ (item ∷ [])),
                length-append st.filled (item ∷ []),
              ))))
    worker-Lives exited o l = tt
    worker-Lives panicked o l = tt

    pub panic-Lives :
        (w : Worker)
        → Live w st.free (front ++ st.filled) offset st
        → After (Lives front offset) (panic_at h size dev_size target w st)
    panic-Lives (waiting es) l = tt
    panic-Lives (holding es b) l = tt
    panic-Lives (filling es b) l =
        moved l panicked st.free (front ++ st.filled) (record st { worker = panicked }) l.bytes_are
          (refl, refl, refl)
          (Promise-step size fault (filling es b) panicked (front ++ st.filled) [] l.rest (λ e. cc)
            (λ r p. tt) l.coming)
          tt
    panic-Lives (sending es item) l = tt
    panic-Lives exited l = tt
    panic-Lives panicked l = tt

-- ===== src/Flash/Pipeline/Measure.antt =====
-- How many steps the threads of `flash_pipelined` of crates/imi-core/src/phases/phase_4.rs can
-- still take, and that every buffer keeps its size.
use imi.Common.{
  ℕ, ◌+◌, ◌*◌, ◌≤◌, ◌<◌, Bytes, List, [], ◌∷◌, ◌++◌, Option, none, some, ◌≡◌, refl, ap, arith,
  length, take, Bool, true, false, ltb, if◌then◌else◌, ok, err, length-append, length-take,
}
use imi.Host.{Host, Read}
use imi.Image.{stream, failure}
use imi.Image.Fill.{Fill, FillSpec, fill_buffer, fill_buffer_lem}
use imi.Flash.Pipeline.{
  Item, Worker, waiting, holding, filling, sending, exited, panicked, filled_by, after_send, State,
  take_buffer, worker_at, panic_at, Main, top, receiving, writing, pacing, leaving, dropping,
  joining, finished,
}
use imi.Flash.Pipeline.Feed.{Owns}
use imi.Flash.Pipeline.Producer.{After, Sized}

-- the steps that a worker in its loop can still make, with those the main thread makes of its items
abbrev pub loop_weight : Worker → ℕ
loop_weight (waiting es) = 8 * (length (stream es) + 1)
loop_weight (holding es b) = 8 * length (stream es) + 7
loop_weight (filling es b) = 8 * length (stream es) + 6
loop_weight _ = 0

abbrev pub worker_weight : ℕ → Worker → ℕ
worker_weight size (sending es item) = 5 + loop_weight (after_send size es item)
worker_weight size w = loop_weight w

abbrev pub main_weight : Main → ℕ
main_weight (writing start buf n offset) = 7
main_weight (pacing start end) = 6
main_weight (top offset) = 5
main_weight (receiving start offset) = 4
main_weight (leaving x) = 3
main_weight (dropping x) = 2
main_weight (joining x) = 1
main_weight (finished x) = 0

pub sent_weight :
    (size : ℕ) (es : List Read) (item : Item)
    → worker_weight size (after_send size es item) ≡ loop_weight (after_send size es item)
sent_weight size es (err e) = refl
sent_weight size es (ok (b, n)) = go (ltb n size)
  where
    go :
        (t : Bool)
        → worker_weight size (if t then exited else waiting es)
          ≡ loop_weight (if t then exited else waiting es)
    go true = refl
    go false = refl

Owns-sent : (size : ℕ) (es : List Read) (item : Item) → Owns size (after_send size es item)
Owns-sent size es (err e) = tt
Owns-sent size es (ok (b, n)) = go (ltb n size)
  where
    go : (t : Bool) → Owns size (if t then exited else waiting es)
    go true = tt
    go false = tt

Owns-filled : (size : ℕ) (got : Fill) → Owns size (filled_by got)
Owns-filled size (ok x) = tt
Owns-filled size (err k) = tt

-- a fill that is not the last consumes a block of the stream
filled_weight :
    (size : ℕ) (es : List Read) (b : Bytes) (got : Fill)
    → 1 ≤ size
    → length b ≡ size
    → FillSpec b (stream es) (failure es) got
    → worker_weight size (filled_by got) < 8 * length (stream es) + 6
filled_weight size es b (err k) pos l x = omega arith
filled_weight size es b (ok (n, buf, es')) pos l x = go (ltb n size) refl
  where
    go :
        (t : Bool)
        → ltb n size ≡ t
        → 5 + loop_weight (if t then exited else waiting es') < 8 * length (stream es) + 6
    go true e = omega arith
    go false e =
        let full : n ≡ length b = ground (arith, x.fits, l) in
        omega (
          arith,
          full,
          l,
          pos,
          x.size,
          ap length (x.full full).0,
          length-append (take n buf) (stream es'),
          length-take n buf,
        )

module _ (h : Host) (size dev_size : ℕ) (target : Option ℕ) where
  abbrev pub weight : State h → ℕ
  weight st = main_weight st.main + 4 * length st.filled + worker_weight size st.worker

  -- what a step of the worker leaves alone, and what it decreases
  pub record Moved (weight_before : ℕ) (st st' : State h) : Type 0 where
    pub sized : Sized size st'.free
    pub owns : Owns size st'.worker
    pub lighter : 4 * length st'.filled + worker_weight size st'.worker < weight_before
    pub main_same : st'.main ≡ st.main
    pub world_same : st'.world ≡ st.world
    pub tx_same : st'.tx_open ≡ st.tx_open

  waiting_moves :
      (es : List Read) (st : State h) (free : List Bytes)
      → Sized size st.free
      → Sized size free
      → After
          (Moved (4 * length st.filled + worker_weight size (waiting es)) st)
          (take_buffer h size dev_size target es st free)
  waiting_moves es st [] s o = go st.tx_open
    where
      go :
          (t : Bool)
          → After
              (Moved (4 * length st.filled + worker_weight size (waiting es)) st)
              (if t then none else some (record st { worker = exited }))
      go true = tt
      go false = record {
        sized = s;
        owns = tt;
        lighter = omega arith;
        main_same = refl;
        world_same = refl;
        tx_same = refl;
      }
  waiting_moves es st (b ∷ bs) s o = record {
    sized = o.1;
    owns = o.0;
    lighter = omega arith;
    main_same = refl;
    world_same = refl;
    tx_same = refl;
  }

  pub worker_moves :
      (w : Worker) (st : State h)
      → 1 ≤ size
      → Sized size st.free
      → Owns size w
      → After
          (Moved (4 * length st.filled + worker_weight size w) st)
          (worker_at h size dev_size target w st)
  worker_moves (waiting es) st pos s o = waiting_moves es st st.free s s
  worker_moves (holding es b) st pos s o = go st.mirror
    where
      go :
          (t : Bool)
          → Moved
              (4 * length st.filled + worker_weight size (holding es b))
              st
              (record st { worker = if t then exited else filling es b })
      go true = record {
        sized = s;
        owns = tt;
        lighter = omega arith;
        main_same = refl;
        world_same = refl;
        tx_same = refl;
      }
      go false = record {
        sized = s;
        owns = o;
        lighter = omega arith;
        main_same = refl;
        world_same = refl;
        tx_same = refl;
      }
  worker_moves (filling es b) st pos s o = record {
    sized = s;
    owns = Owns-filled size (fill_buffer es b);
    lighter =
        omega (arith, filled_weight size es b (fill_buffer es b) pos o (fill_buffer_lem es b));
    main_same = refl;
    world_same = refl;
    tx_same = refl;
  }
  worker_moves (sending es item) st pos s o = go st.rx_open
    where
      go :
          (t : Bool)
          → After (Moved (4 * length st.filled + worker_weight size (sending es item)) st) (
              if t
              then some (record st {
                worker = after_send size es item;
                filled = st.filled ++ (item ∷ []);
              })
              else some (record st { worker = exited }))
      go true = record {
        sized = s;
        owns = Owns-sent size es item;
        lighter = omega (arith, sent_weight size es item, length-append st.filled (item ∷ []));
        main_same = refl;
        world_same = refl;
        tx_same = refl;
      }
      go false = record {
        sized = s;
        owns = tt;
        lighter = omega arith;
        main_same = refl;
        world_same = refl;
        tx_same = refl;
      }
  worker_moves exited st pos s o = tt
  worker_moves panicked st pos s o = tt

  pub panic_moves :
      (w : Worker) (st : State h)
      → Sized size st.free
      → After
          (Moved (4 * length st.filled + worker_weight size w) st)
          (panic_at h size dev_size target w st)
  panic_moves (filling es b) st s = record {
    sized = s;
    owns = tt;
    lighter = omega arith;
    main_same = refl;
    world_same = refl;
    tx_same = refl;
  }
  panic_moves (waiting es) st s = tt
  panic_moves (holding es b) st s = tt
  panic_moves (sending es item) st s = tt
  panic_moves exited st s = tt
  panic_moves panicked st s = tt

-- ===== src/Flash/Pipeline/Feed.antt =====
-- What the main thread of `flash_pipelined` of crates/imi-core/src/phases/phase_4.rs may still
-- receive: the queue of filled buffers and what the worker sends behind it.
use imi.Common.{
  ℕ, ◌≤◌, ◌<◌, Bytes, List, [], ◌∷◌, ◌++◌, Option, none, ◌≡◌, ◌⊎◌, inl, inr, refl, sym, arith,
  length, take, Bool, true, false, ◌∙◌, ltb, if◌then◌else◌, ok, err, append-nil,
}
use mathlib.Core.Path.{subst}
use imi.Error.{IoKind, text, from_source, add_context, layer}
use imi.Host.{Read}
use imi.Host.Keep.{Sourced, io-Sourced}
use imi.Image.{stream, failure}
use imi.Image.Fill.{Fill, FillSpec, fill_buffer, fill_buffer_lem}
use imi.Flash.Pipeline.{
  Item, Worker, waiting, holding, filling, sending, exited, panicked, filled_by, after_send,
}

-- the item that is on its way, and where the worker is behind it
abbrev pub in_flight : Worker → List Item
in_flight (sending es item) = item ∷ []
in_flight _ = []

-- the buffer that the worker owns
abbrev pub Owns : ℕ → Worker → Type 0
Owns size (holding es b) = length b ≡ size
Owns size (filling es b) = length b ≡ size
Owns size _ = Unit

module _ (size : ℕ) (fault : Option IoKind) where
  abbrev pub settled : Worker → Worker
  settled (sending es item) = after_send size es item
  settled w = w

  -- `rest` is what the worker has still to send
  abbrev pub Produces : Worker → Bytes → Type 0
  Produces (waiting es) rest = (rest ≡ stream es) × (fault ≡ failure es)
  Produces (holding es b) rest = (rest ≡ stream es) × (fault ≡ failure es)
  Produces (filling es b) rest = (rest ≡ stream es) × (fault ≡ failure es)
  Produces (sending es item) rest = ⊥
  Produces exited rest = ⊥
  Produces panicked rest = Unit

  -- nothing comes behind the item
  abbrev pub Last : List Item → Worker → Type 0
  Last q w = (q ≡ []) × (w ≡ exited)

  -- the queue `q` and then the worker `w` deliver `rest`, an error, or a panic
  abbrev pub Promise : Worker → List Item → Bytes → Type 0
  Promise w [] rest = Produces w rest
  Promise w (ok (b, n) ∷ q) rest =
      (length b ≡ size)
      × (n ≤ size)
      × (((n ≡ size) × (rest' : Bytes) × (rest ≡ take n b ++ rest') × Promise w q rest')
          ⊎ ((n < size) × (rest ≡ take n b) × (fault ≡ none) × Last q w))
  Promise w (err e ∷ q) rest = Sourced e × Last q w

  -- a worker that has not exited may be replaced by items and a worker that deliver the same
  pub Promise-extend :
      (w w' : Worker) (q q' : List Item) (rest : Bytes)
      → (w ≡ exited → ⊥)
      → ((r : Bytes) → Produces w r → Promise w' q' r)
      → Promise w q rest
      → Promise w' (q ++ q') rest
  Promise-extend w w' [] q' rest ne f p = f rest p
  Promise-extend w w' (ok (b, n) ∷ q) q' rest ne f (l, le, inl (e, r, s, p)) =
      (l, le, inl (e, r, s, Promise-extend w w' q q' r ne f p))
  Promise-extend w w' (ok (b, n) ∷ q) q' rest ne f (l, le, inr (lt, s, x, last)) =
      absurd (ne last.1)
  Promise-extend w w' (err e ∷ q) q' rest ne f p = absurd (ne p.1.1)

  -- the same for a queue with nothing in flight
  pub Promise-step :
      (w w' : Worker) (q q' : List Item) (rest : Bytes)
      → (w ≡ exited → ⊥)
      → ((r : Bytes) → Produces w r → Promise w' q' r)
      → Promise w (q ++ []) rest
      → Promise w' (q ++ q') rest
  Promise-step w w' q q' rest ne f p =
      Promise-extend w w' q q' rest ne f (subst (λ t. Promise w t rest) (append-nil q) p)

  filled_delivers :
      (es : List Read) (b : Bytes) (got : Fill) (rest : Bytes)
      → length b ≡ size
      → FillSpec b (stream es) (failure es) got
      → (rest ≡ stream es) × (fault ≡ failure es)
      → Promise (settled (filled_by got)) (in_flight (filled_by got)) rest
  unfolding layer
  filled_delivers es b (ok (n, buf, es')) rest l x p =
      (x.size ∙ l, omega (arith, x.fits, l), go (ltb n size) refl)
    where
      go :
          (t : Bool)
          → ltb n size ≡ t
          → ((n ≡ size)
              × (rest' : Bytes) × (rest ≡ take n buf ++ rest')
              × Produces (if t then exited else waiting es') rest')
            ⊎ ((n < size)
                × (rest ≡ take n buf)
                × (fault ≡ none)
                × Last [] (if t then exited else waiting es'))
      go true t =
          let lt : n < size = ground arith in
          let ended = x.short (subst (λ m. n < m) (sym l) lt) in
          inr (lt, p.0 ∙ ended.0, p.1 ∙ ended.1, (refl, refl))
      go false t =
          let e : n ≡ size = ground (arith, x.fits, l) in
          let now_full = x.full (e ∙ sym l) in
          inl (e, stream es', p.0 ∙ now_full.0, (refl, p.1 ∙ now_full.1))
  filled_delivers es b (err k) rest l x p =
      unfold add_context from_source in
      (io-Sourced (text "reading from image stream") k (λ y. cc), (refl, refl))

  -- A fill delivers what the stream holds.
  pub fill_delivers :
      (es : List Read) (b : Bytes) (rest : Bytes)
      → length b ≡ size
      → Produces (filling es b) rest
      → Promise
          (settled (filled_by (fill_buffer es b)))
          (in_flight (filled_by (fill_buffer es b)))
          rest
  fill_delivers es b rest l p =
      filled_delivers es b (fill_buffer es b) rest l (fill_buffer_lem es b) p

  module _ (es : List Read) (q : List Item) (rest : Bytes) where
    sent_as :
        (t : Bool)
        → Promise (if t then exited else waiting es) q rest
        → Promise
            (settled (if t then exited else waiting es))
            (q ++ in_flight (if t then exited else waiting es))
            rest
    sent_as true p = rw (append-nil q) p
    sent_as false p = rw (append-nil q) p

    -- A send leaves what is delivered as it is.
    pub send_delivers :
        (item : Item)
        → Promise (after_send size es item) q rest
        → Promise
            (settled (after_send size es item))
            (q ++ in_flight (after_send size es item))
            rest
    send_delivers (ok (b, n)) p = sent_as (ltb n size) p
    send_delivers (err e) p = rw (append-nil q) p

-- ===== src/Flash/Rounds.antt =====
-- Laws of the rounds of the write loop of crates/imi-core/src/phases/phase_4.rs.
use imi.Common.{
  ℕ, zero, suc, ◌+◌, ◌-◌, ◌≤◌, ◌<◌, ◌^◌, Bytes, List, [], ◌++◌, Option, none, ◌≡◌, sym, ap, ◌∙◌,
  arith, length, take, ok, err, append_assoc, length-append, length-take,
}
use mathlib.Core.Path.{subst}
use imi.Error.{Error, IoKind, text, from_source, context_io}
use imi.Events.{progress, flash}
use imi.Exec.{Exec, continue}
use imi.Exec.Ends.{Ends, Ends-continue, Ends-if, done, stop}
use imi.Host.{Host, Read}
use imi.Host.Disk.{Disk, overlay, overlay-append}
use imi.Host.Keep.{io-Sourced, Sourced, Holds, start_clock-Kept, pace-Kept}
use imi.Cancel.Wait.{Clock}
use imi.Image.{stream, failure}
use imi.Image.Fill.{Fill, Filled, FillSpec, fill_buffer, fill_buffer_lem}
use imi.Flash.Chunk.{ChunkOutcome, more, final}
use imi.Flash.Correct.{Beyond, ChunkDone, process_chunk_ends}
use imi.Flash.{on_outcome, on_filled, flash_round, flash_loop}

pub overlay-nil : (f : ℕ → ℕ) (i : ℕ) → overlay f 0 [] i ≡ f i
overlay-nil f i = ground arith

pub overlay-Beyond : (f : ℕ → ℕ) (bs : Bytes) (n : ℕ) → length bs ≤ n → Beyond f n (overlay f 0 bs)
overlay-Beyond f bs n h i le = ground arith

module _ (h : Host) (d : Disk h) (c : Clock h) (size dev_size : ℕ) (f : ℕ → ℕ)
    (raw_size target : Option ℕ) (pos : 1 ≤ size) (big : dev_size < 2 ^ 64) where
  open h use {World, emit, load_cancel, alloc, fdatasync}

  -- all of `src` on the device and nothing else changed; or an error, and nothing behind the end
  abbrev pub Flashed : Bytes → Option IoKind → ℕ → World → Type 0
  Flashed src fault total s' =
      (total ≡ length src) × (total ≤ dev_size) × (fault ≡ none) × Holds h d (overlay f 0 src) s'

  abbrev pub Aborted : Error → World → Type 0
  Aborted e s' = Sourced e × Beyond f dev_size (d.byte s')

  -- a chunk behind what is written
  pub appended :
      (written chunk : Bytes) (offset : ℕ) (s' : World)
      → offset ≡ length written
      → Holds h d (overlay (overlay f 0 written) offset chunk) s'
      → Holds h d (overlay f 0 (written ++ chunk)) s'
  appended written chunk offset s' e p i =
      subst (λ o. Holds h d (overlay (overlay f 0 written) o chunk) s') e p i
      ∙ overlay-append f written chunk i

  -- the last chunk is behind what is written
  pub appended_last :
      (src : Bytes) (fault : Option IoKind) (n : ℕ) (buf written : Bytes) (offset : ℕ) (s' : World)
      → n ≤ length buf
      → offset ≡ length written
      → src ≡ written ++ take n buf
      → fault ≡ none
      → offset + n ≤ dev_size
      → Holds h d (overlay (overlay f 0 written) offset (take n buf)) s'
      → Flashed src fault (offset + n) s'
  appended_last src fault n buf written offset s' fits e src_is ok_ le p = (
    omega (arith, e, fits, ap length src_is, length-append written (take n buf), length-take n buf),
    le,
    ok_,
    λ i. appended written (take n buf) offset s' e p i ∙ ap (λ t. overlay f 0 t i) (sym src_is),
  )

  -- the loop is about to read the next chunk, with `written` on the device
  pub record Ready (src : Bytes) (fault : Option IoKind) (es : List Read) (buf : Bytes) (offset : ℕ)
      (written : Bytes) (s : World) : Type 0 where
    pub on_device : offset ≤ dev_size
    pub at_end : offset ≡ length written
    pub buffer : length buf ≡ size
    pub rest : src ≡ written ++ stream es
    pub ending : fault ≡ failure es
    pub bytes_are : Holds h d (overlay f 0 written) s

  module _ (src : Bytes) (fault : Option IoKind) where
    Ready-at :
        {es : List Read} {buf : Bytes} {offset : ℕ} {written : Bytes} {s s' : World}
        → Ready src fault es buf offset written s
        → Holds h d (overlay f 0 written) s'
        → Ready src fault es buf offset written s'
    Ready-at r q = record {
      on_device = r.on_device;
      at_end = r.at_end;
      buffer = r.buffer;
      rest = r.rest;
      ending = r.ending;
      bytes_are = q;
    }

    behind :
        {es : List Read} {buf : Bytes} {offset : ℕ} {written : Bytes} {s : World}
        → Ready src fault es buf offset written s
        → Beyond f dev_size (overlay f 0 written)
    behind {written = written} r =
        overlay-Beyond f written dev_size (omega (arith, r.at_end, r.on_device))

    Ready-more :
        {es es' : List Read} {buf : Bytes} {offset : ℕ} {s s' : World} (n : ℕ)
        (buf' written : Bytes)
        → Ready src fault es buf offset written s
        → Filled buf (stream es) (failure es) n buf' es'
        → n ≡ size
        → offset + n ≤ dev_size
        → Holds h d (overlay (overlay f 0 written) offset (take n buf')) s'
        → Ready src fault es' buf' (offset + n) (written ++ take n buf') s'
    Ready-more {es' = es'} {s' = s'} n buf' written r x e le p =
        let now_full = x.full (e ∙ sym r.buffer) in
        record {
          on_device = le;
          at_end = omega (
            arith,
            r.at_end,
            length-append written (take n buf'),
            length-take n buf',
            x.size,
            r.buffer,
          );
          buffer = x.size ∙ r.buffer;
          rest =
              r.rest
              ∙ ap (λ t. written ++ t) now_full.0
              ∙ sym (append_assoc written (take n buf') (stream es'));
          ending = r.ending ∙ now_full.1;
          bytes_are = appended written (take n buf') _ s' r.at_end p;
        }

    finish :
        {es es' : List Read} {buf : Bytes} {offset : ℕ} {s s' : World} (n : ℕ)
        (buf' written : Bytes)
        → Ready src fault es buf offset written s
        → Filled buf (stream es) (failure es) n buf' es'
        → n < size
        → offset + n ≤ dev_size
        → Holds h d (overlay (overlay f 0 written) offset (take n buf')) s'
        → Flashed src fault (offset + n) s'
    finish {s' = s'} n buf' written r x lt le p =
        let ended = x.short (subst (λ t. n < t) (sym r.buffer) lt) in
        appended_last src fault n buf' written _ s' (omega (arith, x.size, r.buffer)) r.at_end
          (r.rest ∙ ap (λ t. written ++ t) ended.0) (r.ending ∙ ended.1) le p

    -- what the rest of the loop has to do for a round to be right
    abbrev pub Continues : ℕ → (List Read → Bytes → ℕ → Exec World ℕ) → Type 0
    Continues fuel next =
        (es : List Read) (buf : Bytes) (offset : ℕ) (written : Bytes) (s : World)
        → dev_size - offset < fuel
        → Ready src fault es buf offset written s
        → Ends (Flashed src fault) Aborted (next es buf offset s)

    module _ (fuel : ℕ) (next : List Read → Bytes → ℕ → Exec World ℕ)
        (ih : Continues fuel next) where
      more-Ends :
          (es : List Read) (buf : Bytes) (start : Option ℕ) (end : ℕ) (written : Bytes) (s : World)
          → dev_size - end < fuel
          → Ready src fault es buf end written s
          → Ends
              (Flashed src fault)
              Aborted
              (on_outcome h size raw_size target start (next es buf) (more end) s)
      more-Ends es buf start end written s lt r =
          let s₁ = emit (progress flash end raw_size) s in
          Ends-continue _
            (pace-Kept h d c target start s₁ (λ i. d.emit_keeps _ s i ∙ r.bytes_are i))
            (λ _ s₂ q. ih es buf end written s₂ lt (Ready-at r q))
            (λ e s₂ x. (x.0, λ i le. x.1 i ∙ behind r i le))

      Filled-Ends :
          (es : List Read) (buf : Bytes) (start : Option ℕ) (offset : ℕ) (written : Bytes)
          (s : World) (n : ℕ) (buf' : Bytes) (es' : List Read)
          → dev_size - offset < suc fuel
          → Ready src fault es buf offset written s
          → Filled buf (stream es) (failure es) n buf' es'
          → Ends
              (Flashed src fault)
              Aborted
              (on_filled h size dev_size raw_size target start next offset (n, buf', es') s)
      Filled-Ends es buf start offset written s n buf' es' lt r x =
          Ends-continue _
            (process_chunk_ends h d size (overlay f 0 written) buf' n offset dev_size
              (x.size ∙ r.buffer) (omega (arith, x.fits, r.buffer)) s r.on_device big pos
              r.bytes_are)
            go (λ e s' y. (y.0, λ i le. y.1 i le ∙ behind r i le))
        where
          go :
              (o : ChunkOutcome) (s' : World)
              → ChunkDone h d size (overlay f 0 written) buf' n offset dev_size o s'
              → Ends
                  (Flashed src fault)
                  Aborted
                  (on_outcome h size raw_size target start (next es' buf') o s')
          go (final end) s' (short, e, le, p) = done (
              subst (λ t. Flashed src fault t s') (sym e)
                (finish n buf' written r x short (omega arith) p))
          go (more end) s' (eq, e, le, p) =
              more-Ends es' buf' start end (written ++ take n buf') s' (omega arith) (
                subst (λ t. Ready src fault es' buf' t (written ++ take n buf') s') (sym e)
                  (Ready-more n buf' written r x eq (omega arith) p))

      round-Ends :
          (es : List Read) (buf : Bytes) (offset : ℕ) (written : Bytes) (s : World)
          → dev_size - offset < suc fuel
          → Ready src fault es buf offset written s
          → Ends
              (Flashed src fault)
              Aborted
              (flash_round h size dev_size raw_size target next es buf offset s)
      unfolding flash_round from_source
      round-Ends es buf offset written s lt r =
          let p : Holds h d (overlay f 0 written) (load_cancel s).1 =
            λ i. d.load_keeps s i ∙ r.bytes_are i in
          Ends-if (load_cancel s).0 _ _ _
            (λ _. stop (((λ x. cc), λ x. cc), λ i le. p i ∙ behind r i le))
            (λ _.
              Ends-continue _ (start_clock-Kept h d c target (load_cancel s).1 p)
                (λ start s₂ q.
                  go start s₂ (Ready-at r q) (fill_buffer es buf) (fill_buffer_lem es buf))
                (λ e s₂ x. (x.0, λ i le. x.1 i ∙ behind r i le)))
        where
          go :
              (start : Option ℕ) (s₂ : World)
              → Ready src fault es buf offset written s₂
              → (got : Fill) → FillSpec buf (stream es) (failure es) got
              → Ends (Flashed src fault) Aborted (
                  continue
                    (on_filled h size dev_size raw_size target start next offset)
                    (context_io (text "reading from image stream") got)
                    s₂)
          go start s₂ r' (ok (n, buf', es')) x =
              unfold context_io in Filled-Ends es buf start offset written s₂ n buf' es' lt r' x
          go start s₂ r' (err k) x =
              unfold context_io in
              stop (
                io-Sourced (text "reading from image stream") k (λ y. cc),
                λ i le. r'.bytes_are i ∙ behind r' i le,
              )

    pub flash_loop_ends :
        (fuel : ℕ) → Continues fuel (flash_loop h size fuel dev_size raw_size target)
    unfolding flash_loop
    flash_loop_ends zero es buf offset written s lt r = absurd (omega arith)
    flash_loop_ends (suc fuel) es buf offset written s lt r =
        round-Ends fuel (flash_loop h size fuel dev_size raw_size target) (flash_loop_ends fuel) es
          buf offset written s lt r

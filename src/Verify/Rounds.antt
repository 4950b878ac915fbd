-- ===== src/Verify/Rounds.antt =====
-- Laws of the rounds of the compare loop of crates/imi-core/src/phases/phase_5.rs.
use imi.Common.{
  ℕ, zero, suc, ◌+◌, ◌-◌, ◌≤◌, ◌<◌, ◌==◌, min, Bytes, List, [], ◌∷◌, ◌++◌, Option, some, ◌≡◌, ◌≢◌,
  sym, ap, ◌∙◌, arith, length, get_or, Result, ok, err, ◌⊎◌, inl, inr, append_assoc, length-append,
  get_or-append_left, get_or-append_right,
}
use mathlib.Core.Path.{subst}
use imi.Error.{Error, say, kind_of, mismatch, from_source, layer, context_io}
use imi.Events.{progress, verify}
use imi.Pace.{pace}
use imi.Exec.{Exec, call, continue, act, ◌>>◌}
use imi.Exec.Ends.{Ends, Ends-continue, Ends-if, Ends-mono, Ends-call, done, stop}
use imi.Host.{Host, Read}
use imi.Host.Disk.{Disk}
use imi.Host.Keep.{io-Sourced, Sourced, Holds, start_clock-Kept, pace-Kept}
use imi.Cancel.Wait.{Clock}
use imi.Image.{stream, failure}
use imi.Image.Exact.{Exact, ExactSpec, fill_exact, fill_exact_lem}
use imi.Verify.Compare.{CompareSpec, compare_chunk, compare_chunk_lem}
use imi.Verify.{on_chunk, verify_round, verify_loop}

-- the first `n` bytes of the device are those of the stream
abbrev pub Matches : (ℕ → ℕ) → Bytes → ℕ → Type 0
Matches f src n = (n ≤ length src) × ((i : ℕ) → i < n → f i ≡ get_or src i 0)

-- `e` is the mismatch at the first byte that differs
abbrev pub Blames : (ℕ → ℕ) → Bytes → ℕ → Bytes → Error → Type 0
Blames f src n path e =
    (k : ℕ) × (k < n)
    × (e ≡ from_source (mismatch k path))
    × (f k ≢ get_or src k 0)
    × Matches f src k

get_behind :
    (seen more rest : Bytes) (n i : ℕ)
    → n ≡ length seen
    → n ≤ i
    → i - n < length more
    → get_or (seen ++ (more ++ rest)) i 0 ≡ get_or more (i - n) 0
get_behind seen more rest n i e le lt =
    get_or-append_right seen (more ++ rest) i (i - n) 0 (omega arith)
    ∙ get_or-append_left more rest (i - n) 0 lt

Matches-more :
    (f : ℕ → ℕ) (seen more rest : Bytes) (n m : ℕ)
    → n ≡ length seen
    → m ≤ length more
    → Matches f (seen ++ (more ++ rest)) n
    → ((i : ℕ) → i < m → f (n + i) ≡ get_or more i 0)
    → Matches f (seen ++ (more ++ rest)) (n + m)
Matches-more f seen more rest n m e e' h g = (
  omega (arith, e, e', length-append seen (more ++ rest), length-append more rest),
  λ i lt. ground (arith, h.1 i, g (i - n), get_behind seen more rest n i e),
)

module _ (h : Host) (d : Disk h) (c : Clock h) (size total : ℕ) (f : ℕ → ℕ) (path : Bytes)
    (target : Option ℕ) (pos : 1 ≤ size) (src : Bytes) where
  open h use {World, emit, load_cancel, read_exact_at}

  abbrev pub Verified : Unit {0} → World → Type 0
  Verified u s' = Matches f src total × Holds h d f s'

  abbrev pub Refuted : Error → World → Type 0
  Refuted e s' = (Sourced e ⊎ Blames f src total path e) × Holds h d f s'

  -- the loop is about to compare the next chunk, with `seen` compared
  pub record Ahead (es : List Read) (remaining offset : ℕ) (seen : Bytes) (s : World) : Type 0 where
    pub sum : offset + remaining ≡ total
    pub at_end : offset ≡ length seen
    pub rest : src ≡ seen ++ stream es
    pub so_far : Matches f src offset
    pub bytes_are : Holds h d f s

  finished :
      (es : List Read) (remaining offset : ℕ) (seen : Bytes) (s : World)
      → remaining ≡ 0
      → Ahead es remaining offset seen s
      → Verified tt s
  finished es remaining offset seen s z r =
      (subst (λ n. Matches f src n) (omega (arith, r.sum)) r.so_far, r.bytes_are)

  abbrev pub Continues : ℕ → (List Read → ℕ → ℕ → Exec World (Unit {0})) → Type 0
  Continues fuel next =
      (es : List Read) (remaining offset : ℕ) (seen : Bytes) (s : World)
      → remaining ≤ fuel
      → Ahead es remaining offset seen s
      → Ends Verified Refuted (next es remaining offset s)

  module _ (fuel : ℕ) (next : List Read → ℕ → ℕ → Exec World (Unit {0}))
      (ih : Continues fuel next) where
    chunk-Ends :
        (es es' : List Read) (remaining offset : ℕ) (seen : Bytes) (start : Option ℕ) (s : World)
        (dev img : Bytes)
        → remaining ≤ suc fuel
        → 1 ≤ remaining
        → Ahead es remaining offset seen s
        → let chunk = min remaining size in
          (length dev ≡ chunk) × ((i : ℕ) → i < chunk → get_or dev i 0 ≡ f (offset + i))
          → ExactSpec chunk (stream es) (failure es) (ok (img, es'))
          → Ends Verified Refuted
              (on_chunk h size total path target start next remaining offset chunk dev (img, es') s)
    chunk-Ends es es' remaining offset seen start s dev img le one r x y =
        go (compare_chunk dev img offset path)
          (compare_chunk_lem dev img offset path (x.0 ∙ sym y.1))
      where
        chunk : ℕ
        chunk = min remaining size

        src_is : src ≡ seen ++ (img ++ stream es')
        src_is = r.rest ∙ ap (λ t. seen ++ t) y.0

        further :
            (m : ℕ)
            → m ≤ min remaining size
            → ((i : ℕ) → i < m → get_or dev i 0 ≡ get_or img i 0)
            → Matches f src (offset + m)
        further m lem same =
            subst (λ z. Matches f z (offset + m)) (sym src_is)
              (Matches-more f seen img (stream es') offset m r.at_end (omega (arith, y.1))
                (subst (λ z. Matches f z offset) src_is r.so_far)
                (λ i lt. sym (x.1 i (omega arith)) ∙ same i lt))

        go :
            (a : Result Error (Unit {0}))
            → CompareSpec dev img offset path a
            → Ends Verified Refuted (
                continue
                  (λ u. do
                    act (emit (progress verify (offset + min remaining size) (some total)))
                    pace h target start
                    next es' (remaining - min remaining size) (offset + min remaining size))
                  a
                  s)
        go (ok u) same =
            let s₁ = emit (progress verify (offset + min remaining size) (some total)) s in
            Ends-continue _
              (pace-Kept h d c target start s₁ (λ i. d.emit_keeps _ s i ∙ r.bytes_are i))
              (λ _ s₂ q.
                ih es' (remaining - min remaining size) (offset + min remaining size) (seen ++ img)
                  s₂ (omega arith)
                  record {
                    sum = omega (arith, r.sum);
                    at_end = omega (arith, r.at_end, length-append seen img, y.1);
                    rest = src_is ∙ sym (append_assoc seen img (stream es'));
                    so_far =
                        further (min remaining size) (omega arith)
                          (λ i _. ap (λ t. get_or t i 0) same);
                    bytes_are = q;
                  })
              (λ e s₂ x. (inl x.0, x.1))
        go (err e) (n, eq, (lt, differ, same)) = stop (
          inr (
            offset + n,
            omega (arith, r.sum, x.0),
            eq,
            (λ same. differ (
                x.1 n (omega (arith, x.0))
                ∙ same
                ∙ ap (λ t. get_or t (offset + n) 0) src_is
                ∙ there)),
            further n (omega (arith, x.0)) same,
          ),
          r.bytes_are,
        )
          where
            there : get_or (seen ++ (img ++ stream es')) (offset + n) 0 ≡ get_or img n 0
            there =
                get_or-append_right seen (img ++ stream es') (offset + n) n 0
                  (omega (arith, r.at_end))
                ∙ get_or-append_left img (stream es') n 0 (omega (arith, x.0, y.1))

    after_read :
        (es : List Read) (remaining offset : ℕ) (seen : Bytes) (start : Option ℕ) (s : World)
        (dev : Bytes)
        → remaining ≤ suc fuel
        → 1 ≤ remaining
        → Ahead es remaining offset seen s
        → (length dev ≡ min remaining size)
          × ((i : ℕ) → i < min remaining size → get_or dev i 0 ≡ f (offset + i))
        → (got : Exact) → ExactSpec (min remaining size) (stream es) (failure es) got
        → Ends Verified Refuted (
            continue
              (on_chunk h size total path target start next remaining offset
                (min remaining size)
                dev)
              (context_io (say "reading bytes from image stream" (min remaining size ∷ []) []) got)
              s)
    unfolding context_io layer kind_of
    after_read es remaining offset seen start s dev le one r x (ok (img, es')) y =
        chunk-Ends es es' remaining offset seen start s dev img le one r x y
    after_read es remaining offset seen start s dev le one r x (err k) y =
        stop (inl ((λ e. cc), λ e. cc), r.bytes_are)

    round-Ends :
        (es : List Read) (remaining offset : ℕ) (seen : Bytes) (s : World)
        → remaining ≤ suc fuel
        → 1 ≤ remaining
        → Ahead es remaining offset seen s
        → Ends Verified Refuted (verify_round h size total path target next es remaining offset s)
    unfolding verify_round from_source
    round-Ends es remaining offset seen s le one r =
        let p : Holds h d f (load_cancel s).1 = λ i. d.load_keeps s i ∙ r.bytes_are i in
        Ends-if (load_cancel s).0 _ _ _ (λ _. stop (inl ((λ x. cc), λ x. cc), p))
          (λ _.
            Ends-continue _ (start_clock-Kept h d c target (load_cancel s).1 p)
              (λ start s₂ q.
                Ends-continue _ (read_ends s₂ q)
                  (λ dev s₃ x.
                    after_read es remaining offset seen start s₃ dev le one (moved s₃ x.2)
                      (x.0, x.1) (fill_exact es (min remaining size))
                      (fill_exact_lem es (min remaining size)))
                  (λ e s₃ x. (inl x.0, x.1)))
              (λ e s₂ x. (inl x.0, x.1)))
      where
        moved : (s' : World) → Holds h d f s' → Ahead es remaining offset seen s'
        moved s' q = record {
          sum = r.sum;
          at_end = r.at_end;
          rest = r.rest;
          so_far = r.so_far;
          bytes_are = q;
        }

        read_ends :
            (s₂ : World)
            → Holds h d f s₂
            → Ends
                (λ dev s'.
                  (length dev ≡ min remaining size)
                  × ((i : ℕ) → i < min remaining size → get_or dev i 0 ≡ f (offset + i))
                  × Holds h d f s')
                (λ e s'. Sourced e × Holds h d f s')
                (call
                  (say "reading bytes from device at offset" (min remaining size ∷ offset ∷ []) [])
                  (read_exact_at (min remaining size) offset)
                  s₂)
        read_ends s₂ q =
            Ends-call _ (read_exact_at (min remaining size) offset) s₂
              (Ends-mono (d.read_at (min remaining size) offset s₂)
                (λ dev s' x. (x.0, (λ i lt. x.1 i lt ∙ q (offset + i)), λ i. x.2 i ∙ q i))
                (λ k s' x i. x i ∙ q i))
              (λ k s' x. (io-Sourced _ k (λ e. cc), x))

  pub verify_loop_ends : (fuel : ℕ) → Continues fuel (verify_loop h size fuel total path target)
  unfolding verify_loop
  verify_loop_ends zero es remaining offset seen s le r =
      Ends-if (remaining == 0) _ _ s
        (λ z. done (finished es remaining offset seen s (ground arith) r))
        (λ z. absurd (ground arith))
  verify_loop_ends (suc fuel) es remaining offset seen s le r =
      Ends-if (remaining == 0) _ _ s
        (λ z. done (finished es remaining offset seen s (ground arith) r))
        (λ z.
          round-Ends fuel (verify_loop h size fuel total path target) (verify_loop_ends fuel) es
            remaining offset seen s le (ground arith) r)

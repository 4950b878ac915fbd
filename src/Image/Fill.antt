-- ===== src/Image/Fill.antt =====
-- `fill_buffer` of crates/imi-core/src/phases/phase_4.rs.
use imi.Common.{
  ℕ, suc, ◌-◌, ◌≤◌, ◌<◌, Bytes, List, [], ◌∷◌, ◌++◌, Option, none, some, ◌≡◌, refl, sym, ◌∙◌, arith,
  leb, if◌then◌else◌, length, take, drop, Result, ok, err, append-nil, append_assoc, length-append,
  length-drop, length-take, take-append_length, take-append-drop, Bool, true, false, ap,
}
use mathlib.Core.Path.{subst₂}
use imi.Error.{IoKind, interrupted}
use imi.Host.{Read, bytes, fails}
use imi.Image.{stream, failure}

-- the count of bytes placed, the buffer, and what is left of the stream
abbrev pub Fill : Type 0
Fill = Result IoKind (ℕ × Bytes × List Read)

-- the buffer with `done` placed at its start
abbrev placed : Bytes → Bytes → List Read → Fill
placed done dst es = ok (length done, done ++ drop (length done) dst, es)

-- the `while` loop, with the bytes placed so far
unfoldable pub fill_loop : List Read → Bytes → Bytes → Fill
fill_loop [] done dst = placed done dst []
fill_loop (bytes [] ∷ es) done dst =
    if leb (length dst) (length done) then placed done dst (bytes [] ∷ es) else placed done dst es
fill_loop (bytes (b ∷ bs) ∷ es) done dst =
    let room = length dst - length done in
    let rest = fill_loop es (done ++ (b ∷ bs)) dst in
    if leb (length dst) (length done)
    then placed done dst (bytes (b ∷ bs) ∷ es)
    else if leb (length (b ∷ bs)) room
    then rest
    else placed (done ++ take room (b ∷ bs)) dst (bytes (drop room (b ∷ bs)) ∷ es)
fill_loop (fails interrupted ∷ es) done dst =
    let rest = fill_loop es done dst in
    if leb (length dst) (length done) then placed done dst (fails interrupted ∷ es) else rest
fill_loop (fails k ∷ es) done dst =
    if leb (length dst) (length done) then placed done dst (fails k ∷ es) else err k

unfoldable pub fill_buffer : List Read → Bytes → Fill
unfolding fill_loop
fill_buffer es dst = fill_loop es [] dst

-- What a fill must have done with a stream of the bytes `src` that ends by `fault`.
pub record Filled (dst src : Bytes) (fault : Option IoKind) (n : ℕ) (buf : Bytes) (es : List Read)
    : Type 0 where
  pub fits : n ≤ length dst
  pub size : length buf ≡ length dst
  pub full : n ≡ length dst → (src ≡ take n buf ++ stream es) × (fault ≡ failure es)
  pub short : n < length dst → (src ≡ take n buf) × (fault ≡ none)

abbrev pub FillSpec : Bytes → Bytes → Option IoKind → Fill → Type 0
FillSpec dst src fault (ok (n, buf, es)) = Filled dst src fault n buf es
FillSpec dst src fault (err k) = fault ≡ some k

size-placed :
    (done dst : Bytes)
    → length done ≤ length dst
    → length (done ++ drop (length done) dst) ≡ length dst
size-placed done dst h =
    omega (arith, length-append done (drop (length done) dst), length-drop (length done) dst)

-- the loop stops because the buffer is full
stop_full :
    (es : List Read) (done dst : Bytes)
    → length done ≡ length dst
    → FillSpec dst (done ++ stream es) (failure es) (placed done dst es)
stop_full es done dst h = record {
  fits = omega arith;
  size = size-placed done dst (omega arith);
  full = λ _. (rw take-append_length, refl);
  short = λ lt. absurd (omega arith);
}

-- the loop stops because the stream ended
stop_end :
    (es es' : List Read) (done dst : Bytes)
    → length done ≤ length dst
    → stream es ≡ []
    → failure es ≡ none
    → (length done ≡ length dst → (stream es' ≡ []) × (failure es' ≡ none))
    → FillSpec dst (done ++ stream es) (failure es) (placed done dst es')
stop_end es es' done dst h e f g = record {
  fits = h;
  size = size-placed done dst h;
  full = λ eq. (rw (take-append_length, e, (g eq).0), f ∙ sym (g eq).1);
  short = λ lt. (rw (take-append_length, e) (append-nil done), f);
}

stream-bytes :
    (xs : Bytes) (es : List Read)
    → 0 < length xs
    → (stream (bytes xs ∷ es) ≡ xs ++ stream es) × (failure (bytes xs ∷ es) ≡ failure es)
unfolding stream failure
stream-bytes [] es h = absurd (omega arith)
stream-bytes (x ∷ xs) es h = (refl, refl)

-- the loop stops because a read filled the buffer: `xs` does not fit whole
stop_split :
    (xs done dst : Bytes) (es : List Read)
    → length done ≤ length dst
    → length dst - length done < length xs
    → let room = length dst - length done in
      FillSpec dst
        (done ++ (xs ++ stream es))
        (failure es)
        (placed (done ++ take room xs) dst (bytes (drop room xs) ∷ es))
stop_split xs done dst es h lt =
    let room = length dst - length done in
    let rest = stream-bytes (drop room xs) es (omega (arith, length-drop room xs)) in
    let e : (done ++ take room xs) ++ stream (bytes (drop room xs) ∷ es)
        ≡ done ++ (xs ++ stream es) =
      rw rest.0 (
        rw append_assoc (
          ap (λ t. done ++ t)
            (sym (append_assoc (take room xs) (drop room xs) (stream es))
              ∙ ap (λ t. t ++ stream es) (take-append-drop room xs)))) in
    subst₂
      (λ src fault.
        FillSpec dst src fault (placed (done ++ take room xs) dst (bytes (drop room xs) ∷ es)))
      e rest.1
      (stop_full (bytes (drop room xs) ∷ es) (done ++ take room xs) dst
        (omega (arith, length-append done (take room xs), length-take room xs)))

FillSpec-step :
    (b : Bool) (src : Bytes) (fault : Option IoKind) (dst : Bytes) (x y : Fill)
    → (b ≡ true → FillSpec dst src fault x)
    → (b ≡ false → FillSpec dst src fault y)
    → FillSpec dst src fault (if b then x else y)
FillSpec-step true src fault dst x y f g = f refl
FillSpec-step false src fault dst x y f g = g refl

-- Whatever the sizes of the reads and however often they are interrupted, the loop places the next
-- bytes of the stream: as many as the buffer holds, or all that are left, or the stream's failure.
fill_loop_lem :
    (es : List Read) (done dst : Bytes)
    → length done ≤ length dst
    → FillSpec dst (done ++ stream es) (failure es) (fill_loop es done dst)
unfolding fill_loop stream failure
fill_loop_lem [] done dst h = stop_end [] [] done dst h refl refl (λ _. (refl, refl))
fill_loop_lem (bytes [] ∷ es) done dst h =
    FillSpec-step (leb (length dst) (length done)) _ _ _ _ _
      (λ t. stop_full (bytes [] ∷ es) done dst (ground arith))
      (λ f. stop_end (bytes [] ∷ es) es done dst h refl refl (λ eq. absurd (ground arith)))
fill_loop_lem (bytes (b ∷ bs) ∷ es) done dst h =
    let rec = fill_loop_lem es (done ++ (b ∷ bs)) dst in
    FillSpec-step (leb (length dst) (length done)) _ _ _ _ _
      (λ t. stop_full (bytes (b ∷ bs) ∷ es) done dst (ground arith))
      (λ f.
        FillSpec-step (leb (suc (length bs)) (length dst - length done)) _ _ _ _ _
          (λ u. rw append_assoc at (rec (ground (arith, length-append done (b ∷ bs)))))
          (λ v. stop_split (b ∷ bs) done dst es h (ground arith)))
fill_loop_lem (fails interrupted ∷ es) done dst h =
    FillSpec-step (leb (length dst) (length done)) _ _ _ _ _
      (λ t. stop_full (fails interrupted ∷ es) done dst (ground arith))
      (λ f. fill_loop_lem es done dst h)
fill_loop_lem (fails k ∷ es) done dst h =
    FillSpec-step (leb (length dst) (length done)) _ _ _ _ _
      (λ t. stop_full (fails k ∷ es) done dst (ground arith)) (λ f. refl)

-- `fill_buffer` places the next bytes of the stream: as many as the buffer holds, or all that are
-- left of a stream that ends in order, or it fails as the stream does. The rest stays to be read.
pub fill_buffer_lem :
    (es : List Read) (dst : Bytes) → FillSpec dst (stream es) (failure es) (fill_buffer es dst)
unfolding fill_buffer
fill_buffer_lem es dst = fill_loop_lem es [] dst (omega arith)

-- ===== src/Flash/Pipeline/Progress.antt =====
-- Laws of the runs of the two threads of `flash_pipelined` of
-- crates/imi-core/src/phases/phase_4.rs.
use imi.Common.{
  ℕ, ◌+◌, ◌*◌, ◌≤◌, ◌<◌, ◌^◌, Bytes, List, [], ◌∷◌, Option, none, some, ◌≡◌, ◌⊎◌, inl, inr, refl,
  sym, ap, ◌∙◌, arith, length, Bool, true, false, if◌then◌else◌, ok, err,
}
use mathlib.Core.Path.{subst}
use imi.Error.{IoKind}
use imi.Cancel.Wait.{Clock}
use imi.Host.{Host}
use imi.Host.Disk.{Disk}
use imi.Flash.Pipeline.{
  Item, Exit, Worker, waiting, holding, filling, sending, exited, panicked, State, Main, top,
  receiving, writing, pacing, leaving, dropping, joining, finished, take_buffer, worker_at,
  worker_step, panic_at, panic_step, main_at, main_step, on_empty, on_received, on_join,
}
use imi.Flash.Pipeline.Producer.{After, Live, Pool, Lives, worker-Lives, panic-Lives}
use imi.Flash.Pipeline.Measure.{
  Moved, weight, main_weight, worker_weight, worker_moves, panic_moves,
}
use imi.Flash.Pipeline.Safety.{Left, At, Safe}
use imi.Flash.Pipeline.Consumer.{main_lives}
use imi.Flash.Pipeline.Run.{Choice, main_runs, worker_runs, decoder_panics, or_else, choose}

After-map :
    {S : Type 0} (P Q : S → Type 0) (o : Option S) → ((s : S) → P s → Q s) → After P o → After Q o
After-map P Q none g p = tt
After-map P Q (some s) g p = g s p

After-both :
    {S : Type 0} (P Q : S → Type 0) (o : Option S)
    → After P o
    → After Q o
    → After (λ s. P s × Q s) o
After-both P Q none p q = tt
After-both P Q (some s) p q = (p, q)

After-or :
    {S : Type 0} (P : S → Type 0) (o o' : Option S)
    → After P o
    → After P o'
    → After P (or_else o o')
After-or P none o' p q = q
After-or P (some s) o' p q = p

-- neither has a value
or_else-none : {S : Type 0} (o o' : Option S) → or_else o o' ≡ none → (o ≡ none) × (o' ≡ none)
or_else-none none o' e = (refl, e)
or_else-none (some s) o' e = absurd (cc)

unblocked : {S : Type 0} (x : S) (t : Bool) → t ≡ false → (if t then none else some x) ≡ none → ⊥
unblocked x true e f = cc
unblocked x false e f = cc

either_some : {S : Type 0} (x y : S) (t : Bool) → (if t then some x else some y) ≡ none → ⊥
either_some x y true f = cc
either_some x y false f = cc

module _ (h : Host) (d : Disk h) (c : Clock h) (size dev_size : ℕ) (target : Option ℕ) (f : ℕ → ℕ)
    (pos : 1 ≤ size) (big : dev_size < 2 ^ 64) (src : Bytes) (fault : Option IoKind) where
  open h use {World}

  abbrev pub Safely : ℕ → State h → Type 0
  Safely = Safe h d c size dev_size target f pos big src fault

  abbrev IsAt : Main → State h → Type 0
  IsAt = At h d c size dev_size target f pos big src fault

  abbrev pub steps_left : State h → ℕ
  steps_left = weight h size dev_size target

  module _ (st : State h) where
    abbrev steps_of_worker : ℕ
    steps_of_worker = 4 * length st.filled + worker_weight size st.worker

    -- the main thread is where it was
    stays :
        (m : Main) (o : Option (State h))
        → IsAt m st
        → After (Moved h size dev_size target steps_of_worker st) o
        → ((front : List Item) (offset : ℕ)
            → Lives h d size dev_size target f src fault front offset st
            → After (Lives h d size dev_size target f src fault front offset) o)
        → After (IsAt m) o
    stays (top offset) o p v l = l [] offset p
    stays (receiving start offset) o p v l = l [] offset p
    stays (writing start buf n offset) o p v l = l (ok (buf, n) ∷ []) offset p
    stays (pacing start end) o p v l = l [] end p
    stays (leaving x) o p v l =
        After-map _ _ o
          (λ st' m.
            subst (λ w. Left h d c size dev_size target f pos big src fault x w) (sym m.world_same)
              p)
          v
    stays (dropping x) o p v l =
        After-map _ _ o
          (λ st' m.
            subst (λ w. Left h d c size dev_size target f pos big src fault x w) (sym m.world_same)
              p)
          v
    stays (joining x) o p v l =
        After-map _ _ o
          (λ st' m. (
            subst (λ w. Left h d c size dev_size target f pos big src fault x w) (sym m.world_same)
                p.0,
            m.tx_same ∙ p.1,
          ))
          v
    stays (finished x) o p v l =
        After-map _ _ o
          (λ st' m.
            subst (λ w. Left h d c size dev_size target f pos big src fault x w) (sym m.world_same)
              p)
          v

    safe_by :
        (o : Option (State h))
        → IsAt st.main st
        → After (Moved h size dev_size target steps_of_worker st) o
        → ((front : List Item) (offset : ℕ)
            → Lives h d size dev_size target f src fault front offset st
            → After (Lives h d size dev_size target f src fault front offset) o)
        → After (Safely (steps_left st)) o
    safe_by o p v l =
        After-map _ _ o
          (λ st' q. record {
            sized = q.0.sized;
            owns = q.0.owns;
            lighter = omega (arith, q.0.lighter, ap main_weight q.0.main_same);
            at_main = subst (λ m. IsAt m st') (sym q.0.main_same) q.1;
          })
          (After-both _ _ o v (stays st.main o p v l))

    module _ {budget : ℕ} (safe : Safely budget st) where
      main_safe : After (Safely (steps_left st)) (main_step h size dev_size target st)
      unfolding main_step
      main_safe =
          main_lives h d c size dev_size target f pos big src fault st safe.sized safe.owns st.main
            safe.at_main

      worker_safe : After (Safely (steps_left st)) (worker_step h size dev_size target st)
      unfolding worker_step
      worker_safe =
          safe_by (worker_at h size dev_size target st.worker st) safe.at_main
            (worker_moves h size dev_size target st.worker st pos safe.sized safe.owns)
            (λ front offset l.
              worker-Lives h d size dev_size target f src fault front offset st st.worker safe.owns
                l)

      panic_safe : After (Safely (steps_left st)) (panic_step h size dev_size target st)
      unfolding panic_step
      panic_safe =
          safe_by (panic_at h size dev_size target st.worker st) safe.at_main
            (panic_moves h size dev_size target st.worker st safe.sized)
            (λ front offset l.
              panic-Lives h d size dev_size target f src fault front offset st st.worker l)

      -- Whatever the scheduler does next, the state is safe again, and fewer steps are left.
      pub choose_safe :
          (choice : Choice)
          → After (Safely (steps_left st)) (choose h size dev_size target choice st)
      unfolding choose
      choose_safe main_runs =
          After-or (Safely (steps_left st)) (main_step h size dev_size target st)
            (worker_step h size dev_size target st) main_safe worker_safe
      choose_safe worker_runs =
          After-or (Safely (steps_left st)) (worker_step h size dev_size target st)
            (main_step h size dev_size target st) worker_safe main_safe
      choose_safe decoder_panics =
          After-or (Safely (steps_left st)) (panic_step h size dev_size target st)
            (or_else (main_step h size dev_size target st) (worker_step h size dev_size target st))
            panic_safe
            (After-or (Safely (steps_left st)) (main_step h size dev_size target st)
              (worker_step h size dev_size target st) main_safe worker_safe)

  module _ (st : State h) where
    -- a worker that has a buffer to take, or that is told there will be none, is not blocked
    awake :
        (w : Worker)
        → (1 ≤ length st.free) ⊎ (st.tx_open ≡ false)
        → worker_at h size dev_size target w st ≡ none
        → (w ≡ exited) ⊎ (w ≡ panicked)
    awake (waiting es) u e = absurd (go st.free u e)
      where
        go :
            (free : List Bytes)
            → (1 ≤ length free) ⊎ (st.tx_open ≡ false)
            → take_buffer h size dev_size target es st free ≡ none
            → ⊥
        go [] (inl le) e = absurd (omega arith)
        go [] (inr t) e = unblocked (record st { worker = exited }) st.tx_open t e
        go (b ∷ bs) u e = cc
    awake (holding es b) u e = absurd (cc)
    awake (filling es b) u e = absurd (cc)
    awake (sending es item) u e = absurd (either_some _ _ st.rx_open e)
    awake exited u e = inl refl
    awake panicked u e = inr refl

    -- the main thread waits for nobody
    abbrev pub Over : Main → World → Type 0
    Over (finished x) s = Left h d c size dev_size target f pos big src fault x s
    Over _ s = ⊥

    received :
        (start : Option ℕ) (offset : ℕ) (q : List Item)
        → Live h d size dev_size target f src fault st.worker st.free q offset st
        → on_received h size dev_size target start offset st q ≡ none
        → worker_at h size dev_size target st.worker st ≡ none
        → ⊥
    received start offset [] l e e' = go st.worker l.pool e e'
      where
        either :
            {w : Worker}
            → (w ≡ exited) ⊎ (w ≡ panicked)
            → on_empty h size dev_size target st w ≡ none
            → ⊥
        either (inl q) e = cc
        either (inr q) e = cc

        go :
            (w : Worker)
            → Pool w (length st.free + 0)
            → on_empty h size dev_size target st w ≡ none
            → worker_at h size dev_size target w st ≡ none
            → ⊥
        go (waiting es) p e e' = either (awake (waiting es) (inl (omega arith)) e') e
        go (holding es b) p e e' = cc
        go (filling es b) p e e' = cc
        go (sending es item) p e e' = either_some _ _ st.rx_open e'
        go exited p e e' = cc
        go panicked p e e' = cc
    received start offset (ok (buf, n) ∷ items) l e e' = cc
    received start offset (err x ∷ items) l e e' = cc

    joined :
        (x : Exit) (w : Worker)
        → (w ≡ exited) ⊎ (w ≡ panicked)
        → on_join h size dev_size target x st w ≡ none
        → ⊥
    joined x w (inl q) e = cc
    joined x w (inr q) e = cc

    -- A state in which no thread can go on is an end.
    pub blocked :
        (m : Main)
        → IsAt m st
        → main_at h size dev_size target m st ≡ none
        → worker_at h size dev_size target st.worker st ≡ none
        → Over m st.world
    blocked (top offset) p e e' = absurd (cc)
    blocked (receiving start offset) p e e' = received start offset st.filled p e e'
    blocked (writing start buf n offset) p e e' = absurd (cc)
    blocked (pacing start end) p e e' = absurd (cc)
    blocked (leaving x) p e e' = absurd (cc)
    blocked (dropping x) p e e' = absurd (cc)
    blocked (joining x) p e e' = absurd (joined x st.worker (awake st.worker (inr p.1) e') e)
    blocked (finished x) p e e' = p

    -- no thread can go on
    pub choose-none :
        (choice : Choice)
        → choose h size dev_size target choice st ≡ none
        → (main_step h size dev_size target st ≡ none)
          × (worker_step h size dev_size target st ≡ none)
    unfolding choose
    choose-none main_runs e = or_else-none _ _ e
    choose-none worker_runs e = let r = or_else-none _ _ e in (r.1, r.0)
    choose-none decoder_panics e = or_else-none _ _ (or_else-none _ _ e).1

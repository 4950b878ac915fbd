-- ===== src/Cancel/Wait.antt =====
-- Laws of the cancellable sleep: what it relies on of the clock, and when it returns.
use imi.Common.{
  ℕ, zero, suc, ◌+◌, ◌-◌, ◌*◌, ◌≤◌, min, Option, none, some, false, ◌≡◌, refl, arith, leb, ◌==◌,
}
use imi.Error.{Error}
use imi.Events.{Event}
use imi.Exec.{Exec}
use imi.Exec.Ends.{Ends, Ends-if, done}
use imi.Host.{Host}
use imi.Cancel.{tick, until, count_down, rounds, wait_for, cancellable_sleep}

module _ (h : Host) where
  open h use {World, emit, load_cancel, now, sleep, deadline}

  -- What is relied on of the clock: it does not run backwards, a sleep lasts as long as it was told
  -- to, and a deadline is the time that it was taken at plus the span.
  pub record Clock : Type 0 where
    pub time : World → ℕ
    pub emit_time : (e : Event) (s : World) → time s ≤ time (emit e s)
    pub load_time : (s : World) → time s ≤ time (load_cancel s).1
    pub now_reads : (s : World) → (now s).0 ≡ time s
    pub now_time : (s : World) → time s ≤ time (now s).1
    pub sleep_time : (n : ℕ) (s : World) → time s + n ≤ time (sleep n s)
    pub deadline_time : (n : ℕ) (s : World) → time s ≤ time (deadline n s).1
    pub deadline_at : (n end : ℕ) (s : World) → (deadline n s).0 ≡ some end → end ≡ time s + n

  -- A property of the world that none of the four calls of the sleep disturbs.
  pub record Undisturbed (P : World → Type 0) : Type 0 where
    pub load_P : (s : World) → P s → P (load_cancel s).1
    pub now_P : (s : World) → P s → P (now s).1
    pub sleep_P : (n : ℕ) (s : World) → P s → P (sleep n s)
    pub deadline_P : (n : ℕ) (s : World) → P s → P (deadline n s).1

enough :
    (end t₀ t fuel : ℕ)
    → end ≤ t₀ + (suc fuel - 1) * tick
    → t₀ ≤ t
    → (end - t == 0) ≡ false
    → 1 ≤ fuel
enough end t₀ t zero e c more = absurd (ground arith)
enough end t₀ t (suc fuel) e c more = omega arith

later :
    (end t₀ t t' fuel : ℕ)
    → end ≤ t₀ + (suc fuel - 1) * tick
    → t₀ ≤ t
    → t + min (end - t) tick ≤ t'
    → (end - t == 0) ≡ false
    → end ≤ t' + (fuel - 1) * tick
later end t₀ t t' zero e c w more = absurd (ground arith)
later end t₀ t t' (suc fuel) e c w more = ground arith

module _ (h : Host) (c : Clock h) {P : h.World → Type 0} (u : Undisturbed h P) where
  open h use {World, load_cancel, now, sleep, deadline}

  abbrev Ended : Exec World (Unit {0}) → World → Type 0
  Ended m s = Ends (λ _ s'. P s') (λ (_ : Error) _. ⊥) (m s)

  -- the readings of one round: the flag, the clock, and the clock after a sleep
  after :
      (s : World) (rest : ℕ)
      → let s₁ = (load_cancel s).1 in
        (c.time s ≤ (now s₁).0)
        × ((now s₁).0 + min rest tick ≤ c.time (sleep (min rest tick) (now s₁).1))
  after s rest =
      let s₁ = (load_cancel s).1 in
      let s₂ = (now s₁).1 in
      (
        omega (arith, c.load_time s, c.now_reads s₁),
        omega (arith, c.now_reads s₁, c.now_time s₁, c.sleep_time (min rest tick) s₂),
      )

  until_ends :
      (fuel end : ℕ) (s : World)
      → end ≤ c.time s + (fuel - 1) * tick
      → 1 ≤ fuel
      → P s
      → Ended (until h fuel end) s
  unfolding until
  until_ends zero end s e f p = absurd (omega arith)
  until_ends (suc fuel) end s e f p =
      let s₁ = (load_cancel s).1 in
      let s₂ = (now s₁).1 in
      let wait = min (end - (now s₁).0) tick in
      let p₂ = u.now_P s₁ (u.load_P s p) in
      Ends-if (load_cancel s).0 _ _ _ (λ _. done (u.load_P s p))
        (λ _.
          Ends-if (end - (now s₁).0 == 0) _ _ _ (λ _. done p₂)
            (λ more.
              let clock = after s (end - (now s₁).0) in
              until_ends fuel end (sleep wait s₂) (later end _ _ _ fuel e clock.0 clock.1 more)
                (enough end _ _ fuel e clock.0 more) (u.sleep_P wait s₂ p₂)))

  count_down_ends :
      (fuel left : ℕ) (s : World)
      → left ≤ (fuel - 1) * tick
      → 1 ≤ fuel
      → P s
      → Ended (count_down h fuel left) s
  unfolding count_down
  count_down_ends zero left s e f p = absurd (omega arith)
  count_down_ends (suc fuel) left s e f p =
      let s₁ = (load_cancel s).1 in
      let step = min left tick in
      Ends-if (left == 0) _ _ _ (λ _. done p)
        (λ more.
          Ends-if (load_cancel s).0 _ _ _ (λ _. done (u.load_P s p))
            (λ _.
              count_down_ends fuel (left - step) (sleep step s₁) (ground arith) (ground arith)
                (u.sleep_P step s₁ (u.load_P s p))))

  wait_ends :
      (total : ℕ) (end : Option ℕ) (s : World)
      → (t₀ : ℕ) → ((d : ℕ) → end ≡ some d → d ≡ t₀ + total)
      → t₀ ≤ c.time s
      → P s
      → Ended (wait_for h total end) s
  wait_ends total (some end) s t₀ e le p =
      until_ends (rounds total) end s (omega (arith, e end refl)) (omega arith) p
  wait_ends total none s t₀ e le p =
      count_down_ends (rounds total) total s (omega arith) (omega arith) p

  -- Whatever the flag says and when, the sleep comes to an end, and keeps what its calls keep.
  pub cancellable_sleep_ends : (total : ℕ) (s : World) → P s → Ended (cancellable_sleep h total) s
  unfolding cancellable_sleep
  cancellable_sleep_ends total s p =
      Ends-if (leb total tick) _ _ s
        (λ _. Ends-if (total == 0) _ _ s (λ _. done p) (λ _. done (u.sleep_P total s p)))
        (λ _.
          wait_ends total (deadline total s).0 (deadline total s).1 (c.time s)
            (λ end e. c.deadline_at total end s e) (c.deadline_time total s)
            (u.deadline_P total s p))

-- ===== src/Config/Bounds.antt =====
-- Laws of the option checks and of the arithmetic of the pacing.
use imi.Common.{
  ℕ, ◌*◌, ◌/◌, ◌+◌, ◌≤◌, ◌<◌, ◌≡◌, refl, ◌↔◌, Bytes, some, ok, err, zero, suc, ◌⊎◌, inl, inr, arith,
}
use imi.Error.{Error}
use imi.Config.{
  new, buf_size, u64_max, max_cooldown_secs, resolved_cooldown_secs, validate_cooldown_secs,
  chunk_target_nanos,
}

-- A cooldown is accepted, and then unchanged, exactly when it is between one second and ten minutes.
pub validate_cooldown_iff :
    (secs n : ℕ)
    → (validate_cooldown_secs secs ≡ ok n) ↔ ((n ≡ secs) × (1 ≤ secs) × (secs ≤ max_cooldown_secs))
unfolding validate_cooldown_secs
validate_cooldown_iff secs n = ground arith

-- A configuration fresh from `Config::new` passes the check that Phase 0 and Phase 5 make.
pub new-cooldown_ok :
    (img dev : Bytes) → validate_cooldown_secs (resolved_cooldown_secs (new img dev)) ≡ ok 20
unfolding validate_cooldown_secs resolved_cooldown_secs new
new-cooldown_ok img dev = refl

quotient_bounds : (a b : ℕ) → 1 ≤ b → (a / b * b ≤ a) × (a < (a / b + 1) * b)
quotient_bounds a b h = (grind arith, grind arith)

quotient_le : (a b : ℕ) → a / b ≤ a
quotient_le a b = grind arith

exact_target :
    (rate : ℕ)
    → 1 ≤ rate
    → (t : ℕ) × (chunk_target_nanos (some rate) ≡ ok (some t))
      × (t * rate ≤ buf_size * 1_000_000_000)
      × (buf_size * 1_000_000_000 < (t + 1) * rate)
      × (t ≤ u64_max)
unfolding chunk_target_nanos
exact_target rate h =
    let (low, high) = quotient_bounds (buf_size * 1_000_000_000) rate h in
    let fits = quotient_le (buf_size * 1_000_000_000) rate in
    (buf_size * 1_000_000_000 / rate, ground arith, low, high, omega (arith, fits))

-- A throttle of zero is refused. For every other rate the target of one chunk is the exact quotient, rounded down: none of
-- the three fallbacks is taken, and the target fits a u64.
pub chunk_target_exact :
    (rate : ℕ)
    → ((rate ≡ 0) × (e : Error) × (chunk_target_nanos (some rate) ≡ err e))
      ⊎ ((1 ≤ rate)
          × (t : ℕ) × (chunk_target_nanos (some rate) ≡ ok (some t))
          × (t * rate ≤ buf_size * 1_000_000_000)
          × (buf_size * 1_000_000_000 < (t + 1) * rate)
          × (t ≤ u64_max))
unfolding chunk_target_nanos
chunk_target_exact zero = inl (refl, _, refl)
chunk_target_exact (suc r) =
    let (t, same, low, high, fits) = exact_target (suc r) (omega arith) in
    inr (omega arith, t, same, low, high, fits)

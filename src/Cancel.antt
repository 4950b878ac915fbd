-- ===== src/Cancel.antt =====
-- The cancellable sleep of crates/imi-core/src/common/cancel.rs. Times are in nanoseconds.
pub mod Wait
use imi.Common.{
  ℕ, zero, suc, ◌+◌, ◌-◌, ◌*◌, ◌/◌, min, Option, none, some, Bool, true, false, leb, ◌==◌,
  if◌then◌else◌,
}
use imi.Error.{msg, out_of_fuel}
use imi.Exec.{Exec, pure, raise, get, act, ◌>>=◌, ◌>>◌}
use imi.Host.{Host}

-- `TICK`, 100 ms
abbrev pub tick : ℕ
tick = 100_000_000

-- the loops take at most this many rounds
abbrev pub rounds : ℕ → ℕ
rounds total = total / tick + 2

module _ (h : Host) where
  open h use {World, load_cancel, now, sleep, deadline}

  -- the loop against a deadline
  pub until : ℕ → ℕ → Exec World (Unit {0})
  until zero end = raise (msg out_of_fuel)
  until (suc fuel) end = do
    cancelled ← get load_cancel
    if cancelled then pure tt else do
      t ← get now
      let remaining = end - t
      if remaining == 0 then pure tt else do act (sleep (min remaining tick)); until fuel end

  -- the loop that counts down, where no deadline can be represented
  pub count_down : ℕ → ℕ → Exec World (Unit {0})
  count_down zero left = raise (msg out_of_fuel)
  count_down (suc fuel) left = if left == 0 then pure tt else do
    cancelled ← get load_cancel
    if cancelled
        then pure tt
        else do let step = min left tick; act (sleep step); count_down fuel (left - step)

  abbrev pub wait_for : ℕ → Option ℕ → Exec World (Unit {0})
  wait_for total (some end) = until (rounds total) end
  wait_for total none = count_down (rounds total) total

  unfoldable pub cancellable_sleep : ℕ → Exec World (Unit {0})
  unfolding until count_down
  cancellable_sleep total =
      if leb total tick
      then (if total == 0 then pure tt else act (sleep total))
      else do end ← get (deadline total); wait_for total end

-- ===== src/Pace.antt =====
-- The pacing at the end of each round of the flash and verify loops.
use imi.Common.{ℕ, ◌-◌, Option, none, some, leb, if◌then◌else◌}
use imi.Config.{u64_or_max}
use imi.Exec.{Exec, pure, get, ◌>>=◌}
use imi.Host.{Host}
use imi.Cancel.{cancellable_sleep}

module _ (h : Host) where
  open h use {World, now}

  -- `chunk_target_nanos.map(|_| Instant::now())`
  unfoldable pub start_clock : Option ℕ → Exec World (Option ℕ)
  start_clock none = pure none
  start_clock (some ns) = do t ← get now; pure (some t)

  -- sleep for what is left of the target
  unfoldable pub pace : Option ℕ → Option ℕ → Exec World (Unit {0})
  pace (some target_ns) (some t0) = do
    t ← get now
    let elapsed_ns = u64_or_max (t - t0)
    if leb elapsed_ns target_ns then cancellable_sleep h (target_ns - elapsed_ns) else pure tt
  pace _ _ = pure tt

-- ===== src/DirectIo.antt =====
-- `O_DIRECT` on the claimed descriptor: crates/imi-core/src/common/direct_io.rs. Flags are numbers;
-- the bit has its x86_64 value, 0o40000.
pub mod Bit
use imi.Common.{ℕ, ◌+◌, ◌-◌, ◌/◌, ◌%◌, ◌^◌, [], ◌∷◌, Bool, ◌==◌, if◌then◌else◌}
use imi.Error.{text, say}
use imi.Exec.{Exec, pure, call, ◌>>=◌}
use imi.Host.{Host}

abbrev pub o_direct : ℕ
o_direct = 2 ^ 14

abbrev pub has_direct : ℕ → Bool
has_direct flags = flags / o_direct % 2 == 1

-- `flags | O_DIRECT` and `flags & !O_DIRECT`
unfoldable pub wanted : Bool → ℕ → ℕ
wanted enable flags =
    if enable
    then (if has_direct flags then flags else flags + o_direct)
    else (if has_direct flags then flags - o_direct else flags)

module _ (h : Host) where
  open h use {World, get_flags, set_flags}

  unfoldable pub set_direct : Bool → Exec World (Unit {0})
  unfolding wanted
  set_direct enable = do
    flags ← call (text "fcntl(F_GETFL)") get_flags
    if wanted enable flags == flags
        then pure tt
        else call (text "fcntl(F_SETFL)") (set_flags (wanted enable flags))

-- ===== src/DirectIo/Bit.antt =====
-- Laws of the flags that `set_direct` asks for.
use imi.Common.{ℕ, ◌/◌, ◌%◌, ◌^◌, ◌≡◌, Bool, arith}
use imi.DirectIo.{has_direct, wanted}

-- The flags asked for have `O_DIRECT` as wished, and every bit above and below it as before.
pub wanted_lem :
    (enable : Bool) (flags : ℕ)
    → (has_direct (wanted enable flags) ≡ enable)
      × (wanted enable flags % 2 ^ 14 ≡ flags % 2 ^ 14)
      × (wanted enable flags / 2 ^ 15 ≡ flags / 2 ^ 15)
unfolding wanted
wanted_lem enable flags = ground arith

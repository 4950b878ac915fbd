-- ===== src/Guard.antt =====
-- The guard of the claimed device: crates/imi-core/src/common/guard.rs. Its file is the host's claimed
-- device; `AtomicU8` is a number below 256.
pub mod Laws
use imi.Common.{
  ℕ, String, Bytes, List, [], ◌∷◌, Option, none, some, Bool, true, false, not, ◌==◌, if◌then◌else◌,
}

pub data GuardPhase : Type 0 where
  disarmed wiping_signatures writing cooldown verifying : GuardPhase

-- `as u8`
abbrev pub to_u8 : GuardPhase → ℕ
to_u8 disarmed = 0
to_u8 wiping_signatures = 1
to_u8 writing = 2
to_u8 cooldown = 3
to_u8 verifying = 4

unfoldable pub from_u8 : ℕ → GuardPhase
from_u8 v =
    if v == 0
    then disarmed
    else if v == 1
    then wiping_signatures
    else if v == 3
    then cooldown
    else if v == 4
    then verifying
    else writing

unfoldable pub interrupted_verb : GuardPhase → String
interrupted_verb disarmed = "in an unknown state"
interrupted_verb wiping_signatures = "having its partition signatures wiped"
interrupted_verb writing = "being written"
interrupted_verb cooldown = "settling its NAND/FTL state after the write"
interrupted_verb verifying = "being read back for verification"

-- `ArmedPhase`, with its `From`
pub data ArmedPhase : Type 0 where
  wiping_signatures writing cooldown verifying : ArmedPhase

unfoldable pub guard_phase : ArmedPhase → GuardPhase
guard_phase wiping_signatures = GuardPhase.wiping_signatures
guard_phase writing = GuardPhase.writing
guard_phase cooldown = GuardPhase.cooldown
guard_phase verifying = GuardPhase.verifying

pub record FlashGuard : Type 0 where
  pub dev_path : Bytes
  pub phase : ℕ

-- `FlashGuard::new`
unfoldable pub new : Bytes → FlashGuard
new dev_path = record { dev_path = dev_path; phase = to_u8 disarmed }

unfoldable pub advance_phase : FlashGuard → ArmedPhase → FlashGuard
unfolding guard_phase
advance_phase g p =
    if not (g.phase == to_u8 disarmed) then record g { phase = to_u8 (guard_phase p) } else g

unfoldable pub clear_phase : FlashGuard → FlashGuard
clear_phase g = record g { phase = to_u8 disarmed }

unfoldable pub current_phase : FlashGuard → GuardPhase
unfolding from_u8
current_phase g = from_u8 g.phase

abbrev is_disarmed : GuardPhase → Bool
is_disarmed disarmed = true
is_disarmed _ = false

unfoldable pub would_warn_on_drop : FlashGuard → Bool
unfolding current_phase
would_warn_on_drop g = not (is_disarmed (current_phase g))

-- the text of the notice, by the path and the verb that are put into it
unfoldable pub fatal_notice : FlashGuard → Option (Bytes × String)
unfolding would_warn_on_drop interrupted_verb current_phase
fatal_notice g =
    if not (would_warn_on_drop g)
    then none
    else some (g.dev_path, interrupted_verb (current_phase g))

-- `ArmedGuard`; its Option is emptied only by what consumes it
pub record ArmedGuard : Type 0 where
  pub inner : FlashGuard

unfoldable pub arm : FlashGuard → ArmedPhase → ArmedGuard
unfolding guard_phase
arm g p = record { inner = record g { phase = to_u8 (guard_phase p) } }

-- `ArmedGuard::set_phase`
unfoldable pub set_phase : ArmedGuard → ArmedPhase → ArmedGuard
unfolding advance_phase
set_phase a p = record { inner = advance_phase a.inner p }

unfoldable pub disarm : ArmedGuard → FlashGuard
unfolding clear_phase
disarm a = clear_phase a.inner

-- the phase changes of a run, in order
unfoldable pub set_phases : ArmedGuard → List ArmedPhase → ArmedGuard
unfolding set_phase
set_phases a [] = a
set_phases a (p ∷ ps) = set_phases (set_phase a p) ps

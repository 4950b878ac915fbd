-- ===== src/Session.antt =====
-- The claimed device with the target that it was claimed for, and the boundary of a phase:
-- crates/imi-core/src/common/session.rs and context.rs.
use imi.Common.{ℕ, Bytes, Option, Result, ok, err, map_err}
use imi.Error.{Error, DeviceState, at}
use imi.Events.{Compression, Phase, PhaseOutcome, completed, failed, phase_finished}
use imi.Exec.{Exec}
use imi.Host.{Host}
use imi.Identity.{DeviceIdentity}
use imi.Guard.{FlashGuard, ArmedGuard, ArmedPhase}
use imi.Guard

pub record Target : Type 0 where
  pub img_canon : Bytes
  pub dev_canon : Bytes
  pub dev_kname : Bytes
  pub comp : Compression
  pub raw_size : Option ℕ
  pub dev_size : ℕ
  pub identity : DeviceIdentity

pub record Session : Type 0 where
  pub guard : FlashGuard
  pub target : Target

pub record ArmedSession : Type 0 where
  pub guard : ArmedGuard
  pub target : Target

-- `Session::new`
unfoldable pub pair : FlashGuard → Target → Session
pair guard target = record { guard = guard; target = target }

-- `Session::arm`
unfoldable pub arm : Session → ArmedPhase → ArmedSession
unfolding Guard.arm
arm s p = record { guard = Guard.arm s.guard p; target = s.target }

-- `ArmedSession::set_phase`
unfoldable pub set_phase : ArmedSession → ArmedPhase → ArmedSession
unfolding Guard.set_phase
set_phase s p = record { guard = Guard.set_phase s.guard p; target = s.target }

-- `ArmedSession::disarm`
unfoldable pub disarm : ArmedSession → FlashGuard × Target
unfolding Guard.disarm
disarm s = (Guard.disarm s.guard, s.target)

abbrev pub outcome_of : {A : Type 0} → Result Error A → PhaseOutcome
outcome_of (ok a) = completed
outcome_of (err e) = failed

-- `.map_err(|e| e.at(...))`
abbrev pub at_state : {S A : Type 0} → DeviceState → Exec S A → Exec S A
at_state device m s = let (r, s') = m s in (map_err (at device) r, s')

module _ (h : Host) where
  open h use {World, emit}

  -- the end of each `run`: the outcome is reported, then returned
  abbrev pub reporting : {A : Type 0} → Phase → Exec World A → Exec World A
  reporting phase m s = let (r, s') = m s in (r, emit (phase_finished phase (outcome_of r)) s')

-- ===== src/Guard/Laws.antt =====
-- Laws of the guard: when it warns, and of what.
use imi.Common.{ℕ, ◌≡◌, ◌↔◌, refl, arith, List, [], ◌∷◌, none, some}
use imi.Guard.{
  GuardPhase, ArmedPhase, FlashGuard, to_u8, from_u8, interrupted_verb, guard_phase, advance_phase,
  current_phase, would_warn_on_drop, fatal_notice, arm, set_phase, set_phases, disarm,
}

-- Every phase is read back from its byte, and only the byte 0 reads as disarmed, so that a corrupt
-- byte still warns.
pub from_u8-to_u8 :
    ((p : GuardPhase) → from_u8 (to_u8 p) ≡ p)
    × ((v : ℕ) → (from_u8 v ≡ GuardPhase.disarmed) ↔ (v ≡ 0))
unfolding from_u8
from_u8-to_u8 = (there, λ v. ground arith)
  where
    there : (p : GuardPhase) → from_u8 (to_u8 p) ≡ p
    there GuardPhase.disarmed = refl
    there GuardPhase.wiping_signatures = refl
    there GuardPhase.writing = refl
    there GuardPhase.cooldown = refl
    there GuardPhase.verifying = refl

-- the phase that was set last, or the first
abbrev pub latest : ArmedPhase → List ArmedPhase → ArmedPhase
latest p [] = p
latest p (q ∷ ps) = latest q ps

set_phase-arm : (g : FlashGuard) (p q : ArmedPhase) → set_phase (arm g p) q ≡ arm g q
unfolding set_phase arm advance_phase guard_phase
set_phase-arm g ArmedPhase.wiping_signatures q = refl
set_phase-arm g ArmedPhase.writing q = refl
set_phase-arm g ArmedPhase.cooldown q = refl
set_phase-arm g ArmedPhase.verifying q = refl

set_phases-arm :
    (g : FlashGuard) (p : ArmedPhase) (ps : List ArmedPhase)
    → set_phases (arm g p) ps ≡ arm g (latest p ps)
unfolding set_phases
set_phases-arm g p [] = refl
set_phases-arm g p (q ∷ ps) = rw (set_phase-arm g p q) (set_phases-arm g q ps)

arm_notice :
    (g : FlashGuard) (p : ArmedPhase)
    → fatal_notice (arm g p).inner ≡ some (g.dev_path, interrupted_verb (guard_phase p))
unfolding fatal_notice arm guard_phase would_warn_on_drop current_phase from_u8
arm_notice g ArmedPhase.wiping_signatures = refl
arm_notice g ArmedPhase.writing = refl
arm_notice g ArmedPhase.cooldown = refl
arm_notice g ArmedPhase.verifying = refl

-- From the moment that a guard is armed, and through every change of its phase, it warns when it is
-- dropped, with the path of its device and the verb of the phase that was set last. Once it is
-- disarmed it does not warn, and no later change of the phase arms it again.
pub fatal_notice-set_phases :
    (g : FlashGuard) (p : ArmedPhase) (ps : List ArmedPhase)
    → (fatal_notice (set_phases (arm g p) ps).inner
        ≡ some (g.dev_path, interrupted_verb (guard_phase (latest p ps))))
      × (fatal_notice (disarm (set_phases (arm g p) ps)) ≡ none)
      × ((q : ArmedPhase)
          → fatal_notice (advance_phase (disarm (set_phases (arm g p) ps)) q) ≡ none)
unfolding disarm fatal_notice would_warn_on_drop current_phase from_u8 advance_phase
fatal_notice-set_phases g p ps =
    (rw (set_phases-arm g p ps) (arm_notice g (latest p ps)), refl, λ q. refl)

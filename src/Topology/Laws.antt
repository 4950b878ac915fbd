-- ===== src/Topology/Laws.antt =====
-- Laws of phase 1: crates/imi-core/src/phases/phase_1.rs.
use imi.Common.{ℕ, List, [], ◌∷◌, ◌≡◌, refl, codes, Result, ok, err, map_err}
use imi.Error.{Error, untouched, at, text, context}
use imi.Events.{topology, phase_started, phase_finished, completed}
use imi.Exec.{continue, within, lift, pure, ◌>>=◌, ◌>>◌}
use imi.Exec.Ends.{Ends, Ends-continue, Ends-any, done, stop}
use imi.Host.{Host}
use imi.Host.Spare.{
  within_held, holds_after, from_disk-held, mounts_on_target-held,
  reject_active_stacked_volumes-held,
}
use imi.Mount.{MountInfo, TargetDevts, ensure_unmounted}
use imi.Mount.Scan.{mounts_on_target}
use imi.Mount.Order.{deepest_first}
use imi.Mount.Detach.{disable_swaps_on_target, unmount_all}
use imi.Session.{Target, outcome_of}
use imi.Topology.Detached.{
  AllWhite, Spared, deepest_first-AllWhite, emitted, unmount_each-held, disable_swaps-held,
  checked-held,
}
use imi.Wipe.Run.{at-device}
use imi.Topology.{clear_target, topology_run}

module _ (h : Host) (P : h.World → Type 0) (l : Spared h P) where
  open h use {World, emit}

  abbrev Cleared : TargetDevts → World → Type 0
  Cleared devts s' = P s' × ((s₀ : World) × (mounts_on_target h devts s₀ ≡ (ok [], s')))

  abbrev Refused : Error → World → Type 0
  Refused e s' = P s'

  rescanned :
      (devts : TargetDevts) (s : World)
      → P s
      → Ends Cleared Refused (
          continue
            (λ residual. do
              within (text "Phase 1") (
                  lift (
                    ensure_unmounted residual
                      (codes "target still mounted after unmount attempts")))
              pure devts)
            (context
              (text "Phase 1: re-scanning mounts after unmount")
              (mounts_on_target h devts s).0)
            (mounts_on_target h devts s).1)
  unfolding context ensure_unmounted
  rescanned devts s x =
      go (Ends-any (mounts_on_target h devts s))
        (holds_after P (mounts_on_target-held h P l.looks devts s x))
    where
      go :
          {r : Result Error (List MountInfo) × World}
          → Ends
              (λ ms s'. mounts_on_target h devts s ≡ (ok ms, s'))
              (λ e s'. mounts_on_target h devts s ≡ (err e, s'))
              r
          → P r.1
          → Ends Cleared Refused (
              continue
                (λ residual. do
                  within (text "Phase 1") (
                      lift (
                        ensure_unmounted residual
                          (codes "target still mounted after unmount attempts")))
                  pure devts)
                (context (text "Phase 1: re-scanning mounts after unmount") r.0)
                r.1)
      go (done {a = []} e) y = done (y, (s, e))
      go (done {a = m ∷ ms} e) y = stop y
      go (stop e) y = stop y

  clear_target-Cleared :
      (fuel : ℕ) (target : Target) (s : World)
      → P s
      → Ends Cleared Refused (clear_target h fuel target s)
  unfolding clear_target unmount_all
  clear_target-Cleared fuel target s x =
      Ends-continue _
        (within_held P (text "Phase 1: rejecting active stacked volumes") (
          reject_active_stacked_volumes-held h P l.looks fuel target.dev_kname _
            (emitted h P l (phase_started topology) s x)))
        (λ _ s₁ x₁.
          Ends-continue _
            (within_held P (text "Phase 1: building target devt set")
              (from_disk-held h P l.looks target.dev_kname s₁ x₁))
            (λ devts s₂ x₂.
              Ends-continue _
                (within_held P (text "Phase 1: enumerating mounts on target")
                  (mounts_on_target-held h P l.looks devts s₂ x₂))
                (λ mounts s₃ x₃.
                  Ends-continue _ (checked-held h P l mounts target.dev_canon s₃ x₃)
                    (λ _ s₄ x₄. detached devts mounts s₄ x₄.1 x₄.0) (λ e s' y. y))
                (λ e s' y. y))
            (λ e s' y. y))
        (λ e s' y. y)
    where
      detached :
          (devts : TargetDevts) (mounts : List MountInfo) (s : World)
          → AllWhite mounts
          → P s
          → Ends Cleared Refused (
              (do
                within (text "Phase 1: disabling swaps on target") (disable_swaps_on_target h devts)
                within (text "Phase 1: unmounting partitions of target") (unmount_all h mounts)
                residual ←
                    within
                      (text "Phase 1: re-scanning mounts after unmount")
                      (mounts_on_target h devts)
                within (text "Phase 1") (
                    lift (
                      ensure_unmounted residual
                        (codes "target still mounted after unmount attempts")))
                pure devts)
                s)
      detached devts mounts s w x =
          Ends-continue _
            (within_held P (text "Phase 1: disabling swaps on target")
              (disable_swaps-held h P l devts s x))
            (λ _ s₁ x₁.
              Ends-continue _
                (within_held P (text "Phase 1: unmounting partitions of target") (
                  unmount_each-held h P l (deepest_first mounts) s₁
                    (deepest_first-AllWhite mounts w) x₁))
                (λ _ s₂ x₂. rescanned devts s₂ x₂) (λ e s' y. y))
            (λ e s' y. y)

-- Phase 1 keeps every property of the world that only an unmount outside the whitelisted roots could
-- end. If it succeeds, the last that it did before it reported was a scan of the mount table that
-- found nothing mounted from the devices it returns. If it fails, the error says that the device is
-- untouched.
pub topology_run-Spared :
    (h : Host) (P : h.World → Type 0) (fuel : ℕ) (target : Target) (s : h.World)
    → Spared h P
    → P s
    → Ends
        (λ devts s'.
          P s'
          × (s₀ s₁ : h.World) × (mounts_on_target h devts s₀ ≡ (ok [], s₁))
          × (s' ≡ h.emit (phase_finished topology completed) s₁))
        (λ e s'. P s' × (e.device ≡ untouched))
        (topology_run h fuel target s)
unfolding topology_run
topology_run-Spared h P fuel target s l x = go (clear_target-Cleared h P l fuel target s x)
  where
    go :
        {r : Result Error TargetDevts × h.World}
        → Ends
            (λ devts s'. P s' × ((s₀ : h.World) × (mounts_on_target h devts s₀ ≡ (ok [], s'))))
            (λ e s'. P s')
            r
        → Ends
            (λ devts s'.
              P s'
              × (s₀ s₁ : h.World) × (mounts_on_target h devts s₀ ≡ (ok [], s₁))
              × (s' ≡ h.emit (phase_finished topology completed) s₁))
            (λ e s'. P s' × (e.device ≡ untouched))
            (
              map_err (at untouched) r.0,
              h.emit (phase_finished topology (outcome_of (map_err (at untouched) r.0))) r.1,
            )
    go (done {s = s₁} (p, (s₀, e))) = done (l.looks.emit_P _ s₁ p, s₀, s₁, e, refl)
    go (stop {e} {s = s₁} p) = stop (l.looks.emit_P _ s₁ p, at-device untouched e)

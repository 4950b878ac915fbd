-- ===== src/Topology/Detached.antt =====
-- Laws of what phase 1 takes away: crates/imi-core/src/common/mount.rs.
use imi.Common.{
  Bytes, List, [], ◌∷◌, Option, none, some, ◌≡◌, inl, inr, refl, Bool, true, false, leb,
  if◌then◌else◌, length, codes, Result, ok, err,
}
use imi.Error.{Error, IoKind, not_found, text, say, context}
use imi.Events.{Event, action}
use imi.Exec.Ends.{Ends, Ends-if, done, stop}
use imi.Host.{Host, Stat}
use imi.Host.Spare.{Looks, Holding, held, call_held, then_held}
use imi.Mount.{MountInfo, TargetDevts, contains, is_whitelisted, enforce_whitelist}
use imi.Mount.Guards.{Enforced, enforce_whitelist-Enforced}
use imi.Mount.Octal.{unescape_proc_octal}
use imi.Mount.Order.{insert, deepest_first}
use imi.Mount.Detach.{
  first_field, has_nul, if_target, on_swap, after_header, disable_each, on_swaps,
  disable_swaps_on_target, unmount_each,
}
use imi.Strings.{lines}

-- every mount is under a whitelisted root
abbrev pub AllWhite : List MountInfo → Type 0
AllWhite [] = Unit
AllWhite (m ∷ ms) = (is_whitelisted m.target ≡ true) × AllWhite ms

pub insert-AllWhite :
    (m : MountInfo) (ms : List MountInfo)
    → is_whitelisted m.target ≡ true
    → AllWhite ms
    → AllWhite (insert m ms)
unfolding insert
insert-AllWhite m [] w p = (w, tt)
insert-AllWhite m (x ∷ xs) w p =
    go (leb (length x.target) (length m.target)) (insert-AllWhite m xs w p.1)
  where
    go : (b : Bool) → AllWhite (insert m xs) → AllWhite (if b then m ∷ x ∷ xs else x ∷ insert m xs)
    go true q = (w, p)
    go false q = (p.0, q)

pub deepest_first-AllWhite : (ms : List MountInfo) → AllWhite ms → AllWhite (deepest_first ms)
unfolding deepest_first
deepest_first-AllWhite [] p = tt
deepest_first-AllWhite (m ∷ ms) p =
    insert-AllWhite m (deepest_first ms) p.0 (deepest_first-AllWhite ms p.1)

pub Enforced-ok :
    (ms : List MountInfo) (dev : Bytes) {r : Result Error (Unit {0})}
    → Enforced ms dev r
    → r ≡ ok tt
    → AllWhite ms
Enforced-ok [] dev p e = tt
Enforced-ok (m ∷ ms) dev (inl p) e = (p.0, Enforced-ok ms dev p.1 e)
Enforced-ok (m ∷ ms) dev (inr p) e = absurd (cc)

-- `P` is a property of the world that nothing changes but what a phase must not do: unmount a file
-- system that is not under a whitelisted root
pub record Spared (h : Host) (P : h.World → Type 0) : Type 0 where
  pub looks : Looks h P
  pub umount_P : (p : Bytes) (s : h.World) → is_whitelisted p ≡ true → P s → P (h.umount p s).1
  pub swapoff_P : (p : Bytes) (s : h.World) → P s → P (h.swapoff p s).1

module _ (h : Host) (P : h.World → Type 0) (l : Spared h P) where
  open h use {World, emit}

  pub emitted : (e : Event) (s : World) → P s → P (emit e s)
  emitted e s x = l.looks.emit_P e s x

  pub unmount_each-held :
      (ms : List MountInfo) (s : World) → AllWhite ms → P s → Holding P (unmount_each h ms s)
  unfolding unmount_each
  unmount_each-held [] s w x = done x
  unmount_each-held (m ∷ ms) s w x =
      let s₁ = emit (action (say "unmounting" [] (m.target ∷ []))) s in
      then_held P _
        (call_held P _ (h.umount m.target) s₁ (l.umount_P m.target s₁ w.0 (emitted _ s x)))
        (λ _ s₂ y. unmount_each-held ms s₂ w.1 y)

  pub if_target-held :
      (targets : TargetDevts) (path : Bytes) (r : Result IoKind Stat) (s : World)
      → P s
      → Holding P (if_target h targets path r s)
  if_target-held targets path (err k) s x = done x
  if_target-held targets path (ok st) s x =
      Ends-if (contains targets st.rdev) _ _ s
        (λ _.
          let s₁ = emit (action (say "disabling swap on" [] (path ∷ []))) s in
          Ends-if (has_nul path) _ _ s₁ (λ _. stop (emitted _ s x))
            (λ _. held P _ (l.swapoff_P path s₁ (emitted _ s x))))
        (λ _. done x)

  pub on_swap-held :
      (targets : TargetDevts) (first : Option Bytes) (s : World)
      → P s
      → Holding P (on_swap h targets first s)
  on_swap-held targets none s x = done x
  on_swap-held targets (some p) s x =
      if_target-held targets (unescape_proc_octal p) _ _ (l.looks.stat_P _ s x)

  pub disable_each-held :
      (targets : TargetDevts) (rows : List Bytes) (s : World)
      → P s
      → Holding P (disable_each h targets rows s)
  unfolding disable_each
  disable_each-held targets [] s x = done x
  disable_each-held targets (row ∷ rows) s x =
      then_held P _ (on_swap-held targets (first_field row) s x)
        (λ _ s₁ y. disable_each-held targets rows s₁ y)

  pub disable_swaps-held :
      (targets : TargetDevts) (s : World) → P s → Holding P (disable_swaps_on_target h targets s)
  unfolding disable_swaps_on_target
  disable_swaps-held targets s x =
      go (h.read_to_string (codes "/proc/swaps") s).0 (l.looks.read_P _ s x)
    where
      go : (r : Result IoKind Bytes) {s₁ : World} → P s₁ → Holding P (on_swaps h targets r s₁)
      go (ok table) y = disable_each-held targets (after_header (lines table)) _ y
      go (err not_found) y = done y
      go (err _) y = stop y

  -- what is behind the whitelist check is done to whitelisted mounts
  pub checked-held :
      (mounts : List MountInfo) (dev : Bytes) (s : World)
      → P s
      → Ends
          (λ _ s'. P s' × AllWhite mounts)
          (λ _ s'. P s')
          (context (text "Phase 1: whitelist check") (enforce_whitelist mounts dev), s)
  unfolding context
  checked-held mounts dev s x =
      go (enforce_whitelist mounts dev)
        (Enforced-ok mounts dev (enforce_whitelist-Enforced mounts dev))
    where
      go :
          (r : Result Error (Unit {0}))
          → (r ≡ ok tt → AllWhite mounts)
          → Ends
              (λ _ s'. P s' × AllWhite mounts)
              (λ _ s'. P s')
              (context (text "Phase 1: whitelist check") r, s)
      go (ok tt) f = done (x, f refl)
      go (err e) f = stop x

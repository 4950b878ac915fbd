-- ===== src/Mount/Teardown.antt =====
-- Laws of the unmounting of phase 1: `unmount_all` of crates/imi-core/src/common/mount.rs.
use imi.Common.{◌≡◌, refl, ap, List, [], ◌∷◌, ◌++◌, Result, ok, err}
use mathlib.Core.List.{Perm}
use imi.Error.{Error, IoKind, say, layer, foreign, io}
use imi.Events.{action}
use imi.Exec.Ends.{Ends, Ends-continue, Ends-mono, Ends-any, Ends-call, done}
use imi.Host.{Host}
use imi.Mount.{MountInfo}
use imi.Mount.Order.{deepest_first}
use imi.Mount.Order.Laws.{Descending, deepest_first-Descending}
use imi.Mount.Detach.{unmount_each, unmount_all}

module _ (h : Host) where
  open h use {World, emit, umount}

  -- a mount is announced and then unmounted
  abbrev pub unmounted : MountInfo → World → Result IoKind (Unit {0}) × World
  unmounted m s = umount m.target (emit (action (say "unmounting" [] (m.target ∷ []))) s)

  -- each mount of a list is unmounted, in its order, and nothing else is done
  pub data Unmounts : List MountInfo → World → World → Type 0 where
    at_end : {s : World} → Unmounts [] s s
    then_next :
        {m : MountInfo} {ms : List MountInfo} {s s₁ s₂ : World}
        → unmounted m s ≡ (ok tt, s₁)
        → Unmounts ms s₁ s₂
        → Unmounts (m ∷ ms) s s₂

  -- one mount of a list is refused: those in front of it are unmounted, those behind it are left
  pub record Refused (l : List MountInfo) (s : World) (e : Error) (s' : World) : Type 0 where
    pub front : List MountInfo
    pub refused : MountInfo
    pub left : List MountInfo
    pub between : World
    pub reason : IoKind
    pub parts : l ≡ front ++ (refused ∷ left)
    pub gone : Unmounts front s between
    pub last : unmounted refused between ≡ (err reason, s')
    pub named : e ≡ layer (say "unmounting failed" [] (refused.target ∷ [])) (foreign (io reason))

  further :
      (m : MountInfo) (ms : List MountInfo) (s s₁ : World) (e : Error) (s' : World)
      → unmounted m s ≡ (ok tt, s₁)
      → Refused ms s₁ e s'
      → Refused (m ∷ ms) s e s'
  further m ms s s₁ e s' x r = record {
    front = m ∷ r.front;
    refused = r.refused;
    left = r.left;
    between = r.between;
    reason = r.reason;
    parts = ap (◌∷◌ m) r.parts;
    gone = then_next x r.gone;
    last = r.last;
    named = r.named;
  }

  unmount_each-Unmounts :
      (l : List MountInfo) (s : World)
      → Ends (λ _ s'. Unmounts l s s') (λ e s'. Refused l s e s') (unmount_each h l s)
  unfolding unmount_each
  unmount_each-Unmounts [] s = done at_end
  unmount_each-Unmounts (m ∷ ms) s =
      Ends-continue {R = Reason} _
        (Ends-call {R = λ k s'. unmounted m s ≡ (err k, s')} _ (umount m.target) _
          (Ends-any (unmounted m s)) (λ k s' x. (k, x, refl)))
        (λ _ s₁ x.
          Ends-mono (unmount_each-Unmounts ms s₁) (λ _ s₂ u. then_next x u)
            (λ e s' r. further m ms s s₁ e s' x r))
        (λ e s' y. record {
          front = [];
          refused = m;
          left = ms;
          between = s;
          reason = y.0;
          parts = refl;
          gone = at_end;
          last = y.1;
          named = y.2;
        })
    where
      Reason : Error → World → Type 0
      Reason e s' =
          (k : IoKind) × (unmounted m s ≡ (err k, s'))
          × (e ≡ layer (say "unmounting failed" [] (m.target ∷ [])) (foreign (io k)))

  -- `unmount_all` goes by a list that holds each of the mounts as often as it was given, and in which
  -- no target is longer than one in front of it. If it succeeds, each of the list was announced and
  -- unmounted, in that order, and nothing else was done. If it fails, the error names the mount that
  -- was refused and the reason, those in front of it in the list were unmounted, in that order, and
  -- nothing was done to those behind it.
  pub unmount_all-Unmounts :
      (mounts : List MountInfo) (s : World)
      → (l : List MountInfo) × Perm l mounts
        × Descending l
        × Ends (λ _ s'. Unmounts l s s') (λ e s'. Refused l s e s') (unmount_all h mounts s)
  unfolding unmount_all
  unmount_all-Unmounts mounts s =
      let (same, order) = deepest_first-Descending mounts in
      (deepest_first mounts, same, order, unmount_each-Unmounts (deepest_first mounts) s)

-- ===== src/Mount/Guards.antt =====
-- Which mounts may be torn down.
use imi.Common.{
  starts_with_iff, ◌≡◌, ◌↔◌, ◌⊎◌, inl, inr, refl, sym, ◌∙◌, arith, Bytes, List, [], ◌∷◌, ◌++◌, Bool,
  true, false, ◌||◌, codes, bytes_eq, bytes_eq_iff, Bool-cases, starts_with, Result, ok, err,
  append_assoc,
}
use imi.Error.{Error, msg, say}
use imi.Mount.{MountInfo, under, is_whitelisted, enforce_whitelist}

-- `s` is `root`, or a path below it
abbrev pub AtOrBelow : Bytes → Bytes → Type 0
AtOrBelow root s = (s ≡ root) ⊎ ((rest : Bytes) × (s ≡ root ++ (47 ∷ rest)))

under_iff : (s root : Bytes) → (under s root ≡ true) ↔ AtOrBelow root s
under_iff s root = (there (bytes_eq s root) refl, back)
  where
    there :
        (b : Bool)
        → bytes_eq s root ≡ b
        → (b || starts_with s (root ++ (47 ∷ []))) ≡ true
        → AtOrBelow root s
    there true e h = inl ((bytes_eq_iff s root).0 e)
    there false e h =
        let x = (starts_with_iff s (root ++ (47 ∷ []))).0 h in
        inr (x.0, x.1 ∙ append_assoc root (47 ∷ []) x.0)

    back : AtOrBelow root s → under s root ≡ true
    back (inl e) = rw ((bytes_eq_iff s root).1 e) refl
    back (inr (rest, e)) =
        let x : starts_with s (root ++ (47 ∷ [])) ≡ true =
          (starts_with_iff s (root ++ (47 ∷ []))).1
            (rest, e ∙ sym (append_assoc root (47 ∷ []) rest)) in
        ground (arith, x)

or-cases : (a b c : Bool) → ((a || (b || c)) ≡ true) ↔ ((a ≡ true) ⊎ ((b ≡ true) ⊎ (c ≡ true)))
or-cases a b c = ground arith

-- A target may be unmounted exactly when it is one of the three roots or a path below one, with a
-- slash behind the root: a name that only begins like a root does not count.
pub is_whitelisted_iff :
    (s : Bytes)
    → (is_whitelisted s ≡ true) ↔ (
        AtOrBelow (codes "/media") s
        ⊎ (AtOrBelow (codes "/run/media") s ⊎ AtOrBelow (codes "/var/run/media") s))
unfolding is_whitelisted
is_whitelisted_iff s = (
  (λ h. elim ((or-cases _ _ _).0 h) [
    | inl x ↦ inl ((under_iff s (codes "/media")).0 x)
    | inr (inl x) ↦ inr (inl ((under_iff s (codes "/run/media")).0 x))
    | inr (inr x) ↦ inr (inr ((under_iff s (codes "/var/run/media")).0 x))
  ]),
  (λ h. (or-cases _ _ _).1 (elim h [
    | inl x ↦ inl ((under_iff s (codes "/media")).1 x)
    | inr (inl x) ↦ inr (inl ((under_iff s (codes "/run/media")).1 x))
    | inr (inr x) ↦ inr (inr ((under_iff s (codes "/var/run/media")).1 x))
  ])),
)

-- what the check of a list of mounts must have found
abbrev pub Enforced : List MountInfo → Bytes → Result Error (Unit {0}) → Type 0
Enforced [] dev r = r ≡ ok tt
Enforced (m ∷ mounts) dev r =
    ((is_whitelisted m.target ≡ true) × Enforced mounts dev r)
    ⊎ ((is_whitelisted m.target ≡ false)
        × (r ≡ err (msg (say "target is mounted outside the whitelist" [] (dev ∷ m.target ∷ [])))))

-- The check passes only if every mount is under a root, and else it names the first that is not.
pub enforce_whitelist-Enforced :
    (mounts : List MountInfo) (dev : Bytes) → Enforced mounts dev (enforce_whitelist mounts dev)
unfolding enforce_whitelist
enforce_whitelist-Enforced [] dev = refl
enforce_whitelist-Enforced (m ∷ mounts) dev = elim (Bool-cases (is_whitelisted m.target)) [
  | inl t ↦ inl (t, rw t (enforce_whitelist-Enforced mounts dev))
  | inr f ↦ inr (f, rw f refl)
]

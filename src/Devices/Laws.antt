-- ===== src/Devices/Laws.antt =====
-- Laws of the list of candidates: crates/imi-core/src/common/devices.rs.
use imi.Common.{
  ℕ, Bytes, List, [], ◌∷◌, ◌++◌, Option, none, some, ◌≡◌, refl, Bool, Bool-cases, inl, inr, true,
  false, not, if◌then◌else◌, codes, Result, ok, err,
}
use imi.Error.{Error}
use imi.Host.{Host}
use imi.Mount.{TargetDevts}
use imi.Mount.Scan.{mounts_in_text}
use imi.Devices.{
  CandidateDevice, DiskProbes, is_virtual, all_whitelisted, place, order_for_display, kept,
  candidate, on_devts, on_holders, on_size, consider, consider_each, candidates_from_parts,
}

-- those with one value of the flag, in their order
abbrev pub flagged : Bool → List CandidateDevice → List CandidateDevice
flagged b [] = []
flagged true (c ∷ cs) = let rest = flagged true cs in if c.removable then c ∷ rest else rest
flagged false (c ∷ cs) = let rest = flagged false cs in if c.removable then rest else c ∷ rest

abbrev AllFlagged : Bool → List CandidateDevice → Type 0
AllFlagged b [] = Unit {0}
AllFlagged b (c ∷ cs) = (c.removable ≡ b) × AllFlagged b cs

flagged-AllFlagged : (b : Bool) (l : List CandidateDevice) → AllFlagged b (flagged b l)
flagged-AllFlagged true [] = tt
flagged-AllFlagged false [] = tt
flagged-AllFlagged true (c ∷ cs) = elim (Bool-cases c.removable) [
  | inl t ↦ simp t (refl, flagged-AllFlagged true cs)
  | inr f ↦ simp f (flagged-AllFlagged true cs)
]
flagged-AllFlagged false (c ∷ cs) = elim (Bool-cases c.removable) [
  | inl t ↦ simp t (flagged-AllFlagged false cs)
  | inr f ↦ simp f (refl, flagged-AllFlagged false cs)
]

place_removable :
    (c : CandidateDevice) (l : List CandidateDevice) → c.removable ≡ true → place c l ≡ c ∷ l
unfolding place
place_removable c [] e = refl
place_removable c (x ∷ xs) e = simp e

-- behind the removable ones and in front of the others
place_fixed :
    (c : CandidateDevice) (xs ys : List CandidateDevice)
    → c.removable ≡ false
    → AllFlagged true xs
    → AllFlagged false ys
    → place c (xs ++ ys) ≡ xs ++ (c ∷ ys)
unfolding place
place_fixed c [] [] e p q = refl
place_fixed c [] (y ∷ ys) e p q = simp (e, q.0)
place_fixed c (x ∷ xs) ys e p q = simp (e, p.0, place_fixed c xs ys e p.1 q)

order_for_display_lem :
    (l : List CandidateDevice) → order_for_display l ≡ flagged true l ++ flagged false l
unfolding order_for_display
order_for_display_lem [] = refl
order_for_display_lem (c ∷ cs) = elim (Bool-cases c.removable) [
  | inl t ↦
      simp (t, order_for_display_lem cs) (place_removable c (flagged true cs ++ flagged false cs) t)
  | inr f ↦
      simp (f, order_for_display_lem cs)
        (place_fixed c (flagged true cs) (flagged false cs) f (flagged-AllFlagged true cs)
          (flagged-AllFlagged false cs))
]

module _ (h : Host) (mountinfo : Bytes) (probes : DiskProbes h.World) where
  open h use {World}

  -- a disk without a medium, a holder, or a mount outside the whitelisted roots
  pub record Offered (kname : Bytes) (c : CandidateDevice) : Type 0 where
    pub named : (c.kname ≡ kname) × (c.path ≡ codes "/dev/" ++ kname) × (is_virtual kname ≡ false)
    pub sized : (s : World) × ((probes.size_bytes kname s).0 ≡ some c.size_bytes)
    pub unheld : (s : World) × ((probes.holders kname s).0 ≡ ok [])
    pub unmounted :
        (s : World) × (s' : World) × (ds : TargetDevts) × ((probes.devts kname s).0 ≡ ok ds)
        × (all_whitelisted (mounts_in_text h mountinfo ds s').0 ≡ true)
    pub described :
        (s : World) × (s' : World) × ((probes.model kname s).0 ≡ c.model)
        × ((probes.removable kname s').0 ≡ c.removable)

  -- why a disk is left out
  pub data LeftOut (kname : Bytes) : Type 0 where
    virtual : is_virtual kname ≡ true → LeftOut kname
    no_medium : (s : World) → (probes.size_bytes kname s).0 ≡ none → LeftOut kname
    unknown_holders : (s : World) (e : Error) → (probes.holders kname s).0 ≡ err e → LeftOut kname
    stacked :
        (s : World) (x : Bytes) (xs : List Bytes)
        → (probes.holders kname s).0 ≡ ok (x ∷ xs)
        → LeftOut kname
    unknown_devts : (s : World) (e : Error) → (probes.devts kname s).0 ≡ err e → LeftOut kname
    system_mount :
        (s s' : World) (ds : TargetDevts)
        → (probes.devts kname s).0 ≡ ok ds
        → all_whitelisted (mounts_in_text h mountinfo ds s').0 ≡ false
        → LeftOut kname

  -- each disk in its order is offered or left out
  pub data Sifted : List Bytes → List CandidateDevice → Type 0 where
    at_end : Sifted [] []
    offered :
        {kname : Bytes} {knames : List Bytes} {c : CandidateDevice} {cs : List CandidateDevice}
        → Offered kname c
        → Sifted knames cs
        → Sifted (kname ∷ knames) (c ∷ cs)
    left_out :
        {kname : Bytes} {knames : List Bytes} {cs : List CandidateDevice}
        → LeftOut kname
        → Sifted knames cs
        → Sifted (kname ∷ knames) cs

  data Judged (kname : Bytes) : Option CandidateDevice → Type 0 where
    yes_to : {c : CandidateDevice} → Offered kname c → Judged kname (some c)
    no_to : LeftOut kname → Judged kname none

  sift :
      {kname : Bytes} {knames : List Bytes} {o : Option CandidateDevice} {cs : List CandidateDevice}
      → Judged kname o
      → Sifted knames cs
      → Sifted (kname ∷ knames) (kept o cs)
  sift (yes_to a) r = offered a r
  sift (no_to a) r = left_out a r

  module _ (kname : Bytes) (named : is_virtual kname ≡ false) where
    abbrev Verdict : Option CandidateDevice × World → Type 0
    Verdict r = Judged kname r.0

    mounts-Verdict :
        (n : ℕ) (s₀ s₁ s s' : World) (ds : TargetDevts) (b : Bool)
        → (probes.size_bytes kname s₀).0 ≡ some n
        → (probes.holders kname s₁).0 ≡ ok []
        → (probes.devts kname s).0 ≡ ok ds
        → all_whitelisted (mounts_in_text h mountinfo ds s').0 ≡ b
        → Verdict (
            if not b
            then (none, (mounts_in_text h mountinfo ds s').1)
            else candidate h mountinfo probes kname n (mounts_in_text h mountinfo ds s').1)
    mounts-Verdict n s₀ s₁ s s' ds false e₀ e₁ d e = no_to (LeftOut.system_mount s s' ds d e)
    mounts-Verdict n s₀ s₁ s s' ds true e₀ e₁ d e = yes_to record {
      named = (refl, refl, named);
      sized = (s₀, e₀);
      unheld = (s₁, e₁);
      unmounted = (s, s', ds, d, e);
      described = (
        (mounts_in_text h mountinfo ds s').1,
        (probes.model kname (mounts_in_text h mountinfo ds s').1).1,
        refl,
        refl,
      );
    }

    devts-Verdict :
        (n : ℕ) (s₀ s₁ s s' : World) (r : Result Error TargetDevts)
        → (probes.size_bytes kname s₀).0 ≡ some n
        → (probes.holders kname s₁).0 ≡ ok []
        → (probes.devts kname s).0 ≡ r
        → Verdict (on_devts h mountinfo probes kname n (r, s'))
    devts-Verdict n s₀ s₁ s s' (err x) e₀ e₁ d = no_to (LeftOut.unknown_devts s x d)
    devts-Verdict n s₀ s₁ s s' (ok ds) e₀ e₁ d = mounts-Verdict n s₀ s₁ s s' ds _ e₀ e₁ d refl

    holders-Verdict :
        (n : ℕ) (s₀ s s' : World) (r : Result Error (List Bytes))
        → (probes.size_bytes kname s₀).0 ≡ some n
        → (probes.holders kname s).0 ≡ r
        → Verdict (on_holders h mountinfo probes kname n (r, s'))
    holders-Verdict n s₀ s s' (err x) e₀ e = no_to (LeftOut.unknown_holders s x e)
    holders-Verdict n s₀ s s' (ok (x ∷ xs)) e₀ e = no_to (LeftOut.stacked s x xs e)
    holders-Verdict n s₀ s s' (ok []) e₀ e =
        devts-Verdict n s₀ s s' (probes.devts kname s').1 (probes.devts kname s').0 e₀ e refl

    size-Verdict :
        (s s' : World) (r : Option ℕ)
        → (probes.size_bytes kname s).0 ≡ r
        → Verdict (on_size h mountinfo probes kname (r, s'))
    size-Verdict s s' none e = no_to (LeftOut.no_medium s e)
    size-Verdict s s' (some n) e =
        holders-Verdict n s s' (probes.holders kname s').1 (probes.holders kname s').0 e refl

  consider-Judged :
      (kname : Bytes) (s : World) → Judged kname (consider h mountinfo probes kname s).0
  unfolding consider
  consider-Judged kname s = go (is_virtual kname) refl
    where
      go :
          (b : Bool)
          → is_virtual kname ≡ b
          → Judged kname
              (if b
                then (none, s)
                else on_size h mountinfo probes kname (probes.size_bytes kname s)).0
      go true e = no_to (LeftOut.virtual e)
      go false e =
          size-Verdict kname e s (probes.size_bytes kname s).1 (probes.size_bytes kname s).0 refl

  consider_each-Sifted :
      (knames : List Bytes) (s : World)
      → Sifted knames (consider_each h mountinfo probes knames s).0
  unfolding consider_each
  consider_each-Sifted [] s = at_end
  consider_each-Sifted (kname ∷ knames) s =
      sift (consider-Judged kname s)
        (consider_each-Sifted knames (consider h mountinfo probes kname s).1)

  -- Of the disks in their order, each is offered or left out. It is offered only if it has no virtual
  -- name, has a size, has no holder, and has no mount outside the whitelisted roots, and it is left out
  -- only if one of these fails or could not be read. The list is that of the removable disks that
  -- are offered and behind it that of the others, each in the order of the disks.
  pub candidates_from_parts-Sifted :
      (knames : List Bytes) (s : World)
      → (cs : List CandidateDevice) × Sifted knames cs
        × ((candidates_from_parts h mountinfo probes knames s).0
            ≡ flagged true cs ++ flagged false cs)
  unfolding candidates_from_parts
  candidates_from_parts-Sifted knames s = (
    (consider_each h mountinfo probes knames s).0,
    consider_each-Sifted knames s,
    order_for_display_lem (consider_each h mountinfo probes knames s).0,
  )

-- ===== src/Sysfs/Holders.antt =====
-- Laws of `walk_holders` and `holders_recursive` of crates/imi-core/src/common/sysfs.rs.
use imi.Common.{
  ℕ, zero, suc, ◌<◌, Bytes, List, [], ◌∷◌, true, false, ◌≡◌, ◌≢◌, ◌⊎◌, inl, inr, refl, sym, ◌∙◌,
  arith, length, Result, ok, err, Bool-cases,
}
use mathlib.Core.List.{Memᴰ}
use mathlib.Core.List.Memᴰ
use mathlib.Core.Path.{subst}
use imi.Error.{Error, IoKind, not_found, msg, out_of_fuel, layer, context_io}
use imi.Exec.{Exec}
use imi.Exec.Ends.{Ends, Ends-continue, Ends-if, Ends-mono, done, stop}
use imi.Host.{Host}
use imi.Strings.Utf8.{is_utf8}
use imi.Sysfs.Members.{
  member-cons, member-head, member-split, remaining, remaining_mono, remaining-length,
  remaining-new,
}
use imi.Sysfs.Names.{member, holders_dir, each_holder, on_listing, walk_holders, holders_recursive}

abbrev pub Listing : Type 0
Listing = Result IoKind (List (Result IoKind Bytes))

module _ (h : Host) (dir : Bytes → Listing) where
  open h use {World, read_dir}

  -- /sys does not change while it is read
  abbrev pub Frozen : Type 0
  Frozen = (p : Bytes) (s : World) → (read_dir p s).0 ≡ dir p

  -- `x` is listed as a holder of `k`
  abbrev pub Holder : Bytes → Bytes → Type 0
  Holder k x =
      (entries : List (Result IoKind Bytes)) × (dir (holders_dir k) ≡ ok entries)
      × Memᴰ (ok x) entries

  -- `x` is above `k`, through any number of holders
  pub data Above (k : Bytes) : Bytes → Type 0 where
    direct : {x : Bytes} → Holder k x → Above k x
    further : {x y : Bytes} → Above k x → Holder x y → Above k y

  -- all holders of `k` are legible
  abbrev pub Legible : Bytes → Type 0
  Legible k =
      ((kind : IoKind) → dir (holders_dir k) ≡ err kind → kind ≡ not_found)
      × ((entries : List (Result IoKind Bytes)) (e : Result IoKind Bytes)
          → dir (holders_dir k) ≡ ok entries
          → Memᴰ e entries
          → (x : Bytes) × (e ≡ ok x) × (is_utf8 x ≡ true))

  abbrev Settled : List Bytes → Bytes → Type 0
  Settled acc k = Legible k × ((x : Bytes) → Holder k x → member x acc ≡ true)

  -- what a walk from `k` adds to `acc`
  record Grown (k : Bytes) (acc acc' : List Bytes) : Type 0 where
    pub sub : (x : Bytes) → member x acc ≡ true → member x acc' ≡ true
    pub closed : (x : Bytes) → member x acc' ≡ true → member x acc ≡ false → Settled acc' x
    pub sound : (x : Bytes) → member x acc' ≡ true → (member x acc ≡ true) ⊎ Above k x

  -- what the entries of a listing have to be
  record Walked (k : Bytes) (es : List (Result IoKind Bytes)) (acc acc' : List Bytes) : Type 0 where
    pub grown : Grown k acc acc'
    pub legible :
        (e : Result IoKind Bytes) → Memᴰ e es → (x : Bytes) × (e ≡ ok x) × (is_utf8 x ≡ true)
    pub covered : (x : Bytes) → Memᴰ (ok x) es → member x acc' ≡ true

  abbrev Fuelled : Error → World → Type 0
  Fuelled e s = e.detail ≢ out_of_fuel

  stays : (k : Bytes) (acc : List Bytes) → Grown k acc acc
  stays k acc = record { sub = λ x m. m; closed = λ x m n. absurd (cc); sound = λ x m. inl m }

  Above-Above : {k x : Bytes} {y : Bytes} → Holder k x → Above x y → Above k y
  Above-Above p (direct q) = further (direct p) q
  Above-Above p (further a q) = further (Above-Above p a) q

  same_name : {x y : Bytes} → ◌≡◌ {A = Result IoKind Bytes} (ok x) (ok y) → x ≡ y
  same_name e = cc

  same_listing : {xs ys : List (Result IoKind Bytes)} → ◌≡◌ {A = Listing} (ok xs) (ok ys) → xs ≡ ys
  same_listing e = cc

  clash :
      {r : Listing} {xs : List (Result IoKind Bytes)} {kind : IoKind} → r ≡ ok xs → r ≡ err kind → ⊥
  clash e e' = cc

  Settled-mono :
      (k : Bytes) (acc acc' : List Bytes)
      → ((x : Bytes) → member x acc ≡ true → member x acc' ≡ true)
      → Settled acc k
      → Settled acc' k
  Settled-mono k acc acc' f p = (p.0, λ x q. f x (p.1 x q))

  module _ (k child : Bytes) (es : List (Result IoKind Bytes)) where
    legible_too :
        is_utf8 child ≡ true
        → ((e : Result IoKind Bytes) → Memᴰ e es → (x : Bytes) × (e ≡ ok x) × (is_utf8 x ≡ true))
        → (e : Result IoKind Bytes) → Memᴰ e (ok child ∷ es)
        → (x : Bytes) × (e ≡ ok x) × (is_utf8 x ≡ true)
    legible_too u f e (Memᴰ.head q) = (child, q, u)
    legible_too u f e (Memᴰ.tail m) = f e m

    covered_too :
        (acc' : List Bytes)
        → member child acc' ≡ true
        → ((x : Bytes) → Memᴰ (ok x) es → member x acc' ≡ true)
        → (x : Bytes) → Memᴰ (ok x) (ok child ∷ es)
        → member x acc' ≡ true
    covered_too acc' m f x (Memᴰ.head q) = subst (λ t. member t acc' ≡ true) (sym (same_name q)) m
    covered_too acc' m f x (Memᴰ.tail i) = f x i

    -- the holder was found before
    Walked-old :
        (acc acc' : List Bytes)
        → is_utf8 child ≡ true
        → member child acc ≡ true
        → Walked k es acc acc'
        → Walked k (ok child ∷ es) acc acc'
    Walked-old acc acc' u m w = record {
      grown = w.grown;
      legible = legible_too u w.legible;
      covered = covered_too acc' (w.grown.sub child m) w.covered;
    }

    -- the holder is new, and what is above it has been walked
    Walked-new :
        (acc acc' acc'' : List Bytes)
        → is_utf8 child ≡ true
        → Holder k child
        → Grown child (child ∷ acc) acc'
        → Settled acc' child
        → Walked k es acc' acc''
        → Walked k (ok child ∷ es) acc acc''
    Walked-new acc acc' acc'' u p g settled w = record {
      grown = record {
        sub = λ x m. w.grown.sub x (g.sub x (member-cons x child acc m));
        closed = λ x m n. closed x n (Bool-cases (member x acc')) m;
        sound = λ x m. sound x (w.grown.sound x m);
      };
      legible = legible_too u w.legible;
      covered =
          covered_too acc'' (w.grown.sub child (g.sub child (member-head child acc))) w.covered;
    }
      where
        lifted : (x : Bytes) → Settled acc' x → Settled acc'' x
        lifted x q = Settled-mono x acc' acc'' w.grown.sub q

        at_child :
            (x : Bytes)
            → member x acc ≡ false
            → (x ≡ child) ⊎ (member x acc ≡ true)
            → Settled acc'' x
        at_child x n (inl e) = subst (Settled acc'') (sym e) (lifted child settled)
        at_child x n (inr m) = absurd (cc)

        inside :
            (x : Bytes)
            → member x acc ≡ false
            → member x acc' ≡ true
            → (member x (child ∷ acc) ≡ true) ⊎ (member x (child ∷ acc) ≡ false)
            → Settled acc'' x
        inside x n m (inl q) = at_child x n (member-split x child acc q)
        inside x n m (inr q) = lifted x (g.closed x m q)

        closed :
            (x : Bytes)
            → member x acc ≡ false
            → (member x acc' ≡ true) ⊎ (member x acc' ≡ false)
            → member x acc'' ≡ true
            → Settled acc'' x
        closed x n (inl q) m = inside x n q (Bool-cases (member x (child ∷ acc)))
        closed x n (inr q) m = w.grown.closed x m q

        from_child :
            (x : Bytes) → (x ≡ child) ⊎ (member x acc ≡ true) → (member x acc ≡ true) ⊎ Above k x
        from_child x (inl e) = inr (subst (Above k) (sym e) (direct p))
        from_child x (inr m) = inl m

        from_walk :
            (x : Bytes)
            → (member x (child ∷ acc) ≡ true) ⊎ Above child x
            → (member x acc ≡ true) ⊎ Above k x
        from_walk x (inl m) = from_child x (member-split x child acc m)
        from_walk x (inr a) = inr (Above-Above p a)

        sound : (x : Bytes) → (member x acc' ≡ true) ⊎ Above k x → (member x acc ≡ true) ⊎ Above k x
        sound x (inl m) = from_walk x (g.sound x m)
        sound x (inr a) = inr a

  module _ (all : List Bytes) (known : (k x : Bytes) → Holder k x → member x all ≡ true) where
    abbrev Next : ℕ → (Bytes → List Bytes → Exec World (List Bytes)) → Type 0
    Next fuel next =
        (k : Bytes) (acc : List Bytes) (s : World)
        → remaining all acc < fuel
        → Ends (λ acc' _. Grown k acc acc' × Settled acc' k) Fuelled (next k acc s)

    module _ (fuel : ℕ) (next : Bytes → List Bytes → Exec World (List Bytes)) (ih : Next fuel next)
        (k : Bytes) where
      each_lem :
          (es : List (Result IoKind Bytes)) (acc : List Bytes) (s : World)
          → ((x : Bytes) → Memᴰ (ok x) es → Holder k x)
          → remaining all acc < suc fuel
          → Ends (λ acc' _. Walked k es acc acc') Fuelled (each_holder h next k es acc s)
      unfolding each_holder msg layer context_io
      each_lem [] acc s p lt = done record {
        grown = stays k acc;
        legible = λ e m. absurd (Memᴰ.not-nil m);
        covered = λ x m. absurd (Memᴰ.not-nil m);
      }
      each_lem (err kind ∷ es) acc s p lt = stop (λ x. cc)
      each_lem (ok child ∷ es) acc s p lt =
          Ends-if (is_utf8 child) _ _ s
            (λ u.
              Ends-if (member child acc) _ _ s
                (λ m.
                  Ends-mono (each_lem es acc s (λ x i. p x (Memᴰ.tail i)) lt)
                    (λ acc' s' w. Walked-old k child es acc acc' u m w) (λ e s' x. x))
                (λ n.
                  Ends-continue _ (ih child (child ∷ acc) s (fewer child n))
                    (λ acc' s' g.
                      Ends-mono (each_lem es acc' s' (λ x i. p x (Memᴰ.tail i)) (still acc' g.0))
                        (λ acc'' s'' w.
                          Walked-new k child es acc acc' acc'' u (p child (Memᴰ.head refl)) g.0 g.1
                            w)
                        (λ e s'' x. x))
                    (λ e s' x. x)))
            (λ _. stop (λ x. cc))
        where
          fewer : (c : Bytes) → member child acc ≡ false → remaining all (child ∷ acc) < fuel
          fewer c n =
              omega
                (arith, remaining-new all acc child (known k child (p child (Memᴰ.head refl))) n)

          still :
              (acc' : List Bytes) → Grown child (child ∷ acc) acc' → remaining all acc' < suc fuel
          still acc' g =
              omega
                (arith, remaining_mono all acc acc' (λ x m. g.sub x (member-cons x child acc m)))

    walk_lem : (frozen : Frozen) (fuel : ℕ) → Next fuel (walk_holders h fuel)
    unfolding walk_holders msg
    walk_lem frozen zero k acc s lt = absurd (omega (arith, lt))
    walk_lem frozen (suc fuel) k acc s lt =
        go (read_dir (holders_dir k) s).0 (sym (frozen (holders_dir k) s)) (λ es p.
          each_lem fuel (walk_holders h fuel) (walk_lem frozen fuel) k es acc
            (read_dir (holders_dir k) s).1 p lt)
      where
        s' : World
        s' = (read_dir (holders_dir k) s).1

        go :
            (r : Listing)
            → dir (holders_dir k) ≡ r
            → ((es : List (Result IoKind Bytes))
                → ((x : Bytes) → Memᴰ (ok x) es → Holder k x)
                → Ends
                    (λ acc' _. Walked k es acc acc')
                    Fuelled
                    (each_holder h (walk_holders h fuel) k es acc s'))
            → Ends
                (λ acc' _. Grown k acc acc' × Settled acc' k)
                Fuelled
                (on_listing h k (λ es. each_holder h (walk_holders h fuel) k es acc) acc r s')
        go (ok es) e each =
            Ends-mono (each es (λ x m. (es, e, m)))
              (λ acc' _ w. (
                w.grown,
                (
                  (
                    (λ kind x. cc),
                    (λ es' f x m. w.legible f (subst (Memᴰ f) (same_listing (sym x ∙ e)) m)),
                  ),
                  (λ x q. w.covered x (subst (Memᴰ (ok x)) (same_listing (sym q.1 ∙ e)) q.2)),
                ),
              ))
              (λ e s' x. x)
        go (err not_found) e each =
            done (stays k acc, (((λ kind x. cc), (λ es f x m. cc)), (λ x q. absurd (clash q.1 e))))
        go (err _) e each = stop (λ x. cc)

module _ (h : Host) (dir : Bytes → Listing) where
  -- the names are exactly those above `k`, and every listing on the way was read in full
  abbrev pub AllHolders : Bytes → List Bytes → Type 0
  AllHolders k names =
      ((x : Bytes)
        → (member x names ≡ true → Above h dir k x) × (Above h dir k x → member x names ≡ true))
      × Legible h dir k
      × ((x : Bytes) → Above h dir k x → Legible h dir x)

  complete :
      (k : Bytes) (names : List Bytes)
      → Grown h dir k [] names
      → Settled h dir names k
      → (x : Bytes) → Above h dir k x
      → member x names ≡ true
  unfolding member
  complete k names g p x (direct q) = p.1 x q
  complete k names g p x (further {x = y} a q) = (g.closed y (complete k names g p y a) refl).1 x q

-- While /sys does not change, and with more fuel than there are kernel names: the walk over the
-- holders of a device ends. If it succeeds, the names it returns are exactly those of the devices
-- above it, through any number of holders, however they are linked, and every directory of holders
-- on the way was read in full, each of its names in UTF-8. If it fails, it has not run out of fuel.
pub holders_recursive-AllHolders :
    (h : Host) (dir : Bytes → Listing) (all : List Bytes) (fuel : ℕ) (k : Bytes) (s : h.World)
    → Frozen h dir
    → ((k x : Bytes) → Holder h dir k x → member x all ≡ true)
    → length all < fuel
    → Ends
        (λ names _. AllHolders h dir k names)
        (λ e _. e.detail ≢ out_of_fuel)
        (holders_recursive h fuel k s)
unfolding holders_recursive member
holders_recursive-AllHolders h dir all fuel k s frozen known lt =
    Ends-mono
      (walk_lem h dir all known frozen fuel k [] s (omega (arith, lt, remaining-length all [])))
      (λ names s' p. (
        (λ x. (λ m. sound names p.0 x m, complete h dir k names p.0 p.1 x)),
        p.1.0,
        (λ x a. (p.0.closed x (complete h dir k names p.0 p.1 x a) refl).0),
      ))
      (λ e s' x. x)
  where
    sound :
        (names : List Bytes)
        → Grown h dir k [] names
        → (x : Bytes) → member x names ≡ true
        → Above h dir k x
    sound names g x m = elim (g.sound x m) [ inl q ↦ absurd (cc) | inr a ↦ a ]

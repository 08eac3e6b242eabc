-- ===== src/Manifest/Guard/Reach.antt =====
-- src/manifest.rs: what holds of the guards of one resolution, in whatever order they are used.
use weeb.Prelude.{
  ℕ, zero, suc, ◌+◌, ◌≤◌, ◌<◌, true, false, ◌||◌, Bool-cases, leb, Option, none, some, List, [],
  ◌∷◌, ◌++◌, length, length-append, All, ◌≡◌, ◌≢◌, refl, ap, inl, inr, arith,
}
use weeb.Prelude.Text.{text_eq_refl}
use weeb.Manifest.Guard.{
  ResolutionIdentity, SharedBudget, no_budget_used, Ancestry, max_manifest_depth,
  max_manifest_visits, max_manifest_fork_visits, max_manifest_targets, reference, feed,
  same_identity, any_ancestor, descend, descend_reference, descend_feed, reserve_target,
  reserve_fork,
}

same_identity_refl : (a : ResolutionIdentity) → same_identity a a ≡ true
unfolding same_identity
same_identity_refl (reference bytes) = text_eq_refl bytes
same_identity_refl (feed owner topic) = rw (text_eq_refl owner, text_eq_refl topic) refl

-- No two of the identities are the same.
abbrev pub AllDiffer : Ancestry → Type 0
AllDiffer [] = Unit
AllDiffer (a ∷ ancestry) = All (λ b. a ≢ b) ancestry × AllDiffer ancestry

not_same : (a b : ResolutionIdentity) → same_identity a b ≡ false → a ≢ b
not_same a b h e = cc (h, same_identity_refl b, ap (λ x. same_identity x b) e)

All-snoc :
    (a identity : ResolutionIdentity) (ancestry : Ancestry)
    → All (λ b. a ≢ b) ancestry
    → a ≢ identity
    → All (λ b. a ≢ b) (ancestry ++ (identity ∷ []))
All-snoc a identity [] h n = (n, tt)
All-snoc a identity (b ∷ ancestry) h n = (h.0, All-snoc a identity ancestry h.1 n)

AllDiffer-snoc :
    (identity : ResolutionIdentity) (ancestry : Ancestry)
    → AllDiffer ancestry
    → any_ancestor identity ancestry ≡ false
    → AllDiffer (ancestry ++ (identity ∷ []))
unfolding any_ancestor
AllDiffer-snoc identity [] d h = (tt, tt)
AllDiffer-snoc identity (a ∷ ancestry) d h = (
  All-snoc a identity ancestry d.0 (not_same a identity (ground (arith, h))),
  AllDiffer-snoc identity ancestry d.1 (ground (arith, h)),
)

-- A resolution: the budget, and the guards that were made so far.
pub record Resolution : Type 0 where
  pub shared : SharedBudget
  pub guards : List Ancestry

-- The guard made by `new`.
abbrev pub start : Resolution
start = record { shared = no_budget_used; guards = [] ∷ [] }

-- The guard of a descent joins the others.
abbrev pub joined : SharedBudget × Option Ancestry → List Ancestry → Resolution
joined (shared, none) guards = record { shared = shared; guards = guards }
joined (shared, some ancestry) guards = record { shared = shared; guards = ancestry ∷ guards }

-- Beyond the list it is the first guard, which has no ancestry.
abbrev pub guard_at : ℕ → List Ancestry → Ancestry
guard_at i [] = []
guard_at zero (g ∷ guards) = g
guard_at (suc i) (g ∷ guards) = guard_at i guards

-- Any of the guards is used.
pub data Step : Resolution → Resolution → Type 0 where
  to_reference :
      (r : Resolution) (i : ℕ) (bytes : List ℕ)
      → Step r (joined (descend_reference (guard_at i r.guards) bytes r.shared) r.guards)
  to_feed :
      (r : Resolution) (i : ℕ) (owner topic : List ℕ)
      → Step r (joined (descend_feed (guard_at i r.guards) owner topic r.shared) r.guards)
  for_target : (r : Resolution) → Step r (record r { shared = (reserve_target r.shared).0 })
  for_fork : (r : Resolution) → Step r (record r { shared = (reserve_fork r.shared).0 })

pub data Reach : Resolution → Type 0 where
  here : Reach start
  next : {r s : Resolution} → Reach r → Step r s → Reach s

abbrev pub IsBounded : Ancestry → Type 0
IsBounded ancestry = (length ancestry ≤ max_manifest_depth) × AllDiffer ancestry

pub record IsWithin (r : Resolution) : Type 0 where
  pub visits : r.shared.visits ≤ max_manifest_visits
  pub forks : r.shared.forks ≤ max_manifest_fork_visits
  pub targets : r.shared.targets ≤ max_manifest_targets
  pub counted : length r.guards ≡ r.shared.visits + 1
  pub bounded : All IsBounded r.guards

guard_at-IsBounded :
    (i : ℕ) (guards : List Ancestry) → All IsBounded guards → IsBounded (guard_at i guards)
guard_at-IsBounded i [] h = (omega arith, tt)
guard_at-IsBounded zero (g ∷ guards) h = h.0
guard_at-IsBounded (suc i) (g ∷ guards) h = guard_at-IsBounded i guards h.1

descend-IsWithin :
    (r : Resolution) (ancestry : Ancestry) (identity : ResolutionIdentity)
    → IsBounded ancestry
    → IsWithin r
    → IsWithin (joined (descend ancestry identity r.shared) r.guards)
unfolding descend
descend-IsWithin r ancestry identity b w =
    elim (Bool-cases (leb max_manifest_depth (length ancestry) || any_ancestor identity ancestry)) [
      | inl t ↦ rw t w
      | inr f ↦ elim (Bool-cases (leb max_manifest_visits r.shared.visits)) [
        | inl t ↦ rw (f, t) w
        | inr g ↦
            let short : length ancestry < max_manifest_depth = ground (arith, f) in
            let new : any_ancestor identity ancestry ≡ false = ground (arith, f) in
            let within : IsWithin (
                joined
                  (
                    record r.shared { visits = r.shared.visits + 1 },
                    some (ancestry ++ (identity ∷ [])),
                  )
                  r.guards) =
              record {
                visits = ground (arith, g);
                forks = w.forks;
                targets = w.targets;
                counted = omega (arith, w.counted);
                bounded = (
                  (
                    omega (arith, length-append ancestry (identity ∷ [])),
                    AllDiffer-snoc identity ancestry b.1 new,
                  ),
                  w.bounded,
                );
              } in
            rw (f, g) within
      ]
    ]

Step-IsWithin : {r s : Resolution} → Step r s → IsWithin r → IsWithin s
unfolding descend_reference descend_feed reserve_target reserve_fork
Step-IsWithin (to_reference r i bytes) w =
    descend-IsWithin r (guard_at i r.guards) (reference bytes)
      (guard_at-IsBounded i r.guards w.bounded) w
Step-IsWithin (to_feed r i owner topic) w =
    descend-IsWithin r (guard_at i r.guards) (feed owner topic)
      (guard_at-IsBounded i r.guards w.bounded) w
Step-IsWithin (for_target r) w = record {
  visits = ground (arith, w.visits);
  forks = ground (arith, w.forks);
  targets = ground (arith, w.targets);
  counted = ground (arith, w.counted);
  bounded = w.bounded;
}
Step-IsWithin (for_fork r) w = record {
  visits = ground (arith, w.visits);
  forks = ground (arith, w.forks);
  targets = ground (arith, w.targets);
  counted = ground (arith, w.counted);
  bounded = w.bounded;
}

-- In whatever order the guards of a resolution are used, the shared budget stays within its three
-- limits, there are as many guards as visits and the first one, and on the path to each guard there
-- are at most 256 identities, no two of them the same: no cycle is followed.
pub Reach-IsWithin : {r : Resolution} → Reach r → IsWithin r
Reach-IsWithin here = record {
  visits = omega arith;
  forks = omega arith;
  targets = omega arith;
  counted = refl;
  bounded = ((omega arith, tt), tt);
}
Reach-IsWithin (next r st) = Step-IsWithin st (Reach-IsWithin r)

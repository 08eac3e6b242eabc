-- ===== src/Manifest/Guard.antt =====
-- src/manifest.rs: `ResolutionGuard`. The guards of one resolution share a budget; each has its own
-- ancestry, what was resolved on the path to it.
pub mod Reach
use weeb.Prelude.{
  ℕ, ◌+◌, Bool, true, false, ◌&&◌, ◌||◌, if◌then◌else◌, ltb, leb, Option, none, some, List, [], ◌∷◌,
  ◌++◌, length,
}
use weeb.Prelude.Text.{Text, text_eq}

abbrev pub max_manifest_depth : ℕ
max_manifest_depth = 256

abbrev pub max_manifest_visits : ℕ
max_manifest_visits = 4096

abbrev pub max_manifest_fork_visits : ℕ
max_manifest_fork_visits = 16384

abbrev pub max_manifest_targets : ℕ
max_manifest_targets = 8192

pub data ResolutionIdentity : Type 0 where
  reference : List ℕ → ResolutionIdentity
  feed : Text → Text → ResolutionIdentity

-- The derived equality.
unfoldable pub same_identity : ResolutionIdentity → ResolutionIdentity → Bool
unfolding text_eq
same_identity (reference a) (reference b) = text_eq a b
same_identity (feed owner topic) (feed owner' topic') = text_eq owner owner' && text_eq topic topic'
same_identity (reference a) (feed owner topic) = false
same_identity (feed owner topic) (reference a) = false

pub record SharedBudget : Type 0 where
  pub visits : ℕ
  pub forks : ℕ
  pub targets : ℕ

abbrev pub no_budget_used : SharedBudget
no_budget_used = record { visits = 0; forks = 0; targets = 0 }

-- A guard, beside the budget that all share.
abbrev pub Ancestry : Type 0
Ancestry = List ResolutionIdentity

unfoldable pub any_ancestor : ResolutionIdentity → Ancestry → Bool
unfolding same_identity
any_ancestor identity [] = false
any_ancestor identity (ancestor ∷ ancestry) =
    same_identity ancestor identity || any_ancestor identity ancestry

unfoldable pub descend :
    Ancestry → ResolutionIdentity → SharedBudget → SharedBudget × Option Ancestry
unfolding any_ancestor
descend ancestry identity shared =
    if leb max_manifest_depth (length ancestry) || any_ancestor identity ancestry
    then (shared, none)
    else if leb max_manifest_visits shared.visits
    then (shared, none)
    else (record shared { visits = shared.visits + 1 }, some (ancestry ++ (identity ∷ [])))

unfoldable pub descend_reference : Ancestry → List ℕ → SharedBudget → SharedBudget × Option Ancestry
unfolding descend
descend_reference ancestry bytes = descend ancestry (reference bytes)

unfoldable pub descend_feed : Ancestry → Text → Text → SharedBudget → SharedBudget × Option Ancestry
unfolding descend
descend_feed ancestry owner topic = descend ancestry (feed owner topic)

unfoldable pub reserve_target : SharedBudget → SharedBudget × Bool
reserve_target shared =
    if leb max_manifest_targets shared.targets
    then (shared, false)
    else (record shared { targets = shared.targets + 1 }, true)

unfoldable pub reserve_fork : SharedBudget → SharedBudget × Bool
reserve_fork shared =
    if leb max_manifest_fork_visits shared.forks
    then (shared, false)
    else (record shared { forks = shared.forks + 1 }, true)

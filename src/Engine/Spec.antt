-- ===== src/Engine/Spec.antt =====
-- Triggers and their branch filters: server/internal/engine/spec/spec.go.
pub mod Glob
mod Filters
mod Tests
use kilnci.Base.{Bool, true, false, List, [], ◌∷◌, Option, none, some}
use Glob.{Bytes, glob}

-- An empty list of patterns is Go's empty or nil slice.
pub record BranchFilter : Type 0 where
  pub branches : List Bytes

-- `none` is Go's nil pointer.
pub record Triggers : Type 0 where
  pub push : Option BranchFilter
  pub pull_request : Option BranchFilter

any_glob : List Bytes → Bytes → Bool
any_glob [] branch = false
any_glob (p ∷ ps) branch = elim (glob p branch) [ true ↦ true | false ↦ any_glob ps branch ]

filter_matches : List Bytes → Bytes → Bool
unfolding any_glob
filter_matches [] branch = true
filter_matches (p ∷ ps) branch = any_glob (p ∷ ps) branch

-- `BranchFilter.matches`, on a filter that is there.
unfoldable pub matches : BranchFilter → Bytes → Bool
unfolding filter_matches
matches f branch = filter_matches f.branches branch

starts_run : Option BranchFilter → Bytes → Bool
starts_run none branch = false
starts_run (some f) branch = matches f branch

unfoldable pub matches_push : Triggers → Bytes → Bool
unfolding starts_run
matches_push t branch = starts_run t.push branch

unfoldable pub matches_pull_request : Triggers → Bytes → Bool
unfolding starts_run
matches_pull_request t base_branch = starts_run t.pull_request base_branch

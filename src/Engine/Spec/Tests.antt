-- ===== src/Engine/Spec/Tests.antt =====
-- Globs and filters at small inputs.
use kilnci.Base.{Bool, true, [], ◌∷◌, ◌++◌, ◌≡◌, refl, ◌↔◌, ◌⊎◌, none, some, nat_eq}
use kilnci.Engine.Spec.{BranchFilter, Triggers, matches_push, matches_pull_request}
use kilnci.Engine.Spec.Filters.{SomeGlob, matches_push_iff}
use kilnci.Engine.Spec.Glob.{Bytes, glob, tokens}
use kilnci.Engine.Spec.Glob.Accepts.{Accepts, glob_iff}

-- "r/", "r/*" and "r/1/2".
abbrev release : Bytes
release = 114 ∷ 47 ∷ []

abbrev release_star : Bytes
release_star = 114 ∷ 47 ∷ 42 ∷ []

abbrev nested : Bytes
nested = 114 ∷ 47 ∷ 49 ∷ 47 ∷ 50 ∷ []

star_stops : glob release_star nested ≡ Bool.false
unfolding glob
star_stops = refl

double_goes_on : glob (release ++ 42 ∷ 42 ∷ []) nested ≡ true
unfolding glob
double_goes_on = refl

glob_iff_example : (glob release_star nested ≡ true) ↔ Accepts (tokens release_star) nested
glob_iff_example = glob_iff release_star nested

abbrev on_release : Triggers
on_release = record { push = some (record { branches = release_star ∷ [] }); pull_request = none }

matches_push_iff_example :
    ((matches_push on_release nested ≡ true) ↔ (
      (f : BranchFilter) × (on_release.push ≡ some f)
      × ((f.branches ≡ []) ⊎ SomeGlob f.branches nested)))
    × ((matches_pull_request on_release nested ≡ true) ↔ (
        (f : BranchFilter) × (on_release.pull_request ≡ some f)
        × ((f.branches ≡ []) ⊎ SomeGlob f.branches nested)))
matches_push_iff_example = matches_push_iff on_release nested

-- ===== src/Engine/Spec/Filters.antt =====
-- Which branches start a run: the filters of spec.go.
use mathlib.Core.List.{Memᴰ}
use kilnci.Base.{
  true, List, [], ◌∷◌, Option, none, some, ◌≡◌, refl, subst, ◌↔◌, ◌⊎◌, inl, inr, Bool-cases, arith,
}
use kilnci.Engine.Spec.{
  BranchFilter, Triggers, any_glob, filter_matches, matches, starts_run, matches_push,
  matches_pull_request,
}
use kilnci.Engine.Spec.Glob.{Bytes, glob}

-- One of the patterns matches the branch.
abbrev pub SomeGlob : List Bytes → Bytes → Type 0
SomeGlob ps branch = (p : Bytes) × Memᴰ p ps × (glob p branch ≡ true)

any_glob-SomeGlob :
    (ps : List Bytes) (branch : Bytes) → any_glob ps branch ≡ true → SomeGlob ps branch
unfolding any_glob
any_glob-SomeGlob [] branch h = cc
any_glob-SomeGlob (p ∷ ps) branch h = elim (Bool-cases (glob p branch)) [
  | inl e ↦ (p, Memᴰ.head refl, e)
  | inr e ↦ let (q, m, k) = any_glob-SomeGlob ps branch (ground arith) in (q, Memᴰ.tail m, k)
]

SomeGlob-any_glob :
    (ps : List Bytes) (branch p : Bytes)
    → Memᴰ p ps
    → glob p branch ≡ true
    → any_glob ps branch ≡ true
unfolding any_glob
SomeGlob-any_glob [] branch p m h = elim m [ ]
SomeGlob-any_glob (q ∷ ps) branch p (Memᴰ.head e) h = ground arith
SomeGlob-any_glob (q ∷ ps) branch p (Memᴰ.tail m) h =
    ground (arith, SomeGlob-any_glob ps branch p m h)

filter_matches_iff :
    (ps : List Bytes) (branch : Bytes)
    → (filter_matches ps branch ≡ true) ↔ ((ps ≡ []) ⊎ SomeGlob ps branch)
unfolding filter_matches
filter_matches_iff [] branch = (λ _. inl refl, λ _. refl)
filter_matches_iff (p ∷ ps) branch = (
  λ h. inr (any_glob-SomeGlob (p ∷ ps) branch h),
  λ r. elim r [ inl e ↦ cc | inr (q, m, k) ↦ SomeGlob-any_glob (p ∷ ps) branch q m k ],
)

starts_run_iff :
    (o : Option BranchFilter) (branch : Bytes)
    → (starts_run o branch ≡ true)
      ↔ ((f : BranchFilter) × (o ≡ some f) × ((f.branches ≡ []) ⊎ SomeGlob f.branches branch))
unfolding starts_run matches
starts_run_iff none branch = (λ h. cc, λ (f, e, _). cc)
starts_run_iff (some f) branch = (
  λ h. (f, refl, (filter_matches_iff f.branches branch).0 h),
  λ (g, e, k).
      (filter_matches_iff f.branches branch).1
        (subst (λ b. (b ≡ []) ⊎ SomeGlob b branch) (ground (arith, e)) k),
)

-- A push starts a run exactly when pushes do so at all, and the filter has no pattern or one that matches the
-- branch. The same holds of pull requests, by their base branch.
pub matches_push_iff :
    (t : Triggers) (branch : Bytes)
    → ((matches_push t branch ≡ true) ↔ (
        (f : BranchFilter) × (t.push ≡ some f) × ((f.branches ≡ []) ⊎ SomeGlob f.branches branch)))
      × ((matches_pull_request t branch ≡ true) ↔ (
          (f : BranchFilter) × (t.pull_request ≡ some f)
          × ((f.branches ≡ []) ⊎ SomeGlob f.branches branch)))
unfolding matches_push matches_pull_request
matches_push_iff t branch = (starts_run_iff t.push branch, starts_run_iff t.pull_request branch)

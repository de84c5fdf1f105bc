-- ===== src/Engine/Dag/Weights.antt =====
-- The loop over the needs of a job in `Advance` of dag.go, and what lists of names hold.
use kilnci.Base.{
  ◌<◌, Bool, true, false, ◌&&◌, List, [], ◌∷◌, ◌≡◌, inl, inr, ◌↔◌, ◌||◌, any, all, ◌==◌, string_eq,
  if◌then◌else◌, String, tally, refl, arith, ==_cases, ==_refl, Bool-cases, subst, sym,
}
use kilnci.Engine.Dag.{Node}
use kilnci.Engine.Dag.Names.{needs_of}
use kilnci.Engine.Dag.Progress.{
  Outcome, waiting, succeeded, blocked, is_waiting, Decisions, weigh_needs, decide_job,
}

abbrev pub is_blocked : Outcome → Bool
is_blocked blocked = true
is_blocked _ = false

abbrev pub is_settled : Outcome → Bool
is_settled blocked = true
is_settled succeeded = true
is_settled _ = false

pub is_blocked_iff : (o : Outcome) → (is_blocked o ≡ true) ↔ (o ≡ blocked)
is_blocked_iff o = (λ h. ground arith, λ h. ground arith)

pub weigh_needs_lem :
    (state : String → Outcome) (ds : List String) (a b : Bool)
    → weigh_needs state ds (a, b)
      ≡ (a && all (λ d. is_settled (state d)) ds, b || any (λ d. is_blocked (state d)) ds)
unfolding weigh_needs
weigh_needs_lem state [] a b = ground arith
weigh_needs_lem state (d ∷ ds) a b = ground (
  arith,
  weigh_needs_lem state ds a b,
  weigh_needs_lem state ds a true,
  weigh_needs_lem state ds false b,
)

pub any-tally :
    (p : String → Bool) (ds : List String)
    → any p ds ≡ true
    → (d : String) × (0 < tally d ds) × (p d ≡ true)
any-tally p [] h = cc
any-tally p (x ∷ ds) h = elim (Bool-cases (p x)) [
  | inl e ↦ (x, ground (arith, ==_refl x), e)
  | inr e ↦ let (d, m, f) = any-tally p ds (ground (arith, e)) in (d, omega arith, f)
]

pub tally-any :
    (p : String → Bool) (ds : List String) (d : String)
    → 0 < tally d ds
    → p d ≡ true
    → any p ds ≡ true
tally-any p [] d m e = absurd (omega arith)
tally-any p (x ∷ ds) d m e = elim (==_cases x d) [
  | inl (_, same) ↦ let here : p x ≡ true = subst (λ y. p y ≡ true) (sym same) e in rw here
  | inr (other, _) ↦ ground (arith, tally-any p ds d (ground (arith, other)) e)
]

pub all-tally :
    (p : String → Bool) (ds : List String) (d : String)
    → all p ds ≡ true
    → 0 < tally d ds
    → p d ≡ true
all-tally p [] d h m = absurd (omega arith)
all-tally p (x ∷ ds) d h m = elim (==_cases x d) [
  | inl (_, same) ↦ subst (λ y. p y ≡ true) same (ground arith)
  | inr (other, _) ↦ all-tally p ds d (ground arith) (ground (arith, other))
]

pub tally-all :
    (p : String → Bool) (ds : List String)
    → ((d : String) → 0 < tally d ds → p d ≡ true)
    → all p ds ≡ true
tally-all p [] h = refl
tally-all p (x ∷ ds) h =
    ground (arith, h x (ground (arith, ==_refl x)), tally-all p ds (λ d m. h d (omega arith)))

pub is_waiting_iff : (o : Outcome) → (is_waiting o ≡ true) ↔ (o ≡ waiting)
is_waiting_iff o = (λ h. ground arith, λ h. ground arith)

pub settled_free : (o : Outcome) → is_settled o ≡ true → is_blocked o ≡ false → o ≡ succeeded
settled_free o h k = ground arith

pub decide_job_lem :
    (nodes : List Node) (id : String) (s : Decisions)
    → decide_job nodes id s ≡ (
        if is_waiting (s.state id)
        then (if any (λ d. is_blocked (s.state d)) (needs_of nodes id)
            then record s {
              state = λ x. if x == id then blocked else s.state x;
              skipped = id ∷ s.skipped;
            }
            else if all (λ d. is_settled (s.state d)) (needs_of nodes id)
            then record s { ready = id ∷ s.ready }
            else s)
        else s)
unfolding decide_job
decide_job_lem nodes id s = rw (weigh_needs_lem s.state (needs_of nodes id) true false)

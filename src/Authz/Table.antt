-- ===== src/Authz/Table.antt =====
-- Facts about the policy table of auth/authz/action.go as a whole.
use kilnci.Base.{
  Bool, true, not, List, [], ◌∷◌, some, ◌≡◌, refl, ◌==◌, ◌&&◌, ◌||◌, string_eq, all, arith,
}
use kilnci.Domain.Role.{valid, rank}
use kilnci.Authz.Policy.{Action, Rule, policy, lookup_rule}

-- A rule is found only if an entry of the table holds it.
all-lookup_rule :
    (p : Rule → Bool) (a : Action) (t : List (Action × Rule)) {r : Rule}
    → all (λ e. p e.1) t ≡ true
    → lookup_rule a t ≡ some r
    → p r ≡ true
unfolding lookup_rule
all-lookup_rule p a [] {r} h e = cc
all-lookup_rule p a ((b, s) ∷ t) {r} h e = ground (arith, all-lookup_rule p a t {r = r})

-- Exactly one of: for instance admins, for the caller's own credential, for a known minimum role.
unfoldable pub one_kind : Rule → Bool
unfolding valid
one_kind r =
    r.instance_admin && not r.self_only && r.min_role == ""
    || r.self_only && not r.instance_admin && r.min_role == ""
    || not r.self_only && not r.instance_admin && valid r.min_role

policy-one_kind : all (λ e. one_kind e.1) policy ≡ true
unfolding policy one_kind rank
policy-one_kind = refl

-- An action in the policy table is for instance admins, or for the caller's own credential, or asks for
-- a known minimum role: exactly one of the three.
pub lookup-one_kind : (a : Action) {r : Rule} → lookup_rule a policy ≡ some r → one_kind r ≡ true
lookup-one_kind a h = all-lookup_rule one_kind a policy policy-one_kind h

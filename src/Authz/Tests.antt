-- ===== src/Authz/Tests.antt =====
-- The authorization engine at small inputs.
use text.Mathlib.TextEquality.{eq_iff}
use kilnci.Base.{
  String, true, false, [], ◌∷◌, none, some, ◌≡◌, refl, ◌↔◌, inl, ◌==◌, string_eq, if◌then◌else◌,
  ◌&&◌, arith,
}
use kilnci.Domain.{err_not_found}
use kilnci.Domain.Role.{role_developer, role_owner, rank, at_least}
use kilnci.Authz.{
  kind_user, kind_api_token, Principal, Resource, member, lookup_error, MembershipReader, contains,
  allows_action, check,
}
use kilnci.Authz.Policy.{Rule, policy, lookup_rule, action_runs_approve, action_runs_list}
use kilnci.Authz.Decisions.{MayUse, Permitted, check-Permitted_iff, token_bounded}

-- "dev" is a developer of "org1"; nobody else is a member of an org.
abbrev members : MembershipReader
members org user =
    if org == "org1" && user == "dev" then member role_developer else lookup_error err_not_found

abbrev owners : MembershipReader
owners org user = member role_owner

abbrev principal : String → Principal
principal user = record {
  kind = kind_user;
  user_id = user;
  credential_id = "c";
  instance_admin = false;
  scopes = none;
}

abbrev dev : Principal
dev = principal "dev"

abbrev stranger : Principal
stranger = principal "eve"

abbrev token : Principal
token = record dev { kind = kind_api_token; scopes = some (action_runs_list ∷ []) }

abbrev org1 : Resource
org1 = record { org_id = "org1"; owner_user_id = "" }

abbrev for_developers : Rule
for_developers = record { min_role = role_developer; self_only = false; instance_admin = false }

approve_rule : lookup_rule action_runs_approve policy ≡ some for_developers
unfolding lookup_rule policy
approve_rule = refl

dev_approves : check members (some dev) action_runs_approve org1 ≡ none
unfolding check allows_action lookup_rule policy at_least rank
dev_approves = refl

token_lists : check members (some token) action_runs_list org1 ≡ none
unfolding check allows_action lookup_rule policy at_least rank
token_lists = refl

check-Permitted_iff_example :
    (check members (some dev) action_runs_approve org1 ≡ none)
    ↔ Permitted members dev action_runs_approve org1
check-Permitted_iff_example = check-Permitted_iff members dev action_runs_approve org1

stranger-MayUse : MayUse stranger action_runs_approve
unfolding allows_action
stranger-MayUse = record {
  named = ground (arith, eq_iff "eve" "");
  human = inl refl;
  scoped = refl;
}

token_bounded_example :
    (contains (action_runs_list ∷ []) action_runs_list ≡ true)
    × (check members (some (record token { kind = kind_user; scopes = none })) action_runs_list org1
        ≡ none)
token_bounded_example = token_bounded members token action_runs_list org1 refl token_lists

owner_above : at_least role_owner role_developer ≡ true
unfolding at_least rank
owner_above = refl

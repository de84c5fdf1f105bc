-- ===== src/Authz.antt =====
-- The authorization engine: server/internal/auth/authz/authz.go and principal.go.
pub mod Policy
mod Table
mod Decisions
mod Roles
mod Tests
use kilnci.Base.{
  String, Bool, true, false, not, List, [], ◌∷◌, Option, none, some, ◌==◌, ◌&&◌, ◌||◌,
  if◌then◌else◌, string_eq, any,
}
use kilnci.Domain.{Error, err_not_found, err_forbidden, err_unauthenticated}
use kilnci.Domain.Role.{Role, at_least}
use Policy.{Action, Rule, policy, lookup_rule}

pub data Kind : Type 0 where
  kind_user kind_api_token kind_runner kind_system : Kind

pub record Principal : Type 0 where
  pub kind : Kind
  pub user_id : String
  pub credential_id : String
  pub instance_admin : Bool
  -- `none` is Go's nil slice: no restriction by scopes.
  pub scopes : Option (List Action)

pub record Resource : Type 0 where
  pub org_id : String
  pub owner_user_id : String

-- The answer of `MembershipReader.GetMembershipRole`, an interface that the store implements.
pub data Membership : Type 0 where
  member : Role → Membership
  lookup_error : Error → Membership

abbrev pub MembershipReader : Type 0
MembershipReader = (org_id user_id : String) → Membership

-- `slices.Contains`
unfoldable pub contains : List Action → Action → Bool
contains xs a = any (λ b. b == a) xs

abbrev scopes_allow : Option (List Action) → Action → Bool
scopes_allow none a = true
scopes_allow (some xs) a = contains xs a

-- `Principal.AllowsAction`; the receiver may be nil.
unfoldable pub allows_action : Option Principal → Action → Bool
unfolding contains
allows_action none a = false
allows_action (some p) a = scopes_allow p.scopes a

abbrev may_act : Kind → Bool
may_act kind_user = true
may_act kind_api_token = true
may_act _ = false

abbrev is_user : Kind → Bool
is_user kind_user = true
is_user _ = false

-- The last part of `Check`, on the result of the membership lookup.
check_role : Rule → Membership → Option Error
check_role r (lookup_error err_not_found) = some err_not_found
check_role r (lookup_error e) = some e
check_role r (member role) = if not (at_least role r.min_role) then some err_forbidden else none

-- The `switch` of `Check` and what follows it, for a principal that may use the action.
check_rule : MembershipReader → Principal → Rule → Resource → Option Error
unfolding check_role
check_rule members p r res =
    if r.instance_admin
    then (if not p.instance_admin || not (is_user p.kind) then some err_forbidden else none)
    else if r.self_only
    then (if not (res.owner_user_id == "") && not (res.owner_user_id == p.user_id)
        then some err_not_found
        else none)
    else if res.org_id == ""
    then some err_forbidden
    else check_role r (members res.org_id p.user_id)

check_action : MembershipReader → Principal → Action → Option Rule → Resource → Option Error
unfolding check_rule
check_action members p a none res = some err_forbidden
check_action members p a (some r) res =
    if not (may_act p.kind)
    then some err_forbidden
    else if not (allows_action (some p) a)
    then some err_forbidden
    else check_rule members p r res

-- `Authorizer.Check`; `none` is Go's nil error, and an error is told by the sentinel it wraps.
unfoldable pub check : MembershipReader → Option Principal → Action → Resource → Option Error
unfolding check_action
check members none a res = some err_unauthenticated
check members (some p) a res =
    if p.user_id == ""
    then some err_unauthenticated
    else check_action members p a (lookup_rule a policy) res

role_allows_rule : Role → Option Rule → Bool
role_allows_rule role none = false
role_allows_rule role (some r) =
    if r.self_only || r.instance_admin then false else at_least role r.min_role

-- `RoleAllows`
unfoldable pub role_allows : Role → Action → Bool
unfolding role_allows_rule
role_allows role a = role_allows_rule role (lookup_rule a policy)

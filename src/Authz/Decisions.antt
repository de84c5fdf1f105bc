-- ===== src/Authz/Decisions.antt =====
-- What `Check` of auth/authz/authz.go decides.
use kilnci.Base.{
  true, false, List, none, some, ◌≡◌, ◌≢◌, ◌↔◌, ◌⊎◌, inl, inr, string_eq, arith, Bool-cases,
}
use text.Mathlib.TextEquality.{eq_iff}
use kilnci.Domain.{Error}
use kilnci.Domain.Role.{Role, at_least}
use kilnci.Authz.{
  kind_user, kind_api_token, Principal, Resource, member, lookup_error, MembershipReader, contains,
  allows_action, check, role_allows,
}
use kilnci.Authz.Roles.{at_least_trans}
use kilnci.Authz.Policy.{Action, Rule, policy, lookup_rule}

-- The principal is a user or an API token, names its user, and its scopes hold the action.
pub record MayUse (p : Principal) (a : Action) : Type 0 where
  pub named : p.user_id ≢ ""
  pub human : (p.kind ≡ kind_user) ⊎ (p.kind ≡ kind_api_token)
  pub scoped : allows_action (some p) a ≡ true

-- Who may do what, without the order of the tests in `Check`.
pub data Permitted (members : MembershipReader) (p : Principal) (a : Action) (res : Resource)
    : Type 0 where
  as_instance_admin :
      (r : Rule)
      → lookup_rule a policy ≡ some r
      → MayUse p a
      → r.instance_admin ≡ true
      → p.instance_admin ≡ true
      → p.kind ≡ kind_user
      → Permitted members p a res
  as_self :
      (r : Rule)
      → lookup_rule a policy ≡ some r
      → MayUse p a
      → r.instance_admin ≡ false
      → r.self_only ≡ true
      → (res.owner_user_id ≡ "") ⊎ (res.owner_user_id ≡ p.user_id)
      → Permitted members p a res
  as_member :
      (r : Rule) (role : Role)
      → lookup_rule a policy ≡ some r
      → MayUse p a
      → r.instance_admin ≡ false
      → r.self_only ≡ false
      → res.org_id ≢ ""
      → members res.org_id p.user_id ≡ member role
      → at_least role r.min_role ≡ true
      → Permitted members p a res

module _ (members : MembershipReader) (p : Principal) (a : Action) (res : Resource) where
  check-known : check members (some p) a res ≡ none → (r : Rule) × (lookup_rule a policy ≡ some r)
  unfolding check
  check-known h = ground (arith, eq_iff p.user_id "")

  check-MayUse : check members (some p) a res ≡ none → MayUse p a
  unfolding check
  check-MayUse h = record {
    named = ground (arith, eq_iff p.user_id "");
    human = ground (arith, eq_iff p.user_id "");
    scoped = ground (arith, eq_iff p.user_id "");
  }

  module _ (r : Rule) (l : lookup_rule a policy ≡ some r) where
    admin_only :
        r.instance_admin ≡ true
        → check members (some p) a res ≡ none
        → (p.instance_admin ≡ true) × (p.kind ≡ kind_user)
    unfolding check
    admin_only i h = ground (arith, eq_iff p.user_id "")

    self_only :
        r.instance_admin ≡ false
        → r.self_only ≡ true
        → check members (some p) a res ≡ none
        → (res.owner_user_id ≡ "") ⊎ (res.owner_user_id ≡ p.user_id)
    unfolding check
    self_only i s h = ground (
      arith,
      eq_iff p.user_id "",
      eq_iff res.owner_user_id "",
      eq_iff res.owner_user_id p.user_id,
    )

    members_only :
        r.instance_admin ≡ false
        → r.self_only ≡ false
        → check members (some p) a res ≡ none
        → (res.org_id ≢ "")
          × ((role : Role) × (members res.org_id p.user_id ≡ member role)
              × (at_least role r.min_role ≡ true))
    unfolding check
    members_only i s h = ground (arith, eq_iff p.user_id "", eq_iff res.org_id "")

  check-Permitted : check members (some p) a res ≡ none → Permitted members p a res
  check-Permitted h =
      let (r, l) = check-known h in
      elim (Bool-cases r.instance_admin) [
        | inl i ↦
            let (admin, user) = admin_only r l i h in
            as_instance_admin r l (check-MayUse h) i admin user
        | inr i ↦ elim (Bool-cases r.self_only) [
          | inl s ↦ as_self r l (check-MayUse h) i s (self_only r l i s h)
          | inr s ↦
              let (org, (role, found, high)) = members_only r l i s h in
              as_member r role l (check-MayUse h) i s org found high
        ]
      ]

  Permitted-check : Permitted members p a res → check members (some p) a res ≡ none
  unfolding check
  Permitted-check (as_instance_admin r l u i j k) = ground (arith, eq_iff p.user_id "")
  Permitted-check (as_self r l u i j k) =
      ground (
        arith,
        eq_iff p.user_id "",
        eq_iff res.owner_user_id "",
        eq_iff res.owner_user_id p.user_id,
      )
  Permitted-check (as_member r role l u i j o m b) =
      ground (arith, eq_iff p.user_id "", eq_iff res.org_id "")

-- `Check` permits an action exactly when one of three things holds: the action is for instance admins
-- and a user that is one asks; it is for the caller's own credential; or the caller is a member of the
-- resource's org with a role that is high enough. In each case the action is in the policy table, the
-- principal names its user, is a user or an API token, and its scopes hold the action.
pub check-Permitted_iff :
    (members : MembershipReader) (p : Principal) (a : Action) (res : Resource)
    → (check members (some p) a res ≡ none) ↔ Permitted members p a res
check-Permitted_iff members p a res =
    (check-Permitted members p a res, Permitted-check members p a res)

-- For an action on an org, a failed membership lookup is the answer, whatever the flags of the
-- principal are: one who is no member gets "not found", also for a resource that exists.
pub outsider_denied :
    (members : MembershipReader) (p : Principal) (a : Action) (res : Resource) (r : Rule)
    (e : Error)
    → lookup_rule a policy ≡ some r
    → r.instance_admin ≡ false
    → r.self_only ≡ false
    → MayUse p a
    → res.org_id ≢ ""
    → members res.org_id p.user_id ≡ lookup_error e
    → check members (some p) a res ≡ some e
unfolding check
outsider_denied members p a res r e l i s u o m =
    ground (arith, eq_iff p.user_id "", eq_iff res.org_id "")

-- An API token may do nothing outside its scopes, and nothing that its owner's session may not do.
pub token_bounded :
    (members : MembershipReader) (p : Principal) (a : Action) (res : Resource)
    {scopes : List Action}
    → p.scopes ≡ some scopes
    → check members (some p) a res ≡ none
    → (contains scopes a ≡ true)
      × (check members (some (record p { kind = kind_user; scopes = none })) a res ≡ none)
unfolding check allows_action
token_bounded members p a res e h =
    (ground (arith, eq_iff p.user_id ""), ground (arith, eq_iff p.user_id ""))

-- A higher role never loses a permission.
pub role_monotone :
    (members members' : MembershipReader) (p : Principal) (a : Action) (res : Resource)
    (role role' : Role)
    → members res.org_id p.user_id ≡ member role
    → members' res.org_id p.user_id ≡ member role'
    → at_least role' role ≡ true
    → check members (some p) a res ≡ none
    → check members' (some p) a res ≡ none
unfolding check
role_monotone members members' p a res role role' m m' high h =
    let (r, _) = check-known members p a res h in
    ground (arith, eq_iff p.user_id "", eq_iff res.org_id "", at_least_trans role' role r.min_role)

-- `RoleAllows` agrees with `Check` on an org's resource, for a member with an unrestricted session and
-- an action that is given by role.
pub role_allows_iff :
    (members : MembershipReader) (p : Principal) (a : Action) (res : Resource) (role : Role)
    (r : Rule)
    → lookup_rule a policy ≡ some r
    → r.instance_admin ≡ false
    → r.self_only ≡ false
    → p.user_id ≢ ""
    → p.kind ≡ kind_user
    → p.scopes ≡ none
    → res.org_id ≢ ""
    → members res.org_id p.user_id ≡ member role
    → (role_allows role a ≡ true) ↔ (check members (some p) a res ≡ none)
unfolding check role_allows allows_action
role_allows_iff members p a res role r l i s u k n o m = (
  λ h. ground (arith, eq_iff p.user_id "", eq_iff res.org_id ""),
  λ h. ground (arith, eq_iff p.user_id "", eq_iff res.org_id ""),
)

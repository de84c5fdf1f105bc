-- ===== src/Authz/Policy.antt =====
-- The permission names and the policy table: server/internal/auth/authz/action.go.
use kilnci.Base.{
  String, Bool, true, false, List, [], ◌∷◌, Option, none, some, map, ◌==◌, ◌||◌, if◌then◌else◌,
  string_eq,
}
use kilnci.Domain.Role.{Role, role_viewer, role_developer, role_admin}

abbrev pub Action : Type 0
Action = String

abbrev pub action_session_read : Action
action_session_read = "session:read"

abbrev pub action_session_delete : Action
action_session_delete = "session:delete"

abbrev pub action_orgs_list : Action
action_orgs_list = "orgs:list"

abbrev pub action_orgs_create : Action
action_orgs_create = "orgs:create"

abbrev pub action_orgs_read : Action
action_orgs_read = "orgs:read"

abbrev pub action_members_list : Action
action_members_list = "members:list"

abbrev pub action_members_manage : Action
action_members_manage = "members:manage"

abbrev pub action_projects_list : Action
action_projects_list = "projects:list"

abbrev pub action_projects_create : Action
action_projects_create = "projects:create"

abbrev pub action_projects_read : Action
action_projects_read = "projects:read"

abbrev pub action_audit_read : Action
action_audit_read = "audit:read"

abbrev pub action_runs_list : Action
action_runs_list = "runs:list"

abbrev pub action_runs_read : Action
action_runs_read = "runs:read"

abbrev pub action_runs_create : Action
action_runs_create = "runs:create"

abbrev pub action_runs_cancel : Action
action_runs_cancel = "runs:cancel"

abbrev pub action_runs_approve : Action
action_runs_approve = "runs:approve"

abbrev pub action_logs_read : Action
action_logs_read = "logs:read"

abbrev pub action_pipelines_lint : Action
action_pipelines_lint = "pipelines:lint"

abbrev pub action_runners_list : Action
action_runners_list = "runners:list"

abbrev pub action_runners_manage : Action
action_runners_manage = "runners:manage"

abbrev pub action_repository_read : Action
action_repository_read = "repository:read"

abbrev pub action_repository_manage : Action
action_repository_manage = "repository:manage"

abbrev pub action_vcs_installations_list : Action
action_vcs_installations_list = "vcs-installations:list"

abbrev pub action_vcs_installations_manage : Action
action_vcs_installations_manage = "vcs-installations:manage"

abbrev pub action_secrets_list : Action
action_secrets_list = "secrets:list"

abbrev pub action_secrets_manage : Action
action_secrets_manage = "secrets:manage"

abbrev pub action_tokens_list : Action
action_tokens_list = "tokens:list"

abbrev pub action_tokens_create : Action
action_tokens_create = "tokens:create"

abbrev pub action_tokens_delete : Action
action_tokens_delete = "tokens:delete"

abbrev pub permission_public : Action
permission_public = "public"

abbrev pub permission_pre_auth : Action
permission_pre_auth = "preauth"

-- `min_role` is "" where the source leaves it out.
pub record Rule : Type 0 where
  pub min_role : Role
  pub self_only : Bool
  pub instance_admin : Bool

abbrev of_role : Role → Rule
of_role r = record { min_role = r; self_only = false; instance_admin = false }

abbrev of_self : Rule
of_self = record { min_role = ""; self_only = true; instance_admin = false }

abbrev of_instance_admin : Rule
of_instance_admin = record { min_role = ""; self_only = false; instance_admin = true }

unfoldable pub policy : List (Action × Rule)
policy =
    (action_session_read, of_self)
    ∷ (action_session_delete, of_self)
    ∷ (action_orgs_list, of_self)
    ∷ (action_orgs_create, of_instance_admin)
    ∷ (action_orgs_read, of_role role_viewer)
    ∷ (action_members_list, of_role role_viewer)
    ∷ (action_members_manage, of_role role_admin)
    ∷ (action_projects_list, of_role role_viewer)
    ∷ (action_projects_create, of_role role_admin)
    ∷ (action_projects_read, of_role role_viewer)
    ∷ (action_audit_read, of_role role_admin)
    ∷ (action_runs_list, of_role role_viewer)
    ∷ (action_runs_read, of_role role_viewer)
    ∷ (action_runs_create, of_role role_developer)
    ∷ (action_runs_cancel, of_role role_developer)
    ∷ (action_runs_approve, of_role role_developer)
    ∷ (action_logs_read, of_role role_viewer)
    ∷ (action_pipelines_lint, of_self)
    ∷ (action_runners_list, of_role role_admin)
    ∷ (action_runners_manage, of_role role_admin)
    ∷ (action_repository_read, of_role role_viewer)
    ∷ (action_repository_manage, of_role role_admin)
    ∷ (action_vcs_installations_list, of_role role_admin)
    ∷ (action_vcs_installations_manage, of_instance_admin)
    ∷ (action_secrets_list, of_role role_developer)
    ∷ (action_secrets_manage, of_role role_admin)
    ∷ (action_tokens_list, of_self)
    ∷ (action_tokens_create, of_self)
    ∷ (action_tokens_delete, of_self)
    ∷ []

-- Go's read of a map: the value and whether the key is there.
unfoldable pub lookup_rule : Action → List (Action × Rule) → Option Rule
lookup_rule a [] = none
lookup_rule a ((b, r) ∷ t) = if b == a then some r else lookup_rule a t

abbrev has_rule : Option Rule → Bool
has_rule none = false
has_rule (some r) = true

unfoldable pub known : Action → Bool
unfolding policy lookup_rule
known a =
    if a == permission_public || a == permission_pre_auth
    then true
    else has_rule (lookup_rule a policy)

-- Go returns these in the order of a map, which is unspecified.
unfoldable pub actions : List Action
unfolding policy
actions = map (λ e. e.0) policy

-- ===== src/Domain/Role.antt =====
-- Org roles: server/internal/domain/role.go. A role is a Go string; one that is no declared
-- constant has rank -1.
use kilnci.Base.{ℕ, String, Bool, List, [], ◌∷◌, suc, ◌==◌, ◌&&◌, if◌then◌else◌, string_eq}
use kilnci.Base.Int.{ℤ, pos, negsuc, leb_ℤ}

abbrev pub Role : Type 0
Role = String

abbrev pub role_viewer : Role
role_viewer = "viewer"

abbrev pub role_developer : Role
role_developer = "developer"

abbrev pub role_admin : Role
role_admin = "admin"

abbrev pub role_owner : Role
role_owner = "owner"

abbrev pub all_roles : List Role
all_roles = role_viewer ∷ role_developer ∷ role_admin ∷ role_owner ∷ []

-- The loop of `Rank`, from index `i`.
rank_from : ℕ → List Role → Role → ℤ
rank_from i [] r = negsuc 0
rank_from i (x ∷ xs) r = if x == r then pos i else rank_from (suc i) xs r

unfoldable pub rank : Role → ℤ
unfolding rank_from
rank r = rank_from 0 all_roles r

unfoldable pub at_least : Role → Role → Bool
at_least r min_role =
    leb_ℤ (pos 0) (rank r) && leb_ℤ (pos 0) (rank min_role) && leb_ℤ (rank min_role) (rank r)

unfoldable pub valid : Role → Bool
valid r = leb_ℤ (pos 0) (rank r)

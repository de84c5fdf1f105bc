-- ===== src/Authz/Roles.antt =====
-- The order of the org roles: domain/role.go.
use kilnci.Base.{true, ◌≡◌, ◌↔◌, ◌||◌, string_eq, arith}
use kilnci.Domain.Role.{Role, at_least, valid}

-- "At least" is transitive.
pub at_least_trans :
    (a b c : Role) → at_least a b ≡ true → at_least b c ≡ true → at_least a c ≡ true
unfolding at_least
at_least_trans a b c h k = ground arith

-- Of two roles, one is at least the other exactly when both are known: an unknown role satisfies no
-- minimum, and no role satisfies an unknown minimum.
pub at_least_total_iff :
    (a b : Role) → ((at_least a b || at_least b a) ≡ true) ↔ ((valid a ≡ true) × (valid b ≡ true))
unfolding at_least valid
at_least_total_iff a b = (λ h. (ground arith, ground arith), λ h. ground arith)

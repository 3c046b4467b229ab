-- ===== src/Authz/Routes.antt =====
-- From a request to a permission: `ActionForMethod` and `ResourceForPath` of
-- internal/authz/authz.go, and `RejectStudents` and `RequirePermission` of
-- internal/middleware/auth.go.
use arcus_invest_backend.Base.{
  ◌==◌, Bool, true, false, ◌||◌, Option, none, some, List, [], ◌∷◌, if◌then◌else◌,
}
use arcus_invest_backend.Base.Text.{Text, codes, text_eq, is_empty}
use arcus_invest_backend.Authz.Grants.{Action, read, create, update, delete, no_action, lookup}
use arcus_invest_backend.Authz.Cache.{Cache, can}

unfoldable pub action_for_method : Text → Action
action_for_method m =
    if text_eq m (codes "GET") || text_eq m (codes "HEAD")
    then read
    else (if text_eq m (codes "POST")
        then create
        else (if text_eq m (codes "PUT") || text_eq m (codes "PATCH")
            then update
            else (if text_eq m (codes "DELETE") then delete else no_action)))

-- What is left of a text that begins with the prefix.
unfoldable pub strip_prefix : Text → Text → Option Text
strip_prefix [] t = some t
strip_prefix (c ∷ p) [] = none
strip_prefix (c ∷ p) (d ∷ t) = if c == d then strip_prefix p t else none

unfoldable pub has_suffix : Text → Text → Bool
has_suffix s [] = is_empty s
has_suffix s (c ∷ t) = text_eq s (c ∷ t) || has_suffix s t

-- The text before its first slash.
unfoldable pub head_segment : Text → Text
head_segment [] = []
head_segment (c ∷ t) = if c == 47 then [] else c ∷ head_segment t

abbrev pub admin_prefix : Text
admin_prefix = codes "/api/v1/admin/"

abbrev pub path_resources : List (Text × Text)
path_resources =
    (codes "opportunities", codes "opportunities")
    ∷ (codes "accounts", codes "accounts")
    ∷ (codes "contracts", codes "contracts")
    ∷ (codes "payments", codes "payments")
    ∷ (codes "quotes", codes "quotes")
    ∷ (codes "enrollments", codes "enrollments")
    ∷ (codes "students", codes "students")
    ∷ (codes "progress-reports", codes "students")
    ∷ (codes "extensions", codes "students")
    ∷ (codes "submissions", codes "students")
    ∷ (codes "events", codes "events")
    ∷ (codes "reservations", codes "events")
    ∷ (codes "products", codes "products")
    ∷ (codes "users", codes "users")
    ∷ (codes "staff", codes "opportunities")
    ∷ (codes "receivables", codes "payments")
    ∷ (codes "expenses", codes "expenses")
    ∷ (codes "expense-settlements", codes "expenses")
    ∷ (codes "payables", codes "expenses")
    ∷ (codes "position", codes "expenses")
    ∷ (codes "counter-sales", codes "counter_sales")
    ∷ (codes "till-sessions", codes "counter_sales")
    ∷ (codes "purchase-orders", codes "purchase_orders")
    ∷ (codes "goods-receipts", codes "purchase_orders")
    ∷ (codes "audit-logs", codes "audit")
    ∷ (codes "email", codes "email")
    ∷ (codes "metrics", codes "metrics")
    ∷ (codes "roles", codes "roles")
    ∷ (codes "gallery", codes "gallery")
    ∷ (codes "notifications", codes "notifications")
    ∷ (codes "approvals", codes "approvals")
    ∷ (codes "approval-rules", codes "approvals")
    ∷ []

-- What follows the prefix, where it is not empty.
abbrev pub resource_of_rest : Text → Option Text
resource_of_rest [] = none
resource_of_rest (c ∷ t) =
    if has_suffix (codes "/payments") (c ∷ t)
    then some (codes "payments")
    else lookup (head_segment (c ∷ t)) path_resources

-- `ResourceForPath`
unfoldable pub resource_for_path : Text → Option Text
resource_for_path path = elim (strip_prefix admin_prefix path) [
  | none ↦ none
  | some rest ↦ resource_of_rest rest
]

-- `RequirePermission`: whether the handler is run.
unfoldable pub require_permission : Cache → Text → Text → Text → Bool
require_permission c role method path = elim (resource_for_path path) [
  | none ↦ false
  | some res ↦ can c role res (action_for_method method)
]

-- `RejectStudents`: whether the next handler is run.
unfoldable pub reject_students : Text → Bool
reject_students role = if text_eq role (codes "student") then false else true

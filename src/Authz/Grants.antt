-- ===== src/Authz/Grants.antt =====
-- Grants and matrices: the types of internal/authz/authz.go and the built-in grants. A Go map is a
-- list of entries in which the newest entry of a key counts.
use arcus_invest_backend.Base.{Bool, true, false, Option, none, some, List, [], ◌∷◌, if◌then◌else◌}
use arcus_invest_backend.Base.Text.{Text, codes, text_eq}

pub data Action : Type 0 where
  read create update delete no_action : Action

-- `no_scope` is "none", and a scope that is none of the three is kept as its text.
pub data Scope : Type 0 where
  no_scope own_rows all_rows : Scope
  other_scope : Text → Scope

-- The four keys of `Actions`, where a missing key is false.
pub record Grant : Type 0 where
  pub can_read : Bool
  pub can_create : Bool
  pub can_update : Bool
  pub can_delete : Bool
  pub scope : Scope

unfoldable pub allows : Action → Grant → Bool
allows read g = g.can_read
allows create g = g.can_create
allows update g = g.can_update
allows delete g = g.can_delete
allows no_action g = false

abbrev pub full : Grant
full = record {
  can_read = true;
  can_create = true;
  can_update = true;
  can_delete = true;
  scope = all_rows;
}

abbrev pub read_only : Grant
read_only = record {
  can_read = true;
  can_create = false;
  can_update = false;
  can_delete = false;
  scope = all_rows;
}

abbrev pub own_inbox : Grant
own_inbox = record {
  can_read = true;
  can_create = false;
  can_update = true;
  can_delete = false;
  scope = own_rows;
}

abbrev pub approval_desk : Grant
approval_desk = record {
  can_read = true;
  can_create = true;
  can_update = true;
  can_delete = false;
  scope = all_rows;
}

abbrev pub Grants : Type 0
Grants = List (Text × Grant)

abbrev pub Matrix : Type 0
Matrix = List (Text × Grants)

module _ {ℓ} {V : Type ℓ} where
  -- Reading a map.
  abbrev pub lookup : Text → List (Text × V) → Option V
  lookup k [] = none
  lookup k ((j, v) ∷ m) = if text_eq j k then some v else lookup k m

-- `m[role][res]`: a missing role has no grants.
abbrev pub grant_in : Matrix → Text → Text → Option Grant
grant_in m role res = elim (lookup role m) [ none ↦ none | some g ↦ lookup res g ]

abbrev pub admin_grants : Grants
admin_grants =
    (codes "opportunities", full)
    ∷ (codes "accounts", full)
    ∷ (codes "contracts", full)
    ∷ (codes "payments", full)
    ∷ (codes "quotes", full)
    ∷ (codes "enrollments", full)
    ∷ (codes "students", full)
    ∷ (codes "events", full)
    ∷ (codes "products", full)
    ∷ (codes "users", full)
    ∷ (codes "audit", full)
    ∷ (codes "email", full)
    ∷ (codes "metrics", read_only)
    ∷ (codes "gallery", full)
    ∷ (codes "notifications", own_inbox)
    ∷ (codes "approvals", approval_desk)
    ∷ (codes "expenses", full)
    ∷ (codes "counter_sales", full)
    ∷ (codes "purchase_orders", full)
    ∷ []

abbrev pub super_admin_grants : Grants
super_admin_grants = (codes "roles", full) ∷ admin_grants

abbrev pub admissions_grants : Grants
admissions_grants =
    (codes "enrollments", full)
    ∷ (codes "students", full)
    ∷ (codes "events", full)
    ∷ (codes "products", read_only)
    ∷ (codes "metrics", read_only)
    ∷ (codes "notifications", own_inbox)
    ∷ []

-- `BuiltInGrants`, of which `matrix` is a copy.
abbrev pub built_in_grants : Matrix
built_in_grants =
    (codes "super_admin", super_admin_grants)
    ∷ (codes "admin", admin_grants)
    ∷ (codes "admissions", admissions_grants)
    ∷ (codes "student", [])
    ∷ []

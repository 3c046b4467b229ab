-- ===== src/Authz/Cache.antt =====
-- The cached matrix of internal/authz/authz.go: its loading, and the questions it answers. Rows come
-- in the order of the query.
use arcus_invest_backend.Base.{
  Bool, true, false, Option, none, some, List, [], ◌∷◌, is_some, if◌then◌else◌,
}
use arcus_invest_backend.Base.Text.{Text, codes, text_eq}
use arcus_invest_backend.Authz.Grants.{
  Action, read, Scope, no_scope, own_rows, all_rows, other_scope, Grant, allows, Grants, Matrix,
  lookup, grant_in, built_in_grants,
}

pub record PermissionRow : Type 0 where
  pub resource : Text
  pub can_read : Bool
  pub can_create : Bool
  pub can_update : Bool
  pub can_delete : Bool
  pub scope : Text

pub record RoleRow : Type 0 where
  pub name : Text
  pub permissions : List PermissionRow

-- `Scope(p.Scope)`
unfoldable pub scope_of : Text → Scope
scope_of t =
    if text_eq t (codes "none")
    then no_scope
    else (if text_eq t (codes "own")
        then own_rows
        else (if text_eq t (codes "all") then all_rows else other_scope t))

unfoldable pub grant_of : PermissionRow → Grant
grant_of p = record {
  can_read = p.can_read;
  can_create = p.can_create;
  can_update = p.can_update;
  can_delete = p.can_delete;
  scope = scope_of p.scope;
}

-- The loops of `LoadFromDB`, each with the map built so far.
unfoldable pub load_grants : List PermissionRow → Grants → Grants
load_grants [] acc = acc
load_grants (p ∷ ps) acc = load_grants ps ((p.resource, grant_of p) ∷ acc)

unfoldable pub load_roles : List RoleRow → Matrix → Matrix
load_roles [] acc = acc
load_roles (r ∷ rs) acc = load_roles rs ((r.name, load_grants r.permissions []) ∷ acc)

abbrev pub hides : Action → Grant → Bool
hides read g = elim g.scope [ no_scope ↦ true | _ ↦ false ]
hides _ g = false

abbrev pub granted : Action → Option Grant → Bool
granted act none = false
granted act (some g) = if hides act g then false else allows act g

-- `canInMatrix`
unfoldable pub can_in_matrix : Matrix → Text → Text → Action → Bool
can_in_matrix m role res act = granted act (grant_in m role res)

-- `cachedRoles`, nil until a load succeeds.
abbrev pub Cache : Type 0
Cache = Option Matrix

-- `LoadFromDB`, from the rows of the query or `none` for its error, and `RefreshCache`, which only
-- logs the error.
unfoldable pub load_from_db : Option (List RoleRow) → Cache → Cache
load_from_db none c = c
load_from_db (some rows) c =
    let fresh = load_roles rows [] in
    if can_in_matrix fresh (codes "super_admin") (codes "users") read then some fresh else c

abbrev pub refresh_cache : Option (List RoleRow) → Cache → Cache
refresh_cache rows c = load_from_db rows c

unfoldable pub active_matrix : Cache → Matrix
active_matrix none = built_in_grants
active_matrix (some m) = m

-- `Can`
unfoldable pub can : Cache → Text → Text → Action → Bool
can c role res act = granted act (grant_in (active_matrix c) role res)

abbrev pub scope_or_none : Scope → Scope
scope_or_none (other_scope []) = no_scope
scope_or_none s = s

-- `ReadScope`
unfoldable pub read_scope : Cache → Text → Text → Scope
read_scope c role res = elim (grant_in (active_matrix c) role res) [
  | none ↦ no_scope
  | some g ↦ if allows read g then scope_or_none g.scope else no_scope
]

-- `IsBuiltInRole`
unfoldable pub is_built_in_role : Text → Bool
is_built_in_role name = is_some (lookup name built_in_grants)

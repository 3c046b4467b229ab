-- ===== src/Authz/Laws.antt =====
-- What the permissions of internal/authz/authz.go guarantee, whatever is loaded.
use arcus_invest_backend.Base.{
  ◌≡◌, ◌≢◌, ◌↔◌, ◌⊎◌, inl, inr, refl, subst, ap, ◌∙◌, Bool, true, false, Option, none, some, List,
  [], ◌∷◌, ◌++◌, arith, if◌then◌else◌, Bool-cases, Option-cases, All,
}
use arcus_invest_backend.Base.Text.{Text, codes, text_eq, text_eq_sound}
use arcus_invest_backend.Authz.Grants.{
  read, delete, no_action, Scope, no_scope, own_rows, all_rows, other_scope, Grant, allows, Grants,
  Matrix, lookup, grant_in, built_in_grants,
}
use arcus_invest_backend.Authz.Cache.{
  RoleRow, Cache, granted, can_in_matrix, load_roles, refresh_cache, load_from_db, active_matrix,
  can, read_scope, scope_or_none,
}
use arcus_invest_backend.Authz.Routes.{
  action_for_method, admin_prefix, strip_prefix, resource_of_rest, resource_for_path,
  require_permission,
}

-- Refreshes one after another, each from the rows of the query or its error.
pub refresh_all : List (Option (List RoleRow)) → Cache → Cache
refresh_all [] c = c
refresh_all (x ∷ xs) c = refresh_all xs (refresh_cache x c)

abbrev SuperAdminReadsUsers : Cache → Type 0
SuperAdminReadsUsers c = can c (codes "super_admin") (codes "users") read ≡ true

load_from_db-reads_users :
    (x : Option (List RoleRow)) (c : Cache)
    → SuperAdminReadsUsers c
    → SuperAdminReadsUsers (load_from_db x c)
unfolding load_from_db can can_in_matrix active_matrix
load_from_db-reads_users none c h = h
load_from_db-reads_users (some rows) c h =
    elim (Bool-cases
      (can_in_matrix (load_roles rows []) (codes "super_admin") (codes "users") read)) [
        | inl e ↦ rw (e, can_in_matrix) e
        | inr e ↦ rw (e, can_in_matrix) h
      ]

refresh_all-reads_users :
    (xs : List (Option (List RoleRow))) (c : Cache)
    → SuperAdminReadsUsers c
    → SuperAdminReadsUsers (refresh_all xs c)
unfolding refresh_all
refresh_all-reads_users [] c h = h
refresh_all-reads_users (x ∷ xs) c h =
    refresh_all-reads_users xs (load_from_db x c) (load_from_db-reads_users x c h)

-- However often the permissions are refreshed, and whatever the database answers, errors and
-- corrupt rows included, the super administrator can read the users.
pub super_admin_never_locked_out :
    (xs : List (Option (List RoleRow)))
    → can (refresh_all xs none) (codes "super_admin") (codes "users") read ≡ true
unfolding can active_matrix text_eq allows
super_admin_never_locked_out xs = refresh_all-reads_users xs none refl

some_lem {ℓ} : {A : Type ℓ} {x y : A} → ◌≡◌ {A = Option A} (some x) (some y) → x ≡ y
some_lem h = ground arith

module _ {ℓ} {V : Type ℓ} where
  -- What holds of every entry of a map holds of what is found in it.
  lookup-All {κ} :
      (P : Text → V → Type κ) (k : Text) (m : List (Text × V)) {v : V}
      → lookup k m ≡ some v
      → All (λ e. P e.0 e.1) m
      → P k v
  lookup-All P k [] h a = ground arith
  lookup-All P k ((j, w) ∷ m) {v} h a = elim (Bool-cases (text_eq j k)) [
    | inl e ↦ subst (λ i. P i v) (text_eq_sound j k e) (subst (P j) (some_lem (rw e at h)) a.0)
    | inr e ↦ lookup-All P k m (rw e at h) a.1
  ]

-- No built-in role may delete an approval.
KeepsApprovals : Text → Grants → Type 0
KeepsApprovals role g =
    (x : Grant) → lookup (codes "approvals") g ≡ some x → allows delete x ≡ false

built_in-KeepsApprovals : All (λ e. KeepsApprovals e.0 e.1) built_in_grants
unfolding KeepsApprovals text_eq allows
built_in-KeepsApprovals =
    (λ x h. ground arith, (λ x h. ground arith, (λ x h. ground arith, (λ x h. ground arith, tt))))

granted_delete :
    (g : Option Grant)
    → ((x : Grant) → g ≡ some x → allows delete x ≡ false)
    → granted delete g ≡ false
granted_delete none f = refl
granted_delete (some x) f = f x refl

keeps-granted :
    (role : Text) (m : Matrix)
    → All (λ e. KeepsApprovals e.0 e.1) m
    → granted delete (grant_in m role (codes "approvals")) ≡ false
unfolding KeepsApprovals
keeps-granted role m a = elim (Option-cases (lookup role m)) [
  | inl e ↦ rw (e, granted) refl
  | inr (g, e) ↦
      rw (e, granted)
        (granted_delete (lookup (codes "approvals") g) (lookup-All KeepsApprovals role m e a))
]

-- Under the built-in grants no role may send a request that deletes on a route of the approvals.
approvals_not_erased :
    (role path : Text)
    → resource_for_path path ≡ some (codes "approvals")
    → require_permission none role (codes "DELETE") path ≡ false
unfolding require_permission action_for_method can active_matrix text_eq allows resource_for_path
    strip_prefix
approvals_not_erased role path h = rw h (keeps-granted role built_in_grants built_in-KeepsApprovals)

strip_prefix_sound : (p t : Text) {r : Text} → strip_prefix p t ≡ some r → t ≡ p ++ r
unfolding strip_prefix
strip_prefix_sound [] t {r} h = some_lem h
strip_prefix_sound (c ∷ p) [] h = ground arith
strip_prefix_sound (c ∷ p) (d ∷ t) {r} h = ground (arith, strip_prefix_sound p t {r = r})

abbrev is_none : Scope → Bool
is_none s = elim s [ no_scope ↦ true | _ ↦ false ]

scope_or_none_iff :
    (b : Bool) (s : Scope)
    → ((if b then scope_or_none s else no_scope) ≡ no_scope)
      ↔ (((if is_none s then false else b) ≡ false) ⊎ (s ≡ other_scope []))
scope_or_none_iff b no_scope = ground arith
scope_or_none_iff b own_rows = ground arith
scope_or_none_iff b all_rows = ground arith
scope_or_none_iff b (other_scope []) = ground arith
scope_or_none_iff b (other_scope (c ∷ t)) = ground arith

scope_in_iff :
    (o : Option Grant)
    → (elim o [ none ↦ no_scope | some g ↦ if g.can_read then scope_or_none g.scope else no_scope ]
        ≡ no_scope)
      ↔ ((granted read o ≡ false) ⊎ ((g : Grant) × (o ≡ some g) × (g.scope ≡ other_scope [])))
unfolding allows
scope_in_iff none = (λ h. inl refl, λ h. refl)
scope_in_iff (some g) = (
  λ h. elim ((scope_or_none_iff g.can_read g.scope).0 h) [
    | inl e ↦ inl e
    | inr e ↦ inr (g, refl, e)
  ],
  λ h.
      (scope_or_none_iff g.can_read g.scope).1 (elim h [
        | inl e ↦ inl e
        | inr (k, e, blank) ↦ inr (ap (λ x. x.scope) (some_lem e) ∙ blank)
      ]),
)

-- The scope a role reads by is `none` exactly when it may not read, or its grant has an empty scope.
pub read_scope_iff :
    (c : Cache) (role res : Text)
    → (read_scope c role res ≡ no_scope) ↔ (
        (can c role res read ≡ false)
        ⊎ ((g : Grant) × (grant_in (active_matrix c) role res ≡ some g)
            × (g.scope ≡ other_scope [])))
unfolding read_scope can allows
read_scope_iff c role res = scope_in_iff (grant_in (active_matrix c) role res)

-- A request that is let through came on a path under the administration's prefix, with one of the
-- verbs that mean an action, by a role that has a grant for that action on the path's resource.
pub require_permission_granted :
    (c : Cache) (role method path : Text)
    → require_permission c role method path ≡ true
    → (rest res : Text) × (g : Grant) × (path ≡ admin_prefix ++ rest)
      × (resource_for_path path ≡ some res)
      × (grant_in (active_matrix c) role res ≡ some g)
      × (allows (action_for_method method) g ≡ true)
      × (action_for_method method ≢ no_action)
unfolding require_permission can resource_for_path allows
require_permission_granted c role method path h =
    elim (Option-cases (strip_prefix admin_prefix path)) [
      | inl e ↦ ground arith
      | inr (rest, e) ↦ elim (Option-cases (resource_of_rest rest)) [
        | inl e2 ↦ ground arith
        | inr (res, e2) ↦ elim (Option-cases (grant_in (active_matrix c) role res)) [
          | inl e3 ↦ ground arith
          | inr (g, e3) ↦ (
            rest,
            res,
            g,
            strip_prefix_sound admin_prefix path e,
            ground arith,
            e3,
            ground arith,
            ground arith,
          )
        ]
      ]
    ]

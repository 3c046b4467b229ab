-- ===== src/Staff/RoleLaws.antt =====
-- What the roles that a caller writes may grant.
use arcus_invest_backend.Base.{
  ℕ, ◌≡◌, inl, inr, Bool, true, ◌&&◌, Option, none, some, List, [], find, any, All,
  update_where-All, Bool-cases, Option-cases,
}
use arcus_invest_backend.Base.Text.{Text, is_empty}
use arcus_invest_backend.Base.Tables.{delete-All}
use arcus_invest_backend.Authz.Grants.{Action}
use arcus_invest_backend.Authz.Cache.{PermissionRow, can}
use arcus_invest_backend.Staff.Roles.{
  role_is, is_named, insert_role, new_role, create_checked, trimmed, create_trimmed, create_role,
  change_role, write_role, write_checked, update_grants, is_given, empties, update_body, with_role,
  update_role, holds, drop_role, delete_role,
}
use arcus_invest_backend.Staff.Permissions.{
  CustomRole, Staff, RoleRequest, RoleChange, RoleReply, Checked, refused, checked,
  check_permissions, is_slug,
}
use arcus_invest_backend.Staff.PermissionLaws.{
  All-weaken, AllWithin, GrantsWithin, StaysWithin, check-AllWithin, held,
}

module _ (ceiling : Text → Action → Bool) where
  abbrev RolesWithin : Staff → Type 0
  RolesWithin s = All (GrantsWithin ceiling) s.roles

  abbrev Under : Staff → Text → Type 0
  Under s caller =
      (res : Text) (act : Action) → can s.cache caller res act ≡ true → ceiling res act ≡ true

  insert_role-RolesWithin :
      (found : Bool) (r : CustomRole) (s : Staff)
      → All (StaysWithin ceiling) r.permissions
      → RolesWithin s
      → RolesWithin (insert_role found r s).1
  insert_role-RolesWithin found r s new h = elim (Bool-cases (any (role_is r.id) s.roles)) [
    | inl e ↦ rw (e, insert_role) h
    | inr e ↦ rw (e, insert_role) ((λ b. new), h)
  ]

  create_checked-RolesWithin :
      (found : Bool) (id : ℕ) (r : RoleRequest) (k : Checked) (low : Text → Action → Bool)
      (s : Staff)
      → ((res : Text) (act : Action) → low res act ≡ true → ceiling res act ≡ true)
      → AllWithin low k
      → RolesWithin s
      → RolesWithin (create_checked found id r k s).1
  create_checked-RolesWithin found id r (refused e) low s le k h = h
  create_checked-RolesWithin found id r (checked ps) low s le k h =
      insert_role-RolesWithin found (new_role id r ps) s (All-weaken low ceiling ps le k) h

  create_trimmed-RolesWithin :
      (found : Bool) (id : ℕ) (caller : Text) (r : RoleRequest) (s : Staff)
      → Under s caller
      → RolesWithin s
      → RolesWithin (create_trimmed found id caller r s).1
  create_trimmed-RolesWithin found id caller r s le h = elim (Bool-cases (is_slug r.name)) [
    | inr e ↦ rw (e, create_trimmed) h
    | inl e ↦ elim (Bool-cases (is_empty r.label)) [
      | inl l ↦ rw (e, l, create_trimmed) h
      | inr l ↦ elim (Bool-cases (any (is_named r.name) s.roles)) [
        | inl n ↦ rw (e, l, n, create_trimmed) h
        | inr n ↦
            rw (e, l, n, create_trimmed)
              (create_checked-RolesWithin found id r
                (check_permissions s.cache caller [] r.permissions) (held s.cache caller) s le
                (check-AllWithin s.cache caller [] r.permissions) h)
      ]
    ]
  ]

  write_role-RolesWithin :
      (found : Bool) (n : ℕ) (r : RoleChange) (ps : Option (List PermissionRow)) (role : CustomRole)
      (s : Staff)
      → ((x : CustomRole) → GrantsWithin ceiling x → GrantsWithin ceiling (change_role r ps x))
      → RolesWithin s
      → RolesWithin (write_role found n r ps role s).1
  write_role-RolesWithin found n r ps role s better h =
      update_where-All (GrantsWithin ceiling) (role_is n) (change_role r ps) s.roles
        (λ x e g. better x g) h

  write_checked-RolesWithin :
      (found : Bool) (n : ℕ) (r : RoleChange) (k : Checked) (role : CustomRole)
      (low : Text → Action → Bool) (s : Staff)
      → ((res : Text) (act : Action) → low res act ≡ true → ceiling res act ≡ true)
      → AllWithin low k
      → RolesWithin s
      → RolesWithin (write_checked found n r k role s).1
  write_checked-RolesWithin found n r (refused e) role low s le k h = h
  write_checked-RolesWithin found n r (checked ps) role low s le k h =
      write_role-RolesWithin found n r (some ps) role s (λ x g b. All-weaken low ceiling ps le k) h

  update_grants-RolesWithin :
      (found : Bool) (n : ℕ) (caller : Text) (r : RoleChange) (ps : Option (List PermissionRow))
      (role : CustomRole) (s : Staff)
      → Under s caller
      → RolesWithin s
      → RolesWithin (update_grants found n caller r ps role s).1
  update_grants-RolesWithin found n caller r none role s le h =
      write_role-RolesWithin found n r none role s (λ x g. g) h
  update_grants-RolesWithin found n caller r (some ps) role s le h =
      write_checked-RolesWithin found n r (check_permissions s.cache caller [] ps) role
        (held s.cache caller) s le (check-AllWithin s.cache caller [] ps) h

  update_body-RolesWithin :
      (found : Bool) (n : ℕ) (caller : Text) (body : Option RoleChange) (role : CustomRole)
      (s : Staff)
      → Under s caller
      → RolesWithin s
      → RolesWithin (update_body found n caller body role s).1
  update_body-RolesWithin found n caller none role s le h = h
  update_body-RolesWithin found n caller (some r) role s le h =
      elim (Bool-cases (role.is_built_in && is_given r.permissions)) [
        | inl e ↦ rw (e, update_body) h
        | inr e ↦ elim (Bool-cases (empties r.label)) [
          | inl l ↦ rw (e, l, update_body) h
          | inr l ↦
              rw (e, l, update_body)
                (update_grants-RolesWithin found n caller r r.permissions role s le h)
        ]
      ]

  drop_role-RolesWithin :
      (found : Bool) (n : ℕ) (role : CustomRole) (s : Staff)
      → RolesWithin s
      → RolesWithin (drop_role found n role s).1
  drop_role-RolesWithin found n role s h = elim (Bool-cases role.is_built_in) [
    | inl e ↦ rw (e, drop_role) h
    | inr e ↦ elim (Bool-cases (any (holds role.name) s.users)) [
      | inl u ↦ rw (e, u, drop_role) h
      | inr u ↦
          rw (e, u, drop_role) (delete-All (λ r. r.id) (GrantsWithin ceiling) (role_is n) s.roles h)
    ]
  ]

  with_role-RolesWithin :
      (path : Option ℕ) (act : ℕ → CustomRole → Staff → RoleReply × Staff) (s : Staff)
      → RolesWithin s
      → ((n : ℕ) (role : CustomRole) → RolesWithin (act n role s).1)
      → RolesWithin (with_role path act s).1
  with_role-RolesWithin none act s h f = h
  with_role-RolesWithin (some n) act s h f = elim (Option-cases (find (role_is n) s.roles)) [
    | inl e ↦ rw (e, with_role) h
    | inr (role, e) ↦ rw (e, with_role) (f n role)
  ]

-- The requests that write roles.
pub data RoleCall : Type 0 where
  raise : (found : Bool) (id : ℕ) (body : Option RoleRequest) → RoleCall
  edit : (found : Bool) (path : Option ℕ) (body : Option RoleChange) → RoleCall
  drop : (found : Bool) (path : Option ℕ) → RoleCall

unfoldable pub answer : (Text → Text) → Text → RoleCall → Staff → RoleReply × Staff
answer lower caller (raise found id body) s = create_role lower found id caller body s
answer lower caller (edit found path body) s = update_role found caller path body s
answer lower caller (drop found path) s = delete_role found path s

-- Where a ceiling bounds what the caller's role may do and what every role that is not built in
-- allows, it still bounds every such role after a request of the caller to create, edit or delete a
-- role, granted or refused, whether or not the permissions are reloaded.
pub grants_not_amplified :
    (lower : Text → Text) (caller : Text) (call : RoleCall) (s : Staff)
    (ceiling : Text → Action → Bool)
    → ((res : Text) (act : Action) → can s.cache caller res act ≡ true → ceiling res act ≡ true)
    → All (GrantsWithin ceiling) s.roles
    → All (GrantsWithin ceiling) (answer lower caller call s).1.roles
unfolding answer create_role update_role delete_role
grants_not_amplified lower caller (raise found id none) s ceiling le h = h
grants_not_amplified lower caller (raise found id (some r)) s ceiling le h =
    create_trimmed-RolesWithin ceiling found id caller (trimmed lower r) s le h
grants_not_amplified lower caller (edit found path body) s ceiling le h =
    with_role-RolesWithin ceiling path (λ n role. update_body found n caller body role) s h
      (λ n role. update_body-RolesWithin ceiling found n caller body role s le h)
grants_not_amplified lower caller (drop found path) s ceiling le h =
    with_role-RolesWithin ceiling path (drop_role found) s h
      (λ n role. drop_role-RolesWithin ceiling found n role s h)

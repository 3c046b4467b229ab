-- ===== src/Staff/PermissionLaws.antt =====
-- The permissions that pass the checks, against those that the caller holds.
use arcus_invest_backend.Base.{
  ◌≡◌, inl, inr, Bool, true, false, none, List, [], ◌∷◌, arith, All, Bool-cases, Option-cases,
}
use arcus_invest_backend.Base.Text.{Text, codes}
use arcus_invest_backend.Authz.Grants.{Action, read, create, update, delete, no_action, allows}
use arcus_invest_backend.Authz.Cache.{PermissionRow, Cache, can, grant_of}
use arcus_invest_backend.Staff.Permissions.{
  CustomRole, not_held_error, entry_error, has_any_action, stored_entry, Checked, refused, checked,
  add_entry, check_permissions,
}

-- Every action that the entry allows stays under a ceiling.
abbrev pub StaysWithin : (Text → Action → Bool) → PermissionRow → Type 0
StaysWithin ceiling p =
    (act : Action) → allows act (grant_of p) ≡ true → ceiling p.resource act ≡ true

-- The same of the entries of a role that is not built in.
abbrev pub GrantsWithin : (Text → Action → Bool) → CustomRole → Type 0
GrantsWithin ceiling r = r.is_built_in ≡ false → All (StaysWithin ceiling) r.permissions

abbrev pub held : Cache → Text → Text → Action → Bool
held c caller res act = can c caller res act

pub not_held-StaysWithin :
    (c : Cache) (caller : Text) (p : PermissionRow)
    → not_held_error c caller p ≡ none
    → StaysWithin (held c caller) p
unfolding not_held_error allows grant_of
not_held-StaysWithin c caller p h read a = ground arith
not_held-StaysWithin c caller p h create a = ground arith
not_held-StaysWithin c caller p h update a = ground arith
not_held-StaysWithin c caller p h delete a = ground arith
not_held-StaysWithin c caller p h no_action a = absurd (ground arith)

pub entry_error-none :
    (c : Cache) (caller : Text) (seen : List Text) (p : PermissionRow)
    → entry_error c caller seen p ≡ none
    → not_held_error c caller p ≡ none
unfolding entry_error
entry_error-none c caller seen p h = ground arith

pub rescoped-StaysWithin :
    (ceiling : Text → Action → Bool) (p : PermissionRow) (t : Text)
    → StaysWithin ceiling p
    → StaysWithin ceiling (record p { scope = t })
unfolding allows grant_of
rescoped-StaysWithin ceiling p t h read a = h read a
rescoped-StaysWithin ceiling p t h create a = h create a
rescoped-StaysWithin ceiling p t h update a = h update a
rescoped-StaysWithin ceiling p t h delete a = h delete a
rescoped-StaysWithin ceiling p t h no_action a = absurd (ground arith)

pub stored-StaysWithin :
    (ceiling : Text → Action → Bool) (p : PermissionRow)
    → StaysWithin ceiling p
    → StaysWithin ceiling (stored_entry p)
stored-StaysWithin ceiling p h = elim (Bool-cases (has_any_action p)) [
  | inl e ↦ rw (e, stored_entry) h
  | inr e ↦ rw (e, stored_entry) (rescoped-StaysWithin ceiling p (codes "none") h)
]

abbrev pub AllWithin : (Text → Action → Bool) → Checked → Type 0
AllWithin ceiling (refused e) = Unit
AllWithin ceiling (checked ps) = All (StaysWithin ceiling) ps

pub add_entry-AllWithin :
    (ceiling : Text → Action → Bool) (p : PermissionRow) (rest : Checked)
    → StaysWithin ceiling p
    → AllWithin ceiling rest
    → AllWithin ceiling (add_entry p rest)
add_entry-AllWithin ceiling p (refused e) h r = tt
add_entry-AllWithin ceiling p (checked ps) h r = (stored-StaysWithin ceiling p h, r)

-- The entries that pass the checks stay within what the caller holds.
pub check-AllWithin :
    (c : Cache) (caller : Text) (seen : List Text) (ps : List PermissionRow)
    → AllWithin (held c caller) (check_permissions c caller seen ps)
unfolding check_permissions
check-AllWithin c caller seen [] = tt
check-AllWithin c caller seen (p ∷ ps) = elim (Option-cases (entry_error c caller seen p)) [
  | inr (x, e) ↦ rw (e, check_permissions) tt
  | inl e ↦
      rw (e, check_permissions)
        (add_entry-AllWithin (held c caller) p (check_permissions c caller (p.resource ∷ seen) ps)
          (not_held-StaysWithin c caller p (entry_error-none c caller seen p e))
          (check-AllWithin c caller (p.resource ∷ seen) ps))
]

pub All-weaken :
    (low high : Text → Action → Bool) (ps : List PermissionRow)
    → ((res : Text) (act : Action) → low res act ≡ true → high res act ≡ true)
    → All (StaysWithin low) ps
    → All (StaysWithin high) ps
All-weaken low high [] le h = tt
All-weaken low high (p ∷ ps) le h =
    ((λ act a. le p.resource act (h.0 act a)), All-weaken low high ps le h.1)

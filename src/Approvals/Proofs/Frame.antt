-- ===== src/Approvals/Proofs/Frame.antt =====
-- What an `UPDATE` of the requests leaves standing, when it leaves the identity of a row alone.
use arcus_invest_backend.Base.{
  ℕ, ◌≡◌, refl, ◌∙◌, Bool, true, false, Option, none, some, List, [], ◌∷◌, arith, inl, inr, any,
  update_where, All, All-map, any-update_where, Bool-cases,
}
use arcus_invest_backend.Approvals.Types.{ApprovalRequest, ApprovalDecision, PendingKey}
use arcus_invest_backend.Approvals.Queries.{request_is, holds_key}
use arcus_invest_backend.Approvals.Sound.{DistinctIds, DistinctKeys, key_free}

module _ (p : ApprovalRequest → Bool) (f : ApprovalRequest → ApprovalRequest)
    (same_id : (r : ApprovalRequest) → (f r).id ≡ r.id) where
  request_is-update : (n : ℕ) (r : ApprovalRequest) → request_is n (f r) ≡ request_is n r
  request_is-update n r = rw (same_id r)

  pub any_id-update :
      (n : ℕ) (rs : List ApprovalRequest)
      → any (request_is n) (update_where p f rs) ≡ any (request_is n) rs
  any_id-update n rs = any-update_where (request_is n) p f rs (request_is-update n)

  pub DistinctIds-update :
      (rs : List ApprovalRequest) → DistinctIds rs → DistinctIds (update_where p f rs)
  DistinctIds-update [] h = tt
  DistinctIds-update (r ∷ rs) h = (
    elim (Bool-cases (p r)) [
      | inl e ↦ rw (e, same_id r, any_id-update r.id rs) h.0
      | inr e ↦ rw (e, any_id-update r.id rs) h.0
    ],
    DistinctIds-update rs h.1,
  )

  pub filed-update :
      (rs : List ApprovalRequest) (ds : List ApprovalDecision)
      → All (λ d. any (request_is d.request_id) rs ≡ true) ds
      → All (λ d. any (request_is d.request_id) (update_where p f rs) ≡ true) ds
  filed-update rs ds h = All-map ds (λ d e. any_id-update d.request_id rs ∙ e) h

-- The update leaves the pending key, or clears it.
module _ (p : ApprovalRequest → Bool) (f : ApprovalRequest → ApprovalRequest)
    (keeps_or_clears : (r : ApprovalRequest) (k : PendingKey)
      → holds_key k (f r) ≡ true
      → holds_key k r ≡ true)
    (keeps : (r : ApprovalRequest) (k : PendingKey)
      → (f r).pending_key ≡ some k
      → r.pending_key ≡ some k) where
  any_key-update :
      (k : PendingKey) (rs : List ApprovalRequest)
      → any (holds_key k) rs ≡ false
      → any (holds_key k) (update_where p f rs) ≡ false
  any_key-update k [] h = refl
  any_key-update k (r ∷ rs) h = ground (arith, keeps_or_clears r k, any_key-update k rs)

  key_free-update :
      (o : Option PendingKey) (rs : List ApprovalRequest)
      → key_free o rs ≡ true
      → key_free o (update_where p f rs) ≡ true
  key_free-update none rs h = refl
  key_free-update (some k) rs h = ground (arith, any_key-update k rs)

  key_free-row :
      (r : ApprovalRequest) (rs : List ApprovalRequest) (o : Option PendingKey)
      → (f r).pending_key ≡ o
      → key_free r.pending_key rs ≡ true
      → key_free o rs ≡ true
  key_free-row r rs none e h = refl
  key_free-row r rs (some k) e h = rw (keeps r k e) at h

  pub DistinctKeys-update :
      (rs : List ApprovalRequest) → DistinctKeys rs → DistinctKeys (update_where p f rs)
  DistinctKeys-update [] h = tt
  DistinctKeys-update (r ∷ rs) h = (
    elim (Bool-cases (p r)) [
      | inl e ↦
          rw e (key_free-update (f r).pending_key rs (key_free-row r rs (f r).pending_key refl h.0))
      | inr e ↦ rw e (key_free-update r.pending_key rs h.0)
    ],
    DistinctKeys-update rs h.1,
  )

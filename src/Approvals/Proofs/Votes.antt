-- ===== src/Approvals/Proofs/Votes.antt =====
-- Rows found by their id, and a new vote on one of them.
use arcus_invest_backend.Base.{
  ℕ, ◌==◌, ◌≡◌, true, false, some, List, [], ◌∷◌, arith, inl, inr, is_id, find, any, All, All-map,
  Bool-cases,
}
use arcus_invest_backend.Base.Text.{text_eq}
use arcus_invest_backend.Approvals.Types.{ApprovalRequest, ApprovalDecision}
use arcus_invest_backend.Approvals.Queries.{request_is}
use arcus_invest_backend.Approvals.Sound.{DistinctIds, IsIndependent, IsCleared}

abbrev pub Is : ℕ → ApprovalRequest → ApprovalRequest → Type 0
Is n r q = (n == q.id) ≡ true → q ≡ r

absent-Is :
    (n : ℕ) (r : ApprovalRequest) (rs : List ApprovalRequest)
    → any (request_is n) rs ≡ false
    → All (Is n r) rs
absent-Is n r [] h = tt
absent-Is n r (q ∷ rs) h = ((λ e. absurd (ground arith)), absent-Is n r rs (ground arith))

-- Ids are distinct, so every row with the id that was looked up is the row that was found.
pub found_unique :
    (n : ℕ) (rs : List ApprovalRequest) {r : ApprovalRequest}
    → DistinctIds rs
    → find (request_is n) rs ≡ some r
    → All (Is n r) rs
found_unique n [] d h = tt
found_unique n (q ∷ rs) {r} d h = elim (Bool-cases (request_is n q)) [
  | inl e ↦ ((λ m. ground arith), absent-Is n r rs (ground (arith, d.0)))
  | inr e ↦ ((λ m. absurd (ground arith)), found_unique n rs {r = r} d.1 (ground arith))
]

-- A vote that is independent of the row it was cast on is independent of every row.
pub vote-IsIndependent :
    (d : ApprovalDecision) (rs : List ApprovalRequest) (r : ApprovalRequest)
    → All (Is d.request_id r) rs
    → is_id r.requester_id d.approver_id ≡ false
    → text_eq d.approver_role r.approver_role ≡ true
    → All (λ q. IsIndependent q d) rs
vote-IsIndependent d rs r u other role =
    All-map rs (λ q same e. (rw (same e) other, rw (same e) role)) u

pub vote-IsCleared :
    (d : ApprovalDecision) (ds : List ApprovalDecision) (rs : List ApprovalRequest)
    → All (IsCleared ds) rs
    → All (IsCleared (d ∷ ds)) rs
vote-IsCleared d ds rs h = All-map rs (λ r c e. omega (arith, c e)) h

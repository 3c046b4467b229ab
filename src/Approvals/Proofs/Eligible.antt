-- ===== src/Approvals/Proofs/Eligible.antt =====
-- What the checks of the approve, reject and resubmit handlers establish.
use mathlib.Core.Path.{subst, subst₂}
use arcus_invest_backend.Base.{
  ℕ, ◌≡◌, refl, sym, true, false, Option, none, some, arith, inl, inr, is_id, find_sound, ==_iff,
  Bool-cases,
}
use arcus_invest_backend.Base.Text.{text_eq}
use arcus_invest_backend.Approvals.Types.{
  ApprovalRequest, User, Store, Statement, Faults, Caller, is_pending, is_rejected,
}
use arcus_invest_backend.Approvals.Queries.{find_request, find_user, request_is}
use arcus_invest_backend.Approvals.Desk.{
  Reply, Check, pass, stop, ◌>>=◌, or_stop, eligible_to_decide, open_case, caller, load,
}

pub record Eligible (who : Caller) (row : ApprovalRequest) (me : User) (s : Store) : Type 0 where
  pub known : find_user who s ≡ some me
  pub found : find_request row.id s ≡ some row
  pub waiting : is_pending row.status ≡ true
  pub other : is_id row.requester_id me.id ≡ false
  pub role : text_eq me.role row.approver_role ≡ true

-- Inversion of a chain of checks that has passed.
pub >>=-eq-pass :
    {A B : Type 0} (m : Check A) (f : A → Check B) {b : B}
    → (m >>= f) ≡ pass b
    → (a : A) × (m ≡ pass a) × (f a ≡ pass b)
>>=-eq-pass (pass a) f h = (a, refl, h)
>>=-eq-pass (stop r) f h = cc

pub or_stop-eq-pass :
    {A : Type 0} (o : Option A) (r : Reply) {a : A} → or_stop o r ≡ pass a → o ≡ some a
or_stop-eq-pass none r h = cc
or_stop-eq-pass (some a) r h = cc

eligible_to_decide-pass :
    (r : ApprovalRequest) (me : User) {u : Unit {0}}
    → eligible_to_decide r me ≡ pass u
    → (is_pending r.status ≡ true)
      × (is_id r.requester_id me.id ≡ false)
      × (text_eq me.role r.approver_role ≡ true)
unfolding eligible_to_decide
eligible_to_decide-pass r me h = ground arith

caller_lem :
    (down : Faults) (who : Caller) (s : Store) {me : User}
    → caller down who s ≡ some me
    → find_user who s ≡ some me
caller_lem down who s h = ground arith

load_lem :
    (down : Faults) (n : ℕ) (s : Store) {r : ApprovalRequest}
    → load down n s ≡ some r
    → find_request r.id s ≡ some r
load_lem down n s {r} h = elim (Bool-cases (down Statement.find_request)) [
  | inl e ↦ absurd (missing (rw e at h))
  | inr e ↦
      let found : find_request n s ≡ some r = rw e at h in
      subst (λ k. find_request k s ≡ some r)
        (sym ((==_iff r.id n).0 (find_sound (request_is n) s.requests found))) found
]
  where
    missing : ◌≡◌ {A = Option ApprovalRequest} none (some r) → ⊥
    missing e = ground arith

pair_lem :
    (row row' : ApprovalRequest) (me me' : User)
    → ◌≡◌ {A = Check (ApprovalRequest × User)} (pass (row', me')) (pass (row, me))
    → (row' ≡ row) × (me' ≡ me)
pair_lem row row' me me' h = ground arith

able-Eligible :
    (down : Faults) (n : ℕ) (who : Caller) (s : Store) (r : ApprovalRequest) (u : User)
    → caller down who s ≡ some u
    → load down n s ≡ some r
    → eligible_to_decide r u ≡ pass tt
    → Eligible who r u s
able-Eligible down n who s r u known found able =
    let (waiting, other, role) = eligible_to_decide-pass r u able in
    record {
      known = caller_lem down who s known;
      found = load_lem down n s found;
      waiting = waiting;
      other = other;
      role = role;
    }

pub open_case-pass :
    (down : Faults) (path : Option ℕ) (who : Caller) (s : Store) {row : ApprovalRequest} {me : User}
    → open_case down path who s ≡ pass (row, me)
    → Eligible who row me s
unfolding open_case
open_case-pass down path who s {row} {me} h =
    let (n, named, h₁) = >>=-eq-pass (or_stop path Reply.invalid_id) _ h in
    let (me', known, h₂) = >>=-eq-pass (or_stop (caller down who s) Reply.unidentified) _ h₁ in
    let (row', found, h₃) = >>=-eq-pass (or_stop (load down n s) Reply.not_found) _ h₂ in
    let (u, able, h₄) = >>=-eq-pass (eligible_to_decide row' me') _ h₃ in
    let (same_row, same_me) = pair_lem row row' me me' h₄ in
    subst₂ (λ r u. Eligible who r u s) same_row same_me
      (able-Eligible down n who s row' me' (or_stop-eq-pass _ _ known) (or_stop-eq-pass _ _ found)
        able)

pub record Rejected (row : ApprovalRequest) (me : User) (s : Store) : Type 0 where
  pub found : find_request row.id s ≡ some row
  pub own : is_id row.requester_id me.id ≡ true
  pub refused : is_rejected row.status ≡ true

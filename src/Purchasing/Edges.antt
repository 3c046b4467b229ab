-- ===== src/Purchasing/Edges.antt =====
-- The life of an order as a table of states.
use arcus_invest_backend.Base.{
  ℕ, ◌≡◌, refl, subst, sym, inl, inr, Bool, true, false, not, ◌&&◌, Option, none, some, List, arith,
  find, any, Bool-cases,
}
use arcus_invest_backend.Approvals.Types.{ApprovalRequest, is_pending, is_rejected}
use arcus_invest_backend.Purchasing.Orders.{PoStatus, PurchaseOrder}
use arcus_invest_backend.Purchasing.Receipts.{no_lines, got_less, got_some}
use arcus_invest_backend.Purchasing.Desk.{is_editable, is_issuable, is_draft, held_status}
use arcus_invest_backend.Purchasing.OrderForms.{order_is}
use arcus_invest_backend.Purchasing.Arrivals.{refreshed}
use arcus_invest_backend.Purchasing.Deliveries.{is_receivable}

abbrev pub status : Option PurchaseOrder → Option PoStatus
status none = none
status (some o) = some o.status

-- The status of an order, where there is one.
abbrev pub status_of : ℕ → List PurchaseOrder → Option PoStatus
status_of n os = status (find (order_is n) os)

-- What may become of an order, by its status. No order is ever approved or closed.
abbrev pub may_follow : PoStatus → PoStatus → Bool
may_follow PoStatus.draft PoStatus.pending_approval = true
may_follow PoStatus.draft PoStatus.rejected = true
may_follow PoStatus.draft PoStatus.issued = true
may_follow PoStatus.draft PoStatus.cancelled = true
may_follow PoStatus.pending_approval PoStatus.rejected = true
may_follow PoStatus.pending_approval PoStatus.issued = true
may_follow PoStatus.pending_approval PoStatus.cancelled = true
may_follow PoStatus.rejected PoStatus.draft = true
may_follow PoStatus.rejected PoStatus.cancelled = true
may_follow PoStatus.issued PoStatus.partly_received = true
may_follow PoStatus.issued PoStatus.received = true
may_follow PoStatus.issued PoStatus.cancelled = true
may_follow PoStatus.partly_received PoStatus.received = true
may_follow before after = false

-- One step of an order: it stays as it is, or not there, it is raised as a draft, or it moves on.
pub data Edge : Option PoStatus → Option PoStatus → Type 0 where
  stay : {o : Option PoStatus} → Edge o o
  raised : Edge none (some PoStatus.draft)
  moved :
      {before after : PoStatus} → may_follow before after ≡ true → Edge (some before) (some after)

-- The states that an order can be in.
abbrev pub is_used : PoStatus → Bool
is_used PoStatus.approved = false
is_used PoStatus.closed = false
is_used _ = true

-- The states in which something has arrived.
abbrev pub has_arrivals : PoStatus → Bool
has_arrivals PoStatus.partly_received = true
has_arrivals PoStatus.received = true
has_arrivals _ = false

abbrev pub holds_in : (PoStatus → Bool) → Bool → Option PoStatus → Bool
holds_in p missing none = missing
holds_in p missing (some st) = p st

abbrev pub used : Option PoStatus → Bool
used o = holds_in is_used true o

abbrev pub arrived : Option PoStatus → Bool
arrived o = holds_in has_arrivals false o

pub Edge-used : {a b : Option PoStatus} → Edge a b → used a ≡ true → used b ≡ true
Edge-used stay h = h
Edge-used raised h = refl
Edge-used (moved {before} {after} m) h = target before after m
  where
    target : (x y : PoStatus) → may_follow x y ≡ true → is_used y ≡ true
    target x y m = ground arith

draft_lem : (st : PoStatus) → is_draft st ≡ true → st ≡ PoStatus.draft
draft_lem st h = ground arith

partly_lem :
    (st : PoStatus)
    → is_receivable st ≡ true
    → has_arrivals st ≡ true
    → st ≡ PoStatus.partly_received
partly_lem st h e = ground arith

pub cancelled-Edge :
    (st : PoStatus)
    → is_used st ≡ true
    → has_arrivals st ≡ false
    → Edge (some st) (some PoStatus.cancelled)
cancelled-Edge PoStatus.cancelled u h = stay
cancelled-Edge PoStatus.draft u h = moved refl
cancelled-Edge PoStatus.pending_approval u h = moved refl
cancelled-Edge PoStatus.rejected u h = moved refl
cancelled-Edge PoStatus.issued u h = moved refl
cancelled-Edge PoStatus.approved u h = absurd (ground arith)
cancelled-Edge PoStatus.partly_received u h = absurd (ground arith)
cancelled-Edge PoStatus.received u h = absurd (ground arith)
cancelled-Edge PoStatus.closed u h = absurd (ground arith)

pub revised-Edge : (st : PoStatus) → is_editable st ≡ true → Edge (some st) (some PoStatus.draft)
revised-Edge st h = elim (Bool-cases (is_draft st)) [
  | inl e ↦ subst (λ x. Edge (some x) (some PoStatus.draft)) (sym (draft_lem st e)) stay
  | inr e ↦ moved (ground arith)
]

pub issued-Edge :
    (st : PoStatus)
    → is_used st ≡ true
    → is_issuable st ≡ true
    → Edge (some st) (some PoStatus.issued)
issued-Edge st u h = moved (ground arith)

pub held_status-Edge :
    (r : ApprovalRequest) (st : PoStatus)
    → is_used st ≡ true
    → is_issuable st ≡ true
    → Edge (some st) (some (held_status r st))
held_status-Edge r st u h = elim (Bool-cases (is_rejected r.status)) [
  | inl e ↦ rw e (moved (ground arith))
  | inr e ↦ elim (Bool-cases (is_draft st && is_pending r.status)) [
    | inl d ↦ rw (e, d) (moved (submitted st (ground arith)))
    | inr d ↦ rw (e, d) stay
  ]
]
  where
    submitted : (x : PoStatus) → is_draft x ≡ true → may_follow x PoStatus.pending_approval ≡ true
    submitted x h = ground arith

pub refreshed-Edge :
    (received : ℕ → _) (o : PurchaseOrder)
    → is_receivable o.status ≡ true
    → Edge (some o.status) (some (refreshed received o))
unfolding refreshed
refreshed-Edge received o h =
    elim (Bool-cases (not (any (got_less received) o.lines) && not (no_lines o.lines))) [
      | inl e ↦ rw e (moved (all_in o.status h))
      | inr e ↦ elim (Bool-cases (any (got_some received) o.lines)) [
        | inl d ↦ rw (e, d) (some_in o.status h)
        | inr d ↦ rw (e, d) stay
      ]
    ]
  where
    all_in : (x : PoStatus) → is_receivable x ≡ true → may_follow x PoStatus.received ≡ true
    all_in x h = ground arith

    some_in :
        (x : PoStatus) → is_receivable x ≡ true → Edge (some x) (some PoStatus.partly_received)
    some_in x h = elim (Bool-cases (has_arrivals x)) [
      | inl e ↦
          subst (λ y. Edge (some y) (some PoStatus.partly_received)) (sym (partly_lem x h e)) stay
      | inr e ↦ moved (ground arith)
    ]

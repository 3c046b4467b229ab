-- ===== src/Counter/Till.antt =====
-- Till sessions and the arithmetic of sales. Money is in millionths of a kwacha, so 16% of a figure
-- in whole ngwee is exact. Names, notes and references are left out: nothing is decided by them.
use arcus_invest_backend.Base.{
  ℕ, ℤ, pos, ◌+ℤ◌, ◌-ℤ◌, ltb_ℤ, Bool, true, false, ◌&&◌, Option, none, some, List, [], ◌∷◌, ◌==◌,
  is_id, find, any, update_where, if◌then◌else◌,
}
use arcus_invest_backend.Base.Int.{◌*ℤ◌}
use arcus_invest_backend.Base.Words.{quot64}
use arcus_invest_backend.Stock.Ledger.{Shelf}

pub data CounterMethod : Type 0 where
  cash mobile_money card bank_transfer : CounterMethod

pub data TillStatus : Type 0 where
  till_open till_closed : TillStatus

pub record TillSession : Type 0 where
  pub id : ℕ
  pub status : TillStatus
  pub opened_by_id : Option ℕ
  pub opening_float : ℤ
  pub closed_by_id : Option ℕ
  pub counted_cash : Option ℤ

pub record CounterSaleLine : Type 0 where
  pub product_id : Option ℕ
  pub quantity : ℤ
  pub unit_price : ℤ

pub record CounterSale : Type 0 where
  pub id : ℕ
  pub till_session_id : ℕ
  pub apply_vat : Bool
  pub payment_method : CounterMethod
  pub amount_tendered : ℤ
  pub sold_by_id : Option ℕ
  pub lines : List CounterSaleLine

pub record Shop : Type 0 where
  pub sessions : List TillSession
  pub sales : List CounterSale
  pub shelf : Shelf
  pub users : List ℕ

unfoldable pub subtotal : List CounterSaleLine → ℤ
subtotal [] = pos 0
subtotal (l ∷ ls) = l.quantity *ℤ l.unit_price +ℤ subtotal ls

unfoldable pub vat : CounterSale → ℤ
vat s = if s.apply_vat then quot64 (subtotal s.lines *ℤ pos 16) (pos 100) else pos 0

unfoldable pub total : CounterSale → ℤ
total s = subtotal s.lines +ℤ vat s

abbrev pub is_cash : CounterMethod → Bool
is_cash CounterMethod.cash = true
is_cash _ = false

unfoldable pub change : CounterSale → ℤ
change s =
    if is_cash s.payment_method
    then (let rest = s.amount_tendered -ℤ total s in if ltb_ℤ rest (pos 0) then pos 0 else rest)
    else pos 0

abbrev pub is_open : TillSession → Bool
is_open s = elim s.status [ TillStatus.till_open ↦ true | TillStatus.till_closed ↦ false ]

abbrev pub is_open_by : ℕ → TillSession → Bool
is_open_by n s = is_open s && is_id s.opened_by_id n

-- `openSessionFor`
abbrev pub open_session_for : ℕ → Shop → Option TillSession
open_session_for n s = find (is_open_by n) s.sessions

pub data TillReply : Type 0 where
  unauthorized already_open invalid_body negative_float : TillReply
  invalid_session_id session_not_found already_closed not_counted negative_count : TillReply
  opened : TillSession → TillReply

-- `h.DB.First(&actor, …)`: the id, where the user exists.
abbrev pub actor : ℕ → Shop → Option ℕ
actor n s = if any (λ u. u == n) s.users then some n else none

abbrev pub new_session : ℕ → Option ℕ → ℤ → TillSession
new_session id by opening = record {
  id = id;
  status = TillStatus.till_open;
  opened_by_id = by;
  opening_float = opening;
  closed_by_id = none;
  counted_cash = none;
}

abbrev pub open_with : ℕ → ℕ → Option ℤ → Shop → TillReply × Shop
open_with id n none s = (invalid_body, s)
open_with id n (some opening) s =
    if ltb_ℤ opening (pos 0)
    then (negative_float, s)
    else (let t = new_session id (actor n s) opening in
        (opened t, record s { sessions = t ∷ s.sessions }))

-- `AdminOpenTill`, by a caller and a body that may be missing.
unfoldable pub admin_open_till : ℕ → Option ℕ → Option ℤ → Shop → TillReply × Shop
admin_open_till id none body s = (unauthorized, s)
admin_open_till id (some n) body s = elim (open_session_for n s) [
  | some t ↦ (already_open, s)
  | none ↦ open_with id n body s
]

pub record Takings : Type 0 where
  pub by_cash : ℤ
  pub by_mobile_money : ℤ
  pub by_card : ℤ
  pub by_bank_transfer : ℤ

-- `totals[method] += amount`
unfoldable pub add_taking : CounterMethod → ℤ → Takings → Takings
add_taking CounterMethod.cash n t = record t { by_cash = n +ℤ t.by_cash }
add_taking CounterMethod.mobile_money n t = record t { by_mobile_money = n +ℤ t.by_mobile_money }
add_taking CounterMethod.card n t = record t { by_card = n +ℤ t.by_card }
add_taking CounterMethod.bank_transfer n t = record t { by_bank_transfer = n +ℤ t.by_bank_transfer }

abbrev pub no_takings : Takings
no_takings = record {
  by_cash = pos 0;
  by_mobile_money = pos 0;
  by_card = pos 0;
  by_bank_transfer = pos 0;
}

-- `tillTotals`
unfoldable pub till_totals : ℕ → List CounterSale → Takings
till_totals id [] = no_takings
till_totals id (x ∷ xs) =
    let rest = till_totals id xs in
    if x.till_session_id == id then add_taking x.payment_method (total x) rest else rest

pub record TillSummary : Type 0 where
  pub session : TillSession
  pub expected_cash : ℤ
  pub total_takings : ℤ
  pub variance : Option ℤ

-- `tillSummaryJSON`
unfoldable pub till_summary : TillSession → Takings → TillSummary
till_summary t k =
    let expected = t.opening_float +ℤ k.by_cash in
    record {
      session = t;
      expected_cash = expected;
      total_takings = k.by_cash +ℤ k.by_mobile_money +ℤ k.by_card +ℤ k.by_bank_transfer;
      variance = elim t.counted_cash [ none ↦ none | some n ↦ some (n -ℤ expected) ];
    }

abbrev pub session_is : ℕ → TillSession → Bool
session_is n t = t.id == n

abbrev pub close_session : Option ℕ → ℤ → TillSession → TillSession
close_session by counted t = record t {
  status = TillStatus.till_closed;
  counted_cash = some counted;
  closed_by_id = by;
}

pub data CloseReply : Type 0 where
  refused : TillReply → CloseReply
  closed : TillSummary → CloseReply

-- A body is a count that may be missing.
abbrev pub close_with : ℕ → TillSession → Option ℕ → Option (Option ℤ) → Shop → CloseReply × Shop
close_with n t by none s = (refused invalid_body, s)
close_with n t by (some none) s = (refused not_counted, s)
close_with n t by (some (some counted)) s =
    if ltb_ℤ counted (pos 0) then (refused negative_count, s) else (
      closed (till_summary (close_session by counted t) (till_totals t.id s.sales)),
      record s { sessions = update_where (session_is n) (close_session by counted) s.sessions },
    )

abbrev pub closer : Option ℕ → Shop → Option ℕ
closer none s = none
closer (some n) s = actor n s

-- `AdminCloseTill`. The closer is written where the user is known.
unfoldable pub admin_close_till : Option ℕ → Option ℕ → Option (Option ℤ) → Shop → CloseReply × Shop
admin_close_till none caller body s = (refused invalid_session_id, s)
admin_close_till (some n) caller body s = elim (find (session_is n) s.sessions) [
  | none ↦ (refused session_not_found, s)
  | some t ↦
      if is_open t then close_with n t (closer caller s) body s else (refused already_closed, s)
]

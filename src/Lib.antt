-- ===== src/Lib.antt =====
-- A verification library for the Arcus Invest backend, a Go service over PostgreSQL.
--
-- The parts, and how they interact:
--
-- * Approvals is the maker-checker engine of internal/handlers/approvals.go over the tables of
--   internal/models/approval_models.go. A gated handler calls `gate`, which matches a rule, spends
--   an approval (`consume`) or raises a request (`raise`); other users decide requests by
--   `AdminApproveRequest` and `AdminRejectRequest`, and the requester asks again by
--   `AdminResubmitRequest`. Approvals/Types has the rows, Approvals/Queries one function for each
--   SQL statement, Approvals/Gate and Approvals/Desk the handlers, and Approvals/Rules the
--   administration of the rules, which asks Authz what a role may do. Approvals/Sound has the
--   statements as steps between stores, so that handlers that run at once interleave theirs, and
--   Approvals/Proofs what is proved. Approvals/Proofs/Handlers has sequences of whole calls.
-- * LandedCost is internal/services/landedcost.go. LandedCost/Spread is `ApportionNgwee` on int64
--   with its wrap-around, LandedCost/Receipt is `basisWeights` and `ApportionReceipt`, and
--   LandedCost/Reference is the same method on natural numbers.
-- * Stock is the stock ledger: internal/services/stock.go and internal/models/stock_models.go in
--   Stock/Ledger, the handlers of internal/handlers/stock.go in Stock/Handlers.
-- * Counter is walk-in selling, internal/handlers/counter.go over internal/models/counter_models.go:
--   tills in Counter/Till, sales in Counter/Sale. A sale writes to the stock ledger by the
--   `RecordMovement` of Stock/Ledger, in one transaction.
-- * Authz is internal/authz/authz.go with the admin gate of internal/middleware/auth.go: grants in
--   Authz/Grants, the cached matrix in Authz/Cache, routes in Authz/Routes.
-- * Sessions is internal/services/refresh.go (Sessions/Refresh) and
--   internal/services/password_reset.go (Sessions/Reset), which share one store.
-- * Staff is the administration of roles (Staff/Permissions, Staff/Roles) and of staff accounts
--   (Staff/Accounts) in internal/handlers/handlers.go. Both ask the cached permissions of Authz
--   what a role may do, and a change of a role reloads them.
-- * Sourcing is internal/services/sourcing.go over internal/models/sourcing_models.go: policies,
--   selections and the cheapest quotation, in Sourcing/Selection.
-- * Payables is the writing part of internal/handlers/payables.go over
--   internal/models/payables_models.go: expenses and settlements in Payables/Expenses, the handlers
--   in Payables/Handlers, where recording and settling call the gate of Approvals/Gate.
-- * Purchasing is internal/handlers/purchasing.go over internal/models/purchase_models.go and
--   internal/models/landed_cost_models.go. Rows and figures are in Purchasing/Orders and
--   Purchasing/Receipts, requests and their checks in Purchasing/OrderForms and
--   Purchasing/Deliveries, the handlers in Purchasing/Desk, Purchasing/Arrivals and
--   Purchasing/Recost. Issuing an order calls the gate; a receipt spreads its charges by
--   `apportion_receipt` of LandedCost and writes to the stock ledger by `record_movement` of Stock,
--   all in one transaction. Purchasing/Edges has the life cycle of an order as a table of states.
-- * Reports has the figures that are computed on read: internal/services/receivables.go with
--   internal/handlers/receivables.go in Reports/Ageing and Reports/Receivables, the reports of
--   internal/handlers/payables.go in Reports/Position, and internal/services/jobcosting.go, which
--   prices what left the stock ledger, in Reports/Costing.
-- * Base has what the parts share: tests, tables as lists and their keys, integers, words and
--   texts.
--
-- How the model corresponds to the code:
--
-- * A table is a list of rows, newest first, and a column that nothing decides by is left out. UUIDs
--   and times are natural numbers; a new identifier is given to the function that writes the row,
--   and the primary key refuses one that is taken. `ORDER BY created_at DESC` is the order of the
--   list.
-- * A Go string is a list of code points, for passwords a list of bytes.
-- * Amounts are exact: a fixed unit in the approvals, which only compare them, millionths of a
--   kwacha in the counter sales, the receipts, the expenses and the orders, and a product of fixed
--   units in sourcing. Rates are in millionths too, and a product or a quotient is cut to
--   millionths where one is stored or compared. What float64 rounds on the way is not modelled:
--   `toNgwee` and `fromNgwee` of LandedCost are exact up to the cut to int64, and stand for the code
--   below 2 ^ 53 ngwee, where the millionths are not at the edge of a rounding.
-- * A handler takes the store and returns its reply with the store it leaves. In the approvals a
--   parameter says which statements the database fails; elsewhere the database answers, but for the
--   failures that are parameters.
-- * A transaction, and a conditional UPDATE, is one step. The rotation of a refresh token is split
--   at its conditional UPDATE, so that other requests run between its reads and its claim. Opening
--   a till is taken as one step.
-- * `sort.Slice` keeps no order among equal rows: a report takes its sort as an argument, of which
--   the theorems use that it permutes the rows.
-- * SHA-256, bcrypt, the lower-casing of texts and random values are parameters.
-- * Every loop is structural, so no fuel is needed.
--
-- Not modelled: JSON and the list endpoints, routing, configuration, migrations and seeding, mail
-- and notifications beyond what the approvals hand over, storage, signatures and documents, the
-- assistant, the CRM and student endpoints, the deletion of accounts, and the CSV exports. The
-- error of the vote count in `AdminApproveRequest`, which the code does not look at, is not
-- modelled either.
pub mod Base
pub mod Approvals
pub mod LandedCost
pub mod Stock
pub mod Counter
pub mod Authz
pub mod Sessions
pub mod Sourcing
pub mod Payables
pub mod Purchasing
pub mod Reports
pub mod Staff

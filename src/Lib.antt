-- ===== src/Lib.antt =====
-- kue-preorder: the core of a bakery's pre-order shop, a Go program under internal/.
--
-- A customer quotes a cart and places it as an order (internal/orders/checkout.go and place.go).
-- An order is placed with a down payment (DP), confirmed when the DP is in, produced when it is paid in
-- full, and handed over. The staff record payments, cancel orders and move them through production
-- (internal/orders/admin.go); a worker ends orders whose money does not come and bills the balance
-- (internal/orders/automation.go). Both work on the orders table and on the payment ledger
-- (internal/payments/ledger.go) in one transaction with the order's row locked, and both move an order
-- only by `Transition` (internal/orders/status.go) and its payments only by `Settle` and `Close`
-- (internal/payments/status.go). Scheduling (internal/scheduling) gives an order its times from the
-- cutoffs of the orders stored, the owner edits the payment policy and the fee rules that checkout reads
-- (internal/payments/settings.go), and the inventory (internal/inventory) keeps lots of ingredients
-- with a ledger of movements. A day's orders make a production batch (internal/aggregation), whose
-- shopping list fills what the stock lacks and whose end takes from it. What the batch needs follows from
-- the recipes (internal/recipe); purchase orders (internal/procurement) order what the list says is to
-- buy, and what they bring goes into the stock and back to the list, which is then computed anew.
--
-- The files:
--   Prelude           integers, Go's int64 and int32 with their wrap-around, results, texts as lists of
--                     code points, float64 by its bits with its operations as a record, a sort.
--   Platform          internal/platform/apperr, audit and outbox, and the caller of internal/identity.
--   Payments.Status   `Settle` and `Close` of internal/payments/status.go.
--   Payments.Dp       internal/payments/dp.go. Payments.Fee: internal/payments/methods.go.
--   Payments.Settings internal/payments/settings.go over internal/payments/reader.go.
--   Payments.Ledger   internal/payments/ledger.go over the rows of internal/payments/postgres/repo.go.
--   Orders.Lifecycle  internal/orders/status.go. Its Paths: the diagram as a step relation.
--   Orders.Store      the rows of internal/orders/postgres/repo.go and the transactions.
--   Orders.Admin      `Advance`, with `RecordPayment` in Payment and `Cancel` in Cancel.
--   Orders.Automation the sweeps, with `EnsureBalanceInvoice` in Billing: its transaction, and the invoices
--                     that follow the commit.
--   Orders.Checkout   Cart: the checks and prices of a cart. Quote: `Checkout.Quote`. Invoices: the
--                     invoicer. Place: `Checkout.Place` with its transaction, and `MyOrder`.
--   Orders.Sound      what holds between an order's statuses and its payments, and the calls that keep
--                     it. A store is sound if ids are distinct and every order's payments in the ledger
--                     add up to what its payment status says, which fits its status.
--   Inventory         Stock: the rows. Countable: what counts as stock. Consume: `Consume`. Requests:
--                     the keys of calls that may be sent again. Intake: `Receive`. Kitchen: `Check`
--                     and `Count`. Reader: `ReceiveOrdered`, `Usable` and `ExpireLots`.
--   Scheduling        Time: instants and Jakarta days, from 1964 on, when the offset of Jakarta became
--                     what it is. Plan: `Settings.Plan`. Suggest:
--                     `Settings.Suggest`. Service: the settings and the closed dates of
--                     internal/scheduling/service.go and reader.go.
--   Recipe            internal/recipe. Models: the four models with their constructors, `Resolve` and
--                     `Validate`. Quantity: `Quantity`.
--   Aggregation       internal/aggregation. Batches: the rows. Totals: `Totals` of compute.go. Shop: `Shop`
--                     with its packs. Rows: the statements of postgres/repo.go. Engine: `Recompute` and
--                     the computations over several dates, with what a batch may count on in Claims.
--                     Purchasing: `LockShoppingList` and `Record`.
--                     Production: `LockDue`, `MarkInProduction` and `Complete`.
--   Procurement       internal/procurement. Orders: domain.go and the rows. Service: `Create`. Closing:
--                     `Receive` and `Cancel`. Ledger and Waiting: what the shopping lists say is
--                     ordered, and what the purchase orders wait for. Keeps: that both are the same.
--
-- Conventions. A store is one tenant's, and a call runs alone: a transaction is a function of the store,
-- and an error drops what it wrote. That the database fails is left out, but for the reads that follow
-- the commit of the staff's calls, of the balance's billing and of the calls on purchase orders: what
-- it makes of them is an argument, and their failure leaves the changes in place. An id is a number, 0 for the nil UUID; the id that `uuid.New` draws
-- and the time that the clock tells are arguments. Instants are integers in nanoseconds since 1970;
-- amounts and quantities are integers whose sums and products are written with the wrap-around of
-- int64. An audit entry and an event keep what identifies them, an error keeps its kind and the names
-- of the fields, and texts for people are left out. Rows stand in the order in which they were
-- inserted where the queries order by time of insertion.
--
-- The one loop without a bound in the source, in `FeeRule.Fee`, runs on fuel of one round; the
-- first gross amount that it tries is computed to cover the price already.
--
-- Parameters: the encoding of a delivery's fields as JSON, the labels of the catalog, and what
-- checkout reads through its interfaces: the variants and ingredient costs of the catalog, the
-- closed dates, the customer record, and the provider that makes invoices. Codes, ids and times that
-- a call draws are arguments. A float64 is its bits, and the operations on it are a record of
-- functions, about which nothing is assumed. A formula is the function that the expression library
-- compiles it to. What the catalog answers to aggregation (component uses, recipe models, packs,
-- labels) and what an adapter answers that sends a purchase order are functions.
--
-- Not modelled: the catalog and the costs that it estimates, the fit of a recipe to measured points and
-- its parameters as JSON, identity and its tokens, the RPC handlers, generated code, and what only
-- reads for display, in aggregation, procurement and inventory too.
pub mod Prelude
pub mod Platform
pub mod Payments
pub mod Orders
pub mod Inventory
pub mod Scheduling
pub mod Recipe
pub mod Aggregation
pub mod Procurement

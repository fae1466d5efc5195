-- ===== src/Orders/Checkout/Place/Billed.antt =====
-- The first payment of a placed order.
use mathlib.Core.Path.{subst}
use kue_preorder.Prelude.{
  ℤ, true, false, ◌||◌, ◌≡◌, refl, List, [], ◌∷◌, All, All-map, some, inl, inr, Bool-cases, arith,
}
use kue_preorder.Prelude.Result.{ok}
use kue_preorder.Platform.Caller.{Customer}
use kue_preorder.Payments.Fee.{Method, FeeRule, FeeRules, fee, eqb_method}
use kue_preorder.Payments.Ledger.{Payment, dp, full}
use kue_preorder.Scheduling.Plan.{Plan}
use kue_preorder.Orders.Store.{Order}
use kue_preorder.Orders.Checkout.Cart.{QuoteRequest}
use kue_preorder.Orders.Checkout.Quote.{
  Sources, PaymentOption, Quote, quote, with_schedule, unscheduled,
}
use kue_preorder.Orders.Checkout.Quote.Amounts.{quote-Offered, with_options_lem}
use kue_preorder.Orders.Checkout.Quote.Options.{IsOption, payment_options_All}
use kue_preorder.Orders.Checkout.Invoices.{Provider}
use kue_preorder.Orders.Checkout.Place.{
  Draws, PlaceRequest, option_for, new_order, first_terms, first_payment, order_from,
}
use kue_preorder.Orders.Checkout.Place.Outcome.{order_from_lem}

-- The method, the amount and the fee of the payment `p` for the order `o`.
pub record IsBilled (rules : FeeRules) (req : PlaceRequest) (o : Order) (p : Payment) : Type 0 where
  pub rule : FeeRule
  pub known : rules req.method ≡ some rule
  pub on_offer : rule.enabled ≡ true
  pub for_order : p.order_id ≡ o.id
  pub by_method : p.method ≡ req.method
  pub until : p.expires_at ≡ some o.dp_due_at
  pub in_full :
      (o.full_payment_required || req.pay_in_full) ≡ true
      → (p.kind ≡ full) × (p.amount_idr ≡ o.total_idr) × (fee rule o.total_idr ≡ ok p.fee_idr)
  pub in_part :
      (o.full_payment_required || req.pay_in_full) ≡ false
      → (p.kind ≡ dp)
        × (p.amount_idr ≡ o.dp_required_idr)
        × (fee rule o.dp_required_idr ≡ ok p.fee_idr)

option_for-All :
    (P : PaymentOption → Type 0) (os : List PaymentOption) (m : Method) (o : PaymentOption)
    → option_for os m ≡ some o
    → All P os
    → P o × (eqb_method o.method m ≡ true)
unfolding option_for
option_for-All P [] m o e h = cc
option_for-All P (x ∷ os) m o e h = elim (Bool-cases (eqb_method x.method m)) [
  | inl t ↦
      (let same : x ≡ o = cc (rw t at e) in
        subst (λ y. P y × (eqb_method y.method m ≡ true)) same (h.0, t))
  | inr f ↦ option_for-All P os m o (rw f at e) h.1
]

method_eq : (a b : Method) → eqb_method a b ≡ true → a ≡ b
method_eq a b h = ground arith

option-IsBilled :
    (rules : FeeRules) (req : PlaceRequest) (d : Draws) (provider : Provider) (customer : Customer)
    (q : Quote) (p : Plan) (option : PaymentOption)
    → IsOption rules q option
    → option.method ≡ req.method
    → IsBilled rules req
        (new_order req d customer q p)
        (first_payment req d provider (new_order req d customer q p) option)
unfolding new_order first_payment first_terms
option-IsBilled rules req d provider customer q p option h same = record {
  rule = h.rule;
  known = subst (λ m. rules m ≡ some h.rule) same h.known;
  on_offer = h.enabled;
  for_order = refl;
  by_method = refl;
  until = refl;
  in_full = λ t. (ground arith, ground arith, ground (arith, h.full_fee));
  in_part = λ f.
      let part : q.full_payment_required ≡ false = ground arith in
      let (amount, known, priced) = h.dp_fee part in
      (ground arith, ground arith, ground (arith, known, priced));
}

-- The options of a quote have the fees of the rules, on the amounts of the quote.
quote_options :
    (src : Sources) (os : List Order) (now : ℤ) (req : QuoteRequest) (q : Quote) (p : Plan)
    → quote src os now req ≡ ok q
    → q.schedule ≡ some p
    → (rules : FeeRules) × (src.fee_rules ≡ ok rules) × All (IsOption rules q) q.payment_options
quote_options src os now req q p h has =
    let (policy, _, o) = quote-Offered src os now req q p h has in
    let before = with_schedule policy o.dp p (unscheduled o.priced) in
    let (options, e, same) = with_options_lem src.fee_rules before q o.optioned in
    let (rules, read, all) = payment_options_All src.fee_rules before options e in
    (
      rules,
      read,
      subst (λ x. All (IsOption rules x) x.payment_options) same
          (All-map (IsOption rules before)
            (IsOption rules (record before { payment_options = options })) options
            (λ x i. record {
              rule = i.rule;
              known = i.known;
              enabled = i.enabled;
              full_fee = i.full_fee;
              no_dp = i.no_dp;
              dp_fee = i.dp_fee;
            })
            all),
    )

-- The first payment of an order is asked by the method chosen, which is on offer, until the order's DP
-- is due. It is for the total if full payment is required or chosen, and for the down payment
-- otherwise, and its fee is the one that the stored rule of the method puts on that amount.
pub order_from-IsBilled :
    (src : Sources) (os : List Order) (now : ℤ) (req : PlaceRequest) (d : Draws)
    (provider : Provider) (customer : Customer) (q : Quote) (o : Order) (first : Payment)
    → quote src os now req.cart ≡ ok q
    → order_from req d provider customer q ≡ ok (o, first)
    → (rules : FeeRules) × (src.fee_rules ≡ ok rules) × IsBilled rules req o first
order_from-IsBilled src os now req d provider customer q o first h made =
    let (p, option, has, chosen, same_order, same_payment) =
      order_from_lem req d provider customer q o first made in
    let (rules, read, all) = quote_options src os now req.cart q p h has in
    let (priced, same_method) =
      option_for-All (IsOption rules q) q.payment_options req.method option chosen all in
    let billed =
      option-IsBilled rules req d provider customer q p option priced (method_eq _ _ same_method) in
    (
      rules,
      read,
      subst (IsBilled rules req o) same_payment (
          subst
            (λ x.
              IsBilled rules req x
                (first_payment req d provider (new_order req d customer q p) option))
            same_order billed),
    )

-- ===== src/History/Paid.antt =====
-- The payments of a deal: which deals have them, and what they are.
use fx_deal_manager.Prelude.{
  ℕ, String, ◌≡◌, refl, sym, ap, Bool, true, false, ◌||◌, Option, some, List, [], ◌∷◌, arith, Dict,
}
use fx_deal_manager.Decimal.{Decimal}
use fx_deal_manager.Domain.{
  DealState, draft, waiting_for_positioner, approved, rejected, executed, cancelled,
  ValidationStatus, valid, is_valid, OperationDirection, buy, sell, PaymentDirection, incoming,
  outgoing, Payment, FxDeal, PositionerSolution, UserClaims, DealCreateRequest, NostroAccount,
}
use fx_deal_manager.Payments.{CalculatedPayment, legs, assign}
use fx_deal_manager.Payments.Assignment.{assign_two}
use fx_deal_manager.Payments.Amounts.{calculate-legs}
use fx_deal_manager.Nsi.{nostro_by_currency}
use fx_deal_manager.Store.{Database, AuditLogEntry, Environment, find, at_rest, at_rest_payments}
use fx_deal_manager.Deals.{new_deal, payment_rows}
use fx_deal_manager.Deals.Updates.{apply_updates-SameDeal}
use fx_deal_manager.Lifecycle.{
  IsChecked, Move, edited, invalidated, validated, submitted, approved_executed, approved_unsent,
  sent_back, taken_back, called_off,
}
use fx_deal_manager.History.{Requests, run, without_deals}
use fx_deal_manager.History.Induction.{run-find}

-- The direction of the payment in the bought currency, and of the other one.
abbrev pub buy_side : OperationDirection → PaymentDirection
buy_side buy = incoming
buy_side sell = outgoing

abbrev pub sell_side : OperationDirection → PaymentDirection
sell_side buy = outgoing
sell_side sell = incoming

-- One payment of a deal on a day.
pub record IsPayment (d : FxDeal) (day : ℕ) (p : Payment) (code : String) (side : PaymentDirection)
    : Type 0 where
  pub deal_id : p.deal_id ≡ d.id
  pub currency_code : p.currency_code ≡ code
  pub payment_direction : p.payment_direction ≡ side
  pub value_date : p.value_date ≡ some day
  pub account_code : (account : String) × (p.account_code ≡ some account)

-- A deal has a value date and two payments on it, in opposite directions, of which the one in the
-- bought currency is of the deal's amount, and each names an account.
pub record IsPaid (d : FxDeal) : Type 0 where
  pub day : ℕ
  pub p : Payment
  pub q : Payment
  pub value_date : d.value_date ≡ some day
  pub payments : d.payments ≡ p ∷ q ∷ []
  pub amount : p.amount ≡ d.amount
  pub buying : IsPayment d day p d.buy_currency (buy_side d.operation_direction)
  pub selling : IsPayment d day q d.sell_currency (sell_side d.operation_direction)

-- Submitted, and not back in DRAFT.
abbrev pub is_submitted : DealState → Bool
is_submitted draft = false
is_submitted cancelled = false
is_submitted waiting_for_positioner = true
is_submitted approved = true
is_submitted rejected = true
is_submitted executed = true

abbrev pub IsPaidIfDue : FxDeal → Type 0
IsPaidIfDue d = (is_submitted d.deal_state || is_valid d.validation_status) ≡ true → IsPaid d

module _ (env : Environment) (d : FxDeal) where
  abbrev restate : DealState → ValidationStatus → Option String → Option PositionerSolution → FxDeal
  restate state status positioner solution = at_rest env (record d {
    deal_state = state;
    validation_status = status;
    positioner_id = positioner;
    positioner_solution = solution;
  })

  IsPaid-restate :
      (state : DealState) (status : ValidationStatus) (positioner : Option String)
      (solution : Option PositionerSolution)
      → IsPaid d
      → IsPaid (restate state status positioner solution)
  IsPaid-restate state status positioner solution s = record {
    day = s.day;
    p = record (s.p) { amount = env.numeric 2 s.p.amount };
    q = record (s.q) { amount = env.numeric 2 s.q.amount };
    value_date = s.value_date;
    payments = ap (at_rest_payments env) s.payments;
    amount = ap (env.numeric 2) s.amount;
    buying = record {
      deal_id = s.buying.deal_id;
      currency_code = s.buying.currency_code;
      payment_direction = s.buying.payment_direction;
      value_date = s.buying.value_date;
      account_code = s.buying.account_code;
    };
    selling = record {
      deal_id = s.selling.deal_id;
      currency_code = s.selling.currency_code;
      payment_direction = s.selling.payment_direction;
      value_date = s.selling.value_date;
      account_code = s.selling.account_code;
    };
  }

-- A payment as it is calculated.
abbrev leg : FxDeal → Decimal → String → PaymentDirection → ℕ → CalculatedPayment
leg d amount code side day = record {
  amount = amount;
  currency_code = code;
  payment_direction = side;
  value_date = day;
}

IsPaid-pair :
    (env : Environment) (d : FxDeal) (day : ℕ) (counter : Decimal) (operation : OperationDirection)
    (a b : String)
    → d.operation_direction ≡ operation
    → IsPaid (
        at_rest env (record d {
          value_date = some day;
          validation_status = valid;
          payments = payment_rows env d (
              (leg d d.amount d.buy_currency (buy_side operation) day, a)
              ∷ (leg d counter d.sell_currency (sell_side operation) day, b)
              ∷ []);
        }))
unfolding payment_rows
IsPaid-pair env d day counter operation a b e = record {
  day = day;
  p = _;
  q = _;
  value_date = refl;
  payments = refl;
  amount = refl;
  buying = record {
    deal_id = refl;
    currency_code = refl;
    payment_direction = ap buy_side (sym e);
    value_date = refl;
    account_code = (a, refl);
  };
  selling = record {
    deal_id = refl;
    currency_code = refl;
    payment_direction = ap sell_side (sym e);
    value_date = refl;
    account_code = (b, refl);
  };
}

IsPaid-rows :
    (env : Environment) (d : FxDeal) (day : ℕ) (counter : Decimal) (nostro : Dict NostroAccount)
    (operation : OperationDirection)
    → d.operation_direction ≡ operation
    → (assign (legs operation d counter day) nostro).1 ≡ []
    → IsPaid (
        at_rest env (record d {
          value_date = some day;
          validation_status = valid;
          payments = payment_rows env d (assign (legs operation d counter day) nostro).0;
        }))
unfolding legs
IsPaid-rows env d day counter nostro buy e h =
    let (a, b, assigned) = assign_two nostro _ _ h in
    rw assigned (IsPaid-pair env d day counter buy a b e)
IsPaid-rows env d day counter nostro sell e h =
    let (a, b, assigned) = assign_two nostro _ _ h in
    rw assigned (IsPaid-pair env d day counter sell a b e)

-- A deal that a validation has passed.
pub validated-IsPaid :
    (env : Environment) (db : Database) (d : FxDeal) (day : ℕ) (rows : List Payment)
    → IsChecked env db d day rows
    → IsPaid (
        at_rest env
          (record d { value_date = some day; validation_status = valid; payments = rows }))
validated-IsPaid env db d day rows c =
    let (counter, unused, two) = calculate-legs d day c.calculated c.amounts in
    rw c.paid (
      rw two (
        IsPaid-rows env d day counter (nostro_by_currency db.nostro_accounts) d.operation_direction
          refl (rw two at c.accounts)))

Move-IsPaidIfDue :
    (env : Environment) (user : UserClaims) (db : Database) (d d' : FxDeal)
    (es : List AuditLogEntry)
    → Move env user db d d' es
    → IsPaidIfDue d
    → IsPaidIfDue (at_rest env d')
Move-IsPaidIfDue env user db d d' es (edited payload c s t a active e _) h =
    let same_deal = apply_updates-SameDeal payload d c a in
    rw e (ground (arith, same_deal.deal_state))
Move-IsPaidIfDue env user db d d' es (invalidated found t n e _) h =
    rw e (λ due. IsPaid-restate env d _ _ _ _ (h (ground arith)))
Move-IsPaidIfDue env user db d d' es (validated day rows t c e _) h =
    rw e (λ due. validated-IsPaid env db d day rows c)
Move-IsPaidIfDue env user db d d' es (submitted t s v c e _) h =
    rw e (λ due. IsPaid-restate env d _ _ _ _ (h (ground arith)))
Move-IsPaidIfDue env user db d d' es (approved_executed c p s o a e _) h =
    rw e (λ due. IsPaid-restate env d _ _ _ _ (h (ground arith)))
Move-IsPaidIfDue env user db d d' es (approved_unsent c p s o a e _) h =
    rw e (λ due. IsPaid-restate env d _ _ _ _ (h (ground arith)))
Move-IsPaidIfDue env user db d d' es (sent_back k c w p s e _) h =
    rw e (λ due. IsPaid-restate env d _ _ _ _ (h (ground arith)))
Move-IsPaidIfDue env user db d d' es (taken_back t s e _) h =
    rw e (λ due. IsPaid-restate env d _ _ _ _ (h (ground arith)))
Move-IsPaidIfDue env user db d d' es (called_off c t s e _) h =
    rw e (λ due. IsPaid-restate env d _ _ _ _ (h (ground arith)))

new-IsPaidIfDue :
    (env : Environment) (user : UserClaims) (id : ℕ) (payload : DealCreateRequest)
    → IsPaidIfDue (at_rest env (new_deal id payload user))
unfolding new_deal
new-IsPaidIfDue env user id payload = ground arith

-- After any requests, by any users, on a database without deals, every deal that is VALID, and every
-- deal that is WAITING_FOR_POSITIONER, APPROVED, EXECUTED or REJECTED, has a value date and exactly
-- two payments on that date: one in the bought currency, of the deal's amount, and one in the sold
-- currency, in the opposite directions that the operation asks for, each with an account.
pub run-IsPaid :
    (env : Environment) (requests : Requests) (db : Database) (id : ℕ) (d : FxDeal)
    → find id (run env requests (without_deals db)).deals ≡ some d
    → (is_submitted d.deal_state || is_valid d.validation_status) ≡ true
    → IsPaid d
run-IsPaid env =
    run-find env IsPaidIfDue
      (record { at_start = new-IsPaidIfDue env; at_move = Move-IsPaidIfDue env })

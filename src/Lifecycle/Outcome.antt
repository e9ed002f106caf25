-- ===== src/Lifecycle/Outcome.antt =====
-- What a request may come to: its answer, together with what it leaves committed.
use fx_deal_manager.Prelude.{
  ℕ, String, ◌≡◌, refl, ap, map, Bool, true, false, Option, none, some, List, [], ◌∷◌, ◌++◌,
}
use fx_deal_manager.Domain.{
  ApprovalDecision, FxDeal, Payment, PaymentResponse, UserClaims, DealCreateRequest,
  DealUpdateRequest, DealResponse, DealType, Counterparty, draft, value,
}
use fx_deal_manager.Issues.{ValidationIssue}
use fx_deal_manager.Store.{
  Database, AuditLogEntry, AuditValue, AuditAction, Environment, Session, Error, http,
  validation_failed, position_system_rejected, Result, ok, err, find, put, at_rest,
}
use fx_deal_manager.Deals.{entry, new_deal, to_response, payment_responses}
use fx_deal_manager.Lifecycle.{
  Move, edited, invalidated, validated, submitted, approved_executed, approved_unsent, sent_back,
  taken_back, called_off, Commit, nothing, opened, moved, answer, IsKnown,
}

-- What a move does to its deal, with what the request gives for it.
pub data Kind : Type 0 where
  opening : DealCreateRequest → Kind
  editing : DealUpdateRequest → Kind
  marking : List ValidationIssue → Kind
  checking submitting taking_back : Kind
  executing failing : String → Kind
  deciding : ApprovalDecision → Option String → Kind
  calling_off : Option String → Kind

-- The requests that mark a deal INVALID where they find issues.
abbrev pub checks : Kind → Bool
checks checking = true
checks submitting = true
checks (opening payload) = false
checks (editing payload) = false
checks (marking found) = false
checks taking_back = false
checks (executing c) = false
checks (failing c) = false
checks (deciding decision comment) = false
checks (calling_off comment) = false

-- What an answer tells of a payment.
abbrev pub told_payment : Payment → PaymentResponse
told_payment p = record {
  amount = p.amount;
  currency_code = p.currency_code;
  account_code = p.account_code;
  payment_direction = p.payment_direction;
  value_date = p.value_date;
}

payment_responses-map : (ps : List Payment) → payment_responses ps ≡ map told_payment ps
unfolding payment_responses
payment_responses-map [] = refl
payment_responses-map (p ∷ ps) = ap (λ rest. told_payment p ∷ rest) (payment_responses-map ps)

-- The answer describes the deal. Its type and the name of its counterparty are left out: after an edit
-- they are those that the session loaded before.
pub record IsAnswer (a : DealResponse) (d : FxDeal) : Type 0 where
  pub id : a.id ≡ d.id
  pub trade_date : a.trade_date ≡ d.trade_date
  pub value_date : a.value_date ≡ d.value_date
  pub operation_direction : a.operation_direction ≡ d.operation_direction
  pub buy_currency : a.buy_currency ≡ d.buy_currency
  pub sell_currency : a.sell_currency ≡ d.sell_currency
  pub amount : a.amount ≡ d.amount
  pub rate : a.rate ≡ d.rate
  pub counterparty_id : a.counterparty_id ≡ d.counterparty_id
  pub status : a.status ≡ d.deal_state
  pub validation_status : a.validation_status ≡ d.validation_status
  pub trader_id : a.trader_id ≡ d.trader_id
  pub trader_email : a.trader_email ≡ d.trader_email
  pub positioner_id : a.positioner_id ≡ d.positioner_id
  pub comment : a.comment ≡ d.comment
  pub payments : a.payments ≡ map told_payment d.payments

pub to_response-IsAnswer :
    (d : FxDeal) (loaded_type : DealType) (loaded : Option Counterparty)
    → IsAnswer (to_response loaded_type loaded d) d
unfolding to_response
to_response-IsAnswer d loaded_type loaded = record {
  id = refl;
  trade_date = refl;
  value_date = refl;
  operation_direction = refl;
  buy_currency = refl;
  sell_currency = refl;
  amount = refl;
  rate = refl;
  counterparty_id = refl;
  status = refl;
  validation_status = refl;
  trader_id = refl;
  trader_email = refl;
  positioner_id = refl;
  comment = refl;
  payments = payment_responses-map d.payments;
}

module _ (env : Environment) (user : UserClaims) (db : Database) where
  abbrev pub kind : (d d' : FxDeal) (es : List AuditLogEntry) → Move env user db d d' es → Kind
  kind d d' es (edited payload c s t a active e f) = editing payload
  kind d d' es (invalidated found t n e f) = marking found
  kind d d' es (validated day rows t c e f) = checking
  kind d d' es (submitted t s v c e f) = submitting
  kind d d' es (approved_executed c p s o a e f) = executing c
  kind d d' es (approved_unsent c p s o a e f) = failing c
  kind d d' es (sent_back decision comment w p s e f) = deciding decision comment
  kind d d' es (taken_back t s e f) = taking_back
  kind d d' es (called_off comment t s e f) = calling_off comment

  -- The deal `id` has moved to `d'` by a move of kind `k`, and the database with it to `db'`.
  pub record Moved (k : Kind) (id : ℕ) (d' : FxDeal) (db' : Database) : Type 0 where
    pub d : FxDeal
    pub es : List AuditLogEntry
    pub found : find id db.deals ≡ some d
    pub move : Move env user db d d' es
    pub kind_is : kind d d' es move ≡ k
    pub stored :
        db' ≡ record db { deals = put (at_rest env d') db.deals; audit_log = db.audit_log ++ es }

  pub by-Move :
      {k : Kind} {id : ℕ} {db' : Database} (d d' : FxDeal) (es : List AuditLogEntry)
      → find id db.deals ≡ some d
      → (m : Move env user db d d' es) → kind d d' es m ≡ k
      → db' ≡ record db { deals = put (at_rest env d') db.deals; audit_log = db.audit_log ++ es }
      → Moved k id d' db'
  by-Move d d' es found m e stored = record {
    d = d;
    es = es;
    found = found;
    move = m;
    kind_is = e;
    stored = stored;
  }

  -- A request for a move of kind `k` on the deal `id` is answered, and leaves `db'`.
  pub data Done (k : Kind) (id : ℕ) (r : Result DealResponse) (db' : Database) : Type 0 where
    served :
        (d' : FxDeal) (a : DealResponse)
        → Moved k id d' db'
        → r ≡ ok a
        → IsAnswer a d'
        → Done k id r db'
    created :
        (payload : DealCreateRequest) (a : DealResponse)
        → k ≡ opening payload
        → find id db.deals ≡ none
        → IsKnown db (value payload.counterparty_id)
        → db' ≡ record db {
          deals = db.deals ++ (at_rest env (new_deal id payload user) ∷ []);
          audit_log =
              db.audit_log
              ++ (entry
                    (new_deal id payload user)
                    user
                    AuditAction.create
                    none
                    (AuditValue.status draft)
                  ∷ []);
        }
        → r ≡ ok a
        → IsAnswer a (new_deal id payload user)
        → Done k id r db'

  -- A request for a move of kind `k` on the deal `id` ends with `r`, and leaves `db'`.
  pub data Outcome (k : Kind) (id : ℕ) (r : Result DealResponse) (db' : Database) : Type 0 where
    done : Done k id r db' → Outcome k id r db'
    failed : (x : Error) → r ≡ err x → db' ≡ db → Outcome k id r db'
    marked :
        (d' : FxDeal) (found : List ValidationIssue)
        → Moved (marking found) id d' db'
        → checks k ≡ true
        → r ≡ err (validation_failed found)
        → Outcome k id r db'
    unsent :
        (d d' : FxDeal) (c : String)
        → find id db.deals ≡ some d
        → Moved (failing c) id d' db'
        → k ≡ executing c
        → r ≡ err (http 502 (position_system_rejected (answer env c d user).error))
        → Outcome k id r db'

  -- A session that ends with such an outcome.
  abbrev pub IsOutcome : Kind → ℕ → Result DealResponse → Session → Type 0
  IsOutcome k id r t = Outcome k id r t.stored

  Moved-Commit :
      (k : Kind) (id : ℕ) (d' : FxDeal) (db' : Database)
      → Moved k id d' db'
      → Commit env user db db'
  Moved-Commit k id d' db' m = moved id m.d d' m.es m.found m.move m.stored

  pub Outcome-Commit :
      (k : Kind) (id : ℕ) (r : Result DealResponse) (db' : Database)
      → Outcome k id r db'
      → Commit env user db db'
  Outcome-Commit k id r db' (failed x e kept) = nothing kept
  Outcome-Commit k id r db' (done (served d' a m e s)) = Moved-Commit _ id d' db' m
  Outcome-Commit k id r db' (marked d' found m c e) = Moved-Commit _ id d' db' m
  Outcome-Commit k id r db' (unsent d d' c f m e x) = Moved-Commit _ id d' db' m
  Outcome-Commit k id r db' (done (created payload a e unused active kept f s)) =
      opened id payload unused active kept

  -- What is answered with a deal is done.
  pub Outcome-Done :
      (k : Kind) (id : ℕ) (r : Result DealResponse) (db' : Database) (a : DealResponse)
      → Outcome k id r db'
      → r ≡ ok a
      → Done k id r db'
  Outcome-Done k id r db' a (done d) h = d
  Outcome-Done k id r db' a (failed x e kept) h = cc
  Outcome-Done k id r db' a (marked d' found m c e) h = cc
  Outcome-Done k id r db' a (unsent d d' c f m e x) h = cc

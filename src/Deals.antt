-- ===== src/Deals.antt =====
-- src/fx_deal_manager/services/deal_service.py: `DealService`, the operations that change a deal.
pub mod Steps
pub mod Updates
use fx_deal_manager.Prelude.{
  ℕ, ◌+◌, String, Bool, true, false, not, ◌&&◌, Option, none, some, List, [], ◌∷◌, length, same,
  is_some, Dict, if◌then◌else◌,
}
use fx_deal_manager.Domain.{
  DealType, DealState, draft, ValidationStatus, not_validated, valid, invalid, is_draft,
  Counterparty, NostroAccount, Payment, FxDeal, UserClaims, DealCreateRequest, Patch, unset, null,
  value, DealUpdateRequest, PaymentResponse, DealResponse,
}
use fx_deal_manager.Issues.{ValidationIssue, issue}
use fx_deal_manager.Validation
use fx_deal_manager.Settlement.{DateResult, date, value_error, calculate_value_date}
use fx_deal_manager.Limits.{check}
use fx_deal_manager.Payments.{CalculatedPayment, calculate, assign}
use fx_deal_manager.Nsi.{get_counterparty, currencies_by_code, nostro_by_currency, load_calendar}
use fx_deal_manager.Store.{
  Database, AuditLogEntry, AuditValue, AuditAction, Environment, Error, http, validation_failed,
  internal, Detail, counterparty_missing, payments_not_persisted, database_error, null_value,
  invalid_operation, payment_save_fault, Action, ok, err, pure, raise, raise_if, gets, or_raise,
  catch, ◌>>=◌, ◌>>◌, flush, commit, rollback, write, get_by_id, set_validation_status, save_new,
  save_existing, replace_payments, log, counterparty_exists,
}

unfoldable pub payment_responses : List Payment → List PaymentResponse
payment_responses [] = []
payment_responses (p ∷ ps) =
    record {
      amount = p.amount;
      currency_code = p.currency_code;
      account_code = p.account_code;
      payment_direction = p.payment_direction;
      value_date = p.value_date;
    }
    ∷ payment_responses ps

abbrev counterparty_name : Option Counterparty → Option String
counterparty_name none = none
counterparty_name (some row) = some row.name

-- `_to_response`. The relationships `deal_type` and `counterparty` are as the session loaded them:
-- an assignment to the foreign key does not refresh them, since nothing expires them.
unfoldable pub to_response : DealType → Option Counterparty → FxDeal → DealResponse
unfolding payment_responses
to_response loaded_type loaded_counterparty deal = record {
  id = deal.id;
  trade_date = deal.trade_date;
  value_date = deal.value_date;
  deal_type = loaded_type;
  operation_direction = deal.operation_direction;
  buy_currency = deal.buy_currency;
  sell_currency = deal.sell_currency;
  amount = deal.amount;
  rate = deal.rate;
  counterparty_id = deal.counterparty_id;
  counterparty_name = counterparty_name loaded_counterparty;
  status = deal.deal_state;
  validation_status = deal.validation_status;
  trader_id = deal.trader_id;
  trader_email = deal.trader_email;
  positioner_id = deal.positioner_id;
  comment = deal.comment;
  payments = payment_responses deal.payments;
}

-- An entry of the audit log about a deal.
abbrev pub entry :
    FxDeal → UserClaims → AuditAction → Option AuditValue → AuditValue → AuditLogEntry
entry deal user action old_value new_value = record {
  entity_id = deal.id;
  entity_type = "FXDeal";
  action = action;
  old_value = old_value;
  new_value = some new_value;
  created_by = user.email;
}

-- The deal that `create_deal` makes of a request; the identifier is a fresh UUID.
unfoldable pub new_deal : ℕ → DealCreateRequest → UserClaims → FxDeal
new_deal id payload user = record {
  id = id;
  trade_date = payload.trade_date;
  value_date = payload.value_date;
  amount = payload.amount;
  rate = payload.rate;
  buy_currency = payload.buy_currency;
  sell_currency = payload.sell_currency;
  operation_direction = payload.operation_direction;
  counterparty_id = payload.counterparty_id;
  deal_type = payload.deal_type;
  deal_state = draft;
  validation_status = not_validated;
  trader_id = user.user_id;
  trader_email = user.email;
  positioner_id = none;
  comment = payload.comment;
  payments = [];
  positioner_solution = none;
}

-- `if "x" in updates: deal.x = updates["x"]`, for a required and for a nullable attribute.
abbrev pub required {ℓ} : {A : Type 0} {B : Type ℓ} → Patch A → A → (A → Option B) → Option B
required unset old next = next old
required null old next = none
required (value new) old next = next new

abbrev nullable : {A : Type 0} → Patch A → Option A → Option A
nullable unset old = old
nullable null old = none
nullable (value new) old = some new

-- The assignments of `update_deal`; `none` where a required attribute is set to null.
unfoldable pub apply_updates : DealUpdateRequest → FxDeal → Option FxDeal
apply_updates updates deal = required updates.counterparty_id deal.counterparty_id λ counterparty.
    required updates.trade_date deal.trade_date λ trade_day.
      required updates.amount deal.amount λ amount. required updates.rate deal.rate λ rate.
        required updates.buy_currency deal.buy_currency λ buy_code.
          required updates.sell_currency deal.sell_currency λ sell_code.
            required updates.operation_direction deal.operation_direction λ direction.
              required updates.deal_type deal.deal_type λ kind. some (record deal {
                counterparty_id = counterparty;
                trade_date = trade_day;
                value_date = nullable updates.value_date deal.value_date;
                amount = amount;
                rate = rate;
                buy_currency = buy_code;
                sell_currency = sell_code;
                operation_direction = direction;
                deal_type = kind;
                comment = nullable updates.comment deal.comment;
              })

-- What the client is told when the result of a validation could not be stored.
unfoldable pub persist_detail : Error → Detail
persist_detail (internal (payment_save_fault index)) = payments_not_persisted index
persist_detail e = Detail.text "Failed to persist deal and payments"

module _ (env : Environment) where
  -- `try: get_by_id ... except DealNotFoundError`, and `ApprovalService._load_deal`
  unfoldable pub load_deal : ℕ → Action FxDeal
  load_deal id = catch (get_by_id env id) λ e. raise (http 404 (Detail.text "Deal not found"))

  unfoldable pub require_counterparty : String → Action (Unit {0})
  require_counterparty key = do
    exists ← counterparty_exists env key
    raise_if (not exists) (http 422 (counterparty_missing key))

  -- `DealService.create_deal`
  unfoldable pub create_deal : ℕ → DealCreateRequest → UserClaims → Action DealResponse
  create_deal id payload user = do
    require_counterparty payload.counterparty_id
    created ← save_new env (new_deal id payload user)
    log env (entry created user AuditAction.create none (AuditValue.status draft))
    commit env
    counterparty ← gets (λ db. get_counterparty db.counterparties created.counterparty_id)
    pure (to_response created.deal_type counterparty created)

  -- The check of a new counterparty, for an absent, a null and a present value.
  unfoldable pub check_counterparty : Patch String → Action (Unit {0})
  check_counterparty unset = pure tt
  check_counterparty null = raise (http 422 (counterparty_missing "None"))
  check_counterparty (value key) = require_counterparty key

  -- `DealService.update_deal`
  unfoldable pub update_deal : ℕ → DealUpdateRequest → UserClaims → Action DealResponse
  update_deal id payload user = do
    deal ← load_deal id
    counterparty ← gets (λ db. get_counterparty db.counterparties deal.counterparty_id)
    raise_if (not (is_draft deal.deal_state))
        (http 403 (Detail.text "Only DRAFT deals can be edited"))
    raise_if (not (same deal.trader_id user.user_id))
        (http 403 (Detail.text "Only the deal creator can edit this deal"))
    check_counterparty payload.counterparty_id
    assigned ← or_raise (apply_updates payload deal) (internal null_value)
    written ← write env assigned
    reset ← set_validation_status env written not_validated
    emptied ← replace_payments env reset []
    updated ← save_existing env emptied
    log env (entry updated user AuditAction.update none (AuditValue.updates payload))
    commit env
    pure (to_response deal.deal_type counterparty updated)

  -- `DealService.get_deal`
  unfoldable pub get_deal : ℕ → Action DealResponse
  get_deal id = do
    deal ← load_deal id
    counterparty ← gets (λ db. get_counterparty db.counterparties deal.counterparty_id)
    pure (to_response deal.deal_type counterparty deal)

  -- What `validate_deal` and `submit_deal` do with issues before they raise them.
  unfoldable pub reject_validation : FxDeal → UserClaims → List ValidationIssue → Action (Unit {0})
  reject_validation deal user found = do
    invalidated ← set_validation_status env deal invalid
    log env (entry deal user AuditAction.validate_failed none (AuditValue.issues found))
    commit env
    raise (validation_failed found)

  -- `if issues: ...`
  unfoldable pub refuse_issues : FxDeal → UserClaims → List ValidationIssue → Action (Unit {0})
  refuse_issues deal user [] = pure tt
  refuse_issues deal user (found ∷ more) = reject_validation deal user (found ∷ more)

  -- `payment_rows`
  unfoldable pub payment_rows : FxDeal → List (CalculatedPayment × String) → List Payment
  payment_rows deal [] = []
  payment_rows deal ((calc, account_code) ∷ assigned) =
      record {
        deal_id = deal.id;
        amount = calc.amount;
        currency_code = calc.currency_code;
        account_code = some account_code;
        payment_direction = calc.payment_direction;
        value_date = some calc.value_date;
      }
      ∷ payment_rows deal assigned

  -- The `try` block of `validate_deal`.
  unfoldable pub store_validated : FxDeal → UserClaims → ℕ → List Payment → Action FxDeal
  store_validated deal user value_date rows = do
    marked ← set_validation_status env deal valid
    paid ← replace_payments env marked rows
    updated ← save_existing env paid
    log env (
        entry updated user AuditAction.validate none
          (AuditValue.validated value_date (length rows)))
    commit env
    pure updated

  -- Its two `except` clauses.
  unfoldable pub persist_failed : Error → Action FxDeal
  persist_failed e = rollback env >> raise (http 500 (persist_detail e))

  -- `DealService.validate_deal` from the value date on, or its `except ValueError`.
  unfoldable pub settle_on : FxDeal → UserClaims → DateResult → Action FxDeal
  settle_on deal user (value_error message) =
      raise (validation_failed (issue "value_date" message ∷ []))
  settle_on deal user (date value_day) = do
    calculated ← or_raise (calculate deal value_day) (internal invalid_operation)
    nostro ← gets (λ db. nostro_by_currency db.nostro_accounts)
    refuse_issues deal user (assign calculated nostro).1
    dated ← write env (record deal { value_date = some value_day })
    catch (store_validated dated user value_day (payment_rows deal (assign calculated nostro).0))
        persist_failed

  -- `DealService.validate_deal` from the calendar on.
  unfoldable pub settle_deal : FxDeal → UserClaims → Action FxDeal
  settle_deal deal user = do
    calendar ←
        gets (λ db. load_calendar db.business_calendar deal.trade_date (deal.trade_date + 30))
    settle_on deal user
        (calculate_value_date deal.trade_date deal.deal_type calendar deal.value_date)

  -- `DealService.validate_deal`
  unfoldable pub validate_deal : ℕ → UserClaims → Action DealResponse
  validate_deal id user = do
    deal ← load_deal id
    raise_if (not (same deal.trader_id user.user_id) && not (same user.role "ADMIN"))
        (http 403 (Detail.text "Only the deal creator can validate this deal"))
    counterparty ← gets (λ db. get_counterparty db.counterparties deal.counterparty_id)
    currencies ← gets (λ db. currencies_by_code db.currencies)
    refuse_issues deal user (Validation.validate deal counterparty currencies)
    rows ← gets (λ db. db.deal_limits)
    limit_issues ← or_raise (check rows deal) (internal invalid_operation)
    refuse_issues deal user limit_issues
    updated ← settle_deal deal user
    pure (to_response deal.deal_type counterparty updated)

-- ===== src/Regulatory.antt =====
-- src/fx_deal_manager/services/regulatory_report.py, with `list_deals_for_regulatory_report` of
-- repositories/deal_repository.py.
pub mod Completeness
pub mod Described
pub mod Reported
use fx_deal_manager.Prelude.{
  ℕ, String, Bool, true, false, not, ◌&&◌, Option, none, some, List, [], ◌∷◌, ◌++◌, map, leb, same,
  is_empty, is_blank, is_some, select, Dict, get, if◌then◌else◌,
}
use fx_deal_manager.Decimal.{Decimal}
use fx_deal_manager.Domain.{
  DealState, DealType, ValidationStatus, OperationDirection, PaymentDirection, is_cancelled,
  is_valid, Currency, Counterparty, NostroAccount, Payment, FxDeal,
}
use fx_deal_manager.Issues.{
  NsiMessage, id_required, name_required, bic_required, currency_missing, account_code_required,
  nostro_missing, nostro_inactive, RegulatoryNsiError,
}
use fx_deal_manager.Nsi.{
  get_counterparty, currencies_by_code, nostro_by_id, nostro_by_account_number,
}
use fx_deal_manager.Store.{
  Database, AuditLogEntry, AuditValue, AuditAction, Environment, Error, report_incomplete, internal,
  key_error, Action, ok, err, pure, raise, gets, or_raise, ◌>>=◌, ◌>>◌, commit, log,
}

-- The dictionaries of reference data that a report reads.
pub record Lookups : Type 0 where
  pub currencies : Dict Currency
  pub nostro_by_number : Dict NostroAccount
  pub nostro_by_id : Dict NostroAccount

-- `ORDER BY trade_date, created_at` on rows in the order of creation.
unfoldable pub insert_by_trade_date : FxDeal → List FxDeal → List FxDeal
insert_by_trade_date deal [] = deal ∷ []
insert_by_trade_date deal (row ∷ rows) =
    if leb deal.trade_date row.trade_date
    then deal ∷ row ∷ rows
    else row ∷ insert_by_trade_date deal rows

unfoldable pub by_trade_date : List FxDeal → List FxDeal
by_trade_date [] = []
by_trade_date (deal ∷ deals) = insert_by_trade_date deal (by_trade_date deals)

abbrev from : Option ℕ → ℕ → Bool
from none day = true
from (some bound) day = leb bound day

abbrev until : Option ℕ → ℕ → Bool
until none day = true
until (some bound) day = leb day bound

abbrev with_counterparty : Option String → FxDeal → Bool
with_counterparty none deal = true
with_counterparty (some key) deal = same deal.counterparty_id key

-- `list_deals_for_regulatory_report`
unfoldable pub list_deals_for_regulatory_report :
    List FxDeal → Option ℕ → Option ℕ → Option String → List FxDeal
unfolding by_trade_date insert_by_trade_date
list_deals_for_regulatory_report rows date_from date_to counterparty_id = by_trade_date (
    select
      (λ deal.
        not (is_cancelled deal.deal_state)
        && (from date_from deal.trade_date
            && (until date_to deal.trade_date && with_counterparty counterparty_id deal)))
      rows)

-- `if failed: errors.append(RegulatoryNsiError(...))`
unfoldable pub report_if : Bool → FxDeal → String → NsiMessage → List RegulatoryNsiError
report_if false deal field message = []
report_if true deal field message =
    record { deal_id = deal.id; field = field; message = message } ∷ []

pub counterparty_errors : FxDeal → Option Counterparty → List RegulatoryNsiError
unfolding report_if
counterparty_errors deal none =
    report_if true deal "counterparty_id" NsiMessage.counterparty_missing
counterparty_errors deal (some row) =
    report_if (is_empty row.id) deal "counterparty.id" id_required
    ++ (report_if (is_empty row.name) deal "counterparty.name" name_required
        ++ report_if (is_blank row.bic) deal "counterparty.bic" bic_required)

-- `_resolve_nostro`
pub resolve_nostro : Lookups → String → Option NostroAccount
resolve_nostro look account_code = elim (get account_code look.nostro_by_number) [
  | none ↦ get account_code look.nostro_by_id
  | some account ↦ some account
]

account_errors : FxDeal → String → Option NostroAccount → List RegulatoryNsiError
unfolding report_if
account_errors deal code none = report_if true deal "payment.account_code" (nostro_missing code)
account_errors deal code (some account) =
    report_if (not account.is_active) deal "payment.account_code" (nostro_inactive code)

payment_errors : Lookups → FxDeal → Option String → List RegulatoryNsiError
unfolding report_if account_errors resolve_nostro
payment_errors look deal none = report_if true deal "payment.account_code" account_code_required
payment_errors look deal (some code) =
    if is_empty code
    then report_if true deal "payment.account_code" account_code_required
    else account_errors deal code (resolve_nostro look code)

pub all_payment_errors : Lookups → FxDeal → List Payment → List RegulatoryNsiError
unfolding payment_errors
all_payment_errors look deal [] = []
all_payment_errors look deal (payment ∷ payments) =
    payment_errors look deal payment.account_code ++ all_payment_errors look deal payments

unfoldable pub deal_errors : Lookups → List Counterparty → FxDeal → List RegulatoryNsiError
unfolding counterparty_errors all_payment_errors report_if
deal_errors look counterparties deal =
    if not (is_valid deal.validation_status)
    then []
    else counterparty_errors deal (get_counterparty counterparties deal.counterparty_id)
      ++ (report_if (not (is_some (get deal.buy_currency look.currencies))) deal "buy_currency"
            (currency_missing deal.buy_currency)
          ++ (report_if (not (is_some (get deal.sell_currency look.currencies))) deal
                "sell_currency" (currency_missing deal.sell_currency)
              ++ all_payment_errors look deal deal.payments))

-- `_validate_nsi`; the relationship `deal.counterparty` is the row with the deal's key.
unfoldable pub validate_nsi : Lookups → List Counterparty → List FxDeal → List RegulatoryNsiError
unfolding deal_errors
validate_nsi look counterparties [] = []
validate_nsi look counterparties (deal ∷ deals) =
    deal_errors look counterparties deal ++ validate_nsi look counterparties deals

-- One entry of `payments` in a serialized deal.
pub record PaymentLine : Type 0 where
  pub direction : PaymentDirection
  pub amount : Decimal
  pub currency : String
  pub value_date : Option ℕ
  pub account_code : Option String
  pub account_number : Option String
  pub bank_name : Option String

-- A serialized deal; `counterparty` is `none` where the row is missing, and then the key of the
-- deal stands for its `id`.
pub record DealLine : Type 0 where
  pub deal_id : ℕ
  pub trade_date : ℕ
  pub value_date : Option ℕ
  pub deal_type : DealType
  pub operation_direction : OperationDirection
  pub buy_currency : Currency
  pub sell_currency : Currency
  pub amount : Decimal
  pub rate : Decimal
  pub status : DealState
  pub validation_status : ValidationStatus
  pub trader_id : String
  pub trader_email : String
  pub positioner_id : Option String
  pub counterparty_id : String
  pub counterparty : Option Counterparty
  pub payments : List PaymentLine

abbrev or_text : Option String → String
or_text none = ""
or_text (some s) = s

abbrev number_of : Option NostroAccount → Option String
number_of none = none
number_of (some account) = some account.account_number

abbrev bank_of : Option NostroAccount → Option String
bank_of none = none
bank_of (some account) = some account.bank_name

serialize_payments : Lookups → List Payment → List PaymentLine
unfolding resolve_nostro
serialize_payments look [] = []
serialize_payments look (payment ∷ payments) =
    let account = resolve_nostro look (or_text payment.account_code) in
    record {
      direction = payment.payment_direction;
      amount = payment.amount;
      currency = payment.currency_code;
      value_date = payment.value_date;
      account_code = payment.account_code;
      account_number = number_of account;
      bank_name = bank_of account;
    }
    ∷ serialize_payments look payments

serialize_with : Lookups → List Counterparty → FxDeal → Currency → Currency → DealLine
unfolding serialize_payments
serialize_with look counterparties deal buy_currency sell_currency = record {
  deal_id = deal.id;
  trade_date = deal.trade_date;
  value_date = deal.value_date;
  deal_type = deal.deal_type;
  operation_direction = deal.operation_direction;
  buy_currency = buy_currency;
  sell_currency = sell_currency;
  amount = deal.amount;
  rate = deal.rate;
  status = deal.deal_state;
  validation_status = deal.validation_status;
  trader_id = deal.trader_id;
  trader_email = deal.trader_email;
  positioner_id = deal.positioner_id;
  counterparty_id = deal.counterparty_id;
  counterparty = get_counterparty counterparties deal.counterparty_id;
  payments = serialize_payments look deal.payments;
}

-- `_serialize_deal`; `none` is the `KeyError` of `currencies[...]`.
unfoldable pub serialize_deal : Lookups → List Counterparty → FxDeal → Option DealLine
unfolding serialize_with
serialize_deal look counterparties deal = elim (get deal.buy_currency look.currencies) [
  | none ↦ none
  | some buy_currency ↦ elim (get deal.sell_currency look.currencies) [
    | none ↦ none
    | some sell_currency ↦ some (serialize_with look counterparties deal buy_currency sell_currency)
  ]
]

-- `[self._serialize_deal(...) for deal in deals]`
unfoldable pub serialize_deals : Lookups → List Counterparty → List FxDeal → Option (List DealLine)
unfolding serialize_deal
serialize_deals look counterparties [] = some []
serialize_deals look counterparties (deal ∷ deals) =
    let rest = serialize_deals look counterparties deals in
    elim (serialize_deal look counterparties deal) [
      | none ↦ none
      | some line ↦ elim rest [ none ↦ none | some lines ↦ some (line ∷ lines) ]
    ]

-- The entry that a failed report leaves: about its first deal, or about UUID 0.
unfoldable pub failure_entry : List FxDeal → String → List RegulatoryNsiError → AuditLogEntry
failure_entry deals created_by errors = record {
  entity_id = elim deals [ [] ↦ 0 | deal ∷ _ ↦ deal.id ];
  entity_type = "RegulatoryReport";
  action = AuditAction.regulatory_report_failed;
  old_value = none;
  new_value = some (AuditValue.nsi_errors errors);
  created_by = created_by;
}

unfoldable pub lookups_of : Database → Lookups
lookups_of db = record {
  currencies = currencies_by_code db.currencies;
  nostro_by_number = nostro_by_account_number db.nostro_accounts;
  nostro_by_id = nostro_by_id db.nostro_accounts;
}

module _ (env : Environment) where
  -- `if errors: ...`
  unfoldable pub report_failure : List FxDeal → String → List RegulatoryNsiError → Action (Unit {0})
  report_failure deals created_by [] = pure tt
  report_failure deals created_by (error ∷ errors) = do
    log env (failure_entry deals created_by (error ∷ errors))
    commit env
    raise (report_incomplete (error ∷ errors))

  -- `RegulatoryReportService.generate`
  unfoldable pub generate : Option ℕ → Option ℕ → Option String → String → Action (List DealLine)
  generate date_from date_to counterparty_id created_by = do
    deals ← gets (λ db. list_deals_for_regulatory_report db.deals date_from date_to counterparty_id)
    look ← gets lookups_of
    counterparties ← gets (λ db. db.counterparties)
    report_failure deals created_by (validate_nsi look counterparties deals)
    or_raise (serialize_deals look counterparties deals) (internal key_error)

-- ===== src/Reports.antt =====
-- src/fx_deal_manager/api/routes/reports.py: the reports, as JSON or as the rows of a CSV file.
pub mod Rows
use fx_deal_manager.Prelude.{ℕ, String, Bool, Option, none, some, List, [], ◌∷◌, ◌++◌}
use fx_deal_manager.Decimal.{Decimal}
use fx_deal_manager.Domain.{
  DealState, DealType, ValidationStatus, OperationDirection, PaymentDirection, Counterparty,
  Currency, FxDeal, UserClaims, DealResponse,
}
use fx_deal_manager.Store.{Database, Environment, Action, pure, gets, ◌>>=◌, ◌>>◌}
use fx_deal_manager.Listings.{DealFilter, DealListResponse, deal_page}
use fx_deal_manager.Regulatory.{PaymentLine, DealLine, generate}
use fx_deal_manager.Requests.{require_role}

abbrev pub report_roles : List String
report_roles = "AUDITOR" ∷ "POSITIONER" ∷ "ADMIN" ∷ []

abbrev pub regulatory_report_roles : List String
regulatory_report_roles = "AUDITOR" ∷ "ADMIN" ∷ []

-- A cell, by the value that it prints.
pub data Cell : Type 0 where
  text : String → Cell
  uuid day moment number : ℕ → Cell
  decimal : Decimal → Cell
  flag : Bool → Cell
  deal_type_code : DealType → Cell
  operation_code : OperationDirection → Cell
  state_code : DealState → Cell
  validation_code : ValidationStatus → Cell
  direction_code : PaymentDirection → Cell

abbrev pub CsvRow : Type 0
CsvRow = List Cell

-- `value or ""`, for a text and for a date.
abbrev pub text_or_empty : Option String → Cell
text_or_empty none = text ""
text_or_empty (some s) = text s

abbrev pub day_or_empty : Option ℕ → Cell
day_or_empty none = text ""
day_or_empty (some d) = day d

pub data Format : Type 0 where
  json csv : Format

-- What a report answers with.
pub data Report (A : Type 0) : Type 0 where
  json_report : A → Report A
  csv_report : List CsvRow → Report A

-- `CSV_COLUMNS`
unfoldable pub csv_columns : CsvRow
csv_columns =
    text "deal_id"
    ∷ text "trade_date"
    ∷ text "value_date"
    ∷ text "deal_type"
    ∷ text "operation"
    ∷ text "buy_currency"
    ∷ text "sell_currency"
    ∷ text "amount"
    ∷ text "rate"
    ∷ text "counterparty_id"
    ∷ text "counterparty_name"
    ∷ text "status"
    ∷ text "validation_status"
    ∷ text "trader_email"
    ∷ text "positioner_id"
    ∷ text "created_at"
    ∷ text "updated_at"
    ∷ []

-- A row of the deals report. What the database has set as `created_at` and `updated_at` is a parameter.
unfoldable pub deal_row : (DealResponse → ℕ × ℕ) → DealResponse → CsvRow
deal_row stamps deal =
    uuid deal.id
    ∷ day deal.trade_date
    ∷ day_or_empty deal.value_date
    ∷ deal_type_code deal.deal_type
    ∷ operation_code deal.operation_direction
    ∷ text deal.buy_currency
    ∷ text deal.sell_currency
    ∷ decimal deal.amount
    ∷ decimal deal.rate
    ∷ text deal.counterparty_id
    ∷ text_or_empty deal.counterparty_name
    ∷ state_code deal.status
    ∷ validation_code deal.validation_status
    ∷ text deal.trader_email
    ∷ text_or_empty deal.positioner_id
    ∷ moment (stamps deal).0
    ∷ moment (stamps deal).1
    ∷ []

unfoldable pub deal_rows : (DealResponse → ℕ × ℕ) → List DealResponse → List CsvRow
deal_rows stamps [] = []
deal_rows stamps (deal ∷ deals) = deal_row stamps deal ∷ deal_rows stamps deals

abbrev pub in_format : {A : Type 0} → Format → A → List CsvRow → Report A
in_format json answer rows = json_report answer
in_format csv answer rows = csv_report rows

-- `deals_report`: the first page of the deals, without a search term.
unfoldable pub deals_report :
    (String → FxDeal → Bool)
    → (DealResponse → ℕ × ℕ)
    → UserClaims
    → DealFilter
    → Format
    → ℕ
    → Action (Report DealListResponse)
deals_report ilike stamps user filter fmt page_size = do
  require_role report_roles user
  payload ← gets (λ db. deal_page ilike db (record filter { search = none }) 1 page_size)
  pure (in_format fmt payload (csv_columns ∷ deal_rows stamps payload.items))

-- `REGULATORY_CSV_COLUMNS`
unfoldable pub regulatory_csv_columns : CsvRow
regulatory_csv_columns =
    text "deal_id"
    ∷ text "trade_date"
    ∷ text "value_date"
    ∷ text "deal_type"
    ∷ text "operation_direction"
    ∷ text "amount"
    ∷ text "rate"
    ∷ text "status"
    ∷ text "validation_status"
    ∷ text "trader_email"
    ∷ text "positioner_id"
    ∷ text "counterparty_id"
    ∷ text "counterparty_name"
    ∷ text "counterparty_bic"
    ∷ text "counterparty_country"
    ∷ text "counterparty_is_active"
    ∷ text "buy_currency_code"
    ∷ text "buy_currency_name"
    ∷ text "buy_currency_decimal_places"
    ∷ text "sell_currency_code"
    ∷ text "sell_currency_name"
    ∷ text "sell_currency_decimal_places"
    ∷ text "payment_direction"
    ∷ text "payment_amount"
    ∷ text "payment_currency"
    ∷ text "payment_value_date"
    ∷ text "payment_account_code"
    ∷ text "nostro_account_number"
    ∷ text "nostro_bank_name"
    ∷ []

-- The cells on the counterparty; of one that is missing only the key of the deal is known.
abbrev pub counterparty_cells : String → Option Counterparty → CsvRow → CsvRow
counterparty_cells key none rest = text key ∷ text "" ∷ text "" ∷ text "" ∷ text "" ∷ rest
counterparty_cells key (some row) rest =
    text row.id
    ∷ text row.name
    ∷ text_or_empty row.bic
    ∷ text_or_empty row.country
    ∷ flag row.is_active
    ∷ rest

abbrev pub currency_cells : Currency → CsvRow → CsvRow
currency_cells row rest = text row.code ∷ text row.name ∷ number row.decimal_places ∷ rest

abbrev pub payment_cells : PaymentLine → CsvRow
payment_cells payment =
    direction_code payment.direction
    ∷ decimal payment.amount
    ∷ text payment.currency
    ∷ day_or_empty payment.value_date
    ∷ text_or_empty payment.account_code
    ∷ text_or_empty payment.account_number
    ∷ text_or_empty payment.bank_name
    ∷ []

unfoldable pub regulatory_row : DealLine → PaymentLine → CsvRow
regulatory_row deal payment =
    uuid deal.deal_id
    ∷ day deal.trade_date
    ∷ day_or_empty deal.value_date
    ∷ deal_type_code deal.deal_type
    ∷ operation_code deal.operation_direction
    ∷ decimal deal.amount
    ∷ decimal deal.rate
    ∷ state_code deal.status
    ∷ validation_code deal.validation_status
    ∷ text deal.trader_email
    ∷ text_or_empty deal.positioner_id
    ∷ counterparty_cells deal.counterparty_id deal.counterparty (
        currency_cells deal.buy_currency
          (currency_cells deal.sell_currency (payment_cells payment)))

-- The two loops: a row for each payment of each deal.
unfoldable pub line_rows : DealLine → List PaymentLine → List CsvRow
line_rows deal [] = []
line_rows deal (payment ∷ payments) = regulatory_row deal payment ∷ line_rows deal payments

unfoldable pub regulatory_rows : List DealLine → List CsvRow
regulatory_rows [] = []
regulatory_rows (deal ∷ deals) = line_rows deal deal.payments ++ regulatory_rows deals

-- `regulatory_deals_report`
unfoldable pub regulatory_deals_report :
    Environment
    → UserClaims
    → Option ℕ
    → Option ℕ
    → Option String
    → Format
    → Action (Report (List DealLine))
regulatory_deals_report env user date_from date_to counterparty_id fmt = do
  require_role regulatory_report_roles user
  items ← generate env date_from date_to counterparty_id user.email
  pure (in_format fmt items (regulatory_csv_columns ∷ regulatory_rows items))

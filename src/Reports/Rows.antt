-- ===== src/Reports/Rows.antt =====
-- The rows of the CSV reports under the columns of their headers.
use fx_deal_manager.Prelude.{
  ℕ, String, ◌≡◌, refl, ◌∙◌, ap, Option, none, some, List, [], ◌∷◌, ◌++◌, map, All, All-append,
  length, same, string_dec, Option-cases, inl, inr, if◌then◌else◌,
}
use fx_deal_manager.Domain.{DealResponse, Counterparty}
use fx_deal_manager.Regulatory.{PaymentLine, DealLine}
use fx_deal_manager.Reports.{
  Cell, text, uuid, day, number, flag, decimal, direction_code, deal_type_code, operation_code,
  state_code, validation_code, CsvRow, text_or_empty, day_or_empty, csv_columns, deal_row,
  deal_rows, regulatory_csv_columns, regulatory_row, line_rows, regulatory_rows,
}

-- As many cells as the header.
abbrev pub Fits : CsvRow → CsvRow → Type 0
Fits header row = length row ≡ length header

deal_rows_fit :
    (stamps : DealResponse → ℕ × ℕ) (deals : List DealResponse)
    → All (Fits csv_columns) (deal_rows stamps deals)
unfolding deal_rows deal_row csv_columns
deal_rows_fit stamps [] = tt
deal_rows_fit stamps (deal ∷ deals) = (refl, deal_rows_fit stamps deals)

regulatory_row-Fits :
    (deal : DealLine) (payment : PaymentLine)
    → Fits regulatory_csv_columns (regulatory_row deal payment)
unfolding regulatory_row regulatory_csv_columns
regulatory_row-Fits deal payment = elim (Option-cases deal.counterparty) [
  | inl e ↦ rw e refl
  | inr (row, e) ↦ rw e refl
]

line_rows_fit :
    (deal : DealLine) (payments : List PaymentLine)
    → All (Fits regulatory_csv_columns) (line_rows deal payments)
unfolding line_rows
line_rows_fit deal [] = tt
line_rows_fit deal (payment ∷ payments) =
    (regulatory_row-Fits deal payment, line_rows_fit deal payments)

regulatory_rows_fit :
    (deals : List DealLine) → All (Fits regulatory_csv_columns) (regulatory_rows deals)
unfolding regulatory_rows
regulatory_rows_fit [] = tt
regulatory_rows_fit (deal ∷ deals) =
    All-append (Fits regulatory_csv_columns) (line_rows deal deal.payments) (regulatory_rows deals)
      (line_rows_fit deal deal.payments) (regulatory_rows_fit deals)

-- Both CSV files are tables: every row has exactly as many cells as the header of its report.
pub report_rows-Fits :
    (stamps : DealResponse → ℕ × ℕ) (deals : List DealResponse) (lines : List DealLine)
    → All (Fits csv_columns) (deal_rows stamps deals)
      × All (Fits regulatory_csv_columns) (regulatory_rows lines)
report_rows-Fits stamps deals lines = (deal_rows_fit stamps deals, regulatory_rows_fit lines)

-- The cell of a row under a name of the header.
pub under : String → CsvRow → CsvRow → Option Cell
under name [] row = none
under name (head ∷ header) [] = none
under name (head ∷ header) (cell ∷ row) =
    let rest = under name header row in
    elim head [ text t ↦ if same t name then some cell else rest | _ ↦ rest ]

-- The names of the columns.
abbrev pub column_names : List String
column_names =
    "deal_id" ∷ "trade_date" ∷ "value_date" ∷ "deal_type" ∷ "operation_direction" ∷ "amount"
    ∷ "rate" ∷ "status" ∷ "validation_status" ∷ "trader_email" ∷ "positioner_id" ∷ "counterparty_id"
    ∷ "counterparty_name" ∷ "counterparty_bic" ∷ "counterparty_country" ∷ "counterparty_is_active"
    ∷ "buy_currency_code" ∷ "buy_currency_name" ∷ "buy_currency_decimal_places"
    ∷ "sell_currency_code" ∷ "sell_currency_name" ∷ "sell_currency_decimal_places"
    ∷ "payment_direction" ∷ "payment_amount" ∷ "payment_currency" ∷ "payment_value_date"
    ∷ "payment_account_code" ∷ "nostro_account_number" ∷ "nostro_bank_name" ∷ []

-- What a payment's row says under each of the names.
abbrev pub said : CsvRow → List (Option Cell)
said row = map (λ name. under name regulatory_csv_columns row) column_names

-- What is said of the counterparty under the five names for it.
abbrev pub counterparty_facts : DealLine → Option Counterparty → List (Option Cell)
counterparty_facts deal none =
    some (text deal.counterparty_id)
    ∷ some (text "")
    ∷ some (text "")
    ∷ some (text "")
    ∷ some (text "")
    ∷ []
counterparty_facts deal (some row) =
    some (text row.id)
    ∷ some (text row.name)
    ∷ some (text_or_empty row.bic)
    ∷ some (text_or_empty row.country)
    ∷ some (flag row.is_active)
    ∷ []

-- What should be said of a deal and of a payment, in the order of the names.
abbrev pub facts : DealLine → PaymentLine → List (Option Cell)
facts deal payment =
    some (uuid deal.deal_id)
    ∷ some (day deal.trade_date)
    ∷ some (day_or_empty deal.value_date)
    ∷ some (deal_type_code deal.deal_type)
    ∷ some (operation_code deal.operation_direction)
    ∷ some (decimal deal.amount)
    ∷ some (decimal deal.rate)
    ∷ some (state_code deal.status)
    ∷ some (validation_code deal.validation_status)
    ∷ some (text deal.trader_email)
    ∷ some (text_or_empty deal.positioner_id)
    ∷ (counterparty_facts deal deal.counterparty
        ++ (some (text deal.buy_currency.code)
            ∷ some (text deal.buy_currency.name)
            ∷ some (number deal.buy_currency.decimal_places)
            ∷ some (text deal.sell_currency.code)
            ∷ some (text deal.sell_currency.name)
            ∷ some (number deal.sell_currency.decimal_places)
            ∷ some (direction_code payment.direction)
            ∷ some (decimal payment.amount)
            ∷ some (text payment.currency)
            ∷ some (day_or_empty payment.value_date)
            ∷ some (text_or_empty payment.account_code)
            ∷ some (text_or_empty payment.account_number)
            ∷ some (text_or_empty payment.bank_name)
            ∷ []))

-- The payments of all deals, each with its deal.
pub all_facts : List DealLine → List (List (Option Cell))
all_facts [] = []
all_facts (deal ∷ deals) = map (facts deal) deal.payments ++ all_facts deals

map-append : {A B : Type 0} (f : A → B) (xs ys : List A) → map f (xs ++ ys) ≡ map f xs ++ map f ys
map-append f [] ys = refl
map-append f (x ∷ xs) ys = ap (λ zs. f x ∷ zs) (map-append f xs ys)

said-regulatory_row :
    (deal : DealLine) (payment : PaymentLine)
    → said (regulatory_row deal payment) ≡ facts deal payment
unfolding regulatory_row regulatory_csv_columns under string_dec
said-regulatory_row deal payment = elim (Option-cases deal.counterparty) [
  | inl e ↦ rw e refl
  | inr (row, e) ↦ rw e refl
]

said-line_rows :
    (deal : DealLine) (payments : List PaymentLine)
    → map said (line_rows deal payments) ≡ map (facts deal) payments
unfolding line_rows
said-line_rows deal [] = refl
said-line_rows deal (payment ∷ payments) =
    ap (λ first. first ∷ map said (line_rows deal payments)) (said-regulatory_row deal payment)
    ∙ ap (λ rest. facts deal payment ∷ rest) (said-line_rows deal payments)

-- The regulatory CSV has one row for each payment of each deal, in their order, and under each of the
-- 29 names of its columns the row shows the data of the deal, of its counterparty, of its currencies
-- or of the payment that the name says; of a counterparty that is missing only the key.
pub said-regulatory_rows :
    (deals : List DealLine) → map said (regulatory_rows deals) ≡ all_facts deals
unfolding regulatory_rows all_facts
said-regulatory_rows [] = refl
said-regulatory_rows (deal ∷ deals) =
    map-append said (line_rows deal deal.payments) (regulatory_rows deals)
    ∙ ap (λ rows. rows ++ map said (regulatory_rows deals)) (said-line_rows deal deal.payments)
    ∙ ap (λ rows. map (facts deal) deal.payments ++ rows) (said-regulatory_rows deals)

-- ===== src/Positions.antt =====
-- src/fx_deal_manager/api/routes/positions.py: balances of the accounts, as the position system reports them, and the exposure of open deals.
pub mod Totals
use fx_deal_manager.Prelude.{
  ℕ, String, Bool, true, false, not, Option, none, some, List, [], ◌∷◌, ◌++◌, map, is_blank,
  is_empty, is_some, Dict, get, ◌==◌, insert, set_default, sorted, if◌then◌else◌,
}
use fx_deal_manager.Decimal.{Decimal, plus, times}
use fx_deal_manager.Domain.{
  DealState, draft, waiting_for_positioner, approved, rejected, executed, cancelled,
  PaymentDirection, incoming, outgoing, Payment, FxDeal, UserClaims,
}
use fx_deal_manager.Position.Token.{TokenResult, Fetched, reported, unavailable, positions_report}
use fx_deal_manager.Store.{
  Database, Error, http, positions_unavailable, internal, invalid_operation, Result, ok, err,
  Action, raise, pure, gets, or_raise, ◌>>=◌, ◌>>◌,
}
use fx_deal_manager.Requests.{require_role}

-- A JSON value that `_dec` reads: null or "", a value that `Decimal(str(value))` takes, or another one.
pub data JsonAmount : Type 0 where
  absent : JsonAmount
  number : Decimal → JsonAmount
  unreadable : JsonAmount

-- A member of the list `positions` that is a dictionary, with its members as texts.
pub record ReportRow : Type 0 where
  pub account_number : Option String
  pub name : Option String
  pub account_name : Option String
  pub currency_code : Option String
  pub opening_balance : JsonAmount
  pub turnover_in : JsonAmount
  pub turnover_out : JsonAmount
  pub current_position : JsonAmount

-- The list `positions` of a report, where `none` is no dictionary.
abbrev pub Blob : Type 0
Blob = Fetched (List (Option ReportRow))

-- `FxPositionAccountResponse`, less its constant source.
pub record FxPositionAccountResponse : Type 0 where
  pub account_number : String
  pub name : Option String
  pub currency_code : String
  pub opening_balance : Option Decimal
  pub turnover_in : Option Decimal
  pub turnover_out : Option Decimal
  pub current_position : Option Decimal

pub record FxPositionCurrencyResponse : Type 0 where
  pub currency_code : String
  pub current_position : Decimal
  pub open_exposure : Decimal
  pub projected_position : Decimal

pub record FxPositionsResponse : Type 0 where
  pub date : ℕ
  pub accounts : List FxPositionAccountResponse
  pub currencies : List FxPositionCurrencyResponse

-- `Decimal("0")`, `Decimal("1")` and `Decimal("-1")`
abbrev pub nought : Decimal
nought = record { negative = false; coefficient = 0; places = 0 }

abbrev one : Decimal
one = record { negative = false; coefficient = 1; places = 0 }

abbrev minus_one : Decimal
minus_one = record { negative = true; coefficient = 1; places = 0 }

-- `d.get(k, Decimal("0"))`
abbrev pub or_nought : Option Decimal → Decimal
or_nought none = nought
or_nought (some a) = a

-- `value or Decimal("0")`, where 0 counts as no value.
abbrev or_zero : Option Decimal → Decimal
or_zero none = nought
or_zero (some a) = if a.coefficient == 0 then nought else a

-- `_dec`; `none` is `decimal.InvalidOperation`.
abbrev dec : JsonAmount → Option (Option Decimal)
dec absent = some none
dec (number a) = some (some a)
dec unreadable = none

abbrev or_empty : Option String → String
or_empty none = ""
or_empty (some s) = s

-- `row.get("name") or row.get("account_name")`
abbrev first_name_of : Option String → Option String → Option String
first_name_of name account_name = if is_blank name then account_name else name

-- Whether the states of the query hold a deal's.
abbrev pub is_open_state : DealState → Bool
is_open_state draft = true
is_open_state waiting_for_positioner = true
is_open_state approved = true
is_open_state rejected = false
is_open_state executed = false
is_open_state cancelled = false

abbrev sign : PaymentDirection → Decimal
sign incoming = one
sign outgoing = minus_one

-- The payments of the query, in the order of their deals, with what they add to the exposure.
abbrev pub signed_payments : List Payment → List (String × Decimal)
signed_payments [] = []
signed_payments (p ∷ ps) =
    (p.currency_code, times p.amount (sign p.payment_direction)) ∷ signed_payments ps

unfoldable pub open_payments : List FxDeal → List (String × Decimal)
open_payments [] = []
open_payments (deal ∷ deals) =
    let rest = open_payments deals in
    if is_open_state deal.deal_state then signed_payments deal.payments ++ rest else rest

-- `d[k] = d.get(k, Decimal("0")) + a` for each pair.
unfoldable pub accumulate : List (String × Decimal) → Dict Decimal → Dict Decimal
accumulate [] d = d
accumulate ((code, a) ∷ rows) d = accumulate rows (insert code (plus (or_nought (get code d)) a) d)

-- `_open_exposure_by_currency`
unfoldable pub open_exposure : List FxDeal → Dict Decimal
open_exposure deals = accumulate (open_payments deals) []

-- `for currency_code in exposure: totals.setdefault(...)`
unfoldable pub with_codes : Dict Decimal → Dict Decimal → Dict Decimal
with_codes [] totals = totals
with_codes ((code, a) ∷ exposure) totals = with_codes exposure (set_default code nought totals)

-- The currency and the position of each account.
abbrev pub positions_of : List FxPositionAccountResponse → List (String × Decimal)
positions_of accounts =
    map
      (λ (account : FxPositionAccountResponse).
        (account.currency_code, or_zero account.current_position))
      accounts

abbrev currency_row : Dict Decimal → String → Decimal → FxPositionCurrencyResponse
currency_row exposure code current = record {
  currency_code = code;
  current_position = current;
  open_exposure = or_nought (get code exposure);
  projected_position = plus current (or_nought (get code exposure));
}

-- The comprehension with its condition `if currency_code`.
unfoldable pub currency_rows : Dict Decimal → Dict Decimal → List FxPositionCurrencyResponse
currency_rows exposure [] = []
currency_rows exposure ((code, current) ∷ totals) =
    let rest = currency_rows exposure totals in
    if is_empty code then rest else currency_row exposure code current ∷ rest

-- Python's `str.upper` is a parameter.
module _ (upper : String → String) where
  -- One account, or `decimal.InvalidOperation`.
  abbrev account_of : ReportRow → Option FxPositionAccountResponse
  account_of row = elim (dec row.opening_balance) [
    | none ↦ none
    | some opening ↦ elim (dec row.turnover_in) [
      | none ↦ none
      | some turned_in ↦ elim (dec row.turnover_out) [
        | none ↦ none
        | some turned_out ↦ elim (dec row.current_position) [
          | none ↦ none
          | some current ↦ some (record {
            account_number = or_empty row.account_number;
            name = first_name_of row.name row.account_name;
            currency_code = upper (or_empty row.currency_code);
            opening_balance = opening;
            turnover_in = turned_in;
            turnover_out = turned_out;
            current_position = current;
          })
        ]
      ]
    ]
  ]

  -- The loop over the rows, which leaves out what is no dictionary.
  unfoldable pub accounts_of : List (Option ReportRow) → Option (List FxPositionAccountResponse)
  accounts_of [] = some []
  accounts_of (none ∷ rows) = accounts_of rows
  accounts_of (some row ∷ rows) =
      let rest = accounts_of rows in
      elim (account_of row) [
        | none ↦ none
        | some account ↦ elim rest [ none ↦ none | some accounts ↦ some (account ∷ accounts) ]
      ]

-- Python's order of texts is a parameter.
module _ (before : String → String → Bool) where
  -- The currencies of the answer.
  unfoldable pub currencies_of :
      List FxPositionAccountResponse → List FxDeal → List FxPositionCurrencyResponse
  currencies_of accounts deals =
      let exposure = open_exposure deals in
      currency_rows exposure
        (sorted before (with_codes exposure (accumulate (positions_of accounts) [])))

abbrev pub position_roles : List String
position_roles = "POSITIONER" ∷ "ADMIN" ∷ "AUDITOR" ∷ []

abbrev received : Blob → Action (List (Option ReportRow))
received (reported rows) = pure rows
received (unavailable reason) = raise (http 502 (positions_unavailable reason))

module _ (upper : String → String) (before : String → String → Bool) where
  -- `positions_overview`
  unfoldable pub positions_overview :
      String → TokenResult → (TokenResult → Blob) → UserClaims → ℕ → Action FxPositionsResponse
  positions_overview position_system_url headers system user on_date = do
    require_role position_roles user
    deals ← gets (λ db. db.deals)
    rows ← received (positions_report position_system_url headers system)
    accounts ← or_raise (accounts_of upper rows) (internal invalid_operation)
    pure (record {
      date = on_date;
      accounts = accounts;
      currencies = currencies_of before accounts deals;
    })

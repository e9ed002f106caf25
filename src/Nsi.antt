-- ===== src/Nsi.antt =====
-- src/fx_deal_manager/repositories/nsi_repository.py: the reference data. Each table is given as
-- its rows in the order that the query asks for.
pub mod Accounts
pub mod Rows
pub mod Calendars
use fx_deal_manager.Prelude.{
  ℕ, zero, suc, ◌+◌, ◌-◌, ◌%◌, String, Bool, true, false, ◌&&◌, Option, none, some, List, [], ◌∷◌,
  map, ltb, leb, ◌==◌, same, select, Dict, insert, set_default, if◌then◌else◌,
}
use fx_deal_manager.Domain.{Currency, Counterparty, NostroAccount, BusinessCalendar}
use fx_deal_manager.Settlement.{Calendar}

-- `list_counterparties`
unfoldable pub list_counterparties : List Counterparty → Bool → List Counterparty
list_counterparties rows active_only =
    if active_only then select (λ row. row.is_active) rows else rows

-- `get_counterparty`
unfoldable pub get_counterparty : List Counterparty → String → Option Counterparty
get_counterparty [] key = none
get_counterparty (row ∷ rows) key = if same row.id key then some row else get_counterparty rows key

-- A `dict` comprehension: a later pair replaces an earlier one with its key.
collect {ℓ} : {A : Type ℓ} → (A → String) → List A → Dict A → Dict A
collect key [] d = d
collect key (row ∷ rows) d = collect key rows (insert (key row) row d)

-- `currencies_by_code`
unfoldable pub currencies_by_code : List Currency → Dict Currency
unfolding collect
currencies_by_code rows = collect (λ row. row.code) rows []

-- `list_nostro_accounts`; the code is in upper case already.
unfoldable pub list_nostro_accounts : List NostroAccount → Option String → Bool → List NostroAccount
list_nostro_accounts rows none active_only =
    if active_only then select (λ row. row.is_active) rows else rows
list_nostro_accounts rows (some code) active_only =
    let chosen = select (λ row. same row.currency_code code) rows in
    if active_only then select (λ row. row.is_active) chosen else chosen

-- `nostro_by_id` and `nostro_by_account_number`
unfoldable pub nostro_by_id : List NostroAccount → Dict NostroAccount
unfolding collect list_nostro_accounts
nostro_by_id rows = collect (λ row. row.id) (list_nostro_accounts rows none false) []

unfoldable pub nostro_by_account_number : List NostroAccount → Dict NostroAccount
unfolding collect list_nostro_accounts
nostro_by_account_number rows =
    collect (λ row. row.account_number) (list_nostro_accounts rows none false) []

-- The loop of `nostro_by_currency`.
unfoldable pub first_by_currency : List NostroAccount → Dict NostroAccount → Dict NostroAccount
first_by_currency [] d = d
first_by_currency (row ∷ rows) d = first_by_currency rows (set_default row.currency_code row d)

unfoldable pub nostro_by_currency : List NostroAccount → Dict NostroAccount
unfolding first_by_currency list_nostro_accounts
nostro_by_currency rows = first_by_currency (list_nostro_accounts rows none true) []

-- `date.weekday()`: 0 is Monday, and so is ordinal 1.
unfoldable pub weekday : ℕ → ℕ
weekday day = (day + 6) % 7

-- `calendar.setdefault(day, open)`
unfoldable pub set_default_day : ℕ → Bool → Calendar → Calendar
set_default_day day open_day [] = (day, open_day) ∷ []
set_default_day day open_day ((d, b) ∷ c) =
    if d == day then (d, b) ∷ c else (d, b) ∷ set_default_day day open_day c

-- The loop of `load_calendar`, for a number of days from `current`.
unfoldable pub fill : ℕ → ℕ → Calendar → Calendar
unfolding set_default_day weekday
fill zero current calendar = calendar
fill (suc days) current calendar =
    fill days (current + 1) (set_default_day current (ltb (weekday current) 5) calendar)

-- `load_calendar`
unfoldable pub load_calendar : List BusinessCalendar → ℕ → ℕ → Calendar
unfolding fill
load_calendar rows start end = fill (end + 1 - start) start (
    map (λ row. (row.calendar_date, row.is_business_day))
      (select (λ row. leb start row.calendar_date && leb row.calendar_date end) rows))

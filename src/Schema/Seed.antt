-- ===== src/Schema/Seed.antt =====
-- The rows that the migrations 001 and 005 insert, each table in the order of its primary key.
use fx_deal_manager.Prelude.{ℕ, ◌+◌, String, Bool, true, false, Option, none, some, List, [], ◌∷◌}
use fx_deal_manager.Domain.{Currency, Counterparty, DealLimit, NostroAccount, BusinessCalendar}
use fx_deal_manager.Store.{Database}

abbrev with_cents : String → String → Currency
with_cents code name = record { code = code; name = name; decimal_places = 2 }

abbrev pub seed_currencies : List Currency
seed_currencies =
    with_cents "CHF" "Swiss Franc"
    ∷ with_cents "CNY" "Chinese Yuan"
    ∷ with_cents "EUR" "Euro"
    ∷ with_cents "GBP" "British Pound"
    ∷ with_cents "RUB" "Russian Ruble"
    ∷ with_cents "USD" "US Dollar"
    ∷ []

abbrev russian : String → String → Option String → Bool → Counterparty
russian id name bic active = record {
  id = id;
  name = name;
  bic = bic;
  country = some "RU";
  is_active = active;
}

-- With the row that 005 adds.
abbrev pub seed_counterparties : List Counterparty
seed_counterparties =
    russian "ALFA" "АО Альфа-Банк" (some "ALFARUMM") true
    ∷ russian "GAZP" "АО Газпромбанк" (some "GAZPRUMM") true
    ∷ russian "ICBC" "ICBC Moscow" (some "ICBKRUMM") true
    ∷ russian "INACTIVE" "Inactive Test CP" (some "INACRUMM") false
    ∷ russian "MKB" "ПАО Московский Кредитный Банк" (some "MCRBRUMM") true
    ∷ russian "NOBIC" "Test Counterparty Without BIC" none true
    ∷ russian "OPEN" "ПАО Банк Открытие" (some "JSNMRUMM") true
    ∷ russian "RAIF" "АО Райффайзенбанк" (some "RZBMRUMM") true
    ∷ russian "SBER" "ПАО Сбербанк" (some "SABRRUMM") true
    ∷ russian "TBRF" "АО ТБанк" (some "TICSRUMM") true
    ∷ russian "VTBR" "ПАО Банк ВТБ" (some "VTBRRUMM") true
    ∷ []

abbrev own_account : String → String → String → String → NostroAccount
own_account id code bank number = record {
  id = id;
  currency_code = code;
  bank_name = bank;
  account_number = number;
  is_active = true;
}

abbrev pub seed_accounts : List NostroAccount
seed_accounts =
    own_account "NOS-CNY-001" "CNY" "BOC Hong Kong" "363000003"
    ∷ own_account "NOS-EUR-001" "EUR" "Deutsche Bank" "363000002"
    ∷ own_account "NOS-RUB-001" "RUB" "АСУБАНК Nostro RUB" "40702810000000000001"
    ∷ own_account "NOS-USD-001" "USD" "Citi NA" "363000001"
    ∷ []

-- `date(2026, 5, 1)` as an ordinal.
abbrev may_first : ℕ
may_first = 739737

-- Days in a row from one on, each with whether it is a business day.
abbrev pub days_from : ℕ → List Bool → List BusinessCalendar
days_from day [] = []
days_from day (b ∷ bs) =
    record { calendar_date = day; is_business_day = b } ∷ days_from (day + 1) bs

-- The 31 days of May and the first 7 of June 2026.
abbrev pub seed_calendar : List BusinessCalendar
seed_calendar = days_from may_first (
    true ∷ true ∷ false ∷ false ∷ true ∷ true ∷ true ∷ true ∷ true ∷ false ∷ false ∷ true ∷ true
    ∷ true ∷ true ∷ true ∷ false ∷ false ∷ true ∷ true ∷ true ∷ true ∷ true ∷ false ∷ false ∷ true
    ∷ true ∷ true ∷ true ∷ true ∷ false ∷ true ∷ true ∷ true ∷ true ∷ true ∷ false ∷ false ∷ [])

abbrev limit_on_dollars : ℕ → Option String → ℕ → DealLimit
limit_on_dollars id counterparty_id cents = record {
  id = id;
  counterparty_id = counterparty_id;
  currency_code = some "USD";
  max_amount = record { negative = false; coefficient = cents; places = 2 };
  is_active = true;
}

abbrev pub seed_limits : List DealLimit
seed_limits =
    limit_on_dollars 1 (some "VTBR") 1_000_000_000 ∷ limit_on_dollars 2 none 5_000_000_000 ∷ []

-- The database after the migrations.
unfoldable pub migrated : Database
migrated = record {
  deals = [];
  audit_log = [];
  counterparties = seed_counterparties;
  currencies = seed_currencies;
  nostro_accounts = seed_accounts;
  deal_limits = seed_limits;
  business_calendar = seed_calendar;
}

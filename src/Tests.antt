-- ===== src/Tests.antt =====
-- A small desk that the tests and the examples use: reference data, users and requests.
pub mod Histories
pub mod Answers
pub mod Sends
pub mod Ways
pub mod Clients
pub mod Reads
pub mod Books
pub mod Parts
use fx_deal_manager.Prelude.{ℕ, String, Bool, true, false, Option, none, some, List, [], ◌∷◌}
use fx_deal_manager.Decimal.{Decimal}
use fx_deal_manager.Domain.{
  Currency, Counterparty, DealLimit, NostroAccount, FxDeal, UserClaims, DealCreateRequest, tod, buy,
}
use fx_deal_manager.Position.{Gateway, accepted}
use fx_deal_manager.Store.{Database, Environment}
use fx_deal_manager.Deals.{new_deal}
use fx_deal_manager.Requests.{Request, create, validate, submit, approve}
use fx_deal_manager.History.{Requests}

abbrev pub whole : ℕ → Decimal
whole n = record { negative = false; coefficient = n; places = 0 }

abbrev pub dollar : Currency
dollar = record { code = "USD"; name = "US Dollar"; decimal_places = 2 }

abbrev pub rouble : Currency
rouble = record { code = "RUB"; name = "Rouble"; decimal_places = 2 }

abbrev pub bank : Counterparty
bank = record {
  id = "BANK";
  name = "Bank";
  bic = some "BANKRUMM";
  country = none;
  is_active = true;
}

abbrev pub nostro : String → String → Bool → NostroAccount
nostro id code active = record {
  id = id;
  currency_code = code;
  bank_name = "Bank";
  account_number = id;
  is_active = active;
}

abbrev pub accounts : List NostroAccount
accounts =
    nostro "OLD" "USD" false
    ∷ nostro "U1" "USD" true
    ∷ nostro "U2" "USD" true
    ∷ nostro "R1" "RUB" true
    ∷ []

abbrev pub limit : ℕ → Option String → Option String → ℕ → DealLimit
limit id counterparty_id currency_code bound = record {
  id = id;
  counterparty_id = counterparty_id;
  currency_code = currency_code;
  max_amount = whole bound;
  is_active = true;
}

abbrev pub limits : List DealLimit
limits = limit 1 none (some "USD") 500 ∷ limit 2 (some "BANK") none 1000 ∷ []

abbrev pub desk : Database
desk = record {
  deals = [];
  audit_log = [];
  counterparties = bank ∷ [];
  currencies = dollar ∷ rouble ∷ [];
  nostro_accounts = accounts;
  deal_limits = [];
  business_calendar = [];
}

-- A position system that takes everything at once.
abbrev pub gateway : Gateway
gateway = record {
  position_system_url = "http://position";
  position_send_retries = 3;
  auth_error = none;
  post = λ payload attempt. accepted (some "ref");
}

-- Amounts that the columns hold exactly, and a database that refuses nothing.
abbrev pub world : Environment
world = record {
  payment_save_fault_after = none;
  numeric = λ scale a. a;
  accepts = λ db. true;
  gateway = gateway;
}

abbrev pub claims : String → String → UserClaims
claims id role = record {
  user_id = id;
  email = id;
  first_name = "";
  last_name = "";
  role = role;
  expires_at = 0;
}

abbrev pub trader : UserClaims
trader = claims "ann" "TRADER"

abbrev pub positioner : UserClaims
positioner = claims "bob" "POSITIONER"

-- 100 dollars for roubles; day 738000 is a Thursday.
abbrev pub payload : DealCreateRequest
payload = record {
  trade_date = 738000;
  deal_type = tod;
  operation_direction = buy;
  buy_currency = "USD";
  sell_currency = "RUB";
  amount = whole 100;
  rate = whole 90;
  counterparty_id = "BANK";
  value_date = none;
  comment = none;
}

abbrev pub whole_life : Requests
whole_life =
    (trader, create 1 payload)
    ∷ (trader, validate 1)
    ∷ (trader, submit 1)
    ∷ (positioner, approve 1 "c-1")
    ∷ []

abbrev pub or_new : Option FxDeal → FxDeal
unfolding new_deal
or_new none = new_deal 0 payload trader
or_new (some d) = d

-- ===== src/Tests/Books.antt =====
-- Users, quotes and positions on the desk.
use fx_deal_manager.Prelude.{
  ℕ, ◌≡◌, ◌↔◌, ◌⊎◌, All, ap, arith, refl, true, false, Option, none, some, [], ◌∷◌, string_dec,
  sorted, insert_sorted, get,
}
use fx_deal_manager.Decimal.{Decimal, plus, times, minus, divide, quantize_basis}
use fx_deal_manager.Domain.{FxDeal, buy, tod, draft, not_validated}
use fx_deal_manager.Store.{ok}
use fx_deal_manager.Auth.{TokenClaims, decoded, Credentials, get_current_user}
use fx_deal_manager.Auth.Claims.{IsFrom, get_current_user-IsFrom}
use fx_deal_manager.Positions.{FxPositionAccountResponse}
use fx_deal_manager.Quotes.{UpdatedDeal, recent, last_two, quotes_of, list_quotes, quote}
use fx_deal_manager.Quotes.Window.{window}
use fx_deal_manager.Quotes.Latest.{IsQuoted, quote_for, quote_for-list_quotes}
use fx_deal_manager.Limits.{check}
use fx_deal_manager.Limits.Reference.{is_active_for}
use fx_deal_manager.Limits.Within.{IsBounded, check-IsBounded}
use fx_deal_manager.Position.Token.{
  Settings, TokenReply, token_body, token_failed, token, empty_cache, service_token, is_usable,
  keep_token, store_token, keep_for, lasts,
}
use fx_deal_manager.Position.Token.Reuse.{service_token_again}
use fx_deal_manager.Nsi.{nostro_by_currency}
use fx_deal_manager.Reference.{nsi_nostro_accounts}
use fx_deal_manager.Reference.Defaults.{first_shown, shown_as, first_shown-nostro_by_currency}
use fx_deal_manager.Tests.{whole, trader, limits, accounts}

abbrev pub user_token : TokenClaims
user_token = record {
  token_type = some "user";
  user_id = some "ann";
  email = some "ann";
  first_name = some "";
  last_name = some "";
  role = some "TRADER";
  exp = 0;
}

abbrev pub given : Option Credentials
given = some (record { scheme = "bearer"; credentials = "t" })

get_current_user-IsFrom_example :
    (get_current_user (λ s. s) (λ t. decoded user_token) given ≡ ok trader)
    ↔ IsFrom (λ s. s) (λ t. decoded user_token) given trader
get_current_user-IsFrom_example =
    get_current_user-IsFrom (λ s. s) (λ t. decoded user_token) given trader

abbrev account : FxPositionAccountResponse
account = record {
  account_number = "U1";
  name = none;
  currency_code = "USD";
  opening_balance = none;
  turnover_in = none;
  turnover_out = none;
  current_position = some (whole 1000);
}

abbrev bought : ℕ → FxDeal
bought rate = record {
  id = 1;
  trade_date = 738000;
  value_date = none;
  amount = whole 100;
  rate = whole rate;
  buy_currency = "USD";
  sell_currency = "RUB";
  operation_direction = buy;
  counterparty_id = "BANK";
  deal_type = tod;
  deal_state = draft;
  validation_status = not_validated;
  trader_id = "ann";
  trader_email = "ann";
  positioner_id = none;
  comment = none;
  payments = [];
  positioner_solution = none;
}

abbrev first_deal : UpdatedDeal
first_deal = record { deal = bought 80; updated_at = 1 }

abbrev last_deal : UpdatedDeal
last_deal = record { deal = bought 90; updated_at = 2 }

abbrev rise : Decimal
rise = record { negative = false; coefficient = 125000; places = 4 }

test_quotes :
    list_quotes (λ s t. true) (first_deal ∷ last_deal ∷ [])
    ≡ some (quote "USD/RUB" last_deal rise ∷ [])
unfolding list_quotes recent last_two quotes_of sorted insert_sorted string_dec quantize_basis
    divide minus times plus
test_quotes = refl

quote_for-list_quotes_example :
    IsQuoted "USD/RUB"
      (window "USD/RUB" (first_deal ∷ last_deal ∷ []))
      (quote_for "USD/RUB" (quote "USD/RUB" last_deal rise ∷ []))
quote_for-list_quotes_example =
    quote_for-list_quotes (λ s t. true) (first_deal ∷ last_deal ∷ []) "USD/RUB"
      (quote "USD/RUB" last_deal rise ∷ []) test_quotes

check-IsBounded_example :
    (check limits (bought 90) ≡ some [])
    ↔ (All (λ limit. is_active_for "BANK" limit ≡ false) limits ⊎ IsBounded limits (bought 90))
check-IsBounded_example = check-IsBounded limits (bought 90)

abbrev settings : Settings
settings = record {
  position_auth_required = true;
  position_auth_client_id = "fx";
  position_auth_client_secret = "s";
}

abbrev reply : TokenReply
reply = token_body (some "t") none (lasts 10)

asked_once :
    service_token settings 100 101 reply empty_cache
    ≡ (token "t", (service_token settings 100 101 reply empty_cache).1, true)
unfolding service_token is_usable keep_token store_token keep_for string_dec
asked_once = refl

service_token_again_example :
    (let kept = (service_token settings 100 101 reply empty_cache).1 in
      service_token settings 130 131 (token_failed "down") kept ≡ (token "t", kept, false))
service_token_again_example =
    service_token_again settings 100 101 130 131 reply (token_failed "down") empty_cache "t"
      (omega arith) (ap (λ end. end.0) asked_once) (ap (λ end. end.2) asked_once)

first_shown-nostro_by_currency_example :
    first_shown (nsi_nostro_accounts (λ s. s) accounts (some "USD"))
    ≡ shown_as (get "USD" (nostro_by_currency accounts))
unfolding string_dec
first_shown-nostro_by_currency_example = first_shown-nostro_by_currency (λ s. s) accounts "USD" refl

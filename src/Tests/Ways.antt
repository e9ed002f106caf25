-- ===== src/Tests/Ways.antt =====
-- A deal of the desk from its draft to its execution.
use fx_deal_manager.Prelude.{◌≡◌, refl, inl, false, some, String, [], ◌∷◌, string_dec}
use fx_deal_manager.Decimal.{times, quantize_cents, is_non_positive, normalized_places}
use fx_deal_manager.Domain.{FxDeal, executed, incoming, outgoing, PaymentDirection}
use fx_deal_manager.Decimal.{Decimal}
use fx_deal_manager.Settlement.{is_open, add_business_days, calculate_value_date}
use fx_deal_manager.Payments.{CalculatedPayment, calculate, counter_amount, legs, assign}
use fx_deal_manager.Limits.{check, list_active_limits}
use fx_deal_manager.Validation
use fx_deal_manager.Nsi.{
  get_counterparty, currencies_by_code, nostro_by_currency, list_nostro_accounts, first_by_currency,
  load_calendar, fill, set_default_day, weekday,
}
use fx_deal_manager.Position.Serving.{IsServing, takes}
use fx_deal_manager.Store.{Database, find}
use fx_deal_manager.Deals.{new_deal, payment_rows}
use fx_deal_manager.Lifecycle.{IsChecked}
use fx_deal_manager.History.{run, traffic}
use fx_deal_manager.History.Executed.{IsPaidFor}
use fx_deal_manager.History.Through.{three, executed_in_three}
use fx_deal_manager.Tests.{whole, world, gateway, trader, positioner}
use fx_deal_manager.Tests.Histories.{new, checked, with_log, log_1, own_deal, others}

gateway-IsServing : IsServing gateway
unfolding string_dec
gateway-IsServing = record {
  configured = refl;
  authorized = refl;
  willing = λ p. takes 2 1 (some "ref") refl;
}

abbrev drafted : Database
drafted = with_log new log_1

abbrev side : Decimal → String → PaymentDirection → CalculatedPayment
side amount code direction = record {
  amount = amount;
  currency_code = code;
  payment_direction = direction;
  value_date = 738000;
}

new-IsChecked : IsChecked world drafted new 738000 checked.payments
unfolding string_dec new_deal get_counterparty currencies_by_code check list_active_limits
    load_calendar fill set_default_day weekday calculate_value_date add_business_days is_open
    calculate counter_amount legs assign nostro_by_currency list_nostro_accounts first_by_currency
    payment_rows times quantize_cents is_non_positive normalized_places Validation.validate
    Validation.decimals_valid
new-IsChecked = record {
  clean = refl;
  within_limits = refl;
  settles = refl;
  calculated =
      side (whole 100) "USD" incoming
      ∷ side (record { negative = false; coefficient = 900000; places = 2 }) "RUB" outgoing
      ∷ [];
  amounts = refl;
  accounts = refl;
  paid = refl;
}

find-new : find 1 drafted.deals ≡ some new
unfolding find new_deal
find-new = refl

executed_in_three_example :
    (d' : FxDeal) × (find 1 (run world (three trader positioner 1 "c-1") drafted).deals ≡ some d')
    × (d'.deal_state ≡ executed)
    × (d'.value_date ≡ some 738000)
    × (d'.positioner_id ≡ some positioner.user_id)
    × IsPaidFor world (traffic world (three trader positioner 1 "c-1") drafted) d'
unfolding string_dec
executed_in_three_example =
    executed_in_three world trader positioner drafted 1 "c-1" new 738000 checked.payments
      (λ t. refl) refl gateway-IsServing find-new refl refl refl (inl own_deal) new-IsChecked
      (inl refl) others

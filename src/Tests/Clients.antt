-- ===== src/Tests/Clients.antt =====
-- A request as a client sees it, a counter amount, and the database after the migrations.
use fx_deal_manager.Prelude.{◌+◌, ◌*◌, ◌/◌, ◌^◌, ◌≡◌, refl, false, some, inl, inr, [], ◌∷◌}
use fx_deal_manager.Decimal.{Decimal, times, quantize_cents}
use fx_deal_manager.Decimal.Rounding.{IsNear}
use fx_deal_manager.Payments.{counter_amount}
use fx_deal_manager.Payments.Rounding.{counter_amount-IsNear}
use fx_deal_manager.Deals.{new_deal}
use fx_deal_manager.Requests.{create, validate}
use fx_deal_manager.History.{Requests, run, without_deals}
use fx_deal_manager.Auth.{decoded}
use fx_deal_manager.Api.{Framework, detail, other, exchange}
use fx_deal_manager.Api.Answers.{IsDocumented, Told, exchange-Told}
use fx_deal_manager.Schema.{IsConsistent}
use fx_deal_manager.Schema.Seed.{migrated}
use fx_deal_manager.History.Keys.{run-IsConsistent}
use fx_deal_manager.Tests.{desk, world, payload, trader}
use fx_deal_manager.Tests.Histories.{waiting}
use fx_deal_manager.Tests.Books.{given, user_token}

abbrev framework : Framework
framework = record {
  http_exception = λ code d. record { status_code = code; content = detail d };
  server_error = record { status_code = 500; content = other "Internal Server Error" };
}

framework-IsDocumented : IsDocumented framework
framework-IsDocumented = record { http_status = λ code d. refl; error_status = refl }

exchange-Told_example :
    (let x =
        exchange framework
          (λ s. s)
          (λ t. decoded user_token)
          world
          "POST"
          "/api/v1/deals"
          given
          (create 1 payload)
          (without_deals desk) in
      Told
        (λ s. s)
        (λ t. decoded user_token)
        world
        given
        (create 1 payload)
        (without_deals desk)
        x.response
        x.session.stored)
exchange-Told_example =
    exchange-Told framework (λ s. s) (λ t. decoded user_token) world "POST" "/api/v1/deals" given
      (create 1 payload) (without_deals desk) framework-IsDocumented

abbrev counter : Decimal
counter = record { negative = false; coefficient = 900000; places = 2 }

counter_is : counter_amount waiting ≡ some counter
unfolding counter_amount times quantize_cents new_deal
counter_is = refl

counter_amount-IsNear_example :
    (counter.negative ≡ false)
    × (counter.places ≡ 2)
    × (let exact = waiting.amount.coefficient * waiting.rate.coefficient in
        let unit = 10 ^ (waiting.amount.places + waiting.rate.places) in
        IsNear (counter.coefficient * unit) (exact * 100) (unit + exact / 10 ^ 27 * 100))
unfolding new_deal
counter_amount-IsNear_example = counter_amount-IsNear waiting counter refl refl counter_is

migrated-IsConsistent : IsConsistent migrated
unfolding migrated
migrated-IsConsistent = record {
  deal_ids = tt;
  deals = tt;
  nostro_accounts = (
    (_, inr (inl refl), refl),
    (
      (_, inr (inr (inl refl)), refl),
      (
        (_, inr (inr (inr (inr (inl refl)))), refl),
        ((_, inr (inr (inr (inr (inr (inl refl))))), refl), tt),
      ),
    ),
  );
  deal_limits = (
    record {
      counterparty_id =
          (_, inr (inr (inr (inr (inr (inr (inr (inr (inr (inr (inl refl)))))))))), refl);
      currency_code = (_, inr (inr (inr (inr (inr (inl refl))))), refl);
    },
    (
      record {
        counterparty_id = tt;
        currency_code = (_, inr (inr (inr (inr (inr (inl refl))))), refl);
      },
      tt,
    ),
  );
}

abbrev requests : Requests
requests =
    (trader, create 1 (record payload { counterparty_id = "SBER"; trade_date = 739740 }))
    ∷ (trader, validate 1)
    ∷ []

run-IsConsistent_example : IsConsistent (run world requests migrated)
run-IsConsistent_example = run-IsConsistent world requests migrated migrated-IsConsistent

-- ===== src/Tests/Parts.antt =====
-- The theorems on the parts of the program, at values of the desk.
use fx_deal_manager.Prelude.{
  same, Bool, ◌*◌, ◌≤◌, String, ◌≡◌, ◌⊎◌, ◌↔◌, refl, true, false, none, some, List, [], ◌∷◌, map,
  length, All, Has, get, string_dec, arith,
}
use fx_deal_manager.Domain.{waiting_for_positioner, FxDeal, DealLimit, incoming, outgoing}
use fx_deal_manager.Settlement.{Calendar, is_open, add_business_days}
use fx_deal_manager.Settlement.ValueDate.{
  IsFirstOpen, IsNthOpen, add_business_days-IsFirstOpen, add_business_days-IsNthOpen,
}
use fx_deal_manager.Issues.{no_business_day_from, could_not_add_business_days}
use fx_deal_manager.Payments.{CalculatedPayment, assign}
use fx_deal_manager.Payments.Assignment.{assign_complete}
use fx_deal_manager.Limits.{find_best_limit}
use fx_deal_manager.Limits.Best.{rank, applies, find_best_limit-IsBest}
use fx_deal_manager.Nsi.{
  list_nostro_accounts, first_by_currency, nostro_by_account_number, nostro_by_id,
  currencies_by_code, nostro_by_currency, load_calendar, get_counterparty,
}
use fx_deal_manager.Nsi.Accounts.{first_active, nostro_by_currency-first_active}
use fx_deal_manager.Nsi.Calendars.{open_on, load_calendar-open_on}
use fx_deal_manager.Position.{send_deal, send_payments, attempts, payment_payload, pause}
use fx_deal_manager.Position.Sending.{posts, posts-send_deal}
use fx_deal_manager.Validation
use fx_deal_manager.Validation.Issueless.{IsSound, validate_empty}
use fx_deal_manager.Deals.{new_deal}
use fx_deal_manager.Regulatory.{deal_errors, report_if, lookups_of, validate_nsi, generate}
use fx_deal_manager.Listings.{in_queue, list_deals, newest_first, selected}
use fx_deal_manager.Listings.Pages.{first_pages, first_pages-selected}
use fx_deal_manager.Regulatory.Reported.{Reported, chosen, generate-Reported}
use fx_deal_manager.Requests.{open_session}
use fx_deal_manager.Tests.{world, whole, bank, accounts, limits, desk, gateway}
use fx_deal_manager.Tests.Histories.{checked, new}

validate_empty_example :
    (Validation.validate new (some bank) (currencies_by_code desk.currencies) ≡ [])
    ↔ IsSound new (some bank) (currencies_by_code desk.currencies)
validate_empty_example = validate_empty new (some bank) (currencies_by_code desk.currencies)

-- A weekend between two business days.
abbrev weekend : Calendar
weekend = (1, true) ∷ (2, false) ∷ (3, false) ∷ (4, true) ∷ []

add_business_days-IsFirstOpen_example :
    IsFirstOpen weekend 2 366 (no_business_day_from 2) (add_business_days 2 0 weekend)
add_business_days-IsFirstOpen_example = add_business_days-IsFirstOpen weekend 2

add_business_days-IsNthOpen_example :
    IsNthOpen weekend 1 366 1 (could_not_add_business_days 1 1) (add_business_days 1 1 weekend)
add_business_days-IsNthOpen_example = add_business_days-IsNthOpen weekend 1 0

find_best_limit-IsBest_example :
    ((best : DealLimit) × (find_best_limit limits "BANK" "USD" ≡ some best)
      × Has best limits
      × (applies "BANK" "USD" best ≡ true)
      × All
          (λ x. (applies "BANK" "USD" x ≡ false) ⊎ (rank "BANK" "USD" x ≤ rank "BANK" "USD" best))
          limits)
    ⊎ ((find_best_limit limits "BANK" "USD" ≡ none)
        × All (λ x. applies "BANK" "USD" x ≡ false) limits)
find_best_limit-IsBest_example = find_best_limit-IsBest "BANK" "USD" limits

abbrev two_legs : List CalculatedPayment
two_legs =
    record {
      amount = whole 100;
      currency_code = "USD";
      payment_direction = incoming;
      value_date = 738000;
    }
    ∷ record {
      amount = whole 9000;
      currency_code = "RUB";
      payment_direction = outgoing;
      value_date = 738000;
    }
    ∷ []

test_assign : (assign two_legs (nostro_by_currency accounts)).1 ≡ []
unfolding assign nostro_by_currency list_nostro_accounts first_by_currency string_dec
test_assign = refl

assign_complete_example :
    map
      (λ (pair : CalculatedPayment × String). pair.0)
      (assign two_legs (nostro_by_currency accounts)).0
    ≡ two_legs
assign_complete_example = assign_complete (nostro_by_currency accounts) two_legs test_assign

nostro_by_currency-first_active_example :
    get "USD" (nostro_by_currency accounts) ≡ first_active "USD" accounts
nostro_by_currency-first_active_example = nostro_by_currency-first_active accounts "USD"

load_calendar-open_on_example :
    is_open (load_calendar (record { calendar_date = 6; is_business_day = true } ∷ []) 1 10) 6
    ≡ open_on (record { calendar_date = 6; is_business_day = true } ∷ []) 6
load_calendar-open_on_example =
    load_calendar-open_on (record { calendar_date = 6; is_business_day = true } ∷ []) 1 10 6
      (omega arith) (omega arith)

test_send : (send_deal gateway "c-1" checked).0.success ≡ true
unfolding send_deal send_payments attempts payment_payload pause string_dec
test_send = refl

posts-send_deal_example : posts (send_deal gateway "c-1" checked).1 ≤ length checked.payments * 3
posts-send_deal_example = posts-send_deal gateway "c-1" checked

test_nsi : validate_nsi (lookups_of desk) desk.counterparties (checked ∷ []) ≡ []
unfolding validate_nsi deal_errors lookups_of currencies_by_code nostro_by_account_number
    nostro_by_id list_nostro_accounts report_if get_counterparty string_dec new_deal
test_nsi = refl

generate-Reported_example :
    (let db = record desk { deals = checked ∷ [] } in
      let end = generate world none none none "ann" (open_session db) in
      Reported db (chosen db none none none) "ann" end.0 end.1.stored)
generate-Reported_example =
    generate-Reported world (record desk { deals = checked ∷ [] }) none none none "ann"

-- Only this much of a search is needed here: a term is the counterparty's key.
abbrev by_key : String → FxDeal → Bool
by_key term deal = same deal.counterparty_id term

abbrev three : List FxDeal
three =
    checked
    ∷ record checked { id = 2; deal_state = waiting_for_positioner }
    ∷ record checked { id = 3; deal_state = waiting_for_positioner }
    ∷ []

test_queue :
    list_deals by_key three in_queue 1 1
    ≡ (record checked { id = 3; deal_state = waiting_for_positioner } ∷ [], 2)
unfolding list_deals selected new_deal
test_queue = refl

test_room : (list_deals by_key three in_queue 2 1).1 ≤ 2 * 1
unfolding list_deals selected new_deal
test_room = omega arith

first_pages-selected_example :
    first_pages by_key three in_queue 1 2 ≡ newest_first (selected by_key three in_queue)
first_pages-selected_example = first_pages-selected by_key three in_queue 1 2 test_room

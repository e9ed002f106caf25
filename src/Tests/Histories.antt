-- ===== src/Tests/Histories.antt =====
-- The life of a deal on the desk, request by request, with the theorems on histories at it.
use fx_deal_manager.Prelude.{
  ◌≡◌, ◌≢◌, ◌⊎◌, refl, sym, ◌∙◌, ap, false, String, some, none, List, [], ◌∷◌, ◌++◌, inr,
  string_dec,
}
use fx_deal_manager.Decimal.{Decimal, times, quantize_cents, is_non_positive, normalized_places}
use fx_deal_manager.Domain.{
  FxDeal, Payment, executed, draft, waiting_for_positioner, valid, incoming, outgoing,
  PaymentDirection, ApprovalDecision,
}
use fx_deal_manager.Settlement.{is_open, add_business_days, calculate_value_date}
use fx_deal_manager.Payments.{calculate, counter_amount, legs, assign}
use fx_deal_manager.Limits.{check, list_active_limits}
use fx_deal_manager.Validation
use fx_deal_manager.Nsi.{
  get_counterparty, currencies_by_code, nostro_by_currency, list_nostro_accounts, first_by_currency,
  load_calendar, fill, set_default_day, weekday,
}
use fx_deal_manager.Position.{
  PositionSendResult, send_deal, send_payments, attempts, payment_payload, acceptance, pause,
}
use fx_deal_manager.Store.{
  Database, AuditLogEntry, AuditValue, AuditAction, find, put, flush, commit, write, err, http,
  role_not_allowed, get_by_id, set_validation_status, set_deal_state, save_new, save_existing,
  check_payment_save_fault, replace_payments, append_payments, log, counterparty_exists, pure, gets,
  or_raise, catch, raise_if, modify, emit, ◌>>=◌,
}
use fx_deal_manager.Deals.{
  new_deal, entry, load_deal, require_counterparty, create_deal, refuse_issues, payment_rows,
  store_validated, settle_on, settle_deal, validate_deal,
}
use fx_deal_manager.Approval.{
  status_before, require_trader, require_positioner, respond, save_solution, submit_deal,
  execute_deal, finish_approval, approve_deal,
}
use fx_deal_manager.Lifecycle.{Commit, decided}
use fx_deal_manager.Requests.{
  create, validate, submit, approve, handle, dispatch, serve, require_role, open_session,
}
use fx_deal_manager.Requests.Guards.{other_only}
use fx_deal_manager.Requests.Refinement.{handle-Commit, IsAllowed, handle_role}
use fx_deal_manager.History.{run, without_deals}
use fx_deal_manager.History.FourEyes.{four_eyes}
use fx_deal_manager.History.Paid.{IsPaid, run-IsPaid}
use fx_deal_manager.History.Terms.{SameTerms, SameDeal}
use fx_deal_manager.History.States.{Step, handle-Step, handle-SameTerms, run_final}
use fx_deal_manager.History.Trail.{state_of, replay, replay-run}
use fx_deal_manager.Tests.{whole, desk, world, trader, positioner, payload, whole_life}

-- 9000 roubles to two places.
abbrev pub payment : Decimal → String → String → PaymentDirection → Payment
payment amount code account side = record {
  deal_id = 1;
  amount = amount;
  currency_code = code;
  account_code = some account;
  payment_direction = side;
  value_date = some 738000;
}

abbrev pub new : FxDeal
unfolding new_deal
new = new_deal 1 payload trader

abbrev pub checked : FxDeal
checked = record new {
  value_date = some 738000;
  validation_status = valid;
  payments =
      payment (whole 100) "USD" "U1" incoming
      ∷ payment (record { negative = false; coefficient = 900000; places = 2 }) "RUB" "R1" outgoing
      ∷ [];
}

abbrev pub waiting : FxDeal
waiting = record checked { deal_state = waiting_for_positioner }

abbrev pub done : FxDeal
done = decided waiting positioner executed ApprovalDecision.approve none

abbrev pub with_log : FxDeal → List AuditLogEntry → Database
with_log d es = record desk { deals = d ∷ []; audit_log = es }

abbrev pub log_1 : List AuditLogEntry
log_1 = entry new trader AuditAction.create none (AuditValue.status draft) ∷ []

abbrev log_2 : List AuditLogEntry
log_2 = log_1 ++ (entry new trader AuditAction.validate none (AuditValue.validated 738000 2) ∷ [])

test_create :
    (handle world trader (create 1 payload) (without_deals desk)).1.stored ≡ with_log new log_1
unfolding handle dispatch serve require_role string_dec ◌>>=◌ create_deal require_counterparty
    counterparty_exists get_counterparty save_new flush commit write log find new_deal pure gets
    raise_if modify put
test_create = refl

test_validate :
    (handle world trader (validate 1) (with_log new log_1)).1.stored ≡ with_log checked log_2
unfolding handle dispatch serve require_role string_dec ◌>>=◌ validate_deal load_deal get_by_id
    catch get_counterparty flush commit write log find new_deal pure gets raise_if or_raise
    refuse_issues currencies_by_code modify put check list_active_limits settle_deal settle_on
    load_calendar fill set_default_day weekday calculate_value_date add_business_days is_open
    calculate counter_amount legs assign nostro_by_currency list_nostro_accounts first_by_currency
    store_validated set_validation_status replace_payments check_payment_save_fault append_payments
    save_existing payment_rows times quantize_cents is_non_positive normalized_places
    Validation.validate Validation.decimals_valid
test_validate = refl

abbrev pub log_3 : List AuditLogEntry
log_3 =
    log_2
    ++ (entry new trader AuditAction.status_change (status_before new)
          (AuditValue.status waiting_for_positioner)
        ∷ [])

test_submit :
    (handle world trader (submit 1) (with_log checked log_2)).1.stored ≡ with_log waiting log_3
unfolding handle dispatch serve require_role string_dec ◌>>=◌ submit_deal require_trader load_deal
    get_by_id catch get_counterparty flush commit write log find new_deal pure gets raise_if
    or_raise refuse_issues modify put check list_active_limits set_deal_state save_existing respond
test_submit = refl

abbrev result : PositionSendResult
result = acceptance "c-1" ("ref" ∷ "ref" ∷ [])

abbrev pub log_4 : List AuditLogEntry
log_4 =
    log_3
    ++ (entry new positioner AuditAction.position_send none (AuditValue.sent result)
        ∷ entry new positioner AuditAction.status_change (status_before waiting)
            (AuditValue.execution executed "c-1" ("ref" ∷ "ref" ∷ []))
        ∷ [])

test_approve :
    (handle world positioner (approve 1 "c-1") (with_log waiting log_3)).1.stored
    ≡ with_log done log_4
unfolding handle dispatch serve require_role string_dec ◌>>=◌ approve_deal require_positioner
    load_deal get_by_id catch get_counterparty flush commit write log find new_deal pure gets
    raise_if emit modify put set_deal_state save_existing save_solution respond execute_deal
    finish_approval send_deal send_payments attempts payment_payload pause
test_approve = refl

pub run-whole_life : run world whole_life (without_deals desk) ≡ with_log done log_4
unfolding run
run-whole_life =
    ap
      (λ db.
        run world ((trader, validate 1) ∷ (trader, submit 1) ∷ (positioner, approve 1 "c-1") ∷ [])
          db)
      test_create
    ∙ ap (λ db. run world ((trader, submit 1) ∷ (positioner, approve 1 "c-1") ∷ []) db)
        test_validate
    ∙ ap (λ db. run world ((positioner, approve 1 "c-1") ∷ []) db) test_submit
    ∙ test_approve

pub find-done : find 1 (run world whole_life (without_deals desk)).deals ≡ some done
unfolding find new_deal
find-done = ap (λ db. find 1 db.deals) run-whole_life

handle-Commit_example :
    Commit world positioner
      (with_log waiting log_3)
      (handle world positioner (approve 1 "c-1") (with_log waiting log_3)).1.stored
handle-Commit_example = handle-Commit world positioner (with_log waiting log_3) (approve 1 "c-1")

handle_role_example :
    (let db = with_log waiting log_3 in
      let request = approve 1 "c-1" in
      (IsAllowed request "TRADER"
        × (handle world trader request db ≡ serve world trader request (open_session db)))
      ⊎ (¬ (IsAllowed request "TRADER")
          × (handle world trader request db
              ≡ (err (http 403 (role_not_allowed "TRADER")), open_session db))))
handle_role_example = handle_role world trader (with_log waiting log_3) (approve 1 "c-1")

four_eyes_example : (name : String) × (done.positioner_id ≡ some name) × (name ≢ done.trader_id)
four_eyes_example = four_eyes world whole_life desk 1 done find-done (inr refl)

run-IsPaid_example : IsPaid done
run-IsPaid_example = run-IsPaid world whole_life desk 1 done find-done refl

pub find-waiting : find 1 (with_log waiting log_3).deals ≡ some waiting
unfolding find new_deal
find-waiting = refl

handle-Step_example :
    (d' : FxDeal) × (find 1
        (handle world positioner (approve 1 "c-1") (with_log waiting log_3)).1.stored.deals
      ≡ some d')
    × Step waiting.deal_state d'.deal_state
handle-Step_example =
    handle-Step world positioner (approve 1 "c-1") (with_log waiting log_3) 1 waiting find-waiting

pub own_deal : new.trader_id ≡ trader.user_id
unfolding new
own_deal = refl

pub others : waiting.trader_id ≢ positioner.user_id
unfolding string_dec new
others = other_only waiting positioner refl

pub differ : positioner.user_id ≢ trader.user_id
unfolding new
differ e = others (sym e)

not_draft : waiting_for_positioner ≢ draft
not_draft p = cc

handle-SameTerms_example :
    (d' : FxDeal) × (find 1
        (handle world positioner (approve 1 "c-1") (with_log waiting log_3)).1.stored.deals
      ≡ some d')
    × SameTerms world waiting d'
handle-SameTerms_example =
    handle-SameTerms world positioner (approve 1 "c-1") (with_log waiting log_3) 1 waiting
      find-waiting not_draft

find_executed : find 1 (with_log done log_4).deals ≡ some done
unfolding find new_deal
find_executed = refl

run_final_example :
    (d' : FxDeal) × (find 1 (run world whole_life (with_log done log_4)).deals ≡ some d')
    × SameDeal world done d'
run_final_example = run_final world whole_life (with_log done log_4) 1 done find_executed refl

replay-run_example :
    state_of (find 1 (run world whole_life (without_deals desk)).deals)
    ≡ replay 1 (run world whole_life (without_deals desk)).audit_log none
replay-run_example = replay-run world whole_life desk 1

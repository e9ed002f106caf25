-- ===== src/Tests/Sends.antt =====
-- What the desk sends.
use fx_deal_manager.Prelude.{◌≡◌, ◌≢◌, refl, ap, arith, [], ◌∷◌, length, string_dec}
use fx_deal_manager.Position.{send_deal, send_payments, attempts, payment_payload, pause}
use fx_deal_manager.Store.{
  find, put, flush, commit, write, get_by_id, set_deal_state, save_existing, log, pure, gets, catch,
  raise_if, modify, emit, ◌>>=◌,
}
use fx_deal_manager.Nsi.{get_counterparty}
use fx_deal_manager.Deals.{load_deal, new_deal}
use fx_deal_manager.Approval.{
  require_positioner, respond, save_solution, execute_deal, finish_approval, approve_deal,
}
use fx_deal_manager.Requests.{approve, validate, handle, dispatch, serve, require_role}
use fx_deal_manager.History.{run, traffic, without_deals}
use fx_deal_manager.History.Executed.{IsPaidFor, run-IsPaidFor}
use fx_deal_manager.History.Once.{sent_once}
use fx_deal_manager.Tests.{desk, world, trader, positioner, whole_life}
use fx_deal_manager.Tests.Histories.{waiting, done, with_log, log_3, find-done}

run-IsPaidFor_example : IsPaidFor world (traffic world whole_life (without_deals desk)) done
run-IsPaidFor_example = run-IsPaidFor world whole_life desk 1 done find-done refl

two_posts :
    length (handle world positioner (approve 1 "c-1") (with_log waiting log_3)).1.effects ≡ 2
unfolding handle dispatch serve require_role string_dec ◌>>=◌ approve_deal require_positioner
    load_deal get_by_id catch get_counterparty flush commit write log find new_deal pure gets
    raise_if emit modify put set_deal_state save_existing save_solution respond execute_deal
    finish_approval send_deal send_payments attempts payment_payload pause
two_posts = refl

something : (handle world positioner (approve 1 "c-1") (with_log waiting log_3)).1.effects ≢ []
something e = omega (arith, two_posts, ap length e)

sent_once_example :
    (let later =
        run world
          ((trader, validate 1) ∷ [])
          (handle world positioner (approve 1 "c-1") (with_log waiting log_3)).1.stored in
      (handle world positioner (approve 1 "c-2") later).1.effects ≡ [])
sent_once_example =
    sent_once world positioner positioner (approve 1 "c-1") (approve 1 "c-2")
      ((trader, validate 1) ∷ []) (with_log waiting log_3) (λ db. refl) something refl

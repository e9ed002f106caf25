-- ===== src/Tests/Answers.antt =====
-- An approval on the desk: what it answers, what it sends, and that it is done.
use fx_deal_manager.Prelude.{◌≡◌, refl, inl, true, string_dec}
use fx_deal_manager.Position.{send_deal, send_payments, attempts, payment_payload, pause}
use fx_deal_manager.Lifecycle.Outcome.{Outcome, Done, executing}
use fx_deal_manager.Requests.{approve, handle}
use fx_deal_manager.Requests.Refinement.{handle-Outcome}
use fx_deal_manager.Requests.Sending.{Traffic, handle-Traffic}
use fx_deal_manager.Requests.Progress.Served.{Ready, ready_approve, handle-Done}
use fx_deal_manager.Lifecycle.{answer}
use fx_deal_manager.Tests.{world, positioner}
use fx_deal_manager.Tests.Histories.{waiting, with_log, log_3, find-waiting, others}

handle-Outcome_example :
    Outcome world positioner
      (with_log waiting log_3)
      (executing "c-1")
      1
      (handle world positioner (approve 1 "c-1") (with_log waiting log_3)).0
      (handle world positioner (approve 1 "c-1") (with_log waiting log_3)).1.stored
handle-Outcome_example = handle-Outcome world positioner (with_log waiting log_3) (approve 1 "c-1")

handle-Traffic_example :
    Traffic world positioner
      (with_log waiting log_3)
      (approve 1 "c-1")
      (handle world positioner (approve 1 "c-1") (with_log waiting log_3)).1.effects
handle-Traffic_example = handle-Traffic world positioner (with_log waiting log_3) (approve 1 "c-1")

taken : (answer world "c-1" waiting positioner).success ≡ true
unfolding string_dec send_deal send_payments attempts payment_payload pause
taken = refl

ready : Ready world positioner (with_log waiting log_3) (approve 1 "c-1")
ready = ready_approve 1 "c-1" waiting find-waiting (inl refl) refl others taken

handle-Done_example :
    Done world positioner
      (with_log waiting log_3)
      (executing "c-1")
      1
      (handle world positioner (approve 1 "c-1") (with_log waiting log_3)).0
      (handle world positioner (approve 1 "c-1") (with_log waiting log_3)).1.stored
unfolding string_dec
handle-Done_example =
    handle-Done world positioner (with_log waiting log_3) (approve 1 "c-1") (λ db. refl) refl ready

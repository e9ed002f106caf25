-- ===== src/Requests/Progress/Approvals.antt =====
-- The operations of `ApprovalService`, where their guards are met.
use fx_deal_manager.Prelude.{
  ℕ, String, ◌≡◌, ◌≢◌, refl, ◌∙◌, true, false, ◌&&◌, Option, some, [], is_blank,
}
use fx_deal_manager.Domain.{
  draft, waiting_for_positioner, approved, rejected, executed, valid, is_return, ApprovalDecision,
  FxDeal, UserClaims,
}
use fx_deal_manager.Limits.{check}
use fx_deal_manager.Store.{Database, Environment, find}
use fx_deal_manager.Store.Rows.{is_some-find-put}
use fx_deal_manager.Store.Steps.{
  Ends, Ends-ok, Ends-pure, Ends-gets, Ends-emit, Ends-write, Ends-set_deal_state,
}
use fx_deal_manager.Store.Calm.{Ends-pass, Ends-given, log_ok, commit_ok, save_existing_ok}
use fx_deal_manager.Approval.{
  require_trader, require_positioner, respond, save_solution, submit_deal, execute_deal,
  finish_approval, approve_deal, positioner_decision, take_for_edit, cancel_deal,
}
use fx_deal_manager.Lifecycle.{IsTrader, IsPositioner, answer}
use fx_deal_manager.Requests.{open_session}
use fx_deal_manager.Requests.Progress.{
  trader_passes, positioner_passes, other_passes, Q, load_ok, no_issues_ok, move_served, present,
}

module _ (env : Environment) (accepting : (db : Database) → env.accepts db ≡ true)
    (user : UserClaims) (db : Database) where
  pub submit_deal_served :
      (id : ℕ) (d : FxDeal)
      → find id db.deals ≡ some d
      → IsTrader d user
      → d.deal_state ≡ draft
      → d.validation_status ≡ valid
      → check db.deal_limits d ≡ some []
      → Ends Q (submit_deal env id user (open_session db))
  unfolding submit_deal require_trader
  submit_deal_served id d found trader state verdict limits =
      Ends-ok Q _ _ _ _ _ (load_ok env accepting id _ d found) (
        Ends-pass Q _ _ _ _ (trader_passes d user trader) (
          Ends-pass Q _ _ _ _ (rw state refl) (
            Ends-pass Q _ _ _ _ (rw verdict refl) (
              Ends-gets Q _ _ _ (
                Ends-given Q _ _ _ _ _ limits (
                  Ends-ok Q _ _ _ _ _ (no_issues_ok env accepting d user [] _ refl)
                    (move_served env accepting d _ _ _ (present db id d found))))))))

  pub take_for_edit_served :
      (id : ℕ) (d : FxDeal)
      → find id db.deals ≡ some d
      → IsTrader d user
      → d.deal_state ≡ rejected
      → Ends Q (take_for_edit env id user (open_session db))
  unfolding take_for_edit require_trader
  take_for_edit_served id d found trader state =
      Ends-ok Q _ _ _ _ _ (load_ok env accepting id _ d found) (
        Ends-pass Q _ _ _ _ (trader_passes d user trader) (
          Ends-pass Q _ _ _ _ (rw state refl)
            (move_served env accepting d _ _ _ (present db id d found))))

  pub cancel_deal_served :
      (id : ℕ) (comment : Option String) (d : FxDeal)
      → find id db.deals ≡ some d
      → IsTrader d user
      → d.deal_state ≡ draft
      → Ends Q (cancel_deal env id comment user (open_session db))
  unfolding cancel_deal require_trader
  cancel_deal_served id comment d found trader state =
      Ends-ok Q _ _ _ _ _ (load_ok env accepting id _ d found) (
        Ends-pass Q _ _ _ _ (trader_passes d user trader) (
          Ends-pass Q _ _ _ _ (rw state refl)
            (move_served env accepting d _ _ _ (present db id d found))))

  pub positioner_decision_served :
      (id : ℕ) (decision : ApprovalDecision) (comment : Option String) (d : FxDeal)
      → find id db.deals ≡ some d
      → IsPositioner user
      → d.deal_state ≡ waiting_for_positioner
      → (is_return decision && is_blank comment) ≡ false
      → Ends Q (positioner_decision env id user decision comment (open_session db))
  unfolding positioner_decision require_positioner save_solution respond
  positioner_decision_served id decision comment d found role state commented =
      Ends-ok Q _ _ _ _ _ (load_ok env accepting id _ d found) (
        Ends-pass Q _ _ _ _ (positioner_passes user role) (
          Ends-pass Q _ _ _ _ (rw state refl) (
            Ends-pass Q _ _ _ _ commented (
              Ends-write Q env _ _ _ (
                Ends-set_deal_state Q env _ rejected _ _ (
                  Ends-write Q env _ _ _ (
                    Ends-ok Q _ _ _ _ _
                      (save_existing_ok env accepting _ _ (
                        is_some-find-put d.id _ _
                        ∙ is_some-find-put d.id _ _
                        ∙ is_some-find-put d.id _ _
                        ∙ present db id d found))
                      (Ends-ok Q _ _ _ _ _ (log_ok env accepting _ _) (
                        Ends-ok Q _ _ _ _ _ (commit_ok env accepting _)
                          (Ends-gets Q _ _ _ (Ends-pure Q _ _ (_, refl))))))))))))

  pub approve_deal_served :
      (id : ℕ) (c : String) (d : FxDeal)
      → find id db.deals ≡ some d
      → IsPositioner user
      → d.deal_state ≡ waiting_for_positioner
      → d.trader_id ≢ user.user_id
      → (answer env c d user).success ≡ true
      → Ends Q (approve_deal env id c user (open_session db))
  unfolding approve_deal require_positioner save_solution finish_approval execute_deal
  approve_deal_served id c d found role state other taken =
      Ends-ok Q _ _ _ _ _ (load_ok env accepting id _ d found) (
        Ends-pass Q _ _ _ _ (positioner_passes user role) (
          Ends-pass Q _ _ _ _ (rw state refl) (
            Ends-pass Q _ _ _ _ (other_passes d user other) (
              Ends-write Q env _ _ _ (
                Ends-set_deal_state Q env _ approved _ _ (
                  Ends-write Q env _ _ _ (
                    Ends-emit Q _ _ _ (
                      Ends-ok Q _ _ _ _ _ (log_ok env accepting _ _) (
                        rw taken (
                          move_served env accepting _ executed _ _ (
                            is_some-find-put d.id _ _
                            ∙ is_some-find-put d.id _ _
                            ∙ is_some-find-put d.id _ _
                            ∙ present db id d found)))))))))))

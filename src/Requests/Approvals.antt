-- ===== src/Requests/Approvals.antt =====
-- The operations of `ApprovalService` against the moves of Lifecycle.
use mathlib.Core.List.{append_assoc}
use fx_deal_manager.Prelude.{
  ℕ, String, ◌≡◌, refl, ◌≢◌, ◌⊎◌, inl, inr, Bool, true, false, Option, none, some, [], ◌∷◌, ◌++◌,
}
use fx_deal_manager.Domain.{
  draft, waiting_for_positioner, approved, rejected, executed, cancelled, ApprovalDecision,
  return_for_edit, reject, FxDeal, UserClaims, DealResponse,
}
use fx_deal_manager.Store.{
  Database, AuditValue, AuditAction, Environment, Session, Error, Result, err, find, put, at_rest,
}
use fx_deal_manager.Store.Rows.{put-put, third_put}
use fx_deal_manager.Store.Steps.{
  Ends, Ends-pure, Ends-raise, Ends-raise_if, Ends-gets, Ends-or_raise, Ends-emit, Ends-write,
  Ends-set_deal_state, Ends-log, Ends-commit, Ends-save_existing,
}
use fx_deal_manager.Deals.{entry}
use fx_deal_manager.Deals.Steps.{Ends-load, Ends-refuse_issues}
use fx_deal_manager.Approval.{
  require_trader, require_positioner, respond, save_solution, submit_deal, execute_deal,
  finish_approval, approve_deal, positioner_decision, return_deal, reject_deal, take_for_edit,
  cancel_deal,
}
use fx_deal_manager.Lifecycle.{
  IsPositioner, invalidated, submitted, approved_executed, approved_unsent, sent_back, taken_back,
  called_off, decided, answer,
}
use fx_deal_manager.Lifecycle.Outcome.{
  Kind, submitting, taking_back, executing, deciding, calling_off, Moved, by-Move, IsOutcome,
  to_response-IsAnswer, done, failed, served, marked, unsent,
}
use fx_deal_manager.Requests.Opening.{open_session}
use fx_deal_manager.Requests.Guards.{
  draft_only, waiting_only, rejected_only, valid_only, IsTrader-only, IsPositioner-only, other_only,
  same_tables,
}

module _ (env : Environment) (user : UserClaims) (db : Database) where
  abbrev Refines : Kind → ℕ → Result DealResponse → Session → Type 0
  Refines = IsOutcome env user db

  quiet : (k : Kind) (id : ℕ) (x : Error) (u : Session) → u.stored ≡ db → Refines k id (err x) u
  quiet k id x u e = failed x refl e

  -- The answer of `_to_response` describes the deal that has moved.
  Ends-respond :
      (k : Kind) (id : ℕ) (d : FxDeal) (t : Session)
      → Moved env user db k id d t.stored
      → Ends (Refines k id) (respond env d t)
  unfolding respond
  Ends-respond k id d t m =
      Ends-gets (Refines k id) _ _ t
        (Ends-pure (Refines k id) _ t (done (served d _ m refl (to_response-IsAnswer d _ _))))

  pub submit_deal-Refines :
      (id : ℕ) → Ends (Refines submitting id) (submit_deal env id user (open_session db))
  unfolding submit_deal require_trader
  submit_deal-Refines id =
      let Q = Refines submitting id in
      let q = quiet submitting id in
      Ends-load Q db q env id _ _ refl λ d found.
        Ends-raise_if Q _ _ _ _ (λ _. failed _ refl refl)
          λ trader.
            Ends-raise_if Q _ _ _ _ (λ _. failed _ refl refl)
              λ state.
                Ends-raise_if Q _ _ _ _ (λ _. failed _ refl refl)
                  λ verdict. Ends-gets Q _ _ _ (
                    Ends-or_raise Q _ _ _ _ (λ _. failed _ refl refl)
                      λ over checked.
                        Ends-refuse_issues Q db q env d user over _ _ refl
                          (λ some_over.
                            marked _ over
                              (by-Move env user db d _ _ found
                                (invalidated over (IsTrader-only d user trader) some_over refl refl)
                                refl refl)
                              refl refl)
                          λ none_over. Ends-set_deal_state Q env d waiting_for_positioner _ _ (
                            Ends-save_existing Q db q env _ _ _ refl (
                              Ends-log Q db q env _ _ _ refl (
                                Ends-commit Q db q env _ _ refl (
                                  Ends-respond submitting id _ _ (
                                    by-Move env user db d _ _ found
                                      (submitted (IsTrader-only d user trader) (draft_only _ state)
                                        (valid_only _ verdict) (rw none_over at checked) refl refl)
                                      refl refl))))))

  pub take_for_edit-Refines :
      (id : ℕ) → Ends (Refines taking_back id) (take_for_edit env id user (open_session db))
  unfolding take_for_edit require_trader
  take_for_edit-Refines id =
      let Q = Refines taking_back id in
      let q = quiet taking_back id in
      Ends-load Q db q env id _ _ refl λ d found.
        Ends-raise_if Q _ _ _ _ (λ _. failed _ refl refl)
          λ trader.
            Ends-raise_if Q _ _ _ _ (λ _. failed _ refl refl)
              λ state. Ends-set_deal_state Q env d draft _ _ (
                Ends-save_existing Q db q env _ _ _ refl (
                  Ends-log Q db q env _ _ _ refl (
                    Ends-commit Q db q env _ _ refl (
                      Ends-respond taking_back id _ _ (
                        by-Move env user db d _ _ found
                          (taken_back (IsTrader-only d user trader) (rejected_only _ state) refl
                            refl)
                          refl refl)))))

  pub cancel_deal-Refines :
      (id : ℕ) (comment : Option String)
      → Ends (Refines (calling_off comment) id) (cancel_deal env id comment user (open_session db))
  unfolding cancel_deal require_trader
  cancel_deal-Refines id comment =
      let Q = Refines (calling_off comment) id in
      let q = quiet (calling_off comment) id in
      Ends-load Q db q env id _ _ refl λ d found.
        Ends-raise_if Q _ _ _ _ (λ _. failed _ refl refl)
          λ trader.
            Ends-raise_if Q _ _ _ _ (λ _. failed _ refl refl)
              λ state. Ends-set_deal_state Q env d cancelled _ _ (
                Ends-save_existing Q db q env _ _ _ refl (
                  Ends-log Q db q env _ _ _ refl (
                    Ends-commit Q db q env _ _ refl (
                      Ends-respond (calling_off comment) id _ _ (
                        by-Move env user db d _ _ found
                          (called_off comment (IsTrader-only d user trader) (draft_only _ state)
                            refl refl)
                          refl refl)))))

  positioner_decision-Refines :
      (id : ℕ) (decision : ApprovalDecision) (comment : Option String)
      → (decision ≡ return_for_edit) ⊎ (decision ≡ reject)
      → Ends
          (Refines (deciding decision comment) id)
          (positioner_decision env id user decision comment (open_session db))
  unfolding positioner_decision require_positioner save_solution
  positioner_decision-Refines id decision comment kind =
      let Q = Refines (deciding decision comment) id in
      let q = quiet (deciding decision comment) id in
      Ends-load Q db q env id _ _ refl λ d found.
        Ends-raise_if Q _ _ _ _ (λ _. failed _ refl refl)
          λ role.
            Ends-raise_if Q _ _ _ _ (λ _. failed _ refl refl)
              λ state.
                Ends-raise_if Q _ _ _ _ (λ _. failed _ refl refl)
                  λ commented. Ends-write Q env _ _ _ (
                    Ends-set_deal_state Q env _ rejected _ _ (
                      Ends-write Q env _ _ _ (
                        Ends-save_existing Q db q env _ _ _ refl (
                          Ends-log Q db q env _ _ _ refl (
                            Ends-commit Q db q env _ _ refl (
                              Ends-respond (deciding decision comment) id _ _ (
                                by-Move env user db d (decided d user rejected decision comment) _
                                  found
                                  (sent_back decision comment kind (IsPositioner-only user role)
                                    (waiting_only _ state) refl refl)
                                  refl
                                  (same_tables db (third_put _ _ _ db.deals refl refl) refl))))))))

  pub return_deal-Refines :
      (id : ℕ) (comment : String)
      → Ends
          (Refines (deciding return_for_edit (some comment)) id)
          (return_deal env id comment user (open_session db))
  unfolding return_deal
  return_deal-Refines id comment =
      positioner_decision-Refines id return_for_edit (some comment) (inl refl)

  pub reject_deal-Refines :
      (id : ℕ) (comment : Option String)
      → Ends
          (Refines (deciding reject comment) id)
          (reject_deal env id comment user (open_session db))
  unfolding reject_deal
  reject_deal-Refines id comment = positioner_decision-Refines id reject comment (inr refl)

  finish_approval-Refines :
      (id : ℕ) (correlation_id : String) (d : FxDeal) (ok_sent : Bool) (t : Session)
      → (answer env correlation_id d user).success ≡ ok_sent
      → find id db.deals ≡ some d
      → IsPositioner user
      → d.deal_state ≡ waiting_for_positioner
      → d.trader_id ≢ user.user_id
      → t.stored ≡ db
      → t.current ≡ record db {
        deals = put (at_rest env (decided d user approved ApprovalDecision.approve none)) db.deals;
        audit_log =
            db.audit_log
            ++ (entry d user AuditAction.position_send none
                  (AuditValue.sent (answer env correlation_id d user))
                ∷ []);
      }
      → Ends (Refines (executing correlation_id) id) (
          finish_approval env d
            (decided d user approved ApprovalDecision.approve none)
            user
            (answer env correlation_id d user)
            ok_sent
            t)
  unfolding finish_approval execute_deal
  finish_approval-Refines id c d true t sent found role state other kept now =
      let Q = Refines (executing c) id in
      let q = quiet (executing c) id in
      Ends-set_deal_state Q env _ executed _ _ (
        Ends-save_existing Q db q env _ _ _ kept (
          Ends-log Q db q env _ _ _ kept (
            Ends-commit Q db q env _ _ kept (
              Ends-respond (executing c) id _ _ (
                by-Move env user db d (decided d user executed ApprovalDecision.approve none) _
                  found (approved_executed c role state other sent refl refl) refl
                  (rw now (
                    same_tables db (put-put _ _ db.deals refl)
                      (append_assoc db.audit_log _ _))))))))
  finish_approval-Refines id c d false t sent found role state other kept now =
      let Q = Refines (executing c) id in
      let q = quiet (executing c) id in
      Ends-commit Q db q env _ _ kept (
        Ends-raise Q _ _ (
          unsent d _ c found
            (by-Move env user db d _ _ found (approved_unsent c role state other sent refl refl)
              refl now)
            refl refl))

  pub approve_deal-Refines :
      (id : ℕ) (correlation_id : String)
      → Ends
          (Refines (executing correlation_id) id)
          (approve_deal env id correlation_id user (open_session db))
  unfolding approve_deal require_positioner save_solution
  approve_deal-Refines id c =
      let Q = Refines (executing c) id in
      let q = quiet (executing c) id in
      Ends-load Q db q env id _ _ refl λ d found.
        Ends-raise_if Q _ _ _ _ (λ _. failed _ refl refl)
          λ role.
            Ends-raise_if Q _ _ _ _ (λ _. failed _ refl refl)
              λ state.
                Ends-raise_if Q _ _ _ _ (λ _. failed _ refl refl)
                  λ other. Ends-write Q env _ _ _ (
                    Ends-set_deal_state Q env _ approved _ _ (
                      Ends-write Q env _ _ _ (
                        Ends-emit Q _ _ _ (
                          Ends-log Q db q env _ _ _ refl (
                            finish_approval-Refines id c d (answer env c d user).success _ refl
                              found (IsPositioner-only user role) (waiting_only _ state)
                              (other_only d user other) refl
                              (same_tables db (third_put _ _ _ db.deals refl refl) refl))))))

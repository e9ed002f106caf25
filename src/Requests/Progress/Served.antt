-- ===== src/Requests/Progress/Served.antt =====
-- Requests that are served: each with what its guards ask for.
use fx_deal_manager.Prelude.{
  ℕ, String, ◌≡◌, ◌≢◌, refl, ap, true, false, not, Option, none, some, List, [], is_blank,
}
use fx_deal_manager.Domain.{
  draft, waiting_for_positioner, rejected, valid, ApprovalDecision, return_for_edit, FxDeal,
  Payment, UserClaims, DealCreateRequest, DealUpdateRequest, DealResponse, value,
}
use fx_deal_manager.Limits.{check}
use fx_deal_manager.Store.{Database, Environment, ok, find}
use fx_deal_manager.Store.Steps.{Ends}
use fx_deal_manager.Store.Calm.{Ends-pass}
use fx_deal_manager.Deals.{apply_updates}
use fx_deal_manager.Approval.{return_deal, reject_deal}
use fx_deal_manager.Lifecycle.{IsKnown, IsTrader, IsPositioner, IsChecked, answer}
use fx_deal_manager.Requests.{open_session}
use fx_deal_manager.Lifecycle.Outcome.{Done, Outcome-Done}
use fx_deal_manager.Requests.{
  Request, create, update, validate, submit, take_back, approve, return, reject, cancel, one_of,
  roles, require_role, serve, dispatch, handle,
}
use fx_deal_manager.Requests.Refinement.{target, aim, handle-Outcome}
use fx_deal_manager.Requests.Progress.{Q}
use fx_deal_manager.Requests.Progress.Approvals.{
  submit_deal_served, take_for_edit_served, cancel_deal_served, positioner_decision_served,
  approve_deal_served,
}
use fx_deal_manager.Requests.Progress.Edits.{
  create_deal_served, update_deal_served, validate_deal_served,
}

module _ (env : Environment) (user : UserClaims) (db : Database) where
  -- What a request finds when its guards let it through.
  pub data Ready : Request → Type 0 where
    ready_create :
        (id : ℕ) (payload : DealCreateRequest)
        → find id db.deals ≡ none
        → IsKnown db (value payload.counterparty_id)
        → Ready (create id payload)
    ready_update :
        (id : ℕ) (payload : DealUpdateRequest) (d c : FxDeal)
        → find id db.deals ≡ some d
        → d.deal_state ≡ draft
        → d.trader_id ≡ user.user_id
        → IsKnown db payload.counterparty_id
        → apply_updates payload d ≡ some c
        → Ready (update id payload)
    ready_validate :
        (id : ℕ) (d : FxDeal) (day : ℕ) (rows : List Payment)
        → env.payment_save_fault_after ≡ none
        → find id db.deals ≡ some d
        → IsTrader d user
        → IsChecked env db d day rows
        → Ready (validate id)
    ready_submit :
        (id : ℕ) (d : FxDeal)
        → find id db.deals ≡ some d
        → IsTrader d user
        → d.deal_state ≡ draft
        → d.validation_status ≡ valid
        → check db.deal_limits d ≡ some []
        → Ready (submit id)
    ready_take_back :
        (id : ℕ) (d : FxDeal)
        → find id db.deals ≡ some d
        → IsTrader d user
        → d.deal_state ≡ rejected
        → Ready (take_back id)
    ready_approve :
        (id : ℕ) (c : String) (d : FxDeal)
        → find id db.deals ≡ some d
        → IsPositioner user
        → d.deal_state ≡ waiting_for_positioner
        → d.trader_id ≢ user.user_id
        → (answer env c d user).success ≡ true
        → Ready (approve id c)
    ready_return :
        (id : ℕ) (comment : String) (d : FxDeal)
        → find id db.deals ≡ some d
        → IsPositioner user
        → d.deal_state ≡ waiting_for_positioner
        → is_blank (some comment) ≡ false
        → Ready (return id comment)
    ready_reject :
        (id : ℕ) (comment : Option String) (d : FxDeal)
        → find id db.deals ≡ some d
        → IsPositioner user
        → d.deal_state ≡ waiting_for_positioner
        → Ready (reject id comment)
    ready_cancel :
        (id : ℕ) (comment : Option String) (d : FxDeal)
        → find id db.deals ≡ some d
        → IsTrader d user
        → d.deal_state ≡ draft
        → Ready (cancel id comment)

  serve_served :
      (request : Request)
      → ((db : Database) → env.accepts db ≡ true)
      → Ready request
      → Ends Q (serve env user request (open_session db))
  unfolding serve return_deal reject_deal
  serve_served request a (ready_create id payload unused (row, h, active)) =
      create_deal_served env a user db id payload row unused h active
  serve_served request a (ready_update id payload d c found state creator known applied) =
      update_deal_served env a user db id payload d c found state creator known applied
  serve_served request a (ready_validate id d day rows no_fault found trader checked) =
      validate_deal_served env a user db id d day rows no_fault found trader checked
  serve_served request a (ready_submit id d found trader state verdict limits) =
      submit_deal_served env a user db id d found trader state verdict limits
  serve_served request a (ready_take_back id d found trader state) =
      take_for_edit_served env a user db id d found trader state
  serve_served request a (ready_approve id c d found role state other taken) =
      approve_deal_served env a user db id c d found role state other taken
  serve_served request a (ready_return id comment d found role state commented) =
      positioner_decision_served env a user db id return_for_edit (some comment) d found role state
        commented
  serve_served request a (ready_reject id comment d found role state) =
      positioner_decision_served env a user db id ApprovalDecision.reject comment d found role state
        refl
  serve_served request a (ready_cancel id comment d found trader state) =
      cancel_deal_served env a user db id comment d found trader state

  served :
      (request : Request)
      → ((db : Database) → env.accepts db ≡ true)
      → one_of user.role (roles request) ≡ true
      → Ready request
      → (a : DealResponse) × ((handle env user request db).0 ≡ ok a)
  unfolding handle dispatch require_role
  served request accepting allowed ready =
      (Ends-pass Q _ _ _ _ (ap not allowed) (serve_served request accepting ready)).holds

  -- What is asked for is done: where the database refuses nothing, a request by a user with a role of
  -- its route, which finds what its guards ask for, is answered with a deal; the deal has moved by the
  -- very move that the request is for, or is the new one, and is committed so, with its entries.
  pub handle-Done :
      (request : Request)
      → ((db : Database) → env.accepts db ≡ true)
      → one_of user.role (roles request) ≡ true
      → Ready request
      → (let (result, session) = handle env user request db in
          Done env user db (aim request) (target request) result session.stored)
  handle-Done request accepting allowed ready =
      let (a, e) = served request accepting allowed ready in
      Outcome-Done env user db (aim request) (target request) _ _ a
        (handle-Outcome env user db request) e

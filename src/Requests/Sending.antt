-- ===== src/Requests/Sending.antt =====
-- Which requests write to the position system, and what.
use fx_deal_manager.Prelude.{
  ℕ, String, ◌≡◌, ◌≢◌, refl, inl, inr, Bool, true, false, Option, none, some, List, [], ◌∷◌,
}
use fx_deal_manager.Domain.{
  FxDeal, Payment, UserClaims, DealCreateRequest, DealUpdateRequest, ApprovalDecision, Patch, unset,
  null, value, DealResponse, waiting_for_positioner, approved,
}
use fx_deal_manager.Issues.{ValidationIssue}
use fx_deal_manager.Settlement.{DateResult, date, value_error}
use fx_deal_manager.Position.{PositionSendResult, Effect, send_deal}
use fx_deal_manager.Store.{Database, Environment, Session, Error, Result, Action, find}
use fx_deal_manager.Store.Steps.{
  Ends, Ends-ok, Ends-err, Ends-raise_if, Ends-emit, Ends-write, Ends-set_deal_state,
}
use fx_deal_manager.Deals.Steps.{load_tries}
use fx_deal_manager.Lifecycle.{IsPositioner, decided}
use fx_deal_manager.Requests.{
  Request, create, update, validate, submit, take_back, approve, return, reject, cancel, serve,
  dispatch, require_role, open_session, handle,
}
use fx_deal_manager.Requests.Guards.{waiting_only, IsPositioner-only, other_only}
use fx_deal_manager.Store.Plain.{IsPlain, plain, IsPlain-bind, IsPlain-log}
use fx_deal_manager.Deals.{
  load_deal, require_counterparty, check_counterparty, refuse_issues, reject_validation,
  create_deal, update_deal, validate_deal, settle_deal, settle_on, store_validated, persist_failed,
}
use fx_deal_manager.Approval.{
  require_trader, require_positioner, respond, save_solution, submit_deal, positioner_decision,
  return_deal, reject_deal, take_for_edit, cancel_deal, approve_deal, finish_approval, execute_deal,
}

module _ (env : Environment) where
  IsPlain-load_deal : (id : ℕ) → IsPlain (load_deal env id)
  unfolding load_deal
  IsPlain-load_deal id = search plain

  IsPlain-require_counterparty : (key : String) → IsPlain (require_counterparty env key)
  unfolding require_counterparty
  IsPlain-require_counterparty key = search plain

  IsPlain-check_counterparty : (key : Patch String) → IsPlain (check_counterparty env key)
  unfolding check_counterparty
  IsPlain-check_counterparty unset = search plain
  IsPlain-check_counterparty null = search plain
  IsPlain-check_counterparty (value key) = IsPlain-require_counterparty key

  IsPlain-refuse_issues :
      (d : FxDeal) (user : UserClaims) (found : List ValidationIssue)
      → IsPlain (refuse_issues env d user found)
  unfolding refuse_issues reject_validation
  IsPlain-refuse_issues d user [] = search plain
  IsPlain-refuse_issues d user (found ∷ more) = search plain

  IsPlain-respond : (d : FxDeal) → IsPlain (respond env d)
  unfolding respond
  IsPlain-respond d = search plain

  ruleset quiet_rules = (
    plain, IsPlain-load_deal, IsPlain-require_counterparty, IsPlain-check_counterparty,
    IsPlain-refuse_issues, IsPlain-respond,
  )

  pub IsPlain-create_deal :
      (id : ℕ) (payload : DealCreateRequest) (user : UserClaims)
      → IsPlain (create_deal env id payload user)
  unfolding create_deal
  IsPlain-create_deal id payload user = search quiet_rules depth 30

  pub IsPlain-update_deal :
      (id : ℕ) (payload : DealUpdateRequest) (user : UserClaims)
      → IsPlain (update_deal env id payload user)
  unfolding update_deal
  IsPlain-update_deal id payload user = search quiet_rules depth 30

  IsPlain-store_validated :
      (d : FxDeal) (user : UserClaims) (day : ℕ) (rows : List Payment)
      → IsPlain (store_validated env d user day rows)
  unfolding store_validated
  IsPlain-store_validated d user day rows = search quiet_rules depth 30

  IsPlain-persist_failed : (e : Error) → IsPlain (persist_failed env e)
  unfolding persist_failed
  IsPlain-persist_failed e = search quiet_rules depth 30

  IsPlain-settle_on :
      (d : FxDeal) (user : UserClaims) (day : DateResult) → IsPlain (settle_on env d user day)
  unfolding settle_on
  IsPlain-settle_on d user (value_error message) = search quiet_rules depth 30
  IsPlain-settle_on d user (date day) =
      search (quiet_rules, IsPlain-store_validated, IsPlain-persist_failed) depth 30

  IsPlain-settle_deal : (d : FxDeal) (user : UserClaims) → IsPlain (settle_deal env d user)
  unfolding settle_deal
  IsPlain-settle_deal d user = search (quiet_rules, IsPlain-settle_on) depth 30

  pub IsPlain-validate_deal : (id : ℕ) (user : UserClaims) → IsPlain (validate_deal env id user)
  unfolding validate_deal
  IsPlain-validate_deal id user = search (quiet_rules, IsPlain-settle_deal) depth 30

  pub IsPlain-submit_deal : (id : ℕ) (user : UserClaims) → IsPlain (submit_deal env id user)
  unfolding submit_deal require_trader
  IsPlain-submit_deal id user = search quiet_rules depth 30

  pub IsPlain-take_for_edit : (id : ℕ) (user : UserClaims) → IsPlain (take_for_edit env id user)
  unfolding take_for_edit require_trader
  IsPlain-take_for_edit id user = search quiet_rules depth 30

  pub IsPlain-cancel_deal :
      (id : ℕ) (comment : Option String) (user : UserClaims)
      → IsPlain (cancel_deal env id comment user)
  unfolding cancel_deal require_trader
  IsPlain-cancel_deal id comment user = search quiet_rules depth 30

  IsPlain-positioner_decision :
      (id : ℕ) (user : UserClaims) (decision : ApprovalDecision) (comment : Option String)
      → IsPlain (positioner_decision env id user decision comment)
  unfolding positioner_decision require_positioner save_solution
  IsPlain-positioner_decision id user decision comment = search quiet_rules depth 30

  pub IsPlain-return_deal :
      (id : ℕ) (comment : String) (user : UserClaims) → IsPlain (return_deal env id comment user)
  unfolding return_deal
  IsPlain-return_deal id comment user = IsPlain-positioner_decision id user _ _

  pub IsPlain-reject_deal :
      (id : ℕ) (comment : Option String) (user : UserClaims)
      → IsPlain (reject_deal env id comment user)
  unfolding reject_deal
  IsPlain-reject_deal id comment user = IsPlain-positioner_decision id user _ _

  pub IsPlain-finish_approval :
      (d sent : FxDeal) (user : UserClaims) (result : PositionSendResult) (taken : Bool)
      → IsPlain (finish_approval env d sent user result taken)
  unfolding finish_approval execute_deal
  IsPlain-finish_approval d sent user result true = search quiet_rules depth 30
  IsPlain-finish_approval d sent user result false = search quiet_rules depth 30

module _ (env : Environment) (user : UserClaims) (db : Database) where
  -- What a request sends: nothing, or, for an approval, the payments of its deal.
  pub data Traffic (request : Request) (effects : List Effect) : Type 0 where
    none_sent : effects ≡ [] → Traffic request effects
    payments_sent :
        (id : ℕ) (c : String) (d : FxDeal)
        → request ≡ approve id c
        → find id db.deals ≡ some d
        → IsPositioner user
        → d.deal_state ≡ waiting_for_positioner
        → d.trader_id ≢ user.user_id
        → effects
          ≡ (send_deal env.gateway c (decided d user approved ApprovalDecision.approve none)).1
        → Traffic request effects

  abbrev IsTraffic : Request → Result DealResponse → Session → Type 0
  IsTraffic request r t = Traffic request t.effects

  quiet-IsTraffic :
      (request : Request) (m : Action DealResponse)
      → IsPlain m
      → Ends (IsTraffic request) (m (open_session db))
  quiet-IsTraffic request m i = record { holds = none_sent (i.at (open_session db)) }

  approve-IsTraffic :
      (id : ℕ) (c : String)
      → Ends (IsTraffic (approve id c)) (approve_deal env id c user (open_session db))
  unfolding approve_deal require_positioner save_solution
  approve-IsTraffic id c =
      let Q = IsTraffic (approve id c) in
      elim (load_tries env id (open_session db)) [
        | inl e ↦ Ends-err Q _ _ _ _ _ e (none_sent refl)
        | inr (d, e, found) ↦ Ends-ok Q _ _ _ _ d e (
            Ends-raise_if Q _ _ _ _ (λ _. none_sent refl)
              λ role.
                Ends-raise_if Q _ _ _ _ (λ _. none_sent refl)
                  λ state.
                    Ends-raise_if Q _ _ _ _ (λ _. none_sent refl)
                      λ other. Ends-write Q env _ _ _ (
                        Ends-set_deal_state Q env _ approved _ _ (
                          Ends-write Q env _ _ _ (
                            Ends-emit Q _ _ _ (record {
                              holds =
                                  payments_sent id c d refl found (IsPositioner-only user role)
                                    (waiting_only _ state) (other_only d user other)
                                    ((IsPlain-bind _ _ (IsPlain-log env _)
                                        λ _. IsPlain-finish_approval env _ _ _ _ _).at
                                      _);
                            })))))
      ]

  serve-IsTraffic :
      (request : Request) → Ends (IsTraffic request) (serve env user request (open_session db))
  unfolding serve
  serve-IsTraffic (create id payload) =
      quiet-IsTraffic _ _ (IsPlain-create_deal env id payload user)
  serve-IsTraffic (update id payload) =
      quiet-IsTraffic _ _ (IsPlain-update_deal env id payload user)
  serve-IsTraffic (validate id) = quiet-IsTraffic _ _ (IsPlain-validate_deal env id user)
  serve-IsTraffic (submit id) = quiet-IsTraffic _ _ (IsPlain-submit_deal env id user)
  serve-IsTraffic (take_back id) = quiet-IsTraffic _ _ (IsPlain-take_for_edit env id user)
  serve-IsTraffic (approve id c) = approve-IsTraffic id c
  serve-IsTraffic (return id comment) =
      quiet-IsTraffic _ _ (IsPlain-return_deal env id comment user)
  serve-IsTraffic (reject id comment) =
      quiet-IsTraffic _ _ (IsPlain-reject_deal env id comment user)
  serve-IsTraffic (cancel id comment) =
      quiet-IsTraffic _ _ (IsPlain-cancel_deal env id comment user)

  -- Money moves only so: a request writes nothing to the position system, or it is an approval, by a
  -- positioner, of a deal that waits for one and that another user has made, and what is written is
  -- the sending of that deal's payments.
  pub handle-Traffic : (request : Request) → Traffic request (handle env user request db).1.effects
  unfolding handle dispatch require_role
  handle-Traffic request =
      (Ends-raise_if (IsTraffic request) _ _ _ _ (λ _. none_sent refl)
        λ _. serve-IsTraffic request).holds

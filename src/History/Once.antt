-- ===== src/History/Once.antt =====
-- How often the payments of a deal are sent.
use mathlib.Core.Option.{some-injective}
use mathlib.Core.Path.{subst}
use fx_deal_manager.Prelude.{
  ℕ, String, ◌≡◌, ◌≢◌, refl, sym, ◌∙◌, ap, inl, inr, true, false, not, none, some, List, [], arith,
  Bool-cases, ==_iff,
}
use fx_deal_manager.Domain.{
  DealState, waiting_for_positioner, approved, executed, ApprovalDecision, FxDeal, UserClaims,
  DealResponse,
}
use fx_deal_manager.Store.{
  Database, AuditLogEntry, Environment, Session, Result, find, put, at_rest,
}
use fx_deal_manager.Store.Rows.{find-id, find-put}
use fx_deal_manager.Store.Steps.{
  Ends, Ends-ok, Ends-raise, Ends-emit, Ends-write, Ends-set_deal_state,
}
use fx_deal_manager.Store.Calm.{Ends-pass, log_ok, commit_ok}
use fx_deal_manager.Approval.{require_positioner, save_solution, finish_approval, approve_deal}
use fx_deal_manager.Lifecycle.{
  Move, edited, invalidated, validated, submitted, approved_executed, approved_unsent, sent_back,
  taken_back, called_off, IsPositioner, decided, answer,
}
use fx_deal_manager.Lifecycle.Outcome.{Kind, executing, kind, Moved, Done, served, created}
use fx_deal_manager.Requests.{
  Request, approve, one_of, positioners, open_session, handle, dispatch, serve, require_role,
}
use fx_deal_manager.Requests.Refinement.{target}
use fx_deal_manager.Requests.Sending.{none_sent, payments_sent, handle-Traffic}
use fx_deal_manager.Requests.Progress.{load_ok, positioner_passes, other_passes}
use fx_deal_manager.Requests.Progress.Served.{ready_approve, handle-Done}
use fx_deal_manager.History.{Requests, run}
use fx_deal_manager.History.Trail.{Move-id}
use fx_deal_manager.History.States.{is_final, run_final}

-- The deal is there, and in a state that it does not leave.
abbrev IsSettled : ℕ → Database → Type 0
IsSettled id db = (d : FxDeal) × (find id db.deals ≡ some d) × (is_final d.deal_state ≡ true)

pub find-put_own :
    (d old : FxDeal) (rows : List FxDeal)
    → find d.id rows ≡ some old
    → find d.id (put d rows) ≡ some d
find-put_own d old rows h = find-put d.id d old rows h ∙ rw ((==_iff d.id d.id).1 refl) refl

module _ (env : Environment) (user : UserClaims) (db : Database) where
  pub Move-executing :
      (c : String) (d d' : FxDeal) (es : List AuditLogEntry) (m : Move env user db d d' es)
      → kind env user db d d' es m ≡ executing c
      → d' ≡ decided d user executed ApprovalDecision.approve none
  Move-executing c d d' es (edited payload k s t a active e f) h = cc
  Move-executing c d d' es (invalidated found t n e f) h = cc
  Move-executing c d d' es (validated day rows t k e f) h = cc
  Move-executing c d d' es (submitted t s v k e f) h = cc
  Move-executing c d d' es (approved_executed k p s o a e f) h = e
  Move-executing c d d' es (approved_unsent k p s o a e f) h = cc
  Move-executing c d d' es (sent_back k w v p s e f) h = cc
  Move-executing c d d' es (taken_back t s e f) h = cc
  Move-executing c d d' es (called_off k t s e f) h = cc

  -- A deal that has moved is found as it has moved to.
  pub Moved-found :
      (k : Kind) (id : ℕ) (d' : FxDeal) (db' : Database)
      → Moved env user db k id d' db'
      → find id db'.deals ≡ some (at_rest env d')
  Moved-found k id d' db' m =
      let same_id = Move-id env user db m.d d' m.es m.move ∙ find-id id m.d db.deals m.found in
      let there = ap (λ j. find j db.deals) same_id ∙ m.found in
      ap (λ t. find id t.deals) m.stored
      ∙ ap (λ j. find j (put (at_rest env d') db.deals)) (sym same_id)
      ∙ find-put_own (at_rest env d') m.d db.deals there

  Done-IsSettled :
      (c : String) (id : ℕ) (r : Result DealResponse) (db' : Database)
      → Done env user db (executing c) id r db'
      → IsSettled id db'
  Done-IsSettled c id r db' (created payload a wrong unused active kept e f) = cc
  Done-IsSettled c id r db' (served d' a m e f) = (
    at_rest env d',
    Moved-found (executing c) id d' db' m,
    ap (λ x. is_final x.deal_state) (Move-executing c m.d d' m.es m.move m.kind_is),
  )

  module _ (accepting : (db : Database) → env.accepts db ≡ true) (id : ℕ) (c : String) (d : FxDeal)
      (found : find id db.deals ≡ some d) (role : IsPositioner user)
      (state : d.deal_state ≡ waiting_for_positioner) (other : d.trader_id ≢ user.user_id) where
    abbrev Settles : Result DealResponse → Session → Type 0
    Settles r t = IsSettled id t.stored

    -- Where the payments are not taken, the deal is stored as APPROVED.
    refused-IsSettled :
        (answer env c d user).success ≡ false
        → Ends Settles (approve_deal env id c user (open_session db))
    unfolding approve_deal require_positioner save_solution finish_approval
    refused-IsSettled refused =
        let own = ap (λ j. find j db.deals) (find-id id d db.deals found) ∙ found in
        let claimed = at_rest env (record d { positioner_id = some user.user_id }) in
        let moved =
          at_rest env (record d { positioner_id = some user.user_id; deal_state = approved }) in
        let last = at_rest env (decided d user approved ApprovalDecision.approve none) in
        let first = find-put_own claimed d db.deals own in
        let second = find-put_own moved claimed (put claimed db.deals) first in
        let third = find-put_own last moved (put moved (put claimed db.deals)) second in
        Ends-ok Settles _ _ _ _ _ (load_ok env accepting id _ d found) (
          Ends-pass Settles _ _ _ _ (positioner_passes user role) (
            Ends-pass Settles _ _ _ _ (rw state refl) (
              Ends-pass Settles _ _ _ _ (other_passes d user other) (
                Ends-write Settles env _ _ _ (
                  Ends-set_deal_state Settles env _ approved _ _ (
                    Ends-write Settles env _ _ _ (
                      Ends-emit Settles _ _ _ (
                        Ends-ok Settles _ _ _ _ _ (log_ok env accepting _ _) (
                          rw refused (
                            Ends-ok Settles _ _ _ _ _ (commit_ok env accepting _) (
                              Ends-raise Settles _ _ (
                                last,
                                ap (λ j. find j (put last (put moved (put claimed db.deals))))
                                      (sym (find-id id d db.deals found))
                                    ∙ third,
                                refl,
                              ))))))))))))

    -- An approval whose guards are met settles the deal, whatever the position system answers.
    approval-IsSettled :
        one_of user.role positioners ≡ true
        → IsSettled id (handle env user (approve id c) db).1.stored
    unfolding handle dispatch require_role serve
    approval-IsSettled allowed = elim (Bool-cases (answer env c d user).success) [
      | inl taken ↦ Done-IsSettled c id _ _ (
          handle-Done env user db (approve id c) accepting allowed
            (ready_approve id c d found role state other taken))
      | inr refused ↦ (Ends-pass Settles _ _ _ _ (ap not allowed) (refused-IsSettled refused)).holds
    ]

pub positioner_allowed :
    (user : UserClaims) → IsPositioner user → one_of user.role positioners ≡ true
positioner_allowed user h = ground arith

final_not_waiting : (s : DealState) → is_final s ≡ true → s ≢ waiting_for_positioner
final_not_waiting s h e = ground arith

-- A deal is paid for once: where the database refuses nothing, a request that has sent anything to the
-- position system is the last one that sends anything for its deal. Whatever requests follow, by any users,
-- a later request on that deal sends nothing.
pub sent_once :
    (env : Environment) (user user' : UserClaims) (request request' : Request) (rest : Requests)
    (db : Database)
    → ((t : Database) → env.accepts t ≡ true)
    → (handle env user request db).1.effects ≢ []
    → target request' ≡ target request
    → (let later = run env rest (handle env user request db).1.stored in
        (handle env user' request' later).1.effects ≡ [])
sent_once env user user' request request' rest db accepting sent same_target =
    elim (handle-Traffic env user db request) [
      | none_sent e ↦ elim (sent e) [ ]
      | payments_sent id c d is_approval found role state other effects ↦
          let settled =
            subst (λ r. IsSettled id (handle env user r db).1.stored) (sym is_approval)
              (approval-IsSettled env user db accepting id c d found role state other
                (positioner_allowed user role)) in
          let (y, found_y, final) = settled in
          let (z, found_z, same_deal) =
            run_final env rest (handle env user request db).1.stored id y found_y final in
          let later = run env rest (handle env user request db).1.stored in
          elim (handle-Traffic env user' later request') [
            | none_sent e ↦ e
            | payments_sent id' c' d' is_approval' found' role' state' other' effects' ↦
                let same_id = sym (ap target is_approval') ∙ same_target ∙ ap target is_approval in
                let same_row =
                  some-injective _ _
                    (sym found' ∙ ap (λ j. find j later.deals) same_id ∙ found_z) in
                elim (final_not_waiting d'.deal_state
                  (ap (λ x. is_final x.deal_state) same_row
                    ∙ ap is_final same_deal.deal_state
                    ∙ final)
                  state') [ ]
          ]
    ]

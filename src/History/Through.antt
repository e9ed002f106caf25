-- ===== src/History/Through.antt =====
-- The way of a deal from its draft to its execution.
use mathlib.Core.Option.{some-injective}
use mathlib.Core.Path.{subst}
use fx_deal_manager.Prelude.{
  inl, inr, ℕ, String, ◌≡◌, ◌≢◌, refl, sym, ◌∙◌, ap, true, none, some, List, [], ◌∷◌,
}
use fx_deal_manager.Domain.{
  draft, waiting_for_positioner, executed, valid, ApprovalDecision, FxDeal, Payment, UserClaims,
  DealResponse,
}
use fx_deal_manager.Settlement.{date}
use fx_deal_manager.Limits.{check}
use fx_deal_manager.Limits.Within.{check-terms}
use fx_deal_manager.Validation.Issueless.{validate_empty}
use fx_deal_manager.Position.Serving.{IsServing, send_deal_succeeds}
use fx_deal_manager.Store.{Database, AuditLogEntry, Environment, Result, find, at_rest}
use fx_deal_manager.Lifecycle.{
  Move, edited, invalidated, validated, submitted, approved_executed, approved_unsent, sent_back,
  taken_back, called_off, IsTrader, IsPositioner, IsChecked, decided,
}
use fx_deal_manager.Lifecycle.Outcome.{
  Kind, checking, submitting, executing, kind, Moved, Done, served, created,
}
use fx_deal_manager.Requests.{validate, submit, approve, one_of, traders, handle}
use fx_deal_manager.Requests.Progress.Served.{
  ready_validate, ready_submit, ready_approve, handle-Done,
}
use fx_deal_manager.History.{Requests, run, traffic}
use fx_deal_manager.History.Executed.{IsPaidFor, run-executed, draft_not}
use fx_deal_manager.History.Once.{Moved-found, Move-executing, positioner_allowed}

module _ (env : Environment) (user : UserClaims) (db : Database) where
  Move-checking :
      (d d' : FxDeal) (es : List AuditLogEntry) (m : Move env user db d d' es)
      → kind env user db d d' es m ≡ checking
      → (day : ℕ) × (rows : List Payment) × IsChecked env db d day rows
        × (d' ≡ record d { value_date = some day; validation_status = valid; payments = rows })
  Move-checking d d' es (edited payload k s t a active e f) h = cc
  Move-checking d d' es (invalidated found t n e f) h = cc
  Move-checking d d' es (validated day rows t k e f) h = (day, rows, k, e)
  Move-checking d d' es (submitted t s v k e f) h = cc
  Move-checking d d' es (approved_executed k p s o a e f) h = cc
  Move-checking d d' es (approved_unsent k p s o a e f) h = cc
  Move-checking d d' es (sent_back k w v p s e f) h = cc
  Move-checking d d' es (taken_back t s e f) h = cc
  Move-checking d d' es (called_off k t s e f) h = cc

  Move-submitting :
      (d d' : FxDeal) (es : List AuditLogEntry) (m : Move env user db d d' es)
      → kind env user db d d' es m ≡ submitting
      → d' ≡ record d { deal_state = waiting_for_positioner }
  Move-submitting d d' es (edited payload k s t a active e f) h = cc
  Move-submitting d d' es (invalidated found t n e f) h = cc
  Move-submitting d d' es (validated day rows t k e f) h = cc
  Move-submitting d d' es (submitted t s v k e f) h = e
  Move-submitting d d' es (approved_executed k p s o a e f) h = cc
  Move-submitting d d' es (approved_unsent k p s o a e f) h = cc
  Move-submitting d d' es (sent_back k w v p s e f) h = cc
  Move-submitting d d' es (taken_back t s e f) h = cc
  Move-submitting d d' es (called_off k t s e f) h = cc

  Done-Moved :
      (k : Kind) (id : ℕ) (r : Result DealResponse) (db' : Database) (d : FxDeal)
      → find id db.deals ≡ some d
      → Done env user db k id r db'
      → (d' : FxDeal) × Moved env user db k id d' db'
  Done-Moved k id r db' d found (served d' a m e f) = (d', m)
  Done-Moved k id r db' d found (created payload a e unused active kept f s) = cc

same_day : (day day' : ℕ) → date day ≡ date day' → day ≡ day'
same_day day day' h = cc

-- The deal as each of the three requests leaves it.
abbrev ready_deal : Environment → FxDeal → ℕ → List Payment → FxDeal
ready_deal env d day paid =
    at_rest env (record d { value_date = some day; validation_status = valid; payments = paid })

abbrev waiting_deal : Environment → FxDeal → FxDeal
waiting_deal env d = at_rest env (record d { deal_state = waiting_for_positioner })

abbrev executed_deal : Environment → FxDeal → UserClaims → FxDeal
executed_deal env d user = at_rest env (decided d user executed ApprovalDecision.approve none)

module _ (env : Environment) (accepting : (t : Database) → env.accepts t ≡ true) (user : UserClaims)
    (db : Database) (id : ℕ) (d : FxDeal) (found : find id db.deals ≡ some d) where
  own : (k : Kind) (d' : FxDeal) (db' : Database) (m : Moved env user db k id d' db') → m.d ≡ d
  own k d' db' m = some-injective _ _ (sym m.found ∙ found)

  validated_then :
      (day : ℕ) (rows : List Payment)
      → env.payment_save_fault_after ≡ none
      → one_of user.role traders ≡ true
      → IsTrader d user
      → IsChecked env db d day rows
      → (let t = (handle env user (validate id) db).1.stored in
          (paid : List Payment) × (find id t.deals ≡ some (ready_deal env d day paid))
          × (t.deal_limits ≡ db.deal_limits))
  validated_then day rows no_fault role creator ok =
      let (d', m) = Done-Moved env user db checking id _ _ d found (
        handle-Done env user db (validate id) accepting role
          (ready_validate id d day rows no_fault found creator ok)) in
      let (day', paid, checked, e) = Move-checking env user db m.d d' m.es m.move m.kind_is in
      let same = own checking d' _ m in
      let again = subst (λ x. IsChecked env db x day' paid) same checked in
      let then = same_day day' day (sym again.settles ∙ ok.settles) in
      (
        paid,
        Moved-found env user db checking id d' _ m
            ∙ ap (λ x. some (at_rest env x)) e
            ∙ ap (λ x. some (ready_deal env x day' paid)) same
            ∙ ap (λ t. some (ready_deal env d t paid)) then,
        ap (λ t. t.deal_limits) m.stored,
      )

  submitted_then :
      one_of user.role traders ≡ true
      → IsTrader d user
      → d.deal_state ≡ draft
      → d.validation_status ≡ valid
      → check db.deal_limits d ≡ some []
      → find id (handle env user (submit id) db).1.stored.deals ≡ some (waiting_deal env d)
  submitted_then role creator state verdict limits =
      let (d', m) = Done-Moved env user db submitting id _ _ d found (
        handle-Done env user db (submit id) accepting role
          (ready_submit id d found creator state verdict limits)) in
      Moved-found env user db submitting id d' _ m
      ∙ ap (λ x. some (at_rest env x)) (Move-submitting env user db m.d d' m.es m.move m.kind_is)
      ∙ ap (λ x. some (waiting_deal env x)) (own submitting d' _ m)

  executed_then :
      (c : String)
      → IsServing env.gateway
      → IsPositioner user
      → d.deal_state ≡ waiting_for_positioner
      → d.trader_id ≢ user.user_id
      → find id (handle env user (approve id c) db).1.stored.deals ≡ some (executed_deal env d user)
  executed_then c serving role state other =
      let (d', m) = Done-Moved env user db (executing c) id _ _ d found (
        handle-Done env user db (approve id c) accepting (positioner_allowed user role) (
          ready_approve id c d found role state other
            (send_deal_succeeds env.gateway serving _ c))) in
      Moved-found env user db (executing c) id d' _ m
      ∙ ap (λ x. some (at_rest env x)) (Move-executing env user db c m.d d' m.es m.move m.kind_is)
      ∙ ap (λ x. some (executed_deal env x user)) (own (executing c) d' _ m)

-- The three requests that take a deal from its draft to its execution.
abbrev pub three : UserClaims → UserClaims → ℕ → String → Requests
three trader positioner id c =
    (trader, validate id) ∷ (trader, submit id) ∷ (positioner, approve id c) ∷ []

-- A deal goes through: where the database refuses nothing, no fault is injected and the position system takes
-- what it is sent, a deal whose checks succeed, with its amount and rate as the columns hold them, is
-- executed once its creator or an administrator has validated and submitted it and a positioner other than
-- its creator has approved it. It has the value date that settlement gives, names that positioner, and what
-- the three requests sent has a POST of each of its payments that the position system took.
pub executed_in_three :
    (env : Environment) (trader positioner : UserClaims) (db : Database) (id : ℕ) (c : String)
    (d : FxDeal) (day : ℕ) (rows : List Payment)
    → ((t : Database) → env.accepts t ≡ true)
    → env.payment_save_fault_after ≡ none
    → IsServing env.gateway
    → find id db.deals ≡ some d
    → env.numeric 2 d.amount ≡ d.amount
    → env.numeric 6 d.rate ≡ d.rate
    → one_of trader.role traders ≡ true
    → IsTrader d trader
    → IsChecked env db d day rows
    → IsPositioner positioner
    → d.trader_id ≢ positioner.user_id
    → (d' : FxDeal) × (find id (run env (three trader positioner id c) db).deals ≡ some d')
      × (d'.deal_state ≡ executed)
      × (d'.value_date ≡ some day)
      × (d'.positioner_id ≡ some positioner.user_id)
      × IsPaidFor env (traffic env (three trader positioner id c) db) d'
unfolding run
executed_in_three env trader positioner db id c d day rows accepting no_fault serving found amount
      rate role creator ok positions other =
    let sound = (validate_empty d _ _).0 ok.clean in
    let (paid, found1, limits1) =
      validated_then env accepting trader db id d found day rows no_fault role creator ok in
    let ready = ready_deal env d day paid in
    let limits =
      ap (λ l. check l ready) limits1
      ∙ check-terms db.deal_limits d ready refl refl refl amount rate
      ∙ ok.within_limits in
    let found2 =
      submitted_then env accepting trader _ id ready found1 role creator sound.state refl limits in
    let found3 =
      executed_then env accepting positioner _ id (waiting_deal env ready) found2 c serving
        positions refl other in
    let final = executed_deal env (waiting_deal env ready) positioner in
    (
      final,
      found3,
      refl,
      refl,
      refl,
      elim (run-executed env (three trader positioner id c) db id final found3 refl) [
        | inl (before, there, was, terms) ↦
            let same = some-injective _ _ (sym there ∙ found) in
            elim (draft_not _ sound.state (ap (λ x. x.deal_state) (sym same) ∙ was)) [ ]
        | inr paid ↦ paid
      ],
    )

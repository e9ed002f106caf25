-- ===== src/Lifecycle.antt =====
-- What the services promise about a deal, stated without sessions: the moves of a deal's life, each
-- with the audit entries that it leaves, and what one request may commit. The refinement is in
-- Requests; the invariants of the life cycle are in the children.
pub mod Outcome
use fx_deal_manager.Prelude.{
  ℕ, ◌+◌, String, ◌≡◌, ◌≢◌, ◌⊎◌, true, false, Option, none, some, List, [], ◌∷◌, ◌++◌, length,
}
use fx_deal_manager.Domain.{
  DealState, draft, waiting_for_positioner, approved, rejected, executed, cancelled, valid, invalid,
  not_validated, ApprovalDecision, Payment, FxDeal, UserClaims, DealCreateRequest,
  DealUpdateRequest, Patch, unset, null, value, Counterparty, return_for_edit, reject,
}
use fx_deal_manager.Issues.{ValidationIssue}
use fx_deal_manager.Validation
use fx_deal_manager.Settlement.{date, calculate_value_date}
use fx_deal_manager.Limits.{check}
use fx_deal_manager.Payments.{CalculatedPayment, calculate, assign}
use fx_deal_manager.Nsi.{get_counterparty, currencies_by_code, nostro_by_currency, load_calendar}
use fx_deal_manager.Position.{PositionSendResult, send_deal}
use fx_deal_manager.Store.{
  Database, AuditLogEntry, AuditValue, AuditAction, Environment, find, put, at_rest,
}
use fx_deal_manager.Deals.{entry, new_deal, apply_updates, payment_rows}
use fx_deal_manager.Approval.{status_before}

-- The creator or an administrator.
abbrev pub IsTrader : FxDeal → UserClaims → Type 0
IsTrader d user = (d.trader_id ≡ user.user_id) ⊎ (user.role ≡ "ADMIN")

abbrev pub IsPositioner : UserClaims → Type 0
IsPositioner user = (user.role ≡ "POSITIONER") ⊎ (user.role ≡ "ADMIN")

-- A counterparty that a request names is there, and active.
abbrev pub IsKnown : Database → Patch String → Type 0
IsKnown db unset = Unit
IsKnown db null = ⊥
IsKnown db (value key) =
    (row : Counterparty) × (get_counterparty db.counterparties key ≡ some row)
    × (row.is_active ≡ true)

-- All that a successful validation has checked, and the payments that it computes.
pub record IsChecked (env : Environment) (db : Database) (d : FxDeal) (day : ℕ)
    (rows : List Payment) : Type 0 where
  pub clean :
      Validation.validate d
        (get_counterparty db.counterparties d.counterparty_id)
        (currencies_by_code db.currencies)
      ≡ []
  pub within_limits : check db.deal_limits d ≡ some []
  pub settles :
      calculate_value_date d.trade_date d.deal_type
        (load_calendar db.business_calendar d.trade_date (d.trade_date + 30))
        d.value_date
      ≡ date day
  pub calculated : List CalculatedPayment
  pub amounts : calculate d day ≡ some calculated
  pub accounts : (assign calculated (nostro_by_currency db.nostro_accounts)).1 ≡ []
  pub paid : rows ≡ payment_rows env d (assign calculated (nostro_by_currency db.nostro_accounts)).0

-- The deal that a positioner has decided on.
abbrev pub decided : FxDeal → UserClaims → DealState → ApprovalDecision → Option String → FxDeal
decided d user state decision comment = record d {
  deal_state = state;
  positioner_id = some user.user_id;
  positioner_solution =
      some (record { decision = decision; comment = comment; positioner_id = user.user_id });
}

-- A deal as it was when it was sent, with the answer of the position system.
abbrev pub answer : Environment → String → FxDeal → UserClaims → PositionSendResult
answer env correlation_id d user =
    (send_deal env.gateway correlation_id (decided d user approved ApprovalDecision.approve none)).0

module _ (env : Environment) (user : UserClaims) (db : Database) where
  -- A move of deal `d` to `d'`, with the audit entries that it appends.
  pub data Move (d d' : FxDeal) (es : List AuditLogEntry) : Type 0 where
    edited :
        (payload : DealUpdateRequest) (c : FxDeal)
        → d.deal_state ≡ draft
        → d.trader_id ≡ user.user_id
        → apply_updates payload d ≡ some c
        → IsKnown db payload.counterparty_id
        → d' ≡ record c { validation_status = not_validated; payments = [] }
        → es ≡ entry c user AuditAction.update none (AuditValue.updates payload) ∷ []
        → Move d d' es
    invalidated :
        (found : List ValidationIssue)
        → IsTrader d user
        → found ≢ []
        → d' ≡ record d { validation_status = invalid }
        → es ≡ entry d user AuditAction.validate_failed none (AuditValue.issues found) ∷ []
        → Move d d' es
    validated :
        (day : ℕ) (rows : List Payment)
        → IsTrader d user
        → IsChecked env db d day rows
        → d' ≡ record d { value_date = some day; validation_status = valid; payments = rows }
        → es ≡ entry d user AuditAction.validate none (AuditValue.validated day (length rows)) ∷ []
        → Move d d' es
    submitted :
        IsTrader d user
        → d.deal_state ≡ draft
        → d.validation_status ≡ valid
        → check db.deal_limits d ≡ some []
        → d' ≡ record d { deal_state = waiting_for_positioner }
        → es
          ≡ entry d user AuditAction.status_change
              (status_before d)
              (AuditValue.status waiting_for_positioner)
            ∷ []
        → Move d d' es
    approved_executed :
        (correlation_id : String)
        → IsPositioner user
        → d.deal_state ≡ waiting_for_positioner
        → d.trader_id ≢ user.user_id
        → (answer env correlation_id d user).success ≡ true
        → d' ≡ decided d user executed ApprovalDecision.approve none
        → (let result = answer env correlation_id d user in
            es
            ≡ entry d user AuditAction.position_send none (AuditValue.sent result)
              ∷ entry d user AuditAction.status_change
                  (status_before d)
                  (AuditValue.execution executed result.correlation_id result.external_refs)
              ∷ [])
        → Move d d' es
    approved_unsent :
        (correlation_id : String)
        → IsPositioner user
        → d.deal_state ≡ waiting_for_positioner
        → d.trader_id ≢ user.user_id
        → (answer env correlation_id d user).success ≡ false
        → d' ≡ decided d user approved ApprovalDecision.approve none
        → es
          ≡ entry d user AuditAction.position_send none
              (AuditValue.sent (answer env correlation_id d user))
            ∷ []
        → Move d d' es
    sent_back :
        (decision : ApprovalDecision) (comment : Option String)
        → (decision ≡ return_for_edit) ⊎ (decision ≡ reject)
        → IsPositioner user
        → d.deal_state ≡ waiting_for_positioner
        → d' ≡ decided d user rejected decision comment
        → es
          ≡ entry d user AuditAction.status_change
              (status_before d)
              (AuditValue.verdict rejected decision comment)
            ∷ []
        → Move d d' es
    taken_back :
        IsTrader d user
        → d.deal_state ≡ rejected
        → d' ≡ record d { deal_state = draft }
        → es
          ≡ entry d user AuditAction.status_change (status_before d) (AuditValue.status draft) ∷ []
        → Move d d' es
    called_off :
        (comment : Option String)
        → IsTrader d user
        → d.deal_state ≡ draft
        → d' ≡ record d { deal_state = cancelled }
        → es
          ≡ entry d user AuditAction.status_change
              (status_before d)
              (AuditValue.cancellation cancelled comment)
            ∷ []
        → Move d d' es

  -- What one request leaves in the database: what was there; one more deal; or one deal moved.
  pub data Commit (db' : Database) : Type 0 where
    nothing : db' ≡ db → Commit db'
    opened :
        (id : ℕ) (payload : DealCreateRequest)
        → find id db.deals ≡ none
        → IsKnown db (value payload.counterparty_id)
        → db' ≡ record db {
          deals = db.deals ++ (at_rest env (new_deal id payload user) ∷ []);
          audit_log =
              db.audit_log
              ++ (entry
                    (new_deal id payload user)
                    user
                    AuditAction.create
                    none
                    (AuditValue.status draft)
                  ∷ []);
        }
        → Commit db'
    moved :
        (id : ℕ) (d d' : FxDeal) (es : List AuditLogEntry)
        → find id db.deals ≡ some d
        → Move d d' es
        → db' ≡ record db { deals = put (at_rest env d') db.deals; audit_log = db.audit_log ++ es }
        → Commit db'

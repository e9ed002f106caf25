-- ===== src/Store/Tables.antt =====
-- The tables, the session over them, and the errors a request ends with.
use fx_deal_manager.Prelude.{
  ℕ, String, Bool, Option, none, some, List, [], ◌∷◌, ◌==◌, if◌then◌else◌,
}
use fx_deal_manager.Decimal.{Decimal}
use fx_deal_manager.Domain.{
  DealState, ApprovalDecision, Currency, Counterparty, DealLimit, NostroAccount, BusinessCalendar,
  FxDeal, DealUpdateRequest,
}
use fx_deal_manager.Issues.{ValidationIssue, RegulatoryNsiError}
use fx_deal_manager.Position.{PositionSendResult, Gateway, Effect, SendError}
use fx_deal_manager.Position.Token.{Unavailable}

-- The JSON of `old_value` and `new_value`, as the values that it is made of.
pub data AuditValue : Type 0 where
  status : DealState → AuditValue
  cancellation : DealState → Option String → AuditValue
  verdict : DealState → ApprovalDecision → Option String → AuditValue
  execution : DealState → String → List String → AuditValue
  updates : DealUpdateRequest → AuditValue
  issues : List ValidationIssue → AuditValue
  validated : ℕ → ℕ → AuditValue
  sent : PositionSendResult → AuditValue
  nsi_errors : List RegulatoryNsiError → AuditValue

-- The member `action` of an entry, one for each code that the services log.
pub data AuditAction : Type 0 where
  create update validate validate_failed status_change position_send : AuditAction
  regulatory_report_failed : AuditAction

pub record AuditLogEntry : Type 0 where
  pub entity_id : ℕ
  pub entity_type : String
  pub action : AuditAction
  pub old_value : Option AuditValue
  pub new_value : Option AuditValue
  pub created_by : String

-- Deals and audit entries stand in the order of their creation, reference data by primary key.
pub record Database : Type 0 where
  pub deals : List FxDeal
  pub audit_log : List AuditLogEntry
  pub counterparties : List Counterparty
  pub currencies : List Currency
  pub nostro_accounts : List NostroAccount
  pub deal_limits : List DealLimit
  pub business_calendar : List BusinessCalendar

-- What is outside the program: the fault-injection setting, PostgreSQL's `NUMERIC(18, scale)` and
-- its verdict on what a session flushes, and the position system.
pub record Environment : Type 0 where
  pub payment_save_fault_after : Option ℕ
  pub numeric : ℕ → Decimal → Decimal
  pub accepts : Database → Bool
  pub gateway : Gateway

-- A session: what is committed, what the session sees, and what was sent to the position system.
pub record Session : Type 0 where
  pub stored : Database
  pub current : Database
  pub effects : List Effect

-- `detail` of an `HTTPException`, by the text or the values in it.
pub data Detail : Type 0 where
  text : String → Detail
  counterparty_missing : String → Detail
  role_not_allowed : String → Detail
  position_system_rejected : Option SendError → Detail
  payments_not_persisted : ℕ → Detail
  positions_unavailable : Unavailable → Detail

-- Exceptions that no handler turns into an answer of its own: the client gets a plain 500.
-- `null_value` is what an explicit null for a required attribute ends in: an `AttributeError`, or the
-- database's refusal of the column.
pub data Fault : Type 0 where
  database_error null_value invalid_operation key_error key_set_error : Fault
  payment_save_fault : ℕ → Fault

pub data Error : Type 0 where
  http : ℕ → Detail → Error
  deal_not_found : Error
  validation_failed : List ValidationIssue → Error
  report_incomplete : List RegulatoryNsiError → Error
  internal : Fault → Error

unfoldable pub find : ℕ → List FxDeal → Option FxDeal
find id [] = none
find id (deal ∷ deals) = if deal.id == id then some deal else find id deals

-- The row with the deal's identifier, replaced.
unfoldable pub put : FxDeal → List FxDeal → List FxDeal
put deal [] = []
put deal (row ∷ rows) = if row.id == deal.id then deal ∷ rows else row ∷ put deal rows

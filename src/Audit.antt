-- ===== src/Audit.antt =====
-- `list_events` of src/fx_deal_manager/repositories/audit_repository.py and services/audit_log_service.py,
-- and the route of api/routes/audit.py: the audit log a page at a time, newest first.
pub mod Telling
pub mod Reading
use fx_deal_manager.Prelude.{
  ℕ, ◌-◌, ◌*◌, String, Bool, true, ◌&&◌, Option, none, some, List, [], ◌∷◌, map, leb, ◌==◌, length,
  select,
}
use fx_deal_manager.Domain.{UserClaims}
use fx_deal_manager.Store.{
  AuditValue, AuditAction, AuditLogEntry, Error, http, role_not_allowed, Result, ok, err,
}
use fx_deal_manager.Listings.{skip, take}
use fx_deal_manager.Requests.{one_of}

-- A row of the table: an entry with the values that the database gives it; `created_at` is the time at
-- which the transaction began.
pub record AuditRow : Type 0 where
  pub id : ℕ
  pub created_at : ℕ
  pub logged : AuditLogEntry

-- The query parameters.
pub record EventFilter : Type 0 where
  pub entity_id : Option ℕ
  pub user_id : Option String
  pub date_from : Option ℕ
  pub date_to : Option ℕ

abbrev is_about : Option ℕ → AuditRow → Bool
is_about none row = true
is_about (some entity) row = row.logged.entity_id == entity

abbrev is_after : Option ℕ → AuditRow → Bool
is_after none row = true
is_after (some moment) row = leb moment row.created_at

abbrev is_before : Option ℕ → AuditRow → Bool
is_before none row = true
is_before (some moment) row = leb row.created_at moment

-- `AuditEventResponse`
pub record AuditEventResponse : Type 0 where
  pub id : ℕ
  pub entity_id : ℕ
  pub entity_type : String
  pub action : AuditAction
  pub old_value : Option AuditValue
  pub new_value : Option AuditValue
  pub created_at : ℕ
  pub created_by : String

-- `AuditEventResponse.model_validate(row)`
abbrev pub event : AuditRow → AuditEventResponse
event row = record {
  id = row.id;
  entity_id = row.logged.entity_id;
  entity_type = row.logged.entity_type;
  action = row.logged.action;
  old_value = row.logged.old_value;
  new_value = row.logged.new_value;
  created_at = row.created_at;
  created_by = row.logged.created_by;
}

-- `AuditEventListResponse`
pub record AuditEventListResponse : Type 0 where
  pub items : List AuditEventResponse
  pub total : ℕ
  pub page : ℕ
  pub page_size : ℕ

-- PostgreSQL's `ILIKE '%term%'` is a parameter: a test of a term on a text.
module _ (ilike : String → String → Bool) where
  abbrev is_by : Option String → AuditRow → Bool
  is_by none row = true
  is_by (some term) row = ilike term row.logged.created_by

  -- The conditions that the statement and the count share.
  abbrev pub events_selected : List AuditRow → EventFilter → List AuditRow
  events_selected rows filter =
      select
        (λ row.
          is_about filter.entity_id row
          && (is_by filter.user_id row
              && (is_after filter.date_from row && is_before filter.date_to row)))
        rows

  -- How it answers `ORDER BY created_at DESC` on the rows of a statement is a parameter as well: entries of one
  -- transaction have the same time, and their order is its choice, in each statement anew.
  module _ (arrange : List AuditRow → List AuditRow) where
    -- `AuditRepository.list_events`
    unfoldable pub list_events : List AuditRow → EventFilter → ℕ → ℕ → List AuditRow × ℕ
    list_events rows filter page page_size =
        let chosen = events_selected rows filter in
        (take page_size (skip ((page - 1) * page_size) (arrange chosen)), length chosen)

    -- `AuditLogService.list_events`
    unfoldable pub event_page : List AuditRow → EventFilter → ℕ → ℕ → AuditEventListResponse
    event_page rows filter page page_size =
        let (found, total) = list_events rows filter page page_size in
        record { items = map event found; total = total; page = page; page_size = page_size }

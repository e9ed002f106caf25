-- ===== src/Notifications.antt =====
-- src/fx_deal_manager/api/routes/notifications.py: the audit log as notifications, with the moment up to
-- which a user has read them.
pub mod ReadAll
use fx_deal_manager.Prelude.{
  ℕ, zero, suc, ◌+◌, String, Bool, true, false, not, ◌||◌, Option, none, some, List, [], ◌∷◌, map,
  leb, length, is_blank, same, if◌then◌else◌,
}
use fx_deal_manager.Domain.{DealState, UserClaims}
use fx_deal_manager.Position.{SendError, not_configured, token_error, status_text, text}
use fx_deal_manager.Store.{
  AuditValue, status, cancellation, verdict, execution, updates, issues, validated, sent,
  nsi_errors, AuditAction, AuditLogEntry,
}
use fx_deal_manager.Listings.{newest_first, take}
use fx_deal_manager.Audit.{AuditRow}

-- `UserNotificationState`
pub record UserNotificationState : Type 0 where
  pub user_id : String
  pub last_read_at : Option ℕ

-- The members of the JSON of a new value that the notifications read.
pub record Members : Type 0 where
  pub status : Option DealState
  pub error : Option SendError
  pub correlation_id : Option String

abbrev no_members : Members
no_members = record { status = none; error = none; correlation_id = none }

abbrev of_status : DealState → Members
of_status state = record { status = some state; error = none; correlation_id = none }

-- `_json`: a list of issues or of errors is no dictionary.
abbrev pub json : Option AuditValue → Members
json none = no_members
json (some (status state)) = of_status state
json (some (cancellation state comment)) = of_status state
json (some (verdict state decision comment)) = of_status state
json (some (execution state correlation_id refs)) = record {
  status = some state;
  error = none;
  correlation_id = some correlation_id;
}
json (some (sent result)) = record {
  status = none;
  error = result.error;
  correlation_id = some result.correlation_id;
}
json (some (updates payload)) = no_members
json (some (issues found)) = no_members
json (some (validated day count)) = no_members
json (some (nsi_errors errors)) = no_members

-- `payload.get("error")` as a condition.
abbrev pub has_error : Option SendError → Bool
has_error none = false
has_error (some not_configured) = true
has_error (some (token_error t)) = true
has_error (some (status_text code body)) = true
has_error (some (text t)) = not (is_blank (some t))

-- The titles, by what is in them.
pub data Title : Type 0 where
  deal_created control_passed control_failed payments_sent : Title
  status_changed : DealState → Title
  action_name : AuditAction → Title

-- `_title`
abbrev pub title : AuditAction → Members → Title
title AuditAction.create payload = deal_created
title AuditAction.validate payload = control_passed
title AuditAction.validate_failed payload = control_failed
title AuditAction.position_send payload = payments_sent
title AuditAction.status_change payload = elim payload.status [
  | none ↦ action_name AuditAction.status_change
  | some state ↦ status_changed state
]
title AuditAction.update payload = action_name AuditAction.update
title AuditAction.regulatory_report_failed payload =
    action_name AuditAction.regulatory_report_failed

-- The descriptions, by what is in them.
pub data Description : Type 0 where
  error_text : Option SendError → Description
  correlation : Option String → Description
  entity : String → ℕ → String → Description

-- `_description`
abbrev pub description : AuditLogEntry → Members → Description
description row payload =
    if has_error payload.error
    then error_text payload.error
    else if is_blank payload.correlation_id
    then entity row.entity_type row.entity_id row.created_by
    else correlation payload.correlation_id

pub data NoticeKind : Type 0 where
  danger info success : NoticeKind

-- `action == "VALIDATE_FAILED"`
abbrev pub is_failed_control : AuditAction → Bool
is_failed_control AuditAction.validate_failed = true
is_failed_control AuditAction.create = false
is_failed_control AuditAction.update = false
is_failed_control AuditAction.validate = false
is_failed_control AuditAction.status_change = false
is_failed_control AuditAction.position_send = false
is_failed_control AuditAction.regulatory_report_failed = false

-- `_kind` after its first test.
abbrev kind_of_action : AuditAction → NoticeKind
kind_of_action AuditAction.create = success
kind_of_action AuditAction.validate = success
kind_of_action AuditAction.status_change = success
kind_of_action AuditAction.position_send = info
kind_of_action AuditAction.update = info
kind_of_action AuditAction.validate_failed = info
kind_of_action AuditAction.regulatory_report_failed = info

-- `_kind`
unfoldable pub notice_kind : AuditAction → Members → NoticeKind
notice_kind action payload =
    if has_error payload.error || is_failed_control action then danger else kind_of_action action

-- `NotificationResponse`; `related_url` by the deal that it leads to.
pub record NotificationResponse : Type 0 where
  pub id : ℕ
  pub title : Title
  pub description : Description
  pub kind : NoticeKind
  pub created_at : ℕ
  pub read : Bool
  pub entity_id : ℕ
  pub entity_type : String
  pub action : AuditAction
  pub related_url : Option ℕ

-- `bool(last_read_at and row.created_at <= last_read_at)`
abbrev pub is_read : Option ℕ → ℕ → Bool
is_read none created_at = false
is_read (some moment) created_at = leb created_at moment

-- `_to_notification`
unfoldable pub to_notification : Option ℕ → AuditRow → NotificationResponse
to_notification last_read_at row =
    let payload = json row.logged.new_value in
    record {
      id = row.id;
      title = title row.logged.action payload;
      description = description row.logged payload;
      kind = notice_kind row.logged.action payload;
      created_at = row.created_at;
      read = is_read last_read_at row.created_at;
      entity_id = row.logged.entity_id;
      entity_type = row.logged.entity_type;
      action = row.logged.action;
      related_url =
          if same row.logged.entity_type "FXDeal" then some row.logged.entity_id else none;
    }

-- `sum(1 for item in items if not item.read)`
abbrev pub count_unread : List NotificationResponse → ℕ
count_unread [] = 0
count_unread (item ∷ items) = let rest = count_unread items in if item.read then rest else rest + 1

pub record NotificationListResponse : Type 0 where
  pub items : List NotificationResponse
  pub unread_count : ℕ
  pub total : ℕ

-- `state.last_read_at if state else None`, of the row with the user's key.
abbrev pub last_read : List UserNotificationState → String → Option ℕ
last_read [] user_id = none
last_read (row ∷ rows) user_id =
    let rest = last_read rows user_id in if same row.user_id user_id then row.last_read_at else rest

-- `min(max(page_size, 1), 100)`
abbrev pub clamp : ℕ → ℕ
clamp zero = 1
clamp (suc n) = if leb (suc n) 100 then suc n else 100

-- `list_notifications`
unfoldable pub list_notifications :
    List UserNotificationState → List AuditRow → UserClaims → ℕ → NotificationListResponse
list_notifications states log user page_size =
    let items =
      map (to_notification (last_read states user.user_id))
        (take (clamp page_size) (newest_first log)) in
    record { items = items; unread_count = count_unread items; total = length log }

-- `read_all_notifications` at the moment `now`: the user's row is changed, or added.
unfoldable pub read_all : ℕ → UserClaims → List UserNotificationState → List UserNotificationState
read_all now user [] = record { user_id = user.user_id; last_read_at = some now } ∷ []
read_all now user (row ∷ rows) =
    let rest = read_all now user rows in
    if same row.user_id user.user_id
    then record row { last_read_at = some now } ∷ rows
    else row ∷ rest

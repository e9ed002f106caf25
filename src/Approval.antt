-- ===== src/Approval.antt =====
-- src/fx_deal_manager/services/approval_service.py: `ApprovalService`.
use fx_deal_manager.Prelude.{
  ℕ, String, Bool, true, false, not, ◌&&◌, ◌||◌, Option, none, some, same, is_blank,
}
use fx_deal_manager.Domain.{
  draft, waiting_for_positioner, approved, rejected, executed, cancelled, is_draft, is_waiting,
  is_rejected, is_valid, is_return, ApprovalDecision, return_for_edit, reject, FxDeal, UserClaims,
  DealResponse,
}
use fx_deal_manager.Position.{PositionSendResult, send_deal}
use fx_deal_manager.Limits.{check}
use fx_deal_manager.Nsi.{get_counterparty}
use fx_deal_manager.Store.{
  AuditValue, AuditAction, Environment, http, internal, Detail, position_system_rejected,
  invalid_operation, Action, pure, raise, raise_if, gets, or_raise, emit, ◌>>=◌, ◌>>◌, commit,
  write, set_deal_state, save_existing, log,
}
use fx_deal_manager.Deals.{to_response, entry, load_deal, refuse_issues}

-- The old value of a STATUS_CHANGE entry.
abbrev pub status_before : FxDeal → Option AuditValue
status_before deal = some (AuditValue.status deal.deal_state)

-- `_require_trader`
unfoldable pub require_trader : FxDeal → UserClaims → Action (Unit {0})
require_trader deal user =
    raise_if (not (same deal.trader_id user.user_id) && not (same user.role "ADMIN"))
      (http 403 (Detail.text "Only the deal creator can perform this action"))

-- `_require_positioner`
unfoldable pub require_positioner : UserClaims → Action (Unit {0})
require_positioner user =
    raise_if (not (same user.role "POSITIONER" || same user.role "ADMIN"))
      (http 403 (Detail.text "Positioner role required"))

module _ (env : Environment) where
  -- `_to_response(deal)`, where no foreign key has changed since the deal was loaded.
  unfoldable pub respond : FxDeal → Action DealResponse
  respond deal = do
    counterparty ← gets (λ db. get_counterparty db.counterparties deal.counterparty_id)
    pure (to_response deal.deal_type counterparty deal)

  -- `_save_solution`: the old row's values are replaced, or a row is added.
  unfoldable pub save_solution :
      FxDeal → UserClaims → ApprovalDecision → Option String → Action FxDeal
  save_solution deal user decision comment = write env (record deal {
    positioner_solution =
        some (record { decision = decision; comment = comment; positioner_id = user.user_id });
  })

  -- `submit_deal`
  unfoldable pub submit_deal : ℕ → UserClaims → Action DealResponse
  submit_deal id user = do
    deal ← load_deal env id
    require_trader deal user
    raise_if (not (is_draft deal.deal_state)) (http 403 (Detail.text "Deal is not in DRAFT"))
    raise_if (not (is_valid deal.validation_status))
        (http 422 (Detail.text "Deal must be validated before submit"))
    rows ← gets (λ db. db.deal_limits)
    limit_issues ← or_raise (check rows deal) (internal invalid_operation)
    refuse_issues env deal user limit_issues
    moved ← set_deal_state env deal waiting_for_positioner
    updated ← save_existing env moved
    log env (
        entry updated user AuditAction.status_change (status_before deal)
          (AuditValue.status waiting_for_positioner))
    commit env
    respond updated

  -- `approve_deal` once the position system has taken the payments.
  unfoldable pub execute_deal :
      FxDeal → FxDeal → UserClaims → PositionSendResult → Action DealResponse
  execute_deal deal sent_deal user result = do
    moved ← set_deal_state env sent_deal executed
    updated ← save_existing env moved
    log env (
        entry updated user AuditAction.status_change (status_before deal)
          (AuditValue.execution executed result.correlation_id result.external_refs))
    commit env
    respond updated

  -- `if not send_result.success: ...`
  unfoldable pub finish_approval :
      FxDeal → FxDeal → UserClaims → PositionSendResult → Bool → Action DealResponse
  finish_approval deal sent_deal user result true = execute_deal deal sent_deal user result
  finish_approval deal sent_deal user result false = do
    commit env
    raise (http 502 (position_system_rejected result.error))

  -- `approve_deal`; the correlation identifier is a fresh UUID.
  unfoldable pub approve_deal : ℕ → String → UserClaims → Action DealResponse
  approve_deal id correlation_id user = do
    deal ← load_deal env id
    require_positioner user
    raise_if (not (is_waiting deal.deal_state))
        (http 403 (Detail.text "Deal is not waiting for positioner"))
    raise_if (same deal.trader_id user.user_id)
        (http 403 (Detail.text "Self-approval is not allowed"))
    claimed ← write env (record deal { positioner_id = some user.user_id })
    moved ← set_deal_state env claimed approved
    decided ← save_solution moved user ApprovalDecision.approve none
    let answer = send_deal env.gateway correlation_id decided
    emit answer.1
    log env (entry decided user AuditAction.position_send none (AuditValue.sent answer.0))
    finish_approval deal decided user answer.0 answer.0.success

  -- `_positioner_decision`
  unfoldable pub positioner_decision :
      ℕ → UserClaims → ApprovalDecision → Option String → Action DealResponse
  positioner_decision id user decision comment = do
    deal ← load_deal env id
    require_positioner user
    raise_if (not (is_waiting deal.deal_state))
        (http 403 (Detail.text "Deal is not waiting for positioner"))
    raise_if (is_return decision && is_blank comment)
        (http 422 (Detail.text "Comment is required when returning for edit"))
    claimed ← write env (record deal { positioner_id = some user.user_id })
    moved ← set_deal_state env claimed rejected
    decided ← save_solution moved user decision comment
    updated ← save_existing env decided
    log env (
        entry updated user AuditAction.status_change (status_before deal)
          (AuditValue.verdict rejected decision comment))
    commit env
    respond updated

  -- `return_deal` and `reject_deal`
  unfoldable pub return_deal : ℕ → String → UserClaims → Action DealResponse
  return_deal id comment user = positioner_decision id user return_for_edit (some comment)

  unfoldable pub reject_deal : ℕ → Option String → UserClaims → Action DealResponse
  reject_deal id comment user = positioner_decision id user reject comment

  -- `take_for_edit`
  unfoldable pub take_for_edit : ℕ → UserClaims → Action DealResponse
  take_for_edit id user = do
    deal ← load_deal env id
    require_trader deal user
    raise_if (not (is_rejected deal.deal_state)) (http 403 (Detail.text "Deal is not rejected"))
    moved ← set_deal_state env deal draft
    updated ← save_existing env moved
    log env (
        entry updated user AuditAction.status_change (status_before deal) (AuditValue.status draft))
    commit env
    respond updated

  -- `cancel_deal`
  unfoldable pub cancel_deal : ℕ → Option String → UserClaims → Action DealResponse
  cancel_deal id comment user = do
    deal ← load_deal env id
    require_trader deal user
    raise_if (not (is_draft deal.deal_state))
        (http 403 (Detail.text "Only DRAFT deals can be cancelled"))
    moved ← set_deal_state env deal cancelled
    updated ← save_existing env moved
    log env (
        entry updated user AuditAction.status_change (status_before deal)
          (AuditValue.cancellation cancelled comment))
    commit env
    respond updated

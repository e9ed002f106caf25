-- ===== src/Store.antt =====
-- The database, a request's session on it, and src/fx_deal_manager/repositories/deal_repository.py
-- and audit_repository.py with services/audit_log_service.py, which write through the session.
pub mod Tables
pub mod Monad
pub mod Steps
pub mod Rows
pub mod Paying
pub mod Plain
pub mod Calm
unfoldable pub use Tables.*
unfoldable pub use Monad.*
use fx_deal_manager.Prelude.{
  ℕ, ◌+◌, String, Bool, true, false, ◌&&◌, Option, none, some, List, [], ◌∷◌, ◌++◌, ltb, ◌==◌, same,
  is_some, if◌then◌else◌,
}
use fx_deal_manager.Decimal.{Decimal}
use fx_deal_manager.Domain.{FxDeal, Payment, Counterparty, DealState, ValidationStatus}
use fx_deal_manager.Nsi.{get_counterparty}

abbrev ⊤ : Type 0
⊤ = Unit {0}

module _ (env : Environment) where
  -- `session.flush()`, and the flush of `session.commit()`: the database may refuse.
  unfoldable pub flush : Action ⊤
  flush s = if env.accepts s.current then (ok tt, s) else (err (internal database_error), s)

  unfoldable pub commit : Action ⊤
  commit = flush >> λ s. (ok tt, record s { stored = s.current })

  unfoldable pub rollback : Action ⊤
  rollback s = (ok tt, record s { current = s.stored })

  -- The values that the columns `Numeric(18, 2)` and `Numeric(18, 6)` hold of a payment and a deal.
  abbrev pub at_rest_payments : List Payment → List Payment
  at_rest_payments [] = []
  at_rest_payments (p ∷ ps) = record p { amount = env.numeric 2 p.amount } ∷ at_rest_payments ps

  abbrev pub at_rest : FxDeal → FxDeal
  at_rest deal = record deal {
    amount = env.numeric 2 deal.amount;
    rate = env.numeric 6 deal.rate;
    payments = at_rest_payments deal.payments;
  }

  -- An assignment to attributes of a loaded deal, which the next flush writes to its row.
  unfoldable pub write : FxDeal → Action FxDeal
  write deal s = (
    ok deal,
    record s { current = record (s.current) { deals = put (at_rest deal) s.current.deals } },
  )

  -- `get_by_id`
  unfoldable pub get_by_id : ℕ → Action FxDeal
  get_by_id id s = elim (find id s.current.deals) [
    | none ↦ (err deal_not_found, s)
    | some deal ↦ (ok deal, s)
  ]

  -- `set_validation_status` and `set_deal_state`
  unfoldable pub set_validation_status : FxDeal → ValidationStatus → Action FxDeal
  set_validation_status deal new_status = write (record deal { validation_status = new_status })

  unfoldable pub set_deal_state : FxDeal → DealState → Action FxDeal
  set_deal_state deal new_state = write (record deal { deal_state = new_state })

  -- `save_new`: the primary key is unique.
  unfoldable pub save_new : FxDeal → Action FxDeal
  save_new deal s =
      if is_some (find deal.id s.current.deals)
      then (err (internal database_error), s)
      else (flush >> pure deal) (record s {
        current = record (s.current) { deals = s.current.deals ++ (at_rest deal ∷ []) };
      })

  -- `save_existing`: the row is there, and the session hands out the object that it already has.
  unfoldable pub save_existing : FxDeal → Action FxDeal
  save_existing deal = do flush; get_by_id deal.id; pure deal

  -- `check_payment_save_fault` of src/fx_deal_manager/core/fault_injection.py
  unfoldable pub check_payment_save_fault : ℕ → Action ⊤
  check_payment_save_fault index = elim env.payment_save_fault_after [
    | none ↦ pure tt
    | some fault_after ↦
        raise_if (ltb fault_after index) (internal (payment_save_fault fault_after))
  ]

  -- The loop of `replace_payments`.
  unfoldable pub append_payments : FxDeal → ℕ → List Payment → Action FxDeal
  append_payments deal index [] = pure deal
  append_payments deal index (payment ∷ payments) =
      check_payment_save_fault index
      >> (write (record deal { payments = deal.payments ++ (payment ∷ []) }) >>= λ deal'.
          append_payments deal' (index + 1) payments)

  -- `replace_payments`
  unfoldable pub replace_payments : FxDeal → List Payment → Action FxDeal
  replace_payments deal payments = do
    cleared ← write (record deal { payments = [] })
    deal' ← append_payments cleared 1 payments
    flush
    pure deal'

  -- `AuditLogService.log` and `AuditRepository.append`
  unfoldable pub log : AuditLogEntry → Action ⊤
  log entry = modify (λ db. record db { audit_log = db.audit_log ++ (entry ∷ []) }) >> flush

  -- `counterparty_exists`
  unfoldable pub counterparty_exists : String → Action Bool
  counterparty_exists key s = elim (get_counterparty s.current.counterparties key) [
    | none ↦ (ok false, s)
    | some row ↦ (ok row.is_active, s)
  ]

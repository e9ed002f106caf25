-- ===== src/Requests/Guards.antt =====
-- What the guards of the handlers let through.
use fx_deal_manager.Prelude.{◌≡◌, ◌≢◌, false, not, ◌&&◌, ◌||◌, List, arith, same}
use fx_deal_manager.Domain.{
  DealState, draft, waiting_for_positioner, rejected, is_draft, is_waiting, is_rejected,
  ValidationStatus, valid, is_valid, FxDeal, UserClaims,
}
use fx_deal_manager.Store.{Database, AuditLogEntry}
use fx_deal_manager.Lifecycle.{IsTrader, IsPositioner}

pub draft_only : (st : DealState) → not (is_draft st) ≡ false → st ≡ draft
draft_only st h = ground arith

pub waiting_only : (st : DealState) → not (is_waiting st) ≡ false → st ≡ waiting_for_positioner
waiting_only st h = ground arith

pub rejected_only : (st : DealState) → not (is_rejected st) ≡ false → st ≡ rejected
rejected_only st h = ground arith

pub valid_only : (v : ValidationStatus) → not (is_valid v) ≡ false → v ≡ valid
valid_only v h = ground arith

pub IsTrader-only :
    (d : FxDeal) (user : UserClaims)
    → (not (same d.trader_id user.user_id) && not (same user.role "ADMIN")) ≡ false
    → IsTrader d user
IsTrader-only d user h = ground arith

pub creator_only :
    (d : FxDeal) (user : UserClaims)
    → not (same d.trader_id user.user_id) ≡ false
    → d.trader_id ≡ user.user_id
creator_only d user h = ground arith

pub IsPositioner-only :
    (user : UserClaims)
    → not (same user.role "POSITIONER" || same user.role "ADMIN") ≡ false
    → IsPositioner user
IsPositioner-only user h = ground arith

pub other_only :
    (d : FxDeal) (user : UserClaims)
    → same d.trader_id user.user_id ≡ false
    → d.trader_id ≢ user.user_id
other_only d user h = ground arith

-- Two versions of the tables that a request writes.
pub same_tables :
    (db : Database) {ds ds' : List FxDeal} {es es' : List AuditLogEntry}
    → ds ≡ ds'
    → es ≡ es'
    → record db { deals = ds; audit_log = es } ≡ record db { deals = ds'; audit_log = es' }
same_tables db p q = λ i. record db { deals = p i; audit_log = q i }

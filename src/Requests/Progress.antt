-- ===== src/Requests/Progress.antt =====
-- Requests whose guards are met, on a database that refuses nothing.
pub mod Approvals
pub mod Edits
pub mod Served
use fx_deal_manager.Prelude.{
  ℕ, ◌+◌, String, ◌≡◌, ◌≢◌, refl, sym, ap, ◌∙◌, ◌⊎◌, inl, inr, Bool, true, false, not, ◌&&◌, ◌||◌,
  Option, none, some, List, [], ◌∷◌, arith, is_some, is_blank, same,
}
use fx_deal_manager.Domain.{
  draft, waiting_for_positioner, approved, rejected, executed, cancelled, valid, not_validated,
  is_draft, is_waiting, is_rejected, is_valid, is_return, DealState, ApprovalDecision,
  return_for_edit, FxDeal, Payment, UserClaims, DealCreateRequest, DealUpdateRequest, DealResponse,
  Patch, unset, null, value, Counterparty,
}
use fx_deal_manager.Issues.{ValidationIssue}
use fx_deal_manager.Validation
use fx_deal_manager.Settlement.{date, calculate_value_date}
use fx_deal_manager.Limits.{check}
use fx_deal_manager.Payments.{CalculatedPayment, calculate, assign}
use fx_deal_manager.Nsi.{get_counterparty, currencies_by_code, nostro_by_currency, load_calendar}
use fx_deal_manager.Store.{
  Database, AuditLogEntry, AuditValue, AuditAction, Environment, Session, Error, Result, ok, err,
  Action, continue, recover, catch, ◌>>=◌, ◌>>◌, commit, set_deal_state, save_existing, log, find,
  put, at_rest, counterparty_exists,
}
use fx_deal_manager.Store.Rows.{find-id, is_some-find-put}
use fx_deal_manager.Store.Steps.{
  Ends, Ends-ok, Ends-pure, Ends-gets, Ends-emit, Ends-write, Ends-set_deal_state,
  Ends-set_validation_status, written, get_tries,
}
use fx_deal_manager.Store.Calm.{
  Ends-pass, Ends-given, log_ok, commit_ok, save_existing_ok, save_new_ok, replace_payments_ok,
  get_by_id_ok,
}
use fx_deal_manager.Deals.{
  entry, load_deal, refuse_issues, require_counterparty, check_counterparty, apply_updates,
}
use fx_deal_manager.Approval.{
  require_trader, require_positioner, respond, save_solution, submit_deal, execute_deal,
  finish_approval, approve_deal, positioner_decision, return_deal, reject_deal, take_for_edit,
  cancel_deal,
}
use fx_deal_manager.Lifecycle.{IsTrader, IsPositioner, IsChecked, decided, answer}
use fx_deal_manager.Requests.{open_session}

-- The guards, for those that they let through.
pub trader_passes :
    (d : FxDeal) (user : UserClaims)
    → IsTrader d user
    → (not (same d.trader_id user.user_id) && not (same user.role "ADMIN")) ≡ false
trader_passes d user h = ground arith

pub positioner_passes :
    (user : UserClaims)
    → IsPositioner user
    → not (same user.role "POSITIONER" || same user.role "ADMIN") ≡ false
positioner_passes user h = ground arith

pub creator_passes :
    (d : FxDeal) (user : UserClaims)
    → d.trader_id ≡ user.user_id
    → not (same d.trader_id user.user_id) ≡ false
creator_passes d user h = ground arith

pub other_passes :
    (d : FxDeal) (user : UserClaims)
    → d.trader_id ≢ user.user_id
    → same d.trader_id user.user_id ≡ false
other_passes d user h = ground arith

-- The service has returned a value.
abbrev pub IsServed : {A : Type 0} → Result A → Session → Type 0
IsServed {A} r t = (a : A) × (r ≡ ok a)

module _ {A : Type 0} where
  IsServed-end :
      (m : Action A) (s : Session) (a : A) (t : Session) → m s ≡ (ok a, t) → Ends IsServed (m s)
  IsServed-end m s a t e = record { holds = (a, ap (λ end. end.0) e) }

  IsServed-try :
      (end : Result A × Session) (h : Error → Action A)
      → IsServed end.0 end.1
      → IsServed (recover end h).0 (recover end h).1
  IsServed-try (ok a, t) h served = served
  IsServed-try (err x, t) h served = cc

  pub IsServed-catch :
      (m : Action A) (h : Error → Action A) (s : Session)
      → Ends IsServed (m s)
      → Ends IsServed (catch m h s)
  unfolding catch
  IsServed-catch m h s served = record { holds = IsServed-try (m s) h served.holds }

  module _ {B : Type 0} where
    IsServed-rest :
        (end : Result A × Session) (k : A → Action B)
        → IsServed end.0 end.1
        → ((a : A) (t : Session) → Ends IsServed (k a t))
        → Ends IsServed (continue end k)
    IsServed-rest (ok a, t) k served h = h a t
    IsServed-rest (err x, t) k served h = cc

    pub IsServed-bind :
        (m : Action A) (k : A → Action B) (s : Session)
        → Ends IsServed (m s)
        → ((a : A) (t : Session) → Ends IsServed (k a t))
        → Ends IsServed ((m >>= k) s)
    unfolding ◌>>=◌
    IsServed-bind m k s served h = IsServed-rest (m s) k served.holds h

abbrev pub Q : Result DealResponse → Session → Type 0
Q = IsServed {A = DealResponse}

module _ (env : Environment) (accepting : (db : Database) → env.accepts db ≡ true) where
  pub load_ok :
      (id : ℕ) (s : Session) (d : FxDeal)
      → find id s.current.deals ≡ some d
      → load_deal env id s ≡ (ok d, s)
  unfolding load_deal ◌>>=◌
  load_ok id s d h = rw (get_by_id_ok env accepting id s d h)

  pub no_issues_ok :
      (d : FxDeal) (user : UserClaims) (found : List ValidationIssue) (s : Session)
      → found ≡ []
      → refuse_issues env d user found s ≡ (ok tt, s)
  unfolding refuse_issues ◌>>=◌
  no_issues_ok d user found s h = rw h

  -- What the services of the approval end with.
  pub move_served :
      (d : FxDeal) (state : DealState) (e : FxDeal → AuditLogEntry) (s : Session)
      → is_some (find d.id s.current.deals) ≡ true
      → Ends Q (
          (set_deal_state env d state >>= λ moved. save_existing env moved >>= λ updated.
          log env (e updated) >>= λ _. commit env >>= λ _. respond env updated)
            s)
  unfolding respond
  move_served d state e s there = Ends-set_deal_state Q env d state _ s (
      Ends-ok Q _ _ _ _ _ (save_existing_ok env accepting _ _ (is_some-find-put d.id _ _ ∙ there)) (
        Ends-ok Q _ _ _ _ _ (log_ok env accepting _ _) (
          Ends-ok Q _ _ _ _ _ (commit_ok env accepting _)
            (Ends-gets Q _ _ _ (Ends-pure Q _ _ (_, refl))))))

-- A row that is found is there under the identifier that it holds.
pub present :
    (db : Database) (id : ℕ) (d : FxDeal)
    → find id db.deals ≡ some d
    → is_some (find d.id db.deals) ≡ true
present db id d found = rw (find-id id d db.deals found) (rw found)

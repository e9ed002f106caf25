-- ===== src/Requests/Edits.antt =====
-- The operations of `DealService` against the moves of Lifecycle.
use fx_deal_manager.Prelude.{
  ℕ, ◌+◌, ◌⊎◌, inl, inr, Bool-cases, Option-cases, String, ◌≡◌, refl, ap, none, some, [], ◌∷◌, ◌++◌,
  length,
}
use fx_deal_manager.Domain.{
  not_validated, valid, Patch, unset, null, value, FxDeal, UserClaims, DealCreateRequest,
  DealUpdateRequest, DealResponse,
}
use fx_deal_manager.Validation
use fx_deal_manager.Settlement.{DateResult, date, value_error, calculate_value_date}
use fx_deal_manager.Limits.{check}
use fx_deal_manager.Payments.{assign}
use fx_deal_manager.Nsi.{get_counterparty, currencies_by_code, nostro_by_currency, load_calendar}
use fx_deal_manager.Store.{
  Database, AuditLogEntry, AuditValue, AuditAction, Environment, Session, Error, http,
  counterparty_missing, Result, ok, err, Action, pure, raise, ◌>>=◌, find, counterparty_exists,
  rollback,
}
use fx_deal_manager.Store.Rows.{third_put}
use fx_deal_manager.Store.Steps.{
  Ends, Ends-err, After, Handled, Ends-save_new, Ends-pure, Ends-raise, Ends-raise_if, Ends-gets,
  Ends-or_raise, Ends-part, Ends-catch, Ends-write, Ends-set_validation_status, Ends-log,
  Ends-commit, Ends-save_existing, Ends-ok,
}
use fx_deal_manager.Store.Paying.{Ends-replace_payments}
use fx_deal_manager.Deals.{
  entry, new_deal, require_counterparty, check_counterparty, create_deal, update_deal, payment_rows,
  store_validated, persist_failed, settle_on, settle_deal, validate_deal,
}
use fx_deal_manager.Deals.Steps.{Ends-load, Ends-refuse_issues}
use fx_deal_manager.Lifecycle.{IsKnown, edited, invalidated, validated, IsTrader}
use fx_deal_manager.Lifecycle.Outcome.{
  Kind, opening, editing, checking, Moved, by-Move, IsOutcome, to_response-IsAnswer, done, failed,
  served, marked, created,
}
use fx_deal_manager.Requests.Opening.{open_session}
use fx_deal_manager.Requests.Guards.{draft_only, IsTrader-only, creator_only}

module _ (env : Environment) where
  require_tries :
      (key : String) (s : Session)
      → ((x : Error) × (require_counterparty env key s ≡ (err x, s)))
        ⊎ (IsKnown s.current (value key) × (require_counterparty env key s ≡ (ok tt, s)))
  unfolding require_counterparty ◌>>=◌ counterparty_exists
  require_tries key s = elim (Option-cases (get_counterparty s.current.counterparties key)) [
    | inl e ↦ inl (http 422 (counterparty_missing key), rw (e, counterparty_exists) refl)
    | inr (row, e) ↦ elim (Bool-cases row.is_active) [
      | inl active ↦ inr ((row, e, active), rw (e, counterparty_exists) (rw active refl))
      | inr not_active ↦
          inl
            (http 422 (counterparty_missing key), rw (e, counterparty_exists) (rw not_active refl))
    ]
  ]

  check_tries :
      (patch : Patch String) (s : Session)
      → ((x : Error) × (check_counterparty env patch s ≡ (err x, s)))
        ⊎ (IsKnown s.current patch × (check_counterparty env patch s ≡ (ok tt, s)))
  unfolding check_counterparty pure raise
  check_tries unset s = inr (tt, refl)
  check_tries null s = inl (_, refl)
  check_tries (value key) s = require_tries key s

module _ {B : Type 0} (Q : Result B → Session → Type 0) (db : Database)
    (quiet : (x : Error) (u : Session) → u.stored ≡ db → Q (err x) u) (env : Environment) where
  Ends-check_counterparty :
      (patch : Patch String) (k : Unit {0} → Action B) (s : Session)
      → s.stored ≡ db
      → (IsKnown s.current patch → Ends Q (k tt s))
      → Ends Q ((check_counterparty env patch >>= k) s)
  Ends-check_counterparty patch k s kept known = elim (check_tries env patch s) [
    | inl (x, e) ↦ Ends-err Q (check_counterparty env patch) k s s x e (quiet x s kept)
    | inr (there, e) ↦ Ends-ok Q (check_counterparty env patch) k s s tt e (known there)
  ]

module _ (env : Environment) (user : UserClaims) (db : Database) where
  abbrev Refines : Kind → ℕ → Result DealResponse → Session → Type 0
  Refines = IsOutcome env user db

  quiet : (k : Kind) (id : ℕ) (x : Error) (u : Session) → u.stored ≡ db → Refines k id (err x) u
  quiet k id x u e = failed x refl e

  abbrev edit_entry : FxDeal → DealUpdateRequest → AuditLogEntry
  edit_entry c payload = entry c user AuditAction.update none (AuditValue.updates payload)

  pub update_deal-Refines :
      (id : ℕ) (payload : DealUpdateRequest)
      → Ends (Refines (editing payload) id) (update_deal env id payload user (open_session db))
  unfolding update_deal
  update_deal-Refines id payload =
      let Q = Refines (editing payload) id in
      let q = quiet (editing payload) id in
      Ends-load Q db q env id _ _ refl λ d found. Ends-gets Q _ _ _ (
        Ends-raise_if Q _ _ _ _ (λ _. failed _ refl refl)
          λ state.
            Ends-raise_if Q _ _ _ _ (λ _. failed _ refl refl)
              λ creator.
                Ends-check_counterparty Q db q env payload.counterparty_id _ _ refl (λ known.
                  Ends-or_raise Q _ _ _ _ (λ _. failed _ refl refl)
                    λ c applied. Ends-write Q env _ _ _ (
                      Ends-set_validation_status Q env _ not_validated _ _ (
                        Ends-replace_payments env Q db db q _ [] _ _ refl
                          (ap (λ rows. record db { deals = rows })
                            (third_put _ _ _ db.deals refl refl))
                          λ t stored current effects. Ends-save_existing Q db q env _ _ _ stored (
                            Ends-log Q db q env _ _ _ stored (
                              Ends-commit Q db q env _ _ stored (
                                Ends-pure Q _ _ (
                                  done (
                                    served _ _
                                      (by-Move env user db d _ _ found
                                        (edited payload c (draft_only _ state)
                                          (creator_only d user creator) applied known refl refl)
                                        refl
                                        (ap
                                          (λ (now : Database). record now {
                                            audit_log =
                                                now.audit_log ++ (edit_entry c payload ∷ []);
                                          })
                                          current))
                                      refl (to_response-IsAnswer _ _ _))))))))))

  pub create_deal-Refines :
      (id : ℕ) (payload : DealCreateRequest)
      → Ends (Refines (opening payload) id) (create_deal env id payload user (open_session db))
  unfolding create_deal new_deal check_counterparty
  create_deal-Refines id payload =
      let Q = Refines (opening payload) id in
      let q = quiet (opening payload) id in
      Ends-check_counterparty Q db q env (value payload.counterparty_id) _ _ refl (λ known.
        Ends-save_new Q db q env _ _ _ refl λ unused. Ends-log Q db q env _ _ _ refl (
          Ends-commit Q db q env _ _ refl (
            Ends-gets Q _ _ _ (
              Ends-pure Q _ _ (
                done
                  (created payload _ refl unused known refl refl (to_response-IsAnswer _ _ _)))))))

  -- A failure to store the result leaves nothing of it behind.
  persist_failed_quiet :
      (Q : Result FxDeal → Session → Type 0)
      → ((x : Error) (u : Session) → u.stored ≡ db → Q (err x) u)
      → (x : Error) (u : Session) → u.stored ≡ db
      → Ends Q (persist_failed env x u)
  unfolding persist_failed rollback
  persist_failed_quiet Q calm x u kept =
      Ends-ok Q (rollback env) _ u (record u { current = u.stored }) tt refl
        (Ends-raise Q _ _ (calm _ _ kept))

  abbrev validation_entry : FxDeal → ℕ → AuditLogEntry
  validation_entry d day =
      entry d user AuditAction.validate none (AuditValue.validated day (length d.payments))

  -- The last part of a validation, which pays the deal and marks it VALID.
  settle_on-Refines :
      (id : ℕ) (d : FxDeal) (k : FxDeal → Action DealResponse)
      → find id db.deals ≡ some d
      → IsTrader d user
      → Validation.validate d
          (get_counterparty db.counterparties d.counterparty_id)
          (currencies_by_code db.currencies)
        ≡ []
      → check db.deal_limits d ≡ some []
      → ((d' : FxDeal) (t : Session)
          → Moved env user db checking id d' t.stored
          → Ends (Refines checking id) (k d' t))
      → (end : DateResult)
      → calculate_value_date d.trade_date d.deal_type
          (load_calendar db.business_calendar d.trade_date (d.trade_date + 30))
          d.value_date
        ≡ end
      → Ends (After (Refines checking id) k) (settle_on env d user end (open_session db))
  unfolding settle_on store_validated
  settle_on-Refines id d k found trader clean limits settled (value_error m) e =
      Ends-raise (After (Refines checking id) k) _ _ (failed _ refl refl)
  settle_on-Refines id d k found trader clean limits settled (date day) e =
      let Q = After (Refines checking id) k in
      Ends-or_raise Q _ _ _ _ (λ _. failed _ refl refl)
        λ calculated amounts. Ends-gets Q _ _ _ (
          Ends-refuse_issues Q db (quiet checking id) env d user _ _ _ refl
            (λ some_found.
              marked _ _
                (by-Move env user db d _ _ found (invalidated _ trader some_found refl refl) refl
                  refl)
                refl refl)
            λ accounts. Ends-write Q env _ _ _ (
              let paid = record d {
                value_date = some day;
                validation_status = valid;
                payments =
                    payment_rows env d
                      (assign calculated (nostro_by_currency db.nostro_accounts)).0;
              } in
              let H = Handled Q (persist_failed env) in
              let calm = λ (x : Error) (u : Session) (kept : u.stored ≡ db).
                persist_failed_quiet Q (λ y v kept_v. failed _ refl kept_v) x u kept in
              Ends-catch Q _ _ _ (
                Ends-set_validation_status H env _ valid _ _ (
                  Ends-replace_payments env H db db calm _ paid.payments _ _ refl
                    (ap (λ rows. record db { deals = rows }) (third_put _ _ _ db.deals refl refl))
                    λ t stored current effects. Ends-save_existing H db calm env _ _ _ stored (
                      Ends-log H db calm env _ _ _ stored (
                        Ends-commit H db calm env _ _ stored (
                          Ends-pure H _ _ (
                            settled paid _ (
                              by-Move env user db d paid _ found
                                (validated day paid.payments trader
                                  (record {
                                    clean = clean;
                                    within_limits = limits;
                                    settles = e;
                                    calculated = calculated;
                                    amounts = amounts;
                                    accounts = accounts;
                                    paid = refl;
                                  })
                                  refl refl)
                                refl
                                (ap
                                  (λ (now : Database). record now {
                                    audit_log = now.audit_log ++ (validation_entry paid day ∷ []);
                                  })
                                  current))))))))))

  pub validate_deal-Refines :
      (id : ℕ) → Ends (Refines checking id) (validate_deal env id user (open_session db))
  unfolding validate_deal settle_deal
  validate_deal-Refines id =
      let Q = Refines checking id in
      let q = quiet checking id in
      Ends-load Q db q env id _ _ refl λ d found.
        Ends-raise_if Q _ _ _ _ (λ _. failed _ refl refl)
          λ guard.
            let trader = IsTrader-only d user guard in
            Ends-gets Q _ _ _ (
              Ends-gets Q _ _ _ (
                Ends-refuse_issues Q db q env d user _ _ _ refl
                  (λ some_found.
                    marked _ _
                      (by-Move env user db d _ _ found (invalidated _ trader some_found refl refl)
                        refl refl)
                      refl refl)
                  λ clean. Ends-gets Q _ _ _ (
                    Ends-or_raise Q _ _ _ _ (λ _. failed _ refl refl)
                      λ over checked.
                        Ends-refuse_issues Q db q env d user over _ _ refl
                          (λ some_over.
                            marked _ _
                              (by-Move env user db d _ _ found
                                (invalidated over trader some_over refl refl) refl refl)
                              refl refl)
                          λ none_over. Ends-part Q _ _ _ (
                            Ends-gets (After Q _) _ _ _ (
                              settle_on-Refines id d _ found trader clean (rw none_over at checked)
                                (λ d' t h.
                                  Ends-pure Q _ t
                                    (done (served d' _ h refl (to_response-IsAnswer d' _ _))))
                                _ refl)))))

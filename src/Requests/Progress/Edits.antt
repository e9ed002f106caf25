-- ===== src/Requests/Progress/Edits.antt =====
-- The operations of `DealService`, where their guards are met.
use fx_deal_manager.Prelude.{ℕ, String, ◌≡◌, refl, ap, ◌∙◌, true, none, some, List, [], is_some}
use fx_deal_manager.Domain.{
  draft, valid, not_validated, FxDeal, Payment, UserClaims, DealCreateRequest, DealUpdateRequest,
  Patch, unset, null, value, Counterparty,
}
use fx_deal_manager.Settlement.{date}
use fx_deal_manager.Payments.{CalculatedPayment, calculate, assign}
use fx_deal_manager.Nsi.{get_counterparty, nostro_by_currency}
use fx_deal_manager.Store.{Database, Environment, Session, ok, ◌>>=◌, find, counterparty_exists}
use fx_deal_manager.Store.Rows.{is_some-find-put}
use fx_deal_manager.Store.Steps.{
  Ends, Ends-ok, Ends-pure, Ends-gets, Ends-write, Ends-set_validation_status,
}
use fx_deal_manager.Store.Calm.{
  Ends-pass, Ends-given, log_ok, commit_ok, save_existing_ok, save_new_ok, replace_payments_ok,
  clear_payments_ok,
}
use fx_deal_manager.Deals.{
  create_deal, update_deal, new_deal, validate_deal, settle_deal, settle_on, store_validated,
  require_counterparty, check_counterparty, apply_updates,
}
use fx_deal_manager.Deals.Updates.{apply_updates-SameDeal}
use fx_deal_manager.Lifecycle.{IsKnown, IsTrader, IsChecked}
use fx_deal_manager.Requests.{open_session}
use fx_deal_manager.Requests.Progress.{
  creator_passes, trader_passes, IsServed, Q, IsServed-catch, IsServed-bind, load_ok, no_issues_ok,
  present,
}

module _ (env : Environment) (accepting : (db : Database) → env.accepts db ≡ true)
    (user : UserClaims) (db : Database) where
  counterparty_ok :
      (key : String) (row : Counterparty) (s : Session)
      → get_counterparty s.current.counterparties key ≡ some row
      → row.is_active ≡ true
      → require_counterparty env key s ≡ (ok tt, s)
  unfolding require_counterparty ◌>>=◌ counterparty_exists
  counterparty_ok key row s h active = rw (h, counterparty_exists) (rw active)

  check_ok :
      (patch : Patch String)
      → IsKnown db patch
      → check_counterparty env patch (open_session db) ≡ (ok tt, open_session db)
  unfolding check_counterparty ◌>>=◌
  check_ok unset h = refl
  check_ok null h = elim h [ ]
  check_ok (value key) (row, h, active) = counterparty_ok key row (open_session db) h active

  pub create_deal_served :
      (id : ℕ) (payload : DealCreateRequest) (row : Counterparty)
      → find id db.deals ≡ none
      → get_counterparty db.counterparties payload.counterparty_id ≡ some row
      → row.is_active ≡ true
      → Ends Q (create_deal env id payload user (open_session db))
  unfolding create_deal new_deal
  create_deal_served id payload row unused h active =
      Ends-ok Q _ _ _ _ _ (counterparty_ok _ row _ h active) (
        Ends-ok Q _ _ _ _ _ (save_new_ok env accepting _ _ unused) (
          Ends-ok Q _ _ _ _ _ (log_ok env accepting _ _) (
            Ends-ok Q _ _ _ _ _ (commit_ok env accepting _)
              (Ends-gets Q _ _ _ (Ends-pure Q _ _ (_, refl))))))

  pub update_deal_served :
      (id : ℕ) (payload : DealUpdateRequest) (d c : FxDeal)
      → find id db.deals ≡ some d
      → d.deal_state ≡ draft
      → d.trader_id ≡ user.user_id
      → IsKnown db payload.counterparty_id
      → apply_updates payload d ≡ some c
      → Ends Q (update_deal env id payload user (open_session db))
  unfolding update_deal
  update_deal_served id payload d c found state creator known applied =
      Ends-ok Q _ _ _ _ _ (load_ok env accepting id _ d found) (
        Ends-gets Q _ _ _ (
          Ends-pass Q _ _ _ _ (rw state refl) (
            Ends-pass Q _ _ _ _ (creator_passes d user creator) (
              Ends-ok Q _ _ _ _ _ (check_ok payload.counterparty_id known) (
                Ends-given Q _ _ _ _ _ applied (
                  Ends-write Q env _ _ _ (
                    Ends-set_validation_status Q env _ not_validated _ _ (
                      Ends-ok Q _ _ _ _ _ (clear_payments_ok env accepting _ _) (
                        Ends-ok Q _ _ _ _ _
                          (save_existing_ok env accepting _ _ (
                            is_some-find-put c.id _ _
                            ∙ is_some-find-put c.id _ _
                            ∙ is_some-find-put c.id _ _
                            ∙ rw (apply_updates-SameDeal payload d c applied).id
                                (present db id d found)))
                          (Ends-ok Q _ _ _ _ _ (log_ok env accepting _ _) (
                            Ends-ok Q _ _ _ _ _ (commit_ok env accepting _)
                              (Ends-pure Q _ _ (_, refl)))))))))))))

  -- The last part of a validation.
  settle_on-IsServed :
      (d : FxDeal) (day : ℕ) (calculated : List CalculatedPayment)
      → env.payment_save_fault_after ≡ none
      → is_some (find d.id db.deals) ≡ true
      → calculate d day ≡ some calculated
      → (assign calculated (nostro_by_currency db.nostro_accounts)).1 ≡ []
      → Ends IsServed (settle_on env d user (date day) (open_session db))
  unfolding settle_on store_validated
  settle_on-IsServed d day calculated no_fault there amounts accounts =
      let Q = IsServed {A = FxDeal} in
      Ends-given Q _ _ _ _ _ amounts (
        Ends-gets Q _ _ _ (
          Ends-ok Q _ _ _ _ _ (no_issues_ok env accepting d user _ _ accounts) (
            Ends-write Q env _ _ _ (
              IsServed-catch _ _ _ (
                Ends-set_validation_status Q env _ valid _ _ (
                  let (d', t, e, same_id, rows) =
                    replace_payments_ok env accepting no_fault _ _ _ in
                  Ends-ok Q _ _ _ _ d' e (
                    Ends-ok Q _ _ _ _ _
                      (save_existing_ok env accepting _ _ (
                        ap (λ k. is_some (find k t.current.deals)) same_id
                        ∙ rows d.id
                        ∙ is_some-find-put d.id _ _
                        ∙ is_some-find-put d.id _ _
                        ∙ there))
                      (Ends-ok Q _ _ _ _ _ (log_ok env accepting _ _) (
                        Ends-ok Q _ _ _ _ _ (commit_ok env accepting _)
                          (Ends-pure Q _ _ (_, refl)))))))))))

  pub validate_deal_served :
      (id : ℕ) (d : FxDeal) (day : ℕ) (rows : List Payment)
      → env.payment_save_fault_after ≡ none
      → find id db.deals ≡ some d
      → IsTrader d user
      → IsChecked env db d day rows
      → Ends Q (validate_deal env id user (open_session db))
  unfolding validate_deal settle_deal
  validate_deal_served id d day rows no_fault found trader checked =
      Ends-ok Q _ _ _ _ _ (load_ok env accepting id _ d found) (
        Ends-pass Q _ _ _ _ (trader_passes d user trader) (
          Ends-gets Q _ _ _ (
            Ends-gets Q _ _ _ (
              Ends-ok Q _ _ _ _ _ (no_issues_ok env accepting d user _ _ checked.clean) (
                Ends-gets Q _ _ _ (
                  Ends-given Q _ _ _ _ _ checked.within_limits (
                    Ends-ok Q _ _ _ _ _ (no_issues_ok env accepting d user [] _ refl) (
                      IsServed-bind _ _ _
                        (Ends-gets IsServed _ _ _ (
                          rw checked.settles (
                            settle_on-IsServed d day checked.calculated no_fault
                              (present db id d found) checked.amounts checked.accounts)))
                        λ updated t. Ends-pure Q _ _ (_, refl)))))))))

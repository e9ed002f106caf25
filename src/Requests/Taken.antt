-- ===== src/Requests/Taken.antt =====
-- What an approval that is answered with a deal has sent.
use fx_deal_manager.Prelude.{ℕ, String, ◌≡◌, inl, inr, none, some, List}
use fx_deal_manager.Domain.{FxDeal, UserClaims, ApprovalDecision, DealResponse, approved}
use fx_deal_manager.Position.{Effect, send_deal}
use fx_deal_manager.Store.{Database, Environment, Session, Result, ok, find}
use fx_deal_manager.Store.Steps.{
  Ends, Ends-ok, Ends-err, Ends-raise_if, Ends-emit, Ends-write, Ends-set_deal_state,
}
use fx_deal_manager.Store.Plain.{IsPlain-bind, IsPlain-log}
use fx_deal_manager.Deals.Steps.{load_tries}
use fx_deal_manager.Approval.{require_positioner, save_solution, approve_deal}
use fx_deal_manager.Lifecycle.{decided}
use fx_deal_manager.Requests.{approve, serve, dispatch, require_role, open_session, handle}
use fx_deal_manager.Requests.Sending.{IsPlain-finish_approval}

module _ (env : Environment) (user : UserClaims) (db : Database) (id : ℕ) (c : String) where
  -- The effects are the sending of the deal that was found.
  abbrev pub IsSent : List Effect → Type 0
  IsSent effects =
      (d : FxDeal) × (find id db.deals ≡ some d)
      × (effects
          ≡ (send_deal env.gateway c (decided d user approved ApprovalDecision.approve none)).1)

  abbrev Answered : Result DealResponse → Session → Type 0
  Answered r t = (a : DealResponse) → r ≡ ok a → IsSent t.effects

  approve_deal-Answered : Ends Answered (approve_deal env id c user (open_session db))
  unfolding approve_deal require_positioner save_solution
  approve_deal-Answered = elim (load_tries env id (open_session db)) [
    | inl e ↦ Ends-err Answered _ _ _ _ _ e (λ a h. cc)
    | inr (d, e, found) ↦ Ends-ok Answered _ _ _ _ d e (
        Ends-raise_if Answered _ _ _ _ (λ _ a h. cc)
          λ role.
            Ends-raise_if Answered _ _ _ _ (λ _ a h. cc)
              λ state.
                Ends-raise_if Answered _ _ _ _ (λ _ a h. cc)
                  λ other. Ends-write Answered env _ _ _ (
                    Ends-set_deal_state Answered env _ approved _ _ (
                      Ends-write Answered env _ _ _ (
                        Ends-emit Answered _ _ _ (record {
                          holds = λ a h. (
                            d,
                            found,
                            (IsPlain-bind _ _ (IsPlain-log env _)
                                  λ _. IsPlain-finish_approval env _ _ _ _ _).at
                                _,
                          );
                        })))))
  ]

  -- An approval that is answered with a deal has sent that deal.
  pub handle-IsSent :
      (a : DealResponse)
      → (handle env user (approve id c) db).0 ≡ ok a
      → IsSent (handle env user (approve id c) db).1.effects
  unfolding handle dispatch require_role serve
  handle-IsSent a h =
      (Ends-raise_if Answered _ _ _ _ (λ _ b e. cc) λ _. approve_deal-Answered).holds a h

-- ===== src/Requests/Refusing.antt =====
-- What the requests raise.
use fx_deal_manager.Prelude.{ℕ, String, refl, inl, inr}
use fx_deal_manager.Domain.{UserClaims, DealResponse, approved}
use fx_deal_manager.Store.{Database, Environment, Session, Result}
use fx_deal_manager.Store.Steps.{
  Ends, Ends-ok, Ends-err, Ends-raise_if, Ends-emit, Ends-write, Ends-set_deal_state,
}
use fx_deal_manager.Store.Plain.{Refuses, IsPlain, IsPlain-bind, IsPlain-log}
use fx_deal_manager.Deals.Steps.{load_tries}
use fx_deal_manager.Approval.{require_positioner, save_solution, approve_deal}
use fx_deal_manager.Requests.{
  Request, create, update, validate, submit, take_back, approve, return, reject, cancel, serve,
  dispatch, require_role, open_session, handle,
}
use fx_deal_manager.Requests.Sending.{
  IsPlain-create_deal, IsPlain-update_deal, IsPlain-validate_deal, IsPlain-submit_deal,
  IsPlain-take_for_edit, IsPlain-cancel_deal, IsPlain-return_deal, IsPlain-reject_deal,
  IsPlain-finish_approval,
}

module _ (env : Environment) (user : UserClaims) (db : Database) where
  abbrev Q : Result DealResponse → Session → Type 0
  Q r t = Refuses r

  approve_deal-Refuses :
      (id : ℕ) (c : String) → Ends Q (approve_deal env id c user (open_session db))
  unfolding approve_deal require_positioner save_solution
  approve_deal-Refuses id c = elim (load_tries env id (open_session db)) [
    | inl e ↦ Ends-err Q _ _ _ _ _ e refl
    | inr (d, e, found) ↦ Ends-ok Q _ _ _ _ d e (
        Ends-raise_if Q _ _ _ _ (λ _. refl)
          λ role.
            Ends-raise_if Q _ _ _ _ (λ _. refl)
              λ state.
                Ends-raise_if Q _ _ _ _ (λ _. refl)
                  λ other. Ends-write Q env _ _ _ (
                    Ends-set_deal_state Q env _ approved _ _ (
                      Ends-write Q env _ _ _ (
                        Ends-emit Q _ _ _ (record {
                          holds =
                              (IsPlain-bind _ _ (IsPlain-log env _)
                                  λ _. IsPlain-finish_approval env _ _ _ _ _).refuses
                                _;
                        })))))
  ]

  plain-Refuses :
      {m : Session → Result DealResponse × Session} → IsPlain m → Ends Q (m (open_session db))
  plain-Refuses i = record { holds = i.refuses (open_session db) }

  serve-Refuses : (request : Request) → Ends Q (serve env user request (open_session db))
  unfolding serve
  serve-Refuses (create id payload) = plain-Refuses (IsPlain-create_deal env id payload user)
  serve-Refuses (update id payload) = plain-Refuses (IsPlain-update_deal env id payload user)
  serve-Refuses (validate id) = plain-Refuses (IsPlain-validate_deal env id user)
  serve-Refuses (submit id) = plain-Refuses (IsPlain-submit_deal env id user)
  serve-Refuses (take_back id) = plain-Refuses (IsPlain-take_for_edit env id user)
  serve-Refuses (approve id c) = approve_deal-Refuses id c
  serve-Refuses (return id comment) = plain-Refuses (IsPlain-return_deal env id comment user)
  serve-Refuses (reject id comment) = plain-Refuses (IsPlain-reject_deal env id comment user)
  serve-Refuses (cancel id comment) = plain-Refuses (IsPlain-cancel_deal env id comment user)

  -- A request that is not answered with a deal ends with an error.
  pub handle-Refuses : (request : Request) → Refuses (handle env user request db).0
  unfolding handle dispatch require_role
  handle-Refuses request = (Ends-raise_if Q _ _ _ _ (λ _. refl) λ _. serve-Refuses request).holds

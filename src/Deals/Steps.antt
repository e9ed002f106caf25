-- ===== src/Deals/Steps.antt =====
-- The rules of Store/Steps for `load_deal` and for the refusal of a list of issues.
use fx_deal_manager.Prelude.{ℕ, ◌≡◌, refl, ◌≢◌, ◌⊎◌, inl, inr, none, some, List, [], ◌∷◌}
use fx_deal_manager.Domain.{FxDeal, UserClaims, invalid}
use fx_deal_manager.Issues.{ValidationIssue}
use fx_deal_manager.Store.{
  Database, AuditValue, AuditAction, Environment, Session, Error, http, validation_failed, Detail,
  Result, ok, err, Action, ◌>>=◌, find,
}
use fx_deal_manager.Store.Steps.{
  Ends, After, written, logged, committed, Ends-ok, Ends-err, Ends-part, Ends-pure, Ends-raise,
  Ends-set_validation_status, Ends-log, Ends-commit, get_tries,
}
use fx_deal_manager.Deals.{entry, load_deal, reject_validation, refuse_issues}

-- The session after a deal is marked INVALID, with its entry, and committed.
abbrev pub refused : Environment → FxDeal → UserClaims → List ValidationIssue → Session → Session
refused env d user found s = committed (
    logged (entry d user AuditAction.validate_failed none (AuditValue.issues found))
      (written env (record d { validation_status = invalid }) s))

pub load_tries :
    (env : Environment) (id : ℕ) (s : Session)
    → (load_deal env id s ≡ (err (http 404 (Detail.text "Deal not found")), s))
      ⊎ ((d : FxDeal) × (load_deal env id s ≡ (ok d, s)) × (find id s.current.deals ≡ some d))
unfolding load_deal ◌>>=◌
load_tries env id s = elim (get_tries env id s) [
  | inl e ↦ inl (rw e)
  | inr (d, e, f) ↦ inr (d, rw e, f)
]

module _ {B : Type 0} (Q : Result B → Session → Type 0) (db : Database)
    (quiet : (x : Error) (u : Session) → u.stored ≡ db → Q (err x) u) (env : Environment) where
  pub Ends-load :
      (id : ℕ) (k : FxDeal → Action B) (s : Session)
      → s.stored ≡ db
      → ((d : FxDeal) → find id s.current.deals ≡ some d → Ends Q (k d s))
      → Ends Q ((load_deal env id >>= k) s)
  Ends-load id k s kept found = elim (load_tries env id s) [
    | inl e ↦ Ends-err Q (load_deal env id) k s s _ e (quiet _ s kept)
    | inr (d, e, f) ↦ Ends-ok Q (load_deal env id) k s s d e (found d f)
  ]

  pub Ends-refuse_issues :
      (d : FxDeal) (user : UserClaims) (found : List ValidationIssue) (k : Unit {0} → Action B)
      (s : Session)
      → s.stored ≡ db
      → (found ≢ [] → Q (err (validation_failed found)) (refused env d user found s))
      → (found ≡ [] → Ends Q (k tt s))
      → Ends Q ((refuse_issues env d user found >>= k) s)
  unfolding refuse_issues reject_validation
  Ends-refuse_issues d user [] k s kept bad good =
      Ends-part Q (refuse_issues env d user []) k s (Ends-pure (After Q k) tt s (good refl))
  Ends-refuse_issues d user (x ∷ xs) k s kept bad good =
      Ends-part Q (refuse_issues env d user (x ∷ xs)) k s (
        Ends-set_validation_status (After Q k) env d invalid _ s (
          Ends-log (After Q k) db quiet env _ _ _ kept (
            Ends-commit (After Q k) db quiet env _ _ kept
              (Ends-raise (After Q k) (validation_failed (x ∷ xs)) _ (bad (λ e. cc))))))

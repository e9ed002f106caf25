-- ===== src/Requests/Refinement.antt =====
-- The requests of routes/deals.py against the specification in Lifecycle.
use fx_deal_manager.Prelude.{
  ℕ, String, some, ◌≡◌, ◌⊎◌, inl, inr, refl, true, false, [], ◌∷◌, arith, same, Bool-cases,
}
use fx_deal_manager.Domain.{UserClaims, ApprovalDecision, return_for_edit}
use fx_deal_manager.Store.{Database, Environment, http, role_not_allowed, err, ◌>>=◌}
use fx_deal_manager.Store.Steps.{Ends, Ends-raise_if}
use fx_deal_manager.Lifecycle.{Commit}
use fx_deal_manager.Lifecycle.Outcome.{
  Kind, opening, editing, checking, submitting, taking_back, executing, deciding, calling_off,
  Outcome, failed, IsOutcome, Outcome-Commit,
}
use fx_deal_manager.Requests.{
  Request, create, update, validate, submit, take_back, approve, return, reject, cancel, one_of,
  roles, require_role, serve, dispatch, open_session, handle,
}
use fx_deal_manager.Requests.Approvals.{
  submit_deal-Refines, take_for_edit-Refines, cancel_deal-Refines, return_deal-Refines,
  reject_deal-Refines, approve_deal-Refines,
}
use fx_deal_manager.Requests.Edits.{create_deal-Refines, update_deal-Refines, validate_deal-Refines}

-- The deal that a request is about.
abbrev pub target : Request → ℕ
target (create id payload) = id
target (update id payload) = id
target (validate id) = id
target (submit id) = id
target (take_back id) = id
target (approve id correlation_id) = id
target (return id comment) = id
target (reject id comment) = id
target (cancel id comment) = id

-- The move that a request is for.
abbrev pub aim : Request → Kind
aim (create id payload) = opening payload
aim (update id payload) = editing payload
aim (validate id) = checking
aim (submit id) = submitting
aim (take_back id) = taking_back
aim (approve id correlation_id) = executing correlation_id
aim (return id comment) = deciding return_for_edit (some comment)
aim (reject id comment) = deciding ApprovalDecision.reject comment
aim (cancel id comment) = calling_off comment

-- The two roles that may make a request, of `roles` independently.
abbrev pub IsAllowed : Request → String → Type 0
IsAllowed (create id payload) role = (role ≡ "TRADER") ⊎ (role ≡ "ADMIN")
IsAllowed (update id payload) role = (role ≡ "TRADER") ⊎ (role ≡ "ADMIN")
IsAllowed (validate id) role = (role ≡ "TRADER") ⊎ (role ≡ "ADMIN")
IsAllowed (submit id) role = (role ≡ "TRADER") ⊎ (role ≡ "ADMIN")
IsAllowed (take_back id) role = (role ≡ "TRADER") ⊎ (role ≡ "ADMIN")
IsAllowed (cancel id comment) role = (role ≡ "TRADER") ⊎ (role ≡ "ADMIN")
IsAllowed (approve id c) role = (role ≡ "POSITIONER") ⊎ (role ≡ "ADMIN")
IsAllowed (return id comment) role = (role ≡ "POSITIONER") ⊎ (role ≡ "ADMIN")
IsAllowed (reject id comment) role = (role ≡ "POSITIONER") ⊎ (role ≡ "ADMIN")

either_role :
    (role one two : String)
    → (((role ≡ one) ⊎ (role ≡ two)) × (one_of role (one ∷ two ∷ []) ≡ true))
      ⊎ (¬ ((role ≡ one) ⊎ (role ≡ two)) × (one_of role (one ∷ two ∷ []) ≡ false))
either_role role one two = elim (Bool-cases (same role one)) [
  | inl e ↦ inl (inl (ground arith), ground arith)
  | inr e ↦ elim (Bool-cases (same role two)) [
    | inl f ↦ inl (inr (ground arith), ground arith)
    | inr f ↦ inr (λ h. ground arith, ground arith)
  ]
]

role_cases :
    (request : Request) (role : String)
    → (IsAllowed request role × (one_of role (roles request) ≡ true))
      ⊎ (¬ (IsAllowed request role) × (one_of role (roles request) ≡ false))
role_cases (create id payload) role = either_role role "TRADER" "ADMIN"
role_cases (update id payload) role = either_role role "TRADER" "ADMIN"
role_cases (validate id) role = either_role role "TRADER" "ADMIN"
role_cases (submit id) role = either_role role "TRADER" "ADMIN"
role_cases (take_back id) role = either_role role "TRADER" "ADMIN"
role_cases (cancel id comment) role = either_role role "TRADER" "ADMIN"
role_cases (approve id c) role = either_role role "POSITIONER" "ADMIN"
role_cases (return id comment) role = either_role role "POSITIONER" "ADMIN"
role_cases (reject id comment) role = either_role role "POSITIONER" "ADMIN"

module _ (env : Environment) (user : UserClaims) (db : Database) where
  serve-IsOutcome :
      (request : Request)
      → Ends
          (IsOutcome env user db (aim request) (target request))
          (serve env user request (open_session db))
  unfolding serve
  serve-IsOutcome (create id payload) = create_deal-Refines env user db id payload
  serve-IsOutcome (update id payload) = update_deal-Refines env user db id payload
  serve-IsOutcome (validate id) = validate_deal-Refines env user db id
  serve-IsOutcome (submit id) = submit_deal-Refines env user db id
  serve-IsOutcome (take_back id) = take_for_edit-Refines env user db id
  serve-IsOutcome (approve id correlation_id) = approve_deal-Refines env user db id correlation_id
  serve-IsOutcome (return id comment) = return_deal-Refines env user db id comment
  serve-IsOutcome (reject id comment) = reject_deal-Refines env user db id comment
  serve-IsOutcome (cancel id comment) = cancel_deal-Refines env user db id comment

  -- A request comes to one of these: an error, and nothing is committed, in the audit log neither,
  -- also where an approver is refused an own deal; the answer that describes
  -- the deal that it has created, or has moved by the very move that it asks for with its data, and
  -- that deal is committed with the entries of the move; a validation or a submission that finds
  -- issues, which are the answer, and marks the deal INVALID; an approval whose payments were not
  -- taken, answered 502 with the error of the position system, and the deal is APPROVED.
  pub handle-Outcome :
      (request : Request)
      → (let (result, session) = handle env user request db in
          Outcome env user db (aim request) (target request) result session.stored)
  unfolding handle dispatch require_role
  handle-Outcome request =
      (Ends-raise_if (IsOutcome env user db (aim request) (target request)) _ _ _ _
        (λ _. failed _ refl refl) λ _. serve-IsOutcome request).holds

  -- Whatever a request does, with or without an error, what it leaves committed is what was there, or
  -- that with one new DRAFT deal, or that with one deal moved as Lifecycle allows; with a new deal and
  -- with a move go exactly the audit entries that Lifecycle names.
  pub handle-Commit : (request : Request) → Commit env user db (handle env user request db).1.stored
  handle-Commit request = Outcome-Commit env user db _ _ _ _ (handle-Outcome request)

  -- Who may make a request: the deals are made by traders, and decided on by positioners; an administrator may
  -- do both. A request is served exactly for those, and for anybody else it is answered 403, sends nothing and
  -- leaves the database, its audit log included, as it was.
  pub handle_role :
      (request : Request)
      → (IsAllowed request user.role
          × (handle env user request db ≡ serve env user request (open_session db)))
        ⊎ (¬ (IsAllowed request user.role)
            × (handle env user request db
                ≡ (err (http 403 (role_not_allowed user.role)), open_session db)))
  unfolding handle dispatch require_role ◌>>=◌
  handle_role request = elim (role_cases request user.role) [
    | inl (h, e) ↦ inl (h, rw e)
    | inr (h, e) ↦ inr (h, rw e)
  ]

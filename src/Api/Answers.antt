-- ===== src/Api/Answers.antt =====
-- What the answer of the application tells of the database.
use mathlib.Core.Path.{subst}
use fx_deal_manager.Prelude.{
  ℕ, String, ◌≡◌, ◌≤◌, refl, sym, ◌∙◌, ap, inl, inr, true, Option, none, some, arith, same, List,
  Bool-cases,
}
use fx_deal_manager.Domain.{UserClaims, DealResponse, FxDeal}
use fx_deal_manager.Issues.{ValidationIssue}
use fx_deal_manager.Auth.{
  TokenClaims, Decoded, decoded, invalid_token, no_signing_key, Credentials, is_user_token,
  with_claim, claims_of, validate_user_token, get_current_user,
}
use fx_deal_manager.Auth.Claims.{IsFrom, get_current_user-IsFrom}
use fx_deal_manager.Store.{
  Database, Environment, Detail, Error, http, deal_not_found, validation_failed, report_incomplete,
  internal, Result, ok, err,
}
use fx_deal_manager.Store.Plain.{is_refusal, Refuses}
use fx_deal_manager.Lifecycle.Outcome.{
  Done, served, created, Outcome, failed, marked, unsent, Moved, marking, failing,
}
use fx_deal_manager.Requests.{Request}
use fx_deal_manager.Requests.Refinement.{aim, target, handle-Outcome}
use fx_deal_manager.Requests.Refusing.{handle-Refuses}
use fx_deal_manager.Api.{
  deal, issues, Response, Framework, answer_to, success_status, answer_of, authenticated, exchange,
}

-- What the documentation of FastAPI says of the two answers.
pub record IsDocumented (f : Framework) : Type 0 where
  pub http_status : (code : ℕ) (d : Detail) → (f.http_exception code d).status_code ≡ code
  pub error_status : f.server_error.status_code ≡ 500

module _ (lower : String → String) (decode : String → Decoded) (env : Environment)
    (given : Option Credentials) (request : Request) (db : Database) where
  -- What an answer tells, with what is committed after it.
  pub data Told (response : Response) (db' : Database) : Type 0 where
    done :
        (user : UserClaims) (a : DealResponse)
        → IsFrom lower decode given user
        → response ≡ record { status_code = success_status request; content = deal a }
        → Done env user db (aim request) (target request) (ok a) db'
        → Told response db'
    refused : 400 ≤ response.status_code → db' ≡ db → Told response db'
    found_issues :
        (user : UserClaims) (d' : FxDeal) (found : List ValidationIssue)
        → IsFrom lower decode given user
        → response ≡ record { status_code = 422; content = issues found }
        → Moved env user db (marking found) (target request) d' db'
        → Told response db'
    not_taken :
        (user : UserClaims) (d' : FxDeal) (c : String)
        → IsFrom lower decode given user
        → response.status_code ≡ 502
        → Moved env user db (failing c) (target request) d' db'
        → Told response db'

  module _ (f : Framework) (documented : IsDocumented f) where
    refusal_status : (x : Error) → is_refusal x ≡ true → 400 ≤ (answer_to f x).status_code
    unfolding answer_to
    refusal_status (http code d) h = rw (documented.http_status code d) (ground arith)
    refusal_status (validation_failed found) h = omega arith
    refusal_status (report_incomplete errors) h = omega arith
    refusal_status deal_not_found h = rw documented.error_status (omega arith)
    refusal_status (internal fault) h = rw documented.error_status (omega arith)

    Done-Told :
        (user : UserClaims) (r : Result DealResponse) (db' : Database) (a : DealResponse)
        → IsFrom lower decode given user
        → Done env user db (aim request) (target request) r db'
        → r ≡ ok a
        → Told (answer_of f request r) db'
    unfolding answer_of
    Done-Told user r db' a from d e =
        done user a from (ap (answer_of f request) e)
          (subst (λ t. Done env user db (aim request) (target request) t db') e d)

    Outcome-Told :
        (user : UserClaims) (r : Result DealResponse) (db' : Database)
        → IsFrom lower decode given user
        → Refuses r
        → Outcome env user db (aim request) (target request) r db'
        → Told (answer_of f request r) db'
    unfolding answer_of answer_to
    Outcome-Told user r db' from h (Outcome.done (served d' a m e s)) =
        Done-Told user r db' a from (served d' a m e s) e
    Outcome-Told user r db' from h (Outcome.done (created payload a k unused active kept e s)) =
        Done-Told user r db' a from (created payload a k unused active kept e s) e
    Outcome-Told user r db' from h (failed x e kept) =
        refused
          (subst (λ t. 400 ≤ (answer_of f request t).status_code) (sym e)
            (refusal_status x (subst Refuses e h)))
          kept
    Outcome-Told user r db' from h (marked d' found m c e) =
        found_issues user d' found from (ap (answer_of f request) e) m
    Outcome-Told user r db' from h (unsent d d' c there m k e) =
        not_taken user d' c from
          (ap (λ t. (answer_of f request t).status_code) e ∙ documented.http_status 502 _) m

    authenticated-Told :
        (r : Result UserClaims)
        → get_current_user lower decode given ≡ r
        → Refuses r
        → (let (result, session) = authenticated f lower decode env r request db in
            Told (answer_of f request result) session.stored)
    unfolding authenticated answer_of
    authenticated-Told (err x) e h = refused (refusal_status x h) refl
    authenticated-Told (ok user) e h =
        Outcome-Told user _ _ ((get_current_user-IsFrom lower decode given user).0 e)
          (handle-Refuses env user db request) (handle-Outcome env user db request)

  claim-Refuses :
      (claim : Option String) (next : String → Result UserClaims)
      → ((value : String) → Refuses (next value))
      → Refuses (with_claim claim next)
  claim-Refuses none next h = refl
  claim-Refuses (some value) next h = h value

  claims_of-Refuses : (claims : TokenClaims) → Refuses (claims_of claims)
  unfolding claims_of
  claims_of-Refuses claims = claim-Refuses claims.user_id _ λ _. claim-Refuses claims.email _ λ _.
      claim-Refuses claims.first_name _
        λ _. claim-Refuses claims.last_name _ λ _. claim-Refuses claims.role _ λ _. tt

  validate-Refuses : (o : Decoded) → Refuses (validate_user_token o)
  unfolding validate_user_token
  validate-Refuses invalid_token = refl
  validate-Refuses no_signing_key = refl
  validate-Refuses (decoded claims) = elim (Bool-cases (is_user_token claims.token_type)) [
    | inl e ↦ rw e (claims_of-Refuses claims)
    | inr e ↦ rw e refl
  ]

  user-Refuses : (o : Option Credentials) → Refuses (get_current_user lower decode o)
  unfolding get_current_user
  user-Refuses none = refl
  user-Refuses (some c) = elim (Bool-cases (same (lower c.scheme) "bearer")) [
    | inl e ↦ rw e (validate-Refuses (decode c.credentials))
    | inr e ↦ rw e refl
  ]

-- The answer tells what has happened. A request to a deal route comes to one of these: a status below
-- 400, 201 for a new deal and 200 otherwise, with the deal as the body, and the request comes from the
-- user that its token names and is done and committed as asked; a status from 400 on, and nothing is
-- committed, in the audit log neither, also where an approver is refused an own deal with 403; 422 with
-- the issues found, and the deal is committed as INVALID; or 502, and the deal is committed as APPROVED
-- without its payments taken.
pub exchange-Told :
    (f : Framework) (lower : String → String) (decode : String → Decoded) (env : Environment)
    (method path : String) (given : Option Credentials) (request : Request) (db : Database)
    → IsDocumented f
    → (let x = exchange f lower decode env method path given request db in
        Told lower decode env given request db x.response x.session.stored)
unfolding exchange
exchange-Told f lower decode env method path given request db documented =
    authenticated-Told lower decode env given request db f documented
      (get_current_user lower decode given) refl
      (user-Refuses lower decode env given request db given)

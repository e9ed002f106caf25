-- ===== src/Api.antt =====
-- What a client of the deal routes sees: src/fx_deal_manager/api/exceptions.py with the handlers that
-- `create_app` of main.py registers, the routes of api/routes/deals.py behind `get_current_user`, and the
-- access log of api/middleware.py.
pub mod Answers
pub mod Service
use fx_deal_manager.Prelude.{ℕ, String, Bool, Option, List, [], ◌∷◌}
use fx_deal_manager.Domain.{DealResponse, UserClaims}
use fx_deal_manager.Issues.{ValidationIssue, RegulatoryNsiError}
use fx_deal_manager.Auth.{Decoded, Credentials, get_current_user}
use fx_deal_manager.Store.{
  Database, Environment, Session, Detail, Error, http, deal_not_found, validation_failed,
  report_incomplete, internal, Result, ok, err,
}
use fx_deal_manager.Requests.{
  Request, create, update, validate, submit, take_back, approve, return, reject, cancel,
  open_session, handle,
}

-- A body: a deal, one of the values of `{"detail": ...}`, or what is none of these.
pub data Content : Type 0 where
  deal : DealResponse → Content
  detail : Detail → Content
  issues : List ValidationIssue → Content
  nsi_errors : List RegulatoryNsiError → Content
  other : String → Content

pub record Response : Type 0 where
  pub status_code : ℕ
  pub content : Content

-- What FastAPI and Starlette do with an exception for which the program registers no handler: the
-- answer to an `HTTPException`, and the one that the client gets for any other.
pub record Framework : Type 0 where
  pub http_exception : ℕ → Detail → Response
  pub server_error : Response

-- `validation_failed_handler`
unfoldable pub validation_failed_handler : List ValidationIssue → Response
validation_failed_handler found = record { status_code = 422; content = issues found }

-- `regulatory_report_incomplete_handler`
unfoldable pub regulatory_report_incomplete_handler : List RegulatoryNsiError → Response
regulatory_report_incomplete_handler errors = record {
  status_code = 422;
  content = nsi_errors errors;
}

-- `app.add_exception_handler`
unfoldable pub answer_to : Framework → Error → Response
unfolding validation_failed_handler regulatory_report_incomplete_handler
answer_to f (http code d) = f.http_exception code d
answer_to f (validation_failed found) = validation_failed_handler found
answer_to f (report_incomplete errors) = regulatory_report_incomplete_handler errors
answer_to f deal_not_found = f.server_error
answer_to f (internal fault) = f.server_error

-- `status_code` of the routes, 200 where none is given.
abbrev pub success_status : Request → ℕ
success_status (create id payload) = 201
success_status (update id payload) = 200
success_status (validate id) = 200
success_status (submit id) = 200
success_status (take_back id) = 200
success_status (approve id correlation_id) = 200
success_status (return id comment) = 200
success_status (reject id comment) = 200
success_status (cancel id comment) = 200

unfoldable pub answer_of : Framework → Request → Result DealResponse → Response
unfolding answer_to
answer_of f request (ok a) = record { status_code = success_status request; content = deal a }
answer_of f request (err x) = answer_to f x

-- A line of the access log, less the duration.
pub record AccessLine : Type 0 where
  pub method : String
  pub path : String
  pub status_code : ℕ

-- `RequestLoggingMiddleware.dispatch`: an exception without a handler passes it, and leaves no line.
unfoldable pub access_log : String → String → Result DealResponse → Response → List AccessLine
access_log method path (err deal_not_found) response = []
access_log method path (err (internal fault)) response = []
access_log method path (err (http code d)) response =
    record { method = method; path = path; status_code = response.status_code } ∷ []
access_log method path (err (validation_failed found)) response =
    record { method = method; path = path; status_code = response.status_code } ∷ []
access_log method path (err (report_incomplete errors)) response =
    record { method = method; path = path; status_code = response.status_code } ∷ []
access_log method path (ok a) response =
    record { method = method; path = path; status_code = response.status_code } ∷ []

-- One request with what came of it.
pub record Exchange : Type 0 where
  pub response : Response
  pub session : Session
  pub logged : List AccessLine

module _ (f : Framework) (lower : String → String) (decode : String → Decoded)
    (env : Environment) where
  -- `Depends(get_current_user)` before the route.
  unfoldable pub authenticated :
      Result UserClaims → Request → Database → Result DealResponse × Session
  authenticated (err x) request db = (err x, open_session db)
  authenticated (ok user) request db = handle env user request db

  -- The application at one request to a deal route, with its credentials.
  unfoldable pub exchange : String → String → Option Credentials → Request → Database → Exchange
  unfolding authenticated answer_of access_log
  exchange method path given request db =
      let (result, session) = authenticated (get_current_user lower decode given) request db in
      let response = answer_of f request result in
      record {
        response = response;
        session = session;
        logged = access_log method path result response;
      }

-- ===== src/Requests.antt =====
-- src/fx_deal_manager/api/routes/deals.py with `require_role` of api/dependencies.py and the session
-- of core/database.py: the requests that can change a deal, each in a session of its own.
mod Opening
pub mod Guards
pub mod Approvals
pub mod Edits
pub mod Refinement
pub mod Sending
pub mod Taken
pub mod Refusing
pub mod Progress
pub use Opening.{open_session}
use fx_deal_manager.Prelude.{
  ℕ, String, Bool, true, false, not, ◌||◌, Option, List, [], ◌∷◌, ◌++◌, same,
}
use fx_deal_manager.Domain.{UserClaims, DealCreateRequest, DealUpdateRequest, DealResponse}
use fx_deal_manager.Position.{Effect}
use fx_deal_manager.Store.{
  Database, Environment, Session, Error, http, role_not_allowed, Result, Action, raise_if, ◌>>=◌,
  ◌>>◌,
}
use fx_deal_manager.Deals.{create_deal, update_deal, validate_deal}
use fx_deal_manager.Approval.{
  submit_deal, approve_deal, return_deal, reject_deal, take_for_edit, cancel_deal,
}

-- The handlers with their arguments; `create` and `approve` with the UUID that they draw.
pub data Request : Type 0 where
  create : ℕ → DealCreateRequest → Request
  update : ℕ → DealUpdateRequest → Request
  validate submit take_back : ℕ → Request
  approve : ℕ → String → Request
  return : ℕ → String → Request
  reject cancel : ℕ → Option String → Request

-- `user.role in allowed_roles`
abbrev pub one_of : String → List String → Bool
one_of role [] = false
one_of role (allowed ∷ roles) = same role allowed || one_of role roles

-- `require_role(...)`
unfoldable pub require_role : List String → UserClaims → Action (Unit {0})
require_role allowed user =
    raise_if (not (one_of user.role allowed)) (http 403 (role_not_allowed user.role))

abbrev pub traders : List String
traders = "TRADER" ∷ "ADMIN" ∷ []

abbrev pub positioners : List String
positioners = "POSITIONER" ∷ "ADMIN" ∷ []

-- The role that each route asks for.
abbrev pub roles : Request → List String
roles (create id payload) = traders
roles (update id payload) = traders
roles (validate id) = traders
roles (submit id) = traders
roles (take_back id) = traders
roles (approve id correlation_id) = positioners
roles (return id comment) = positioners
roles (reject id comment) = positioners
roles (cancel id comment) = traders

module _ (env : Environment) (user : UserClaims) where
  -- The service method behind each route.
  unfoldable pub serve : Request → Action DealResponse
  serve (create id payload) = create_deal env id payload user
  serve (update id payload) = update_deal env id payload user
  serve (validate id) = validate_deal env id user
  serve (submit id) = submit_deal env id user
  serve (take_back id) = take_for_edit env id user
  serve (approve id correlation_id) = approve_deal env id correlation_id user
  serve (return id comment) = return_deal env id comment user
  serve (reject id comment) = reject_deal env id comment user
  serve (cancel id comment) = cancel_deal env id comment user

  unfoldable pub dispatch : Request → Action DealResponse
  dispatch request = require_role (roles request) user >> serve request

  -- What a request answers, what it leaves committed, and what it sent.
  unfoldable pub handle : Request → Database → Result DealResponse × Session
  handle request db = dispatch request (open_session db)

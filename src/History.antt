-- ===== src/History.antt =====
-- A history: the requests that reach the service one after the other, each by some user, and what
-- they leave in the database.
pub mod Induction
pub mod FourEyes
pub mod Terms
pub mod States
pub mod Trail
pub mod Paid
pub mod Executed
pub mod Once
pub mod Keys
pub mod Through
use fx_deal_manager.Prelude.{ℕ, List, [], ◌∷◌, ◌++◌}
use fx_deal_manager.Position.{Effect}
use fx_deal_manager.Domain.{UserClaims}
use fx_deal_manager.Store.{Database, Environment}
use fx_deal_manager.Requests.{Request, handle}

abbrev pub Requests : Type 0
Requests = List (UserClaims × Request)

unfoldable pub run : Environment → Requests → Database → Database
run env [] db = db
run env ((user, request) ∷ rest) db = run env rest (handle env user request db).1.stored

-- What the requests have sent to the position system, in order.
unfoldable pub traffic : Environment → Requests → Database → List Effect
traffic env [] db = []
traffic env ((user, request) ∷ rest) db =
    (handle env user request db).1.effects ++ traffic env rest (handle env user request db).1.stored

-- A database with reference data and no deals yet.
abbrev pub without_deals : Database → Database
without_deals db = record db { deals = []; audit_log = [] }

-- ===== src/History/Induction.antt =====
-- Properties of the deals of a history, by induction on its requests.
use mathlib.Core.Path.{subst}
use mathlib.Core.Option.{some-injective}
use fx_deal_manager.Prelude.{
  ℕ, ◌≡◌, inl, inr, some, List, [], ◌∷◌, All, All-append, ◌==◌, Bool-cases,
}
use fx_deal_manager.Domain.{FxDeal, UserClaims, DealCreateRequest}
use fx_deal_manager.Store.{Database, AuditLogEntry, Environment, find, put, at_rest}
use fx_deal_manager.Deals.{new_deal}
use fx_deal_manager.Lifecycle.{Move, Commit, nothing, opened, moved}
use fx_deal_manager.Requests.Refinement.{handle-Commit}
use fx_deal_manager.History.{Requests, run, without_deals}

pub All-put :
    (P : FxDeal → Type 0) (d : FxDeal) (rows : List FxDeal) → All P rows → P d → All P (put d rows)
unfolding put
All-put P d [] h p = tt
All-put P d (row ∷ rows) h p = elim (Bool-cases (row.id == d.id)) [
  | inl e ↦ rw e (p, h.1)
  | inr e ↦ rw e (h.0, All-put P d rows h.1 p)
]

pub All-find :
    (P : FxDeal → Type 0) (id : ℕ) (d : FxDeal) (rows : List FxDeal)
    → All P rows
    → find id rows ≡ some d
    → P d
unfolding find
All-find P id d [] h e = cc
All-find P id d (row ∷ rows) h e = elim (Bool-cases (row.id == id)) [
  | inl same_id ↦ subst P (some-injective row d (rw same_id at e)) h.0
  | inr other ↦ All-find P id d rows h.1 (rw other at e)
]

-- New deals have the property, and every move keeps it.
pub record Kept (env : Environment) (P : FxDeal → Type 0) : Type 0 where
  pub at_start :
      (user : UserClaims) (id : ℕ) (payload : DealCreateRequest)
      → P (at_rest env (new_deal id payload user))
  pub at_move :
      (user : UserClaims) (db : Database) (d d' : FxDeal) (es : List AuditLogEntry)
      → Move env user db d d' es
      → P d
      → P (at_rest env d')

module _ (env : Environment) (P : FxDeal → Type 0) (kept : Kept env P) where
  Commit-All :
      (user : UserClaims) (db db' : Database)
      → Commit env user db db'
      → All P db.deals
      → All P db'.deals
  Commit-All user db db' (nothing e) h = rw e h
  Commit-All user db db' (opened id payload unused active e) h =
      rw e (All-append P db.deals _ h (kept.at_start user id payload, tt))
  Commit-All user db db' (moved id d d' es found m e) h =
      rw e
        (All-put P _ db.deals h (kept.at_move user db d d' es m (All-find P id d db.deals h found)))

  pub run-All :
      (requests : Requests) (db : Database) → All P db.deals → All P (run env requests db).deals
  unfolding run
  run-All [] db h = h
  run-All ((user, request) ∷ rest) db h =
      run-All rest _ (Commit-All user db _ (handle-Commit env user db request) h)

  -- Every deal that is found after any requests on a database without deals.
  pub run-find :
      (requests : Requests) (db : Database) (id : ℕ) (d : FxDeal)
      → find id (run env requests (without_deals db)).deals ≡ some d
      → P d
  run-find requests db id d = All-find P id d _ (run-All requests (without_deals db) tt)

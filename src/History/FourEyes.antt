-- ===== src/History/FourEyes.antt =====
-- The four-eyes rule on the deals of a history.
use fx_deal_manager.Prelude.{ℕ, String, ◌≡◌, refl, sym, ◌≢◌, ◌⊎◌, some, List, arith}
use fx_deal_manager.Domain.{approved, executed, FxDeal, UserClaims, DealCreateRequest}
use fx_deal_manager.Store.{Database, AuditLogEntry, Environment, find, at_rest}
use fx_deal_manager.Deals.{new_deal}
use fx_deal_manager.Deals.Updates.{apply_updates-SameDeal}
use fx_deal_manager.Lifecycle.{
  Move, edited, invalidated, validated, submitted, approved_executed, approved_unsent, sent_back,
  taken_back, called_off,
}
use fx_deal_manager.History.{Requests, run, without_deals}
use fx_deal_manager.History.Induction.{run-find}

-- An approved or executed deal names its positioner, who is not its trader.
abbrev pub IsApprovedByOther : FxDeal → Type 0
IsApprovedByOther d =
    (d.deal_state ≡ approved) ⊎ (d.deal_state ≡ executed)
    → (positioner : String) × (d.positioner_id ≡ some positioner) × (positioner ≢ d.trader_id)

Move-IsApprovedByOther :
    (env : Environment) (user : UserClaims) (db : Database) (d d' : FxDeal)
    (es : List AuditLogEntry)
    → Move env user db d d' es
    → IsApprovedByOther d
    → IsApprovedByOther (at_rest env d')
Move-IsApprovedByOther env user db d d' es (edited payload c s t a active e _) h =
    let same_deal = apply_updates-SameDeal payload d c a in
    rw e (ground (arith, same_deal.deal_state))
Move-IsApprovedByOther env user db d d' es (invalidated found t n e _) h = rw e h
Move-IsApprovedByOther env user db d d' es (validated day rows t c e _) h = rw e h
Move-IsApprovedByOther env user db d d' es (submitted t s v c e _) h = rw e (ground arith)
Move-IsApprovedByOther env user db d d' es (approved_executed c p s o a e _) h =
    rw e λ _. (user.user_id, refl, λ q. o (sym q))
Move-IsApprovedByOther env user db d d' es (approved_unsent c p s o a e _) h =
    rw e λ _. (user.user_id, refl, λ q. o (sym q))
Move-IsApprovedByOther env user db d d' es (sent_back k c w p s e _) h = rw e (ground arith)
Move-IsApprovedByOther env user db d d' es (taken_back t s e _) h = rw e (ground arith)
Move-IsApprovedByOther env user db d d' es (called_off c t s e _) h = rw e (ground arith)

new-IsApprovedByOther :
    (env : Environment) (user : UserClaims) (id : ℕ) (payload : DealCreateRequest)
    → IsApprovedByOther (at_rest env (new_deal id payload user))
unfolding new_deal
new-IsApprovedByOther env user id payload = ground arith

-- After any requests, by any users, on a database without deals, every deal that is APPROVED or
-- EXECUTED names a positioner who is not its trader.
pub four_eyes :
    (env : Environment) (requests : Requests) (db : Database) (id : ℕ) (d : FxDeal)
    → find id (run env requests (without_deals db)).deals ≡ some d
    → (d.deal_state ≡ approved) ⊎ (d.deal_state ≡ executed)
    → (positioner : String) × (d.positioner_id ≡ some positioner) × (positioner ≢ d.trader_id)
four_eyes env =
    run-find env IsApprovedByOther
      (record { at_start = new-IsApprovedByOther env; at_move = Move-IsApprovedByOther env })

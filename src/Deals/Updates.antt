-- ===== src/Deals/Updates.antt =====
-- What an edit cannot change.
use fx_deal_manager.Prelude.{◌⊎◌, inl, inr, ◌≡◌, refl, some, Option}
use mathlib.Core.Option.{some-injective}
use fx_deal_manager.Domain.{FxDeal, DealUpdateRequest, Patch, unset, null, value}
use fx_deal_manager.Deals.{apply_updates, required}

pub record SameDeal (d c : FxDeal) : Type 0 where
  pub id : c.id ≡ d.id
  pub deal_state : c.deal_state ≡ d.deal_state
  pub trader_id : c.trader_id ≡ d.trader_id
  pub trader_email : c.trader_email ≡ d.trader_email
  pub positioner_id : c.positioner_id ≡ d.positioner_id
  pub positioner_solution : c.positioner_solution ≡ d.positioner_solution

required_value :
    {A : Type 0} (patch : Patch A) (old : A) (next : A → Option FxDeal) (c : FxDeal)
    → required patch old next ≡ some c
    → (new : A) × (next new ≡ some c)
required_value unset old next c e = (old, e)
required_value null old next c e = cc
required_value (value new) old next c e = (new, e)

-- The new value is the one that the request gives, or the old one.
named_value :
    {A : Type 0} (patch : Patch A) (old : A) (next : A → Option FxDeal) (c : FxDeal)
    → required patch old next ≡ some c
    → (new : A) × (next new ≡ some c) × (((patch ≡ unset) × (new ≡ old)) ⊎ (patch ≡ value new))
named_value unset old next c e = (old, e, inl (refl, refl))
named_value null old next c e = cc
named_value (value new) old next c e = (new, e, inr refl)

-- The assignments of an edit leave the identity of a deal, its state and its approval alone.
pub apply_updates-SameDeal :
    (updates : DealUpdateRequest) (d c : FxDeal) → apply_updates updates d ≡ some c → SameDeal d c
unfolding apply_updates
apply_updates-SameDeal u d c e =
    let (a1, e1) = required_value u.counterparty_id _ _ c e in
    let (a2, e2) = required_value u.trade_date _ _ c e1 in
    let (a3, e3) = required_value u.amount _ _ c e2 in
    let (a4, e4) = required_value u.rate _ _ c e3 in
    let (a5, e5) = required_value u.buy_currency _ _ c e4 in
    let (a6, e6) = required_value u.sell_currency _ _ c e5 in
    let (a7, e7) = required_value u.operation_direction _ _ c e6 in
    let (a8, e8) = required_value u.deal_type _ _ c e7 in
    rw (← some-injective _ c e8) (record {
      id = refl;
      deal_state = refl;
      trader_id = refl;
      trader_email = refl;
      positioner_id = refl;
      positioner_solution = refl;
    })

-- The counterparty after an edit is the one that the edit names, or the old one.
pub apply_updates-counterparty :
    (updates : DealUpdateRequest) (d c : FxDeal)
    → apply_updates updates d ≡ some c
    → ((updates.counterparty_id ≡ unset) × (c.counterparty_id ≡ d.counterparty_id))
      ⊎ (updates.counterparty_id ≡ value c.counterparty_id)
unfolding apply_updates
apply_updates-counterparty u d c e =
    let (a1, e1, kept) = named_value u.counterparty_id _ _ c e in
    let (a2, e2) = required_value u.trade_date _ _ c e1 in
    let (a3, e3) = required_value u.amount _ _ c e2 in
    let (a4, e4) = required_value u.rate _ _ c e3 in
    let (a5, e5) = required_value u.buy_currency _ _ c e4 in
    let (a6, e6) = required_value u.sell_currency _ _ c e5 in
    let (a7, e7) = required_value u.operation_direction _ _ c e6 in
    let (a8, e8) = required_value u.deal_type _ _ c e7 in rw (← some-injective _ c e8) kept

-- ===== src/History/Terms.antt =====
-- The terms of a deal, and its numbers as the columns hold them.
use fx_deal_manager.Prelude.{◌≡◌, refl, ◌∙◌, String, Option}
use fx_deal_manager.Domain.{DealState, FxDeal, PositionerSolution, ValidationStatus}
use fx_deal_manager.Store.{Environment, at_rest, at_rest_payments}

-- One value comes of another by storing it, any number of times.
pub data IsStored {A : Type 0} (store : A → A) (a : A) : A → Type 0 where
  as_is : IsStored store a a
  again : (b : A) → IsStored store a b → IsStored store a (store b)

IsStored-trans :
    {A : Type 0} (store : A → A) (a b c : A)
    → IsStored store a b
    → IsStored store b c
    → IsStored store a c
IsStored-trans store a b _ s as_is = s
IsStored-trans store a b _ s (again c t) = again c (IsStored-trans store a b c s t)

-- The terms of a deal are the same; its numbers are those that the columns make of them.
pub record SameTerms (env : Environment) (d d' : FxDeal) : Type 0 where
  pub id : d'.id ≡ d.id
  pub trade_date : d'.trade_date ≡ d.trade_date
  pub value_date : d'.value_date ≡ d.value_date
  pub amount : IsStored (env.numeric 2) d.amount d'.amount
  pub rate : IsStored (env.numeric 6) d.rate d'.rate
  pub buy_currency : d'.buy_currency ≡ d.buy_currency
  pub sell_currency : d'.sell_currency ≡ d.sell_currency
  pub operation_direction : d'.operation_direction ≡ d.operation_direction
  pub counterparty_id : d'.counterparty_id ≡ d.counterparty_id
  pub deal_type : d'.deal_type ≡ d.deal_type
  pub trader_id : d'.trader_id ≡ d.trader_id
  pub payments : IsStored (at_rest_payments env) d.payments d'.payments

-- The state and the approval are the same as well.
pub record SameDeal (env : Environment) (d d' : FxDeal) : Type 0 where
  pub terms : SameTerms env d d'
  pub deal_state : d'.deal_state ≡ d.deal_state
  pub positioner_id : d'.positioner_id ≡ d.positioner_id
  pub positioner_solution : d'.positioner_solution ≡ d.positioner_solution

abbrev pub same_terms : (env : Environment) (d : FxDeal) → SameTerms env d d
same_terms env d = record {
  id = refl;
  trade_date = refl;
  value_date = refl;
  amount = as_is;
  rate = as_is;
  buy_currency = refl;
  sell_currency = refl;
  operation_direction = refl;
  counterparty_id = refl;
  deal_type = refl;
  trader_id = refl;
  payments = as_is;
}

-- The columns hold a deal on the same terms, whatever its state and its approval.
pub restated :
    (env : Environment) (d : FxDeal) (state : DealState) (status : ValidationStatus)
    (positioner : Option String) (solution : Option PositionerSolution)
    → SameTerms env d (
        at_rest env (record d {
          deal_state = state;
          validation_status = status;
          positioner_id = positioner;
          positioner_solution = solution;
        }))
restated env d state status positioner solution = record {
  id = refl;
  trade_date = refl;
  value_date = refl;
  amount = again _ as_is;
  rate = again _ as_is;
  buy_currency = refl;
  sell_currency = refl;
  operation_direction = refl;
  counterparty_id = refl;
  deal_type = refl;
  trader_id = refl;
  payments = again _ as_is;
}

pub SameTerms-trans :
    (env : Environment) (a b c : FxDeal) → SameTerms env a b → SameTerms env b c → SameTerms env a c
SameTerms-trans env a b c s t = record {
  id = t.id ∙ s.id;
  trade_date = t.trade_date ∙ s.trade_date;
  value_date = t.value_date ∙ s.value_date;
  amount = IsStored-trans _ a.amount b.amount c.amount s.amount t.amount;
  rate = IsStored-trans _ a.rate b.rate c.rate s.rate t.rate;
  buy_currency = t.buy_currency ∙ s.buy_currency;
  sell_currency = t.sell_currency ∙ s.sell_currency;
  operation_direction = t.operation_direction ∙ s.operation_direction;
  counterparty_id = t.counterparty_id ∙ s.counterparty_id;
  deal_type = t.deal_type ∙ s.deal_type;
  trader_id = t.trader_id ∙ s.trader_id;
  payments = IsStored-trans _ a.payments b.payments c.payments s.payments t.payments;
}

-- ===== src/Validation/Issueless.antt =====
-- A deal without issues.
use fx_deal_manager.Prelude.{
  ◌<◌, ◌⊎◌, String, ◌≡◌, refl, ◌≢◌, ◌↔◌, Bool, true, false, not, ◌&&◌, Option, none, some, List, [],
  ◌∷◌, ◌++◌, arith, leb, Dict, get, same, is_some,
}
use fx_deal_manager.Domain.{
  FxDeal, Currency, Counterparty, DealState, draft, forward, is_draft, is_forward,
}
use fx_deal_manager.Decimal.{Decimal, is_non_positive, normalized_places}
use fx_deal_manager.Decimal.Places.{IsWhole, normalized_places_iff}
use fx_deal_manager.Issues.{Message, ValidationIssue}
use fx_deal_manager.Validation.{
  decimals_valid, report_if, buy_currency_issues, sell_currency_issues, counterparty_issues,
  validate,
}

-- The number is more than 0.
abbrev pub IsPositive : Decimal → Type 0
IsPositive a = (a.negative ≡ false) × (0 < a.coefficient)

more_than_zero : (a : Decimal) → is_non_positive a ≡ false → IsPositive a
unfolding is_non_positive
more_than_zero a h = (ground arith, ground arith)

from_more_than_zero : (a : Decimal) → IsPositive a → is_non_positive a ≡ false
unfolding is_non_positive
from_more_than_zero a (plus, h) = ground arith

-- What `validate` demands of a deal, of its counterparty and of the currencies.
pub record IsSound (d : FxDeal) (counterparty : Option Counterparty) (currencies : Dict Currency)
    : Type 0 where
  pub state : d.deal_state ≡ draft
  pub currencies_differ : d.buy_currency ≢ d.sell_currency
  pub amount_positive : IsPositive d.amount
  pub rate_positive : IsPositive d.rate
  pub buy_known :
      (c : Currency) × (get d.buy_currency currencies ≡ some c) × IsWhole d.amount c.decimal_places
  pub sell_known : (c : Currency) × (get d.sell_currency currencies ≡ some c)
  pub counterparty_active : (c : Counterparty) × (counterparty ≡ some c) × (c.is_active ≡ true)
  pub dated : (d.deal_type ≢ forward) ⊎ (d.value_date ≢ none)

append_empty : (xs ys : List ValidationIssue) → xs ++ ys ≡ [] → (xs ≡ []) × (ys ≡ [])
append_empty [] ys e = (refl, e)
append_empty (x ∷ xs) ys e = cc

report_empty :
    (b : Bool) (field : String) (message : Message) → report_if b field message ≡ [] → b ≡ false
unfolding report_if
report_empty true field message e = cc
report_empty false field message e = refl

buy_empty :
    (d : FxDeal) (o : Option Currency)
    → buy_currency_issues d o ≡ []
    → (c : Currency) × (o ≡ some c) × IsWhole d.amount c.decimal_places
unfolding buy_currency_issues report_if decimals_valid
buy_empty d none e = cc
buy_empty d (some c) e =
    let few : leb (normalized_places d.amount) c.decimal_places ≡ true = ground arith in
    (c, refl, (normalized_places_iff d.amount c.decimal_places).0 few)

sell_empty :
    (d : FxDeal) (o : Option Currency)
    → sell_currency_issues d o ≡ []
    → (c : Currency) × (o ≡ some c)
unfolding sell_currency_issues
sell_empty d none e = cc
sell_empty d (some c) e = (c, refl)

counterparty_empty :
    (d : FxDeal) (o : Option Counterparty)
    → counterparty_issues d o ≡ []
    → (c : Counterparty) × (o ≡ some c) × (c.is_active ≡ true)
unfolding counterparty_issues report_if
counterparty_empty d none e = cc
counterparty_empty d (some c) e = (c, refl, ground arith)

state_draft : (st : DealState) → not (is_draft st) ≡ false → st ≡ draft
state_draft st h = ground arith

same_differ : (s t : String) → same s t ≡ false → s ≢ t
same_differ s t h p = ground arith

forward_dated :
    (d : FxDeal)
    → (is_forward d.deal_type && not (is_some d.value_date)) ≡ false
    → (d.deal_type ≢ forward) ⊎ (d.value_date ≢ none)
forward_dated d h = ground arith

join : {xs ys : List ValidationIssue} → xs ≡ [] → ys ≡ [] → xs ++ ys ≡ []
join p q = rw p q

report_none :
    (b : Bool) (field : String) (message : Message) → b ≡ false → report_if b field message ≡ []
unfolding report_if
report_none b field message h = rw h

buy_none :
    (d : FxDeal) (o : Option Currency) (c : Currency)
    → o ≡ some c
    → IsWhole d.amount c.decimal_places
    → buy_currency_issues d o ≡ []
unfolding buy_currency_issues report_if decimals_valid
buy_none d o c e h =
    let few = (normalized_places_iff d.amount c.decimal_places).1 h in rw e (rw few)

sell_none :
    (d : FxDeal) (o : Option Currency) (c : Currency) → o ≡ some c → sell_currency_issues d o ≡ []
unfolding sell_currency_issues
sell_none d o c e = rw e

counterparty_none :
    (d : FxDeal) (o : Option Counterparty) (c : Counterparty)
    → o ≡ some c
    → c.is_active ≡ true
    → counterparty_issues d o ≡ []
unfolding counterparty_issues report_if
counterparty_none d o c e h = rw e (rw h)

draft_state : (st : DealState) → st ≡ draft → not (is_draft st) ≡ false
draft_state st h = ground arith

differ_same : (s t : String) → s ≢ t → same s t ≡ false
differ_same s t h = ground arith

dated_forward :
    (d : FxDeal)
    → (d.deal_type ≢ forward) ⊎ (d.value_date ≢ none)
    → (is_forward d.deal_type && not (is_some d.value_date)) ≡ false
dated_forward d h = ground arith

module _ (d : FxDeal) (counterparty : Option Counterparty) (currencies : Dict Currency) where
  validate-IsSound : validate d counterparty currencies ≡ [] → IsSound d counterparty currencies
  unfolding validate
  validate-IsSound e =
      let (status, e1) = append_empty _ _ e in
      let (codes, e2) = append_empty _ _ e1 in
      let (amount, e3) = append_empty _ _ e2 in
      let (rate, e4) = append_empty _ _ e3 in
      let (buy_side, e5) = append_empty _ _ e4 in
      let (sell_side, e6) = append_empty _ _ e5 in
      let (party, date) = append_empty _ _ e6 in
      record {
        state = state_draft d.deal_state (report_empty _ _ _ status);
        currencies_differ = same_differ d.buy_currency d.sell_currency (report_empty _ _ _ codes);
        amount_positive = more_than_zero d.amount (report_empty _ _ _ amount);
        rate_positive = more_than_zero d.rate (report_empty _ _ _ rate);
        buy_known = buy_empty d _ buy_side;
        sell_known = sell_empty d _ sell_side;
        counterparty_active = counterparty_empty d _ party;
        dated = forward_dated d (report_empty _ _ _ date);
      }

  validate_complete : IsSound d counterparty currencies → validate d counterparty currencies ≡ []
  unfolding validate
  validate_complete s =
      let (b, bk, bv) = s.buy_known in
      let (c, sk) = s.sell_known in
      let (p, pk, pa) = s.counterparty_active in
      join (report_none _ _ _ (draft_state d.deal_state s.state)) (
        join (report_none _ _ _ (differ_same _ _ s.currencies_differ)) (
          join (report_none _ _ _ (from_more_than_zero d.amount s.amount_positive)) (
            join (report_none _ _ _ (from_more_than_zero d.rate s.rate_positive)) (
              join (buy_none d _ b bk bv) (
                join (sell_none d _ c sk) (
                  join (counterparty_none d _ p pk pa)
                    (report_none _ _ _ (dated_forward d s.dated))))))))

  -- No issue is reported exactly if the deal is a draft between two different known currencies, of
  -- positive amount and rate, with an amount that is, in the digits of the context, a whole number of the
  -- smallest units of its currency, with an active
  -- counterparty, and with a value date where it is a FORWARD.
  pub validate_empty : (validate d counterparty currencies ≡ []) ↔ IsSound d counterparty currencies
  validate_empty = (validate-IsSound, validate_complete)

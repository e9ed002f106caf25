-- ===== src/Regulatory/Completeness.antt =====
-- The deals of a report, between `_validate_nsi` and `_serialize_deal`.
use fx_deal_manager.Prelude.{
  String, ◌≡◌, refl, sym, ◌∙◌, ap, true, not, Option, none, some, List, [], ◌∷◌, ◌++◌, map, All,
  get, is_some,
}
use fx_deal_manager.Domain.{FxDeal, Currency, Counterparty, is_valid}
use fx_deal_manager.Issues.{NsiMessage, currency_missing, RegulatoryNsiError}
use fx_deal_manager.Nsi.{get_counterparty}
use fx_deal_manager.Regulatory.{
  Lookups, report_if, deal_errors, counterparty_errors, all_payment_errors, validate_nsi, DealLine,
  serialize_with, serialize_deal, serialize_deals,
}

pub append_empty : (xs ys : List RegulatoryNsiError) → xs ++ ys ≡ [] → (xs ≡ []) × (ys ≡ [])
append_empty [] ys e = (refl, e)
append_empty (x ∷ xs) ys e = cc

known :
    (d : FxDeal) (o : Option Currency) (field : String) (message : NsiMessage)
    → report_if (not (is_some o)) d field message ≡ []
    → (c : Currency) × (o ≡ some c)
unfolding report_if
known d none field message e = cc
known d (some c) field message e = (c, refl)

module _ (look : Lookups) (counterparties : List Counterparty) where
  pub deal_errors_valid :
      (d : FxDeal)
      → is_valid d.validation_status ≡ true
      → deal_errors look counterparties d
        ≡ counterparty_errors d (get_counterparty counterparties d.counterparty_id)
          ++ (report_if
                (not (is_some (get d.buy_currency look.currencies)))
                d
                "buy_currency"
                (currency_missing d.buy_currency)
              ++ (report_if
                    (not (is_some (get d.sell_currency look.currencies)))
                    d
                    "sell_currency"
                    (currency_missing d.sell_currency)
                  ++ all_payment_errors look d d.payments))
  unfolding deal_errors
  deal_errors_valid d v = rw (v, deal_errors) refl

  deal_currencies :
      (d : FxDeal)
      → is_valid d.validation_status ≡ true
      → deal_errors look counterparties d ≡ []
      → (b : Currency) × (c : Currency) × (get d.buy_currency look.currencies ≡ some b)
        × (get d.sell_currency look.currencies ≡ some c)
  deal_currencies d v h =
      let (party, h1) = append_empty _ _ (sym (deal_errors_valid d v) ∙ h) in
      let (buy_side, h2) = append_empty _ _ h1 in
      let (sell_side, h3) = append_empty _ _ h2 in
      let (b, kb) = known d _ _ _ buy_side in
      let (c, kc) = known d _ _ _ sell_side in (b, c, kb, kc)

  pub serialize_deal-some :
      (d : FxDeal) (b c : Currency)
      → get d.buy_currency look.currencies ≡ some b
      → get d.sell_currency look.currencies ≡ some c
      → (line : DealLine) × (serialize_deal look counterparties d ≡ some line)
        × (line.deal_id ≡ d.id)
  unfolding serialize_deal serialize_with
  serialize_deal-some d b c kb kc = (
    serialize_with look counterparties d b c,
    rw (kb, serialize_deal) (rw (kc, serialize_deal) refl),
    refl,
  )

  pub serialize_deals_next :
      (d : FxDeal) (deals : List FxDeal) (line : DealLine) (lines : List DealLine)
      → serialize_deal look counterparties d ≡ some line
      → serialize_deals look counterparties deals ≡ some lines
      → serialize_deals look counterparties (d ∷ deals) ≡ some (line ∷ lines)
  unfolding serialize_deals
  serialize_deals_next d deals line lines e f =
      rw (e, serialize_deals) (rw (f, serialize_deals) refl)

  -- Deals that are all VALID and among which no error is found are all written to the report, in
  -- their order; the look-up of a currency never fails.
  pub serialize_deals_complete :
      (deals : List FxDeal)
      → All (λ d. is_valid d.validation_status ≡ true) deals
      → validate_nsi look counterparties deals ≡ []
      → (lines : List DealLine) × (serialize_deals look counterparties deals ≡ some lines)
        × (map (λ (line : DealLine). line.deal_id) lines ≡ map (λ (d : FxDeal). d.id) deals)
  unfolding validate_nsi serialize_deals
  serialize_deals_complete [] v h = ([], refl, refl)
  serialize_deals_complete (d ∷ deals) v h =
      let (first, rest) = append_empty _ _ h in
      let (b, c, kb, kc) = deal_currencies d v.0 first in
      let (line, e, id) = serialize_deal-some d b c kb kc in
      let (lines, f, ids) = serialize_deals_complete deals v.1 rest in
      (
        line ∷ lines,
        serialize_deals_next d deals line lines e f,
        ap (λ n. n ∷ map (λ (x : DealLine). x.deal_id) lines) id ∙ ap (λ ns. d.id ∷ ns) ids,
      )

-- ===== src/Nsi/Rows.antt =====
-- Rows that a lookup gives are in the table, under the key that was asked for.
use mathlib.Core.Option.{some-injective}
use fx_deal_manager.Prelude.{
  String, ◌≡◌, sym, ◌∙◌, ap, ◌⊎◌, inl, inr, true, some, List, [], ◌∷◌, arith, Has, Dict, get,
  get-insert, insert, same, Bool-cases,
}
use fx_deal_manager.Domain.{Currency, Counterparty}
use fx_deal_manager.Nsi.{get_counterparty, collect, currencies_by_code}

same_text : (s t : String) → same s t ≡ true → s ≡ t
same_text s t h = ground arith

pub get_counterparty-Has :
    (rows : List Counterparty) (key : String) (row : Counterparty)
    → get_counterparty rows key ≡ some row
    → Has row rows × (row.id ≡ key)
unfolding get_counterparty
get_counterparty-Has [] key row h = cc
get_counterparty-Has (r ∷ rows) key row h = elim (Bool-cases (same r.id key)) [
  | inl e ↦
      let found = some-injective _ _ (rw e at h) in
      (inl (sym found), ap (λ x. x.id) (sym found) ∙ same_text _ _ e)
  | inr e ↦ let (there, k) = get_counterparty-Has rows key row (rw e at h) in (inr there, k)
]

collect-Has :
    (rows : List Currency) (d : Dict Currency) (code : String) (c : Currency)
    → get code (collect (λ row. row.code) rows d) ≡ some c
    → (get code d ≡ some c) ⊎ (Has c rows × (c.code ≡ code))
unfolding collect
collect-Has [] d code c h = inl h
collect-Has (row ∷ rows) d code c h = elim (collect-Has rows (insert row.code row d) code c h) [
  | inr (there, key) ↦ inr (inr there, key)
  | inl k ↦
      let written = sym (get-insert code row.code row d) ∙ k in
      elim (Bool-cases (same row.code code)) [
        | inl e ↦
            let found = some-injective _ _ (rw e at written) in
            inr (inl (sym found), ap (λ x. x.code) (sym found) ∙ same_text _ _ e)
        | inr e ↦ inl (rw e at written)
      ]
]

pub currencies_by_code-Has :
    (rows : List Currency) (code : String) (c : Currency)
    → get code (currencies_by_code rows) ≡ some c
    → Has c rows × (c.code ≡ code)
unfolding currencies_by_code
currencies_by_code-Has rows code c h = elim (collect-Has rows [] code c h) [
  | inl e ↦ cc
  | inr there ↦ there
]

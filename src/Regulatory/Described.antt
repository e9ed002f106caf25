-- ===== src/Regulatory/Described.antt =====
-- The deals that `_validate_nsi` finds nothing about.
use mathlib.Core.Option.{some-injective}
use fx_deal_manager.Prelude.{
  inl, inr, String, ◌≡◌, refl, sym, ◌∙◌, ap, ◌⊎◌, ◌↔◌, Bool, true, false, not, Option, none, some,
  List, [], ◌∷◌, ◌++◌, All, get, arith, is_empty, is_blank, is_some, Bool-cases,
}
use fx_deal_manager.Domain.{FxDeal, Payment, Counterparty, NostroAccount, is_valid}
use fx_deal_manager.Issues.{NsiMessage, RegulatoryNsiError}
use fx_deal_manager.Nsi.{get_counterparty}
use fx_deal_manager.Regulatory.{
  Lookups, report_if, counterparty_errors, resolve_nostro, account_errors, payment_errors,
  all_payment_errors, deal_errors, validate_nsi,
}
use fx_deal_manager.Regulatory.Completeness.{append_empty, deal_errors_valid}

-- A payment names an account that is there and active.
abbrev pub HasAccount : Lookups → Option String → Type 0
HasAccount look account_code =
    (code : String) × (account : NostroAccount) × (account_code ≡ some code)
    × (is_empty code ≡ false)
    × (resolve_nostro look code ≡ some account)
    × (account.is_active ≡ true)

-- A counterparty is there, with an identifier, a name and a BIC.
abbrev pub IsNamed : Option Counterparty → Type 0
IsNamed o =
    (row : Counterparty) × (o ≡ some row)
    × (is_empty row.id ≡ false)
    × (is_empty row.name ≡ false)
    × (is_blank row.bic ≡ false)

-- The reference data have all that a report says of the deal.
pub record IsDescribed (look : Lookups) (counterparties : List Counterparty) (d : FxDeal)
    : Type 0 where
  pub counterparty : IsNamed (get_counterparty counterparties d.counterparty_id)
  pub bought : is_some (get d.buy_currency look.currencies) ≡ true
  pub sold : is_some (get d.sell_currency look.currencies) ≡ true
  pub accounts : All (λ p. HasAccount look p.account_code) d.payments

join : {xs ys : List RegulatoryNsiError} → xs ≡ [] → ys ≡ [] → xs ++ ys ≡ []
join p q = rw p q

report_if_empty :
    (b : Bool) (d : FxDeal) (field : String) (message : NsiMessage)
    → (report_if b d field message ≡ []) ↔ (b ≡ false)
unfolding report_if
report_if_empty true d field message = (λ h. cc, λ h. cc)
report_if_empty false d field message = (λ h. refl, λ h. refl)

negated : (b : Bool) → not b ≡ false → b ≡ true
negated b h = ground arith

counterparty_errors_empty :
    (d : FxDeal) (o : Option Counterparty) → (counterparty_errors d o ≡ []) ↔ IsNamed o
unfolding counterparty_errors
counterparty_errors_empty d none = (λ h. let b = (report_if_empty true d _ _).0 h in cc, λ h. cc)
counterparty_errors_empty d (some row) = (
  λ h.
      let (a, h1) = append_empty _ _ h in
      let (b, c) = append_empty _ _ h1 in
      (
        row,
        refl,
        (report_if_empty _ _ _ _).0 a,
        (report_if_empty _ _ _ _).0 b,
        (report_if_empty _ _ _ _).0 c,
      ),
  λ (r, e, a, b, c).
      let same = some-injective _ _ e in
      join ((report_if_empty _ _ _ _).1 (ap (λ x. is_empty x.id) same ∙ a)) (
        join ((report_if_empty _ _ _ _).1 (ap (λ x. is_empty x.name) same ∙ b))
          ((report_if_empty _ _ _ _).1 (ap (λ x. is_blank x.bic) same ∙ c))),
)

account_errors_empty :
    (d : FxDeal) (code : String) (o : Option NostroAccount)
    → (account_errors d code o ≡ [])
      ↔ ((account : NostroAccount) × (o ≡ some account) × (account.is_active ≡ true))
unfolding account_errors
account_errors_empty d code none = (λ h. let b = (report_if_empty true d _ _).0 h in cc, λ h. cc)
account_errors_empty d code (some account) = (
  λ h. (account, refl, negated _ ((report_if_empty _ _ _ _).0 h)),
  λ (a, e, active).
      (report_if_empty _ _ _ _).1
        (ap (λ x. not x.is_active) (some-injective _ _ e) ∙ ap not active),
)

payment_errors_empty :
    (look : Lookups) (d : FxDeal) (o : Option String)
    → (payment_errors look d o ≡ []) ↔ HasAccount look o
unfolding payment_errors
payment_errors_empty look d none = (λ h. let b = (report_if_empty true d _ _).0 h in cc, λ h. cc)
payment_errors_empty look d (some code) = (
  λ h. elim (Bool-cases (is_empty code)) [
    | inl e ↦ let b = (report_if_empty true d _ _).0 (rw e at h) in cc
    | inr e ↦
        let (account, there, active) = (account_errors_empty d code _).0 (rw e at h) in
        (code, account, refl, e, there, active)
  ],
  λ (c, account, e, full, there, active).
      let same = some-injective _ _ e in
      rw (ap is_empty same ∙ full) (
        (account_errors_empty d code _).1 (account, ap (resolve_nostro look) same ∙ there, active)),
)

all_payment_errors_empty :
    (look : Lookups) (d : FxDeal) (ps : List Payment)
    → (all_payment_errors look d ps ≡ []) ↔ All (λ p. HasAccount look p.account_code) ps
unfolding all_payment_errors
all_payment_errors_empty look d [] = (λ h. tt, λ h. refl)
all_payment_errors_empty look d (p ∷ ps) = (
  λ h.
      let (first, rest) = append_empty _ _ h in
      ((payment_errors_empty look d _).0 first, (all_payment_errors_empty look d ps).0 rest),
  λ (first, rest).
      join ((payment_errors_empty look d _).1 first) ((all_payment_errors_empty look d ps).1 rest),
)

module _ (look : Lookups) (counterparties : List Counterparty) where
  described :
      (d : FxDeal)
      → is_valid d.validation_status ≡ true
      → (deal_errors look counterparties d ≡ []) ↔ IsDescribed look counterparties d
  described d v = (
    λ h.
        let (party, h1) = append_empty _ _ (sym (deal_errors_valid look counterparties d v) ∙ h) in
        let (bought, h2) = append_empty _ _ h1 in
        let (sold, accounts) = append_empty _ _ h2 in
        record {
          counterparty = (counterparty_errors_empty d _).0 party;
          bought = negated _ ((report_if_empty _ _ _ _).0 bought);
          sold = negated _ ((report_if_empty _ _ _ _).0 sold);
          accounts = (all_payment_errors_empty look d _).0 accounts;
        },
    λ h.
        deal_errors_valid look counterparties d v
        ∙ join ((counterparty_errors_empty d _).1 h.counterparty) (
            join ((report_if_empty _ _ _ _).1 (ap not h.bought)) (
              join ((report_if_empty _ _ _ _).1 (ap not h.sold))
                ((all_payment_errors_empty look d _).1 h.accounts))),
  )

  -- A deal is not VALID, or the reference data have all that a report says of it.
  abbrev pub IsReportable : FxDeal → Type 0
  IsReportable d = (is_valid d.validation_status ≡ false) ⊎ IsDescribed look counterparties d

  deal_errors_empty : (d : FxDeal) → (deal_errors look counterparties d ≡ []) ↔ IsReportable d
  unfolding deal_errors
  deal_errors_empty d = elim (Bool-cases (is_valid d.validation_status)) [
    | inl v ↦ (
      λ h. inr ((described d v).0 h),
      λ h. elim h [ inl e ↦ cc | inr whole ↦ (described d v).1 whole ],
    )
    | inr e ↦ (λ h. inl e, λ h. rw e refl)
  ]

  -- No error is found exactly if every deal that is VALID has all that a report says of it.
  pub validate_nsi_empty :
      (deals : List FxDeal) → (validate_nsi look counterparties deals ≡ []) ↔ All IsReportable deals
  unfolding validate_nsi
  validate_nsi_empty [] = (λ h. tt, λ h. refl)
  validate_nsi_empty (d ∷ deals) = (
    λ h.
        let (first, rest) = append_empty _ _ h in
        ((deal_errors_empty d).0 first, (validate_nsi_empty deals).0 rest),
    λ (first, rest). join ((deal_errors_empty d).1 first) ((validate_nsi_empty deals).1 rest),
  )

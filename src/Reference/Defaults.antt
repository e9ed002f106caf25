-- ===== src/Reference/Defaults.antt =====
-- The account that users see first for a currency, and the one that payments get.
use fx_deal_manager.Prelude.{
  String, ◌≡◌, refl, ap, ◌∙◌, sym, false, Option, none, some, List, [], ◌∷◌, map, Bool-cases, inl,
  inr, same, get, select, is_empty,
}
use fx_deal_manager.Domain.{NostroAccount}
use fx_deal_manager.Nsi.{list_nostro_accounts, nostro_by_currency}
use fx_deal_manager.Nsi.Accounts.{first_active, nostro_by_currency-first_active}
use fx_deal_manager.Reference.{NostroAccountResponse, nostro_response, nsi_nostro_accounts}

abbrev pub first_shown : List NostroAccountResponse → Option NostroAccountResponse
first_shown [] = none
first_shown (shown ∷ rest) = some shown

abbrev pub shown_as : Option NostroAccount → Option NostroAccountResponse
shown_as none = none
shown_as (some row) = some (nostro_response row)

-- The accounts in a currency that are active.
abbrev active_in : String → List NostroAccount → List NostroAccount
active_in code rows =
    select (λ row. row.is_active) (select (λ row. same row.currency_code code) rows)

first_shown-active_in :
    (code : String) (rows : List NostroAccount)
    → first_shown (map nostro_response (active_in code rows)) ≡ shown_as (first_active code rows)
unfolding first_active
first_shown-active_in code [] = refl
first_shown-active_in code (row ∷ rows) = elim (Bool-cases (same row.currency_code code)) [
  | inl e ↦ elim (Bool-cases row.is_active) [
    | inl f ↦ rw e (rw f refl)
    | inr f ↦ rw e (rw f (first_shown-active_in code rows))
  ]
  | inr e ↦ elim (Bool-cases row.is_active) [
    | inl f ↦ rw e (rw f (first_shown-active_in code rows))
    | inr f ↦ rw e (rw f (first_shown-active_in code rows))
  ]
]

-- The first account that a user sees for a currency is the one that payments in the currency, in upper
-- case, get where no account is given, and the user sees none exactly if there is none.
pub first_shown-nostro_by_currency :
    (upper : String → String) (rows : List NostroAccount) (code : String)
    → is_empty code ≡ false
    → first_shown (nsi_nostro_accounts upper rows (some code))
      ≡ shown_as (get (upper (upper code)) (nostro_by_currency rows))
unfolding nsi_nostro_accounts list_nostro_accounts
first_shown-nostro_by_currency upper rows code given = rw given (
    first_shown-active_in (upper (upper code)) rows
    ∙ ap shown_as (sym (nostro_by_currency-first_active rows (upper (upper code)))))

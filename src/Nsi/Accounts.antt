-- ===== src/Nsi/Accounts.antt =====
-- `nostro_by_currency` against a search of the accounts.
use fx_deal_manager.Prelude.{
  String, ◌≡◌, refl, ◌∙◌, ap, Bool, true, false, ◌&&◌, Option, none, some, List, [], ◌∷◌, arith,
  Dict, get, set_default, same, select, if◌then◌else◌,
}
use fx_deal_manager.Domain.{NostroAccount}
use fx_deal_manager.Nsi.{list_nostro_accounts, first_by_currency, nostro_by_currency}

abbrev or_else : Option NostroAccount → Option NostroAccount → Option NostroAccount
or_else none o = o
or_else (some a) o = some a

-- The first account that is active and in the currency.
unfoldable pub first_active : String → List NostroAccount → Option NostroAccount
first_active code [] = none
first_active code (row ∷ rows) =
    if row.is_active && same row.currency_code code then some row else first_active code rows

first_in : String → List NostroAccount → Option NostroAccount
first_in code [] = none
first_in code (row ∷ rows) = if same row.currency_code code then some row else first_in code rows

get-set_default :
    (code key : String) (row : NostroAccount) (d : Dict NostroAccount)
    → get code (set_default key row d)
      ≡ or_else (get code d) (if same key code then some row else none)
get-set_default code key row [] = ground arith
get-set_default code key row ((j, a) ∷ d) = ground (arith, get-set_default code key row d)

none_last : (o : Option NostroAccount) → o ≡ or_else o none
none_last none = refl
none_last (some a) = refl

or_else_assoc : (a b c : Option NostroAccount) → or_else (or_else a b) c ≡ or_else a (or_else b c)
or_else_assoc none b c = refl
or_else_assoc (some a) b c = refl

or_else-if :
    (b : Bool) (row : NostroAccount) (o : Option NostroAccount)
    → or_else (if b then some row else none) o ≡ (if b then some row else o)
or_else-if true row o = refl
or_else-if false row o = refl

get-first_by_currency :
    (code : String) (rows : List NostroAccount) (d : Dict NostroAccount)
    → get code (first_by_currency rows d) ≡ or_else (get code d) (first_in code rows)
unfolding first_by_currency first_in
get-first_by_currency code [] d = none_last (get code d)
get-first_by_currency code (row ∷ rows) d =
    get-first_by_currency code rows (set_default row.currency_code row d)
    ∙ ap (λ o. or_else o (first_in code rows)) (get-set_default code row.currency_code row d)
    ∙ or_else_assoc (get code d) (if same row.currency_code code then some row else none)
        (first_in code rows)
    ∙ ap (or_else (get code d)) (or_else-if (same row.currency_code code) row (first_in code rows))

first_in-kept :
    (b : Bool) (row : NostroAccount) (code : String) (rows : List NostroAccount)
    → first_in code (if b then row ∷ rows else rows)
      ≡ (if b && same row.currency_code code then some row else first_in code rows)
unfolding first_in
first_in-kept true row code rows = refl
first_in-kept false row code rows = refl

first_in-select :
    (code : String) (rows : List NostroAccount)
    → first_in code (select (λ row. row.is_active) rows) ≡ first_active code rows
unfolding first_in first_active
first_in-select code [] = refl
first_in-select code (row ∷ rows) =
    first_in-kept row.is_active row code (select (λ x. x.is_active) rows)
    ∙ ap (λ o. if row.is_active && same row.currency_code code then some row else o)
        (first_in-select code rows)

-- The account that payments in a currency get is the first of the table that is active and in the
-- currency, and there is none exactly if there is no such account.
pub nostro_by_currency-first_active :
    (rows : List NostroAccount) (code : String)
    → get code (nostro_by_currency rows) ≡ first_active code rows
unfolding nostro_by_currency list_nostro_accounts
nostro_by_currency-first_active rows code =
    get-first_by_currency code (select (λ row. row.is_active) rows) [] ∙ first_in-select code rows

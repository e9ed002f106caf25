-- ===== src/Reference.antt =====
-- src/fx_deal_manager/services/nsi_service.py and api/routes/nsi.py: the reference data that users see.
pub mod Defaults
use fx_deal_manager.Prelude.{
  ℕ, String, Bool, true, false, Option, none, some, List, [], ◌∷◌, map, is_empty, if◌then◌else◌,
}
use fx_deal_manager.Domain.{Currency, Counterparty, NostroAccount, UserClaims}
use fx_deal_manager.Store.{Database, Action, gets, ◌>>=◌, ◌>>◌}
use fx_deal_manager.Nsi.{list_counterparties, list_nostro_accounts}
use fx_deal_manager.Requests.{require_role}

pub record CounterpartyResponse : Type 0 where
  pub id : String
  pub name : String
  pub bic : Option String
  pub country : Option String
  pub is_active : Bool

pub record CurrencyResponse : Type 0 where
  pub code : String
  pub name : String
  pub decimal_places : ℕ

pub record NostroAccountResponse : Type 0 where
  pub id : String
  pub currency_code : String
  pub bank_name : String
  pub account_number : String
  pub is_active : Bool

-- `model_validate` of a row
abbrev pub counterparty_response : Counterparty → CounterpartyResponse
counterparty_response row = record {
  id = row.id;
  name = row.name;
  bic = row.bic;
  country = row.country;
  is_active = row.is_active;
}

abbrev pub currency_response : Currency → CurrencyResponse
currency_response row = record {
  code = row.code;
  name = row.name;
  decimal_places = row.decimal_places;
}

abbrev pub nostro_response : NostroAccount → NostroAccountResponse
nostro_response row = record {
  id = row.id;
  currency_code = row.currency_code;
  bank_name = row.bank_name;
  account_number = row.account_number;
  is_active = row.is_active;
}

-- `list_counterparties` of the service
unfoldable pub nsi_counterparties : List Counterparty → List CounterpartyResponse
nsi_counterparties rows = map counterparty_response (list_counterparties rows true)

-- `list_currencies` of the service
unfoldable pub nsi_currencies : List Currency → List CurrencyResponse
nsi_currencies rows = map currency_response rows

-- `ALL_ROLES`
abbrev pub all_roles : List String
all_roles = "TRADER" ∷ "POSITIONER" ∷ "AUDITOR" ∷ "ADMIN" ∷ []

-- `str.upper` is a parameter.
module _ (upper : String → String) where
  -- The code that the query compares with: the service and the repository each take it to upper case.
  abbrev pub asked_code : Option String → Option String
  asked_code none = none
  asked_code (some code) = if is_empty code then none else some (upper (upper code))

  -- `list_nostro_accounts` of the service
  unfoldable pub nsi_nostro_accounts :
      List NostroAccount → Option String → List NostroAccountResponse
  nsi_nostro_accounts rows code =
      map nostro_response (list_nostro_accounts rows (asked_code code) true)

  -- The routes.
  unfoldable pub get_nostro_accounts :
      UserClaims → Option String → Action (List NostroAccountResponse)
  get_nostro_accounts user code =
      require_role all_roles user >> gets (λ db. nsi_nostro_accounts db.nostro_accounts code)

unfoldable pub get_counterparties : UserClaims → Action (List CounterpartyResponse)
get_counterparties user =
    require_role all_roles user >> gets (λ db. nsi_counterparties db.counterparties)

unfoldable pub get_currencies : UserClaims → Action (List CurrencyResponse)
get_currencies user = require_role all_roles user >> gets (λ db. nsi_currencies db.currencies)

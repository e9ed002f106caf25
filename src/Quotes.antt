-- ===== src/Quotes.antt =====
-- src/fx_deal_manager/api/routes/quotes.py: the last rate of each currency pair among the deals that were
-- changed last.
pub mod Window
pub mod Latest
use Prim.Native.String.{◌++◌}
use fx_deal_manager.Prelude.{
  ℕ, String, Bool, true, false, not, ◌==◌, Option, none, some, List, [], ◌∷◌, same, is_some, select,
  Dict, get, insert, sorted, if◌then◌else◌,
}
use fx_deal_manager.Decimal.{Decimal, minus, divide, times, quantize_basis}
use fx_deal_manager.Domain.{is_cancelled, FxDeal, UserClaims}
use fx_deal_manager.Store.{internal, invalid_operation, Action, or_raise, ◌>>=◌, ◌>>◌}
use fx_deal_manager.Listings.{newest_first, take}
use fx_deal_manager.Requests.{require_role}

-- A row of `fx_deal` with its time stamp. Rows stand in the order of `updated_at`.
pub record UpdatedDeal : Type 0 where
  pub deal : FxDeal
  pub updated_at : ℕ

-- `QuoteResponse`, less its constant source.
pub record QuoteResponse : Type 0 where
  pub pair : String
  pub base_currency : String
  pub quote_currency : String
  pub mid : Decimal
  pub bid : Decimal
  pub ask : Decimal
  pub spread : Decimal
  pub delta_percent : Decimal
  pub updated_at : ℕ

-- `f"{deal.buy_currency}/{deal.sell_currency}"`
abbrev pub pair_of : UpdatedDeal → String
pair_of row = row.deal.buy_currency ++ ("/" ++ row.deal.sell_currency)

-- The statement.
unfoldable pub recent : List UpdatedDeal → List UpdatedDeal
recent rows = take 300 (newest_first (select (λ row. not (is_cancelled row.deal.deal_state)) rows))

-- The loop, on the dictionaries `latest` and `previous`.
unfoldable pub last_two :
    List UpdatedDeal → Dict UpdatedDeal → Dict UpdatedDeal → Dict UpdatedDeal × Dict UpdatedDeal
last_two [] latest previous = (latest, previous)
last_two (row ∷ rows) latest previous =
    last_two rows
      (if is_some (get (pair_of row) latest) then latest else insert (pair_of row) row latest)
      (if is_some (get (pair_of row) latest)
        then if is_some (get (pair_of row) previous)
          then previous
          else insert (pair_of row) row previous
        else previous)

abbrev nought : Decimal
nought = record { negative = false; coefficient = 0; places = 0 }

abbrev hundred : Decimal
hundred = record { negative = false; coefficient = 100; places = 0 }

-- `((deal.rate - prev.rate) / prev.rate * Decimal("100")).quantize(Decimal("0.0001"))`
abbrev change : Decimal → Decimal → Option Decimal
change rate old = quantize_basis (times (divide (minus rate old) old) hundred)

-- `if prev and prev.rate: ...`; `none` is `decimal.InvalidOperation`.
abbrev pub delta : Decimal → Option UpdatedDeal → Option Decimal
delta rate none = some nought
delta rate (some old) =
    if old.deal.rate.coefficient == 0 then some nought else change rate old.deal.rate

abbrev pub quote : String → UpdatedDeal → Decimal → QuoteResponse
quote pair row change = record {
  pair = pair;
  base_currency = row.deal.buy_currency;
  quote_currency = row.deal.sell_currency;
  mid = row.deal.rate;
  bid = row.deal.rate;
  ask = row.deal.rate;
  spread = nought;
  delta_percent = change;
  updated_at = row.updated_at;
}

-- The loop over the sorted pairs.
unfoldable pub quotes_of : Dict UpdatedDeal → Dict UpdatedDeal → Option (List QuoteResponse)
quotes_of previous [] = some []
quotes_of previous ((pair, row) ∷ latest) =
    let rest = quotes_of previous latest in
    elim (delta row.deal.rate (get pair previous)) [
      | none ↦ none
      | some d ↦ elim rest [ none ↦ none | some quotes ↦ some (quote pair row d ∷ quotes) ]
    ]

abbrev pub quote_roles : List String
quote_roles = "TRADER" ∷ "POSITIONER" ∷ "ADMIN" ∷ "AUDITOR" ∷ []

-- Python's order of texts is a parameter.
module _ (before : String → String → Bool) where
  -- The quotes of `list_quotes`; `none` is `decimal.InvalidOperation`.
  unfoldable pub list_quotes : List UpdatedDeal → Option (List QuoteResponse)
  list_quotes rows =
      let (latest, previous) = last_two (recent rows) [] [] in
      quotes_of previous (sorted before latest)

  -- `list_quotes`
  unfoldable pub get_quotes : UserClaims → List UpdatedDeal → Action (List QuoteResponse)
  get_quotes user rows =
      require_role quote_roles user >> or_raise (list_quotes rows) (internal invalid_operation)

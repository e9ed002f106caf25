-- ===== src/Positions/Totals.antt =====
-- The currencies of the answer against sums that are taken for each currency by itself.
use fx_deal_manager.Prelude.{String, Option, none, some, List, [], ◌∷◌, same, if◌then◌else◌}
use fx_deal_manager.Decimal.{Decimal, plus}
use fx_deal_manager.Positions.{FxPositionCurrencyResponse, nought, or_nought, open_exposure}

-- The sum of the amounts with a key, from a value before them; `none` where there is none.
abbrev pub sum_for : String → List (String × Decimal) → Option Decimal → Option Decimal
sum_for k [] old = old
sum_for k ((code, a) ∷ rows) old =
    sum_for k rows (if same code k then some (plus (or_nought old) a) else old)

-- Zero for a key that is there.
abbrev pub zero_for : Option Decimal → Option Decimal
zero_for none = none
zero_for (some a) = some nought

-- The row of a currency in the answer.
pub row_for : String → List FxPositionCurrencyResponse → Option FxPositionCurrencyResponse
row_for k [] = none
row_for k (row ∷ rows) =
    let rest = row_for k rows in if same row.currency_code k then some row else rest

-- The row that a currency should have, from its position and its exposure; `none` is no row.
abbrev pub expected : String → Option Decimal → Option Decimal → Option FxPositionCurrencyResponse
expected k none exposure = none
expected k (some current) exposure = some (record {
  currency_code = k;
  current_position = current;
  open_exposure = or_nought exposure;
  projected_position = plus current (or_nought exposure);
})

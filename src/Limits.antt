-- ===== src/Limits.antt =====
-- src/fx_deal_manager/repositories/limit_repository.py and services/limit_check.py.
pub mod Best
pub mod Reference
pub mod Within
use fx_deal_manager.Prelude.{
  ℕ, ◌+◌, String, Bool, true, false, ◌&&◌, ◌||◌, Option, none, some, List, [], ◌∷◌, ◌++◌, ltb, ◌==◌,
  same, select, if◌then◌else◌,
}
use fx_deal_manager.Decimal.{Decimal, exceeds}
use fx_deal_manager.Domain.{FxDeal, DealLimit}
use fx_deal_manager.Issues.{
  ValidationIssue, issue, amount_exceeds_limit, counter_amount_exceeds_limit,
}
use fx_deal_manager.Payments.{counter_amount}

-- `column IS NULL OR column = value`, and the same test in Python.
abbrev pub covers : Option String → String → Bool
covers none s = true
covers (some t) s = same t s

-- `LimitRepository.list_active_limits`, over the rows of `deal_limit` by id.
unfoldable pub list_active_limits : List DealLimit → String → List DealLimit
list_active_limits rows counterparty_id =
    select (λ row. row.is_active && covers row.counterparty_id counterparty_id) rows

-- `column == value`, as 1 or 0: `None` equals no text.
abbrev pub score : Option String → String → ℕ
score none s = 0
score (some t) s = if same t s then 1 else 0

-- `_specificity(a) < _specificity(b)`, the order of tuples.
unfoldable pub less_specific : String → String → DealLimit → DealLimit → Bool
less_specific counterparty_id currency_code a b =
    let x = score a.counterparty_id counterparty_id in
    let y = score b.counterparty_id counterparty_id in
    ltb x y
    || (x == y && ltb (score a.currency_code currency_code) (score b.currency_code currency_code))

-- `max(..., key=_specificity)`: the first of the greatest.
unfoldable pub greatest : String → String → DealLimit → List DealLimit → DealLimit
greatest counterparty_id currency_code best [] = best
greatest counterparty_id currency_code best (limit ∷ limits) =
    greatest counterparty_id currency_code
      (if less_specific counterparty_id currency_code best limit then limit else best) limits

unfoldable pub matching : List DealLimit → String → String → List DealLimit
matching limits counterparty_id currency_code =
    select
      (λ limit.
        covers limit.counterparty_id counterparty_id && covers limit.currency_code currency_code)
      limits

unfoldable pub max_of : String → String → List DealLimit → Option DealLimit
max_of counterparty_id currency_code [] = none
max_of counterparty_id currency_code (limit ∷ limits) =
    some (greatest counterparty_id currency_code limit limits)

-- `_find_best_limit`
unfoldable pub find_best_limit : List DealLimit → String → String → Option DealLimit
unfolding matching max_of greatest less_specific
find_best_limit limits counterparty_id currency_code =
    max_of counterparty_id currency_code (matching limits counterparty_id currency_code)

over : Option DealLimit → Decimal → (Decimal → ValidationIssue) → List ValidationIssue
over none amount report = []
over (some limit) amount report =
    if exceeds amount limit.max_amount then report limit.max_amount ∷ [] else []

-- `LimitCheckService.check` on the rows of the table; `none` is the `InvalidOperation` of the
-- counter amount, which is computed only where there are limits.
check_limits : List DealLimit → FxDeal → Option (List ValidationIssue)
unfolding over
check_limits [] deal = some []
check_limits limits deal = elim (counter_amount deal) [
  | none ↦ none
  | some counter ↦ some (
      over (find_best_limit limits deal.counterparty_id deal.buy_currency) deal.amount (λ bound.
        issue "amount"
          (amount_exceeds_limit deal.amount deal.buy_currency bound deal.counterparty_id))
      ++ over (find_best_limit limits deal.counterparty_id deal.sell_currency) counter (λ bound.
        issue "amount"
          (counter_amount_exceeds_limit counter deal.sell_currency bound deal.counterparty_id)))
]

unfoldable pub check : List DealLimit → FxDeal → Option (List ValidationIssue)
unfolding check_limits
check rows deal = check_limits (list_active_limits rows deal.counterparty_id) deal

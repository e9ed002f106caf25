-- ===== src/Limits/Within.antt =====
-- What the limit check lets through.
use mathlib.Core.Option.{some-injective}
use mathlib.Core.Path.{transport}
use fx_deal_manager.Prelude.{
  ℕ, ◌+◌, ◌*◌, ◌^◌, ◌≤◌, ◌≡◌, ◌∙◌, ap, ◌↔◌, refl, ◌⊎◌, inl, inr, Bool, true, false, Option, none,
  some, List, [], ◌∷◌, ◌++◌, arith, All, sym, Option-cases, if◌then◌else◌,
}
use fx_deal_manager.Decimal.{Decimal, exceeds}
use fx_deal_manager.Domain.{FxDeal, DealLimit}
use fx_deal_manager.Issues.{ValidationIssue}
use fx_deal_manager.Payments.{counter_amount}
use fx_deal_manager.Limits.Reference.{
  is_active_for, bound_on, find_best_limit-bound_on, list_active_limits_empty,
}
use fx_deal_manager.Limits.{list_active_limits, find_best_limit, over, check_limits, check}

-- `a ≤ b` of two decimals, by their coefficients at a common number of places.
abbrev SignedAtMost : Bool → Bool → ℕ → ℕ → Type 0
SignedAtMost true true left right = right ≤ left
SignedAtMost true false left right = Unit
SignedAtMost false true left right = left + right ≡ 0
SignedAtMost false false left right = left ≤ right

abbrev pub IsAtMost : Decimal → Decimal → Type 0
IsAtMost a b =
    SignedAtMost a.negative b.negative (a.coefficient * 10 ^ b.places)
      (b.coefficient * 10 ^ a.places)

-- At most the bound of a limit, where there is one.
abbrev pub IsBelow : Option DealLimit → Decimal → Type 0
IsBelow none a = Unit
IsBelow (some limit) a = IsAtMost a limit.max_amount

-- The amount and the counter amount are each at most the bound of the limit that is found for their
-- currency.
abbrev HasBounds : List DealLimit → FxDeal → Type 0
HasBounds limits deal =
    (counter : Decimal) × (counter_amount deal ≡ some counter)
    × IsBelow (find_best_limit limits deal.counterparty_id deal.buy_currency) deal.amount
    × IsBelow (find_best_limit limits deal.counterparty_id deal.sell_currency) counter

exceeds-IsAtMost : (a b : Decimal) → (exceeds a b ≡ false) ↔ IsAtMost a b
unfolding exceeds
exceeds-IsAtMost a b = ground arith

not_reported : (b : Bool) (x : ValidationIssue) → (if b then x ∷ [] else []) ≡ [] → b ≡ false
not_reported true x h = cc
not_reported false x h = refl

over-IsBelow :
    (limit : Option DealLimit) (a : Decimal) (report : Decimal → ValidationIssue)
    → (over limit a report ≡ []) ↔ IsBelow limit a
unfolding over
over-IsBelow none a report = (λ h. tt, λ h. refl)
over-IsBelow (some limit) a report = (
  λ h. (exceeds-IsAtMost a limit.max_amount).0 (not_reported _ _ h),
  λ h. rw ((exceeds-IsAtMost a limit.max_amount).1 h) refl,
)

both_empty : (xs ys : List ValidationIssue) → xs ++ ys ≡ [] → (xs ≡ []) × (ys ≡ [])
both_empty [] ys h = (refl, h)
both_empty (x ∷ xs) ys h = cc

bounded :
    (first : DealLimit) (rest : List DealLimit) (deal : FxDeal)
    → (check_limits (first ∷ rest) deal ≡ some []) ↔ HasBounds (first ∷ rest) deal
unfolding check_limits
bounded first rest deal = elim (Option-cases (counter_amount deal)) [
  | inl e ↦ (λ h. let raised = rw (e, check_limits) at h in cc, λ h. cc)
  | inr (counter, e) ↦ (
    λ h.
        let (buy, sell) = both_empty _ _ (some-injective _ _ (rw (e, check_limits) at h)) in
        (counter, e, (over-IsBelow _ _ _).0 buy, (over-IsBelow _ _ _).0 sell),
    λ (other, f, buy, sell).
        rw (f, check_limits)
          (rw ((over-IsBelow _ _ _).1 buy) (rw ((over-IsBelow _ _ _).1 sell) refl)),
  )
]

split_limits :
    (limits : List DealLimit) (deal : FxDeal)
    → (check_limits limits deal ≡ some []) ↔ ((limits ≡ []) ⊎ HasBounds limits deal)
unfolding check_limits
split_limits [] deal = (λ h. inl refl, λ h. refl)
split_limits (first ∷ rest) deal = (
  λ h. inr ((bounded first rest deal).0 h),
  λ h. elim h [ inl e ↦ cc | inr b ↦ (bounded first rest deal).1 b ],
)

-- The amount and the counter amount are each at most the bound that the table has on deals with the
-- counterparty in their currency.
abbrev pub IsBounded : List DealLimit → FxDeal → Type 0
IsBounded rows deal =
    (counter : Decimal) × (counter_amount deal ≡ some counter)
    × IsBelow (bound_on deal.counterparty_id deal.buy_currency rows) deal.amount
    × IsBelow (bound_on deal.counterparty_id deal.sell_currency rows) counter

IsBounded-by :
    (rows : List DealLimit) (deal : FxDeal)
    → HasBounds (list_active_limits rows deal.counterparty_id) deal ≡ IsBounded rows deal
IsBounded-by rows deal i =
    (counter : Decimal) × (counter_amount deal ≡ some counter)
    × IsBelow (find_best_limit-bound_on deal.counterparty_id deal.buy_currency rows i) deal.amount
    × IsBelow (find_best_limit-bound_on deal.counterparty_id deal.sell_currency rows i) counter

-- The limit check finds nothing exactly for a deal with a counterparty that no row of the table is active for,
-- or whose amount and counter amount, which there is then, are each at most the bound on it: that of the
-- active row of the greatest weight which is for the counterparty or for all, and for the currency or for
-- all; to name the counterparty weighs more than to name the currency, and of rows of the same weight
-- the first one counts; without such a row there is no bound.
pub check-IsBounded :
    (rows : List DealLimit) (deal : FxDeal)
    → (check rows deal ≡ some [])
      ↔ (All (λ limit. is_active_for deal.counterparty_id limit ≡ false) rows ⊎ IsBounded rows deal)
unfolding check
check-IsBounded rows deal =
    let (forth, back) = split_limits (list_active_limits rows deal.counterparty_id) deal in
    let (empty, full) = list_active_limits_empty deal.counterparty_id rows in
    (
      λ h. elim (forth h) [
        | inl e ↦ inl (empty e)
        | inr b ↦ inr (transport (IsBounded-by rows deal) b)
      ],
      λ h. elim h [
        | inl e ↦ back (inl (full e))
        | inr b ↦ back (inr (transport (sym (IsBounded-by rows deal)) b))
      ],
    )

-- The limit check looks at the terms of a deal alone.
check_limits-terms :
    (limits : List DealLimit) (d d' : FxDeal)
    → d'.counterparty_id ≡ d.counterparty_id
    → d'.buy_currency ≡ d.buy_currency
    → d'.sell_currency ≡ d.sell_currency
    → d'.amount ≡ d.amount
    → d'.rate ≡ d.rate
    → check_limits limits d' ≡ check_limits limits d
unfolding check_limits counter_amount
check_limits-terms [] d d' party bought sold amount rate = refl
check_limits-terms (first ∷ rest) d d' party bought sold amount rate =
    rw (party, bought, sold, amount, rate) refl

pub check-terms :
    (rows : List DealLimit) (d d' : FxDeal)
    → d'.counterparty_id ≡ d.counterparty_id
    → d'.buy_currency ≡ d.buy_currency
    → d'.sell_currency ≡ d.sell_currency
    → d'.amount ≡ d.amount
    → d'.rate ≡ d.rate
    → check rows d' ≡ check rows d
unfolding check
check-terms rows d d' party bought sold amount rate =
    check_limits-terms (list_active_limits rows d'.counterparty_id) d d' party bought sold amount
      rate
    ∙ ap (λ key. check_limits (list_active_limits rows key) d) party

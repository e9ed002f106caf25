-- ===== src/Limits/Reference.antt =====
-- The bound on the deals with a counterparty in a currency, from the rows of the table alone.
use fx_deal_manager.Prelude.{
  ℕ, ◌+◌, ◌*◌, String, ◌≡◌, refl, sym, ◌∙◌, ap, inl, inr, Bool, true, false, ◌&&◌, Option, none,
  some, List, [], ◌∷◌, arith, ltb, same, select, All, Bool-cases, ◌↔◌, if◌then◌else◌,
}
use fx_deal_manager.Domain.{DealLimit}
use fx_deal_manager.Limits.{
  covers, score, less_specific, greatest, matching, max_of, find_best_limit, list_active_limits,
}
use fx_deal_manager.Limits.Best.{rank, less_specific-rank}

-- A column is empty, or has the value.
abbrev pub is_for : Option String → String → Bool
is_for none s = true
is_for (some t) s = same t s

-- 1 for a column that has the value, and 0 for an empty one.
abbrev pub named : Option String → String → ℕ
named none s = 0
named (some t) s = if same t s then 1 else 0

-- An active limit that is for the counterparty, or for all.
abbrev pub is_active_for : String → DealLimit → Bool
is_active_for counterparty_id limit =
    limit.is_active && is_for limit.counterparty_id counterparty_id

named-score : (o : Option String) (s : String) → score o s ≡ named o s
named-score none s = refl
named-score (some t) s = refl

is_for-covers : (o : Option String) (s : String) → covers o s ≡ is_for o s
is_for-covers none s = refl
is_for-covers (some t) s = refl

and_twice : (a c d : Bool) → ((a && c) && (c && d)) ≡ ((a && c) && d)
and_twice a c d = ground arith

select_twice :
    (p q r : DealLimit → Bool)
    → ((limit : DealLimit) → (p limit && q limit) ≡ r limit)
    → (rows : List DealLimit) → select q (select p rows) ≡ select r rows
select_twice p q r same_test [] = refl
select_twice p q r same_test (limit ∷ rows) =
    let rest = select_twice p q r same_test rows in
    let test = same_test limit in
    elim (Bool-cases (p limit)) [
      | inl e ↦ elim (Bool-cases (q limit)) [
        | inl f ↦
            let yes = rw f at (rw e at test) in
            rw e (rw f (rw (sym yes) (ap (λ xs. limit ∷ xs) rest)))
        | inr f ↦ let no = rw f at (rw e at test) in rw e (rw f (rw (sym no) rest))
      ]
      | inr e ↦ let no = rw e at test in rw e (rw (sym no) rest)
    ]

module _ (counterparty_id currency_code : String) where
  -- The limit counts for deals with the counterparty in the currency.
  abbrev pub counts : DealLimit → Bool
  counts limit = is_active_for counterparty_id limit && is_for limit.currency_code currency_code

  -- To name the counterparty weighs more than to name the currency.
  abbrev pub weight : DealLimit → ℕ
  weight limit =
      2 * named limit.counterparty_id counterparty_id + named limit.currency_code currency_code

  -- A limit against the one found among those after it; of two of the same weight the first stays.
  abbrev pub nearer : DealLimit → Option DealLimit → Option DealLimit
  nearer limit none = some limit
  nearer limit (some later) = if ltb (weight limit) (weight later) then some later else some limit

  -- The limit of the greatest weight among those that count.
  pub bound_on : List DealLimit → Option DealLimit
  bound_on [] = none
  bound_on (limit ∷ rows) =
      let rest = bound_on rows in if counts limit then nearer limit rest else rest

  -- The same among limits that all count.
  heaviest : List DealLimit → Option DealLimit
  heaviest [] = none
  heaviest (limit ∷ rows) = nearer limit (heaviest rows)

  weight-rank : (limit : DealLimit) → rank counterparty_id currency_code limit ≡ weight limit
  weight-rank limit = λ i.
      2 * named-score limit.counterparty_id counterparty_id i
      + named-score limit.currency_code currency_code i

  less_specific-weight :
      (a b : DealLimit)
      → less_specific counterparty_id currency_code a b ≡ ltb (weight a) (weight b)
  less_specific-weight a b =
      less_specific-rank counterparty_id currency_code a b
      ∙ (λ i. ltb (weight-rank a i) (weight-rank b i))

  nearer_twice :
      (best limit : DealLimit) (rest : Option DealLimit)
      → nearer (if ltb (weight best) (weight limit) then limit else best) rest
        ≡ nearer best (nearer limit rest)
  nearer_twice best limit none = ground arith
  nearer_twice best limit (some later) = ground arith

  greatest-heaviest :
      (limits : List DealLimit) (best : DealLimit)
      → some (greatest counterparty_id currency_code best limits) ≡ nearer best (heaviest limits)
  unfolding greatest heaviest
  greatest-heaviest [] best = refl
  greatest-heaviest (limit ∷ limits) best =
      ap (λ b. some (greatest counterparty_id currency_code (if b then limit else best) limits))
        (less_specific-weight best limit)
      ∙ greatest-heaviest limits _
      ∙ nearer_twice best limit (heaviest limits)

  max_of-heaviest :
      (limits : List DealLimit) → max_of counterparty_id currency_code limits ≡ heaviest limits
  unfolding max_of heaviest
  max_of-heaviest [] = refl
  max_of-heaviest (limit ∷ limits) = greatest-heaviest limits limit

  counts-covers :
      (limit : DealLimit)
      → ((limit.is_active && covers limit.counterparty_id counterparty_id)
          && (covers limit.counterparty_id counterparty_id
              && covers limit.currency_code currency_code))
        ≡ counts limit
  counts-covers limit =
      and_twice limit.is_active (covers limit.counterparty_id counterparty_id) _ ∙ (λ i.
        (limit.is_active && is_for-covers limit.counterparty_id counterparty_id i)
        && is_for-covers limit.currency_code currency_code i)

  matching-active :
      (rows : List DealLimit)
      → matching (list_active_limits rows counterparty_id) counterparty_id currency_code
        ≡ select counts rows
  unfolding matching list_active_limits
  matching-active = select_twice _ _ counts counts-covers

  heaviest-bound_on : (rows : List DealLimit) → heaviest (select counts rows) ≡ bound_on rows
  unfolding heaviest bound_on
  heaviest-bound_on [] = refl
  heaviest-bound_on (limit ∷ rows) = elim (Bool-cases (counts limit)) [
    | inl e ↦ rw e (ap (nearer limit) (heaviest-bound_on rows))
    | inr e ↦ rw e (heaviest-bound_on rows)
  ]

  pub find_best_limit-bound_on :
      (rows : List DealLimit)
      → find_best_limit (list_active_limits rows counterparty_id) counterparty_id currency_code
        ≡ bound_on rows
  unfolding find_best_limit
  find_best_limit-bound_on rows =
      max_of-heaviest _ ∙ ap heaviest (matching-active rows) ∙ heaviest-bound_on rows

-- No limit is active for the counterparty exactly if the query finds none.
pub list_active_limits_empty :
    (counterparty_id : String) (rows : List DealLimit)
    → (list_active_limits rows counterparty_id ≡ [])
      ↔ All (λ limit. is_active_for counterparty_id limit ≡ false) rows
unfolding list_active_limits
list_active_limits_empty counterparty_id [] = (λ h. tt, λ h. refl)
list_active_limits_empty counterparty_id (limit ∷ rows) =
    let (forth, back) = list_active_limits_empty counterparty_id rows in
    let test : (limit.is_active && covers limit.counterparty_id counterparty_id)
        ≡ is_active_for counterparty_id limit =
      ap (λ b. limit.is_active && b) (is_for-covers limit.counterparty_id counterparty_id) in
    elim (Bool-cases (is_active_for counterparty_id limit)) [
      | inl e ↦ let yes = test ∙ e in (λ h. let found = rw yes at h in cc, λ (wrong, rest). cc)
      | inr e ↦
          let no = test ∙ e in (λ h. (e, forth (rw no at h)), λ (first, rest). rw no (back rest))
    ]

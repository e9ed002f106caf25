-- ===== src/Limits/Best.antt =====
-- `_find_best_limit` against the limits that apply and their rank.
use mathlib.Core.Path.{subst}
use fx_deal_manager.Prelude.{
  ℕ, ◌+◌, ◌*◌, ◌≤◌, String, ◌≡◌, refl, sym, ◌∙◌, ap, ◌⊎◌, inl, inr, Bool, true, false, ◌&&◌, ◌||◌,
  Option, none, some, List, [], ◌∷◌, arith, Has, All, All-Has, Bool-cases, Option-cases, ltb, ◌==◌,
  ltb_iff, if◌then◌else◌,
}
use fx_deal_manager.Domain.{DealLimit}
use fx_deal_manager.Limits.{
  covers, score, less_specific, greatest, matching, max_of, find_best_limit,
}

numbers :
    (x y u v : ℕ)
    → x ≤ 1
    → u ≤ 1
    → y ≤ 1
    → v ≤ 1
    → (ltb x y || (x == y && ltb u v)) ≡ ltb (2 * x + u) (2 * y + v)
numbers x y u v a b c d = ground arith

higher : (a b : ℕ) → ltb a b ≡ false → b ≤ a
higher a b h = ground arith

All-members :
    (P : DealLimit → Type 0) (limits : List DealLimit)
    → ((x : DealLimit) → Has x limits → P x)
    → All P limits
All-members P [] h = tt
All-members P (limit ∷ limits) h =
    (h limit (inl refl), All-members P limits λ x later. h x (inr later))

module _ (counterparty_id currency_code : String) where
  -- The order of the pairs of scores, as one number.
  abbrev pub rank : DealLimit → ℕ
  rank limit =
      2 * score limit.counterparty_id counterparty_id + score limit.currency_code currency_code

  -- The limit applies to the counterparty and to the currency.
  abbrev pub applies : DealLimit → Bool
  applies limit =
      covers limit.counterparty_id counterparty_id && covers limit.currency_code currency_code

  score_bound : (o : Option String) (s : String) → score o s ≤ 1
  score_bound none s = omega arith
  score_bound (some t) s = ground arith

  pub less_specific-rank :
      (a b : DealLimit) → less_specific counterparty_id currency_code a b ≡ ltb (rank a) (rank b)
  unfolding less_specific
  less_specific-rank a b =
      numbers (score a.counterparty_id counterparty_id) (score b.counterparty_id counterparty_id)
        (score a.currency_code currency_code) (score b.currency_code currency_code)
        (score_bound a.counterparty_id counterparty_id) (score_bound a.currency_code currency_code)
        (score_bound b.counterparty_id counterparty_id) (score_bound b.currency_code currency_code)

  greatest_next :
      (best limit : DealLimit) (limits : List DealLimit) (b : Bool)
      → less_specific counterparty_id currency_code best limit ≡ b
      → greatest counterparty_id currency_code best (limit ∷ limits)
        ≡ greatest counterparty_id currency_code (if b then limit else best) limits
  unfolding greatest
  greatest_next best limit limits b e =
      ap (λ x. greatest counterparty_id currency_code (if x then limit else best) limits) e

  Has-greatest :
      (best : DealLimit) (limits : List DealLimit)
      → Has (greatest counterparty_id currency_code best limits) (best ∷ limits)
  unfolding greatest
  Has-greatest best [] = inl refl
  Has-greatest best (limit ∷ limits) =
      elim (Bool-cases (less_specific counterparty_id currency_code best limit)) [
        | inl e ↦
            subst (λ x. Has x (best ∷ limit ∷ limits))
              (sym (greatest_next best limit limits true e)) (inr (Has-greatest limit limits))
        | inr e ↦
            subst (λ x. Has x (best ∷ limit ∷ limits))
              (sym (greatest_next best limit limits false e))
              (elim (Has-greatest best limits) [
                | inl here ↦ inl here
                | inr later ↦ inr (inr later)
              ])
      ]

  greatest-rank :
      (best : DealLimit) (limits : List DealLimit)
      → All
          (λ x. rank x ≤ rank (greatest counterparty_id currency_code best limits))
          (best ∷ limits)
  unfolding greatest
  greatest-rank best [] = (omega arith, tt)
  greatest-rank best (limit ∷ limits) =
      elim (Bool-cases (less_specific counterparty_id currency_code best limit)) [
        | inl e ↦
            let lower =
              (ltb_iff (rank best) (rank limit)).0 (sym (less_specific-rank best limit) ∙ e) in
            let (h, rest) = greatest-rank limit limits in
            subst (λ x. All (λ y. rank y ≤ rank x) (best ∷ limit ∷ limits))
              (sym (greatest_next best limit limits true e)) (omega (arith, h, lower), (h, rest))
        | inr e ↦
            let lower = higher (rank best) (rank limit) (sym (less_specific-rank best limit) ∙ e) in
            let (h, rest) = greatest-rank best limits in
            subst (λ x. All (λ y. rank y ≤ rank x) (best ∷ limit ∷ limits))
              (sym (greatest_next best limit limits false e)) (h, (omega (arith, h, lower), rest))
      ]

  -- Limits that apply, and all of them.
  All-matching :
      (limits : List DealLimit)
      → All (λ limit. applies limit ≡ true) (matching limits counterparty_id currency_code)
  unfolding matching
  All-matching [] = tt
  All-matching (limit ∷ limits) = elim (Bool-cases (applies limit)) [
    | inl e ↦ rw e (e, All-matching limits)
    | inr e ↦ rw e (All-matching limits)
  ]

  -- A condition with its choice made, for the members of a list.
  Has-kept :
      (b : Bool) (x y : DealLimit) (ys : List DealLimit)
      → Has x (if b then y ∷ ys else ys)
      → Has x (y ∷ ys)
  Has-kept true x y ys h = h
  Has-kept false x y ys h = inr h

  matching-Has :
      (x : DealLimit) (limits : List DealLimit)
      → Has x (matching limits counterparty_id currency_code)
      → Has x limits
  unfolding matching
  matching-Has x [] h = h
  matching-Has x (limit ∷ limits) h = elim (Has-kept (applies limit) x limit _ h) [
    | inl e ↦ inl e
    | inr later ↦ inr (matching-Has x limits later)
  ]

  Has-matching :
      (x : DealLimit) (limits : List DealLimit)
      → Has x limits
      → applies x ≡ true
      → Has x (matching limits counterparty_id currency_code)
  unfolding matching
  Has-matching x [] h a = h
  Has-matching x (limit ∷ limits) (inl e) a = rw (ap applies (sym e) ∙ a) (inl e)
  Has-matching x (limit ∷ limits) (inr later) a = elim (Bool-cases (applies limit)) [
    | inl e ↦ rw e (inr (Has-matching x limits later a))
    | inr e ↦ rw e (Has-matching x limits later a)
  ]

  -- What `max` picks of a list.
  abbrev IsBest : List DealLimit → Option DealLimit → Type 0
  IsBest limits none = limits ≡ []
  IsBest limits (some best) = Has best limits × All (λ x. rank x ≤ rank best) limits

  max_of-IsBest :
      (limits : List DealLimit) → IsBest limits (max_of counterparty_id currency_code limits)
  unfolding max_of
  max_of-IsBest [] = refl
  max_of-IsBest (limit ∷ limits) = (Has-greatest limit limits, greatest-rank limit limits)

  -- The limit that is found is one of the list, applies to the counterparty and the currency, and
  -- ranks no lower than any other that applies: a limit for the counterparty ranks above one for all
  -- counterparties, and among these a limit for the currency above one for all currencies. None is
  -- found only if none of the list applies.
  pub find_best_limit-IsBest :
      (limits : List DealLimit)
      → ((best : DealLimit) × (find_best_limit limits counterparty_id currency_code ≡ some best)
          × Has best limits
          × (applies best ≡ true)
          × All (λ x. (applies x ≡ false) ⊎ (rank x ≤ rank best)) limits)
        ⊎ ((find_best_limit limits counterparty_id currency_code ≡ none)
            × All (λ x. applies x ≡ false) limits)
  unfolding find_best_limit
  find_best_limit-IsBest limits =
      let found = max_of-IsBest (matching limits counterparty_id currency_code) in
      elim (Option-cases
        (max_of counterparty_id currency_code (matching limits counterparty_id currency_code))) [
          | inl e ↦
              let empty : IsBest (matching limits counterparty_id currency_code) none =
                subst (IsBest (matching limits counterparty_id currency_code)) e found in
              inr (
                e,
                All-members (λ x. applies x ≡ false) limits
                    λ x h. elim (Bool-cases (applies x)) [
                      | inl a ↦ elim (subst (Has x) empty (Has-matching x limits h a)) [ ]
                      | inr a ↦ a
                    ],
              )
          | inr (best, e) ↦
              let chosen : IsBest (matching limits counterparty_id currency_code) (some best) =
                subst (IsBest (matching limits counterparty_id currency_code)) e found in
              let (member, top) = chosen in
              inl (
                best,
                e,
                matching-Has best limits member,
                All-Has (λ x. applies x ≡ true) best _ (All-matching limits) member,
                All-members (λ x. (applies x ≡ false) ⊎ (rank x ≤ rank best)) limits
                    λ x h. elim (Bool-cases (applies x)) [
                      | inl a ↦
                          inr
                            (All-Has (λ y. rank y ≤ rank best) x _ top (Has-matching x limits h a))
                      | inr a ↦ inl a
                    ],
              )
        ]

-- ===== src/Quotes/Latest.antt =====
-- The rate of a pair against the deals in it, the newest first.
use fx_deal_manager.Prelude.{
  ℕ, String, ◌≡◌, ◌≢◌, ◌⊎◌, ◌==◌, ==_iff, refl, sym, ◌∙◌, ap, Bool, true, false, Option, none, some,
  List, [], ◌∷◌, arith, same, is_some, select, Dict, get, insert, get-insert, get-same, Unique,
  Unique-insert, get-sorted, inl, inr, Bool-cases, Option-cases, if◌then◌else◌,
}
use mathlib.Core.Option.{some-injective}
use mathlib.Core.Path.{subst}
use fx_deal_manager.Decimal.{Decimal, minus, divide, times, quantize_basis}
use fx_deal_manager.Quotes.Window.{window, recent-window}
use fx_deal_manager.Quotes.{
  UpdatedDeal, QuoteResponse, pair_of, recent, last_two, delta, quote, quotes_of, list_quotes,
}

-- The deals in a pair.
abbrev pub in_pair : String → List UpdatedDeal → List UpdatedDeal
in_pair pair rows = select (λ row. same (pair_of row) pair) rows

-- What is there, or else the first of a list; and what is left of the list after that.
abbrev pub first_of_all : Option UpdatedDeal → List UpdatedDeal → Option UpdatedDeal
first_of_all (some row) rows = some row
first_of_all none [] = none
first_of_all none (row ∷ rows) = some row

abbrev pub others : Option UpdatedDeal → List UpdatedDeal → List UpdatedDeal
others (some row) rows = rows
others none [] = []
others none (row ∷ rows) = rows

no_more : (o : Option UpdatedDeal) → o ≡ first_of_all o []
no_more none = refl
no_more (some row) = refl

no_others : (o p : Option UpdatedDeal) → first_of_all p (others o []) ≡ p
no_others none none = refl
no_others none (some q) = refl
no_others (some row) none = refl
no_others (some row) (some q) = refl

-- One round of the loop.
latest_step :
    (pair : String) (row : UpdatedDeal) (latest : Dict UpdatedDeal)
    → get pair
        (if is_some (get (pair_of row) latest) then latest else insert (pair_of row) row latest)
      ≡ (if same (pair_of row) pair
          then first_of_all (get pair latest) (row ∷ [])
          else get pair latest)
latest_step pair row latest =
    ground (arith, get-insert pair (pair_of row) row latest, get-same (pair_of row) pair latest)

previous_step :
    (pair : String) (row : UpdatedDeal) (latest previous : Dict UpdatedDeal)
    → get pair (
        if is_some (get (pair_of row) latest)
        then if is_some (get (pair_of row) previous)
          then previous
          else insert (pair_of row) row previous
        else previous)
      ≡ (if same (pair_of row) pair
          then first_of_all (get pair previous) (others (get pair latest) (row ∷ []))
          else get pair previous)
previous_step pair row latest previous = ground (
  arith,
  get-insert pair (pair_of row) row previous,
  get-same (pair_of row) pair latest,
  get-same (pair_of row) pair previous,
)

module _ (row : UpdatedDeal) (rows : List UpdatedDeal) where
  first_next :
      (b : Bool) (latest : Option UpdatedDeal)
      → first_of_all (if b then first_of_all latest (row ∷ []) else latest) rows
        ≡ first_of_all latest (if b then row ∷ rows else rows)
  first_next true none = refl
  first_next true (some old) = refl
  first_next false none = refl
  first_next false (some old) = refl

  second_next :
      (b : Bool) (latest previous : Option UpdatedDeal)
      → first_of_all
          (if b then first_of_all previous (others latest (row ∷ [])) else previous)
          (others (if b then first_of_all latest (row ∷ []) else latest) rows)
        ≡ first_of_all previous (others latest (if b then row ∷ rows else rows))
  second_next true none none = refl
  second_next true none (some q) = refl
  second_next true (some p) none = refl
  second_next true (some p) (some q) = refl
  second_next false none previous = refl
  second_next false (some p) previous = refl

get-last_two :
    (pair : String) (rows : List UpdatedDeal) (latest previous : Dict UpdatedDeal)
    → (let (latest', previous') = last_two rows latest previous in
        (get pair latest' ≡ first_of_all (get pair latest) (in_pair pair rows))
        × (get pair previous'
            ≡ first_of_all (get pair previous) (others (get pair latest) (in_pair pair rows))))
unfolding last_two
get-last_two pair [] latest previous =
    (no_more (get pair latest), sym (no_others (get pair latest) (get pair previous)))
get-last_two pair (row ∷ rows) latest previous =
    let b = same (pair_of row) pair in
    let (first, second) = get-last_two pair rows _ _ in
    (
      first
          ∙ ap (λ o. first_of_all o (in_pair pair rows)) (latest_step pair row latest)
          ∙ first_next row (in_pair pair rows) b (get pair latest),
      second
          ∙ (λ i.
              first_of_all (previous_step pair row latest previous i)
                (others (latest_step pair row latest i) (in_pair pair rows)))
          ∙ second_next row (in_pair pair rows) b (get pair latest) (get pair previous),
    )

Unique-last_two :
    (rows : List UpdatedDeal) (latest previous : Dict UpdatedDeal)
    → Unique latest
    → Unique (last_two rows latest previous).0
unfolding last_two
Unique-last_two [] latest previous h = h
Unique-last_two (row ∷ rows) latest previous h =
    Unique-last_two rows _ _ (elim (Bool-cases (is_some (get (pair_of row) latest))) [
      | inl e ↦ rw e h
      | inr e ↦ rw e (Unique-insert (pair_of row) row latest h)
    ])

-- The quote of a pair in an answer.
pub quote_for : String → List QuoteResponse → Option QuoteResponse
quote_for pair [] = none
quote_for pair (q ∷ quotes) =
    let rest = quote_for pair quotes in if same q.pair pair then some q else rest

-- The quote that a pair should have, from its last deal and the one before it; `none` is no quote.
abbrev pub quoted : String → Option UpdatedDeal → Option UpdatedDeal → Option QuoteResponse
quoted pair none old = none
quoted pair (some row) old = elim (delta row.deal.rate old) [
  | none ↦ none
  | some d ↦ some (quote pair row d)
]

quoted-some :
    (pair : String) (row : UpdatedDeal) (d : Decimal) (old : Option UpdatedDeal)
    → delta row.deal.rate old ≡ some d
    → quoted pair (some row) old ≡ some (quote pair row d)
quoted-some pair row d old h = rw (h, quoted) refl

quotes_step :
    (previous : Dict UpdatedDeal) (key : String) (row : UpdatedDeal) (latest : Dict UpdatedDeal)
    (quotes : List QuoteResponse)
    → quotes_of previous ((key, row) ∷ latest) ≡ some quotes
    → (d : Decimal) × (rest : List QuoteResponse) × (delta row.deal.rate (get key previous)
        ≡ some d)
      × (quotes_of previous latest ≡ some rest)
      × (quote key row d ∷ rest ≡ quotes)
unfolding quotes_of
quotes_step previous key row latest quotes h =
    elim (Option-cases (delta row.deal.rate (get key previous))) [
      | inl e ↦ let failed = rw (e, quotes_of) at h in cc
      | inr (d, e) ↦ elim (Option-cases (quotes_of previous latest)) [
        | inl f ↦ let failed = rw (f, quotes_of) at (rw (e, quotes_of) at h) in cc
        | inr (rest, f) ↦
            (d, rest, e, f, some-injective _ quotes (rw (f, quotes_of) at (rw (e, quotes_of) at h)))
      ]
    ]

quote_for-quotes_of :
    (previous : Dict UpdatedDeal) (pair : String) (latest : Dict UpdatedDeal)
    (quotes : List QuoteResponse)
    → quotes_of previous latest ≡ some quotes
    → quote_for pair quotes ≡ quoted pair (get pair latest) (get pair previous)
unfolding quotes_of quote_for
quote_for-quotes_of previous pair [] quotes h = rw (← some-injective _ quotes h) refl
quote_for-quotes_of previous pair ((key, row) ∷ latest) quotes h =
    let (d, rest, e, f, g) = quotes_step previous key row latest quotes h in
    rw (← g) (elim (Bool-cases (same key pair)) [
      | inl e_pair ↦
          let same_key : key ≡ pair = ground arith in
          rw e_pair (
            ap (λ k. some (quote k row d)) same_key
            ∙ sym (
                quoted-some pair row d (get pair previous)
                  (ap (λ k. delta row.deal.rate (get k previous)) (sym same_key) ∙ e)))
      | inr other ↦ rw other (quote_for-quotes_of previous pair latest rest f)
    ])

quote_for-some :
    (previous : Dict UpdatedDeal) (pair : String) (latest : Dict UpdatedDeal)
    (quotes : List QuoteResponse) (row : UpdatedDeal)
    → quotes_of previous latest ≡ some quotes
    → get pair latest ≡ some row
    → (q : QuoteResponse) × (quote_for pair quotes ≡ some q)
unfolding quotes_of quote_for
quote_for-some previous pair [] quotes row h there = cc
quote_for-some previous pair ((key, first) ∷ latest) quotes row h there =
    let (d, rest, e, f, g) = quotes_step previous key first latest quotes h in
    rw (← g) (elim (Bool-cases (same key pair)) [
      | inl e_pair ↦ rw e_pair (quote key first d, refl)
      | inr other ↦ rw other (quote_for-some previous pair latest rest row f (rw other at there))
    ])

nonzero : (n : ℕ) → (n == 0) ≡ false → n ≢ 0
nonzero n h = ground arith

-- The change in percent, to four places, against the rate before; 0 where there is none, or where it is 0.
abbrev pub IsChange : Decimal → Option UpdatedDeal → Decimal → Type 0
IsChange rate none c = c.coefficient ≡ 0
IsChange rate (some old) c =
    ((old.deal.rate.coefficient ≡ 0) × (c.coefficient ≡ 0))
    ⊎ ((old.deal.rate.coefficient ≢ 0)
        × (let percent : Decimal = record { negative = false; coefficient = 100; places = 0 } in
            quantize_basis (times (divide (minus rate old.deal.rate) old.deal.rate) percent)
            ≡ some c))

-- The quote of a pair tells the rate of a deal, and the change against the deal before.
pub record IsQuote (pair : String) (row : UpdatedDeal) (old : Option UpdatedDeal)
    (q : QuoteResponse) : Type 0 where
  pub name : q.pair ≡ pair
  pub base_currency : q.base_currency ≡ row.deal.buy_currency
  pub quote_currency : q.quote_currency ≡ row.deal.sell_currency
  pub mid : q.mid ≡ row.deal.rate
  pub bid : q.bid ≡ row.deal.rate
  pub ask : q.ask ≡ row.deal.rate
  pub spread : q.spread.coefficient ≡ 0
  pub updated_at : q.updated_at ≡ row.updated_at
  pub against_before : IsChange row.deal.rate old q.delta_percent

-- What is quoted for a pair with such deals, the newest first.
abbrev pub IsQuoted : String → List UpdatedDeal → Option QuoteResponse → Type 0
IsQuoted pair [] o = o ≡ none
IsQuoted pair (row ∷ []) o = (q : QuoteResponse) × (o ≡ some q) × IsQuote pair row none q
IsQuoted pair (row ∷ old ∷ older) o =
    (q : QuoteResponse) × (o ≡ some q) × IsQuote pair row (some old) q

delta-IsChange :
    (rate : Decimal) (old : Option UpdatedDeal) (d : Decimal)
    → delta rate old ≡ some d
    → IsChange rate old d
delta-IsChange rate none d h = ap (λ x. x.coefficient) (sym (some-injective _ _ h))
delta-IsChange rate (some old) d h = elim (Bool-cases (old.deal.rate.coefficient == 0)) [
  | inl e ↦ inl (
    (==_iff old.deal.rate.coefficient 0).0 e,
    ap (λ x. x.coefficient) (sym (some-injective _ _ (rw e at h))),
  )
  | inr e ↦ inr (nonzero old.deal.rate.coefficient e, rw e at h)
]

quoted-IsQuote :
    (pair : String) (row : UpdatedDeal) (old : Option UpdatedDeal) (o : Option QuoteResponse)
    (q : QuoteResponse)
    → o ≡ some q
    → o ≡ quoted pair (some row) old
    → IsQuote pair row old q
quoted-IsQuote pair row old o q there same_quote = elim (Option-cases (delta row.deal.rate old)) [
  | inl e ↦ let wrong = rw (e, quoted) at (sym there ∙ same_quote) in cc
  | inr (d, e) ↦
      let made : quote pair row d ≡ q =
        some-injective _ _ (sym (quoted-some pair row d old e) ∙ sym same_quote ∙ there) in
      subst (IsQuote pair row old) made (record {
        name = refl;
        base_currency = refl;
        quote_currency = refl;
        mid = refl;
        bid = refl;
        ask = refl;
        spread = refl;
        updated_at = refl;
        against_before = delta-IsChange row.deal.rate old d e;
      })
]

IsQuoted-deals :
    (pair : String) (deals : List UpdatedDeal) (o : Option QuoteResponse)
    → ((row : UpdatedDeal)
        → first_of_all none deals ≡ some row
        → (q : QuoteResponse) × (o ≡ some q))
    → o ≡ quoted pair (first_of_all none deals) (first_of_all none (others none deals))
    → IsQuoted pair deals o
IsQuoted-deals pair [] o answered h = h
IsQuoted-deals pair (row ∷ []) o answered h =
    let (q, e) = answered row refl in (q, e, quoted-IsQuote pair row none o q e h)
IsQuoted-deals pair (row ∷ old ∷ older) o answered h =
    let (q, e) = answered row refl in (q, e, quoted-IsQuote pair row (some old) o q e h)

-- A pair is quoted at the rate of its last deal: where the route answers, its quote for a pair tells the currencies,
-- the rate and the time of the last deal in the pair, as mid, bid and ask, without a spread, and the change
-- in percent against the rate of the deal in the pair before that, to four places; the change is 0 where
-- there is no deal before, or its rate is 0. The deals are those that are not cancelled and that fewer than
-- 300 such deals follow, in the order of their last changes; without such a deal the pair has no quote.
pub quote_for-list_quotes :
    (before : String → String → Bool) (rows : List UpdatedDeal) (pair : String)
    (quotes : List QuoteResponse)
    → list_quotes before rows ≡ some quotes
    → IsQuoted pair (window pair rows) (quote_for pair quotes)
unfolding list_quotes
quote_for-list_quotes before rows pair quotes h =
    let (latest, previous) = last_two (recent rows) [] [] in
    let (first, second) = get-last_two pair (recent rows) [] [] in
    let once : Unique latest = Unique-last_two (recent rows) [] [] tt in
    let found = get-sorted before pair latest once ∙ first in
    subst (λ deals. IsQuoted pair deals (quote_for pair quotes)) (recent-window pair rows)
      (IsQuoted-deals pair (in_pair pair (recent rows)) (quote_for pair quotes)
        (λ row there. quote_for-some previous pair _ quotes row h (found ∙ there))
        (quote_for-quotes_of previous pair _ quotes h ∙ (λ i. quoted pair (found i) (second i))))

-- ===== src/Quotes/Window.antt =====
-- The deals that a quote is made of, from the rows of the table alone.
use fx_deal_manager.Prelude.{
  ℕ, zero, suc, ◌≤◌, String, ◌≡◌, refl, ◌∙◌, ap, inl, inr, Bool, true, false, not, ◌&&◌, List, [],
  ◌∷◌, ◌++◌, arith, length, ltb, same, select, Bool-cases, if◌then◌else◌,
}
use fx_deal_manager.Domain.{is_cancelled}
use fx_deal_manager.Listings.{newest_first, take}
use fx_deal_manager.Listings.Pages.{length-newest_first, take-nil, take-all}
use fx_deal_manager.Quotes.{UpdatedDeal, pair_of, recent}

-- The deal is not cancelled.
abbrev pub is_live : UpdatedDeal → Bool
is_live row = not (is_cancelled row.deal.deal_state)

-- How many deals are not cancelled.
pub live_count : List UpdatedDeal → ℕ
live_count [] = 0
live_count (row ∷ rows) = if is_live row then suc (live_count rows) else live_count rows

-- The deals in the pair that are not cancelled and that fewer than 300 such deals follow, the newest first. In
-- `row ∷ rows` the deals `rows` are those that were changed after `row`.
pub window : String → List UpdatedDeal → List UpdatedDeal
window pair [] = []
window pair (row ∷ rows) =
    let newer = window pair rows in
    if is_live row && (same (pair_of row) pair && ltb (live_count rows) 300)
    then newer ++ (row ∷ [])
    else newer

under : (a b : ℕ) → ltb a b ≡ true → a ≤ b
under a b h = ground arith

ltb-suc : (a b : ℕ) → ltb (suc a) (suc b) ≡ ltb a b
ltb-suc a b = ground arith

take-append :
    (n : ℕ) (xs : List UpdatedDeal) (x : UpdatedDeal)
    → take n (xs ++ (x ∷ [])) ≡ (if ltb (length xs) n then xs ++ (x ∷ []) else take n xs)
take-append zero xs x = ground arith
take-append (suc n) [] x = ground (arith, take-nil {A = UpdatedDeal} n)
take-append (suc n) (y ∷ xs) x =
    ap (λ ys. y ∷ ys) (take-append n xs x) ∙ elim (Bool-cases (ltb (length xs) n)) [
      | inl e ↦ rw (ltb-suc (length xs) n) (rw e refl)
      | inr e ↦ rw (ltb-suc (length xs) n) (rw e refl)
    ]

length-live : (rows : List UpdatedDeal) → length (select is_live rows) ≡ live_count rows
unfolding live_count
length-live [] = refl
length-live (row ∷ rows) = elim (Bool-cases (is_live row)) [
  | inl e ↦ rw e (ap suc (length-live rows))
  | inr e ↦ rw e (length-live rows)
]

select-append :
    (p : UpdatedDeal → Bool) (xs : List UpdatedDeal) (y : UpdatedDeal)
    → select p (xs ++ (y ∷ [])) ≡ (if p y then select p xs ++ (y ∷ []) else select p xs)
select-append p [] y = elim (Bool-cases (p y)) [ inl e ↦ rw e refl | inr e ↦ rw e refl ]
select-append p (x ∷ xs) y = elim (Bool-cases (p x)) [
  | inl e ↦ rw e (
      ap (λ zs. x ∷ zs) (select-append p xs y)
      ∙ elim (Bool-cases (p y)) [ inl f ↦ rw f refl | inr f ↦ rw f refl ])
  | inr e ↦ rw e (select-append p xs y)
]

module _ (pair : String) (row : UpdatedDeal) (live : List UpdatedDeal) where
  abbrev in_pair : UpdatedDeal → Bool
  in_pair x = same (pair_of x) pair

  -- One more deal that is older than the others.
  window_step :
      (count : ℕ)
      → length live ≡ count
      → select in_pair (take 300 (live ++ (row ∷ []))) ≡ (
          let newer = select in_pair (take 300 live) in
          if in_pair row && ltb count 300 then newer ++ (row ∷ []) else newer)
  window_step count h =
      let cut = ap (select in_pair) (take-append 300 live row) in
      elim (Bool-cases (ltb count 300)) [
        | inl e ↦
            let room : ltb (length live) 300 ≡ true = ap (λ n. ltb n 300) h ∙ e in
            let whole : take 300 live ≡ live = take-all 300 live (under (length live) 300 room) in
            let opened = rw room at cut in
            rw whole (
              rw e (
                opened
                ∙ select-append in_pair live row
                ∙ elim (Bool-cases (in_pair row)) [ inl f ↦ rw f refl | inr f ↦ rw f refl ]))
        | inr e ↦
            let full : ltb (length live) 300 ≡ false = ap (λ n. ltb n 300) h ∙ e in
            let closed = rw full at cut in
            rw e
              (closed ∙ elim (Bool-cases (in_pair row)) [ inl f ↦ rw f refl | inr f ↦ rw f refl ])
      ]

pub recent-window :
    (pair : String) (rows : List UpdatedDeal)
    → select (λ row. same (pair_of row) pair) (recent rows) ≡ window pair rows
unfolding recent window
recent-window pair [] = refl
recent-window pair (row ∷ rows) = elim (Bool-cases (is_live row)) [
  | inl e ↦
      let count = length-newest_first (select is_live rows) ∙ length-live rows in
      let next =
        window_step pair row (newest_first (select is_live rows)) (live_count rows) count in
      rw e (
        next
        ∙ ap
            (λ newer.
              if same (pair_of row) pair && ltb (live_count rows) 300
              then newer ++ (row ∷ [])
              else newer)
            (recent-window pair rows))
  | inr e ↦ rw e (recent-window pair rows)
]

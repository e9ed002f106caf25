-- ===== src/Listings/Pages.antt =====
-- The pages of a listing, put together.
use fx_deal_manager.Prelude.{
  ℕ, zero, suc, ◌+◌, ◌-◌, ◌*◌, ◌≤◌, String, ◌≡◌, refl, sym, ◌∙◌, ap, Bool, List, [], ◌∷◌, ◌++◌,
  arith, length, length-append,
}
use fx_deal_manager.Domain.{FxDeal}
use fx_deal_manager.Listings.{DealFilter, newest_first, skip, take, selected, list_deals}

module _ {A : Type 0} where
  pub take-nil : (n : ℕ) → take {A = A} n [] ≡ []
  take-nil zero = refl
  take-nil (suc n) = refl

  take-skip : (m n : ℕ) (xs : List A) → take m xs ++ take n (skip m xs) ≡ take (m + n) xs
  take-skip zero n xs = ap (λ k. take k xs) (omega arith)
  take-skip (suc m) n [] = take-nil n ∙ sym (take-nil (suc m + n))
  take-skip (suc m) n (x ∷ xs) =
      let shift : suc (m + n) ≡ suc m + n = omega arith in
      ap (λ ys. x ∷ ys) (take-skip m n xs) ∙ ap (λ k. take k (x ∷ xs)) shift

  pub take-all : (n : ℕ) (xs : List A) → length xs ≤ n → take n xs ≡ xs
  take-all zero [] h = refl
  take-all zero (x ∷ xs) h = ground arith
  take-all (suc n) [] h = refl
  take-all (suc n) (x ∷ xs) h = ap (λ ys. x ∷ ys) (take-all n xs (omega (arith, h)))

  pub length-newest_first : (xs : List A) → length (newest_first xs) ≡ length xs
  length-newest_first [] = refl
  length-newest_first (x ∷ xs) =
      omega (arith, length-append (newest_first xs) (x ∷ []), length-newest_first xs)

  -- So many pages of the rows, one after the other.
  unfoldable pub joined : List A → ℕ → ℕ → List A
  joined chosen page_size zero = []
  joined chosen page_size (suc n) =
      joined chosen page_size n ++ take page_size (skip ((suc n - 1) * page_size) chosen)

  pub joined-take :
      (chosen : List A) (page_size n : ℕ) → joined chosen page_size n ≡ take (n * page_size) chosen
  unfolding joined
  joined-take chosen page_size zero =
      let none_yet : 0 ≡ 0 * page_size = omega arith in ap (λ k. take k chosen) none_yet
  joined-take chosen page_size (suc n) =
      let before : (suc n - 1) * page_size ≡ n * page_size =
        let last : suc n - 1 ≡ n = omega arith in ap (λ k. k * page_size) last in
      let next : n * page_size + page_size ≡ suc n * page_size = omega arith in
      ap (λ xs. xs ++ take page_size (skip ((suc n - 1) * page_size) chosen))
        (joined-take chosen page_size n)
      ∙ ap (λ k. take (n * page_size) chosen ++ take page_size (skip k chosen)) before
      ∙ take-skip (n * page_size) page_size chosen
      ∙ ap (λ k. take k chosen) next

  -- Pages with room for all rows hold them all.
  pub joined_all :
      (rows : List A) (page_size n : ℕ)
      → length rows ≤ n * page_size
      → joined (newest_first rows) page_size n ≡ newest_first rows
  joined_all rows page_size n h =
      joined-take (newest_first rows) page_size n
      ∙ take-all (n * page_size) (newest_first rows) (omega (arith, h, length-newest_first rows))

module _ (ilike : String → FxDeal → Bool) (rows : List FxDeal) (filter : DealFilter)
    (page_size : ℕ) where
  -- The pages from the first on, so many of them, one after the other.
  pub first_pages : ℕ → List FxDeal
  first_pages zero = []
  first_pages (suc n) = first_pages n ++ (list_deals ilike rows filter (suc n) page_size).0

  first_pages-joined :
      (n : ℕ) → first_pages n ≡ joined (newest_first (selected ilike rows filter)) page_size n
  unfolding first_pages list_deals joined
  first_pages-joined zero = refl
  first_pages-joined (suc n) =
      let chosen = newest_first (selected ilike rows filter) in
      ap (λ xs. xs ++ take page_size (skip ((suc n - 1) * page_size) chosen)) (first_pages-joined n)

  -- Enough pages, one after the other, are all the deals that the filter selects, newest first, each
  -- as often as it is selected, and enough are those that have room for the total that each page tells.
  pub first_pages-selected :
      (n : ℕ)
      → (list_deals ilike rows filter n page_size).1 ≤ n * page_size
      → first_pages n ≡ newest_first (selected ilike rows filter)
  unfolding list_deals
  first_pages-selected n h =
      first_pages-joined n ∙ joined_all (selected ilike rows filter) page_size n h

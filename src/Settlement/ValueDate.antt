-- ===== src/Settlement/ValueDate.antt =====
-- The loop of `_add_business_days` against a count of business days.
use fx_deal_manager.Prelude.{
  ℕ, zero, suc, ◌+◌, ◌≤◌, ◌<◌, ◌≡◌, refl, sym, ◌∙◌, ap, ◌⊎◌, inl, inr, Bool, true, false, arith,
  if◌then◌else◌, Bool-cases, ◌==◌, ==_iff,
}
use fx_deal_manager.Issues.{Message, no_business_day_from, could_not_add_business_days}
use fx_deal_manager.Settlement.{
  Calendar, is_open, DateResult, date, value_error, roll, advance, add_business_days,
}

-- The first business day from a day on, at most so many days later; or none of them is one.
abbrev pub IsFirstOpen : Calendar → ℕ → ℕ → Message → DateResult → Type 0
IsFirstOpen calendar start left failure result =
    ((v : ℕ) × (result ≡ date v)
      × (is_open calendar v ≡ true)
      × (start ≤ v)
      × (v ≤ start + left)
      × ((k : ℕ) → start ≤ k → k < v → is_open calendar k ≡ false))
    ⊎ ((result ≡ value_error failure)
        × ((k : ℕ) → start ≤ k → k ≤ start + left → is_open calendar k ≡ false))

-- How many of the `n` days after a day are business days.
pub open_days : Calendar → ℕ → ℕ → ℕ
open_days calendar current zero = 0
open_days calendar current (suc n) =
    (if is_open calendar (current + 1) then 1 else 0) + open_days calendar (current + 1) n

-- The business day that is so many business days after a day; or there are not so many.
abbrev pub IsNthOpen : Calendar → ℕ → ℕ → ℕ → Message → DateResult → Type 0
IsNthOpen calendar start left missing failure result =
    ((v : ℕ) × (result ≡ date (start + v))
      × (v ≤ left)
      × (is_open calendar (start + v) ≡ true)
      × (open_days calendar start v ≡ missing))
    ⊎ ((result ≡ value_error failure) × (open_days calendar start left < missing))

module _ (calendar : Calendar) where
  none_between : (a k : ℕ) → a ≤ k → k < a → is_open calendar k ≡ false
  none_between a k h l = ground arith

  first_or_later :
      (a k : ℕ)
      → is_open calendar a ≡ false
      → a ≤ k
      → (a + 1 ≤ k → is_open calendar k ≡ false)
      → is_open calendar k ≡ false
  first_or_later a k e h later = elim (Bool-cases (a == k)) [
    | inl same ↦ ap (is_open calendar) (sym ((==_iff a k).0 same)) ∙ e
    | inr other ↦ later (ground arith)
  ]

  roll-IsFirstOpen :
      (left start current : ℕ)
      → IsFirstOpen calendar current left
          (no_business_day_from start)
          (roll left start calendar current)
  unfolding roll
  roll-IsFirstOpen zero start current = elim (Bool-cases (is_open calendar current)) [
    | inl e ↦
        inl (current, rw e refl, e, omega arith, omega arith, λ k h l. none_between current k h l)
    | inr e ↦ inr (
      rw e refl,
      λ k h l.
          first_or_later current k e h (λ a. none_between (k + 1) k (omega arith) (omega arith)),
    )
  ]
  roll-IsFirstOpen (suc left) start current = elim (Bool-cases (is_open calendar current)) [
    | inl e ↦
        inl (current, rw e refl, e, omega arith, omega arith, λ k h l. none_between current k h l)
    | inr e ↦ elim (roll-IsFirstOpen left start (current + 1)) [
      | inl (v, r, o, h, l, c) ↦ inl (
        v,
        rw e r,
        o,
        omega arith,
        omega arith,
        λ k a b. first_or_later current k e a (λ m. c k m b),
      )
      | inr (r, c) ↦ inr (rw e r, λ k a b. first_or_later current k e a (λ m. c k m (omega arith)))
    ]
  ]

  advance_zero :
      (left : ℕ) (failure : Message) (current : ℕ)
      → advance left failure calendar current 0 ≡ date current
  unfolding advance
  advance_zero zero failure current = refl
  advance_zero (suc left) failure current = refl

  advance_next :
      (left : ℕ) (failure : Message) (current missing : ℕ) (b : Bool)
      → is_open calendar (current + 1) ≡ b
      → advance (suc left) failure calendar current (suc missing)
        ≡ advance left failure calendar (current + 1) (if b then missing else suc missing)
  unfolding advance
  advance_next left failure current missing b e =
      ap (λ x. advance left failure calendar (current + 1) (if x then missing else suc missing)) e

  one_day_on :
      (left current m n : ℕ) (failure : Message) (result : DateResult)
      → (if is_open calendar (current + 1) then 1 else 0) + m ≡ n
      → IsNthOpen calendar (current + 1) left m failure result
      → IsNthOpen calendar current (suc left) n failure result
  unfolding open_days
  one_day_on left current m n failure result e (inl (v, r, l, o, count)) =
      let shift : current + 1 + v ≡ current + suc v = omega arith in
      inl (
        suc v,
        r ∙ ap date shift,
        omega arith,
        ap (is_open calendar) (sym shift) ∙ o,
        omega (arith, e, count),
      )
  one_day_on left current m n failure result e (inr (r, few)) = inr (r, omega (arith, e, few))

  advance-IsNthOpen :
      (left current missing : ℕ) (failure : Message)
      → IsNthOpen calendar current left
          (suc missing)
          failure
          (advance left failure calendar current (suc missing))
  unfolding advance open_days
  advance-IsNthOpen zero current missing failure = inr (refl, omega arith)
  advance-IsNthOpen (suc left) current zero failure =
      elim (Bool-cases (is_open calendar (current + 1))) [
        | inl e ↦ inl (
          1,
          advance_next left failure current zero true e ∙ advance_zero left failure (current + 1),
          omega arith,
          e,
          rw e (omega arith),
        )
        | inr e ↦ one_day_on left current 1 1 failure _ (rw e (omega arith)) (
            rw (advance_next left failure current zero false e)
              (advance-IsNthOpen left (current + 1) zero failure))
      ]
  advance-IsNthOpen (suc left) current (suc missing) failure =
      elim (Bool-cases (is_open calendar (current + 1))) [
        | inl e ↦
            one_day_on left current (suc missing) (suc (suc missing)) failure _ (rw e (omega arith))
              (rw (advance_next left failure current (suc missing) true e)
                (advance-IsNthOpen left (current + 1) missing failure))
        | inr e ↦
            one_day_on left current (suc (suc missing)) (suc (suc missing)) failure _
              (rw e (omega arith))
              (rw (advance_next left failure current (suc missing) false e)
                (advance-IsNthOpen left (current + 1) (suc missing) failure))
      ]

  -- For no business days: the first business day from the start on, at most 366 days later; an error
  -- exactly if none of these days is one.
  pub add_business_days-IsFirstOpen :
      (start : ℕ)
      → IsFirstOpen calendar start 366
          (no_business_day_from start)
          (add_business_days start 0 calendar)
  unfolding add_business_days
  add_business_days-IsFirstOpen start = roll-IsFirstOpen 366 start start

  -- For n business days, n at least 1: the business day v such that exactly n of the days after the
  -- start, up to v, are business days, at most 366 days later; an error exactly if fewer than n of
  -- these 366 days are.
  pub add_business_days-IsNthOpen :
      (start n : ℕ)
      → IsNthOpen calendar start 366
          (suc n)
          (could_not_add_business_days (suc n) start)
          (add_business_days start (suc n) calendar)
  unfolding add_business_days
  add_business_days-IsNthOpen start n =
      advance-IsNthOpen 366 start n (could_not_add_business_days (suc n) start)

-- ===== src/Settlement/Loops.antt =====
-- The two `while` loops of `_add_business_days` as they are written, on fuel.
use fx_deal_manager.Prelude.{
  ℕ, zero, suc, ◌+◌, ◌-◌, ◌≡◌, refl, inl, inr, true, false, Option, none, some, arith, ltb,
  if◌then◌else◌, Bool-cases,
}
use fx_deal_manager.Issues.{no_business_day_from, could_not_add_business_days}
use fx_deal_manager.Settlement.{
  Calendar, is_open, DateResult, date, value_error, roll, advance, add_business_days,
}

-- `while not calendar.get(current, False): ...`; without fuel there is no result.
unfoldable pub roll_loop : ℕ → ℕ → Calendar → ℕ → Option DateResult
roll_loop zero start calendar current = none
roll_loop (suc fuel) start calendar current =
    let rest = roll_loop fuel start calendar (current + 1) in
    if is_open calendar current
    then some (date current)
    else if ltb 366 (current + 1 - start)
    then some (value_error (no_business_day_from start))
    else rest

-- `while added < business_days: ...`
unfoldable pub advance_loop : ℕ → ℕ → ℕ → Calendar → ℕ → ℕ → Option DateResult
advance_loop zero start business_days calendar current added = none
advance_loop (suc fuel) start business_days calendar current added =
    let counted = if is_open calendar (current + 1) then added + 1 else added in
    let rest = advance_loop fuel start business_days calendar (current + 1) counted in
    if ltb added business_days
    then if ltb 366 (current + 1 - start)
      then some (value_error (could_not_add_business_days business_days start))
      else rest
    else some (date current)

-- `_add_business_days`, its loops on fuel.
unfoldable pub while_days : ℕ → ℕ → ℕ → Calendar → Option DateResult
while_days fuel start zero calendar = roll_loop fuel start calendar start
while_days fuel start (suc n) calendar = advance_loop fuel start (suc n) calendar start 0

roll_loop-roll :
    (left start : ℕ) (calendar : Calendar) (current : ℕ)
    → current + left ≡ start + 366
    → roll_loop (suc left) start calendar current ≡ some (roll left start calendar current)
unfolding roll_loop roll
roll_loop-roll zero start calendar current h =
    let late : ltb 366 (current + 1 - start) ≡ true = ground arith in
    elim (Bool-cases (is_open calendar current)) [ inl e ↦ rw e refl | inr e ↦ rw e (rw late refl) ]
roll_loop-roll (suc left) start calendar current h =
    let soon : ltb 366 (current + 1 - start) ≡ false = ground arith in
    elim (Bool-cases (is_open calendar current)) [
      | inl e ↦ rw e refl
      | inr e ↦ rw e (rw soon (roll_loop-roll left start calendar (current + 1) (omega (arith, h))))
    ]

advance_loop-advance :
    (left start business_days : ℕ) (calendar : Calendar) (current added missing : ℕ)
    → current + left ≡ start + 366
    → added + missing ≡ business_days
    → advance_loop (suc left) start business_days calendar current added
      ≡ some
          (advance left (could_not_add_business_days business_days start) calendar current missing)
unfolding advance_loop advance
advance_loop-advance left start n calendar current added zero h g =
    let all_added : ltb added n ≡ false = ground arith in rw all_added refl
advance_loop-advance zero start n calendar current added (suc missing) h g =
    let more : ltb added n ≡ true = ground arith in
    let late : ltb 366 (current + 1 - start) ≡ true = ground arith in rw more (rw late refl)
advance_loop-advance (suc left) start n calendar current added (suc missing) h g =
    let more : ltb added n ≡ true = ground arith in
    let soon : ltb 366 (current + 1 - start) ≡ false = ground arith in
    let open_day = is_open calendar (current + 1) in
    let counted = if open_day then added + 1 else added in
    let left_over = if open_day then missing else suc missing in
    let all_days : counted + left_over ≡ n = ground arith in
    rw more (
      rw soon (
        advance_loop-advance left start n calendar (current + 1) counted left_over
          (omega (arith, h)) all_days))

-- The loops end: after at most 367 rounds each has returned a date or raised, whatever the calendar
-- and the number of days, and what it comes to is what `add_business_days` computes.
pub while_days-add_business_days :
    (start business_days : ℕ) (calendar : Calendar)
    → while_days 367 start business_days calendar
      ≡ some (add_business_days start business_days calendar)
unfolding while_days add_business_days
while_days-add_business_days start zero calendar = roll_loop-roll 366 start calendar start refl
while_days-add_business_days start (suc n) calendar =
    advance_loop-advance 366 start (suc n) calendar start 0 (suc n) refl (omega arith)

-- ===== src/Settlement.antt =====
-- src/fx_deal_manager/services/settlement.py. A calendar is the `dict[date, bool]`.
pub mod ValueDate
pub mod Loops
use fx_deal_manager.Prelude.{
  ℕ, zero, suc, ◌+◌, Bool, true, false, Option, none, some, List, [], ◌∷◌, ◌==◌, if◌then◌else◌,
}
use fx_deal_manager.Domain.Enums.{DealType, tod, tom, spot, forward}
use fx_deal_manager.Issues.{
  Message, forward_needs_value_date, not_a_business_day, no_business_day_from,
  could_not_add_business_days,
}

abbrev pub Calendar : Type 0
Calendar = List (ℕ × Bool)

-- `calendar.get(day, False)`
unfoldable pub is_open : Calendar → ℕ → Bool
is_open [] day = false
is_open ((d, open_day) ∷ c) day = if d == day then open_day else is_open c day

-- A date, or the `ValueError` raised.
pub data DateResult : Type 0 where
  date : ℕ → DateResult
  value_error : Message → DateResult

-- The loop of `_add_business_days` for 0 days, at `current`. The first argument counts the days
-- that `current` may still move before `(current - start).days > 366` raises.
roll : ℕ → ℕ → Calendar → ℕ → DateResult
roll zero start calendar current =
    if is_open calendar current then date current else value_error (no_business_day_from start)
roll (suc left) start calendar current =
    let rest = roll left start calendar (current + 1) in
    if is_open calendar current then date current else rest

-- The loop for one day or more; the last argument is `business_days - added`.
advance : ℕ → Message → Calendar → ℕ → ℕ → DateResult
advance left failure calendar current zero = date current
advance zero failure calendar current (suc missing) = value_error failure
advance (suc left) failure calendar current (suc missing) =
    advance left failure calendar (current + 1)
      (if is_open calendar (current + 1) then missing else suc missing)

-- `_add_business_days`
unfoldable pub add_business_days : ℕ → ℕ → Calendar → DateResult
unfolding roll advance is_open
add_business_days start zero calendar = roll 366 start calendar start
add_business_days start (suc n) calendar =
    advance 366 (could_not_add_business_days (suc n) start) calendar start (suc n)

-- The table `offset`, by deal type.
abbrev pub offset : DealType → ℕ
offset tod = 0
offset tom = 1
offset spot = 2
offset forward = 0

explicit_date : Calendar → Option ℕ → DateResult
explicit_date calendar none = value_error forward_needs_value_date
explicit_date calendar (some day) =
    if is_open calendar day then date day else value_error (not_a_business_day day)

-- `SettlementService.calculate_value_date`
unfoldable pub calculate_value_date : ℕ → DealType → Calendar → Option ℕ → DateResult
unfolding add_business_days explicit_date
calculate_value_date trade_date forward calendar explicit = explicit_date calendar explicit
calculate_value_date trade_date tod calendar explicit =
    add_business_days trade_date (offset tod) calendar
calculate_value_date trade_date tom calendar explicit =
    add_business_days trade_date (offset tom) calendar
calculate_value_date trade_date spot calendar explicit =
    add_business_days trade_date (offset spot) calendar

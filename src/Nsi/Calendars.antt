-- ===== src/Nsi/Calendars.antt =====
-- `load_calendar` against the table of business days and the days of the week.
use fx_deal_manager.Prelude.{
  ℕ, zero, suc, ◌+◌, ◌-◌, ◌≤◌, ◌<◌, ◌≡◌, refl, ◌∙◌, ap, inl, inr, Bool, false, ◌&&◌, Option, none,
  some, List, [], ◌∷◌, map, arith, select, ltb, leb, ◌==◌, Bool-cases, if◌then◌else◌, ==_iff,
}
use fx_deal_manager.Domain.{BusinessCalendar}
use fx_deal_manager.Settlement.{Calendar, is_open}
use fx_deal_manager.Nsi.{weekday, set_default_day, fill, load_calendar}

abbrev entry_or : Option Bool → Bool → Bool
entry_or none b = b
entry_or (some a) b = a

-- The first entry of a day.
lookup : Calendar → ℕ → Option Bool
lookup [] day = none
lookup ((d, b) ∷ c) day = if d == day then some b else lookup c day

-- Whether a day is a business day: as the first row with its date says, or from Monday to Friday.
pub open_on : List BusinessCalendar → ℕ → Bool
open_on [] day = ltb (weekday day) 5
open_on (row ∷ rows) day =
    if row.calendar_date == day then row.is_business_day else open_on rows day

is_open-lookup : (c : Calendar) (day : ℕ) → is_open c day ≡ entry_or (lookup c day) false
unfolding is_open lookup
is_open-lookup [] day = refl
is_open-lookup ((d, b) ∷ c) day = ground (arith, is_open-lookup c day)

lookup-set_default_day :
    (c : Calendar) (key day : ℕ) (b : Bool)
    → lookup (set_default_day key b c) day
      ≡ (if key == day then some (entry_or (lookup c day) b) else lookup c day)
unfolding lookup set_default_day
lookup-set_default_day [] key day b = ground arith
lookup-set_default_day ((d, a) ∷ c) key day b = ground (arith, lookup-set_default_day c key day b)

set_other :
    (c : Calendar) (key day : ℕ) (b : Bool)
    → (key == day) ≡ false
    → lookup (set_default_day key b c) day ≡ lookup c day
set_other c key day b e = lookup-set_default_day c key day b ∙ rw e refl

differ_before : (a b : ℕ) → b < a → (a == b) ≡ false
differ_before a b h = ground arith

lookup-fill-before :
    (n current day : ℕ) (c : Calendar)
    → day < current
    → lookup (fill n current c) day ≡ lookup c day
unfolding fill
lookup-fill-before zero current day c l = refl
lookup-fill-before (suc n) current day c l =
    lookup-fill-before n (current + 1) day (set_default_day current (ltb (weekday current) 5) c)
      (omega (arith, l))
    ∙ lookup-set_default_day c current day (ltb (weekday current) 5)
    ∙ rw (differ_before current day l) refl

lookup-fill :
    (n current day : ℕ) (c : Calendar)
    → current ≤ day
    → day < current + n
    → lookup (fill n current c) day ≡ some (entry_or (lookup c day) (ltb (weekday day) 5))
unfolding fill
lookup-fill zero current day c h l = ground arith
lookup-fill (suc n) current day c h l = elim (Bool-cases (current == day)) [
  | inl e ↦
      lookup-fill-before n (current + 1) day (set_default_day current (ltb (weekday current) 5) c)
        (ground arith)
      ∙ lookup-set_default_day c current day (ltb (weekday current) 5)
      ∙ rw e
          (ap (λ k. some (entry_or (lookup c day) (ltb (weekday k) 5))) ((==_iff current day).0 e))
  | inr e ↦
      lookup-fill n (current + 1) day (set_default_day current (ltb (weekday current) 5) c)
        (ground arith) (omega (arith, l))
      ∙ ap (λ o. some (entry_or o (ltb (weekday day) 5)))
          (set_other c current day (ltb (weekday current) 5) e)
]

-- The rows of a range of dates.
lookup-rows :
    (rows : List BusinessCalendar) (start end day : ℕ)
    → start ≤ day
    → day ≤ end
    → entry_or
        (lookup
          (map
            (λ (row : BusinessCalendar). (row.calendar_date, row.is_business_day))
            (select (λ row. leb start row.calendar_date && leb row.calendar_date end) rows))
          day)
        (ltb (weekday day) 5)
      ≡ open_on rows day
unfolding lookup open_on
lookup-rows [] start end day h l = refl
lookup-rows (row ∷ rows) start end day h l = ground (arith, lookup-rows rows start end day h l)

-- A calendar that is loaded for a range of dates has each of them: a date is a business day if the
-- first row with it says so, or, without a row, if it is a Monday, ..., a Friday.
pub load_calendar-open_on :
    (rows : List BusinessCalendar) (start end day : ℕ)
    → start ≤ day
    → day ≤ end
    → is_open (load_calendar rows start end) day ≡ open_on rows day
unfolding load_calendar
load_calendar-open_on rows start end day h l =
    is_open-lookup (load_calendar rows start end) day
    ∙ ap (λ o. entry_or o false) (lookup-fill (end + 1 - start) start day _ h (omega (arith, h, l)))
    ∙ lookup-rows rows start end day h l

-- ===== src/Decimal.antt =====
-- Python's `decimal.Decimal` as the services use it: a finite number is a sign, a coefficient and a
-- number of decimal places. (A positive exponent is written into the coefficient; the services look
-- at values, comparisons and `normalize()`, none of which tells the two apart.) The arithmetic
-- context is Python's default one: 28 digits, half-even.
pub mod Rounding
pub mod Places
use fx_deal_manager.Prelude.{
  ℕ, zero, suc, ◌+◌, ◌-◌, ◌*◌, ◌/◌, ◌%◌, ◌^◌, Bool, true, false, not, ◌&&◌, ◌||◌, Option, none,
  some, ltb, leb, ◌==◌, if◌then◌else◌,
}

pub record Decimal : Type 0 where
  pub negative : Bool
  pub coefficient : ℕ
  pub places : ℕ

-- `getcontext().prec`
abbrev pub precision : ℕ
precision = 28

-- How many digits a coefficient has above the precision. The fuel bounds the digits removed.
excess : ℕ → ℕ → ℕ
excess zero n = 0
excess (suc fuel) n = elim (ltb n (10 ^ precision)) [
  | true ↦ 0
  | false ↦ suc (excess fuel (n / 10))
]

-- n / d to the nearest integer, a tie away from zero (`ROUND_HALF_UP`).
div_half_up : ℕ → ℕ → ℕ
div_half_up n d = (2 * n + d) / (2 * d)

-- n / d to the nearest integer, a tie to the even neighbour (`ROUND_HALF_EVEN`).
div_half_even : ℕ → ℕ → ℕ
div_half_even n d =
    let q = n / d in
    if ltb (2 * (n % d)) d then q else if ltb d (2 * (n % d)) then q + 1 else q + q % 2

-- The rounding of a result to the context, on coefficient and places.
pub to_context : ℕ → ℕ → ℕ × ℕ
unfolding excess div_half_even
to_context n p =
    let k = excess n n in
    let q = div_half_even n (10 ^ k) in if leb k p then (q, p - k) else (q * 10 ^ (k - p), 0)

differ : Bool → Bool → Bool
differ true b = not b
differ false b = b

-- `a * b`
unfoldable pub times : Decimal → Decimal → Decimal
unfolding to_context differ
times a b =
    let (n, p) = to_context (a.coefficient * b.coefficient) (a.places + b.places) in
    record { negative = differ a.negative b.negative; coefficient = n; places = p }

-- The sum of two signed coefficients.
signed_sum : Bool → ℕ → Bool → ℕ → Bool × ℕ
signed_sum true m true n = (true, m + n)
signed_sum false m false n = (false, m + n)
signed_sum true m false n = if ltb n m then (true, m - n) else (false, n - m)
signed_sum false m true n = if ltb m n then (true, n - m) else (false, m - n)

-- `a + b`
unfoldable pub plus : Decimal → Decimal → Decimal
unfolding to_context signed_sum
plus a b =
    let p = if leb a.places b.places then b.places else a.places in
    let (negative, sum) =
      signed_sum a.negative (a.coefficient * 10 ^ (p - a.places)) b.negative
        (b.coefficient * 10 ^ (p - b.places)) in
    let (n, q) = to_context sum p in record { negative = negative; coefficient = n; places = q }

-- The coefficient at `d` places, half up.
rescale : ℕ → ℕ → ℕ → ℕ
unfolding div_half_up
rescale n p d = if leb p d then n * 10 ^ (d - p) else div_half_up n (10 ^ (p - d))

-- `a - b`
unfoldable pub minus : Decimal → Decimal → Decimal
unfolding plus
minus a b = plus a (record b { negative = not b.negative })

-- How many digits a coefficient has; the fuel bounds them.
digits : ℕ → ℕ → ℕ
digits zero n = 0
digits (suc fuel) n = elim (n == 0) [ true ↦ 0 | false ↦ suc (digits fuel (n / 10)) ]

-- A quotient with one digit more than the precision, the last one never 0 or 5 where digits are cut
-- off, so that the rounding after it sees on which side of a tie it is.
sticky : ℕ → ℕ → ℕ
sticky n d = let q = n / d in if n % d == 0 then q else if q % 5 == 0 then q + 1 else q

-- The value of `a / b` for a `b` that is not 0.
unfoldable pub divide : Decimal → Decimal → Decimal
unfolding to_context differ digits sticky
divide a b =
    let up =
      digits b.coefficient b.coefficient + precision + 1 - digits a.coefficient a.coefficient in
    let down =
      digits a.coefficient a.coefficient - (digits b.coefficient b.coefficient + precision + 1) in
    let q = sticky (a.coefficient * 10 ^ up) (b.coefficient * 10 ^ down) in
    let over = a.places + up in
    let under = b.places + down in
    let (n, p) =
      to_context (if leb under over then q else q * 10 ^ (under - over))
        (if leb under over then over - under else 0) in
    record { negative = differ a.negative b.negative; coefficient = n; places = p }

-- `a.quantize(Decimal("0.0001"))`, half-even; `none` is `decimal.InvalidOperation`.
unfoldable pub quantize_basis : Decimal → Option Decimal
unfolding div_half_even
quantize_basis a =
    let n =
      if leb a.places 4
      then a.coefficient * 10 ^ (4 - a.places)
      else div_half_even a.coefficient (10 ^ (a.places - 4)) in
    if ltb n (10 ^ precision)
    then some (record { negative = a.negative; coefficient = n; places = 4 })
    else none

-- `a.quantize(Decimal("0.01"), rounding=ROUND_HALF_UP)`: `none` is `decimal.InvalidOperation`,
-- raised when the result has more digits than the precision.
unfoldable pub quantize_cents : Decimal → Option Decimal
unfolding rescale
quantize_cents a =
    let n = rescale a.coefficient a.places 2 in
    if ltb n (10 ^ precision)
    then some (record { negative = a.negative; coefficient = n; places = 2 })
    else none

-- `a <= 0`
unfoldable pub is_non_positive : Decimal → Bool
is_non_positive a = a.negative || a.coefficient == 0

-- `a > b`
unfoldable pub exceeds : Decimal → Decimal → Bool
exceeds a b =
    let left = a.coefficient * 10 ^ b.places in
    let right = b.coefficient * 10 ^ a.places in
    if a.negative
    then b.negative && ltb left right
    else if b.negative
    then ltb 0 (left + right)
    else ltb right left

-- The places that are left when trailing zeros are dropped. The exponent is never positive here:
-- zeros before the point are of no interest to the caller.
pub strip : ℕ → ℕ → ℕ
strip n zero = 0
strip n (suc p) = if n % 10 == 0 then strip (n / 10) p else suc p

-- `a.normalize().as_tuple().exponent`, negated, where that is negative, and 0 otherwise.
unfoldable pub normalized_places : Decimal → ℕ
unfolding to_context strip
normalized_places a = let (n, p) = to_context a.coefficient a.places in strip n p

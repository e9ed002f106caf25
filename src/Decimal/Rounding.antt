-- ===== src/Decimal/Rounding.antt =====
-- How far the rounding of decimals moves a value.
use native.Mathlib.Nat.{
  mul_assoc, mul_comm, add-zero, zero-add, suc-add, pow-suc, div-add-mod', mod-lt, mul-le-mul_right,
  le_of_mul-le-mul_right, le-div_iff_mul-le,
}
use mathlib.Core.Path.{subst}
use mathlib.Core.Option.{some-injective}
use fx_deal_manager.Prelude.{
  Bool, ℕ, zero, suc, ◌+◌, ◌-◌, ◌*◌, ◌/◌, ◌%◌, ◌^◌, ◌≤◌, ◌<◌, ◌≡◌, refl, sym, ◌∙◌, ap, ◌⊎◌, inl,
  inr, true, false, some, arith, ltb, leb, Bool-cases,
}
use fx_deal_manager.Decimal.{
  Decimal, quantize_cents, times, differ, precision, excess, div_half_up, div_half_even, to_context,
  rescale,
}

pub ten_pow_add : (a b : ℕ) → 10 ^ (a + b) ≡ 10 ^ a * 10 ^ b
ten_pow_add zero b = rw (zero-add b) (omega arith)
ten_pow_add (suc a) b =
    rw (suc-add a b)
      (rw (pow-suc 10 a) (rw (pow-suc 10 (a + b)) (rw (ten_pow_add a b) (grind arith))))

pub ten_pow_pos : (a : ℕ) → 0 < 10 ^ a
ten_pow_pos zero = omega arith
ten_pow_pos (suc a) = omega (arith, ten_pow_pos a, pow-suc 10 a)

-- Two numbers are apart by half of the last one at most; `x` and `y` are doubled.
abbrev pub IsNear : (x y gap : ℕ) → Type 0
IsNear x y gap = (2 * x ≤ 2 * y + gap) × (2 * y ≤ 2 * x + gap)

div_half_up-IsNear : (n d : ℕ) → 0 < d → IsNear (div_half_up n d * d) n d
unfolding div_half_up
div_half_up-IsNear n d pos =
    let q = (2 * n + d) / (2 * d) in
    let whole : q * (2 * d) + (2 * n + d) % (2 * d) ≡ 2 * n + d =
      div-add-mod' (2 * n + d) (2 * d) in
    let small : (2 * n + d) % (2 * d) < 2 * d = mod-lt (2 * n + d) (omega arith) in
    (grind arith, grind arith)

lower-IsNear : (q r d n : ℕ) → q * d + r ≡ n → 2 * r ≤ d → IsNear (q * d) n d
lower-IsNear q r d n whole small = (omega arith, omega arith)

upper-IsNear : (q r d n : ℕ) → q * d + r ≡ n → r < d → d ≤ 2 * r → IsNear ((q + 1) * d) n d
upper-IsNear q r d n whole small large = (grind arith, grind arith)

parity : (q : ℕ) → (q % 2 ≡ 0) ⊎ (q % 2 ≡ 1)
parity q = elim (Bool-cases (ltb (q % 2) 1)) [
  | inl e ↦ inl (ground arith)
  | inr e ↦ inr (ground arith)
]

div_half_even-IsNear : (n d : ℕ) → 0 < d → IsNear (div_half_even n d * d) n d
unfolding div_half_even
div_half_even-IsNear n d pos =
    let whole : n / d * d + n % d ≡ n = div-add-mod' n d in
    let small : n % d < d = mod-lt n pos in
    elim (Bool-cases (ltb (2 * (n % d)) d)) [
      | inl e ↦ rw e (lower-IsNear (n / d) (n % d) d n whole (ground arith))
      | inr e ↦ elim (Bool-cases (ltb d (2 * (n % d)))) [
        | inl f ↦ rw e (rw f (upper-IsNear (n / d) (n % d) d n whole small (ground arith)))
        | inr f ↦ elim (parity (n / d)) [
          | inl even ↦ rw e (
              rw f (
                rw even
                  (rw (add-zero (n / d)) (lower-IsNear (n / d) (n % d) d n whole (ground arith)))))
          | inr odd ↦
              rw e (rw f (rw odd (upper-IsNear (n / d) (n % d) d n whole small (ground arith))))
        ]
      ]
    ]

-- Digits are dropped only of a coefficient that has more than the precision.
at_least : (n : ℕ) → ltb n (10 ^ precision) ≡ false → 10 ^ precision ≤ n
at_least n e = ground arith

excess_bound : (fuel n : ℕ) → (excess fuel n ≡ 0) ⊎ (10 ^ excess fuel n * 10 ^ 27 ≤ n)
unfolding excess
excess_bound zero n = inl refl
excess_bound (suc fuel) n = elim (Bool-cases (ltb n (10 ^ precision))) [
  | inl e ↦ inl (rw (e, excess) refl)
  | inr e ↦
      let large : 10 ^ precision ≤ n = at_least n e in
      inr (
        rw (e, excess)
          (elim (excess_bound fuel (n / 10)) [
            | inl f ↦ rw f (omega arith)
            | inr f ↦ rw (pow-suc 10 (excess fuel (n / 10))) (omega (arith, f))
          ]))
]

-- The last digit that the context keeps of a coefficient: it is off by half of that at most.
excess-IsNear :
    (n : ℕ) → IsNear (div_half_even n (10 ^ excess n n) * 10 ^ excess n n) n (n / 10 ^ 27)
excess-IsNear n =
    let near = div_half_even-IsNear n (10 ^ excess n n) (ten_pow_pos (excess n n)) in
    elim (excess_bound n n) [
      | inl e ↦
          let near_one = rw e at near in
          rw e (omega (arith, near_one.0, near_one.1), omega (arith, near_one.0, near_one.1))
      | inr h ↦
          let below : 10 ^ excess n n ≤ n / 10 ^ 27 = (le-div_iff_mul-le (ten_pow_pos 27)).1 h in
          (omega (arith, near.0, below), omega (arith, near.1, below))
    ]

-- A bound holds of multiples.
IsNear-times : (x y gap m : ℕ) → IsNear x y gap → IsNear (x * m) (y * m) (gap * m)
IsNear-times x y gap m h =
    (omega (arith, mul-le-mul_right m h.0), omega (arith, mul-le-mul_right m h.1))

-- Bounds add up.
IsNear-trans : (x y z g k : ℕ) → IsNear x y g → IsNear y z k → IsNear x z (g + k)
IsNear-trans x y z g k (a, b) (c, d) = (omega arith, omega arith)

IsNear-refl : (x y gap : ℕ) → x ≡ y → IsNear x y gap
IsNear-refl x y gap e = (omega arith, omega arith)

pub split_power : (k p : ℕ) → leb k p ≡ true → 10 ^ p ≡ 10 ^ k * 10 ^ (p - k)
split_power k p h =
    let whole : k + (p - k) ≡ p = ground arith in
    ap (λ j. 10 ^ j) (sym whole) ∙ ten_pow_add k (p - k)

above : (k p : ℕ) → leb k p ≡ false → leb p k ≡ true
above k p h = ground arith

-- The rounding to the context, by cross-multiplication.
to_context-IsNear :
    (n p : ℕ)
    → (let (q, p') = to_context n p in IsNear (q * 10 ^ p) (n * 10 ^ p') (n / 10 ^ 27 * 10 ^ p'))
unfolding to_context
to_context-IsNear n p =
    let k = excess n n in
    let q = div_half_even n (10 ^ k) in
    elim (Bool-cases (leb k p)) [
      | inl e ↦ rw e (
          rw (split_power k p e) (
            rw (← mul_assoc q (10 ^ k) (10 ^ (p - k)))
              (IsNear-times (q * 10 ^ k) n (n / 10 ^ 27) (10 ^ (p - k)) (excess-IsNear n))))
      | inr e ↦
          let kept : q * 10 ^ (k - p) * 10 ^ p ≡ q * 10 ^ k =
            mul_assoc q (10 ^ (k - p)) (10 ^ p)
            ∙ ap (λ t. q * t)
                (mul_comm (10 ^ (k - p)) (10 ^ p) ∙ sym (split_power p k (above k p e))) in
          let near = excess-IsNear n in
          rw e (omega (arith, kept, near.0), omega (arith, kept, near.1))
    ]

rescale-IsNear : (n p : ℕ) → IsNear (rescale n p 2 * 10 ^ p) (n * 100) (10 ^ p)
unfolding rescale
rescale-IsNear n p = elim (Bool-cases (leb p 2)) [
  | inl e ↦ rw e (
      IsNear-refl _ _ _ (
        mul_assoc n (10 ^ (2 - p)) (10 ^ p)
        ∙ ap (λ t. n * t) (mul_comm (10 ^ (2 - p)) (10 ^ p) ∙ sym (split_power p 2 e))))
  | inr e ↦
      let d = 10 ^ (p - 2) in
      let near =
        IsNear-times (div_half_up n d * d) n d 100 (div_half_up-IsNear n d (ten_pow_pos (p - 2))) in
      let unit : 10 ^ p ≡ d * 100 = split_power 2 p (above p 2 e) ∙ mul_comm 100 d in
      rw e (rw unit (rw (← mul_assoc (div_half_up n d) d 100) near))
]

-- Two bounds on scaled values add up to one on the values.
unscaled :
    (c q n e u v : ℕ)
    → 0 < u
    → IsNear (c * u * v) (q * 100 * v) (u * v)
    → IsNear (q * v * 100) (n * u * 100) (e * u * 100)
    → IsNear (c * v) (n * 100) (v + e * 100)
unscaled c q n e u v pos (a, b) (f, g) =
    let low : 2 * (c * v) * u ≤ (2 * (n * 100) + (v + e * 100)) * u = grind arith in
    let high : 2 * (n * 100) * u ≤ (2 * (c * v) + (v + e * 100)) * u = grind arith in
    (le_of_mul-le-mul_right low pos, le_of_mul-le-mul_right high pos)

-- The rounding of an exact value `n` at `p` places to the context, and then to cents.
cents-IsNear :
    (n p : ℕ)
    → (let (q, p') = to_context n p in
        IsNear (rescale q p' 2 * 10 ^ p) (n * 100) (10 ^ p + n / 10 ^ 27 * 100))
cents-IsNear n p =
    let (q, p') = to_context n p in
    let c = rescale q p' 2 in
    unscaled c q n (n / 10 ^ 27) (10 ^ p') (10 ^ p) (ten_pow_pos p')
      (IsNear-times (c * 10 ^ p') (q * 100) (10 ^ p') (10 ^ p) (rescale-IsNear q p'))
      (IsNear-times (q * 10 ^ p) (n * 10 ^ p') (n / 10 ^ 27 * 10 ^ p') 100 (to_context-IsNear n p))

plus_product : (x y : Bool) → x ≡ false → y ≡ false → differ x y ≡ false
unfolding differ
plus_product x y h k = ground arith

-- The product of two numbers that are not negative, in cents: the exact product, rounded to the 28 digits
-- of the context and then to cents.
pub times-cents :
    (a b c : Decimal)
    → a.negative ≡ false
    → b.negative ≡ false
    → quantize_cents (times a b) ≡ some c
    → (c.negative ≡ false)
      × (c.places ≡ 2)
      × (let exact = a.coefficient * b.coefficient in
          let unit = 10 ^ (a.places + b.places) in
          IsNear (c.coefficient * unit) (exact * 100) (unit + exact / 10 ^ 27 * 100))
unfolding quantize_cents times
times-cents a b c plus_a plus_b h =
    let exact = a.coefficient * b.coefficient in
    let places = a.places + b.places in
    let (q, p') = to_context exact places in
    let n = rescale q p' 2 in
    let near = cents-IsNear exact places in
    elim (Bool-cases (ltb n (10 ^ precision))) [
      | inl e ↦
          let made = some-injective _ _ (rw e at h) in
          (
            sym (ap (λ x. x.negative) made) ∙ plus_product a.negative b.negative plus_a plus_b,
            sym (ap (λ x. x.places) made),
            subst
                (λ t. IsNear (t * 10 ^ places) (exact * 100) (10 ^ places + exact / 10 ^ 27 * 100))
                (ap (λ x. x.coefficient) made) near,
          )
      | inr e ↦ let raised = rw e at h in cc
    ]

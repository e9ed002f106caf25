-- ===== src/Decimal/Places.antt =====
-- How many decimal places a value needs.
use native.Mathlib.Nat.{mul_assoc, mul_comm, pow-suc, eq_of_mul-eq-mul_right}
use fx_deal_manager.Prelude.{
  ℕ, zero, suc, ◌-◌, ◌*◌, ◌/◌, ◌%◌, ◌^◌, ◌≡◌, ◌↔◌, sym, inl, inr, ◌∙◌, true, false, arith, leb,
  ◌==◌, Bool-cases,
}
use fx_deal_manager.Decimal.{Decimal, strip, to_context, normalized_places}
use fx_deal_manager.Decimal.Rounding.{ten_pow_pos, split_power}

-- The value, in the digits of the context, is a whole number of units of `10 ^ -m`.
abbrev pub IsWhole : Decimal → ℕ → Type 0
IsWhole a m = let (n, p) = to_context a.coefficient a.places in (k : ℕ) × (n * 10 ^ m ≡ k * 10 ^ p)

within-whole : (n p m : ℕ) → leb p m ≡ true → (k : ℕ) × (n * 10 ^ m ≡ k * 10 ^ p)
within-whole n p m h = (
  n * 10 ^ (m - p),
  rw (split_power p m h)
      (rw (mul_comm (10 ^ p) (10 ^ (m - p))) (sym (mul_assoc n (10 ^ (m - p)) (10 ^ p)))),
)

-- A last digit that is not 0 is needed.
whole-within :
    (n p m k : ℕ) → (n % 10 == 0) ≡ false → n * 10 ^ m ≡ k * 10 ^ suc p → leb (suc p) m ≡ true
whole-within n p m k last h = elim (Bool-cases (leb m p)) [
  | inl e ↦
      let tenfold : n ≡ k * 10 ^ (p - m) * 10 =
        eq_of_mul-eq-mul_right (10 ^ m) (ten_pow_pos m) _ _
          (h ∙ rw (pow-suc 10 p) (rw (split_power m p e) (grind arith))) in
      ground arith
  | inr e ↦ ground arith
]

tenfold : (n : ℕ) → (n % 10 == 0) ≡ true → n ≡ n / 10 * 10
tenfold n h = ground arith

-- A last digit 0 is dropped from both sides.
raised : (n c k u : ℕ) → n ≡ c * 10 → (t : ℕ) → c * u ≡ k * t → n * u ≡ k * (t * 10)
raised n c k u whole t h = rw whole (grind arith)

lowered : (n c k u : ℕ) → n ≡ c * 10 → (t : ℕ) → n * u ≡ k * (t * 10) → c * u ≡ k * t
lowered n c k u whole t h =
    let scaled = rw whole at h in eq_of_mul-eq-mul_right 10 (omega arith) _ _ (grind arith)

strip-whole : (n p m : ℕ) → leb (strip n p) m ≡ true → (k : ℕ) × (n * 10 ^ m ≡ k * 10 ^ p)
unfolding strip
strip-whole n zero m h = (n * 10 ^ m, omega arith)
strip-whole n (suc p) m h = elim (Bool-cases (n % 10 == 0)) [
  | inl e ↦
      let (k, f) = strip-whole (n / 10) p m (rw (e, strip) at h) in
      (k, rw (pow-suc 10 p) (raised n (n / 10) k (10 ^ m) (tenfold n e) (10 ^ p) f))
  | inr e ↦ within-whole n (suc p) m (rw (e, strip) at h)
]

whole-strip : (n p m k : ℕ) → n * 10 ^ m ≡ k * 10 ^ p → leb (strip n p) m ≡ true
unfolding strip
whole-strip n zero m k h = ground arith
whole-strip n (suc p) m k h = elim (Bool-cases (n % 10 == 0)) [
  | inl e ↦
      let scaled = rw (pow-suc 10 p) at h in
      rw e
        (whole-strip (n / 10) p m k (lowered n (n / 10) k (10 ^ m) (tenfold n e) (10 ^ p) scaled))
  | inr e ↦ rw e (whole-within n p m k e h)
]

-- A value needs at most `m` places exactly if it is a whole number of units of `10 ^ -m`.
pub normalized_places_iff :
    (a : Decimal) (m : ℕ) → (leb (normalized_places a) m ≡ true) ↔ IsWhole a m
unfolding normalized_places
normalized_places_iff a m =
    let (n, p) = to_context a.coefficient a.places in
    (strip-whole n p m, λ (k, h). whole-strip n p m k h)

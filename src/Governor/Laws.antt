-- ===== src/Governor/Laws.antt =====
-- src/inboxlume/safety_governor.py: the Clopper-Pearson bounds enclose the share of errors seen.
use native.Mathlib.Nat.{
  mul-sub, pow-suc, le_of_mul-le-mul_right, lt_of_mul-lt-mul_right, mul-le-mul_right,
  mul-lt-mul_of_pos_right,
}
use inboxlume.Base.{
  ℕ, zero, suc, ◌+◌, ◌-◌, ◌*◌, ◌/◌, ◌^◌, ◌≤◌, ◌<◌, ◌≡◌, refl, ◌⊎◌, inl, inr, true, false, Option,
  none, some, ok, raise, Result, ◌>>=◌, arith, leb→le,
}
use inboxlume.Models.{unit}
use inboxlume.Governor.Binomial.{
  Rate, Libm, at_most, complement, bisect, bisected, upper_binomial_error_rate,
  lower_binomial_error_rate,
}

bisect_bounds :
    (errors trials alpha den rounds low high : ℕ)
    → low ≤ high
    → (low ≤ bisect errors trials alpha den rounds low high)
      × (bisect errors trials alpha den rounds low high ≤ high)
unfolding bisect
bisect_bounds errors trials alpha den zero low high h = (h, omega arith)
bisect_bounds errors trials alpha den (suc k) low high h = ground (
  arith,
  bisect_bounds errors trials alpha den k low ((low + high) / 2),
  bisect_bounds errors trials alpha den k ((low + high) / 2) high,
)

-- A rate that bounds `errors` of `trials` from above, and is at most one.
abbrev pub Bounds : ℕ → ℕ → Rate → Type 0
Bounds errors trials r =
    (errors * r.den ≤ r.num * trials) × (r.num ≤ r.den) × ((errors ≡ 0) ⊎ (0 < r.den))

power_pos : (k : ℕ) → 0 < 2 ^ k
power_pos zero = omega arith
power_pos (suc k) = rw pow-suc (omega (arith, power_pos k))

mul_pos : (a b : ℕ) → 0 < a → 0 < b → 0 < a * b
mul_pos a b h k = grind arith

-- A rate below the target puts the share of errors below it.
pub share-le :
    (errors trials target : ℕ) (r : Rate)
    → Bounds errors trials r
    → at_most r target ≡ true
    → errors * unit ≤ target * trials
share-le errors trials target r (h, _, inl e) k = rw e (omega arith)
share-le errors trials target r (h, _, inr p) k =
    le_of_mul-le-mul_right
      (omega (
        arith,
        mul-le-mul_right unit h,
        mul-le-mul_right trials (leb→le (r.num * unit) (target * r.den) k),
      ))
      p

-- A rate that bounds the errors from below, and lies above the target, puts their share above it.
pub share-gt :
    (errors trials target : ℕ) (r : Rate)
    → r.num * trials ≤ errors * r.den
    → at_most r target ≡ false
    → 0 < trials
    → target * trials < errors * unit
share-gt errors trials target r h k t = lt_of_mul-lt-mul_right r.den (
    omega (
      arith,
      mul-le-mul_right unit h,
      mul-lt-mul_of_pos_right {m = target * r.den} {n = r.num * unit} (ground arith) t,
    ))

bisected-Bounds :
    (rounds errors trials alpha : ℕ)
    → errors ≤ trials
    → 0 < trials
    → Bounds errors trials (bisected rounds errors trials alpha)
unfolding bisected
bisected-Bounds rounds errors trials alpha h p =
    let b =
      bisect_bounds errors trials alpha (trials * 2 ^ rounds) rounds (errors * 2 ^ rounds)
        (trials * 2 ^ rounds) (mul-le-mul_right (2 ^ rounds) h) in
    (
      omega (arith, mul-le-mul_right trials b.0),
      b.1,
      inr (mul_pos trials (2 ^ rounds) p (power_pos rounds)),
    )

module _ (libm : Libm) where
  -- The upper bound is at least the observed share of errors, and at most one.
  pub upper-Bounds :
      (errors trials confidence : ℕ) (r : Rate)
      → upper_binomial_error_rate libm errors trials confidence ≡ ok (some r)
      → Bounds errors trials r × (0 < trials)
  unfolding upper_binomial_error_rate
  upper-Bounds errors trials confidence r e =
      ground (arith, bisected-Bounds 70 errors trials (unit - confidence))

  -- A lower bound is the complement of an upper bound.
  lower_inverts :
      (r : Rate) (u : Result (Option Rate))
      → (u >>= λ o. ok (elim o [ none ↦ none | some r ↦ some (complement r) ])) ≡ ok (some r)
      → (v : Rate) × (u ≡ ok (some v)) × (r ≡ complement v)
  lower_inverts r (ok (some v)) e = (v, refl, ground (arith, e))
  lower_inverts r (ok none) e = ground (arith, e)
  lower_inverts r (raise x) e = ground (arith, e)

  complement-Bounds :
      (errors trials : ℕ) (v : Rate)
      → errors ≤ trials
      → Bounds (trials - errors) trials v
      → (complement v).num * trials ≤ errors * (complement v).den
  complement-Bounds errors trials v h (b, _, _) =
      omega (arith, b, mul-sub v.den trials errors, mul-sub trials v.den v.num)

  -- The lower bound is at most the observed share of errors.
  pub lower_bounds :
      (errors trials confidence : ℕ) (r : Rate)
      → errors ≤ trials
      → lower_binomial_error_rate libm errors trials confidence ≡ ok (some r)
      → (r.num * trials ≤ errors * r.den) × (0 < trials)
  unfolding lower_binomial_error_rate
  lower_bounds errors trials confidence r h e =
      let found =
        lower_inverts r (upper_binomial_error_rate libm (trials - errors) trials confidence) e in
      let bounds = upper-Bounds (trials - errors) trials confidence found.0 found.1 in
      (rw found.2 (complement-Bounds errors trials found.0 h bounds.0), bounds.1)

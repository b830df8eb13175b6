-- ===== src/Governor/Binomial.antt =====
-- src/inboxlume/safety_governor.py: the Clopper-Pearson bounds. A rate is a fraction, so that the
-- seventy halvings and the sum of the binomial tail are exact; the root, which is no fraction, is
-- the `math.pow` of `Libm`.
use inboxlume.Base.{
  ℕ, zero, suc, ◌+◌, ◌-◌, ◌*◌, ◌/◌, ◌^◌, Bool, true, false, ◌&&◌, leb, ltb, ◌==◌, if◌then◌else◌,
  Option, none, some, ok, Result, require, ◌>>=◌, ◌>>◌,
}
use inboxlume.Models.{unit}

pub record Rate : Type 0 where
  pub num : ℕ
  pub den : ℕ

pub record Libm : Type 0 where
  pub root : ℕ → ℕ → Rate  -- `math.pow(alpha, 1.0 / trials)`

unfoldable pub factorial : ℕ → ℕ
factorial zero = 1
factorial (suc n) = suc n * factorial n

-- `exp` of the term of an observed count: `n! / (k! (n - k)!) * p ^ k * (1 - p) ^ (n - k)`, where
-- `lgamma(n + 1)` is the logarithm of `n!`; as a numerator over `p.den ^ n`.
unfoldable pub tail_term : ℕ → Rate → ℕ → ℕ
tail_term n p k =
    factorial n / (factorial k * factorial (n - k)) * p.num ^ k * (p.den - p.num) ^ (n - k)

-- The sum over the observed counts up to `maximum`.
unfoldable pub tail_sum : ℕ → Rate → ℕ → ℕ
tail_sum n p zero = tail_term n p zero
tail_sum n p (suc k) = tail_term n p (suc k) + tail_sum n p k

-- `_direct_binomial_lower_tail`; that it takes out the largest term only scales the floats.
unfoldable pub direct_binomial_lower_tail : ℕ → ℕ → Rate → Rate
direct_binomial_lower_tail maximum trials p = record {
  num = tail_sum trials p maximum;
  den = p.den ^ trials;
}

abbrev pub whole : Rate
whole = record { num = 1; den = 1 }

abbrev pub nothing : Rate
nothing = record { num = 0; den = 1 }

-- `max(0.0, 1.0 - r)`
abbrev pub complement : Rate → Rate
complement r = record { num = r.den - r.num; den = r.den }

-- `r <= target`, with the target in millionths.
abbrev pub at_most : Rate → ℕ → Bool
at_most r target = leb (r.num * unit) (target * r.den)

-- `min(1.0, r)`
abbrev pub cap_at_one : Rate → Rate
cap_at_one r = if leb r.num r.den then r else whole

-- `_binomial_cdf_at_most`
unfoldable pub binomial_cdf_at_most : ℕ → ℕ → Rate → Rate
binomial_cdf_at_most errors trials p =
    if p.num == 0
    then whole
    else if leb p.den p.num
    then (if leb trials errors then whole else nothing)
    else if leb errors (trials / 2)
    then cap_at_one (direct_binomial_lower_tail errors trials p)
    else complement (direct_binomial_lower_tail (trials - errors - 1) trials (complement p))

-- The loop of `upper_binomial_error_rate`: `rounds` are left, the two ends are over `den`.
unfoldable pub bisect : ℕ → ℕ → ℕ → ℕ → ℕ → ℕ → ℕ → ℕ
bisect errors trials alpha den zero low high = high
bisect errors trials alpha den (suc rounds) low high =
    elim (at_most
      (binomial_cdf_at_most errors trials (record { num = (low + high) / 2; den = den })) alpha) [
        | true ↦ bisect errors trials alpha den rounds low ((low + high) / 2)
        | false ↦ bisect errors trials alpha den rounds ((low + high) / 2) high
      ]

-- The bound for some errors among more trials, over the denominator `trials * 2 ^ rounds`.
unfoldable pub bisected : ℕ → ℕ → ℕ → ℕ → Rate
bisected rounds errors trials alpha = record {
  num =
      bisect errors trials alpha (trials * 2 ^ rounds) rounds (errors * 2 ^ rounds)
        (trials * 2 ^ rounds);
  den = trials * 2 ^ rounds;
}

module _ (libm : Libm) where
  unfoldable pub upper_binomial_error_rate : ℕ → ℕ → ℕ → Result (Option Rate)
  upper_binomial_error_rate errors trials confidence_level = do
    require (leb errors trials) "invalid binomial evidence"
    require (ltb 500000 confidence_level && ltb confidence_level unit)
        "confidence_level must be between 0.5 and 1"
    ok (
        if trials == 0
        then none
        else if errors == trials
        then some whole
        else if errors == 0
        then some (complement (libm.root (unit - confidence_level) trials))
        else some (bisected 70 errors trials (unit - confidence_level)))

  unfoldable pub lower_binomial_error_rate : ℕ → ℕ → ℕ → Result (Option Rate)
  lower_binomial_error_rate errors trials confidence_level = do
    upper_complement ← upper_binomial_error_rate (trials - errors) trials confidence_level
    ok (elim upper_complement [ none ↦ none | some r ↦ some (complement r) ])

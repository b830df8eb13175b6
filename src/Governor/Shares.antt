-- ===== src/Governor/Shares.antt =====
-- src/inboxlume/safety_governor.py: what the status of a band says of the answers it was made of.
use inboxlume.Base.{subst, ℕ, ◌+◌, ◌*◌, ◌≤◌, ◌<◌, ◌≡◌, true, String, Option, none, some, ok, arith}
use inboxlume.Models.{unit}
use inboxlume.Governor.{
  is_qualified, within, Counts, SafetyEvidenceBand, Thresholds, conclusive_reviews, status_of,
  evidence_band,
}
use inboxlume.Governor.Binomial.{Rate, Libm, upper_binomial_error_rate, lower_binomial_error_rate}
use inboxlume.Governor.Gate.{is_blocking, above}
use inboxlume.Governor.Laws.{share-le, share-gt, upper-Bounds, lower_bounds}

within_share :
    (libm : Libm) (errors trials confidence target : ℕ) (o : Option Rate)
    → upper_binomial_error_rate libm errors trials confidence ≡ ok o
    → within o target ≡ true
    → errors * unit ≤ target * trials
within_share libm errors trials confidence target none e w = ground (arith, w)
within_share libm errors trials confidence target (some r) e w =
    share-le errors trials target r (upper-Bounds libm errors trials confidence r e).0 w

above_share :
    (libm : Libm) (errors trials confidence target : ℕ) (o : Option Rate)
    → errors ≤ trials
    → lower_binomial_error_rate libm errors trials confidence ≡ ok o
    → above o target ≡ true
    → target * trials < errors * unit
above_share libm errors trials confidence target none h e w = ground (arith, w)
above_share libm errors trials confidence target (some r) h e w =
    let bounds = lower_bounds libm errors trials confidence r h e in
    share-gt errors trials target r bounds.0 (ground (arith, w)) bounds.1

qualified_grade :
    (conclusive minimum target : ℕ) (o : Option Rate)
    → is_qualified (status_of conclusive minimum target o) ≡ true
    → (minimum ≤ conclusive) × (within o target ≡ true)
unfolding status_of
qualified_grade conclusive minimum target o q = ground arith

module _ (libm : Libm) (t : Thresholds) (name : String) (n : Counts) (b : SafetyEvidenceBand)
    (made : evidence_band libm t name n ≡ ok b) where
  -- The parts of a band that was made.
  pub record Made : Type 0 where
    pub named : b.name ≡ name
    pub false_answers : b.false_cleanup ≡ n.keep
    pub right_answers : b.confirmed_cleanup ≡ n.dont_keep
    pub target : b.target_false_cleanup_rate ≡ t.target_false_cleanup_rate
    pub upper :
        upper_binomial_error_rate libm n.keep (n.keep + n.dont_keep) t.confidence_level
        ≡ ok b.upper_false_cleanup_rate
    pub lower :
        lower_binomial_error_rate libm n.keep (n.keep + n.dont_keep) t.confidence_level
        ≡ ok b.lower_false_cleanup_rate
    pub grade :
        b.status
        ≡ status_of
            (n.keep + n.dont_keep)
            t.minimum_conclusive_reviews
            t.target_false_cleanup_rate
            b.upper_false_cleanup_rate

  band_made : Made
  unfolding evidence_band
  band_made = ground arith

  -- A band that was made of some answers and is qualified has the number of conclusive answers asked
  -- for, and the false cleanups among them are at most the share asked for.
  pub qualified_share :
      is_qualified b.status ≡ true
      → (t.minimum_conclusive_reviews ≤ conclusive_reviews b)
        × (b.false_cleanup * unit ≤ t.target_false_cleanup_rate * conclusive_reviews b)
  unfolding conclusive_reviews
  qualified_share q =
      let grade =
        qualified_grade (n.keep + n.dont_keep) t.minimum_conclusive_reviews
          t.target_false_cleanup_rate b.upper_false_cleanup_rate
          (subst (λ s. is_qualified s ≡ true) band_made.grade q) in
      let share =
        within_share libm n.keep (n.keep + n.dont_keep) t.confidence_level
          t.target_false_cleanup_rate b.upper_false_cleanup_rate band_made.upper grade.1 in
      let total : conclusive_reviews b ≡ n.keep + n.dont_keep =
        omega (arith, band_made.false_answers, band_made.right_answers) in
      (rw total grade.0, rw total (rw band_made.false_answers share))

  -- A band that was made of some answers and blocks has at least twenty conclusive answers, three false cleanups, and a share
  -- of false cleanups above the one asked for.
  pub blocking_share :
      is_blocking b ≡ true
      → (20 ≤ conclusive_reviews b)
        × (3 ≤ b.false_cleanup)
        × (t.target_false_cleanup_rate * conclusive_reviews b < b.false_cleanup * unit)
  unfolding is_blocking conclusive_reviews
  blocking_share q =
      let share =
        above_share libm n.keep (n.keep + n.dont_keep) t.confidence_level
          t.target_false_cleanup_rate b.lower_false_cleanup_rate (omega arith) band_made.lower
          (subst (λ r. above b.lower_false_cleanup_rate r ≡ true) band_made.target
            (ground arith)) in
      let total : conclusive_reviews b ≡ n.keep + n.dont_keep =
        omega (arith, band_made.false_answers, band_made.right_answers) in
      (ground arith, ground arith, rw total (rw band_made.false_answers share))

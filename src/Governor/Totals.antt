-- ===== src/Governor/Totals.antt =====
-- src/inboxlume/safety_governor.py: the account's totals against its families, and their order.
use inboxlume.Base.{
  ℕ, ◌+◌, ◌≤◌, ◌≡◌, refl, true, false, ◌&&◌, String, List, [], ◌∷◌, leb, ltb, ok, require, arith,
  Bool-cases, bind_ok, inl, inr, not,
}
use inboxlume.Models.{Platform, is_blank}
use inboxlume.Governor.{
  Counts, SafetyEvidenceBand, SafetyGovernorReport, Thresholds, evidence_band, family_bands,
  sorts_before, insert_band, sort_bands, evaluate_safety_governor, add_counts, counts_of, no_counts,
}
use inboxlume.Governor.Binomial.{Libm}

unfoldable pub sum_of : (SafetyEvidenceBand → ℕ) → List SafetyEvidenceBand → ℕ
sum_of f [] = 0
sum_of f (b ∷ bs) = f b + sum_of f bs

-- The counts of the list, added to those of the start.
pub record Adds (start : Counts) (bs : List SafetyEvidenceBand) (total : Counts) : Type 0 where
  pub false_answers : total.keep ≡ start.keep + sum_of (λ b. b.false_cleanup) bs
  pub right_answers : total.dont_keep ≡ start.dont_keep + sum_of (λ b. b.confirmed_cleanup) bs
  pub unsure_answers : total.unsure ≡ start.unsure + sum_of (λ b. b.unsure) bs
  pub open_answers : total.unreviewed ≡ start.unreviewed + sum_of (λ b. b.unreviewed) bs

-- The first band of the list has at most this many proposals.
unfoldable pub HeadBelow : ℕ → List SafetyEvidenceBand → Type 0
HeadBelow k [] = Unit
HeadBelow k (y ∷ rest) = y.proposals ≤ k

-- The proposals do not increase along the list.
unfoldable pub Descending : List SafetyEvidenceBand → Type 0
Descending [] = Unit
Descending (x ∷ rest) = HeadBelow x.proposals rest × Descending rest

insert_band-sum :
    (f : SafetyEvidenceBand → ℕ) (b : SafetyEvidenceBand) (bs : List SafetyEvidenceBand)
    → sum_of f (insert_band b bs) ≡ f b + sum_of f bs
unfolding insert_band sum_of
insert_band-sum f b [] = refl
insert_band-sum f b (x ∷ xs) = ground (arith, insert_band-sum f b xs)

sort_bands-sum :
    (f : SafetyEvidenceBand → ℕ) (bs : List SafetyEvidenceBand)
    → sum_of f (sort_bands bs) ≡ sum_of f bs
unfolding sort_bands sum_of
sort_bands-sum f [] = refl
sort_bands-sum f (x ∷ xs) = ground (arith, insert_band-sum f x (sort_bands xs), sort_bands-sum f xs)

insert_band-HeadBelow :
    (k : ℕ) (b : SafetyEvidenceBand) (bs : List SafetyEvidenceBand)
    → b.proposals ≤ k
    → HeadBelow k bs
    → HeadBelow k (insert_band b bs)
unfolding insert_band HeadBelow
insert_band-HeadBelow k b [] h g = h
insert_band-HeadBelow k b (x ∷ xs) h g = ground arith

insert_band-Descending :
    (b : SafetyEvidenceBand) (bs : List SafetyEvidenceBand)
    → Descending bs
    → Descending (insert_band b bs)
unfolding insert_band Descending HeadBelow sorts_before
insert_band-Descending b [] h = (tt, tt)
insert_band-Descending b (x ∷ xs) h = elim (Bool-cases (sorts_before b x)) [
  | inl e ↦ rw e ((ground (arith, e)), h)
  | inr e ↦ rw e (
    insert_band-HeadBelow x.proposals b xs (ground (arith, e)) h.0,
    insert_band-Descending b xs h.1,
  )
]

sort_bands-Descending : (bs : List SafetyEvidenceBand) → Descending (sort_bands bs)
unfolding sort_bands Descending
sort_bands-Descending [] = tt
sort_bands-Descending (x ∷ xs) = insert_band-Descending x (sort_bands xs) (sort_bands-Descending xs)

module _ (libm : Libm) (t : Thresholds) where
  family_bands-Adds :
      (evidence : List (String × Counts)) (start : Counts)
      (found : List SafetyEvidenceBand × Counts)
      → family_bands libm t evidence start ≡ ok found
      → Adds start found.0 found.1
  unfolding family_bands sum_of
  family_bands-Adds [] start found e = ground (arith, e)
  family_bands-Adds ((family, counts) ∷ rest) start found e =
      let made = bind_ok (evidence_band libm t family counts) _ found e in
      let later =
        bind_ok (family_bands libm t rest (add_counts start (counts_of made.0))) _ found made.2 in
      let adds = family_bands-Adds rest (add_counts start (counts_of made.0)) later.0 later.1 in
      ground (
        arith, adds.false_answers, adds.right_answers, adds.unsure_answers, adds.open_answers,
        later.2,
      )

  evidence_band-counts :
      (name : String) (n : Counts) (b : SafetyEvidenceBand)
      → evidence_band libm t name n ≡ ok b
      → (b.false_cleanup ≡ n.keep)
        × (b.confirmed_cleanup ≡ n.dont_keep)
        × (b.unsure ≡ n.unsure)
        × (b.unreviewed ≡ n.unreviewed)
  unfolding evidence_band
  evidence_band-counts name n b e = ground arith

  -- What a report keeps of the families' answers.
  pub record Conserves (r : SafetyGovernorReport) : Type 0 where
    pub false_answers : r.overall.false_cleanup ≡ sum_of (λ b. b.false_cleanup) r.semantic_families
    pub right_answers :
        r.overall.confirmed_cleanup ≡ sum_of (λ b. b.confirmed_cleanup) r.semantic_families
    pub unsure_answers : r.overall.unsure ≡ sum_of (λ b. b.unsure) r.semantic_families
    pub open_answers : r.overall.unreviewed ≡ sum_of (λ b. b.unreviewed) r.semantic_families
    pub ordered : Descending r.semantic_families
    pub only_shadow : (r.shadow_only ≡ true) × (r.authorizes_actions ≡ false)

  conserved :
      (bs : List SafetyEvidenceBand) (totals : Counts) (b : SafetyEvidenceBand)
      (r : SafetyGovernorReport)
      → Adds no_counts bs totals
      → evidence_band libm t "overall" totals ≡ ok b
      → r.overall ≡ b
      → r.semantic_families ≡ sort_bands bs
      → (r.shadow_only ≡ true) × (r.authorizes_actions ≡ false)
      → Conserves r
  conserved bs totals b r adds e o f s =
      let counts = evidence_band-counts "overall" totals b e in
      record {
        false_answers =
            rw o (rw f (rw sort_bands-sum (omega (arith, counts.0, adds.false_answers))));
        right_answers =
            rw o (rw f (rw sort_bands-sum (omega (arith, counts.1, adds.right_answers))));
        unsure_answers =
            rw o (rw f (rw sort_bands-sum (omega (arith, counts.2, adds.unsure_answers))));
        open_answers = rw o (rw f (rw sort_bands-sum (omega (arith, counts.3, adds.open_answers))));
        ordered = rw f (sort_bands-Descending bs);
        only_shadow = s;
      }

  -- In every report that is returned the answers of the account are those of its families added up,
  -- the families come by falling number of proposals, and nothing is authorised.
  pub evaluate_safety_governor-Conserves :
      (py : Platform) (account_id scan_profile : String) (evidence : List (String × Counts))
      (r : SafetyGovernorReport)
      → evaluate_safety_governor libm t py account_id scan_profile evidence ≡ ok r
      → Conserves r
  unfolding evaluate_safety_governor
  evaluate_safety_governor-Conserves py account_id scan_profile evidence r e =
      let c =
        bind_ok
          (require
            (not (is_blank py.is_space account_id) && not (is_blank py.is_space scan_profile)) _)
          _ r e in
      let d =
        bind_ok
          (require (ltb 0 t.target_false_cleanup_rate && ltb t.target_false_cleanup_rate 500000) _)
          _ r c.2 in
      let m = bind_ok (require (leb 1 t.minimum_conclusive_reviews) _) _ r d.2 in
      let found = bind_ok (family_bands libm t evidence no_counts) _ r m.2 in
      let whole = bind_ok (evidence_band libm t "overall" found.0.1) _ r found.2 in
      conserved found.0.0 found.0.1 whole.0 r (family_bands-Adds evidence no_counts found.0 found.1)
        whole.1 (ground (arith, whole.2)) (ground (arith, whole.2)) (ground (arith, whole.2))

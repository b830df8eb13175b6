-- ===== src/Quiz/Coverage.antt =====
-- What the dictionary of candidates in `QuizSelector.select` of src/inboxlume/quiz.py keeps: for each
-- unanswered candidate one of the same account and message.
use inboxlume.Base.{
  ◌≡◌, refl, Bool, true, false, ◌&&◌, ◌||◌, List, [], ◌∷◌, ◌++◌, any, str_eq, if◌then◌else◌,
  Bool-cases, inl, inr, arith, eq_iff, All,
}
use inboxlume.Models.{EmailRecord}
use inboxlume.Quiz.{QuizCandidate, same_key, unique_from}
use inboxlume.Pipeline.Search.{All-map}

any-snoc :
    {A : Type 0} (test : A → Bool) (xs : List A) (x : A)
    → any test (xs ++ (x ∷ [])) ≡ (any test xs || test x)
unfolding any
any-snoc test [] x = ground arith
any-snoc test (y ∷ xs) x = ground (arith, any-snoc test xs x)

-- What some element passes and all elements pass, some element passes together.
any-All :
    {A : Type 0} (test other : A → Bool) (xs : List A)
    → All (λ x. other x ≡ true) xs
    → any test xs ≡ true
    → any (λ x. test x && other x) xs ≡ true
unfolding any
any-All test other [] h e = ground (arith, e)
any-All test other (x ∷ xs) (p, h) e = elim (Bool-cases (test x)) [
  | inl found ↦ ground (arith, found, p)
  | inr further ↦ ground (arith, any-All test other xs h (ground (arith, e, further)))
]

same_key_refl : (c : QuizCandidate) → same_key c c ≡ true
same_key_refl c = ground (
  arith,
  (eq_iff c.message.account_id c.message.account_id).1 refl,
  (eq_iff c.message.message_id c.message.message_id).1 refl,
)

module _ (answered : EmailRecord → Bool) where
  -- The dictionary after one candidate.
  abbrev after : List QuizCandidate → QuizCandidate → List QuizCandidate
  after unique c =
      if answered c.message || any (same_key c) unique then unique else unique ++ (c ∷ [])

  module _ (test : QuizCandidate → Bool) where
    after-keeps :
        (unique : List QuizCandidate) (c : QuizCandidate)
        → any test unique ≡ true
        → any test (after unique c) ≡ true
    after-keeps unique c e = ground (arith, e, any-snoc test unique c)

    after-adds :
        (unique : List QuizCandidate) (c : QuizCandidate)
        → any test (after unique c) ≡ true
        → (any test unique || test c) ≡ true
    after-adds unique c e = ground (arith, e, any-snoc test unique c)

    unique_from-keeps :
        (candidates unique : List QuizCandidate)
        → any test unique ≡ true
        → any test (unique_from answered unique candidates) ≡ true
    unfolding unique_from
    unique_from-keeps [] unique e = e
    unique_from-keeps (c ∷ candidates) unique e =
        unique_from-keeps candidates (after unique c) (after-keeps unique c e)

    unique_from-adds :
        (candidates unique : List QuizCandidate)
        → any test (unique_from answered unique candidates) ≡ true
        → (any test unique || any test candidates) ≡ true
    unfolding unique_from any
    unique_from-adds [] unique e = ground (arith, e)
    unique_from-adds (c ∷ candidates) unique e = elim (Bool-cases (any test (after unique c))) [
      | inl early ↦ ground (arith, after-adds unique c early)
      | inr late ↦ ground (arith, late, unique_from-adds candidates (after unique c) e)
    ]

  after-covers :
      (unique : List QuizCandidate) (c : QuizCandidate)
      → answered c.message ≡ false
      → any (same_key c) (after unique c) ≡ true
  after-covers unique c e = ground (arith, e, any-snoc (same_key c) unique c, same_key_refl c)

  Covered : List QuizCandidate → QuizCandidate → Type 0
  Covered kept c = (answered c.message || any (same_key c) kept) ≡ true

  unique_from-covers :
      (candidates unique : List QuizCandidate)
      → All (Covered (unique_from answered unique candidates)) candidates
  unfolding unique_from Covered
  unique_from-covers [] unique = tt
  unique_from-covers (c ∷ candidates) unique = (
    elim (Bool-cases (answered c.message)) [
      | inl done ↦ ground (arith, done)
      | inr unasked ↦ ground (
        arith,
        unasked,
        unique_from-keeps (same_key c) candidates (after unique c) (after-covers unique c unasked),
      )
    ],
    unique_from-covers candidates (after unique c),
  )

  -- If all that was kept passes a test, each unanswered candidate has one of its account and message
  -- among the candidates that passes it.
  pub kept-All :
      (settled : QuizCandidate → Bool) (candidates : List QuizCandidate)
      → All (λ c. settled c ≡ true) (unique_from answered [] candidates)
      → All
          (λ c.
            (answered c.message
              || any
                  (λ d.
                    (str_eq c.message.account_id d.message.account_id
                      && str_eq c.message.message_id d.message.message_id)
                    && settled d)
                  candidates)
            ≡ true)
          candidates
  unfolding Covered any
  kept-All settled candidates h =
      All-map candidates (λ c covered. one c covered) (unique_from-covers candidates [])
    where
      one :
          (c : QuizCandidate)
          → Covered (unique_from answered [] candidates) c
          → (answered c.message || any (λ d. same_key c d && settled d) candidates) ≡ true
      one c covered = elim (Bool-cases (answered c.message)) [
        | inl done ↦ ground (arith, done)
        | inr unasked ↦ ground (
          arith,
          unasked,
          unique_from-adds (λ d. same_key c d && settled d) candidates []
              (any-All (same_key c) settled (unique_from answered [] candidates) h
                (ground (arith, covered, unasked))),
        )
      ]

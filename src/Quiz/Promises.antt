-- ===== src/Quiz/Promises.antt =====
-- What `QuizSelector.select` of src/inboxlume/quiz.py promises.
use inboxlume.Base.{
  ◌≡◌, refl, sym, subst, ℕ, ◌≤◌, ◌<◌, Bool, true, false, ◌&&◌, ◌||◌, any, str_eq, String, List, [],
  ◌∷◌, length, leb, ltb, ◌==◌, contains, Bool-cases, inl, inr, arith, All,
}
use inboxlume.Models.{Platform, EmailRecord}
use inboxlume.Quiz.{
  QuizCandidate, Selection, sender_key, count_text, sender_is_full, passes_over_first,
  passes_over_second, loop, no_selection, comes_first, insert, select_ordered, select, sorted,
  unique_from,
}
use inboxlume.Pipeline.Search.{All-map}
use inboxlume.Quiz.Coverage.{kept-All}
use inboxlume.Quiz.Laws.{sender_count, has_id, Fair, loop-Fair, loop-covers, Over, second_loop}

insert-first :
    (c d : QuizCandidate) (cs : List QuizCandidate)
    → comes_first c d ≡ true
    → insert c (d ∷ cs) ≡ c ∷ d ∷ cs
unfolding insert
insert-first c d cs e = rw (insert, e)

insert-later :
    (c d : QuizCandidate) (cs : List QuizCandidate)
    → comes_first c d ≡ false
    → insert c (d ∷ cs) ≡ d ∷ insert c cs
unfolding insert
insert-later c d cs e = rw (insert, e)

module _ (P : QuizCandidate → Type 0) where
  All-insert : (c : QuizCandidate) (cs : List QuizCandidate) → All P (insert c cs) → P c × All P cs
  unfolding insert
  All-insert c [] a = a
  All-insert c (d ∷ cs) a = elim (Bool-cases (comes_first c d)) [
    | inl first ↦ subst (All P) (insert-first c d cs first) a
    | inr later ↦
        let (q, rest) = subst (All P) (insert-later c d cs later) a in
        let (p, others) = All-insert c cs rest in (p, (q, others))
  ]

  All-sorted : (cs : List QuizCandidate) → All P (sorted cs) → All P cs
  unfolding sorted
  All-sorted [] a = tt
  All-sorted (c ∷ cs) a = let (p, rest) = All-insert c (sorted cs) a in (p, All-sorted cs rest)

module _ (py : Platform) (max_per_sender limit : ℕ) (answered : EmailRecord → Bool)
    (candidates : List QuizCandidate) where
  abbrev questions : List QuizCandidate
  questions = select py max_per_sender limit answered candidates

  abbrev considered : List QuizCandidate
  considered = unique_from answered [] candidates

  none-Fair : Fair py max_per_sender limit (no_selection py max_per_sender limit)
  unfolding count_text sender_count contains has_id
  none-Fair = record {
    counted = λ key. refl;
    identified = λ x. refl;
    allowed = λ key. ground arith;
    within = ground arith;
  }

  -- The selection after each loop.
  abbrev ordered : List QuizCandidate
  ordered = sorted considered

  abbrev first : Selection
  first =
      loop py max_per_sender limit (passes_over_first py max_per_sender) ordered
        (no_selection py max_per_sender limit)

  first-Fair : 1 ≤ limit → Fair py max_per_sender limit first
  unfolding passes_over_first
  first-Fair positive =
      loop-Fair py max_per_sender limit (passes_over_first py max_per_sender)
        (λ s c e. ground (arith, e)) ordered (no_selection py max_per_sender limit) none-Fair
        positive

  second-Fair :
      Fair py max_per_sender limit first
      → length first.chosen < limit
      → Fair py max_per_sender limit (second_loop py max_per_sender limit ordered first)
  unfolding passes_over_second
  second-Fair f short =
      loop-Fair py max_per_sender limit (passes_over_second py max_per_sender)
        (λ s c e. ground (arith, e)) ordered first f short

  abbrev Promised : List QuizCandidate → Type 0
  Promised chosen =
      (length chosen ≤ limit) × ((key : String) → sender_count py key chosen ≤ max_per_sender)

  promised : (s : Selection) → Fair py max_per_sender limit s → Promised s.chosen
  promised s f = (f.within, f.allowed)

  select-none : ltb limit 1 ≡ true → questions ≡ []
  unfolding select
  select-none e = rw e

  select-first :
      ltb limit 1 ≡ false → (length first.chosen == limit) ≡ true → questions ≡ first.chosen
  unfolding select select_ordered
  select-first e full = rw (e, full)

  select-second :
      ltb limit 1 ≡ false
      → (length first.chosen == limit) ≡ false
      → questions ≡ (second_loop py max_per_sender limit ordered first).chosen
  unfolding select select_ordered
  select-second e more = rw (e, more)

  -- The quiz asks no more questions than the limit, and no more about one sender than
  -- `max_per_sender`, whatever the candidates are.
  pub select-Promised :
      (length (select py max_per_sender limit answered candidates) ≤ limit)
      × ((key : String)
          → sender_count py key (select py max_per_sender limit answered candidates)
            ≤ max_per_sender)
  unfolding sender_count
  select-Promised = elim (Bool-cases (ltb limit 1)) [
    | inl zero_limit ↦
        subst Promised (sym (select-none zero_limit)) (ground arith, λ key. ground arith)
    | inr positive ↦
        let f : Fair py max_per_sender limit first = first-Fair (ground (arith, positive)) in
        elim (Bool-cases (length first.chosen == limit)) [
          | inl full ↦ subst Promised (sym (select-first positive full)) (promised first f)
          | inr more ↦ subst Promised (sym (select-second positive more)) (
              promised (second_loop py max_per_sender limit ordered first)
                (second-Fair f (ground (arith, f.within, more))))
        ]
  ]

  -- The message of a candidate was asked about, or its sender was as often as allowed.
  abbrev pub Settled : List QuizCandidate → QuizCandidate → Type 0
  Settled chosen c =
      (has_id c.message.message_id chosen
        || leb max_per_sender (sender_count py (sender_key py c.message) chosen))
      ≡ true

  Over-Settled :
      (s : Selection) (c : QuizCandidate)
      → Fair py max_per_sender limit s
      → Over py max_per_sender limit s c
      → Settled s.chosen c
  unfolding passes_over_second sender_is_full
  Over-Settled s c f over =
      ground (arith, over, f.identified c.message.message_id, f.counted (sender_key py c.message))

  considered-Settled : length questions < limit → All (Settled questions) considered
  considered-Settled below =
      let positive : ltb limit 1 ≡ false = ground (arith, below) in
      let f : Fair py max_per_sender limit first = first-Fair (ground (arith, below)) in
      elim (Bool-cases (length first.chosen == limit)) [
        | inl full ↦ ground (arith, below, select-first positive full, full)
        | inr more ↦
            let end : Selection = second_loop py max_per_sender limit ordered first in
            let g : Fair py max_per_sender limit end =
              second-Fair f (ground (arith, f.within, more)) in
            let same : questions ≡ end.chosen = select-second positive more in
            subst (λ chosen. All (Settled chosen) considered) (sym same)
              (All-sorted (Settled end.chosen) considered
                (elim (loop-covers py max_per_sender limit ordered first) [
                  | inl full ↦ ground (arith, below, same, full)
                  | inr over ↦ All-map ordered (λ c. Over-Settled end c g) over
                ]))
      ]

  -- A quiz that stays below its limit has left out nothing that it might ask about: for each candidate
  -- that was not answered there is a candidate of the same account and message id whose message id was
  -- asked about, or whose sender was asked about as often as allowed.
  pub select-Settled :
      length (select py max_per_sender limit answered candidates) < limit
      → All
          (λ c.
            (answered c.message
              || any
                  (λ d.
                    (str_eq c.message.account_id d.message.account_id
                      && str_eq c.message.message_id d.message.message_id)
                    && (has_id d.message.message_id
                          (select py max_per_sender limit answered candidates)
                        || leb max_per_sender (
                            sender_count py
                              (sender_key py d.message)
                              (select py max_per_sender limit answered candidates))))
                  candidates)
            ≡ true)
          candidates
  select-Settled below =
      kept-All answered
        (λ d.
          has_id d.message.message_id questions
          || leb max_per_sender (sender_count py (sender_key py d.message) questions))
        candidates (considered-Settled below)

-- ===== src/Quiz/Laws.antt =====
-- What src/inboxlume/quiz.py promises of the chosen questions: not more than the limit, not more of one
-- sender than allowed, and no fewer than that permits.
use inboxlume.Base.{
  ◌≡◌, refl, sym, subst, ℕ, suc, ◌+◌, ◌≤◌, ◌<◌, Bool, true, false, ◌||◌, String, List, [], ◌∷◌,
  ◌++◌, length, ◌==◌, str_eq, contains, if◌then◌else◌, Bool-cases, ◌⊎◌, inl, inr, arith, All,
  eq_iff,
}
use inboxlume.Models.{Platform}
use inboxlume.Quiz.{
  QuizCandidate, Selection, sender_key, count_text, sender_is_full, passes_over_second, choose,
  loop,
}

length-snoc : {A : Type 0} (xs : List A) (x : A) → length (xs ++ (x ∷ [])) ≡ suc (length xs)
length-snoc [] x = refl
length-snoc (y ∷ xs) x = ground (arith, length-snoc xs x)

-- The questions about messages of one sender.
unfoldable pub sender_count : Platform → String → List QuizCandidate → ℕ
sender_count py key [] = 0
sender_count py key (c ∷ cs) =
    (if str_eq key (sender_key py c.message) then 1 else 0) + sender_count py key cs

sender_count-snoc :
    (py : Platform) (key : String) (cs : List QuizCandidate) (c : QuizCandidate)
    → sender_count py key (cs ++ (c ∷ []))
      ≡ (if str_eq key (sender_key py c.message) then 1 else 0) + sender_count py key cs
unfolding sender_count
sender_count-snoc py key [] c = refl
sender_count-snoc py key (d ∷ cs) c = ground (arith, sender_count-snoc py key cs c)

-- `message_id in {item.message.message_id for item in chosen}`
unfoldable pub has_id : String → List QuizCandidate → Bool
has_id x [] = false
has_id x (c ∷ cs) = str_eq x c.message.message_id || has_id x cs

has_id-snoc :
    (x : String) (cs : List QuizCandidate) (c : QuizCandidate)
    → has_id x (cs ++ (c ∷ [])) ≡ (str_eq x c.message.message_id || has_id x cs)
unfolding has_id
has_id-snoc x [] c = refl
has_id-snoc x (d ∷ cs) c = ground (arith, has_id-snoc x cs c)

module _ (py : Platform) (max_per_sender limit : ℕ) where
  -- What both loops keep, while the limit is not reached and after.
  pub record Fair (s : Selection) : Type 0 where
    pub counted : (key : String) → count_text key s.senders ≡ sender_count py key s.chosen
    pub identified : (x : String) → contains x s.chosen_ids ≡ has_id x s.chosen
    pub allowed : (key : String) → sender_count py key s.chosen ≤ max_per_sender
    pub within : length s.chosen ≤ limit

  choose-Fair :
      (s : Selection) (c : QuizCandidate)
      → Fair s
      → length s.chosen < limit
      → sender_is_full py max_per_sender s c ≡ false
      → Fair (choose py max_per_sender s c)
  unfolding choose count_text sender_is_full contains
  choose-Fair s c f short room = record {
    counted = λ key. ground (arith, f.counted key, sender_count-snoc py key s.chosen c);
    allowed = λ key. elim (Bool-cases (str_eq key (sender_key py c.message))) [
      | inl same ↦
          subst (λ k. sender_count py k (s.chosen ++ (c ∷ [])) ≤ max_per_sender)
            (sym ((eq_iff key (sender_key py c.message)).0 same)) own
      | inr other ↦ ground (arith, f.allowed key, sender_count-snoc py key s.chosen c, other)
    ];
    identified = λ x. ground (arith, f.identified x, has_id-snoc x s.chosen c);
    within = ground (arith, length-snoc s.chosen c, short);
  }
    where
      own : sender_count py (sender_key py c.message) (s.chosen ++ (c ∷ [])) ≤ max_per_sender
      own = ground (
        arith,
        f.counted (sender_key py c.message),
        sender_count-snoc py (sender_key py c.message) s.chosen c,
        room,
        (eq_iff (sender_key py c.message) (sender_key py c.message)).1 refl,
      )

  module _ (passes_over : Selection → QuizCandidate → Bool)
      (stops : (s : Selection) (c : QuizCandidate)
        → passes_over s c ≡ false
        → sender_is_full py max_per_sender s c ≡ false) where
    pub loop-Fair :
        (cs : List QuizCandidate) (s : Selection)
        → Fair s
        → length s.chosen < limit
        → Fair (loop py max_per_sender limit passes_over cs s)
    unfolding loop
    loop-Fair [] s f short = f
    loop-Fair (c ∷ rest) s f short = elim (Bool-cases (passes_over s c)) [
      | inl over ↦ rw (loop, over) (loop-Fair rest s f short)
      | inr taken ↦
          let chosen : Fair (choose py max_per_sender s c) =
            choose-Fair s c f short (stops s c taken) in
          elim (Bool-cases (length (choose py max_per_sender s c).chosen == limit)) [
            | inl full ↦ rw (loop, taken, full) chosen
            | inr more ↦
                rw (loop, taken, more)
                  (loop-Fair rest (choose py max_per_sender s c) chosen
                    (ground (arith, chosen.within, more)))
          ]
    ]

  -- The second loop: a candidate that it would pass over stays one that it would pass over.
  abbrev pub Over : Selection → QuizCandidate → Type 0
  Over s d = passes_over_second py max_per_sender s d ≡ true

  choose-Over :
      (s : Selection) (c d : QuizCandidate) → Over s d → Over (choose py max_per_sender s c) d
  unfolding passes_over_second sender_is_full choose contains count_text
  choose-Over s c d over = ground (arith, over)

  choose-own : (s : Selection) (c : QuizCandidate) → Over (choose py max_per_sender s c) c
  unfolding passes_over_second choose contains
  choose-own s c = ground (arith, (eq_iff c.message.message_id c.message.message_id).1 refl)

  abbrev pub second_loop : List QuizCandidate → Selection → Selection
  second_loop = loop py max_per_sender limit (passes_over_second py max_per_sender)

  loop-Over :
      (cs : List QuizCandidate) (s : Selection) (d : QuizCandidate)
      → Over s d
      → Over (second_loop cs s) d
  unfolding loop
  loop-Over [] s d over = over
  loop-Over (c ∷ rest) s d over = elim (Bool-cases (passes_over_second py max_per_sender s c)) [
    | inl passed ↦ rw (loop, passed) (loop-Over rest s d over)
    | inr taken ↦ elim (Bool-cases (length (choose py max_per_sender s c).chosen == limit)) [
      | inl full ↦ rw (loop, taken, full) (choose-Over s c d over)
      | inr more ↦
          rw (loop, taken, more)
            (loop-Over rest (choose py max_per_sender s c) d (choose-Over s c d over))
    ]
  ]

  module _ (c : QuizCandidate) (rest : List QuizCandidate) (s : Selection) where
    loop-passed :
        passes_over_second py max_per_sender s c ≡ true
        → second_loop (c ∷ rest) s ≡ second_loop rest s
    unfolding loop
    loop-passed passed = rw (loop, passed)

    loop-full :
        passes_over_second py max_per_sender s c ≡ false
        → (length (choose py max_per_sender s c).chosen == limit) ≡ true
        → second_loop (c ∷ rest) s ≡ choose py max_per_sender s c
    unfolding loop
    loop-full taken full = rw (loop, taken, full)

    loop-taken :
        passes_over_second py max_per_sender s c ≡ false
        → (length (choose py max_per_sender s c).chosen == limit) ≡ false
        → second_loop (c ∷ rest) s ≡ second_loop rest (choose py max_per_sender s c)
    unfolding loop
    loop-taken taken more = rw (loop, taken, more)

  -- It stops at the limit, or has passed over all that it did not choose.
  pub loop-covers :
      (cs : List QuizCandidate) (s : Selection)
      → (length (second_loop cs s).chosen ≡ limit) ⊎ All (Over (second_loop cs s)) cs
  loop-covers [] s = inr tt
  loop-covers (c ∷ rest) s = elim (Bool-cases (passes_over_second py max_per_sender s c)) [
    | inl passed ↦
        from_rest s (loop-passed c rest s passed) (loop-covers rest s) (loop-Over rest s c passed)
    | inr taken ↦ elim (Bool-cases (length (choose py max_per_sender s c).chosen == limit)) [
      | inl full ↦ inl (rw (loop-full c rest s taken full) (ground (arith, full)))
      | inr more ↦
          from_rest (choose py max_per_sender s c) (loop-taken c rest s taken more)
            (loop-covers rest (choose py max_per_sender s c))
            (loop-Over rest (choose py max_per_sender s c) c (choose-own s c))
    ]
  ]
    where
      from_rest :
          (s' : Selection)
          → second_loop (c ∷ rest) s ≡ second_loop rest s'
          → (length (second_loop rest s').chosen ≡ limit) ⊎ All (Over (second_loop rest s')) rest
          → Over (second_loop rest s') c
          → (length (second_loop (c ∷ rest) s).chosen ≡ limit)
            ⊎ All (Over (second_loop (c ∷ rest) s)) (c ∷ rest)
      from_rest s' same covered over =
          subst (λ end. (length end.chosen ≡ limit) ⊎ All (Over end) (c ∷ rest)) (sym same)
            (elim covered [ inl full ↦ inl full | inr all ↦ inr (over, all) ])

-- ===== src/Quiz.antt =====
-- src/inboxlume/quiz.py: which messages the calibration quiz asks about, and what an answer records.
-- The store's answer to `has_quiz_answer` is a parameter.
pub mod Laws
pub mod Coverage
pub mod Promises
use Prim.Native.Nat.{compare, Ordering}
use Prim.Native.Char.{code}
use inboxlume.Base.{
  ℕ, ◌+◌, Bool, true, false, ◌&&◌, ◌||◌, not, String, List, [], ◌∷◌, ◌++◌, length, leb, ltb, ◌==◌,
  str_eq, contains, map, any, filter, if◌then◌else◌, Option, none, some, Result, require, ok, ◌>>◌,
}
use inboxlume.Models.{
  Platform, EmailRecord, Classification, EmailCategory, category_is, category_in,
}

pub data QuizAnswer : Type 0 where
  keep dont_keep unsure : QuizAnswer

-- `FeedbackSignal`, as far as the quiz gives it
pub data FeedbackSignal : Type 0 where
  explicit_keep explicit_not_interested : FeedbackSignal

pub record QuizCandidate : Type 0 where
  pub message : EmailRecord
  pub classification : Classification

-- `CalibrationQuiz.answer`: the signal that is recorded with the answer
abbrev pub signal_of : QuizAnswer → Option FeedbackSignal
signal_of QuizAnswer.keep = some FeedbackSignal.explicit_keep
signal_of QuizAnswer.dont_keep = some FeedbackSignal.explicit_not_interested
signal_of QuizAnswer.unsure = none

-- `address or message.sender.casefold()`
unfoldable pub sender_key : Platform → EmailRecord → String
sender_key py m =
    let address : String = py.casefold (py.parse_address m.sender) in
    if str_eq address "" then py.casefold m.sender else address

abbrev pub same_key : QuizCandidate → QuizCandidate → Bool
same_key a b =
    str_eq a.message.account_id b.message.account_id
    && str_eq a.message.message_id b.message.message_id

-- The loop that fills `unique`: the first candidate of each key that was not answered.
unfoldable pub unique_from :
    (EmailRecord → Bool) → List QuizCandidate → List QuizCandidate → List QuizCandidate
unique_from answered unique [] = unique
unique_from answered unique (c ∷ candidates) =
    unique_from answered
      (if answered c.message || any (same_key c) unique then unique else unique ++ (c ∷ []))
      candidates

-- `a <= b` on texts, by the code points
unfoldable pub text_le : String → String → Bool
text_le String.[] b = true
text_le (String.◌∷◌ c a) String.[] = false
text_le (String.◌∷◌ c a) (String.◌∷◌ d b) =
    let rest = text_le a b in
    elim (compare (code c) (code d)) [
      | Ordering.lt ↦ true
      | Ordering.gt ↦ false
      | Ordering.eq ↦ rest
    ]

-- `0 if uncertain else 1`
unfoldable pub rank : QuizCandidate → ℕ
rank c =
    if category_in c.classification.category (EmailCategory.uncertain ∷ EmailCategory.other ∷ [])
    then 0
    else 1

-- `priority(a) <= priority(b)`
unfoldable pub comes_first : QuizCandidate → QuizCandidate → Bool
comes_first a b = elim (compare (rank a) (rank b)) [
  | Ordering.lt ↦ true
  | Ordering.gt ↦ false
  | Ordering.eq ↦ elim (compare a.classification.confidence b.classification.confidence) [
    | Ordering.lt ↦ true
    | Ordering.gt ↦ false
    | Ordering.eq ↦ text_le a.message.message_id b.message.message_id
  ]
]

unfoldable pub insert : QuizCandidate → List QuizCandidate → List QuizCandidate
insert c [] = c ∷ []
insert c (d ∷ rest) =
    let further = insert c rest in if comes_first c d then c ∷ d ∷ rest else d ∷ further

-- `sorted(..., key=priority)`, which keeps the order of equal priorities
unfoldable pub sorted : List QuizCandidate → List QuizCandidate
sorted [] = []
sorted (c ∷ candidates) = insert c (sorted candidates)

-- How often a key was counted: a `Counter` is the list of its increments.
unfoldable pub count_text : String → List String → ℕ
count_text key [] = 0
count_text key (other ∷ rest) = (if str_eq key other then 1 else 0) + count_text key rest

unfoldable pub count_category : EmailCategory → List EmailCategory → ℕ
count_category key [] = 0
count_category key (counted ∷ rest) =
    (if category_is key counted then 1 else 0) + count_category key rest

pub record Selection : Type 0 where
  pub chosen : List QuizCandidate
  pub senders : List String
  pub categories : List EmailCategory
  pub chosen_ids : List String

module _ (py : Platform) (max_per_sender : ℕ) where
  unfoldable pub sender_is_full : Selection → QuizCandidate → Bool
  sender_is_full s c = leb max_per_sender (count_text (sender_key py c.message) s.senders)

  -- The `continue` of the first loop.
  unfoldable pub passes_over_first : Selection → QuizCandidate → Bool
  passes_over_first s c =
      sender_is_full s c || leb 2 (count_category c.classification.category s.categories)

  -- The `continue`s of the second loop.
  unfoldable pub passes_over_second : Selection → QuizCandidate → Bool
  passes_over_second s c = contains c.message.message_id s.chosen_ids || sender_is_full s c

  -- The statements after the tests; each loop reads the fields that it updates itself.
  unfoldable pub choose : Selection → QuizCandidate → Selection
  choose s c = record {
    chosen = s.chosen ++ (c ∷ []);
    senders = sender_key py c.message ∷ s.senders;
    categories = c.classification.category ∷ s.categories;
    chosen_ids = c.message.message_id ∷ s.chosen_ids;
  }

  module _ (limit : ℕ) where
    -- A loop over `ordered`, with its `if len(chosen) == limit`.
    unfoldable pub loop :
        (Selection → QuizCandidate → Bool) → List QuizCandidate → Selection → Selection
    loop passes_over [] s = s
    loop passes_over (c ∷ rest) s = elim (passes_over s c) [
      | true ↦ loop passes_over rest s
      | false ↦ elim (length (choose s c).chosen == limit) [
        | true ↦ choose s c
        | false ↦ loop passes_over rest (choose s c)
      ]
    ]

    abbrev pub no_selection : Selection
    no_selection = record { chosen = []; senders = []; categories = []; chosen_ids = [] }

    unfoldable pub select_ordered : List QuizCandidate → List QuizCandidate
    select_ordered ordered =
        let first = loop passes_over_first ordered no_selection in
        if length first.chosen == limit
        then first.chosen
        else (loop passes_over_second ordered first).chosen

    -- `QuizSelector.select`
    unfoldable pub select : (EmailRecord → Bool) → List QuizCandidate → List QuizCandidate
    select answered candidates =
        if ltb limit 1 then [] else select_ordered (sorted (unique_from answered [] candidates))

-- `QuizSelector.__init__`
unfoldable pub check_selector : ℕ → Result ℕ
check_selector max_per_sender = do
  require (leb 1 max_per_sender) "max_per_sender deve essere almeno 1"
  ok max_per_sender

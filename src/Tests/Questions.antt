-- ===== src/Tests/Questions.antt =====
-- The theorems on the quiz, with two messages of one sender and one of another.
use inboxlume.Base.{
  ◌≡◌, refl, Bool, ◌≤◌, ◌<◌, true, false, ◌&&◌, ◌||◌, str_eq, String, List, [], ◌∷◌, length, leb,
  All, any, contains, arith,
}
use inboxlume.Models.{
  EmailRecord, EmailCategory, EmailCategory-discrete, category_is, category_in, RetentionSignal,
}
use inboxlume.Quiz.{
  QuizCandidate, sender_key, unique_from, text_le, rank, comes_first, insert, sorted, count_text,
  count_category, sender_is_full, passes_over_first, passes_over_second, choose, loop,
  select_ordered, select,
}
use inboxlume.Quiz.Laws.{sender_count, has_id}
use inboxlume.Quiz.Promises.{select-Promised, select-Settled}
use inboxlume.Tests.Data.{ascii, message, classified, lower, counterpart}

abbrev question : String → String → EmailCategory → QuizCandidate
question id sender category = record {
  message = record (message true sender "Winter sale" "") { message_id = id };
  classification = classified category RetentionSignal.uncertain;
}

abbrev asked : List QuizCandidate
asked =
    question "a" "shop@store.example" EmailCategory.advertising
    ∷ question "b" "shop@store.example" EmailCategory.uncertain
    ∷ question "c" "club@sport.example" EmailCategory.social
    ∷ []

abbrev nobody : EmailRecord → Bool
nobody m = false

select-Promised_example :
    (length (select ascii 1 5 nobody asked) ≤ 5)
    × ((key : String) → sender_count ascii key (select ascii 1 5 nobody asked) ≤ 1)
select-Promised_example = select-Promised ascii 1 5 nobody asked

-- The uncertain message comes first; the other one of its sender is left out.
two_selected :
    select ascii 1 5 nobody asked
    ≡ question "b" "shop@store.example" EmailCategory.uncertain
      ∷ question "c" "club@sport.example" EmailCategory.social
      ∷ []
unfolding select select_ordered loop choose passes_over_first passes_over_second sender_is_full
    count_text count_category sorted insert comes_first rank text_le unique_from sender_key
    category_in category_is EmailCategory-discrete any contains lower counterpart
two_selected = refl

below_limit : length (select ascii 1 5 nobody asked) < 5
below_limit = ground (arith, two_selected)

select-Settled_example :
    All
      (λ c.
        (nobody c.message
          || any
              (λ d.
                (str_eq c.message.account_id d.message.account_id
                  && str_eq c.message.message_id d.message.message_id)
                && (has_id d.message.message_id (select ascii 1 5 nobody asked)
                    || leb 1 (
                        sender_count ascii
                          (sender_key ascii d.message)
                          (select ascii 1 5 nobody asked))))
              asked)
        ≡ true)
      asked
select-Settled_example = select-Settled ascii 1 5 nobody asked below_limit

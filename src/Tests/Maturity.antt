-- ===== src/Tests/Maturity.antt =====
-- The theorem on the candidates for the finalizer, with a store and a mailbox of one message.
use inboxlume.Base.{
  ◌≡◌, refl, true, false, ◌&&◌, ◌||◌, List, [], ◌∷◌, none, some, is_some, ok, All, str_eq,
  if◌then◌else◌, any, arith,
}
use inboxlume.Models.{
  EmailCategory, EmailCategory-discrete, category_is, category_in, category_value, is_blank,
}
use inboxlume.Gmail.Transport.{is_identity, all_id_chars, is_id_char}
use inboxlume.Gmail.Finalizer.{MatureQuarantineCandidate, check_mature, destination_of, waited}
use inboxlume.Pipeline.{is_answer, categories, category_from}
use inboxlume.Pipeline.Mature.{
  MatureStore, mature_categories, quiz_answer, mature_record, mature_execution, mature_of,
  mature_matches, mature_at, all_mature, prepare_mature_quarantine_candidates,
}
use inboxlume.Pipeline.Finalizable.{prepare_mature_quarantine_candidates-Finalizable}
use inboxlume.Tests.Data.{ascii, now, day_at, policy}
use inboxlume.Tests.Selection.{store, mailbox}

-- The message was put into quarantine four days ago, and its owner said nothing.
abbrev executed_store : MatureStore
executed_store = record {
  preferences = record store { quiz_answer_for_message_id = λ account provider id. none };
  has_quarantine_finalization_id = λ account provider id profile. false;
  quarantine_pilot_record_for_message_id = λ account provider id profile.
      if str_eq id "m1" then some (day_at 96 20260128, "applied") else none;
}

abbrev mature : List MatureQuarantineCandidate
mature =
    record {
      message_id = "m1";
      category = EmailCategory.advertising;
      quarantined_at = day_at 96 20260128;
      expected_unread = true;
    }
    ∷ []

mature_prepared :
    prepare_mature_quarantine_candidates executed_store policy "full" "hash" now ascii mailbox 1 10
    ≡ ok mature
unfolding prepare_mature_quarantine_candidates mature_matches mature_of mature_execution
    mature_record check_mature mature_at all_mature category_from categories category_value
    category_in category_is EmailCategory-discrete mature_categories any is_blank is_identity
    all_id_chars is_id_char
mature_prepared = refl

prepare_mature_quarantine_candidates-Finalizable_example :
    All
      (λ c.
        ((now.aware && (waited c now && is_some (destination_of c.category))) ≡ true)
        × ((is_answer "keep" (quiz_answer executed_store policy "full" "hash" now c.message_id)
              || is_answer "unsure"
                  (quiz_answer executed_store policy "full" "hash" now c.message_id))
            ≡ false))
      mature
prepare_mature_quarantine_candidates-Finalizable_example =
    prepare_mature_quarantine_candidates-Finalizable executed_store policy "full" "hash" now ascii
      mailbox 1 10 mature now mature_prepared refl (ground arith)

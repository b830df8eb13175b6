-- ===== src/Lib.antt =====
-- InboxLume proposes which messages of a mailbox may be cleaned up. A message is classified by a
-- local model; deterministic guards and the policy of the account turn the classification into a
-- proposal (keep, review, quarantine); the life cycle of a message can prove it obsolete; and the
-- Governor opens or shuts a gate for each family of messages by what the owner answered. This
-- library models these decisions and proves what they guarantee.
--
-- The parts, and the files that model them:
--   Models        src/inboxlume/models.py: `EmailRecord`, `Classification`, `PreferenceSnapshot`,
--                 `PolicyDecision` and the checks of their `__post_init__` (`check_record`, ...).
--   Config        src/inboxlume/config.py: `LearningPolicy`, `AccountPolicy` and their checks.
--   Guardrails    src/inboxlume/semantic_guardrails.py: `tokenize`, `phrase_spans`, `nearby` (in
--                 Guardrails.Spans), the tables of terms (AccessTerms, RecordTerms) and the tests
--                 `access_alert_kind` and `has_permanent_transaction_record`.
--   Policy        src/inboxlume/policy.py: `decide` is `SafetyPolicyEngine.decide`, cut at its blocks:
--                 `protective_reason` and `review_reason` are the guards, `decide_aged`,
--                 `decide_read` and `decide_unread` the tests on age, `weigh_preference` the local
--                 preferences and `decide_content` the judgement of the content.
--   Lifecycle     src/inboxlume/lumegraph.py: the filter `lifecycle_candidate_kind`, the dates of
--                 `verified_expiry_date` (Lifecycle.Dates) and `extract_lifecycle` of the heuristic
--                 extractor (Lifecycle.Heuristic).
--   Obsolescence  src/inboxlume/proof_of_obsolescence.py: the proofs by age, by date and by consensus,
--                 with the guards of the policy; Obsolescence.Successor has the proof by a successor.
--   Governor      src/inboxlume/safety_governor.py: the bounds (Governor.Binomial), the report, and
--                 the gate (Governor.Gate).
--   Drift         src/inboxlume/temporal_drift.py: the windows of recent and earlier answers, and the
--                 families that `evaluate_temporal_preference_drift` restricts.
--   Threats       src/inboxlume/threat_signals.py: `assess_signals` is the end of
--                 `assess_threat_signals`, from the set of signals that were found, and
--                 `combine_threat_assessments` adds the verdict of a local model.
--   Pipeline      src/inboxlume/pipeline.py: the two selections of candidates for quarantine, and in
--                 Pipeline.Mature that of the messages that were in quarantine for three days.
--   Gmail         src/inboxlume/providers/gmail_quarantine.py and gmail_finalizer.py: the allow-lists
--                 of the transports (Gmail.Transport), the label of InboxLume (Labels), the executors
--                 of quarantine, threat marker and direct trash (Executors) and the finalizer
--                 (Finalizer). A method is a function of what was sent and of the labels that the
--                 object remembers (Session); Triples has the rules for what a method sends, Steps
--                 those of the shared methods; Permitted has the transports; Matching the labels
--                 that the finalizer finds; Additions, Moves and Finalization each executor.
--   Backtest      src/inboxlume/safety_backtest.py: a report of the Governor compared with the last
--                 snapshot (Families: the families that it names).
--   LocalModels   src/inboxlume/local_models.py: the catalogue of local models, and
--                 src/inboxlume/direct_trash_guard.py, which asks it.
--   Quiz          src/inboxlume/quiz.py: `select` of the selector (Coverage: its dictionary of
--                 candidates), and the signals of the answers.
--   Sanitizer     src/inboxlume/sanitizer.py: the parser that keeps the visible text of an HTML body, and
--                 the normalisation of a text.
--   Duration      src/inboxlume/duration_estimator.py: the timing samples, the loop of the reference
--                 time, and the interval that is returned.
-- `decide` calls the tests of Guardrails; the proofs call them too and read the reasons of the
-- decision; the gate reads the report and the restricted families; the selections read what the
-- store recorded of decisions, proofs, threats and answers; what a selection returns goes to the
-- executors of Gmail; a backtest evaluates the Governor twice.
--
-- How values are modelled. A raised exception is a `Result`. A probability or a threshold is a number
-- of millionths, so that comparisons of the code's decimal literals are exact; a rate that the
-- Governor computes is a fraction, with the seventy halvings over the denominator
-- `trials * 2 ^ 70`, in which every midpoint is a whole number. A float rounds where these do not.
-- `isinstance` tests and tests for negative counts hold by typing. A moment is a number of
-- microseconds with its local date and whether it has a time zone; a date is the number
-- year * 10000 + month * 100 + day. A frozenset is a list that is only asked for membership.
--
-- What the code takes from Python is an argument: `Platform` has case folding, the tables of spaces
-- and word characters, the values of digits, the parsing of address headers by `email.utils` and
-- the matches of regular expressions; `Libm` has the root of `math.pow`; `Network` has
-- `urllib.parse`, the access token and the answers of Gmail, which may depend on all that was sent
-- before. The protocols of the store and of the mailbox are records of functions
-- (`PreferenceStore`, `MatureStore`, `ReadOnlyMailbox`). Nothing is assumed of any of them. A loop
-- is a recursion on a list, on a text, or on the rounds that are left; only the loop of Duration
-- has fuel, the number of messages, and its theorem says that this is enough.
--
-- Not modelled: the store and its learning (SQLite and cryptography), the calls of local models, the
-- reading of mailboxes and the executors of Yahoo (network), the scan loops of the pipeline, the
-- detection of each threat signal, the factors of an estimated duration (floats), the desktop
-- application and the command line, settings and schedulers; the relation keys of LumeGraph; and the
-- printing of records (`as_dict`).
pub mod Base
pub mod Models
pub mod Guardrails
pub mod Config
pub mod Policy
pub mod Lifecycle
pub mod Obsolescence
pub mod Governor
pub mod Drift
pub mod Threats
pub mod Pipeline
pub mod Gmail
pub mod Quiz
pub mod Duration
pub mod LocalModels
pub mod Backtest
pub mod Sanitizer
pub mod Tests

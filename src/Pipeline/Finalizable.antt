-- ===== src/Pipeline/Finalizable.antt =====
-- What holds of every candidate of `prepare_mature_quarantine_candidates` of src/inboxlume/pipeline.py,
-- and that `finalize` of providers/gmail_finalizer.py does not refuse it.
use Prim.Native.String.{count}
use inboxlume.Base.{
  OnSome, OnOk, OnOk-if, OnOk-bind, OnOk-get, ℕ, ◌+◌, ◌*◌, ◌≡◌, ◌≤◌, refl, Bool, true, false, ◌&&◌,
  ◌||◌, not, String, List, [], ◌∷◌, str_eq, ltb, leb, if◌then◌else◌, Option, none, some, is_some,
  ok, raise, type_error, Result, require, ◌>>=◌, ◌>>◌, any, All, arith,
}
use inboxlume.Models.{
  Platform, Datetime, EmailCategory, EmailCategory-discrete, category_is, category_in, is_blank,
  day,
}
use inboxlume.Config.{AccountPolicy}
use inboxlume.Gmail.Finalizer.{
  MatureQuarantineCandidate, check_mature, destination_of, trash_categories, waited,
  quarantine_delay_days,
}
use inboxlume.Gmail.Transport.{is_identity}
use inboxlume.Pipeline.{
  ReadOnlyMailbox, is_state, is_answer, categories, category_from, search_dates,
}
use inboxlume.Pipeline.Search.{All-map}
use inboxlume.Pipeline.Mature.{
  MatureStore, mature_categories, quiz_answer, mature_record, mature_execution, mature_of,
  is_mature, with_found, mature_matches, mature_at, all_mature,
  prepare_mature_quarantine_candidates,
}

module _ (s : MatureStore) (policy : AccountPolicy) (scan_profile fingerprint : String)
    (now : Datetime) where
  -- What the finalizer asks of a candidate, and that nobody wants the message kept.
  pub record Finalizable (c : MatureQuarantineCandidate) : Type 0 where
    pub old : waited c now ≡ true
    pub allowed : is_some (destination_of c.category) ≡ true
    pub not_kept :
        (is_answer "keep" (quiz_answer s policy scan_profile fingerprint now c.message_id)
          || is_answer "unsure" (quiz_answer s policy scan_profile fingerprint now c.message_id))
        ≡ false

  mature_categories-allowed :
      (category : EmailCategory)
      → category_in category mature_categories ≡ true
      → is_some (destination_of category) ≡ true
  unfolding category_in mature_categories destination_of trash_categories category_is
      EmailCategory-discrete any
  mature_categories-allowed EmailCategory.advertising e = refl
  mature_categories-allowed EmailCategory.banking e = e
  mature_categories-allowed EmailCategory.important e = e
  mature_categories-allowed EmailCategory.medical_legal e = e
  mature_categories-allowed EmailCategory.one_time_code e = refl
  mature_categories-allowed EmailCategory.personal e = e
  mature_categories-allowed EmailCategory.school e = e
  mature_categories-allowed EmailCategory.security e = refl
  mature_categories-allowed EmailCategory.social e = refl
  mature_categories-allowed EmailCategory.spam e = refl
  mature_categories-allowed EmailCategory.transactional e = e
  mature_categories-allowed EmailCategory.other e = e
  mature_categories-allowed EmailCategory.uncertain e = e

  abbrev Found : Option MatureQuarantineCandidate → Type 0
  Found = OnSome Finalizable

  -- A test that ends the search of a message without a candidate.
  unless :
      (b : Bool) (m : Result (Option MatureQuarantineCandidate))
      → (b ≡ false → OnOk Found m)
      → OnOk Found (if b then ok none else m)
  unless true m f = tt
  unless false m f = f refl

  check_mature-keeps :
      (c : MatureQuarantineCandidate) → Finalizable c → OnOk Finalizable (check_mature c)
  unfolding check_mature
  check_mature-keeps c p =
      OnOk-if Finalizable (not (is_identity c.message_id)) _ _ (λ _. tt)
        (λ _. OnOk-if Finalizable (not c.quarantined_at.aware) _ (ok c) (λ _. tt) (λ _. p))

  category_step :
      (id : String) (unread : Bool) (at : Datetime) (found : Result EmailCategory)
      → ltb now.micros (at.micros + quarantine_delay_days * day) ≡ false
      → OnOk Found (elim found [
        | raise _ ↦ ok none
        | ok category ↦
            if not (category_in category mature_categories)
            then ok none
            else if is_answer "keep" (quiz_answer s policy scan_profile fingerprint now id)
                || is_answer "unsure" (quiz_answer s policy scan_profile fingerprint now id)
            then ok none
            else check_mature (record {
              message_id = id;
              category = category;
              quarantined_at = at;
              expected_unread = unread;
            })
              >>= λ c. ok (some c)
      ])
  category_step id unread at (raise _) old = tt
  category_step id unread at (ok category) old =
      unless (not (category_in category mature_categories)) _ (λ listed.
        unless
          (is_answer "keep" (quiz_answer s policy scan_profile fingerprint now id)
            || is_answer "unsure" (quiz_answer s policy scan_profile fingerprint now id))
          _
          (λ free.
            let c : MatureQuarantineCandidate = record {
              message_id = id;
              category = category;
              quarantined_at = at;
              expected_unread = unread;
            } in
            OnOk-bind Finalizable Found (check_mature c) (λ c. ok (some c))
              (check_mature-keeps c (record {
                old = ground (arith, old);
                allowed = mature_categories-allowed category (ground (arith, listed));
                not_kept = free;
              }))
              (λ c p. p)))

  mature_record-Finalizable :
      (id : String) (unread : Bool) (at : Datetime) (found : String × String)
      → ltb now.micros (at.micros + quarantine_delay_days * day) ≡ false
      → OnOk Found (mature_record s policy scan_profile fingerprint now id unread at found)
  unfolding mature_record
  mature_record-Finalizable id unread at (category_text, action) old =
      unless (not (str_eq action "quarantine")) _
        (λ _. category_step id unread at (category_from category_text categories) old)

  mature_execution-Finalizable :
      (id : String) (unread : Bool) (execution : Option (Datetime × String))
      → OnOk Found (mature_execution s policy scan_profile fingerprint now id unread execution)
  unfolding mature_execution
  mature_execution-Finalizable id unread none = tt
  mature_execution-Finalizable id unread (some (at, status)) =
      unless (not (str_eq status "applied" || str_eq status "already_applied")) _ (λ _.
        OnOk-if Found (not at.aware) (raise type_error) _ (λ _. tt)
          (λ _. unless (ltb now.micros (at.micros + quarantine_delay_days * day)) _ (λ old.
            recorded id unread at old (
              s.preferences.shadow_record_for_message_id policy.account_id policy.provider id
                scan_profile))))
    where
      recorded :
          (id : String) (unread : Bool) (at : Datetime)
          → ltb now.micros (at.micros + quarantine_delay_days * day) ≡ false
          → (record_found : Option (String × String))
          → OnOk Found (elim record_found [
            | none ↦ ok none
            | some found ↦ mature_record s policy scan_profile fingerprint now id unread at found
          ])
      recorded id unread at old none = tt
      recorded id unread at old (some found) = mature_record-Finalizable id unread at found old

  mature_of-Finalizable :
      (id : String) (unread : Bool)
      → OnOk Found (mature_of s policy scan_profile fingerprint now id unread)
  unfolding mature_of
  mature_of-Finalizable id unread =
      unless
        (not (
          is_state
            (s.preferences.shadow_recovery_expected_unread policy.account_id policy.provider id
              scan_profile fingerprint)
            unread))
        _
        (λ _.
          unless
            (not (
              s.preferences.has_threat_assessment_id policy.account_id policy.provider id
                scan_profile false))
            _
            (λ _.
              unless
                (s.preferences.threat_protects_message_id policy.account_id policy.provider id
                  scan_profile)
                _
                (λ _.
                  unless
                    (s.has_quarantine_finalization_id policy.account_id policy.provider id
                      scan_profile)
                    _
                    (λ _. mature_execution-Finalizable id unread (
                      s.quarantine_pilot_record_for_message_id policy.account_id policy.provider id
                        scan_profile)))))

  mature_matches-Finalizable :
      (shown : List (String × Bool)) (matched : List MatureQuarantineCandidate)
      → All Finalizable matched
      → OnOk (All Finalizable) (mature_matches s policy scan_profile fingerprint now shown matched)
  unfolding mature_matches
  mature_matches-Finalizable [] matched h = h
  mature_matches-Finalizable ((id, unread) ∷ shown) matched h =
      OnOk-bind Found (All Finalizable) (mature_of s policy scan_profile fingerprint now id unread)
        _ (mature_of-Finalizable id unread)
        (λ found f.
          mature_matches-Finalizable shown
            (with_found s policy scan_profile fingerprint now found matched)
            (with_found-All found f))
    where
      with_found-All :
          (found : Option MatureQuarantineCandidate)
          → Found found
          → All Finalizable (with_found s policy scan_profile fingerprint now found matched)
      with_found-All none f = h
      with_found-All (some c) f = (f, h)

  mature_at-Finalizable :
      (id : String) (matched : List MatureQuarantineCandidate)
      → All Finalizable matched
      → OnOk Finalizable (mature_at s policy scan_profile fingerprint now id matched)
  unfolding mature_at
  mature_at-Finalizable id [] h = tt
  mature_at-Finalizable id (c ∷ matched) (p, h) =
      OnOk-if Finalizable (str_eq id c.message_id) (ok c)
        (mature_at s policy scan_profile fingerprint now id matched) (λ _. p)
        (λ _. mature_at-Finalizable id matched h)

  all_mature-Finalizable :
      (ids : List String) (matched : List MatureQuarantineCandidate)
      → All Finalizable matched
      → OnOk (All Finalizable) (all_mature s policy scan_profile fingerprint now ids matched)
  unfolding all_mature
  all_mature-Finalizable [] matched h = tt
  all_mature-Finalizable (id ∷ ids) matched h =
      OnOk-bind Finalizable (All Finalizable)
        (mature_at s policy scan_profile fingerprint now id matched) _
        (mature_at-Finalizable id matched h)
        (λ c p.
          OnOk-bind (All Finalizable) (All Finalizable)
            (all_mature s policy scan_profile fingerprint now ids matched) (λ rest. ok (c ∷ rest))
            (all_mature-Finalizable ids matched h) (λ rest ps. (p, ps)))

  module _ (py : Platform) (mailbox : ReadOnlyMailbox) (limit search_limit : ℕ) where
    mature-Finalizable : OnOk (All Finalizable) (
        prepare_mature_quarantine_candidates s policy scan_profile fingerprint now py mailbox limit
          search_limit)
    unfolding prepare_mature_quarantine_candidates
    mature-Finalizable = required now.aware _ _ (λ _.
        required (leb 1 limit && leb limit 5 && (leb limit search_limit && leb search_limit 1000)) _
          _
          (λ _.
            required (not (is_blank py.is_space scan_profile) && leb (count scan_profile) 100) _ _
              (λ _. required mailbox.exactly_read_only _ _ (λ _.
                OnOk-bind (All Finalizable) (All Finalizable)
                  (mature_matches s policy scan_profile fingerprint now
                    (mailbox.shown (search_dates policy now) limit search_limit
                      (is_mature s policy scan_profile fingerprint now))
                    [])
                  (λ matched.
                    all_mature s policy scan_profile fingerprint now
                      (mailbox.returned (search_dates policy now) limit search_limit
                        (is_mature s policy scan_profile fingerprint now))
                      matched)
                  (mature_matches-Finalizable _ [] tt)
                  (λ matched h. all_mature-Finalizable _ matched h)))))
      where
        required :
            (b : Bool) (message : String) (m : Result (List MatureQuarantineCandidate))
            → (b ≡ true → OnOk (All Finalizable) m)
            → OnOk (All Finalizable) (require b message >> m)
        required true message m f = f refl
        required false message m f = tt

    -- Whatever the mailbox shows and returns and whatever the store says: at that moment and later, at a
    -- time with a zone, the finalizer does not refuse a candidate of the selection for its age or its
    -- category, and no candidate has an answer to keep it or an uncertain one.
    pub prepare_mature_quarantine_candidates-Finalizable :
        (found : List MatureQuarantineCandidate) (later : Datetime)
        → prepare_mature_quarantine_candidates s policy scan_profile fingerprint now py mailbox
            limit search_limit
          ≡ ok found
        → later.aware ≡ true
        → now.micros ≤ later.micros
        → All
            (λ c.
              ((later.aware && (waited c later && is_some (destination_of c.category))) ≡ true)
              × ((is_answer "keep" (quiz_answer s policy scan_profile fingerprint now c.message_id)
                    || is_answer "unsure"
                        (quiz_answer s policy scan_profile fingerprint now c.message_id))
                  ≡ false))
            found
    prepare_mature_quarantine_candidates-Finalizable found later e aware after =
        All-map found (λ c f. (ground (arith, aware, after, f.old, f.allowed), f.not_kept))
          (OnOk-get (All Finalizable) _ found e mature-Finalizable)

-- ===== src/Gmail/Moves.antt =====
-- What `GmailDirectTrashExecutor` and `GmailQuarantineFinalizer` of
-- src/inboxlume/providers/gmail_finalizer.py send, and what was read before.
use inboxlume.Base.{
  OnSome, OnOk, ◌≡◌, refl, sym, subst, Bool, true, false, ◌&&◌, not, String, ◌<>◌, List, [], ◌∷◌,
  Option, none, some, contains, intersects, finalization_error, arith,
}
use inboxlume.Gmail.Json.{JsonFields, no_fields, get_field, is_text}
use inboxlume.Gmail.Session.{Request, get_request, post_request, Session, pure}
use inboxlume.Gmail.Triples.{Sent, Triple, Triple-pure, Triple-weaken, Triple-check, Triple-bind}
use inboxlume.Gmail.Transport.{Network, trash_rules, gmail_origin, is_identity}
use inboxlume.Gmail.Labels.{message_path, message_url}
use inboxlume.Gmail.Executors.{
  FinalizationOutcome, finalization_changes_mailbox, cancelled, in_inbox, has_star, same_state,
  forbidden_source_labels, has_label, move_to_trash, apply_direct_trash,
}
use inboxlume.Gmail.Steps.{Answered, LabelsRead, Triple-post_json, Triple-message_labels}

-- The labels of a message that may be moved: it is in the inbox and in no other place, it is in the
-- expected read state, and it has no star and no importance mark.
abbrev pub may_move : Bool → List String → Bool
may_move expected_unread labels =
    not (intersects labels ("TRASH" ∷ "SPAM" ∷ []))
    && (in_inbox forbidden_source_labels labels
        && (same_state (contains "UNREAD" labels) expected_unread && not (has_star labels)))

-- The labels end the method exactly when the message may not be moved, and then nothing is changed.
pub cancelled-none :
    (expected_unread : Bool) (labels : List String)
    → cancelled expected_unread labels ≡ none
    → may_move expected_unread labels ≡ true
unfolding cancelled
cancelled-none expected_unread labels e = ground arith

pub cancelled-some :
    (expected_unread : Bool) (labels : List String) (outcome : FinalizationOutcome)
    → cancelled expected_unread labels ≡ some outcome
    → (may_move expected_unread labels ≡ false) × (finalization_changes_mailbox outcome ≡ false)
unfolding cancelled
cancelled-some expected_unread labels outcome e = ground arith

abbrev pub trash_request : Network → String → Request
trash_request net id = post_request (gmail_origin <> message_path net id "/trash") no_fields

-- A request of the executor that moves to the trash.
pub data TrashRequest (net : Network) (expected_unread : Bool) (id : String)
    : Request → List Request → Type 0 where
  reads_message :
      {h : List Request} → TrashRequest net expected_unread id (get_request (message_url net id)) h
  trashes :
      {h : List Request} (labels : List String)
      → LabelsRead net trash_rules (λ _. Unit {0}) id labels h
      → may_move expected_unread labels ≡ true
      → TrashRequest net expected_unread id (trash_request net id) h

-- What it reports, and what was sent until then.
pub data TrashReported (net : Network) (expected_unread : Bool) (id : String)
    : FinalizationOutcome → List Request → Type 0 where
  moved :
      {h : List Request} (labels : List String)
      → LabelsRead net trash_rules (λ _. Unit {0}) id labels h
      → may_move expected_unread labels ≡ true
      → TrashReported net expected_unread id FinalizationOutcome.moved_to_trash
          (trash_request net id ∷ h)
  left :
      {h : List Request} (labels : List String) (outcome : FinalizationOutcome)
      → LabelsRead net trash_rules (λ _. Unit {0}) id labels h
      → may_move expected_unread labels ≡ false
      → finalization_changes_mailbox outcome ≡ false
      → TrashReported net expected_unread id outcome h

module _ (net : Network) (expected_unread : Bool) (id : String) where
  abbrev AnyCache : Unit {0} → Type 0
  AnyCache _ = Unit

  abbrev Read : List String → List Request → Type 0
  Read labels = LabelsRead net trash_rules (λ _. Unit {0}) id labels

  Triple-move_to_trash :
      (labels : List String)
      → may_move expected_unread labels ≡ true
      → Triple
          (TrashRequest net expected_unread id)
          AnyCache
          (λ s. Read labels s.sent)
          (move_to_trash net id)
          (λ outcome s. TrashReported net expected_unread id outcome s.sent)
  unfolding move_to_trash
  Triple-move_to_trash labels fit =
      Triple-bind
        (Triple-post_json net trash_rules (Read labels)
          (gmail_origin <> message_path net id "/trash") no_fields (λ h r. trashes labels r fit))
        (λ changed.
          Triple-bind
            (Triple-check (is_text id (get_field "id" changed))
              (finalization_error "risposta Gmail Cestino non corrispondente"))
            (λ _.
              Triple-bind
                (Triple-check (has_label net "TRASH" changed)
                  (finalization_error "Gmail non ha confermato il Cestino"))
                (λ _.
                  Triple-weaken (λ s p. after_move s.sent p.1.1) (λ _ _ q. q)
                    (Triple-pure
                      {Post = λ outcome s. TrashReported net expected_unread id outcome s.sent}
                      FinalizationOutcome.moved_to_trash))))
    where
      after_move :
          {answer : JsonFields} (h : List Request)
          → Answered net trash_rules (trash_request net id) (Read labels) answer h
          → TrashReported net expected_unread id FinalizationOutcome.moved_to_trash h
      after_move h a =
          subst (TrashReported net expected_unread id FinalizationOutcome.moved_to_trash)
            (sym a.newest) (moved labels a.held fit)

  trash_step :
      (labels : List String) (ended : Option FinalizationOutcome)
      → cancelled expected_unread labels ≡ ended
      → Triple
          (TrashRequest net expected_unread id)
          AnyCache
          (λ s. Read labels s.sent)
          (elim ended [ some outcome ↦ pure outcome | none ↦ move_to_trash net id ])
          (λ outcome s. TrashReported net expected_unread id outcome s.sent)
  trash_step labels none e = Triple-move_to_trash labels (cancelled-none expected_unread labels e)
  trash_step labels (some outcome) e =
      let (unfit, unchanged) = cancelled-some expected_unread labels outcome e in
      Triple-weaken (λ s r. left labels outcome r unfit unchanged) (λ _ _ q. q)
        (Triple-pure {Post = λ outcome s. TrashReported net expected_unread id outcome s.sent}
          outcome)

  Triple-apply_direct_trash :
      Triple
        (TrashRequest net expected_unread id)
        AnyCache
        (λ s. Unit {0})
        (apply_direct_trash net id expected_unread)
        (λ outcome s. TrashReported net expected_unread id outcome s.sent)
  unfolding apply_direct_trash
  Triple-apply_direct_trash =
      Triple-bind
        (Triple-check (is_identity id) (finalization_error "ID messaggio Gmail non valido"))
        (λ _.
          Triple-bind
            (Triple-weaken (λ s p. tt) (λ _ _ q. q)
              (Triple-message_labels net trash_rules (λ _. Unit {0}) id (λ h _. reads_message)))
            (λ labels. trash_step labels (cancelled expected_unread labels) refl))

  -- Whatever the network answers, and whether the call returns or raises: the executor that moves a
  -- message to the trash sends nothing but a request that reads this message, and a request that moves
  -- this message to the trash right after it was read in the inbox and in no other place, in the expected
  -- read state and without a star or an importance mark. If it returns `moved_to_trash`, the last request
  -- was that one; any other outcome says that the message may not be moved, and it stays where it is.
  pub apply_direct_trash-Reported :
      (s : Session (Unit {0}))
      → (let (r, s') = apply_direct_trash net id expected_unread s in
          Sent (TrashRequest net expected_unread id) s.sent s'.sent
          × OnOk (λ outcome. TrashReported net expected_unread id outcome s'.sent) r)
  apply_direct_trash-Reported s =
      let (_, requests, reports) = Triple-apply_direct_trash.run s (any_cache s.cache) tt in
      (requests, reports)
    where
      any_cache : (cache : Option (Unit {0})) → OnSome AnyCache cache
      any_cache none = tt
      any_cache (some c) = tt

-- ===== src/Gmail/Finalization.antt =====
-- What `GmailQuarantineFinalizer` of src/inboxlume/providers/gmail_finalizer.py sends, and what was read
-- before.
use inboxlume.Base.{
  OnSome, OnOk, ◌≡◌, refl, sym, subst, true, false, ◌&&◌, not, String, ◌<>◌, List, [], ◌∷◌, Option,
  none, some, ok, raise, intersects, finalization_error, value_error, arith, Option-cases,
  Bool-cases, is_some, All, inl, inr,
}
use inboxlume.Models.{Datetime}
use inboxlume.Gmail.Json.{JsonItems, JsonFields, no_fields, get_field, is_text}
use inboxlume.Gmail.Session.{Request, Session, pure, ◌>>=◌}
use inboxlume.Gmail.Triples.{
  Sent, Triple, Triple-pure, Triple-fail, Triple-lift, Triple-if, Triple-weaken, Triple-given,
  Triple-check, Triple-remember, Triple-remembered, Triple-bind,
}
use inboxlume.Gmail.Transport.{Network, finalization_rules, gmail_origin}
use inboxlume.Gmail.Labels.{message_path, lists, message_labels}
use inboxlume.Gmail.Executors.{FinalizationOutcome, cancelled}
use inboxlume.Gmail.Finalizer.{
  MatureQuarantineCandidate, Destination, destination_of, waited, Matches, match_labels,
  label_values, keep_labels, find_labels, required_labels, confirm_move, spam_payload, move_to,
  move_labelled, finalize,
}
use inboxlume.Gmail.Steps.{
  Answered, LabelsRead, Triple-post_json, Triple-message_labels, Listing, Triple-listed_from,
}
use inboxlume.Gmail.Moves.{may_move, cancelled-none, cancelled-some}
use inboxlume.Gmail.Matching.{match_labels-ListsLabel}
use inboxlume.Gmail.Finals.{
  move_request, outcome_of, Seen, just_read, listed, ListsLabel, FromListing, Movable, FinalRequest,
  reads_message, lists_labels, moves, Finalized, moved, left, released,
}

module _ (net : Network) (c : MatureQuarantineCandidate) (destination : Destination) where
  abbrev Sends : Request → List Request → Type 0
  Sends = FinalRequest net c destination

  module _ (labels : List String) (fit : may_move c.expected_unread labels ≡ true) where
    abbrev Ready : List Request → Type 0
    Ready = Seen net c.message_id labels

    Triple-keep_labels :
        (entries : JsonItems) (matches : Matches)
        → match_labels entries [] ≡ ok matches
        → Listing net finalization_rules entries
        → Triple Sends
            (FromListing net)
            (λ s. Ready s.sent)
            (keep_labels matches)
            (λ required s. FromListing net required × Ready s.sent)
    unfolding keep_labels
    Triple-keep_labels entries [] e l = Triple-fail _
    Triple-keep_labels entries (row ∷ matches) e l =
        let from : FromListing net (label_values (row ∷ matches)) = record {
          before = l.before;
          response = l.response;
          reply = l.reply;
          listed =
              subst (λ items. All (λ label. ListsLabel label items) (label_values (row ∷ matches)))
                l.items (match_labels-ListsLabel entries (row ∷ matches) e);
        } in
        Triple-bind (Triple-remember Ready (label_values (row ∷ matches)) (λ h _. from)) (λ _.
          Triple-weaken (λ s r. (from, r)) (λ _ _ q. q)
            (Triple-pure {Post = λ required s. FromListing net required × Ready s.sent}
              (label_values (row ∷ matches))))

    Triple-find_labels :
        Triple Sends
          (FromListing net)
          (λ s. Ready s.sent)
          (find_labels net)
          (λ required s. FromListing net required × Ready s.sent)
    unfolding find_labels
    Triple-find_labels =
        Triple-bind
          (Triple-listed_from net finalization_rules Ready (λ h k. lists_labels labels k fit)
            (λ h k. listed k))
          (λ entries. Triple-given (λ l.
            Triple-bind
              (Triple-lift
                {Post = λ matches s. (match_labels entries [] ≡ ok matches) × Ready s.sent}
                (match_labels entries []) (λ s matches e k. (e, k)))
              (λ matches. Triple-given (λ e. Triple-keep_labels entries matches e l))))

    Triple-required_labels :
        Triple Sends
          (FromListing net)
          (λ s. Ready s.sent)
          (required_labels net)
          (λ required s. FromListing net required × Ready s.sent)
    unfolding required_labels
    Triple-required_labels = Triple-bind Triple-remembered known_labels
      where
        known_labels :
            (known : Option (List String))
            → Triple Sends
                (FromListing net)
                (λ s. OnSome (FromListing net) known × Ready s.sent)
                (elim known [ some labels ↦ pure labels | none ↦ find_labels net ])
                (λ required s. FromListing net required × Ready s.sent)
        known_labels none = Triple-weaken (λ s p. p.1) (λ _ _ q. q) Triple-find_labels
        known_labels (some required) =
            Triple-pure {Post = λ required s. FromListing net required × Ready s.sent} required

  Triple-confirm_move :
      (expected_label : String) (changed : JsonFields)
      → Triple Sends
          (FromListing net)
          (λ s.
            Answered net finalization_rules
              (move_request net c.message_id destination)
              (Movable net c)
              changed
              s.sent)
          (confirm_move c.message_id expected_label (outcome_of destination) changed)
          (λ outcome s. Finalized net c destination outcome s.sent)
  unfolding confirm_move
  Triple-confirm_move expected_label changed =
      Triple-bind
        (Triple-check (is_text c.message_id (get_field "id" changed))
          (finalization_error "risposta finale Gmail non corrispondente"))
        (λ _.
          Triple-bind
            (Triple-check (lists expected_label (get_field "labelIds" changed))
              (finalization_error "Gmail non ha confermato la destinazione"))
            (λ _.
              Triple-weaken (λ s p. after_move s.sent p.1.1) (λ _ _ q. q)
                (Triple-pure {Post = λ outcome s. Finalized net c destination outcome s.sent}
                  (outcome_of destination))))
    where
      after_move :
          {answer : JsonFields} (h : List Request)
          → Answered net finalization_rules
              (move_request net c.message_id destination)
              (Movable net c)
              answer
              h
          → Finalized net c destination (outcome_of destination) h
      after_move h a =
          subst (Finalized net c destination (outcome_of destination)) (sym a.newest) (moved a.held)

module _ (net : Network) (c : MatureQuarantineCandidate) where
  Triple-move_to :
      (destination : Destination)
      → Triple
          (FinalRequest net c destination)
          (FromListing net)
          (λ s. Movable net c s.sent)
          (move_to net c.message_id destination)
          (λ outcome s. Finalized net c destination outcome s.sent)
  unfolding move_to
  Triple-move_to Destination.trash =
      Triple-bind
        (Triple-post_json net finalization_rules (Movable net c)
          (gmail_origin <> message_path net c.message_id "/trash") no_fields (λ h m. moves m))
        (Triple-confirm_move net c Destination.trash "TRASH")
  Triple-move_to Destination.spam =
      Triple-bind
        (Triple-post_json net finalization_rules (Movable net c)
          (gmail_origin <> message_path net c.message_id "/modify") spam_payload (λ h m. moves m))
        (Triple-confirm_move net c Destination.spam "SPAM")

  module _ (destination : Destination) where
    abbrev Ends : FinalizationOutcome → List Request → Type 0
    Ends = Finalized net c destination

    Triple-move_labelled :
        (labels : List String)
        → may_move c.expected_unread labels ≡ true
        → Triple
            (FinalRequest net c destination)
            (FromListing net)
            (λ s. Seen net c.message_id labels s.sent)
            (move_labelled net c.message_id labels destination)
            (λ outcome s. Ends outcome s.sent)
    unfolding move_labelled
    Triple-move_labelled labels fit =
        Triple-bind (Triple-required_labels net c destination labels fit) (λ required.
          Triple-if (not (intersects labels required))
            (λ lacks.
              Triple-weaken (λ s p. released labels required p.1 p.0 (ground (arith, lacks)))
                (λ _ _ q. q)
                (Triple-pure {Post = λ outcome s. Ends outcome s.sent}
                  FinalizationOutcome.cancelled_label_removed))
            (λ has.
              Triple-weaken
                (λ s p. record {
                  labels = labels;
                  required = required;
                  seen = p.1;
                  fit = fit;
                  from_listing = p.0;
                  in_quarantine = ground (arith, has);
                })
                (λ _ _ q. q) (Triple-move_to destination)))

    labels_step :
        (labels : List String) (ended : Option FinalizationOutcome)
        → cancelled c.expected_unread labels ≡ ended
        → Triple
            (FinalRequest net c destination)
            (FromListing net)
            (λ s. LabelsRead net finalization_rules (λ _. Unit {0}) c.message_id labels s.sent)
            (elim ended [
              | some outcome ↦ pure outcome
              | none ↦ move_labelled net c.message_id labels destination
            ])
            (λ outcome s. Ends outcome s.sent)
    labels_step labels none e =
        Triple-weaken (λ s r. just_read r) (λ _ _ q. q)
          (Triple-move_labelled labels (cancelled-none c.expected_unread labels e))
    labels_step labels (some outcome) e =
        let (unfit, unchanged) = cancelled-some c.expected_unread labels outcome e in
        Triple-weaken (λ s r. left labels outcome (just_read r) unfit unchanged) (λ _ _ q. q)
          (Triple-pure {Post = λ outcome s. Ends outcome s.sent} outcome)

    Triple-read_and_move :
        Triple
          (FinalRequest net c destination)
          (FromListing net)
          (λ s. Unit {0})
          (message_labels net finalization_rules c.message_id >>= λ labels.
            elim (cancelled c.expected_unread labels) [
              | some outcome ↦ pure outcome
              | none ↦ move_labelled net c.message_id labels destination
            ])
          (λ outcome s. Ends outcome s.sent)
    Triple-read_and_move =
        Triple-bind
          (Triple-weaken (λ s p. tt) (λ _ _ q. q)
            (Triple-message_labels net finalization_rules (λ _. Unit {0}) c.message_id
              (λ h _. reads_message)))
          (λ labels. labels_step labels (cancelled c.expected_unread labels) refl)

  finalize_allowed :
      (now : Datetime) (destination : Destination) (s : Session (List String))
      → now.aware ≡ true
      → waited c now ≡ true
      → destination_of c.category ≡ some destination
      → finalize net c now s
        ≡ (message_labels net finalization_rules c.message_id >>= λ labels.
              elim (cancelled c.expected_unread labels) [
                | some outcome ↦ pure outcome
                | none ↦ move_labelled net c.message_id labels destination
              ])
            s
  unfolding finalize
  finalize_allowed now destination s aware old allowed = rw (aware, old, allowed)

  -- Whatever the network answers, and whether the call returns or raises: `finalize` of a message whose
  -- category has a destination, at a time that knows its zone and at least three days after the quarantine
  -- began, sends nothing but requests that read the message or the list of labels, and the request that
  -- moves this message to the destination of its category. It moves the message only after it was read in
  -- the inbox and in no other place, in the expected read state, without a star or an importance mark, and
  -- with a label that this network, asked for the list of labels, answered as a label of the user with one
  -- of the two names of quarantine. If it returns, the outcome is the one of what was sent. The labels that
  -- the session remembers at the start must come from such an answer too.
  pub finalize-Finalized :
      (now : Datetime) (destination : Destination) (s : Session (List String))
      → now.aware ≡ true
      → waited c now ≡ true
      → destination_of c.category ≡ some destination
      → OnSome (FromListing net) s.cache
      → (let (r, s') = finalize net c now s in
          OnSome (FromListing net) s'.cache
          × Sent (FinalRequest net c destination) s.sent s'.sent
          × OnOk (λ outcome. Finalized net c destination outcome s'.sent) r)
  finalize-Finalized now destination s aware old allowed cache =
      subst
        (λ (r, s').
          OnSome (FromListing net) s'.cache
          × Sent (FinalRequest net c destination) s.sent s'.sent
          × OnOk (λ outcome. Finalized net c destination outcome s'.sent) r)
        (sym (finalize_allowed now destination s aware old allowed))
        ((Triple-read_and_move destination).run s cache tt)

  -- `finalize` at a time without a zone, before three days have passed, or of a message whose category
  -- has no destination, raises a `ValueError`: it sends nothing and remembers nothing.
  pub finalize-refusal :
      (now : Datetime) (s : Session (List String))
      → now.aware && (waited c now && is_some (destination_of c.category)) ≡ false
      → (message : String) × (finalize net c now s ≡ (raise (value_error message), s))
  unfolding finalize
  finalize-refusal now s e = elim (Bool-cases now.aware) [
    | inl aware ↦ elim (Bool-cases (waited c now)) [
      | inl old ↦ elim (Option-cases (destination_of c.category)) [
        | inl refused ↦ ("categoria non autorizzata alla finalizzazione", rw (aware, old, refused))
        | inr (destination, allowed) ↦ ground (arith, aware, old, allowed, e)
      ]
      | inr young ↦ ("la quarantena non ha ancora raggiunto tre giorni", rw (aware, young))
    ]
    | inr naive ↦ ("now deve includere il fuso orario", rw naive)
  ]

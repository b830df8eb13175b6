-- ===== src/Gmail/Labelling.antt =====
-- That finding, creating and adding a label sends no more than `LabelRequest` says; for the executors of
-- src/inboxlume/providers/gmail_quarantine.py.
use inboxlume.Base.{
  OnSome, OnOk-get, ◌≡◌, sym, subst, Bool, true, false, String, ◌<>◌, List, [], ◌∷◌, Option, none,
  some, All, contains, quarantine_error,
}
use inboxlume.Gmail.Json.{JsonFields, get_field, is_text}
use inboxlume.Gmail.Session.{Request, post_request, pure, remember, ◌>>=◌}
use inboxlume.Gmail.Triples.{
  Triple, Triple-pure, Triple-fail, Triple-lift, Triple-if, Triple-weaken, Triple-given,
  Triple-check, Triple-remember, Triple-remembered, Triple-bind,
}
use inboxlume.Gmail.Transport.{Network, quarantine_rules, gmail_origin, labels_path}
use inboxlume.Gmail.Labels.{
  LabelKind, message_path, creation_payload, addition_payload, validated_label_id, matching_labels,
  create_label, choose_label, find_label, ensure_label,
}
use inboxlume.Gmail.Executors.{add_label}
use inboxlume.Gmail.Steps.{Answered, Triple-post_json, Triple-listed_labels}
use inboxlume.Gmail.Requests.{
  Known, looked, made, LabelRequest, lists_labels, creates, adds, Reported, added, had_it,
  IsUserLabel, validated_label_id-IsUserLabel, matching_labels-IsUserLabel,
}

module _ (net : Network) (kind : LabelKind) (fits : List String → Bool) (id : String) where
  abbrev Sends : Request → List Request → Type 0
  Sends = LabelRequest net kind fits id

  module _ (labels : List String) (fit : fits labels ≡ true) where
    abbrev Ready : List Request → Type 0
    Ready = Known net kind id labels

    -- The label is remembered and returned.
    keep_label :
        (label : String)
        → Triple Sends IsUserLabel
            (λ s. IsUserLabel label × Ready s.sent)
            (remember label >>= λ _. pure label)
            (λ label s. IsUserLabel label × Ready s.sent)
    keep_label label =
        Triple-bind (Triple-remember (λ h. IsUserLabel label × Ready h) label (λ h p. p.0))
          (λ _. Triple-pure {Post = λ label s. IsUserLabel label × Ready s.sent} label)

    Triple-create_label :
        Triple Sends IsUserLabel
          (λ s. Ready s.sent)
          (create_label kind net)
          (λ label s. IsUserLabel label × Ready s.sent)
    unfolding create_label
    Triple-create_label =
        Triple-bind
          (Triple-post_json net quarantine_rules Ready (gmail_origin <> labels_path)
            (creation_payload kind.label_name) (λ h k. creates labels k fit))
          (λ created.
            Triple-bind
              (Triple-check (is_text kind.label_name (get_field "name" created))
                (quarantine_error kind.unexpected_text))
              (λ _.
                Triple-bind
                  (Triple-lift {Post = λ label s. IsUserLabel label × Ready s.sent}
                    (validated_label_id (get_field "id" created))
                    (λ s label e p. (
                      OnOk-get IsUserLabel _ label e
                          (validated_label_id-IsUserLabel (get_field "id" created)),
                      after_creation s.sent p.1,
                    )))
                  keep_label))
      where
        after_creation :
            {answer : JsonFields} (h : List Request)
            → Answered net quarantine_rules
                (post_request (gmail_origin <> labels_path) (creation_payload kind.label_name))
                Ready
                answer
                h
            → Ready h
        after_creation h a = subst Ready (sym a.newest) (made a.held)

    Triple-choose_label :
        (found : List String)
        → All IsUserLabel found
        → Triple Sends IsUserLabel
            (λ s. Ready s.sent)
            (choose_label kind net found)
            (λ label s. IsUserLabel label × Ready s.sent)
    unfolding choose_label
    Triple-choose_label [] a = Triple-create_label
    Triple-choose_label (label ∷ []) a =
        Triple-weaken (λ s k. (a.0, k)) (λ _ _ q. q) (keep_label label)
    Triple-choose_label (_ ∷ _ ∷ _) a = Triple-fail _

    Triple-find_label :
        Triple Sends IsUserLabel
          (λ s. Ready s.sent)
          (find_label kind net)
          (λ label s. IsUserLabel label × Ready s.sent)
    unfolding find_label
    Triple-find_label =
        Triple-bind
          (Triple-listed_labels net quarantine_rules Ready (λ h k. lists_labels labels k fit)
            (λ h k. looked k))
          (λ listed.
            Triple-bind
              (Triple-lift {Post = λ found s. All IsUserLabel found × Ready s.sent}
                (matching_labels kind listed)
                (λ s found e k. (
                  OnOk-get (All IsUserLabel) _ found e (matching_labels-IsUserLabel kind listed),
                  k,
                )))
              (λ found. Triple-given (Triple-choose_label found)))

    pub Triple-ensure_label :
        Triple Sends IsUserLabel
          (λ s. Ready s.sent)
          (ensure_label kind net)
          (λ label s. IsUserLabel label × Ready s.sent)
    unfolding ensure_label
    Triple-ensure_label = Triple-bind Triple-remembered known_label
      where
        known_label :
            (known : Option String)
            → Triple Sends IsUserLabel
                (λ s. OnSome IsUserLabel known × Ready s.sent)
                (elim known [ some label ↦ pure label | none ↦ find_label kind net ])
                (λ label s. IsUserLabel label × Ready s.sent)
        known_label none = Triple-weaken (λ s p. p.1) (λ _ _ q. q) Triple-find_label
        known_label (some label) =
            Triple-pure {Post = λ label s. IsUserLabel label × Ready s.sent} label

    module _ {A : Type 0} (confirmed : String → JsonFields → Bool) (refusal : String)
        (done unchanged : A) (skips : A → Bool) where
      abbrev Reports : A → List Request → Type 0
      Reports = Reported net kind fits id done unchanged skips

      pub Triple-add_label :
          Triple Sends IsUserLabel
            (λ s. Ready s.sent)
            (add_label net kind confirmed refusal done unchanged id labels)
            (λ outcome s. Reports outcome s.sent)
      unfolding add_label
      Triple-add_label = Triple-bind Triple-ensure_label (λ label.
          Triple-if (contains label labels)
            (λ has.
              Triple-weaken (λ s p. had_it labels label p.1 has) (λ _ _ q. q)
                (Triple-pure {Post = λ outcome s. Reports outcome s.sent} unchanged))
            (λ lacks.
              Triple-bind
                (Triple-post_json net quarantine_rules (λ h. IsUserLabel label × Ready h)
                  (gmail_origin <> message_path net id "/modify") (addition_payload label)
                  (λ h p. adds labels label p.1 fit p.0 lacks))
                (λ changed.
                  Triple-bind
                    (Triple-check (is_text id (get_field "id" changed))
                      (quarantine_error "risposta modifica Gmail non corrispondente"))
                    (λ _.
                      Triple-bind
                        (Triple-check (confirmed label changed) (quarantine_error refusal))
                        (λ _.
                          Triple-weaken (λ s p. after_addition label lacks s.sent p.1.1)
                            (λ _ _ q. q)
                            (Triple-pure {Post = λ outcome s. Reports outcome s.sent} done))))))
        where
          after_addition :
              {answer : JsonFields} (label : String)
              → contains label labels ≡ false
              → (h : List Request)
              → Answered net quarantine_rules
                  (post_request
                    (gmail_origin <> message_path net id "/modify")
                    (addition_payload label))
                  (λ h. IsUserLabel label × Ready h)
                  answer
                  h
              → Reports done h
          after_addition label lacks h a =
              subst (Reports done) (sym a.newest) (added labels label a.held.1 fit a.held.0 lacks)

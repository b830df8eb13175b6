-- ===== src/Gmail/Additions.antt =====
-- That the two executors of src/inboxlume/providers/gmail_quarantine.py send and report no more than
-- `LabelRequest` and `Reported` say.
use inboxlume.Base.{
  OnSome, OnOk, ◌≡◌, refl, Bool, true, false, ◌&&◌, not, String, List, contains, quarantine_error,
  arith,
}
use inboxlume.Gmail.Session.{Request, Session, pure}
use inboxlume.Gmail.Triples.{
  Sent, Triple, Triple-pure, Triple-if, Triple-weaken, Triple-check, Triple-bind,
}
use inboxlume.Gmail.Transport.{Network, quarantine_rules, is_identity}
use inboxlume.Gmail.Labels.{quarantine_kind, threat_kind}
use inboxlume.Gmail.Executors.{
  QuarantineOutcome, ThreatMarkerOutcome, in_inbox, has_star, same_state, forbidden_input_labels,
  has_label, apply_label_quarantine, apply_threat_marker,
}
use inboxlume.Gmail.Steps.{LabelsRead, Triple-message_labels}
use inboxlume.Gmail.Requests.{
  LabelRequest, reads_message, Reported, skipped, IsUserLabel, just_read,
}
use inboxlume.Gmail.Labelling.{Triple-add_label}

-- What `apply_label_quarantine` asks of the labels of the message.
abbrev pub may_quarantine : Bool → List String → Bool
may_quarantine expected_unread labels =
    in_inbox forbidden_input_labels labels
    && (same_state (contains "UNREAD" labels) expected_unread && not (has_star labels))

abbrev pub quarantine_skips : QuarantineOutcome → Bool
quarantine_skips QuarantineOutcome.skipped_not_inbox = true
quarantine_skips QuarantineOutcome.skipped_protected = true
quarantine_skips _ = false

abbrev pub marker_skips : ThreatMarkerOutcome → Bool
marker_skips ThreatMarkerOutcome.skipped_not_inbox = true
marker_skips _ = false

module _ (net : Network) (id : String) where
  module _ (expected_unread : Bool) where
    abbrev QuarantineSends : Request → List Request → Type 0
    QuarantineSends = LabelRequest net quarantine_kind (may_quarantine expected_unread) id

    abbrev QuarantineReports : QuarantineOutcome → List Request → Type 0
    QuarantineReports =
        Reported net quarantine_kind (may_quarantine expected_unread) id QuarantineOutcome.applied
          QuarantineOutcome.already_applied quarantine_skips

    Triple-skip :
        (labels : List String) (outcome : QuarantineOutcome)
        → may_quarantine expected_unread labels ≡ false
        → quarantine_skips outcome ≡ true
        → Triple QuarantineSends IsUserLabel
            (λ s. LabelsRead net quarantine_rules (λ _. Unit {0}) id labels s.sent)
            (pure outcome)
            (λ outcome s. QuarantineReports outcome s.sent)
    Triple-skip labels outcome unfit skips =
        Triple-weaken (λ s r. skipped labels outcome (just_read r) unfit skips) (λ _ _ q. q)
          (Triple-pure {Post = λ outcome s. QuarantineReports outcome s.sent} outcome)

    Triple-apply_label_quarantine :
        Triple QuarantineSends IsUserLabel
          (λ s. Unit {0})
          (apply_label_quarantine net id expected_unread)
          (λ outcome s. QuarantineReports outcome s.sent)
    unfolding apply_label_quarantine
    Triple-apply_label_quarantine =
        Triple-bind
          (Triple-check (is_identity id) (quarantine_error "ID messaggio Gmail non valido"))
          (λ _.
            Triple-bind
              (Triple-weaken (λ s p. tt) (λ _ _ q. q)
                (Triple-message_labels net quarantine_rules (λ _. Unit {0}) id
                  (λ h _. reads_message)))
              (λ labels.
                Triple-if (not (in_inbox forbidden_input_labels labels))
                  (λ out.
                    Triple-skip labels QuarantineOutcome.skipped_not_inbox (ground (arith, out))
                      refl)
                  (λ inside.
                    Triple-if (not (same_state (contains "UNREAD" labels) expected_unread))
                      (λ changed.
                        Triple-skip labels QuarantineOutcome.skipped_protected
                          (ground (arith, inside, changed)) refl)
                      (λ same.
                        Triple-if (has_star labels)
                          (λ star.
                            Triple-skip labels QuarantineOutcome.skipped_protected
                              (ground (arith, inside, same, star)) refl)
                          (λ plain.
                            Triple-weaken (λ s r. just_read r) (λ _ _ q. q)
                              (Triple-add_label net quarantine_kind (may_quarantine expected_unread)
                                id labels (ground (arith, inside, same, plain)) (has_label net)
                                "Gmail non ha confermato l'etichetta quarantena"
                                QuarantineOutcome.applied QuarantineOutcome.already_applied
                                quarantine_skips))))))

    -- Whatever the network answers, and whether the call returns or raises: each request that the
    -- quarantine executor sends reads the message or the list of labels, creates the label of quarantine,
    -- or adds it; it adds one label, which a user may have and the message lacks, and only after the
    -- message was read in the inbox, in the expected read state and without a star or an importance mark.
    -- The label it remembers stays one that a user may have. If it returns, the outcome is the one of what
    -- was sent.
    pub apply_label_quarantine-Reported :
        (s : Session String)
        → OnSome IsUserLabel s.cache
        → (let (r, s') = apply_label_quarantine net id expected_unread s in
            OnSome IsUserLabel s'.cache
            × Sent
                (LabelRequest net quarantine_kind (may_quarantine expected_unread) id)
                s.sent
                s'.sent
            × OnOk
                (λ outcome.
                  Reported net quarantine_kind
                    (may_quarantine expected_unread)
                    id
                    QuarantineOutcome.applied
                    QuarantineOutcome.already_applied
                    quarantine_skips
                    outcome
                    s'.sent)
                r)
    apply_label_quarantine-Reported s cache = Triple-apply_label_quarantine.run s cache tt

  abbrev MarkerReports : ThreatMarkerOutcome → List Request → Type 0
  MarkerReports =
      Reported net threat_kind (in_inbox forbidden_input_labels) id ThreatMarkerOutcome.applied
        ThreatMarkerOutcome.already_applied marker_skips

  Triple-apply_threat_marker :
      Triple
        (LabelRequest net threat_kind (in_inbox forbidden_input_labels) id)
        IsUserLabel
        (λ s. Unit {0})
        (apply_threat_marker net id)
        (λ outcome s. MarkerReports outcome s.sent)
  unfolding apply_threat_marker
  Triple-apply_threat_marker =
      Triple-bind (Triple-check (is_identity id) (quarantine_error "ID messaggio Gmail non valido"))
        (λ _.
          Triple-bind
            (Triple-weaken (λ s p. tt) (λ _ _ q. q)
              (Triple-message_labels net quarantine_rules (λ _. Unit {0}) id
                (λ h _. reads_message)))
            (λ labels.
              Triple-if (not (in_inbox forbidden_input_labels labels))
                (λ out.
                  Triple-weaken
                    (λ s r.
                      skipped labels ThreatMarkerOutcome.skipped_not_inbox (just_read r)
                        (ground (arith, out)) refl)
                    (λ _ _ q. q)
                    (Triple-pure {Post = λ outcome s. MarkerReports outcome s.sent}
                      ThreatMarkerOutcome.skipped_not_inbox))
                (λ inside.
                  Triple-weaken (λ s r. just_read r) (λ _ _ q. q)
                    (Triple-add_label net threat_kind (in_inbox forbidden_input_labels) id labels
                      (ground (arith, inside))
                      (λ label changed.
                        has_label net label changed && has_label net "INBOX" changed)
                      "Gmail non ha confermato l'etichetta phishing" ThreatMarkerOutcome.applied
                      ThreatMarkerOutcome.already_applied marker_skips))))

  -- Whatever the network answers, and whether the call returns or raises: each request that the threat
  -- marker sends reads the message or the list of labels, creates the label of the marker, or adds it; it
  -- adds one label, which a user may have and the message lacks, and only after the message was read in
  -- the inbox and in no other place. If it returns, the outcome is the one of what was sent.
  pub apply_threat_marker-Reported :
      (s : Session String)
      → OnSome IsUserLabel s.cache
      → (let (r, s') = apply_threat_marker net id s in
          OnSome IsUserLabel s'.cache
          × Sent (LabelRequest net threat_kind (in_inbox forbidden_input_labels) id) s.sent s'.sent
          × OnOk
              (λ outcome.
                Reported net threat_kind
                  (in_inbox forbidden_input_labels)
                  id
                  ThreatMarkerOutcome.applied
                  ThreatMarkerOutcome.already_applied
                  marker_skips
                  outcome
                  s'.sent)
              r)
  apply_threat_marker-Reported s cache = Triple-apply_threat_marker.run s cache tt

-- ===== src/Threats.antt =====
-- src/inboxlume/threat_signals.py: the score of the technical signals found in a message, and how
-- the verdict of a local model is combined with it. Which signals a message has is an argument of
-- `assess_signals`. `as_dict` only prints, and the `isinstance` tests hold by typing.
pub mod Laws
use Prim.Native.String.{count}
use inboxlume.Base.{
  ℕ, ◌+◌, ◌*◌, ◌/◌, ◌%◌, Bool, true, false, ◌&&◌, ◌||◌, not, String, List, [], ◌∷◌, leb, ltb, ◌==◌,
  min, length, all, filter, map, contains, if◌then◌else◌, ok, Result, require, ◌>>=◌, ◌>>◌,
}
use inboxlume.Models.{Platform, unit, is_blank}

pub data ThreatLevel : Type 0 where
  minimal elevated high critical : ThreatLevel

pub data ThreatSemanticMode : Type 0 where
  technical_only confirmed_semantic targeted_semantic : ThreatSemanticMode

pub data ThreatSignal : Type 0 where
  malformed_sender reply_to_domain_mismatch brand_domain_mismatch : ThreatSignal
  punycode_sender_domain mixed_script_sender bidi_control_in_identity : ThreatSignal
  ip_literal_link punycode_link trusted_dmarc_failure trusted_dkim_failure : ThreatSignal
  trusted_spf_failure urgent_credential_request unusual_money_request : ThreatSignal
  courier_fee_request independent_signal_consensus : ThreatSignal

pub data SemanticThreatVerdict : Type 0 where
  benign suspicious likely_phishing likely_scam uncertain : SemanticThreatVerdict

pub data ThreatIntent : Type 0 where
  no_intent credential_theft financial_fraud impersonation delivery_scam : ThreatIntent
  malware_lure uncertain : ThreatIntent

unfoldable pub weight : ThreatSignal → ℕ
weight ThreatSignal.malformed_sender = 15
weight ThreatSignal.reply_to_domain_mismatch = 8
weight ThreatSignal.brand_domain_mismatch = 30
weight ThreatSignal.punycode_sender_domain = 14
weight ThreatSignal.mixed_script_sender = 22
weight ThreatSignal.bidi_control_in_identity = 25
weight ThreatSignal.ip_literal_link = 25
weight ThreatSignal.punycode_link = 16
weight ThreatSignal.trusted_dmarc_failure = 35
weight ThreatSignal.trusted_dkim_failure = 12
weight ThreatSignal.trusted_spf_failure = 10
weight ThreatSignal.urgent_credential_request = 24
weight ThreatSignal.unusual_money_request = 32
weight ThreatSignal.courier_fee_request = 24
weight ThreatSignal.independent_signal_consensus = 12

unfoldable pub signal_family : ThreatSignal → String
signal_family ThreatSignal.malformed_sender = "identity"
signal_family ThreatSignal.reply_to_domain_mismatch = "identity"
signal_family ThreatSignal.brand_domain_mismatch = "identity"
signal_family ThreatSignal.punycode_sender_domain = "unicode_domain"
signal_family ThreatSignal.mixed_script_sender = "unicode_domain"
signal_family ThreatSignal.bidi_control_in_identity = "unicode_domain"
signal_family ThreatSignal.ip_literal_link = "link"
signal_family ThreatSignal.punycode_link = "link"
signal_family ThreatSignal.trusted_dmarc_failure = "authentication"
signal_family ThreatSignal.trusted_dkim_failure = "authentication"
signal_family ThreatSignal.trusted_spf_failure = "authentication"
signal_family ThreatSignal.urgent_credential_request = "content"
signal_family ThreatSignal.unusual_money_request = "content"
signal_family ThreatSignal.courier_fee_request = "content"
signal_family ThreatSignal.independent_signal_consensus = "consensus"

-- The signals that `assess_threat_signals` can detect, by their values; the consensus comes after.
unfoldable pub detectable : List ThreatSignal
detectable =
    ThreatSignal.bidi_control_in_identity ∷ ThreatSignal.brand_domain_mismatch
    ∷ ThreatSignal.courier_fee_request ∷ ThreatSignal.ip_literal_link
    ∷ ThreatSignal.malformed_sender ∷ ThreatSignal.mixed_script_sender ∷ ThreatSignal.punycode_link
    ∷ ThreatSignal.punycode_sender_domain ∷ ThreatSignal.reply_to_domain_mismatch
    ∷ ThreatSignal.trusted_dkim_failure ∷ ThreatSignal.trusted_dmarc_failure
    ∷ ThreatSignal.trusted_spf_failure ∷ ThreatSignal.unusual_money_request
    ∷ ThreatSignal.urgent_credential_request ∷ []

-- Every signal in the order of the values, in which the consensus is the fourth.
unfoldable pub by_value : List ThreatSignal
by_value =
    ThreatSignal.bidi_control_in_identity ∷ ThreatSignal.brand_domain_mismatch
    ∷ ThreatSignal.courier_fee_request ∷ ThreatSignal.independent_signal_consensus
    ∷ ThreatSignal.ip_literal_link ∷ ThreatSignal.malformed_sender
    ∷ ThreatSignal.mixed_script_sender ∷ ThreatSignal.punycode_link
    ∷ ThreatSignal.punycode_sender_domain ∷ ThreatSignal.reply_to_domain_mismatch
    ∷ ThreatSignal.trusted_dkim_failure ∷ ThreatSignal.trusted_dmarc_failure
    ∷ ThreatSignal.trusted_spf_failure ∷ ThreatSignal.unusual_money_request
    ∷ ThreatSignal.urgent_credential_request ∷ []

unfoldable pub level_of : ℕ → ThreatLevel
level_of score =
    if leb 70 score
    then ThreatLevel.critical
    else if leb 40 score
    then ThreatLevel.high
    else if leb 20 score
    then ThreatLevel.elevated
    else ThreatLevel.minimal

-- `level in {HIGH, CRITICAL}`
abbrev pub is_alert : ThreatLevel → Bool
is_alert ThreatLevel.high = true
is_alert ThreatLevel.critical = true
is_alert _ = false

pub record ThreatAssessment : Type 0 where
  pub score : ℕ
  pub level : ThreatLevel
  pub signals : List ThreatSignal
  pub signal_families : List String

-- `sorted({_SIGNAL_FAMILY[signal] for signal in signals})`
unfoldable pub families_of : List ThreatSignal → List String
families_of signals =
    filter (λ family. contains family (map signal_family signals))
      ("authentication" ∷ "consensus" ∷ "content" ∷ "identity" ∷ "link" ∷ "unicode_domain" ∷ [])

unfoldable pub weights_sum : List ThreatSignal → ℕ
weights_sum [] = 0
weights_sum (s ∷ signals) = weight s + weights_sum signals

-- A detected signal, or the consensus of at least two families.
unfoldable pub holds : (ThreatSignal → Bool) → ThreatSignal → Bool
holds found ThreatSignal.independent_signal_consensus =
    leb 2 (length (families_of (filter found detectable)))
holds found signal = found signal

-- The end of `assess_threat_signals`, from the set of detected signals.
unfoldable pub assess_signals : (ThreatSignal → Bool) → ThreatAssessment
assess_signals found =
    let ordered : List ThreatSignal = filter (holds found) by_value in
    let score : ℕ = min 100 (weights_sum ordered) in
    record {
      score = score;
      level = level_of score;
      signals = ordered;
      signal_families = families_of ordered;
    }

pub record SemanticThreatAssessment : Type 0 where
  pub verdict : SemanticThreatVerdict
  pub intent : ThreatIntent
  pub impersonation : Bool
  pub credential_request : Bool
  pub money_request : Bool
  pub urgency_pressure : Bool
  pub link_action : Bool
  pub plausible_legitimate_context : Bool
  pub confidence : ℕ
  pub reason_codes : List String
  pub analyzer : String

unfoldable pub semantic_reason_codes : List String
semantic_reason_codes =
    "account_takeover_pressure" ∷ "benign_context" ∷ "credential_harvest_language"
    ∷ "delivery_fee_lure" ∷ "gift_card_or_crypto_request" ∷ "impersonation_language"
    ∷ "insufficient_evidence" ∷ "malware_or_attachment_lure" ∷ "payment_diversion_language"
    ∷ "suspicious_link_instruction" ∷ "unexpected_financial_request" ∷ []

-- `len(set(xs)) == len(xs)`
unfoldable pub distinct : List String → Bool
distinct [] = true
distinct (x ∷ xs) = not (contains x xs) && distinct xs

abbrev pub is_benign : SemanticThreatVerdict → Bool
is_benign SemanticThreatVerdict.benign = true
is_benign _ = false

-- `intent in {NONE, UNCERTAIN}`
abbrev pub is_harmless : ThreatIntent → Bool
is_harmless ThreatIntent.no_intent = true
is_harmless ThreatIntent.uncertain = true
is_harmless _ = false

-- `SemanticThreatAssessment.__post_init__`
unfoldable pub check_semantic :
    Platform → SemanticThreatAssessment → Result SemanticThreatAssessment
check_semantic py s = do
  require (leb s.confidence unit) "semantic threat confidence must be between zero and one"
  require (not (is_blank py.is_space s.analyzer) && leb (count s.analyzer) 100)
      "invalid semantic threat analyzer"
  require
      (leb 1 (length s.reason_codes)
        && leb (length s.reason_codes) 5
        && distinct s.reason_codes
        && all (λ code. contains code semantic_reason_codes) s.reason_codes)
      "invalid semantic threat reason codes"
  require (not (is_benign s.verdict && not (is_harmless s.intent)))
      "benign verdict cannot assert a malicious intent"
  ok s

abbrev pub is_likely : SemanticThreatVerdict → Bool
is_likely SemanticThreatVerdict.likely_phishing = true
is_likely SemanticThreatVerdict.likely_scam = true
is_likely _ = false

unfoldable pub likely_malicious : SemanticThreatAssessment → Bool
likely_malicious s = is_likely s.verdict

abbrev pub is_suspicious : SemanticThreatVerdict → Bool
is_suspicious SemanticThreatVerdict.suspicious = true
is_suspicious _ = false

pub record ThreatConsensusAssessment : Type 0 where
  pub score : ℕ
  pub level : ThreatLevel
  pub deterministic : ThreatAssessment
  pub semantic : SemanticThreatAssessment
  pub independent_consensus : Bool

-- `semantic_followup_recommended`
unfoldable pub semantic_followup_recommended : ThreatAssessment → ThreatSemanticMode → Bool
semantic_followup_recommended a ThreatSemanticMode.technical_only = false
semantic_followup_recommended a ThreatSemanticMode.confirmed_semantic = is_alert a.level
semantic_followup_recommended a ThreatSemanticMode.targeted_semantic = leb 1 (length a.signals)

-- `round(n / unit)`, which rounds a half to the even neighbour.
unfoldable pub round_millionths : ℕ → ℕ
round_millionths n =
    if ltb (2 * (n % 1000000)) 1000000
    then n / 1000000
    else if ltb 1000000 (2 * (n % 1000000))
    then n / 1000000 + 1
    else n / 1000000 + n / 1000000 % 2

unfoldable pub semantic_score : SemanticThreatAssessment → ℕ
semantic_score s =
    if likely_malicious s
    then round_millionths (30 * s.confidence)
    else if is_suspicious s.verdict
    then round_millionths (15 * s.confidence)
    else 0

unfoldable pub combine_threat_assessments :
    ThreatAssessment → SemanticThreatAssessment → ThreatConsensusAssessment
combine_threat_assessments a s =
    let some_family : Bool = leb 1 (length a.signal_families) in
    let consensus : Bool = likely_malicious s && leb 800000 s.confidence && some_family in
    let combined : ℕ = a.score + semantic_score s + (if consensus then 15 else 0) in
    let score : ℕ = min 100 (if some_family then combined else min combined 35) in
    record {
      score = score;
      level = level_of score;
      deterministic = a;
      semantic = s;
      independent_consensus = consensus;
    }

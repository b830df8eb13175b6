-- ===== src/Lifecycle/Terms.antt =====
-- src/inboxlume/lumegraph.py: the terms of each kind of utility and of each state, and the reason codes.
use inboxlume.Base.{String, List, [], ◌∷◌}

unfoldable pub lifecycle_reason_codes : List String
lifecycle_reason_codes =
    "otp_language" ∷ "order_language" ∷ "shipment_language" ∷ "reservation_language"
    ∷ "invoice_language" ∷ "payment_language" ∷ "security_flow_language" ∷ "promotion_language"
    ∷ "active_language" ∷ "pending_language" ∷ "completion_language" ∷ "replacement_language"
    ∷ "expiry_language" ∷ "explicit_date" ∷ "evidentiary_record" ∷ "ambiguous_lifecycle"
    ∷ "heuristic_fallback" ∷ "model_failure" ∷ []

unfoldable pub otp_terms : List String
otp_terms =
    "one-time code" ∷ "one time code" ∷ "verification code" ∷ "security code" ∷ "codice monouso"
    ∷ "codice di verifica" ∷ "codice temporaneo" ∷ " otp " ∷ []

unfoldable pub shipment_terms : List String
shipment_terms =
    "shipment" ∷ "shipped" ∷ "tracking" ∷ "delivery" ∷ "delivered" ∷ "package" ∷ "spedizione"
    ∷ "spedito" ∷ "tracciamento" ∷ "consegna" ∷ "consegnato" ∷ "pacco" ∷ "corriere" ∷ []

unfoldable pub order_terms : List String
order_terms =
    "order confirmed" ∷ "order confirmation" ∷ "purchase confirmed" ∷ "ordine confermato"
    ∷ "conferma ordine" ∷ "acquisto confermato" ∷ []

unfoldable pub reservation_terms : List String
reservation_terms =
    "booking" ∷ "reservation" ∷ "check-in" ∷ "check in" ∷ "boarding pass" ∷ "flight" ∷ "hotel"
    ∷ "prenotazione" ∷ "check-in" ∷ "carta d'imbarco" ∷ "volo" ∷ "treno" ∷ []

unfoldable pub invoice_terms : List String
invoice_terms = "invoice" ∷ "fattura" ∷ "payment due" ∷ "pagamento dovuto" ∷ []

unfoldable pub payment_terms : List String
payment_terms =
    "payment confirmation" ∷ "payment receipt" ∷ "transaction receipt" ∷ "transfer receipt"
    ∷ "pagamento confermato" ∷ "ricevuta di pagamento" ∷ "ricevuta bonifico" ∷ "ricarica effettuata"
    ∷ "top-up completed" ∷ []

unfoldable pub security_flow_terms : List String
security_flow_terms =
    "password reset" ∷ "reset your password" ∷ "password changed" ∷ "account recovered"
    ∷ "reimposta la password" ∷ "reimpostazione password" ∷ "password modificata"
    ∷ "account recuperato" ∷ []

unfoldable pub promotion_terms : List String
promotion_terms =
    "offer expires" ∷ "offer ends" ∷ "valid until" ∷ "promotion ends" ∷ "offerta scade" ∷ "scade il"
    ∷ "valida fino" ∷ "promozione termina" ∷ []

unfoldable pub completed_terms : List String
completed_terms =
    "delivered" ∷ "consegnato" ∷ "delivery completed" ∷ "consegna completata" ∷ "completed"
    ∷ "completato" ∷ "cancelled" ∷ "canceled" ∷ "cancellata" ∷ "annullata" ∷ "payment confirmation"
    ∷ "payment completed" ∷ "payment receipt" ∷ "pagamento confermato" ∷ "pagamento completato"
    ∷ "ricevuta di pagamento" ∷ "password changed" ∷ "password modificata" ∷ "account recovered"
    ∷ "account recuperato" ∷ []

unfoldable pub active_terms : List String
active_terms =
    "out for delivery" ∷ "in transit" ∷ "in consegna" ∷ "in transito" ∷ "check-in open"
    ∷ "check-in aperto" ∷ "reset your password" ∷ "reimposta la password" ∷ []

unfoldable pub pending_terms : List String
pending_terms =
    "shipped" ∷ "spedito" ∷ "preparing" ∷ "in preparazione" ∷ "confirmed" ∷ "confermata"
    ∷ "confermato" ∷ []

unfoldable pub replaced_terms : List String
replaced_terms =
    "updated booking" ∷ "booking changed" ∷ "schedule changed" ∷ "prenotazione modificata"
    ∷ "orario modificato" ∷ "nuovo itinerario" ∷ []

-- ===== src/Guardrails/RecordTerms.antt =====
-- src/inboxlume/semantic_guardrails.py: the terms of records of money and of services.
use inboxlume.Base.{String, List, [], ◌∷◌}

unfoldable pub banking_context_terms : List String
banking_context_terms =
    "banca" ∷ "bank account" ∷ "banking" ∷ "bank transfer" ∷ "bonifico" ∷ "estratto conto"
    ∷ "account statement" ∷ "bank statement" ∷ "documento bancario" ∷ "documento del conto"
    ∷ "conto corrente" ∷ "carta di credito" ∷ "carta di debito" ∷ "iban" ∷ "addebito" ∷ "accredito"
    ∷ "wire transfer" ∷ "sepa transfer" ∷ []

unfoldable pub banking_record_terms : List String
banking_record_terms =
    "bank statement" ∷ "monthly bank statement" ∷ "documento bancario" ∷ "documento del conto"
    ∷ "ricevuta bonifico" ∷ "ricevuta del bonifico" ∷ "bonifico effettuato" ∷ "bonifico eseguito"
    ∷ "bonifico completato" ∷ "bonifico confermato" ∷ "transfer receipt" ∷ "bank transfer completed"
    ∷ "bank transfer successful" ∷ "bank transfer confirmation" ∷ "wire transfer receipt"
    ∷ "sepa transfer confirmation" ∷ "disposizione di bonifico" ∷ "bonifico in entrata"
    ∷ "operazione bancaria eseguita" ∷ "operazione completata" ∷ "transaction completed"
    ∷ "transaction confirmed" ∷ "transaction receipt" ∷ "addebito effettuato"
    ∷ "addebito confermato" ∷ "accredito ricevuto" ∷ "pagamento con carta effettuato"
    ∷ "card payment completed" ∷ "card transaction completed" ∷ "estratto conto"
    ∷ "account statement" ∷ []

unfoldable pub general_record_terms : List String
general_record_terms =
    "la tua ricevuta" ∷ "your receipt" ∷ "ricevuta n." ∷ "receipt no." ∷ "receipt #"
    ∷ "ricevuta fiscale" ∷ "fiscal receipt" ∷ "ricevuta allegata" ∷ "receipt attached"
    ∷ "ricevuta di pagamento" ∷ "ricevuta del pagamento" ∷ "ricevuta pagamento" ∷ "payment receipt"
    ∷ "payment completed" ∷ "payment successful" ∷ "payment confirmation" ∷ "pagamento effettuato"
    ∷ "pagamento completato" ∷ "pagamento confermato" ∷ "pagamento ricevuto"
    ∷ "quietanza di pagamento" ∷ "ricevuta universitaria" ∷ "ricevuta tassa universitaria"
    ∷ "ricevuta versamento" ∷ "ricevuta iscrizione" ∷ "ricevuta domanda" ∷ "tuition receipt"
    ∷ "tassa universitaria pagata" ∷ "tuition payment receipt" ∷ "tuition payment received"
    ∷ "enrolment receipt" ∷ "enrollment receipt" ∷ "application receipt" ∷ "submission receipt"
    ∷ "ricarica effettuata" ∷ "ricarica completata" ∷ "ricarica confermata" ∷ "conferma ricarica"
    ∷ "ricevuta ricarica" ∷ "top-up receipt" ∷ "top-up completed" ∷ "top-up successful"
    ∷ "top-up confirmation" ∷ "recharge receipt" ∷ "recharge completed" ∷ "recharge successful" ∷ []

unfoldable pub invoice_record_terms : List String
invoice_record_terms =
    "fattura" ∷ "invoice" ∷ "documento fiscale" ∷ "tax document" ∷ "nota di credito" ∷ "credit note"
    ∷ []

unfoldable pub transaction_context_terms : List String
transaction_context_terms =
    "payment" ∷ "payments" ∷ "pagamento" ∷ "pagamenti" ∷ "bank transfer" ∷ "bank transfers"
    ∷ "wire transfer" ∷ "wire transfers" ∷ "sepa transfer" ∷ "sepa transfers" ∷ "bonifico"
    ∷ "bonifici" ∷ "top up" ∷ "top ups" ∷ "recharge" ∷ "recharges" ∷ "ricarica" ∷ "ricariche"
    ∷ "order" ∷ "orders" ∷ "ordine" ∷ "ordini" ∷ "purchase" ∷ "purchases" ∷ "acquisto" ∷ "acquisti"
    ∷ "booking" ∷ "bookings" ∷ "reservation" ∷ "reservations" ∷ "prenotazione" ∷ "prenotazioni"
    ∷ "university fee" ∷ "university fees" ∷ "tuition" ∷ "tassa universitaria"
    ∷ "tasse universitarie" ∷ []

unfoldable pub transaction_completion_terms : List String
transaction_completion_terms =
    "receipt" ∷ "receipts" ∷ "received" ∷ "processed" ∷ "paid" ∷ "completed" ∷ "confirmed"
    ∷ "confirmation" ∷ "ricevuta" ∷ "ricevute" ∷ "ricevuto" ∷ "ricevuti" ∷ "processato"
    ∷ "processata" ∷ "processati" ∷ "processate" ∷ "elaborato" ∷ "elaborata" ∷ "elaborati"
    ∷ "elaborate" ∷ "pagato" ∷ "pagata" ∷ "pagati" ∷ "pagate" ∷ "completato" ∷ "completata"
    ∷ "completati" ∷ "completate" ∷ "confermato" ∷ "confermata" ∷ "confermati" ∷ "confermate"
    ∷ "eseguito" ∷ "eseguita" ∷ "eseguiti" ∷ "eseguite" ∷ "effettuato" ∷ "effettuata" ∷ "effettuati"
    ∷ "effettuate" ∷ []

unfoldable pub transaction_success_terms : List String
transaction_success_terms =
    "successful" ∷ "successfully" ∷ "succeeded" ∷ "riuscito" ∷ "riuscita" ∷ "riusciti" ∷ "riuscite"
    ∷ []

-- The subjects and the statuses that together confirm a service.
unfoldable pub service_confirmation_pairs : List (List String × List String)
service_confirmation_pairs =
    ("order" ∷ "purchase" ∷ [], "confirmation" ∷ "confirmed" ∷ [])
    ∷ ("ordine" ∷ "acquisto" ∷ [], "conferma" ∷ "confermato" ∷ "confermato" ∷ [])
    ∷ ("booking" ∷ "reservation" ∷ [], "confirmation" ∷ "confirmed" ∷ [])
    ∷ ("prenotazione" ∷ [], "conferma" ∷ "confermata" ∷ "confermato" ∷ [])
    ∷ []

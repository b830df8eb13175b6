-- ===== src/Guardrails/AccessTerms.antt =====
-- src/inboxlume/semantic_guardrails.py: the terms of access alerts and of credential changes.
use inboxlume.Base.{String, List, [], ◌∷◌}

unfoldable pub high_risk_access_terms : List String
high_risk_access_terms =
    "accesso sospetto" ∷ "suspicious sign-in" ∷ "suspicious login" ∷ "accesso non riconosciuto"
    ∷ "unrecognized sign-in" ∷ "unrecognised sign-in" ∷ "unrecognized login" ∷ "unrecognised login"
    ∷ "non sei stato tu" ∷ "wasn't you" ∷ "was not you" ∷ "dispositivo sconosciuto"
    ∷ "unknown device" ∷ "password modificata" ∷ "password changed" ∷ "password was changed"
    ∷ "password has been changed" ∷ "password reimpostata" ∷ "password reset" ∷ "password was reset"
    ∷ "password has been reset" ∷ "password è stata modificata" ∷ "password e stata modificata"
    ∷ "password è stata reimpostata" ∷ "password e stata reimpostata" ∷ "account compromesso"
    ∷ "account compromised" ∷ []

unfoldable pub routine_access_terms : List String
routine_access_terms =
    "nuovo accesso" ∷ "new sign-in" ∷ "new login" ∷ "accesso rilevato" ∷ "sign-in detected"
    ∷ "login detected" ∷ "accesso effettuato" ∷ "signed in" ∷ "logged in"
    ∷ "accesso da un nuovo dispositivo" ∷ "new device sign-in" ∷ "new device login"
    ∷ "attività di accesso" ∷ "sign-in activity" ∷ "login activity" ∷ "avviso di accesso"
    ∷ "access alert" ∷ "hai effettuato l'accesso" ∷ "you logged in" ∷ "usato per accedere"
    ∷ "used to sign in" ∷ []

unfoldable pub credential_context_terms : List String
credential_context_terms =
    "password" ∷ "passwords" ∷ "passcode" ∷ "passcodes" ∷ "credential" ∷ "credentials"
    ∷ "credenziale" ∷ "credenziali" ∷ "recovery email" ∷ "recovery phone" ∷ "email di recupero"
    ∷ "telefono di recupero" ∷ "numero di recupero" ∷ "two factor authentication" ∷ "2fa" ∷ "mfa"
    ∷ "autenticazione a due fattori" ∷ "verifica in due passaggi" ∷ []

unfoldable pub security_state_change_terms : List String
security_state_change_terms =
    "changed" ∷ "updated" ∷ "reset" ∷ "disabled" ∷ "removed" ∷ "revoked" ∷ "change complete"
    ∷ "reset complete" ∷ "cambiata" ∷ "cambiato" ∷ "modificata" ∷ "modificato" ∷ "aggiornata"
    ∷ "aggiornato" ∷ "reimpostata" ∷ "reimpostato" ∷ "disabilitata" ∷ "disabilitato" ∷ "rimossa"
    ∷ "rimosso" ∷ "revocata" ∷ "revocato" ∷ "modifica completata" ∷ "reimpostazione completata" ∷ []

unfoldable pub security_pair_connectors : List String
security_pair_connectors =
    "a" ∷ "an" ∷ "the" ∷ "your" ∷ "account" ∷ "for" ∷ "has" ∷ "have" ∷ "had" ∷ "is" ∷ "was" ∷ "were"
    ∷ "been" ∷ "my" ∷ "our" ∷ "il" ∷ "lo" ∷ "la" ∷ "i" ∷ "gli" ∷ "le" ∷ "tua" ∷ "tuo" ∷ "sua"
    ∷ "suo" ∷ "del" ∷ "della" ∷ "account" ∷ "e" ∷ "è" ∷ "stata" ∷ "stato" ∷ "sono" ∷ "state"
    ∷ "stati" ∷ []

unfoldable pub access_event_context_terms : List String
access_event_context_terms =
    "login" ∷ "log in" ∷ "sign in" ∷ "signin" ∷ "accesso" ∷ "account access"
    ∷ "access to your account" ∷ "your account" ∷ "tuo account" ∷ []

unfoldable pub access_event_signal_terms : List String
access_event_signal_terms =
    "noticed" ∷ "detected" ∷ "accessed" ∷ "new device" ∷ "new location" ∷ "unusual location"
    ∷ "rilevato" ∷ "rilevata" ∷ "notato" ∷ "notata" ∷ "nuovo dispositivo" ∷ "nuova posizione"
    ∷ "posizione insolita" ∷ []

-- ===== src/Gmail/Permitted.antt =====
-- The allow-lists of the transports of src/inboxlume/providers/gmail_quarantine.py and gmail_finalizer.py,
-- for every URL and payload that a caller gives.
use inboxlume.Base.{
  ◌≡◌, Bool, true, false, ◌&&◌, not, String, List, Option, none, some, str_eq, OnSome,
}
use inboxlume.Models.{is_blank}
use inboxlume.Gmail.Json.{JsonFields}
use inboxlume.Gmail.Session.{Request, get_request, post_request, Session}
use inboxlume.Gmail.Triples.{
  Sent, Triple, Triple-lift, Triple-weaken, Triple-check, Triple-history, Triple-bind,
}
use inboxlume.Gmail.Transport.{Network, Rules, is_gmail, allows_get, get_json, post_json}
use inboxlume.Gmail.Steps.{Triple-request_json}

module _ (net : Network) (rules : Rules) where
  -- The request goes to Gmail, and the rules allow it.
  abbrev pub permitted : Request → Bool
  permitted (get_request url) =
      is_gmail (net.urlparse url) && allows_get net rules (net.urlparse url)
  permitted (post_request url payload) =
      is_gmail (net.urlparse url)
      && (str_eq (net.urlparse url).query "" && rules.allows_post (net.urlparse url).path payload)

  abbrev Permitted : Request → List Request → Type 0
  Permitted r h = permitted r ≡ true

  both_hold : (a b : Bool) → a ≡ true → b ≡ true → (a && b) ≡ true
  both_hold true b x y = y
  both_hold false b x y = x

  module _ {C : Type 0} where
    abbrev AnyCache : C → Type 0
    AnyCache c = Unit

    Triple-get_json :
        (url : String)
        → Triple Permitted AnyCache (λ s. Unit {0}) (get_json net rules url) (λ answer s. Unit {0})
    unfolding get_json
    Triple-get_json url = Triple-bind Triple-history (λ h.
        Triple-bind (Triple-lift {Post = λ _ s. Unit {0}} (net.access_token h) (λ s token e p. tt))
          (λ token.
            Triple-bind
              (Triple-check (is_gmail (net.urlparse url)) (rules.error rules.endpoint_text))
              (λ _.
                Triple-bind
                  (Triple-check (allows_get net rules (net.urlparse url))
                    (rules.error rules.get_text))
                  (λ _.
                    Triple-bind
                      (Triple-check (not (is_blank net.is_space token))
                        (rules.error "access token Gmail mancante"))
                      (λ _.
                        Triple-weaken (λ s p. both_hold _ _ p.1.1.0 p.1.0) (λ _ _ q. tt)
                          (Triple-request_json net rules (λ h. permitted (get_request url) ≡ true)
                            (get_request url) (λ h k. k)))))))

    Triple-post_json :
        (url : String) (payload : JsonFields)
        → Triple Permitted AnyCache
            (λ s. Unit {0})
            (post_json net rules url payload)
            (λ answer s. Unit {0})
    unfolding post_json
    Triple-post_json url payload = Triple-bind Triple-history (λ h.
        Triple-bind (Triple-lift {Post = λ _ s. Unit {0}} (net.access_token h) (λ s token e p. tt))
          (λ token.
            Triple-bind
              (Triple-check (is_gmail (net.urlparse url)) (rules.error rules.endpoint_text))
              (λ _.
                Triple-bind
                  (Triple-check
                    (str_eq (net.urlparse url).query ""
                      && rules.allows_post (net.urlparse url).path payload)
                    (rules.error rules.post_text))
                  (λ _.
                    Triple-bind
                      (Triple-check (not (is_blank net.is_space token))
                        (rules.error "access token Gmail mancante"))
                      (λ _.
                        Triple-weaken (λ s p. both_hold _ _ p.1.1.0 p.1.0) (λ _ _ q. tt)
                          (Triple-request_json net rules
                            (λ h. permitted (post_request url payload) ≡ true)
                            (post_request url payload) (λ h k. k)))))))

    -- Whatever URL and payload a caller gives and whatever the network answers, both calls of a transport
    -- send only requests to Gmail that the rules of the transport allow.
    pub transport-permitted :
        (s : Session C) (url : String) (payload : JsonFields)
        → Sent (λ r h. permitted r ≡ true) s.sent (get_json net rules url s).1.sent
          × Sent (λ r h. permitted r ≡ true) s.sent (post_json net rules url payload s).1.sent
    transport-permitted s url payload = (
      ((Triple-get_json url).run s (any_cache s.cache) tt).1,
      ((Triple-post_json url payload).run s (any_cache s.cache) tt).1,
    )
      where
        any_cache : (cache : Option C) → OnSome AnyCache cache
        any_cache none = tt
        any_cache (some c) = tt

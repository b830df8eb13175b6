-- ===== src/Gmail/Steps.antt =====
-- What the shared methods of gmail_quarantine.py and gmail_finalizer.py send and return: the two calls of
-- a transport, the labels of a message, and the label that is found or created.
use inboxlume.Base.{
  ◌≡◌, refl, sym, subst, true, ◌&&◌, not, str_eq, String, List, ◌∷◌, Option, none, some, ok,
}
use inboxlume.Models.{is_blank}
use inboxlume.Gmail.Json.{Json, JsonItems, no_items, JsonFields, get_field, is_text}
use inboxlume.Gmail.Session.{Request, get_request, post_request, pure, fail}
use inboxlume.Gmail.Triples.{
  Triple, Triple-pure, Triple-fail, Triple-lift, Triple-weaken, Triple-check, Triple-history,
  Triple-send, Triple-bind,
}
use inboxlume.Gmail.Transport.{
  Network, Rules, is_gmail, allows_get, decoded, request_json, get_json, post_json,
}
use inboxlume.Gmail.Labels.{label_texts, message_url, labels_url, message_labels, listed_labels}

-- The newest request is `r`, and its answer was read as `answer`.
pub record Answered (net : Network) (rules : Rules) (r : Request) (Pre : List Request → Type 0)
    (answer : JsonFields) (sent : List Request) : Type 0 where
  pub before : List Request
  pub newest : sent ≡ r ∷ before
  pub held : Pre before
  pub reply : decoded net rules (net.wire (r ∷ before)) ≡ ok answer

-- The labels of the message as its answer gives them.
pub record LabelsRead (net : Network) (rules : Rules) (Pre : List Request → Type 0) (id : String)
    (labels : List String) (sent : List Request) : Type 0 where
  pub resource : JsonFields
  pub answered : Answered net rules (get_request (message_url net id)) Pre resource sent
  pub same_id : is_text id (get_field "id" resource) ≡ true
  pub found : label_texts (get_field "labelIds" resource) ≡ some labels

-- The items of the list of labels; an answer without one has none.
abbrev pub listed_items : Option Json → JsonItems
listed_items (some (Json.array found)) = found
listed_items _ = no_items

-- The items are those of an answer of the network to the request of the list of labels.
pub record Listing (net : Network) (rules : Rules) (entries : JsonItems) : Type 0 where
  pub before : List Request
  pub response : JsonFields
  pub reply : decoded net rules (net.wire (get_request (labels_url net) ∷ before)) ≡ ok response
  pub items : entries ≡ listed_items (get_field "labels" response)

module _ {C : Type 0} {P : Request → List Request → Type 0} {I : C → Type 0} (net : Network)
    (rules : Rules) (Pre : List Request → Type 0) where
  pub Triple-request_json :
      (r : Request)
      → ((h : List Request) → Pre h → P r h)
      → Triple P I
          (λ s. Pre s.sent)
          (request_json net rules r)
          (λ answer s. Answered net rules r Pre answer s.sent)
  unfolding request_json
  Triple-request_json r f = Triple-bind (Triple-send Pre r f) (λ _. Triple-bind Triple-history (λ h.
      Triple-lift (decoded net rules (net.wire h)) (λ s answer e p.
        let (same, (before, newest, held)) = p in
        record { before = before; newest = newest; held = held; reply = cc })))

  -- Both calls of a transport send one request, after the tests of what it is.
  pub Triple-get_json :
      (url : String)
      → ((h : List Request) → Pre h → P (get_request url) h)
      → Triple P I
          (λ s. Pre s.sent)
          (get_json net rules url)
          (λ answer s. Answered net rules (get_request url) Pre answer s.sent)
  unfolding get_json
  Triple-get_json url f = Triple-bind Triple-history (λ h.
      Triple-bind (Triple-lift {Post = λ _ s. Pre s.sent} (net.access_token h) (λ s token e p. p.1))
        (λ token.
          Triple-bind (Triple-check (is_gmail (net.urlparse url)) (rules.error rules.endpoint_text))
            (λ _.
              Triple-bind
                (Triple-check (allows_get net rules (net.urlparse url))
                  (rules.error rules.get_text))
                (λ _.
                  Triple-bind
                    (Triple-check (not (is_blank net.is_space token))
                      (rules.error "access token Gmail mancante"))
                    (λ _.
                      Triple-weaken (λ s p. p.1.1.1) (λ _ _ q. q)
                        (Triple-request_json (get_request url) f))))))

  pub Triple-post_json :
      (url : String) (payload : JsonFields)
      → ((h : List Request) → Pre h → P (post_request url payload) h)
      → Triple P I
          (λ s. Pre s.sent)
          (post_json net rules url payload)
          (λ answer s. Answered net rules (post_request url payload) Pre answer s.sent)
  unfolding post_json
  Triple-post_json url payload f = Triple-bind Triple-history (λ h.
      Triple-bind (Triple-lift {Post = λ _ s. Pre s.sent} (net.access_token h) (λ s token e p. p.1))
        (λ token.
          Triple-bind (Triple-check (is_gmail (net.urlparse url)) (rules.error rules.endpoint_text))
            (λ _.
              Triple-bind
                (Triple-check
                  (str_eq (net.urlparse url).query ""
                    && rules.allows_post (net.urlparse url).path payload)
                  (rules.error rules.post_text))
                (λ _.
                  Triple-bind
                    (Triple-check (not (is_blank net.is_space token))
                      (rules.error "access token Gmail mancante"))
                    (λ _.
                      Triple-weaken (λ s p. p.1.1.1) (λ _ _ q. q)
                        (Triple-request_json (post_request url payload) f))))))

  labels_step :
      (id : String) (resource : JsonFields) (found : Option (List String))
      → label_texts (get_field "labelIds" resource) ≡ found
      → Triple P I
          (λ s.
            (is_text id (get_field "id" resource) ≡ true)
            × Answered net rules (get_request (message_url net id)) Pre resource s.sent)
          (elim found [
            | none ↦ fail (rules.error "etichette messaggio Gmail non valide")
            | some labels ↦ pure labels
          ])
          (λ labels s. LabelsRead net rules Pre id labels s.sent)
  labels_step id resource none e = Triple-fail _
  labels_step id resource (some labels) e =
      Triple-weaken
        (λ s p. record { resource = resource; answered = p.1; same_id = p.0; found = e })
        (λ _ _ q. q)
        (Triple-pure {Post = λ labels s. LabelsRead net rules Pre id labels s.sent} labels)

  pub Triple-message_labels :
      (id : String)
      → ((h : List Request) → Pre h → P (get_request (message_url net id)) h)
      → Triple P I
          (λ s. Pre s.sent)
          (message_labels net rules id)
          (λ labels s. LabelsRead net rules Pre id labels s.sent)
  unfolding message_labels
  Triple-message_labels id f = Triple-bind (Triple-get_json (message_url net id) f) (λ resource.
      Triple-bind
        (Triple-check (is_text id (get_field "id" resource))
          (rules.error "ID risposta Gmail non corrispondente"))
        (λ _. labels_step id resource _ refl))

  items_step :
      (answer : Option Json)
      → Triple P I
          (λ s. Pre s.sent)
          (elim answer [
            | none ↦ pure no_items
            | some (Json.array found) ↦ pure found
            | some _ ↦ fail (rules.error "elenco etichette Gmail non valido")
          ])
          (λ entries s. (entries ≡ listed_items answer) × Pre s.sent)
  items_step none =
      Triple-weaken (λ s p. (refl, p)) (λ _ _ q. q)
        (Triple-pure {Post = λ entries s. (entries ≡ no_items) × Pre s.sent} no_items)
  items_step (some (Json.array found)) =
      Triple-weaken (λ s p. (refl, p)) (λ _ _ q. q)
        (Triple-pure {Post = λ entries s. (entries ≡ found) × Pre s.sent} found)
  items_step (some Json.null) = Triple-fail _
  items_step (some (Json.boolean _)) = Triple-fail _
  items_step (some (Json.number _)) = Triple-fail _
  items_step (some (Json.text _)) = Triple-fail _
  items_step (some (Json.object _)) = Triple-fail _

-- The list of labels was read last.
abbrev ListRead : Network → Rules → (List Request → Type 0) → JsonFields → List Request → Type 0
ListRead net rules Pre = Answered net rules (get_request (labels_url net)) Pre

module _ {C : Type 0} {P : Request → List Request → Type 0} {I : C → Type 0} (net : Network)
    (rules : Rules) (Pre : List Request → Type 0) where
  -- What held before the list of labels was read holds after, if one more such request keeps it; and
  -- the entries are those of an answer of the network.
  pub Triple-listed_from :
      ((h : List Request) → Pre h → P (get_request (labels_url net)) h)
      → ((h : List Request) → Pre h → Pre (get_request (labels_url net) ∷ h))
      → Triple P I
          (λ s. Pre s.sent)
          (listed_labels net rules)
          (λ entries s. Listing net rules entries × Pre s.sent)
  unfolding listed_labels
  Triple-listed_from f g =
      Triple-bind (Triple-get_json net rules Pre (labels_url net) f) (λ response.
        Triple-weaken (λ s a. a) (λ entries s q. listing response entries s.sent q)
          (items_step net rules (ListRead net rules Pre response) (get_field "labels" response)))
    where
      listing :
          (response : JsonFields) (entries : JsonItems) (h : List Request)
          → (entries ≡ listed_items (get_field "labels" response))
            × ListRead net rules Pre response h
          → Listing net rules entries × Pre h
      listing response entries h (same, a) = (
        record { before = a.before; response = response; reply = a.reply; items = same },
        subst Pre (sym a.newest) (g a.before a.held),
      )

  pub Triple-listed_labels :
      ((h : List Request) → Pre h → P (get_request (labels_url net)) h)
      → ((h : List Request) → Pre h → Pre (get_request (labels_url net) ∷ h))
      → Triple P I (λ s. Pre s.sent) (listed_labels net rules) (λ _ s. Pre s.sent)
  Triple-listed_labels f g = Triple-weaken (λ s p. p) (λ entries s q. q.1) (Triple-listed_from f g)

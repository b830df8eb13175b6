-- ===== src/Gmail/Matching.antt =====
-- What the loop of `_required_quarantine_label_ids` of src/inboxlume/providers/gmail_finalizer.py finds.
use inboxlume.Base.{
  ◌≡◌, refl, subst, true, ◌||◌, String, [], ◌∷◌, str_eq, Option, none, some, Result, ok, raise,
  ok_injective, Bool-cases, Option-cases, inl, inr, arith, All,
}
use inboxlume.Gmail.Json.{Json, JsonItems, no_items, item, JsonFields, get_field}
use inboxlume.Gmail.Transport.{quarantine_label_name, legacy_quarantine_label_name}
use inboxlume.Gmail.Labels.{and_then}
use inboxlume.Gmail.Finalizer.{
  Matches, accepted_name, label_identity, valid_entry, has_name, match_named, match_entry,
  match_labels, label_values,
}
use inboxlume.Gmail.Finals.{QuarantineEntry, ListsLabel, here, there}

-- A chain that returns passed on what its first call returned.
and_then_ok :
    {A B : Type 0} (m : Result A) (f : A → Result B) (b : B)
    → and_then m f ≡ ok b
    → (a : A) × (m ≡ ok a) × (f a ≡ ok b)
and_then_ok (ok a) f b e = (a, refl, e)
and_then_ok (raise x) f b e = ground arith

label_identity-text :
    (found : Option Json) (label : String)
    → label_identity found ≡ some label
    → found ≡ some (Json.text label)
unfolding label_identity
label_identity-text none label e = ground (arith, e)
label_identity-text (some (Json.text s)) label e = ground (arith, e)
label_identity-text (some Json.null) label e = ground (arith, e)
label_identity-text (some (Json.boolean _)) label e = ground (arith, e)
label_identity-text (some (Json.number _)) label e = ground (arith, e)
label_identity-text (some (Json.array _)) label e = ground (arith, e)
label_identity-text (some (Json.object _)) label e = ground (arith, e)

abbrev Accepted : Option Json → String → Type 0
Accepted found name =
    (found ≡ some (Json.text name))
    × ((str_eq name quarantine_label_name || str_eq name legacy_quarantine_label_name) ≡ true)

accepted_name-Accepted :
    (found : Option Json) (name : String)
    → accepted_name found ≡ ok (some name)
    → Accepted found name
unfolding accepted_name
accepted_name-Accepted none name e = ground (arith, e)
accepted_name-Accepted (some (Json.text s)) name e = (ground (arith, e), ground (arith, e))
accepted_name-Accepted (some Json.null) name e = ground (arith, e)
accepted_name-Accepted (some (Json.boolean _)) name e = ground (arith, e)
accepted_name-Accepted (some (Json.number _)) name e = ground (arith, e)
accepted_name-Accepted (some (Json.array _)) name e = ground (arith, e)
accepted_name-Accepted (some (Json.object _)) name e = ground (arith, e)

valid_entry-QuarantineEntry :
    (raw : JsonFields) (label name : String)
    → get_field "name" raw ≡ some (Json.text name)
    → (str_eq name quarantine_label_name || str_eq name legacy_quarantine_label_name) ≡ true
    → valid_entry raw ≡ some label
    → QuarantineEntry label raw
valid_entry-QuarantineEntry raw label name named accepted e = record {
  user = ground (arith, e);
  name = name;
  named = named;
  accepted = accepted;
  identity = label_identity-text (get_field "id" raw) label (ground (arith, e));
}

-- The label that an entry with an accepted name adds is the one of that entry.
module _ (Q : String → Type 0) where
  match_named-keeps :
      (raw : JsonFields) (found matches : Matches) (name : String)
      → get_field "name" raw ≡ some (Json.text name)
      → (str_eq name quarantine_label_name || str_eq name legacy_quarantine_label_name) ≡ true
      → match_named raw found (some name) ≡ ok matches
      → ((label : String) → QuarantineEntry label raw → Q label)
      → All Q (label_values found)
      → All Q (label_values matches)
  unfolding match_named label_values
  match_named-keeps raw found matches name named accepted e q all =
      elim (Option-cases (valid_entry raw)) [
        | inl invalid ↦ ground (arith, e, invalid)
        | inr (label, valid) ↦ elim (Bool-cases (has_name name found)) [
          | inl twice ↦ ground (arith, e, valid, twice)
          | inr once ↦
              let added : (name, label) ∷ found ≡ matches = ground (arith, e, valid, once) in
              subst (λ m. All Q (label_values m)) added
                (q label (valid_entry-QuarantineEntry raw label name named accepted valid), all)
        ]
      ]

  match_entry-keeps :
      (raw : Json) (rest : JsonItems) (found matches : Matches)
      → match_entry raw found ≡ ok matches
      → ((label : String) → ListsLabel label (item raw rest) → Q label)
      → All Q (label_values found)
      → All Q (label_values matches)
  unfolding match_entry match_named
  match_entry-keeps (Json.object raw) rest found matches e q all =
      let (accepted, one, others) =
        and_then_ok (accepted_name (get_field "name" raw)) _ matches e in
      accepted_step accepted one others
    where
      accepted_step :
          (accepted : Option String)
          → accepted_name (get_field "name" raw) ≡ ok accepted
          → match_named raw found accepted ≡ ok matches
          → All Q (label_values matches)
      accepted_step none one others =
          subst (λ m. All Q (label_values m)) (ok_injective found matches others) all
      accepted_step (some name) one others =
          let (named, good) = accepted_name-Accepted (get_field "name" raw) name one in
          match_named-keeps raw found matches name named good others (λ label l. q label (here l))
            all
  match_entry-keeps Json.null rest found matches e q all =
      subst (λ m. All Q (label_values m)) (ok_injective found matches e) all
  match_entry-keeps (Json.boolean _) rest found matches e q all =
      subst (λ m. All Q (label_values m)) (ok_injective found matches e) all
  match_entry-keeps (Json.number _) rest found matches e q all =
      subst (λ m. All Q (label_values m)) (ok_injective found matches e) all
  match_entry-keeps (Json.text _) rest found matches e q all =
      subst (λ m. All Q (label_values m)) (ok_injective found matches e) all
  match_entry-keeps (Json.array _) rest found matches e q all =
      subst (λ m. All Q (label_values m)) (ok_injective found matches e) all

  match_labels-keeps :
      (entries : JsonItems) (found matches : Matches)
      → match_labels entries found ≡ ok matches
      → ((label : String) → ListsLabel label entries → Q label)
      → All Q (label_values found)
      → All Q (label_values matches)
  unfolding match_labels
  match_labels-keeps no_items found matches e q all =
      subst (λ m. All Q (label_values m)) (ok_injective found matches e) all
  match_labels-keeps (item raw rest) found matches e q all =
      let (first, one, others) = and_then_ok (match_entry raw found) _ matches e in
      match_labels-keeps rest first matches others (λ label l. q label (there l))
        (match_entry-keeps raw rest found first one q all)

-- Every label that the loop collects is the id of an entry of the user with one of the two names.
pub match_labels-ListsLabel :
    (entries : JsonItems) (matches : Matches)
    → match_labels entries [] ≡ ok matches
    → All (λ label. ListsLabel label entries) (label_values matches)
unfolding label_values
match_labels-ListsLabel entries matches e =
    match_labels-keeps (λ label. ListsLabel label entries) entries [] matches e (λ label l. l) tt

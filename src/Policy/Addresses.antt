-- ===== src/Policy/Addresses.antt =====
-- src/inboxlume/policy.py: the sender's address and domain, and messages sent to oneself.
use inboxlume.Base.{
  ℕ, suc, Bool, false, ◌&&◌, not, String, Char, List, [], ◌∷◌, map, leb, ltb, ◌==◌, if◌then◌else◌,
  contains, intersects, filter, ◌||◌,
}
use Prim.Native.Char.{code}
use Prim.Native.String.{count}
use inboxlume.Models.{Platform, EmailRecord, is_blank}

-- `value.lstrip()`
unfoldable pub lstrip : (Char → Bool) → String → String
lstrip is_space String.[] = String.[]
lstrip is_space (String.◌∷◌ c s) = if is_space c then lstrip is_space s else String.◌∷◌ c s

-- `value.rstrip()`: the text up to its last character that is no space.
unfoldable pub rstrip : (Char → Bool) → String → String
rstrip is_space String.[] = String.[]
rstrip is_space (String.◌∷◌ c s) =
    if is_blank is_space (String.◌∷◌ c s) then String.[] else String.◌∷◌ c (rstrip is_space s)

unfoldable pub strip : (Char → Bool) → String → String
strip is_space value = rstrip is_space (lstrip is_space value)

abbrev pub is_at : Char → Bool
is_at c = code c == b'@'

-- `value.count("@")`
unfoldable pub count_at : String → ℕ
count_at String.[] = 0
count_at (String.◌∷◌ c s) = if is_at c then suc (count_at s) else count_at s

-- `value.rsplit("@", 1)[1]` where there is an `@`, and `""` where there is none.
unfoldable pub after_last_at : String → String
after_last_at String.[] = String.[]
after_last_at (String.◌∷◌ c s) =
    let rest = after_last_at s in if is_at c && count_at s == 0 then s else rest

-- `any(character.isspace() or ord(character) < 32 for character in value)`
unfoldable pub has_space_or_control : (Char → Bool) → String → Bool
has_space_or_control is_space String.[] = false
has_space_or_control is_space (String.◌∷◌ c s) =
    is_space c || ltb (code c) 32 || has_space_or_control is_space s

module _ (py : Platform) where
  -- The two results of `_sender_parts`.
  unfoldable pub sender_address : String → String
  sender_address sender = py.casefold (strip py.is_space (py.parse_address sender))

  unfoldable pub sender_domain : String → String
  sender_domain sender = after_last_at (sender_address sender)

  unfoldable pub is_valid_address : String → Bool
  is_valid_address a =
      leb 3 (count a)
      && leb (count a) 320
      && count_at a == 1
      && not (has_space_or_control py.is_space a)

  unfoldable pub valid_addresses : List String → List String
  valid_addresses values =
      filter is_valid_address
        (map (λ raw. py.casefold (strip py.is_space raw)) (py.get_addresses values))

  -- `_RECIPIENT_HEADERS`
  unfoldable pub recipient_headers : List String
  recipient_headers = "to" ∷ "cc" ∷ "bcc" ∷ "delivered-to" ∷ "x-original-to" ∷ "envelope-to" ∷ []

  -- The values of the headers that name a recipient.
  unfoldable pub recipient_values : List (String × String) → List String
  recipient_values [] = []
  recipient_values ((key, value) ∷ headers) =
      let rest = recipient_values headers in
      if contains (py.casefold key) recipient_headers then value ∷ rest else rest

  -- With no sender address the intersection is empty too.
  unfoldable pub is_sent_to_self : EmailRecord → Bool
  is_sent_to_self m =
      intersects (valid_addresses (m.sender ∷ [])) (valid_addresses (recipient_values m.headers))

-- ===== src/Gmail/Json.antt =====
-- The values of Python's `json`, as the Gmail clients read and write them. An object has the rows of
-- its dictionary, with different keys; a number is its text.
use inboxlume.Base.{
  Bool, true, false, ◌&&◌, String, List, [], ◌∷◌, str_eq, if◌then◌else◌, Option, none, some,
}

mutual
  pub data Json : Type 0 where
    null : Json
    boolean : Bool → Json
    number text : String → Json
    array : JsonItems → Json
    object : JsonFields → Json

  pub data JsonItems : Type 0 where
    no_items : JsonItems
    item : Json → JsonItems → JsonItems

  pub data JsonFields : Type 0 where
    no_fields : JsonFields
    field : String → Json → JsonFields → JsonFields

-- `fields.get(key)`
unfoldable pub get_field : String → JsonFields → Option Json
get_field key no_fields = none
get_field key (field other value rest) =
    let later = get_field key rest in if str_eq key other then some value else later

unfoldable pub field_names : JsonFields → List String
field_names no_fields = []
field_names (field name value rest) = name ∷ field_names rest

abbrev pub with_text : String → Option (List String) → Option (List String)
with_text s none = none
with_text s (some rest) = some (s ∷ rest)

-- The texts of an array that holds nothing else.
unfoldable pub item_texts : JsonItems → Option (List String)
item_texts no_items = some []
item_texts (item (Json.text s) rest) = with_text s (item_texts rest)
item_texts (item _ rest) = none

-- `value == text`
abbrev pub is_text : String → Option Json → Bool
is_text s (some (Json.text t)) = str_eq t s
is_text s _ = false

unfoldable pub same_texts : List String → List String → Bool
same_texts [] [] = true
same_texts (x ∷ xs) (y ∷ ys) = str_eq x y && same_texts xs ys
same_texts _ _ = false

abbrev pub is_list_of : List String → Option (List String) → Bool
is_list_of expected none = false
is_list_of expected (some found) = same_texts found expected

-- `value == [...]`, for an array of texts
abbrev pub is_texts : List String → Option Json → Bool
is_texts expected (some (Json.array items)) = is_list_of expected (item_texts items)
is_texts expected _ = false

-- The array of some texts.
unfoldable pub items_of : List String → JsonItems
items_of [] = no_items
items_of (x ∷ xs) = item (Json.text x) (items_of xs)

abbrev pub texts : List String → Json
texts xs = Json.array (items_of xs)

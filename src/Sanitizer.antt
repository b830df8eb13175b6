-- ===== src/Sanitizer.antt =====
-- src/inboxlume/sanitizer.py: the text of a message that the classifier may read. The events of an HTML
-- text are those of Python's `HTMLParser`, and whether a category of a character starts with "C" is
-- from the Unicode tables; both are parameters.
pub mod Visible
pub mod Plain
use Prim.Native.Char.{code}
use inboxlume.Base.{
  ℕ, zero, suc, Bool, true, false, ◌&&◌, ◌||◌, not, String, Char, ◌<>◌, List, [], ◌∷◌, ◌++◌,
  contains, ◌==◌, if◌then◌else◌, starts_with,
}
use inboxlume.Policy.Addresses.{strip}

unfoldable pub block_tags : List String
block_tags =
    "address" ∷ "article" ∷ "blockquote" ∷ "br" ∷ "div" ∷ "footer" ∷ "h1" ∷ "h2" ∷ "h3" ∷ "h4"
    ∷ "h5" ∷ "h6" ∷ "header" ∷ "li" ∷ "main" ∷ "p" ∷ "section" ∷ "table" ∷ "td" ∷ "th" ∷ "tr" ∷ []

unfoldable pub skip_tags : List String
skip_tags = "script" ∷ "style" ∷ "noscript" ∷ "svg" ∷ "canvas" ∷ []

-- The calls of the handlers, in their order.
pub data Event : Type 0 where
  start_tag end_tag data_text : String → Event

pub record VisibleTextParser : Type 0 where
  pub parts : List String
  pub skip_depth : ℕ

abbrev pub new_parser : VisibleTextParser
new_parser = record { parts = []; skip_depth = 0 }

abbrev pub append : String → VisibleTextParser → VisibleTextParser
append part p = record p { parts = p.parts ++ (part ∷ []) }

module _ (casefold : String → String) where
  -- `handle_starttag`
  unfoldable pub handle_starttag : String → VisibleTextParser → VisibleTextParser
  handle_starttag tag p =
      if contains (casefold tag) skip_tags
      then record p { skip_depth = suc p.skip_depth }
      else if p.skip_depth == 0 && contains (casefold tag) block_tags
      then append "\n" p
      else p

  abbrev pub shallower : ℕ → ℕ
  shallower zero = zero
  shallower (suc depth) = depth

  -- `handle_endtag`
  unfoldable pub handle_endtag : String → VisibleTextParser → VisibleTextParser
  handle_endtag tag p =
      if contains (casefold tag) skip_tags && not (p.skip_depth == 0)
      then record p { skip_depth = shallower p.skip_depth }
      else if p.skip_depth == 0 && contains (casefold tag) block_tags
      then append "\n" p
      else p

  -- `handle_data`
  unfoldable pub handle_data : String → VisibleTextParser → VisibleTextParser
  handle_data text p = if p.skip_depth == 0 then append text p else p

  unfoldable pub handle : Event → VisibleTextParser → VisibleTextParser
  handle (Event.start_tag tag) p = handle_starttag tag p
  handle (Event.end_tag tag) p = handle_endtag tag p
  handle (Event.data_text text) p = handle_data text p

  -- `feed` and `close`
  unfoldable pub feed : List Event → VisibleTextParser → VisibleTextParser
  feed [] p = p
  feed (e ∷ events) p = feed events (handle e p)

abbrev pub is_char : ℕ → Char → Bool
is_char n c = code c == n

-- `_remove_control_characters`
unfoldable pub remove_control_characters : (Char → Bool) → String → String
remove_control_characters is_control String.[] = ""
remove_control_characters is_control (String.◌∷◌ c s) =
    let rest = remove_control_characters is_control s in
    if is_char 10 c || is_char 9 c || not (is_control c) then String.◌∷◌ c rest else rest

-- `.replace("\r\n", "\n").replace("\r", "\n")`; `after_return` says that the last character was "\r".
unfoldable pub unix_lines : Bool → String → String
unix_lines after_return String.[] = ""
unix_lines after_return (String.◌∷◌ c s) =
    let at_return = unix_lines true s in
    let elsewhere = unix_lines false s in
    if is_char 13 c
    then "\n" <> at_return
    else if after_return && is_char 10 c
    then elsewhere
    else String.◌∷◌ c elsewhere

-- `re.sub(r"[ \t]+", " ", ...)`; `after_blank` says that a blank came last.
unfoldable pub single_blanks : Bool → String → String
single_blanks after_blank String.[] = ""
single_blanks after_blank (String.◌∷◌ c s) =
    let at_blank = single_blanks true s in
    let elsewhere = single_blanks false s in
    if is_char 32 c || is_char 9 c
    then (if after_blank then at_blank else String.◌∷◌ " " at_blank)
    else String.◌∷◌ c elsewhere

-- `re.sub(r"\n{3,}", "\n\n", ...)`, after so many line ends.
unfoldable pub double_lines : ℕ → String → String
double_lines seen String.[] = ""
double_lines seen (String.◌∷◌ c s) =
    let further = double_lines (suc seen) s in
    let elsewhere = double_lines 0 s in
    if is_char 10 c
    then (if seen == 0 || seen == 1 then String.◌∷◌ c further else further)
    else String.◌∷◌ c elsewhere

-- `[:max_chars]`
unfoldable pub first_chars : ℕ → String → String
first_chars zero s = ""
first_chars (suc n) String.[] = ""
first_chars (suc n) (String.◌∷◌ c s) = String.◌∷◌ c (first_chars n s)

unfoldable pub concatenated : List String → String
concatenated [] = ""
concatenated (part ∷ parts) = part <> concatenated parts

module _ (casefold : String → String) (is_space is_control : Char → Bool)
    (parse : String → List Event) where
  -- `normalize_plain_text`
  unfoldable pub normalize_plain_text : String → ℕ → String
  normalize_plain_text value max_chars = first_chars max_chars (
      strip is_space (
        double_lines 0
          (single_blanks false (remove_control_characters is_control (unix_lines false value)))))

  -- `html_to_visible_text`
  unfoldable pub html_to_visible_text : String → ℕ → String
  html_to_visible_text value max_chars =
      normalize_plain_text (concatenated (feed casefold (parse value) new_parser).parts) max_chars

  -- `sanitize_body`
  unfoldable pub sanitize_body : String → String → ℕ → String
  sanitize_body value content_type max_chars =
      if starts_with (casefold content_type) "text/html"
      then html_to_visible_text value max_chars
      else normalize_plain_text value max_chars

-- ===== src/Sanitizer/Visible.antt =====
-- The parser of src/inboxlume/sanitizer.py against the tree of an HTML text whose tags are closed.
use inboxlume.Base.{
  ◌≡◌, refl, sym, ◌∙◌, ap, ℕ, suc, Bool, true, false, String, List, [], ◌∷◌, ◌++◌, contains,
  if◌then◌else◌, Bool-cases, inl, inr, arith,
}
use mathlib.Core.List.{append_assoc, append-nil}
use inboxlume.Sanitizer.{
  Event, start_tag, end_tag, data_text, VisibleTextParser, new_parser, handle_starttag,
  handle_endtag, handle_data, handle, feed, skip_tags, block_tags,
}

-- The first node of a text, with its children, and the nodes after it.
pub data Html : Type 0 where
  nothing : Html
  text : String → Html → Html
  element : String → Html → Html → Html
  unclosed : String → Html → Html  -- `<br>`: a tag without an end

unfoldable pub events_of : Html → List Event
events_of nothing = []
events_of (text content rest) = data_text content ∷ events_of rest
events_of (element tag children rest) =
    start_tag tag ∷ (events_of children ++ (end_tag tag ∷ events_of rest))
events_of (unclosed tag rest) = start_tag tag ∷ events_of rest

module _ (casefold : String → String) where
  abbrev is_skipped : String → Bool
  is_skipped tag = contains (casefold tag) skip_tags

  abbrev line_end : String → List String
  line_end tag = if contains (casefold tag) block_tags then "\n" ∷ [] else []

  -- The texts outside of skipped elements, with a line end at each border of a block.
  unfoldable pub visible : Html → List String
  visible nothing = []
  visible (text content rest) = content ∷ visible rest
  visible (element tag children rest) =
      if is_skipped tag
      then visible rest
      else line_end tag ++ (visible children ++ (line_end tag ++ visible rest))
  visible (unclosed tag rest) = line_end tag ++ visible rest

  -- A tag of a skipped kind is always closed.
  unfoldable pub Closed : Html → Type 0
  Closed nothing = Unit
  Closed (text content rest) = Closed rest
  Closed (element tag children rest) = Closed children × Closed rest
  Closed (unclosed tag rest) = (is_skipped tag ≡ false) × Closed rest

  feed-append :
      (xs ys : List Event) (p : VisibleTextParser)
      → feed casefold (xs ++ ys) p ≡ feed casefold ys (feed casefold xs p)
  unfolding feed
  feed-append [] ys p = refl
  feed-append (x ∷ xs) ys p = feed-append xs ys (handle casefold x p)

  abbrev at : List String → ℕ → VisibleTextParser
  at parts depth = record { parts = parts; skip_depth = depth }

  module _ (parts : List String) (depth : ℕ) where
    data-hidden :
        (content : String)
        → handle casefold (data_text content) (at parts (suc depth)) ≡ at parts (suc depth)
    unfolding handle handle_data
    data-hidden content = ground arith

    start-hidden :
        (tag : String)
        → is_skipped tag ≡ false
        → handle casefold (start_tag tag) (at parts (suc depth)) ≡ at parts (suc depth)
    unfolding handle handle_starttag
    start-hidden tag e = ground (arith, e)

    end-hidden :
        (tag : String)
        → is_skipped tag ≡ false
        → handle casefold (end_tag tag) (at parts (suc depth)) ≡ at parts (suc depth)
    unfolding handle handle_endtag
    end-hidden tag e = ground (arith, e)

    start-skipped :
        (tag : String)
        → is_skipped tag ≡ true
        → handle casefold (start_tag tag) (at parts depth) ≡ at parts (suc depth)
    unfolding handle handle_starttag
    start-skipped tag e = ground (arith, e)

    end-skipped :
        (tag : String)
        → is_skipped tag ≡ true
        → handle casefold (end_tag tag) (at parts (suc depth)) ≡ at parts depth
    unfolding handle handle_endtag
    end-skipped tag e = ground (arith, e)

  -- An element: its first tag, its children and its last tag, and then the rest.
  feed-element :
      (tag : String) (children rest : Html) (p q r s : VisibleTextParser)
      → handle casefold (start_tag tag) p ≡ q
      → feed casefold (events_of children) q ≡ r
      → handle casefold (end_tag tag) r ≡ s
      → feed casefold (events_of (element tag children rest)) p ≡ feed casefold (events_of rest) s
  unfolding feed events_of
  feed-element tag children rest p q r s first inner last =
      ap (λ x. feed casefold (events_of children ++ (end_tag tag ∷ events_of rest)) x) first
      ∙ (feed-append (events_of children) (end_tag tag ∷ events_of rest) q
          ∙ (ap (λ x. feed casefold (end_tag tag ∷ events_of rest) x) inner
              ∙ ap (λ x. feed casefold (events_of rest) x) last))

  -- Inside a skipped element nothing is shown.
  feed-hidden :
      (h : Html) (parts : List String) (depth : ℕ)
      → Closed h
      → feed casefold (events_of h) (at parts (suc depth)) ≡ at parts (suc depth)
  unfolding feed events_of Closed
  feed-hidden nothing parts depth c = refl
  feed-hidden (text content rest) parts depth c =
      ap (λ x. feed casefold (events_of rest) x) (data-hidden parts depth content)
      ∙ feed-hidden rest parts depth c
  feed-hidden (element tag children rest) parts depth (c, cs) = elim (Bool-cases (is_skipped tag)) [
    | inl skipped ↦
        feed-element tag children rest (at parts (suc depth)) (at parts (suc (suc depth)))
          (at parts (suc (suc depth))) (at parts (suc depth))
          (start-skipped parts (suc depth) tag skipped) (feed-hidden children parts (suc depth) c)
          (end-skipped parts (suc depth) tag skipped)
        ∙ feed-hidden rest parts depth cs
    | inr shown ↦
        feed-element tag children rest (at parts (suc depth)) (at parts (suc depth))
          (at parts (suc depth)) (at parts (suc depth)) (start-hidden parts depth tag shown)
          (feed-hidden children parts depth c) (end-hidden parts depth tag shown)
        ∙ feed-hidden rest parts depth cs
  ]
  feed-hidden (unclosed tag rest) parts depth (c, cs) =
      ap (λ x. feed casefold (events_of rest) x) (start-hidden parts depth tag c)
      ∙ feed-hidden rest parts depth cs

  module _ (parts : List String) where
    data-shown :
        (content : String)
        → handle casefold (data_text content) (at parts 0) ≡ at (parts ++ (content ∷ [])) 0
    unfolding handle handle_data
    data-shown content = refl

    start-shown :
        (tag : String)
        → is_skipped tag ≡ false
        → handle casefold (start_tag tag) (at parts 0) ≡ at (parts ++ line_end tag) 0
    unfolding handle handle_starttag
    start-shown tag e = ground (arith, e, append-nil parts)

    end-shown :
        (tag : String)
        → is_skipped tag ≡ false
        → handle casefold (end_tag tag) (at parts 0) ≡ at (parts ++ line_end tag) 0
    unfolding handle handle_endtag
    end-shown tag e = ground (arith, e, append-nil parts)

  four : (a b c d e : List String) → a ++ b ++ c ++ d ++ e ≡ a ++ (b ++ (c ++ (d ++ e)))
  four a b c d e =
      append_assoc (a ++ b ++ c) d e
      ∙ (append_assoc (a ++ b) c (d ++ e) ∙ append_assoc a b (c ++ (d ++ e)))

  feed-visible-from :
      (h : Html) (parts : List String)
      → Closed h
      → feed casefold (events_of h) (at parts 0) ≡ at (parts ++ visible h) 0
  unfolding feed events_of Closed visible
  feed-visible-from nothing parts c = ap (λ x. at x 0) (sym (append-nil parts))
  feed-visible-from (text content rest) parts c =
      ap (λ x. feed casefold (events_of rest) x) (data-shown parts content)
      ∙ (feed-visible-from rest (parts ++ (content ∷ [])) c
          ∙ ap (λ x. at x 0) (append_assoc parts (content ∷ []) (visible rest)))
  feed-visible-from (element tag children rest) parts (c, cs) = elim (Bool-cases (is_skipped tag)) [
    | inl skipped ↦
        feed-element tag children rest (at parts 0) (at parts 1) (at parts 1) (at parts 0)
          (start-skipped parts 0 tag skipped) (feed-hidden children parts 0 c)
          (end-skipped parts 0 tag skipped)
        ∙ (feed-visible-from rest parts cs ∙ ap (λ x. at (parts ++ x) 0) (rw skipped))
    | inr shown ↦
        let opened : List String = parts ++ line_end tag in
        let inner : List String = opened ++ visible children in
        feed-element tag children rest (at parts 0) (at opened 0) (at inner 0)
          (at (inner ++ line_end tag) 0) (start-shown parts tag shown)
          (feed-visible-from children opened c) (end-shown inner tag shown)
        ∙ (feed-visible-from rest (inner ++ line_end tag) cs
            ∙ ap (λ x. at x 0)
                (rw shown
                  (four parts (line_end tag) (visible children) (line_end tag) (visible rest))))
  ]
  feed-visible-from (unclosed tag rest) parts (c, cs) =
      ap (λ x. feed casefold (events_of rest) x) (start-shown parts tag c)
      ∙ (feed-visible-from rest (parts ++ line_end tag) cs
          ∙ ap (λ x. at x 0) (append_assoc parts (line_end tag) (visible rest)))

  -- The parser shows of an HTML text whose tags are closed exactly the texts outside of the elements
  -- `script`, `style`, `noscript`, `svg` and `canvas`, in their order, with a line end at each border of a
  -- block, and it ends outside of them.
  pub feed-visible :
      (h : Html)
      → Closed h
      → feed casefold (events_of h) new_parser ≡ record { parts = visible h; skip_depth = 0 }
  feed-visible h c = feed-visible-from h [] c

-- ===== src/Tests/Bodies.antt =====
-- The theorems on the text of a body, at a short HTML text.
use Prim.Native.String.{count}
use inboxlume.Base.{◌≡◌, refl, ◌≤◌, Bool, true, Char, String, List, [], ◌∷◌, contains, leb}
use Prim.Native.Char.{code}
use inboxlume.Policy.Addresses.{strip, lstrip, rstrip}
use inboxlume.Models.{is_blank}
use inboxlume.Sanitizer.{
  Event, new_parser, feed, skip_tags, block_tags, unix_lines, remove_control_characters,
  single_blanks, double_lines, first_chars, normalize_plain_text,
}
use inboxlume.Sanitizer.Visible.{
  Html, nothing, text, element, unclosed, events_of, visible, Closed, feed-visible,
}
use inboxlume.Sanitizer.Plain.{every, shown, normalize_plain_text-shown}
use inboxlume.Tests.Data.{ascii, lower, counterpart}

-- `<p>Sale<br><script>x<p>y</p></script>now</p>`
abbrev offer_page : Html
offer_page =
    element "P"
      (text "Sale" (
        unclosed "br" (
          element "script" (text "x" (element "p" (text "y" nothing) nothing))
            (text "now" nothing))))
      nothing

offer_page-Closed : Closed lower offer_page
unfolding Closed contains lower counterpart skip_tags
offer_page-Closed = ((refl, ((tt, tt), tt)), tt)

offer_parts : visible lower offer_page ≡ "\n" ∷ "Sale" ∷ "\n" ∷ "now" ∷ "\n" ∷ []
unfolding visible contains lower counterpart skip_tags block_tags
offer_parts = refl

feed-visible_example :
    feed lower (events_of offer_page) new_parser
    ≡ record { parts = visible lower offer_page; skip_depth = 0 }
feed-visible_example = feed-visible lower offer_page offer_page-Closed

abbrev is_ascii_control : Char → Bool
is_ascii_control c = leb (code c) 31

abbrev no_events : String → List Event
no_events s = []

-- Five characters are left of a longer text.
normalize_plain_text-shown_example :
    (count (
        normalize_plain_text lower ascii.is_space is_ascii_control no_events "a \t b\n\n\n\nc\r\n"
          5)
      ≤ 5)
    × (every (shown is_ascii_control) (
          normalize_plain_text lower ascii.is_space is_ascii_control no_events "a \t b\n\n\n\nc\r\n"
            5)
        ≡ true)
normalize_plain_text-shown_example =
    normalize_plain_text-shown lower ascii.is_space is_ascii_control no_events "a \t b\n\n\n\nc\r\n"
      5 refl

plain_kept :
    normalize_plain_text lower ascii.is_space is_ascii_control no_events "a \t b\n\n\n\nc\r\n" 5
    ≡ "a b\n\n"
unfolding normalize_plain_text first_chars strip lstrip rstrip is_blank double_lines single_blanks
    remove_control_characters unix_lines
plain_kept = refl

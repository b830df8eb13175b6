-- ===== src/Sanitizer/Plain.antt =====
-- What `normalize_plain_text` of src/inboxlume/sanitizer.py leaves of a text.
use Prim.Native.String.{count}
use inboxlume.Base.{
  ◌≡◌, refl, List, ℕ, zero, suc, ◌≤◌, Bool, true, false, ◌&&◌, ◌||◌, not, String, Char,
  if◌then◌else◌, arith, Bool-cases, inl, inr,
}
use text.Mathlib.TextLemmas.{length-cons}
use inboxlume.Models.{is_blank}
use inboxlume.Policy.Addresses.{strip, lstrip, rstrip}
use inboxlume.Sanitizer.{
  Event, is_char, remove_control_characters, unix_lines, single_blanks, double_lines, first_chars,
  normalize_plain_text,
}

-- Every character of the text passes the test.
unfoldable pub every : (Char → Bool) → String → Bool
every p String.[] = true
every p (String.◌∷◌ c s) = p c && every p s

module _ (is_control : Char → Bool) where
  abbrev pub shown : Char → Bool
  shown c = is_char 10 c || is_char 9 c || not (is_control c)

  remove_control_characters-every :
      (s : String) → every shown (remove_control_characters is_control s) ≡ true
  unfolding every remove_control_characters
  remove_control_characters-every String.[] = refl
  remove_control_characters-every (String.◌∷◌ c s) =
      ground (arith, remove_control_characters-every s)

module _ (p : Char → Bool) where
  double_lines-every :
      (seen : ℕ) (s : String) → every p s ≡ true → every p (double_lines seen s) ≡ true
  unfolding every double_lines
  double_lines-every seen String.[] e = refl
  double_lines-every seen (String.◌∷◌ c s) e =
      ground (arith, e, double_lines-every (suc seen) s, double_lines-every 0 s)

  blank_step :
      (is_blank after : Bool) (c : Char) (at_blank elsewhere : String)
      → p " " ≡ true
      → p c ≡ true
      → every p at_blank ≡ true
      → every p elsewhere ≡ true
      → every p (
          if is_blank
          then (if after then at_blank else String.◌∷◌ " " at_blank)
          else String.◌∷◌ c elsewhere)
        ≡ true
  unfolding every
  blank_step true true c at_blank elsewhere b e x y = x
  blank_step true false c at_blank elsewhere b e x y = ground (arith, b, x)
  blank_step false after c at_blank elsewhere b e x y = ground (arith, e, y)

  single_blanks-every :
      (after : Bool) (s : String)
      → p " " ≡ true
      → every p s ≡ true
      → every p (single_blanks after s) ≡ true
  unfolding every single_blanks
  single_blanks-every after String.[] b e = refl
  single_blanks-every after (String.◌∷◌ c s) b e =
      blank_step (is_char 32 c || is_char 9 c) after c (single_blanks true s)
        (single_blanks false s) b (ground (arith, e))
        (single_blanks-every true s b (ground (arith, e)))
        (single_blanks-every false s b (ground (arith, e)))

  first_chars-every : (n : ℕ) (s : String) → every p s ≡ true → every p (first_chars n s) ≡ true
  unfolding every first_chars
  first_chars-every zero s e = refl
  first_chars-every (suc n) String.[] e = refl
  first_chars-every (suc n) (String.◌∷◌ c s) e = ground (arith, e, first_chars-every n s)

first_chars-count : (n : ℕ) (s : String) → count (first_chars n s) ≤ n
unfolding first_chars
first_chars-count zero s = ground arith
first_chars-count (suc n) String.[] = ground arith
first_chars-count (suc n) (String.◌∷◌ c s) =
    ground (arith, length-cons c (first_chars n s), first_chars-count n s)

module _ (p : Char → Bool) (is_space : Char → Bool) where
  lstrip-every : (s : String) → every p s ≡ true → every p (lstrip is_space s) ≡ true
  unfolding every lstrip
  lstrip-every String.[] e = refl
  lstrip-every (String.◌∷◌ c s) e = ground (arith, e, lstrip-every s)

  rstrip-every : (s : String) → every p s ≡ true → every p (rstrip is_space s) ≡ true
  unfolding every rstrip
  rstrip-every String.[] e = refl
  rstrip-every (String.◌∷◌ c s) e = elim (Bool-cases (is_blank is_space (String.◌∷◌ c s))) [
    | inl blank ↦ rw (rstrip, blank) refl
    | inr more ↦ rw (rstrip, more) (ground (arith, e, rstrip-every s))
  ]

module _ (casefold : String → String) (is_space is_control : Char → Bool)
    (parse : String → List Event) where
  -- Where a space is no control character: the text that the classifier may read has at most
  -- `max_chars` characters, and each is a line end, a tab or no control character.
  pub normalize_plain_text-shown :
      (value : String) (max_chars : ℕ)
      → shown is_control " " ≡ true
      → (count (normalize_plain_text casefold is_space is_control parse value max_chars)
          ≤ max_chars)
        × (every
              (shown is_control)
              (normalize_plain_text casefold is_space is_control parse value max_chars)
            ≡ true)
  unfolding normalize_plain_text strip
  normalize_plain_text-shown value max_chars blank =
      let kept : String = remove_control_characters is_control (unix_lines false value) in
      let single : String = single_blanks false kept in
      let lines : String = double_lines 0 single in
      let left : String = lstrip is_space lines in
      (
        first_chars-count max_chars (rstrip is_space left),
        first_chars-every (shown is_control) max_chars (rstrip is_space left) (
            rstrip-every (shown is_control) is_space left (
              lstrip-every (shown is_control) is_space lines (
                double_lines-every (shown is_control) 0 single (
                  single_blanks-every (shown is_control) false kept blank
                    (remove_control_characters-every is_control (unix_lines false value)))))),
      )

-- ===== src/Guardrails/Laws.antt =====
-- Where the spans of `_phrase_spans` lie, and what the paired tests find.
use mathlib.Core.List.{append_assoc}
use inboxlume.Base.{
  ℕ, suc, ◌+◌, ◌-◌, ◌≤◌, ◌≡◌, refl, sym, ap, subst, ◌↔◌, inl, inr, Bool, true, ◌||◌, String, List,
  [], ◌∷◌, ◌++◌, length, leb, str_eq, eq_iff, take, drop, any, contains, arith, Bool-cases,
}
use inboxlume.Models.{Platform}
use inboxlume.Guardrails.{
  Spans.Span, Spans.tokenize, Spans.is_prefix_of, Spans.spans_from, Spans.phrase_spans,
  Spans.nearby, any_pair, between, connected, credential_change_in,
  AccessTerms.credential_context_terms, AccessTerms.security_state_change_terms,
}

-- Two spans that do not end before they begin are near exactly if they overlap, or at most the
-- maximum gap lies between them; and the order of the two does not matter.
pub nearby_lem :
    (l0 l1 r0 r1 gap : ℕ)
    → l0 ≤ l1
    → r0 ≤ r1
    → ((nearby (l0, l1) (r0, r1) gap ≡ true) ↔ ((r0 ≤ l1 + gap) × (l0 ≤ r1 + gap)))
      × (nearby (l0, l1) (r0, r1) gap ≡ nearby (r0, r1) (l0, l1) gap)
unfolding nearby
nearby_lem l0 l1 r0 r1 gap hl hr = (ground arith, ground arith)

module _ {ℓ} {A : Type ℓ} where
  pub length-append : (xs ys : List A) → length (xs ++ ys) ≡ length xs + length ys
  length-append [] ys = omega arith
  length-append (x ∷ xs) ys = omega (arith, length-append xs ys)

  take-append : (xs ys : List A) → take (length xs) (xs ++ ys) ≡ xs
  take-append [] ys = refl
  take-append (x ∷ xs) ys = ap (λ t. x ∷ t) (take-append xs ys)

  drop-append : (xs ys : List A) → drop (length xs) (xs ++ ys) ≡ ys
  drop-append [] ys = refl
  drop-append (x ∷ xs) ys = drop-append xs ys

  any-append : (p : A → Bool) (xs ys : List A) → any p (xs ++ ys) ≡ (any p xs || any p ys)
  unfolding any
  any-append p [] ys = refl
  any-append p (x ∷ xs) ys = ground (arith, any-append p xs ys)

length-eq-zero : (ys : List String) → length ys ≡ 0 → ys ≡ []
length-eq-zero [] h = refl
length-eq-zero (y ∷ ys) h = absurd (omega arith)

sizes : (xs ys : List String) → length xs + length ys ≡ length (xs ++ ys)
sizes xs ys = omega (arith, length-append xs ys)

-- A phrase of tokens is a prefix exactly if the slice of its width is the phrase.
is_prefix_of_iff : (ws ts : List String) → (is_prefix_of ws ts ≡ true) ↔ (take (length ws) ts ≡ ws)
unfolding is_prefix_of
is_prefix_of_iff [] ts = (λ _. refl, λ _. refl)
is_prefix_of_iff (w ∷ ws) [] = ground arith
is_prefix_of_iff (w ∷ ws) (t ∷ ts) = ground (arith, eq_iff t w, is_prefix_of_iff ws ts)

is_prefix_of-append : (ws ts : List String) → is_prefix_of ws (ws ++ ts) ≡ true
is_prefix_of-append ws ts = (is_prefix_of_iff ws (ws ++ ts)).1 (take-append ws ts)

-- An occurrence is found by any test that its span passes.
any-spans_from :
    (p : Span → Bool) (ws pre post : List String) (start k e : ℕ)
    → k ≡ start + length pre
    → e ≡ k + length ws
    → p (k, e) ≡ true
    → any p (spans_from ws start (pre ++ (ws ++ post))) ≡ true
unfolding spans_from any
any-spans_from p [] [] [] start k e hk he h =
    let k' : start ≡ k = omega arith in
    let e' : start + 0 ≡ e = omega arith in ground (arith, is_prefix_of-append [] [])
any-spans_from p [] [] (t ∷ post) start k e hk he h =
    let k' : start ≡ k = omega arith in
    let e' : start + 0 ≡ e = omega arith in ground (arith, is_prefix_of-append [] (t ∷ post))
any-spans_from p (w ∷ ws) [] post start k e hk he h =
    let k' : start ≡ k = omega arith in
    let e' : start + suc (length ws) ≡ e = omega arith in
    ground (arith, is_prefix_of-append (w ∷ ws) post)
any-spans_from p ws (t ∷ pre) post start k e hk he h =
    ground (arith, any-spans_from p ws pre post (suc start) k e (omega arith) he h)

module _ (py : Platform) where
  -- So is one of any phrase of a table.
  any-phrase_spans :
      (p : Span → Bool) (phrase : String) (phrases pre post : List String)
      → contains phrase phrases ≡ true
      → p (length pre, length pre + length (tokenize py phrase)) ≡ true
      → any p (phrase_spans py (pre ++ (tokenize py phrase ++ post)) phrases) ≡ true
  unfolding phrase_spans contains any
  any-phrase_spans p phrase [] pre post m h = cc
  any-phrase_spans p phrase (q ∷ phrases) pre post m h = elim (Bool-cases (str_eq phrase q)) [
    | inl same ↦ rw any-append (
        rw (← (eq_iff phrase q).0 same)
          (rw (any-spans_from p (tokenize py phrase) pre post 0 _ _ (omega arith) refl h)))
    | inr other ↦
        rw any-append (ground (arith, any-phrase_spans p phrase phrases pre post (ground arith) h))
  ]

slice-append :
    (xs ys zs : List String) (a b : ℕ)
    → a ≡ length xs
    → b ≡ a + length ys
    → take (b - a) (drop a (xs ++ (ys ++ zs))) ≡ ys
slice-append xs ys zs a b ha hb =
    let w : b - a ≡ length ys = omega arith in
    rw (w, ha, drop-append xs (ys ++ zs)) (take-append ys zs)

-- What lies between two spans is the same in either order.
between_lem :
    (py : Platform) (tokens xs ys zs : List String) (p a b q : ℕ)
    → tokens ≡ xs ++ (ys ++ zs)
    → a ≡ length xs
    → b ≡ a + length ys
    → p ≤ a
    → b ≤ q
    → (between py tokens (p, a) (b, q) ≡ ys) × (between py tokens (b, q) (p, a) ≡ ys)
unfolding between
between_lem py tokens xs ys zs p a b q et ha hb hp hq = (first, second)
  where
    here : take (b - a) (drop a tokens) ≡ ys
    here = rw et (slice-append xs ys zs a b ha hb)

    first : between py tokens (p, a) (b, q) ≡ ys
    first = ground (arith, here)

    second : between py tokens (b, q) (p, a) ≡ ys
    second = elim (Bool-cases (leb q p)) [
      | inl touching ↦ rw touching (ground (arith, length-eq-zero ys))
      | inr apart ↦ ground (arith, here)
    ]

-- The words between two phrases are what the test of the pair reads, in both orders.
module _ (py : Platform) (x w y pre post : List String) where
  abbrev laid_out : List String
  laid_out = pre ++ (x ++ (w ++ (y ++ post)))

  abbrev left : Span
  left = (length pre, length pre + length x)

  abbrev right : Span
  right = (length (pre ++ (x ++ w)), length (pre ++ (x ++ w)) + length y)

  between_phrases : (between py laid_out left right ≡ w) × (between py laid_out right left ≡ w)
  between_phrases =
      between_lem py laid_out (pre ++ x) w (y ++ post) (length pre) (length pre + length x)
        (length (pre ++ (x ++ w))) (length (pre ++ (x ++ w)) + length y) (simp append_assoc)
        (sizes pre x) (omega (arith, length-append pre (x ++ w), length-append x w)) (omega arith)
        (omega arith)

  regroup : laid_out ≡ (pre ++ (x ++ w)) ++ (y ++ post)
  regroup = simp append_assoc

module _ (py : Platform) (c d : String) where
  any_pair_phrases :
      (test : Span → Span → Bool) (cs ds pre post mid rest tokens : List String)
      → contains c cs ≡ true
      → contains d ds ≡ true
      → tokens ≡ pre ++ (tokenize py c ++ post)
      → tokens ≡ mid ++ (tokenize py d ++ rest)
      → test
          (length pre, length pre + length (tokenize py c))
          (length mid, length mid + length (tokenize py d))
        ≡ true
      → any_pair test (phrase_spans py tokens cs) (phrase_spans py tokens ds) ≡ true
  unfolding any_pair
  any_pair_phrases test cs ds pre post mid rest tokens hc hd et eu h =
      subst
        (λ ts. any (λ l. any (test l) (phrase_spans py tokens ds)) (phrase_spans py ts cs) ≡ true)
        (sym et)
        (any-phrase_spans py (λ l. any (test l) (phrase_spans py tokens ds)) c cs pre post hc
          (rw eu (any-phrase_spans py (test _) d ds mid rest hd h)))

  -- A credential and a change of state with at most four words between them, each a connector, are
  -- found at any place of a text, in this order and in the other one.
  pub credential_change_found :
      (pre words post : List String)
      → contains c credential_context_terms ≡ true
      → contains d security_state_change_terms ≡ true
      → connected py words ≡ true
      → (credential_change_in py (pre ++ (tokenize py c ++ (words ++ (tokenize py d ++ post))))
          ≡ true)
        × (credential_change_in py (pre ++ (tokenize py d ++ (words ++ (tokenize py c ++ post))))
            ≡ true)
  unfolding credential_change_in
  credential_change_found pre words post hc hd hw = (
    any_pair_phrases _ _ _ pre _ (pre ++ (tokenize py c ++ words)) post _ hc hd refl
        (regroup py (tokenize py c) words (tokenize py d) pre post)
        (rw (between_phrases py (tokenize py c) words (tokenize py d) pre post).0 hw),
    any_pair_phrases _ _ _ (pre ++ (tokenize py d ++ words)) post pre _ _ hc hd
        (regroup py (tokenize py d) words (tokenize py c) pre post) refl
        (rw (between_phrases py (tokenize py d) words (tokenize py c) pre post).1 hw),
  )

-- ===== src/Pipeline/Search.antt =====
-- src/inboxlume/pipeline.py: a search returns what its test accepts, whatever the mailbox does.
use inboxlume.Base.{
  ℕ, ◌≡◌, inl, inr, Bool, true, String, List, [], ◌∷◌, str_eq, if◌then◌else◌, ok, Result, ◌>>=◌,
  All, bind_ok, ok_injective, subst, arith, Bool-cases,
}
use inboxlume.Models.{Platform}
use inboxlume.Pipeline.{
  ReadOnlyMailbox, SearchDates, InboxMutationCandidate, check_candidate, record_matches, matched_at,
  all_matched, search_candidates,
}

-- The test accepts the candidate with the read state that it carries.
abbrev pub Accepted : (String → Bool → Result Bool) → InboxMutationCandidate → Type 0
Accepted test c = test c.message_id c.expected_unread ≡ ok true

check_candidate-same :
    (py : Platform) (c d : InboxMutationCandidate) → check_candidate py c ≡ ok d → c ≡ d
unfolding check_candidate
check_candidate-same py c d e = ground arith

record_matches-Accepted :
    (py : Platform) (test : String → Bool → Result Bool) (shown : List (String × Bool))
    (matched found : List InboxMutationCandidate)
    → All (Accepted test) matched
    → record_matches py test shown matched ≡ ok found
    → All (Accepted test) found
unfolding record_matches
record_matches-Accepted py test [] matched found h e =
    subst (All (Accepted test)) (ok_injective matched found e) h
record_matches-Accepted py test ((id, unread) ∷ shown) matched found h e =
    let seen = bind_ok (test id unread) _ found e in
    let candidate : InboxMutationCandidate = record { message_id = id; expected_unread = unread } in
    let go : InboxMutationCandidate → Result (List InboxMutationCandidate) =
      λ c. record_matches py test shown (c ∷ matched) in
    elim (Bool-cases seen.0) [
      | inl k ↦
          let made = bind_ok (check_candidate py candidate) go found (
            subst
              (λ b.
                (if b
                  then check_candidate py candidate >>= go
                  else record_matches py test shown matched)
                ≡ ok found)
              k seen.2) in
          record_matches-Accepted py test shown (made.0 ∷ matched) found
            (
              subst (Accepted test) (check_candidate-same py candidate made.0 made.1)
                  (subst (λ b. test id unread ≡ ok b) k seen.1),
              h,
            )
            made.2
      | inr k ↦ record_matches-Accepted py test shown matched found h (ground (arith, seen.2, k))
    ]

matched_at-Accepted :
    (test : String → Bool → Result Bool) (id : String) (matched : List InboxMutationCandidate)
    (c : InboxMutationCandidate)
    → All (Accepted test) matched
    → matched_at id matched ≡ ok c
    → Accepted test c
unfolding matched_at
matched_at-Accepted test id [] c h e = ground arith
matched_at-Accepted test id (d ∷ matched) c h e = elim (Bool-cases (str_eq id d.message_id)) [
  | inl k ↦ subst (Accepted test) (ok_injective d c (ground (arith, e, k))) h.0
  | inr k ↦ matched_at-Accepted test id matched c h.1 (ground (arith, e, k))
]

all_matched-Accepted :
    (test : String → Bool → Result Bool) (ids : List String)
    (matched found : List InboxMutationCandidate)
    → All (Accepted test) matched
    → all_matched ids matched ≡ ok found
    → All (Accepted test) found
unfolding all_matched
all_matched-Accepted test [] matched found h e =
    subst (All (Accepted test)) (ok_injective [] found e) tt
all_matched-Accepted test (id ∷ ids) matched found h e =
    let first = bind_ok (matched_at id matched) _ found e in
    let rest = bind_ok (all_matched ids matched) _ found first.2 in
    subst (All (Accepted test)) (ok_injective (first.0 ∷ rest.0) found rest.2) (
      matched_at-Accepted test id matched first.0 h first.1,
      all_matched-Accepted test ids matched rest.0 h rest.1,
    )

-- Whatever a mailbox shows and returns, a search returns only candidates that its test accepts with
-- the read state they carry.
pub search_candidates-Accepted :
    (py : Platform) (mailbox : ReadOnlyMailbox) (dates : SearchDates) (limit search_limit : ℕ)
    (test : String → Bool → Result Bool) (found : List InboxMutationCandidate)
    → search_candidates py mailbox dates limit search_limit test ≡ ok found
    → All (Accepted test) found
unfolding search_candidates
search_candidates-Accepted py mailbox dates limit search_limit test found e =
    let shown = mailbox.shown dates limit search_limit test in
    let matched = bind_ok (record_matches py test shown []) _ found e in
    all_matched-Accepted test (mailbox.returned dates limit search_limit test) matched.0 found
      (record_matches-Accepted py test shown [] matched.0 tt matched.1) matched.2

pub All-map {ℓ κ} :
    {A : Type 0} {P : A → Type ℓ} {Q : A → Type κ} (xs : List A)
    → ((a : A) → P a → Q a)
    → All P xs
    → All Q xs
All-map [] f h = tt
All-map (x ∷ xs) f h = (f x h.0, All-map xs f h.1)

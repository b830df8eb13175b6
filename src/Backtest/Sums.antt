-- ===== src/Backtest/Sums.antt =====
-- Sums over the families of two reports, for the comparison in src/inboxlume/safety_backtest.py.
use inboxlume.Base.{
  ◌≡◌, refl, subst, sym, ◌∙◌, ℕ, ◌+◌, ◌≤◌, false, String, List, [], ◌∷◌, ◌++◌, str_eq, ltb,
  if◌then◌else◌, Bool-cases, inl, inr, arith, All, eq_iff,
}
use mathlib.Core.List.{append_assoc, append-nil}
use inboxlume.Governor.{SafetyEvidenceBand}
use inboxlume.Backtest.{put, put_all, by_name, previous_false, insert_name, regressed}

-- The false cleanups of all bands.
unfoldable pub false_sum : List SafetyEvidenceBand → ℕ
false_sum [] = 0
false_sum (b ∷ bs) = b.false_cleanup + false_sum bs

-- No two bands have the same name.
unfoldable pub Different : List SafetyEvidenceBand → Type 0
Different [] = Unit
Different (b ∷ bs) = All (λ c. str_eq c.name b.name ≡ false) bs × Different bs

put-sum :
    (b : SafetyEvidenceBand) (rows : List SafetyEvidenceBand)
    → false_sum (put b rows) ≤ b.false_cleanup + false_sum rows
unfolding put false_sum
put-sum b [] = ground arith
put-sum b (x ∷ xs) = ground (arith, put-sum b xs)

put_all-sum :
    (rows bands : List SafetyEvidenceBand)
    → false_sum (put_all rows bands) ≤ false_sum rows + false_sum bands
unfolding put_all false_sum
put_all-sum rows [] = ground arith
put_all-sum rows (b ∷ bands) = ground (arith, put_all-sum (put b rows) bands, put-sum b rows)

-- What the previous report says of the families of the new one.
unfoldable pub previous_sum : List SafetyEvidenceBand → List SafetyEvidenceBand → ℕ
previous_sum [] previous = 0
previous_sum (b ∷ current) previous = previous_false b.name previous + previous_sum current previous

-- One family of the previous report counts for one family of the new one at most.
unfoldable pub matched_sum : List SafetyEvidenceBand → SafetyEvidenceBand → ℕ
matched_sum [] p = 0
matched_sum (b ∷ current) p =
    (if str_eq b.name p.name then p.false_cleanup else 0) + matched_sum current p

matched_sum-zero :
    (current : List SafetyEvidenceBand) (p : SafetyEvidenceBand)
    → All (λ c. str_eq c.name p.name ≡ false) current
    → matched_sum current p ≡ 0
unfolding matched_sum
matched_sum-zero [] p h = refl
matched_sum-zero (b ∷ current) p (h, hs) = ground (arith, matched_sum-zero current p hs, h)

matched_sum-bound :
    (current : List SafetyEvidenceBand) (p : SafetyEvidenceBand)
    → Different current
    → matched_sum current p ≤ p.false_cleanup
unfolding matched_sum Different
matched_sum-bound [] p h = ground arith
matched_sum-bound (b ∷ current) p (apart, h) = elim (Bool-cases (str_eq b.name p.name)) [
  | inl same ↦ ground (
    arith,
    same,
    matched_sum-zero current p (
        subst (λ n. All (λ c. str_eq c.name n ≡ false) current) ((eq_iff b.name p.name).0 same)
          apart),
  )
  | inr other ↦ ground (arith, other, matched_sum-bound current p h)
]

previous_sum-nothing : (current : List SafetyEvidenceBand) → previous_sum current [] ≡ 0
unfolding previous_sum previous_false
previous_sum-nothing [] = refl
previous_sum-nothing (b ∷ current) = ground (arith, previous_sum-nothing current)

previous_sum-step :
    (current rows : List SafetyEvidenceBand) (p : SafetyEvidenceBand)
    → previous_sum current (p ∷ rows) ≤ matched_sum current p + previous_sum current rows
unfolding previous_sum previous_false matched_sum
previous_sum-step [] rows p = ground arith
previous_sum-step (b ∷ current) rows p = ground (arith, previous_sum-step current rows p)

pub previous_sum-bound :
    (current rows : List SafetyEvidenceBand)
    → Different current
    → previous_sum current rows ≤ false_sum rows
unfolding false_sum
previous_sum-bound current [] h = ground (arith, previous_sum-nothing current)
previous_sum-bound current (p ∷ rows) h = ground (
  arith,
  previous_sum-step current rows p,
  matched_sum-bound current p h,
  previous_sum-bound current rows h,
)

insert_name-some : (n : String) (xs : List String) → (insert_name n xs ≡ []) → ⊥
unfolding insert_name
insert_name-some n [] e = ground (arith, e)
insert_name-some n (x ∷ xs) e = ground (arith, e)

-- Where no family regressed, the previous report counts no less for the families of the new one.
pub regressed-nothing :
    (current rows : List SafetyEvidenceBand)
    → regressed current rows ≡ []
    → false_sum current ≤ previous_sum current rows
unfolding regressed false_sum previous_sum
regressed-nothing [] rows e = ground arith
regressed-nothing (b ∷ current) rows e =
    elim (Bool-cases (ltb (previous_false b.name rows) b.false_cleanup)) [
      | inl more ↦ ground (arith, insert_name-some b.name (regressed current rows) (rw more at e))
      | inr less ↦ ground (arith, less, regressed-nothing current rows (rw less at e))
    ]

-- The rows of a dictionary of different names are the bands themselves.
put-new :
    (b : SafetyEvidenceBand) (rows : List SafetyEvidenceBand)
    → All (λ c. str_eq b.name c.name ≡ false) rows
    → put b rows ≡ rows ++ (b ∷ [])
unfolding put
put-new b [] h = refl
put-new b (x ∷ xs) (h, hs) = rw (h, put-new b xs hs)

-- Each band has another name than each row.
unfoldable Apart : List SafetyEvidenceBand → List SafetyEvidenceBand → Type 0
Apart rows [] = Unit
Apart rows (d ∷ bands) = All (λ c. str_eq d.name c.name ≡ false) rows × Apart rows bands

All-snoc :
    {A : Type 0} (P : A → Type 0) (xs : List A) (x : A) → All P xs → P x → All P (xs ++ (x ∷ []))
All-snoc P [] x h p = (p, tt)
All-snoc P (y ∷ xs) x (q, h) p = (q, All-snoc P xs x h p)

Apart-snoc :
    (rows bands : List SafetyEvidenceBand) (b : SafetyEvidenceBand)
    → Apart rows bands
    → All (λ c. str_eq c.name b.name ≡ false) bands
    → Apart (rows ++ (b ∷ [])) bands
unfolding Apart
Apart-snoc rows [] b h k = tt
Apart-snoc rows (d ∷ bands) b (h, hs) (k, ks) =
    (All-snoc (λ c. str_eq d.name c.name ≡ false) rows b h k, Apart-snoc rows bands b hs ks)

put_all-new :
    (rows bands : List SafetyEvidenceBand)
    → Different bands
    → Apart rows bands
    → put_all rows bands ≡ rows ++ bands
unfolding put_all Different Apart
put_all-new rows [] d h = sym (append-nil rows)
put_all-new rows (b ∷ bands) (k, d) (h, hs) = rw (put-new b rows h) (
    put_all-new (rows ++ (b ∷ [])) bands d (Apart-snoc rows bands b hs k)
    ∙ append_assoc rows (b ∷ []) bands)

Apart-nothing : (bands : List SafetyEvidenceBand) → Apart [] bands
unfolding Apart
Apart-nothing [] = tt
Apart-nothing (d ∷ bands) = (tt, Apart-nothing bands)

pub by_name-Different : (bands : List SafetyEvidenceBand) → Different bands → by_name bands ≡ bands
by_name-Different bands d = put_all-new [] bands d (Apart-nothing bands)

pub by_name-sum : (bands : List SafetyEvidenceBand) → false_sum (by_name bands) ≤ false_sum bands
unfolding false_sum
by_name-sum bands = ground (arith, put_all-sum [] bands)

-- ===== src/Backtest/Families.antt =====
-- Which families the comparison of src/inboxlume/safety_backtest.py names.
use inboxlume.Base.{
  ◌≡◌, refl, sym, subst, ap, ◌∙◌, ℕ, Bool, ◌&&◌, ◌||◌, String, List, [], ◌∷◌, any, contains, str_eq,
  ltb, if◌then◌else◌, Bool-cases, inl, inr, arith, eq_iff,
}
use inboxlume.Governor.{SafetyEvidenceBand}
use inboxlume.Backtest.{put, put_all, by_name, previous_false, insert_name, regressed}

-- The false cleanups of the last band of this name, or what is given where there is none.
unfoldable pub last_false : String → List SafetyEvidenceBand → ℕ → ℕ
last_false name [] otherwise = otherwise
last_false name (b ∷ bands) otherwise =
    last_false name bands (if str_eq name b.name then b.false_cleanup else otherwise)

-- The band has this name, and more false cleanups than `before`.
abbrev pub grew : String → ℕ → SafetyEvidenceBand → Bool
grew name before b = str_eq name b.name && ltb before b.false_cleanup

previous_false-put :
    (name : String) (b : SafetyEvidenceBand) (rows : List SafetyEvidenceBand)
    → previous_false name (put b rows)
      ≡ (if str_eq name b.name then b.false_cleanup else previous_false name rows)
unfolding put previous_false
previous_false-put name b [] = refl
previous_false-put name b (x ∷ xs) = elim (Bool-cases (str_eq b.name x.name)) [
  | inl same ↦ rw same (
      ground (
        arith,
        subst (λ n. str_eq name n ≡ str_eq name x.name) (sym ((eq_iff b.name x.name).0 same)) refl,
      ))
  | inr other ↦
      rw other (
        ground (arith, previous_false-put name b xs, other, eq_iff name b.name, eq_iff name x.name))
]

previous_false-put_all :
    (name : String) (rows bands : List SafetyEvidenceBand)
    → previous_false name (put_all rows bands) ≡ last_false name bands (previous_false name rows)
unfolding put_all last_false
previous_false-put_all name rows [] = refl
previous_false-put_all name rows (b ∷ bands) =
    previous_false-put_all name (put b rows) bands
    ∙ ap (last_false name bands) (previous_false-put name b rows)

pub previous_false-by_name :
    (name : String) (bands : List SafetyEvidenceBand)
    → previous_false name (by_name bands) ≡ last_false name bands 0
unfolding previous_false
previous_false-by_name name bands = previous_false-put_all name [] bands

contains-insert_name :
    (name n : String) (xs : List String)
    → contains name (insert_name n xs) ≡ (str_eq name n || contains name xs)
unfolding insert_name contains
contains-insert_name name n [] = refl
contains-insert_name name n (x ∷ xs) = ground (arith, contains-insert_name name n xs)

-- A family is named exactly if its band has more false cleanups than the previous rows say.
pub contains-regressed :
    (name : String) (current previous : List SafetyEvidenceBand)
    → contains name (regressed current previous)
      ≡ any (grew name (previous_false name previous)) current
unfolding regressed contains any
contains-regressed name [] previous = refl
contains-regressed name (b ∷ current) previous = elim (Bool-cases (str_eq name b.name)) [
  | inl same ↦ ground (
    arith,
    same,
    contains-regressed name current previous,
    contains-insert_name name b.name (regressed current previous),
    ap (λ n. previous_false n previous) ((eq_iff name b.name).0 same),
  )
  | inr other ↦ ground (
    arith,
    other,
    contains-regressed name current previous,
    contains-insert_name name b.name (regressed current previous),
  )
]

-- ===== src/Duration/Laws.antt =====
-- The loop of src/inboxlume/duration_estimator.py against its closed form.
use inboxlume.Base.{
  ◌≡◌, refl, ap, sym, ◌∙◌, ℕ, zero, suc, ◌+◌, ◌-◌, ◌*◌, ◌/◌, ◌%◌, ◌≤◌, ◌<◌, min, false, ◌==◌,
  if◌then◌else◌, Option, some, arith, Bool-cases, inl, inr,
}
use native.Mathlib.Nat.{div-add-mod', mod-lt}
use inboxlume.Duration.{chunk_seconds, chunk_loop, chunked_reference_seconds}

module _ (chunk_size seconds_per_message cold_floor : ℕ) where
  -- Full chunks, and then what is left.
  unfoldable pub closed_form : ℕ → ℕ → ℕ
  closed_form full rest =
      full * chunk_seconds chunk_size seconds_per_message cold_floor chunk_size
      + (if rest == 0 then 0 else chunk_seconds chunk_size seconds_per_message cold_floor rest)

  abbrev cost : ℕ → ℕ
  cost = chunk_seconds chunk_size seconds_per_message cold_floor

  abbrev loop : ℕ → ℕ → ℕ → Option ℕ
  loop = chunk_loop chunk_size seconds_per_message cold_floor

  loop-done : (fuel remaining total : ℕ) → remaining ≡ 0 → loop fuel remaining total ≡ some total
  unfolding chunk_loop
  loop-done zero remaining total e = rw e
  loop-done (suc fuel) remaining total e = rw e

  loop-step :
      (fuel remaining left chunk total : ℕ)
      → 1 ≤ remaining
      → min remaining chunk_size ≡ chunk
      → remaining - chunk ≡ left
      → loop (suc fuel) remaining total ≡ loop fuel left (total + cost chunk)
  unfolding chunk_loop
  loop-step fuel remaining left chunk total some_left first after =
      let nonzero : (remaining == 0) ≡ false = ground (arith, some_left) in
      rw (chunk_loop, nonzero, first, after)

  expand : (full : ℕ) → suc full * chunk_size ≡ chunk_size + full * chunk_size
  expand full = ground arith

  finish : (c full total rest : ℕ) → total + c + (full * c + rest) ≡ total + (suc full * c + rest)
  finish c full total rest = ground arith

  chunk_loop-closed :
      (fuel remaining full rest total : ℕ)
      → remaining ≡ full * chunk_size + rest
      → rest < chunk_size
      → remaining ≤ fuel
      → loop fuel remaining total ≡ some (total + closed_form full rest)
  unfolding closed_form
  chunk_loop-closed fuel remaining zero zero total split small enough =
      loop-done fuel remaining total (ground (arith, split)) ∙ ground arith
  chunk_loop-closed zero remaining zero (suc rest) total split small enough =
      ground (arith, split, enough)
  chunk_loop-closed zero remaining (suc full) rest total split small enough =
      ground (arith, split, small, enough, expand full)
  chunk_loop-closed (suc fuel) remaining zero (suc rest) total split small enough =
      loop-step fuel remaining 0 (suc rest) total (ground (arith, split))
        (ground (arith, small, split)) (ground (arith, split))
      ∙ (loop-done fuel 0 (total + cost (suc rest)) refl ∙ ground arith)
  chunk_loop-closed (suc fuel) remaining (suc full) rest total split small enough =
      loop-step fuel remaining (full * chunk_size + rest) chunk_size total
        (ground (arith, expand full, small, split)) (ground (arith, expand full, split))
        (ground (arith, expand full, split))
      ∙ (chunk_loop-closed fuel (full * chunk_size + rest) full rest (total + cost chunk_size) refl
            small (ground (arith, expand full, enough, small, split))
          ∙ ap (λ n. some n)
              (finish (cost chunk_size) full total (if rest == 0 then 0 else cost rest)))

  -- The loop ends, and its time is that of the full chunks and of what is left: each costs its messages,
  -- and the cold floor at least.
  pub chunked_reference_seconds-closed :
      (messages : ℕ)
      → 1 ≤ chunk_size
      → chunked_reference_seconds chunk_size seconds_per_message cold_floor messages
        ≡ some (closed_form (messages / chunk_size) (messages % chunk_size))
  unfolding chunked_reference_seconds
  chunked_reference_seconds-closed messages positive = elim (Bool-cases (messages == 0)) [
    | inl nothing ↦
        rw nothing (sym (loop-done messages messages 0 (ground (arith, nothing))) ∙ closed)
    | inr more ↦ rw more closed
  ]
    where
      closed :
          loop messages messages 0
          ≡ some (closed_form (messages / chunk_size) (messages % chunk_size))
      closed =
          chunk_loop-closed messages messages (messages / chunk_size) (messages % chunk_size) 0
            (sym (div-add-mod' messages chunk_size)) (mod-lt messages positive) (ground arith)
          ∙ ground arith

-- ===== src/Worker/Progress/Writes.antt =====
-- How often the progress of one attempt is written.
use scribeflow.Prelude.{
  ℕ, ◌+◌, ◌≤◌, ◌≡◌, refl, ap, suc, Bool, true, List, [], ◌∷◌, map, arith, All, length, Bool-cases,
  inl, inr,
}
use scribeflow.Worker.Seconds.{Seconds}
use scribeflow.Worker.Progress.{throttled, reported}

length-map : {A B : Type 0} (f : A → B) (xs : List A) → length (map f xs) ≡ length xs
length-map f [] = refl
length-map f (x ∷ xs) = ap (λ n. suc n) (length-map f xs)

module _ (P : Seconds) (is_step : P.Number → P.Number → Bool) (rank : P.Number → ℕ)
    (counts : (a b : P.Number) → is_step a b ≡ true → rank a + 1 ≤ rank b) where
  open P use {Number, of_ℕ}

  length-throttled :
      (most : ℕ) (last : Number) (fractions : List Number)
      → rank last ≤ most
      → All (λ f. rank f ≤ most) fractions
      → length (throttled P is_step last fractions) + rank last ≤ most
  unfolding throttled
  length-throttled most last [] h hs = omega arith
  length-throttled most last (f ∷ fs) h (hf, hs) = elim (Bool-cases (is_step last f)) [
    | inl s ↦ rw s (omega (arith, counts last f s, length-throttled most f fs hf hs))
    | inr s ↦ rw s (length-throttled most last fs h hs)
  ]

  -- However many fractions the pipeline passes on, at most `most` of them are written, if `rank`
  -- counts the steps below a fraction: a step from one fraction to another raises it, and it is at
  -- most `most` at every fraction.
  pub length-reported :
      (most : ℕ) (fractions : List Number)
      → rank (of_ℕ 0) ≤ most
      → All (λ f. rank f ≤ most) fractions
      → length (reported P is_step fractions) ≤ most
  unfolding reported
  length-reported most fractions h hs = omega (
    arith,
    length-map P.round_2 (throttled P is_step (of_ℕ 0) fractions),
    length-throttled most (of_ℕ 0) fractions h hs,
  )

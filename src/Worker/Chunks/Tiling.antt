-- ===== src/Worker/Chunks/Tiling.antt =====
-- The chunks that are planned for a duration.
use scribeflow.Prelude.{
  ℕ, zero, suc, ◌+◌, ◌-◌, ◌*◌, ◌≤◌, ◌<◌, ◌≡◌, refl, ◌⊎◌, inl, inr, List, [], ◌∷◌, none, some, true,
  false, arith, ltb, length, Bool-cases,
}
use scribeflow.Worker.Seconds.{Seconds, exact_below}
use scribeflow.Worker.Chunks.{Chunk, chunk_at, plan_from, plan_chunks}

module _ (P : Seconds) (duration : P.Number) (chunk_sec : ℕ) where
  open P use {Number, of_ℕ, lt, minus, ceil, lt-of_ℕ, ceil_le, minus_fits}

  -- The chunk is full, and what is left is not less than that; or it is the last one and has what is
  -- left.
  abbrev pub IsFullOrLast : Chunk Number → Type 0
  IsFullOrLast chunk =
      ((lt (minus duration (of_ℕ chunk.start)) (of_ℕ chunk_sec) ≡ false)
        × (chunk.length ≡ of_ℕ chunk_sec))
      ⊎ ((lt (minus duration (of_ℕ chunk.start)) (of_ℕ chunk_sec) ≡ true)
          × (ceil duration ≤ chunk.start + chunk_sec)
          × (chunk.length ≡ minus duration (of_ℕ chunk.start)))

  -- From a start on, one chunk begins where the one before ends, each before the end of the audio,
  -- and they reach its end.
  abbrev pub Tiles : ℕ → List (Chunk Number) → Type 0
  Tiles start [] = ceil duration ≤ start
  Tiles start (chunk ∷ chunks) =
      (chunk.start ≡ start)
      × (start < ceil duration)
      × IsFullOrLast chunk
      × Tiles (start + chunk_sec) chunks

  chunk_at-IsFullOrLast :
      (start : ℕ)
      → start + chunk_sec < exact_below
      → IsFullOrLast (chunk_at P duration chunk_sec start)
  chunk_at-IsFullOrLast start h =
      elim (Bool-cases (lt (minus duration (of_ℕ start)) (of_ℕ chunk_sec))) [
        | inr full ↦ inl (full, rw full refl)
        | inl short ↦ elim (Bool-cases (lt duration (of_ℕ (start + chunk_sec)))) [
          | inl ends ↦ inr (short, ceil_le (start + chunk_sec) duration h ends, rw short refl)
          | inr on ↦ absurd (ground (arith, short, minus_fits start chunk_sec duration h on))
        ]
      ]

  Tiles-length :
      (start : ℕ) (chunks : List (Chunk Number))
      → start < ceil duration + chunk_sec
      → Tiles start chunks
      → (ceil duration ≤ start + length chunks * chunk_sec)
        × (start + length chunks * chunk_sec < ceil duration + chunk_sec)
  Tiles-length start [] h t = omega arith
  Tiles-length start (chunk ∷ chunks) h (e, before, full, t) =
      let (low, high) = Tiles-length (start + chunk_sec) chunks (omega arith) t in
      (grind arith, grind arith)

  module _ (positive : 1 ≤ chunk_sec) (short : ceil duration + chunk_sec < exact_below) where
    plan_from-Tiles :
        (fuel start : ℕ)
        → ceil duration - start < fuel
        → start < ceil duration + chunk_sec
        → (chunks : List (Chunk Number)) × (plan_from P fuel duration chunk_sec start ≡ some chunks)
          × Tiles start chunks
    unfolding plan_from
    plan_from-Tiles zero start enough h = absurd (omega arith)
    plan_from-Tiles (suc fuel) start enough h =
        let same = lt-of_ℕ start duration (omega (arith, short)) in
        elim (Bool-cases (ltb start (ceil duration))) [
          | inr done ↦ ([], rw (same, done) refl, ground arith)
          | inl more ↦
              let (chunks, e, t) =
                plan_from-Tiles fuel (start + chunk_sec) (ground (arith, positive))
                  (ground arith) in
              (
                chunk_at P duration chunk_sec start ∷ chunks,
                rw (same, more, e) refl,
                (refl, ground arith, chunk_at-IsFullOrLast start (ground (arith, short)), t),
              )
        ]

    -- If the chunks are a second long or longer, and the seconds of the audio are exact, planning ends
    -- after at most as many rounds as the audio has seconds, and one more. The chunks begin at 0, each
    -- where the one before ends and before the end of the audio, which they reach; a
    -- chunk has the full length if the audio that is left at its start is not less than that, and is
    -- otherwise the last one and as long as what is left; and there is none too many.
    pub plan_chunks-Tiles :
        (fuel : ℕ)
        → ceil duration < fuel
        → (chunks : List (Chunk Number)) × (plan_chunks P fuel duration chunk_sec ≡ some chunks)
          × Tiles 0 chunks
          × (ceil duration ≤ length chunks * chunk_sec)
          × (length chunks * chunk_sec < ceil duration + chunk_sec)
    unfolding plan_chunks
    plan_chunks-Tiles fuel enough =
        let (chunks, e, t) = plan_from-Tiles fuel 0 (omega arith) (omega (arith, positive)) in
        let (low, high) = Tiles-length 0 chunks (omega (arith, positive)) t in
        (chunks, e, t, omega arith, omega arith)

-- With chunks of no length, planning never ends for an audio of any length.
pub plan_chunks-eq_none :
    (P : Seconds) (duration : P.Number) (fuel : ℕ)
    → 0 < P.ceil duration
    → plan_chunks P fuel duration 0 ≡ none
unfolding plan_chunks
plan_chunks-eq_none P duration fuel h = from_zero fuel
  where
    from_zero : (n : ℕ) → plan_from P n duration 0 0 ≡ none
    from_zero zero = refl
    from_zero (suc n) = rw (P.lt-of_ℕ 0 duration (omega arith)) (ground (arith, from_zero n))

-- ===== src/System/Picked.antt =====
-- Lists of messages and of requests out of which one is picked.
use scribeflow.Prelude.{
  ℕ, zero, suc, ◌≡◌, ◌⊎◌, refl, inl, inr, List, [], ◌∷◌, ◌++◌, some, arith, Option-cases, All,
}
use scribeflow.System.{pick}

module _ {A : Type 0} (P : A → Type 0) where
  -- One of the list has the property.
  abbrev pub Any : List A → Type 0
  Any [] = ⊥
  Any (x ∷ xs) = P x ⊎ Any xs

  pub Any-append_left : (xs ys : List A) → Any xs → Any (xs ++ ys)
  Any-append_left [] ys h = absurd h
  Any-append_left (x ∷ xs) ys (inl h) = inl h
  Any-append_left (x ∷ xs) ys (inr h) = inr (Any-append_left xs ys h)

  pub Any-append_right : (xs ys : List A) → Any ys → Any (xs ++ ys)
  Any-append_right [] ys h = h
  Any-append_right (x ∷ xs) ys h = inr (Any-append_right xs ys h)

  -- Taking one out leaves the others.
  pub Any-pick :
      (n : ℕ) (xs rest : List A) (x : A) → pick n xs ≡ some (x, rest) → Any xs → P x ⊎ Any rest
  unfolding pick
  Any-pick n [] rest x e h = absurd h
  Any-pick zero (y ∷ ys) rest x e h =
      let first : y ≡ x = ground (arith, e) in
      let others : ys ≡ rest = ground (arith, e) in rw (← first, ← others) h
  Any-pick (suc n) (y ∷ ys) rest x e h = elim (Option-cases (pick n ys)) [
    | inl q ↦ absurd (ground (arith, rw q at e))
    | inr ((z, zs), q) ↦
        let first : z ≡ x = ground (arith, q, e) in
        let others : y ∷ zs ≡ rest = ground (arith, q, e) in
        rw (← first, ← others)
          (elim h [
            | inl here ↦ inr (inl here)
            | inr there ↦ elim (Any-pick n ys zs z q there) [
              | inl found ↦ inl found
              | inr still ↦ inr (inr still)
            ]
          ])
  ]

  pub All-pick :
      (n : ℕ) (xs rest : List A) (x : A) → pick n xs ≡ some (x, rest) → All P xs → P x × All P rest
  unfolding pick
  All-pick n [] rest x e h = absurd (ground (arith, e))
  All-pick zero (y ∷ ys) rest x e h =
      let first : y ≡ x = ground (arith, e) in
      let others : ys ≡ rest = ground (arith, e) in rw (← first, ← others) h
  All-pick (suc n) (y ∷ ys) rest x e (p, h) = elim (Option-cases (pick n ys)) [
    | inl q ↦ absurd (ground (arith, rw q at e))
    | inr ((z, zs), q) ↦
        let first : z ≡ x = ground (arith, q, e) in
        let others : y ∷ zs ≡ rest = ground (arith, q, e) in
        let (here, there) = All-pick n ys zs z q h in rw (← first, ← others) (here, (p, there))
  ]

  pub Any-split : (xs ys : List A) → Any (xs ++ ys) → Any xs ⊎ Any ys
  Any-split [] ys h = inr h
  Any-split (x ∷ xs) ys (inl h) = inl (inl h)
  Any-split (x ∷ xs) ys (inr h) = elim (Any-split xs ys h) [
    | inl there ↦ inl (inr there)
    | inr there ↦ inr there
  ]

  -- What is picked and what is left were in the list.
  pub Any-picked :
      (n : ℕ) (xs rest : List A) (x : A) → pick n xs ≡ some (x, rest) → P x ⊎ Any rest → Any xs
  unfolding pick
  Any-picked n [] rest x e h = absurd (ground (arith, e))
  Any-picked zero (y ∷ ys) rest x e h =
      let first : x ≡ y = ground (arith, e) in
      let others : rest ≡ ys = ground (arith, e) in rw (first, others) at h
  Any-picked (suc n) (y ∷ ys) rest x e h = elim (Option-cases (pick n ys)) [
    | inl q ↦ absurd (ground (arith, rw q at e))
    | inr ((z, zs), q) ↦
        let first : x ≡ z = ground (arith, q, e) in
        let others : rest ≡ y ∷ zs = ground (arith, q, e) in
        elim (rw (first, others) at h) [
          | inl found ↦ inr (Any-picked n ys zs z q (inl found))
          | inr (inl here) ↦ inl here
          | inr (inr there) ↦ inr (Any-picked n ys zs z q (inr there))
        ]
  ]

module _ {A : Type 0} where
  -- What holds of all of the list is known of the one as well.
  pub Any-with :
      (P Q Q' : A → Type 0) (xs : List A)
      → ((x : A) → P x → Q x → Q' x)
      → All P xs
      → Any Q xs
      → Any Q' xs
  Any-with P Q Q' [] f h a = a
  Any-with P Q Q' (x ∷ xs) f (p, h) (inl q) = inl (f x p q)
  Any-with P Q Q' (x ∷ xs) f (p, h) (inr a) = inr (Any-with P Q Q' xs f h a)

  All-unit : (xs : List A) → All (λ _. Unit {0}) xs
  All-unit [] = tt
  All-unit (x ∷ xs) = (tt, All-unit xs)

-- More behind the list does not change what is picked.
pub pick-append :
    {A : Type 0} (n : ℕ) (xs rest ys : List A) (x : A)
    → pick n xs ≡ some (x, rest)
    → pick n (xs ++ ys) ≡ some (x, rest ++ ys)
unfolding pick
pick-append n [] rest ys x e = absurd (ground (arith, e))
pick-append zero (z ∷ zs) rest ys x e =
    let first : z ≡ x = ground (arith, e) in
    let others : zs ≡ rest = ground (arith, e) in rw (first, others) refl
pick-append (suc n) (z ∷ zs) rest ys x e = elim (Option-cases (pick n zs)) [
  | inl q ↦ absurd (ground (arith, rw q at e))
  | inr ((y, more), q) ↦
      let first : y ≡ x = ground (arith, q, e) in
      let others : z ∷ more ≡ rest = ground (arith, q, e) in
      rw (← others, pick-append n zs more ys y q, first) refl
]

-- No two of the list are related.
module _ {A : Type 0} (R : A → A → Type 0) where
  abbrev pub Distinct : List A → Type 0
  Distinct [] = Unit
  Distinct (x ∷ xs) = ¬ Any (R x) xs × Distinct xs

  pub Distinct-pick :
      ((x y : A) → R x y → R y x)
      → (n : ℕ) (xs rest : List A) (x : A) → pick n xs ≡ some (x, rest)
      → Distinct xs
      → Distinct (x ∷ rest)
  unfolding pick
  Distinct-pick flip n [] rest x e h = absurd (ground (arith, e))
  Distinct-pick flip zero (y ∷ ys) rest x e h =
      let first : y ≡ x = ground (arith, e) in
      let others : ys ≡ rest = ground (arith, e) in rw (← first, ← others) h
  Distinct-pick flip (suc n) (y ∷ ys) rest x e (new, h) = elim (Option-cases (pick n ys)) [
    | inl q ↦ absurd (ground (arith, rw q at e))
    | inr ((z, zs), q) ↦
        let first : y ∷ zs ≡ rest = ground (arith, q, e) in
        let same : z ≡ x = ground (arith, q, e) in
        let (alone, later) = Distinct-pick flip n ys zs z q h in
        rw (← same, ← first)
          (
            (λ a. elim a [
              | inl clash ↦ new (Any-picked (R y) n ys zs z q (inl (flip z y clash)))
              | inr there ↦ alone there
            ]),
            ((λ a. new (Any-picked (R y) n ys zs z q (inr a))), later),
          )
  ]

  -- If a list holds no two related ones, and each `P` is related to each `Q`, then one is both.
  pub Distinct-same :
      {P Q : A → Type 0} (xs : List A)
      → ((x y : A) → R x y → R y x)
      → ((x y : A) → P x → Q y → R x y)
      → Distinct xs
      → Any P xs
      → Any Q xs
      → (x : A) × P x × Q x
  Distinct-same [] flip clash d p q = absurd p
  Distinct-same (x ∷ xs) flip clash (new, d) (inl p) (inl q) = (x, p, q)
  Distinct-same {P = P} {Q = Q} (x ∷ xs) flip clash (new, d) (inl p) (inr q) =
      absurd (new (Any-with (λ _. Unit) Q (R x) xs (λ y _ h. clash x y p h) (All-unit xs) q))
  Distinct-same {P = P} {Q = Q} (x ∷ xs) flip clash (new, d) (inr p) (inl q) =
      absurd
        (new (Any-with (λ _. Unit) P (R x) xs (λ y _ h. flip y x (clash y x h q)) (All-unit xs) p))
  Distinct-same (x ∷ xs) flip clash (new, d) (inr p) (inr q) = Distinct-same xs flip clash d p q

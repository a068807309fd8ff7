-- ===== src/Base/Sort.antt =====
-- Python's `sorted`: a stable sort by a Boolean test. `before x y` says that `x`, which stands
-- first in the input, may stay in front of `y`.
use mathlib.Core.Path.{◌≡◌}
use mathlib.Core.Logic.{◌⊎◌, inl, inr}
use mathlib.Core.Bool.{true, false, Bool}
use mathlib.Core.List.{List, [], ◌∷◌}
use supervisor_agent.Base.Tests.{if◌then◌else◌, Bool-cases}
use supervisor_agent.Base.Lists.{All, In}

module _ {A : Type 0} (before : A → A → Bool) where
  pub place : A → List A → List A
  place x [] = x ∷ []
  place x (y ∷ ys) = if before x y then x ∷ y ∷ ys else y ∷ place x ys

  unfoldable pub sort : List A → List A
  unfolding place
  sort [] = []
  sort (x ∷ xs) = place x (sort xs)

  In-place : (a x : A) (ys : List A) → In a (place x ys) → (a ≡ x) ⊎ In a ys
  unfolding place
  In-place a x [] m = m
  In-place a x (y ∷ ys) m = elim (Bool-cases (before x y)) [
    | inl first ↦ let m' : In a (x ∷ y ∷ ys) = rw first at m in m'
    | inr later ↦ elim (let m' : In a (y ∷ place x ys) = rw later at m in m') [
      | inl e ↦ inr (inl e)
      | inr n ↦ elim (In-place a x ys n) [ inl e ↦ inl e | inr k ↦ inr (inr k) ]
    ]
  ]

  -- The sorted list has no item that the input lacks.
  pub In-sort : (a : A) (xs : List A) → In a (sort xs) → In a xs
  unfolding sort
  In-sort a [] m = m
  In-sort a (x ∷ xs) m = elim (In-place a x (sort xs) m) [
    | inl e ↦ inl e
    | inr n ↦ inr (In-sort a xs n)
  ]

module _ {κ} {A : Type 0} (before : A → A → Bool) (P : A → Type κ) where
  All-place : (x : A) (ys : List A) → P x → All P ys → All P (place before x ys)
  unfolding place
  All-place x [] p h = (p, tt)
  All-place x (y ∷ ys) p h = elim (Bool-cases (before x y)) [
    | inl first ↦ rw first (p, h)
    | inr later ↦ rw later (h.0, All-place x ys p h.1)
  ]

  pub All-sort : (xs : List A) → All P xs → All P (sort before xs)
  unfolding sort
  All-sort [] h = h
  All-sort (x ∷ xs) h = All-place x (sort before xs) h.0 (All-sort xs h.1)

module _ {A : Type 0} (before : A → A → Bool) where
  -- The converse of In-sort: no item of the input is lost.
  place-In : (a x : A) (ys : List A) → (a ≡ x) ⊎ In a ys → In a (place before x ys)
  unfolding place
  place-In a x [] m = m
  place-In a x (y ∷ ys) m = elim (Bool-cases (before x y)) [
    | inl first ↦ rw first m
    | inr later ↦ rw later (elim m [
      | inl e ↦ inr (place-In a x ys (inl e))
      | inr (inl e) ↦ inl e
      | inr (inr n) ↦ inr (place-In a x ys (inr n))
    ])
  ]

  pub sort-In : (a : A) (xs : List A) → In a xs → In a (sort before xs)
  unfolding sort
  sort-In a [] m = m
  sort-In a (x ∷ xs) (inl e) = place-In a x (sort before xs) (inl e)
  sort-In a (x ∷ xs) (inr m) = place-In a x (sort before xs) (inr (sort-In a xs m))

-- A list in which every item comes before all that follow it.
abbrev pub Sorted : {A : Type 0} → (A → A → Bool) → List A → Type 0
Sorted before [] = Unit
Sorted before (x ∷ xs) = All (λ y. before x y ≡ true) xs × Sorted before xs

module _ {A : Type 0} (before : A → A → Bool)
    (total : (a b : A) → before a b ≡ false → before b a ≡ true)
    (trans : (a b c : A) → before a b ≡ true → before b c ≡ true → before a c ≡ true) where
  All-before :
      (x y : A) (ys : List A)
      → before x y ≡ true
      → All (λ z. before y z ≡ true) ys
      → All (λ z. before x z ≡ true) ys
  All-before x y [] h k = tt
  All-before x y (z ∷ zs) h (k, l) = (trans x y z h k, All-before x y zs h l)

  place-Sorted : (x : A) (ys : List A) → Sorted before ys → Sorted before (place before x ys)
  unfolding place
  place-Sorted x [] h = (tt, tt)
  place-Sorted x (y ∷ ys) (h, k) = elim (Bool-cases (before x y)) [
    | inl first ↦ rw first ((first, All-before x y ys first h), (h, k))
    | inr later ↦
        rw later
          (All-place before (λ z. before y z ≡ true) x ys (total x y later) h, place-Sorted x ys k)
  ]

  pub sort-Sorted : (xs : List A) → Sorted before (sort before xs)
  unfolding sort
  sort-Sorted [] = tt
  sort-Sorted (x ∷ xs) = place-Sorted x (sort before xs) (sort-Sorted xs)

-- ===== src/Base/Dict.antt =====
-- Python's `dict` with text keys, as an association list in insertion order.
use Prim.Native.String.{String}
use mathlib.Core.Path.{◌≡◌, refl}
use mathlib.Core.Bool.{false, Bool, true}
use mathlib.Core.Option.{Option, none, some}
use mathlib.Core.List.{List, [], ◌∷◌}
use native.Mathlib.Omega.{arith}
use text.Mathlib.Text.{◌==◌}
use text.Mathlib.TextEquality.{eq_iff}
use supervisor_agent.Base.Tests.{if◌then◌else◌, by_test}
use supervisor_agent.Base.Lists.{All}

abbrev pub Dict {ℓ} : Type ℓ → Type ℓ
Dict V = List (String × V)

module _ {ℓ} {V : Type ℓ} where
  -- `d.get(k)`
  unfoldable pub lookup : String → Dict V → Option V
  lookup k [] = none
  lookup k ((j, v) ∷ d) = if k == j then some v else lookup k d

  -- `d[k] = v`: an existing key keeps its place.
  unfoldable pub insert : String → V → Dict V → Dict V
  insert k v [] = (k, v) ∷ []
  insert k v ((j, w) ∷ d) = if k == j then (j, v) ∷ d else (j, w) ∷ insert k v d

  -- `d.pop(k, None)`
  unfoldable pub erase : String → Dict V → Dict V
  erase k [] = []
  erase k ((j, w) ∷ d) = let rest = erase k d in if k == j then rest else (j, w) ∷ rest

  -- `{**d, **e}`
  unfoldable pub merge : Dict V → Dict V → Dict V
  merge d [] = d
  merge d ((k, v) ∷ e) = merge (insert k v d) e

  unfoldable pub keys : Dict V → List String
  keys [] = []
  keys ((k, v) ∷ d) = k ∷ keys d

  unfoldable pub values : Dict V → List V
  values [] = []
  values ((k, v) ∷ d) = v ∷ values d

  -- `{k: v for k, v in d.items() if p(k)}`, and with a test of key and value
  unfoldable pub restrict : (String → V → Bool) → Dict V → Dict V
  restrict p [] = []
  restrict p ((k, v) ∷ d) = let rest = restrict p d in if p k v then (k, v) ∷ rest else rest

  pub lookup-insert :
      (j k : String) (v : V) (d : Dict V)
      → lookup j (insert k v d) ≡ (if j == k then some v else lookup j d)
  unfolding lookup insert
  lookup-insert j k v [] = refl
  lookup-insert j k v ((i, w) ∷ d) =
      ground (arith, eq_iff k i, eq_iff j i, eq_iff j k, lookup-insert j k v d)

  pub lookup-erase :
      (j k : String) (d : Dict V) → lookup j (erase k d) ≡ (if j == k then none else lookup j d)
  unfolding lookup erase
  lookup-erase j k [] = ground arith
  lookup-erase j k ((i, w) ∷ d) =
      ground (arith, eq_iff k i, eq_iff j i, eq_iff j k, lookup-erase j k d)

  -- A filter by key.
  pub lookup-restrict :
      (p : String → V → Bool) (j : String) (d : Dict V) (v : V)
      → lookup j (restrict p d) ≡ some v
      → p j v ≡ true
  unfolding lookup restrict
  lookup-restrict p j [] v h = cc
  lookup-restrict p j ((i, w) ∷ d) v h = ground (arith, eq_iff j i, lookup-restrict p j d v)

-- Predicates of the keys of a dictionary, kept by its operations.
abbrev pub Keys {ℓ κ} : {V : Type ℓ} → (String → Type κ) → Dict V → Type κ
Keys P = All (λ kv. P kv.0)

module _ {ℓ κ} {V : Type ℓ} (P : String → Type κ) where
  pub insert-Keys : (k : String) (v : V) (d : Dict V) → P k → Keys P d → Keys P (insert k v d)
  unfolding insert
  insert-Keys k v [] h hs = (h, tt)
  insert-Keys k v ((j, w) ∷ d) h (i, hs) =
      by_test (λ (e : Dict V). Keys P e) (k == j) _ _ (λ _. (i, hs))
        (λ _. (i, insert-Keys k v d h hs))

  pub merge-Keys : (d e : Dict V) → Keys P d → Keys P e → Keys P (merge d e)
  unfolding merge
  merge-Keys d [] h k = h
  merge-Keys d ((j, v) ∷ e) h (i, k) = merge-Keys (insert j v d) e (insert-Keys j v d i h) k

  -- A filter whose test implies the predicate, and one of a dictionary that has it.
  pub restrict-Keys :
      (p : String → V → Bool) (d : Dict V)
      → ((k : String) (v : V) → p k v ≡ true → P k)
      → Keys P (restrict p d)
  unfolding restrict
  restrict-Keys p [] h = tt
  restrict-Keys p ((k, v) ∷ d) h =
      by_test (λ (e : Dict V). Keys P e) (p k v) _ _ (λ t. (h k v t, restrict-Keys p d h))
        (λ _. restrict-Keys p d h)

  pub restrict-Keys_of : (p : String → V → Bool) (d : Dict V) → Keys P d → Keys P (restrict p d)
  unfolding restrict
  restrict-Keys_of p [] h = tt
  restrict-Keys_of p ((k, v) ∷ d) (i, h) =
      by_test (λ (e : Dict V). Keys P e) (p k v) _ _ (λ t. (i, restrict-Keys_of p d h))
        (λ _. restrict-Keys_of p d h)

-- A key that no key of the dictionary equals has no value.
pub lookup_absent {ℓ} :
    {V : Type ℓ} (k : String) (d : Dict V) → Keys (λ j. (k == j) ≡ false) d → lookup k d ≡ none
unfolding lookup
lookup_absent k [] h = refl
lookup_absent k ((j, v) ∷ d) (i, h) = rw (lookup, i) (lookup_absent k d h)

-- ===== src/Base/Fresh.antt =====
-- A new key of a dictionary goes to its end.
use supervisor_agent.Base.{
  String, false, [], ◌∷◌, ◌++◌, elem, ◌==◌, ◌≡◌, refl, Bool-cases, inl, inr,
}
use supervisor_agent.Base.Dict.{Dict, insert, keys}

module _ {ℓ} {V : Type ℓ} where
  pub insert_absent :
      (k : String) (v : V) (d : Dict V) → elem k (keys d) ≡ false → insert k v d ≡ d ++ (k, v) ∷ []
  unfolding insert keys
  insert_absent k v [] h = refl
  insert_absent k v ((j, w) ∷ d) h = elim (Bool-cases (k == j)) [
    | inl t ↦ absurd (let h' = rw (keys, t) at h in cc)
    | inr f ↦
        let h' : elem k (keys d) ≡ false = rw (keys, f) at h in
        rw (insert, f, insert_absent k v d h') refl
  ]

  pub elem-keys_append :
      (i k : String) (v : V) (d : Dict V)
      → (i == k) ≡ false
      → elem i (keys d) ≡ false
      → elem i (keys (d ++ (k, v) ∷ [])) ≡ false
  unfolding keys
  elem-keys_append i k v [] n h = rw (keys, n) refl
  elem-keys_append i k v ((j, w) ∷ d) n h = elim (Bool-cases (i == j)) [
    | inl t ↦ absurd (let h' = rw (keys, t) at h in cc)
    | inr f ↦
        let h' : elem i (keys d) ≡ false = rw (keys, f) at h in
        rw (keys, f) (elem-keys_append i k v d n h')
  ]

-- ===== src/Memory/Boundary.antt =====
-- src/supervisor/memory.py: what the long-term store gives back, and whose bag a write touches.
use supervisor_agent.Base.{
  subst, ◌&&◌, inr, inl, ℕ, String, ◌==◌, Bool, true, false, not, ◌≡◌, refl, sym, Option, List, [],
  ◌∷◌, elem, is_empty, ◌||◌, In, by_test, Bool-cases,
}
use supervisor_agent.Base.Text.{truthy, strip}
use supervisor_agent.Base.Dict.{Dict, lookup, lookup-insert}
use supervisor_agent.Worker.Json.{Json, null, boolean, number, str, arr, obj}
use supervisor_agent.Memory.{
  validate_value, Store, read, validate, validate_text, expired, wanted_key, stripped, readable,
  safe_entries, get_context, sift, MemoryWrite, save_context,
}

-- An entry that may be read back: its text is in the store, valid and fresh, its key is declared
-- and wanted.
abbrev pub Readable :
    List String → ℕ → Option (List String) → Dict Json → Dict ℕ → ℕ → String → String → Type 0
Readable allowed ttl wanted entries stamps now key value =
    (raw : String) × In (key, str raw) entries
    × (value ≡ strip raw)
    × (truthy (validate_text raw) ≡ false)
    × (elem key allowed ≡ true)
    × (wanted_key wanted key ≡ true)
    × (expired ttl key stamps now ≡ false)

-- A reason that is empty: the key is declared, and the value is a text that may be kept.
abbrev Valid : Json → List String → String → Type 0
Valid (str raw) allowed key = (elem key allowed ≡ true) × (truthy (validate_text raw) ≡ false)
Valid other allowed key = ⊥

validate_value-Valid :
    (value : Json) (allowed : List String) (key : String)
    → elem key allowed ≡ true
    → truthy (validate_value value) ≡ false
    → Valid value allowed key
validate_value-Valid (str raw) allowed key e h = (e, h)
validate_value-Valid null allowed key e h = cc
validate_value-Valid (boolean b) allowed key e h = cc
validate_value-Valid (number n) allowed key e h = cc
validate_value-Valid (arr xs) allowed key e h = cc
validate_value-Valid (obj fs) allowed key e h = cc

validate-Valid :
    (key : String) (value : Json) (allowed : List String)
    → truthy (validate key value allowed) ≡ false
    → Valid value allowed key
unfolding validate
validate-Valid key value allowed h = elim (Bool-cases (elem key allowed)) [
  | inl declared ↦ validate_value-Valid value allowed key declared (rw (validate, declared) at h)
  | inr unknown ↦ absurd (let h' = rw (validate, unknown) at h in cc)
]

readable_parts :
    (allowed : List String) (ttl : ℕ) (wanted : Option (List String)) (stamps : Dict ℕ) (now : ℕ)
    (key : String) (value : Json)
    → readable allowed ttl wanted stamps now key value ≡ true
    → (wanted_key wanted key ≡ true)
      × (truthy (validate key value allowed) ≡ false)
      × (expired ttl key stamps now ≡ false)
unfolding readable
readable_parts allowed ttl wanted stamps now key value h =
    conj (wanted_key wanted key) (truthy (validate key value allowed)) (expired ttl key stamps now)
      h
  where
    conj : (a b c : Bool) → ((a && not b) && not c) ≡ true → (a ≡ true) × (b ≡ false) × (c ≡ false)
    conj true false false h = (refl, refl, refl)
    conj true false true h = absurd cc
    conj true true c h = absurd cc
    conj false b c h = absurd cc

module _ (allowed : List String) (ttl : ℕ) (wanted : Option (List String)) (stamps : Dict ℕ)
    (now : ℕ) where
  entry-Readable :
      (key : String) (value : Json) (entries : Dict Json)
      → In (key, value) entries
      → readable allowed ttl wanted stamps now key value ≡ true
      → Readable allowed ttl wanted entries stamps now key (stripped value)
  entry-Readable key (str raw) entries m h =
      let (w, v, e) = readable_parts allowed ttl wanted stamps now key (str raw) h in
      let (declared, valid) = validate-Valid key (str raw) allowed v in
      (raw, m, refl, valid, declared, w, e)
  entry-Readable key null entries m h =
      absurd (
        validate-Valid key null allowed (readable_parts allowed ttl wanted stamps now key null h).1)
  entry-Readable key (boolean b) entries m h = absurd (
      validate-Valid key (boolean b) allowed
        (readable_parts allowed ttl wanted stamps now key (boolean b) h).1)
  entry-Readable key (number n) entries m h = absurd (
      validate-Valid key (number n) allowed
        (readable_parts allowed ttl wanted stamps now key (number n) h).1)
  entry-Readable key (arr n) entries m h = absurd (
      validate-Valid key (arr n) allowed
        (readable_parts allowed ttl wanted stamps now key (arr n) h).1)
  entry-Readable key (obj n) entries m h = absurd (
      validate-Valid key (obj n) allowed
        (readable_parts allowed ttl wanted stamps now key (obj n) h).1)

  later-Readable :
      (key value : String) (first : String × Json) (entries : Dict Json)
      → Readable allowed ttl wanted entries stamps now key value
      → Readable allowed ttl wanted (first ∷ entries) stamps now key value
  later-Readable key value first entries (raw, m, e, v, d, w, x) = (raw, inr m, e, v, d, w, x)

  safe_entries-Readable :
      (key value : String) (entries : Dict Json)
      → In (key, value) (safe_entries allowed ttl wanted stamps now entries)
      → Readable allowed ttl wanted entries stamps now key value
  unfolding safe_entries
  safe_entries-Readable key value [] m = absurd m
  safe_entries-Readable key value ((k, v) ∷ entries) m =
      elim (Bool-cases (readable allowed ttl wanted stamps now k v)) [
        | inr skipped ↦
            let m' : In (key, value) (safe_entries allowed ttl wanted stamps now entries) =
              rw (safe_entries, skipped) at m in
            later-Readable key value (k, v) entries (safe_entries-Readable key value entries m')
        | inl kept ↦
            let m' : In (key, value)
                ((k, stripped v) ∷ safe_entries allowed ttl wanted stamps now entries) =
              rw (safe_entries, kept) at m in
            elim m' [
              | inl e ↦
                  subst
                    (λ (kv : String × String).
                      Readable allowed ttl wanted ((k, v) ∷ entries) stamps now kv.0 kv.1)
                    (sym e) (entry-Readable k v ((k, v) ∷ entries) (inl refl) kept)
              | inr n ↦
                  later-Readable key value (k, v) entries
                    (safe_entries-Readable key value entries n)
            ]
      ]

-- The store gives back only what its owner may see and what is fit to be seen: with no user key
-- nothing, and else entries of that user's own bag whose key is a declared and a wanted one, whose
-- value is a text that passes validation (stripped), and whose stamp is not past its lifetime.
pub get_context-Readable :
    (allowed : List String) (ttl : ℕ) (store : Store) (user_key : String)
    (wanted : Option (List String)) (now : ℕ) (key value : String)
    → In (key, value) (get_context allowed ttl store user_key wanted now)
    → (truthy user_key ≡ true)
      × Readable allowed ttl wanted
          (read store user_key).entries
          (read store user_key).stamps
          now
          key
          value
unfolding get_context
get_context-Readable allowed ttl store user_key wanted now key value m =
    elim (Bool-cases (truthy user_key)) [
      | inl known ↦ (
        known,
        safe_entries-Readable allowed ttl wanted (read store user_key).stamps now key value
            (read store user_key).entries (rw (get_context, known) at m),
      )
      | inr unknown ↦ absurd (let m' : ⊥ = rw (get_context, unknown) at m in m')
    ]

-- What `sift` keeps of a context.
abbrev pub Kept : List String → Dict String → String → String → Type 0
Kept allowed context key value =
    (raw : String) × In (key, raw) context
    × (value ≡ strip raw)
    × (elem key allowed ≡ true)
    × (truthy (validate_text raw) ≡ false)

sift-Kept :
    (allowed : List String) (context : Dict String) (key value : String)
    → In (key, value) (sift allowed context).stored
    → Kept allowed context key value
sift-Kept allowed [] key value m = absurd m
sift-Kept allowed ((k, v) ∷ rest) key value m =
    elim (Bool-cases (truthy (validate k (str v) allowed))) [
      | inl bad ↦
          let m' : In (key, value) (sift allowed rest).stored = rw bad at m in
          let (raw, n, e, d, t) = sift-Kept allowed rest key value m' in (raw, inr n, e, d, t)
      | inr good ↦
          let m' : In (key, value) ((k, strip v) ∷ (sift allowed rest).stored) = rw good at m in
          elim m' [
            | inl e ↦
                let (declared, valid) = validate-Valid k (str v) allowed good in
                subst (λ (kv : String × String). Kept allowed ((k, v) ∷ rest) kv.0 kv.1) (sym e)
                  (v, inl refl, refl, declared, valid)
            | inr n ↦
                let (raw, n', e, d, t) = sift-Kept allowed rest key value n in
                (raw, inr n', e, d, t)
          ]
    ]

-- A write reports as stored only entries of the given context whose key is declared and whose text
-- passes validation; it leaves the bag of every other user as it was; and without a user key, or
-- with nothing fit to be stored, it leaves the whole store as it was.
pub save_context_isolated :
    (allowed : List String) (ttl : ℕ) (store : Store) (user_key : String) (context : Dict String)
    (now : ℕ)
    → ((key value : String)
        → In (key, value) (save_context allowed ttl store user_key context now).0.stored
        → Kept allowed context key value)
      × ((other : String)
          → (other == user_key) ≡ false
          → lookup other (save_context allowed ttl store user_key context now).1
            ≡ lookup other store)
      × (truthy user_key ≡ false → (save_context allowed ttl store user_key context now).1 ≡ store)
      × ((save_context allowed ttl store user_key context now).0.stored ≡ []
          → (save_context allowed ttl store user_key context now).1 ≡ store)
unfolding save_context
save_context_isolated allowed ttl store user_key context now = (
  λ key value m. elim (Bool-cases (not (truthy user_key) || is_empty context)) [
    | inl idle ↦ absurd (let m' : ⊥ = rw (save_context, idle) at m in m')
    | inr busy ↦ elim (Bool-cases (is_empty (sift allowed context).stored)) [
      | inl nothing ↦ sift-Kept allowed context key value (rw (save_context, busy, nothing) at m)
      | inr something ↦
          sift-Kept allowed context key value (rw (save_context, busy, something) at m)
    ]
  ],
  λ other h.
      by_test (λ (r : MemoryWrite × Store). lookup other r.1 ≡ lookup other store)
        (not (truthy user_key) || is_empty context) _ _ (λ _. refl)
        (λ _.
          by_test (λ (r : MemoryWrite × Store). lookup other r.1 ≡ lookup other store)
            (is_empty (sift allowed context).stored) _ _ (λ _. refl)
            (λ _. rw (lookup-insert other user_key _ store, h) refl)),
  λ h. rw (save_context, h) refl,
  λ h. elim (Bool-cases (not (truthy user_key) || is_empty context)) [
    | inl idle ↦ rw (save_context, idle) refl
    | inr busy ↦ elim (Bool-cases (is_empty (sift allowed context).stored)) [
      | inl nothing ↦ rw (save_context, busy, nothing) refl
      | inr something ↦ absurd (
          let h' : (sift allowed context).stored ≡ [] = rw (save_context, busy, something) at h in
          let s' : is_empty {A = String × String} [] ≡ false = rw h' at something in cc)
    ]
  ],
)

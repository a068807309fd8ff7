-- ===== src/Governance/ConfigStore/Rows.antt =====
-- governed_config_store.py: the rows of one document under the operations on the table.
use supervisor_agent.Base.{
  ℕ, suc, ◌+◌, ◌≤◌, eqb, String, ◌==◌, eq_iff, Bool, true, false, ◌&&◌, some, List, [], ◌∷◌, map,
  any, length, leb, head?, drop, length-map, ◌<◌, ◌-◌, if◌then◌else◌, ◌≡◌, refl, sym, ap, ◌∙◌,
  arith, Bool-cases, inl, inr, by_test,
}
use supervisor_agent.Worker.Json.{Json}
use supervisor_agent.Governance.ConfigStore.{
  ConfigRow, ConfigTable, versions_of, active_row, max_version, deactivate, set_active,
}

abbrev pub inactive : ConfigRow → ConfigRow
inactive row = record row { active = false }

abbrev pub marked : ℕ → ConfigRow → ConfigRow
marked version row = if eqb row.version version then record row { active = true } else row

-- The rows of another document are left alone; those of the document itself are all inactive.
pub versions_of-deactivate :
    (name other : String) (t : ConfigTable)
    → versions_of other (deactivate name t)
      ≡ (if other == name then map inactive (versions_of other t) else versions_of other t)
unfolding deactivate
versions_of-deactivate name other [] = ground arith
versions_of-deactivate name other (row ∷ t) = ground (
  arith,
  eq_iff other row.name,
  eq_iff name row.name,
  eq_iff other name,
  versions_of-deactivate name other t,
)

pub versions_of-set_active :
    (name other : String) (version : ℕ) (t : ConfigTable)
    → versions_of other (set_active name version t)
      ≡ (if other == name then map (marked version) (versions_of other t) else versions_of other t)
unfolding set_active
versions_of-set_active name other version [] = ground arith
versions_of-set_active name other version (row ∷ t) = ground (
  arith,
  eq_iff other row.name,
  eq_iff name row.name,
  eq_iff other name,
  versions_of-set_active name other version t,
)

abbrev pub payloads : List ConfigRow → List Json
payloads rows = map (λ (row : ConfigRow). row.payload) rows

abbrev pub is_active : ConfigRow → Bool
is_active row = row.active

abbrev pub actives : List ConfigRow → ℕ
actives [] = 0
actives (row ∷ rows) = (if row.active then 1 else 0) + actives rows

module _ (checksum_of : Json → String) where
  -- The rows of one document: the versions count down to 1, and each has the checksum of its
  -- payload.
  abbrev pub Counted : List ConfigRow → Type 0
  Counted [] = Unit {0}
  Counted (row ∷ rows) =
      (row.version ≡ suc (length rows)) × (row.checksum ≡ checksum_of row.payload) × Counted rows

  pub max_version-Counted : (rows : List ConfigRow) → Counted rows → max_version rows ≡ length rows
  unfolding max_version
  max_version-Counted [] c = refl
  max_version-Counted (row ∷ rows) (v, s, c) = omega (arith, max_version-Counted rows c)

  pub inactive-Counted : (rows : List ConfigRow) → Counted rows → Counted (map inactive rows)
  inactive-Counted [] c = tt
  inactive-Counted (row ∷ rows) (v, s, c) =
      (v ∙ ap suc (sym (length-map inactive rows)), s, inactive-Counted rows c)

  pub marked-Counted :
      (version : ℕ) (rows : List ConfigRow) → Counted rows → Counted (map (marked version) rows)
  marked-Counted version [] c = tt
  marked-Counted version (row ∷ rows) (v, s, c) =
      by_test
        (λ (r : ConfigRow).
          (r.version ≡ suc (length (map (marked version) rows)))
          × (r.checksum ≡ checksum_of r.payload)
          × Counted (map (marked version) rows))
        (eqb row.version version) _ _
        (λ _.
          (v ∙ ap suc (sym (length-map (marked version) rows)), s, marked-Counted version rows c))
        (λ _.
          (v ∙ ap suc (sym (length-map (marked version) rows)), s, marked-Counted version rows c))

  pub has_version_lem :
      (version : ℕ) (rows : List ConfigRow)
      → Counted rows
      → any (λ row. eqb row.version version) rows ≡ (leb 1 version && leb version (length rows))
  has_version_lem version [] c = ground arith
  has_version_lem version (row ∷ rows) (v, s, c) = ground (arith, has_version_lem version rows c)

  -- The row of a version, marked among rows that are inactive, is the active one.
  pub active_row-marked :
      (version : ℕ) (rows : List ConfigRow)
      → Counted rows
      → (leb 1 version && leb version (length rows)) ≡ true
      → (row : ConfigRow) × (active_row (map (marked version) (map inactive rows)) ≡ some row)
        × (row.version ≡ version)
        × (row.checksum ≡ checksum_of row.payload)
        × (head? (drop (length rows - version) (payloads rows)) ≡ some row.payload)
  unfolding active_row
  active_row-marked version [] c h = absurd (ground arith)
  active_row-marked version (row ∷ rows) (v, s, c) h = elim (Bool-cases (eqb row.version version)) [
    | inl same ↦
        let e : row.version ≡ version = ground arith in
        let z : suc (length rows) - version ≡ 0 = omega arith in
        (marked version (inactive row), rw same refl, rw same e, rw same s, rw (same, z) refl)
    | inr other ↦
        let h' : (leb 1 version && leb version (length rows)) ≡ true = ground arith in
        let (found, a, v', s', p) = active_row-marked version rows c h' in
        let z : suc (length rows) - version ≡ suc (length rows - version) = ground arith in
        (found, rw other a, v', s', rw z p)
  ]

  pub actives-marked :
      (version : ℕ) (rows : List ConfigRow)
      → Counted rows
      → (actives (map (marked version) (map inactive rows)) ≤ 1)
        × (length rows < version → actives (map (marked version) (map inactive rows)) ≡ 0)
  actives-marked version [] c = (omega arith, λ _. refl)
  actives-marked version (row ∷ rows) (v, s, c) =
      let (one, none_yet) = actives-marked version rows c in
      (ground arith, λ h. ground (arith, none_yet (omega arith)))

pub payloads-inactive : (rows : List ConfigRow) → payloads (map inactive rows) ≡ payloads rows
payloads-inactive [] = refl
payloads-inactive (row ∷ rows) = ap (◌∷◌ row.payload) (payloads-inactive rows)

pub payloads-marked :
    (version : ℕ) (rows : List ConfigRow) → payloads (map (marked version) rows) ≡ payloads rows
payloads-marked version [] = refl
payloads-marked version (row ∷ rows) = ground (arith, payloads-marked version rows)

pub any-inactive : (rows : List ConfigRow) → any is_active (map inactive rows) ≡ false
any-inactive [] = refl
any-inactive (row ∷ rows) = any-inactive rows

pub actives-inactive : (rows : List ConfigRow) → actives (map inactive rows) ≡ 0
actives-inactive [] = refl
actives-inactive (row ∷ rows) = omega (arith, actives-inactive rows)

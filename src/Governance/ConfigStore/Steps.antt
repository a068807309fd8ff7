-- ===== src/Governance/ConfigStore/Steps.antt =====
-- governed_config_store.py: what one publish and one activation make of the table's rows.
use supervisor_agent.Base.Text.{decimal}
use supervisor_agent.Base.{
  ◌<>◌, ℕ, suc, ◌+◌, ◌≤◌, eqb, leb, String, ◌==◌, eq_iff, true, false, ◌&&◌, Option, none, some,
  List, [], ◌∷◌, map, any, length, length-map, if◌then◌else◌, ◌≡◌, refl, sym, ap, ◌∙◌, arith,
  Bool-cases, inl, inr, by_test,
}
use supervisor_agent.Base.Dict.{Dict}
use supervisor_agent.Base.Result.{ok, Exc, raised}
use supervisor_agent.Worker.Json.{Json}
use supervisor_agent.Governance.ConfigStore as Store
use supervisor_agent.Governance.ConfigStore.{
  Validator, ConfigRow, ConfigTable, versions_of, config_error, active_row, max_version, deactivate,
  set_active, validate, insert_row, checksum_of,
}
use supervisor_agent.Governance.ConfigStore.Ledger as Ledger
use supervisor_agent.Governance.ConfigStore.Ledger.{Ledger, has_version, unpublished}
use supervisor_agent.Governance.ConfigStore.Rows.{
  inactive, marked, payloads, actives, Counted, versions_of-deactivate, versions_of-set_active,
  max_version-Counted, inactive-Counted, marked-Counted, has_version_lem, active_row-marked,
  actives-marked, payloads-inactive, payloads-marked, any-inactive, actives-inactive,
}

abbrev pub current_of : List ConfigRow → ℕ
current_of rows = elim (active_row rows) [ none ↦ 0 | some row ↦ row.version ]

-- The ledger that the rows of a document stand for.
abbrev pub view : String → ConfigTable → Ledger
view name t = record {
  payloads = payloads (versions_of name t);
  current = current_of (versions_of name t);
}

module _ (sha256 : String → String) (dumps : Json → String) (validators : Dict Validator) where
  abbrev Sums : List ConfigRow → Type 0
  Sums rows = Counted (checksum_of sha256 dumps) rows

  -- Of every document the versions are numbered, each row has its checksum, and at most one version
  -- is active.
  abbrev pub WellFormed : ConfigTable → Type 0
  WellFormed t = (name : String) → Sums (versions_of name t) × (actives (versions_of name t) ≤ 1)

  abbrev pub published : String → Json → String → String → ConfigTable → ConfigRow
  published name payload actor comment t = record {
    name = name;
    version = max_version (versions_of name t) + 1;
    payload = payload;
    checksum = checksum_of sha256 dumps payload;
    active = true;
    created_by = actor;
    comment = comment;
  }

  -- The unique indexes never refuse what `publish` inserts.
  insert_published :
      (name : String) (payload : Json) (actor comment : String) (t : ConfigTable)
      → WellFormed t
      → insert_row (published name payload actor comment t) (deactivate name t)
        ≡ ok (published name payload actor comment t ∷ deactivate name t)
  unfolding insert_row
  insert_published name payload actor comment t w =
      let rows = versions_of name t in
      let same : versions_of name (deactivate name t) ≡ map inactive rows =
        versions_of-deactivate name name t ∙ rw ((eq_iff name name).1 refl) refl in
      let none_such : any (λ row. eqb row.version (max_version rows + 1)) (map inactive rows)
          ≡ false =
        has_version_lem (checksum_of sha256 dumps) (max_version rows + 1) (map inactive rows)
          (inactive-Counted (checksum_of sha256 dumps) rows (w name).0)
        ∙ ground (
          arith,
          max_version-Counted (checksum_of sha256 dumps) rows (w name).0,
          length-map inactive rows,
        ) in
      rw (same, none_such, any-inactive rows) refl

  pub publish_lem :
      (name : String) (payload : Json) (actor comment : String) (t : ConfigTable)
      → WellFormed t
      → validate validators name payload ≡ ok tt
      → Store.publish sha256 dumps validators name payload actor comment t
        ≡ ok (
          published name payload actor comment t ∷ deactivate name t,
          max_version (versions_of name t) + 1,
        )
  unfolding Store.publish
  publish_lem name payload actor comment t w v =
      rw (v, insert_published name payload actor comment t w) refl

  -- The rows of each document after a publish, and after an activation.
  rows-published :
      (name other : String) (payload : Json) (actor comment : String) (t : ConfigTable)
      → versions_of other (published name payload actor comment t ∷ deactivate name t) ≡ (
          if other == name
          then published name payload actor comment t ∷ map inactive (versions_of other t)
          else versions_of other t)
  rows-published name other payload actor comment t =
      ground (arith, versions_of-deactivate name other t)

  rows-activated :
      (name other : String) (version : ℕ) (t : ConfigTable)
      → versions_of other (set_active name version (deactivate name t)) ≡ (
          if other == name
          then map (marked version) (map inactive (versions_of other t))
          else versions_of other t)
  rows-activated name other version t =
      versions_of-set_active name other version (deactivate name t)
      ∙ ground (arith, versions_of-deactivate name other t)

  abbrev IsGood : List ConfigRow → Type 0
  IsGood rows = Sums rows × (actives rows ≤ 1)

  pub publish-WellFormed :
      (name : String) (payload : Json) (actor comment : String) (t : ConfigTable)
      → WellFormed t
      → WellFormed (published name payload actor comment t ∷ deactivate name t)
  publish-WellFormed name payload actor comment t w other =
      rw (rows-published name other payload actor comment t) (
        by_test IsGood (other == name) _ _
          (λ e.
            let rows = versions_of other t in
            let v : max_version (versions_of name t) + 1 ≡ suc (length (map inactive rows)) =
              rw (← (eq_iff other name).0 e) (
                omega (
                  arith,
                  max_version-Counted (checksum_of sha256 dumps) rows (w other).0,
                  length-map inactive rows,
                )) in
            (
              (v, refl, inactive-Counted (checksum_of sha256 dumps) rows (w other).0),
              omega (arith, actives-inactive rows),
            ))
          (λ _. w other))

  pub activate-WellFormed :
      (name : String) (version : ℕ) (t : ConfigTable)
      → WellFormed t
      → WellFormed (set_active name version (deactivate name t))
  activate-WellFormed name version t w other = rw (rows-activated name other version t) (
      by_test IsGood (other == name) _ _
        (λ e.
          let rows = versions_of other t in
          (
            marked-Counted (checksum_of sha256 dumps) version (map inactive rows)
                (inactive-Counted (checksum_of sha256 dumps) rows (w other).0),
            (actives-marked (checksum_of sha256 dumps) version rows (w other).0).0,
          ))
        (λ _. w other))

  abbrev ledger_of : List ConfigRow → Ledger
  ledger_of rows = record { payloads = payloads rows; current = current_of rows }

  pub view-published :
      (name other : String) (payload : Json) (actor comment : String) (t : ConfigTable)
      → WellFormed t
      → view other (published name payload actor comment t ∷ deactivate name t)
        ≡ (if other == name then Ledger.publish payload (view other t) else view other t)
  unfolding active_row
  view-published name other payload actor comment t w =
      ap ledger_of (rows-published name other payload actor comment t)
      ∙ elim (Bool-cases (other == name)) [
        | inl e ↦
            let rows = versions_of other t in
            let n : max_version (versions_of name t) + 1 ≡ length (payloads rows) + 1 =
              rw (← (eq_iff other name).0 e) (
                omega (
                  arith,
                  max_version-Counted (checksum_of sha256 dumps) rows (w other).0,
                  length-map {0, 0} (λ (row : ConfigRow). row.payload) rows,
                )) in
            rw (e, payloads-inactive rows, n) refl
        | inr e ↦ rw e refl
      ]

  none_active : (rows : List ConfigRow) → active_row (map inactive rows) ≡ none
  unfolding active_row
  none_active [] = refl
  none_active (row ∷ rows) = none_active rows

  pub has_version_rows :
      (version : ℕ) (rows : List ConfigRow)
      → has_version version (ledger_of rows) ≡ (leb 1 version && leb version (length rows))
  has_version_rows version rows = rw (length-map (λ (row : ConfigRow). row.payload) rows) refl

  ledger_of-marked :
      (version : ℕ) (rows : List ConfigRow)
      → Sums rows
      → has_version version (ledger_of rows) ≡ true
      → ledger_of (map (marked version) (map inactive rows))
        ≡ Ledger.activate version (ledger_of rows)
  ledger_of-marked version rows c h =
      let (row, a, v, same, served) =
        active_row-marked (checksum_of sha256 dumps) version rows c
          (sym (has_version_rows version rows) ∙ h) in
      let now : current_of (map (marked version) (map inactive rows)) ≡ version =
        ap (λ (found : Option ConfigRow). elim found [ none ↦ 0 | some r ↦ r.version ]) a ∙ v in
      let kept : payloads (map (marked version) (map inactive rows)) ≡ payloads rows =
        payloads-marked version (map inactive rows) ∙ payloads-inactive rows in
      rw h (λ i. record { payloads = kept i; current = now i })

  pub view-activated :
      (name other : String) (version : ℕ) (t : ConfigTable)
      → WellFormed t
      → has_version version (view name t) ≡ true
      → view other (set_active name version (deactivate name t))
        ≡ (if other == name then Ledger.activate version (view other t) else view other t)
  view-activated name other version t w h =
      ap ledger_of (rows-activated name other version t) ∙ elim (Bool-cases (other == name)) [
        | inl e ↦
            let h' : has_version version (view other t) ≡ true = rw ((eq_iff other name).0 e) h in
            rw e (ledger_of-marked version (versions_of other t) (w other).0 h')
        | inr e ↦ rw e refl
      ]

  pub publish_refused :
      (name : String) (payload : Json) (actor comment : String) (t : ConfigTable) (e : Exc)
      → validate validators name payload ≡ raised e
      → Store.publish sha256 dumps validators name payload actor comment t ≡ raised e
  unfolding Store.publish
  publish_refused name payload actor comment t e v = rw v refl

  pub activate_done :
      (name : String) (version : ℕ) (t : ConfigTable)
      → any (λ row. eqb row.version version) (versions_of name t) ≡ true
      → Store.activate name version t ≡ ok (set_active name version (deactivate name t))
  unfolding Store.activate
  activate_done name version t h = rw h refl

  pub activate_refused :
      (name : String) (version : ℕ) (t : ConfigTable)
      → any (λ row. eqb row.version version) (versions_of name t) ≡ false
      → (e : Exc) × (Store.activate name version t ≡ raised e)
  unfolding Store.activate
  activate_refused name version t h =
      (config_error (name <> (" has no version " <> decimal version)), rw h refl)

  pub left_alone :
      (name other : String) (version : ℕ) (t : ConfigTable)
      → has_version version (view name t) ≡ false
      → view other t
        ≡ (if other == name then Ledger.activate version (view other t) else view other t)
  left_alone name other version t h = elim (Bool-cases (other == name)) [
    | inl e ↦
        let h' : has_version version (view other t) ≡ false = rw ((eq_iff other name).0 e) h in
        rw (e, h') refl
    | inr e ↦ rw e refl
  ]

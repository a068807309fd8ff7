-- ===== src/Governance/ConfigStore/Reads.antt =====
-- governed_config_store.py: what `ConfigStore.read` serves.
use supervisor_agent.Base.{
  ℕ, suc, ◌-◌, ◌≤◌, eqb, String, ◌==◌, eq_iff, true, false, not, ◌&&◌, Option, none, some, List, [],
  ◌∷◌, head?, drop, length, length-map, Option-cases, ◌≡◌, ◌≢◌, ◌⊎◌, refl, sym, ap, ◌∙◌, arith,
  Bool-cases, inl, inr, if-true, if-false,
}
use supervisor_agent.Base.Text.{truthy}
use supervisor_agent.Base.Dict.{Dict}
use supervisor_agent.Base.Result.{Exc, raised, Result, ok, first_step, ◌>>=◌}
use supervisor_agent.Worker.Json.{Json, is_object, null, boolean, number, str, arr, obj}
use supervisor_agent.Governance.ConfigStore.{
  mismatch, from_driver, config_error, Validator, ConfigRow, ConfigTable, ConfigDocument,
  versions_of, active_row, validate, require, parsed, checksum_of, document_of, read,
}
use supervisor_agent.Governance.ConfigStore.Require.{require-ok}
use supervisor_agent.Governance.ConfigStore.Ledger.{Ledger, served, unpublished}
use supervisor_agent.Governance.ConfigStore.Rows.{payloads, Counted}
use supervisor_agent.Governance.ConfigStore.Steps.{view, current_of}
use supervisor_agent.Governance.ConfigStore.Refines.{Command, run, run_ledger, run_refines}

active_row-Counted :
    (sum_of : Json → String) (rows : List ConfigRow) (row : ConfigRow)
    → Counted sum_of rows
    → active_row rows ≡ some row
    → (1 ≤ row.version)
      × (row.version ≤ length rows)
      × (row.checksum ≡ sum_of row.payload)
      × (head? (drop (length rows - row.version) (payloads rows)) ≡ some row.payload)
unfolding active_row
active_row-Counted sum_of [] row c h = cc
active_row-Counted sum_of (r ∷ rows) row (v, s, c) h = elim (Bool-cases r.active) [
  | inl t ↦
      let h' : some r ≡ some row = sym (if-true r.active _ _ t) ∙ h in
      let e : r ≡ row = cc in
      let z : suc (length rows) - r.version ≡ 0 = omega arith in
      rw (← e) (omega arith, omega arith, s, rw z refl)
  | inr f ↦
      let (a, b, s', p) =
        active_row-Counted sum_of rows row c (sym (if-false r.active _ _ f) ∙ h) in
      let z : suc (length rows) - row.version ≡ suc (length rows - row.version) = omega arith in
      (a, omega arith, s', rw z p)
]

abbrev from_table : (Json → String) → String → ConfigRow → ConfigDocument
from_table sum_of name row = record {
  name = name;
  payload = row.payload;
  source = "table";
  version = some row.version;
  checksum = sum_of row.payload;
}

module _ (sha256 : String → String) (dumps : Json → String) (column : Json → Json)
    (loads : String → Result Json) (validators : Dict Validator) where
  from_driver_object :
      (payload : Json)
      → is_object payload ≡ true
      → from_driver sha256 dumps loads payload ≡ ok payload
  unfolding from_driver
  from_driver_object (obj fields) h = refl
  from_driver_object null h = cc
  from_driver_object (boolean b) h = cc
  from_driver_object (number n) h = cc
  from_driver_object (str s) h = cc
  from_driver_object (arr xs) h = cc

  parsed_object :
      (written : Json)
      → is_object (column written) ≡ true
      → parsed sha256 dumps column loads written ≡ ok (column written)
  unfolding parsed
  parsed_object written h = from_driver_object (column written) h

  document_of_lem :
      (name : String) (row : ConfigRow)
      → column row.payload ≡ row.payload
      → row.checksum ≡ checksum_of sha256 dumps row.payload
      → is_object row.payload ≡ true
      → validate validators name row.payload ≡ ok tt
      → document_of sha256 dumps column loads validators name row
        ≡ ok (from_table (checksum_of sha256 dumps) name row)
  unfolding document_of require
  document_of_lem name row kept s o v =
      let p : parsed sha256 dumps column loads row.payload ≡ ok row.payload =
        parsed_object row.payload (ap is_object kept ∙ o) ∙ ap ok kept in
      rw (p, o, sym s, (eq_iff row.checksum row.checksum).1 refl)
        (elim (Bool-cases (truthy row.checksum)) [
          | inl t ↦ rw (t, v) refl
          | inr f ↦ rw (f, v) refl
        ])

  -- A document that the column gives back with another checksum is refused.
  document_of_changed :
      (name : String) (row : ConfigRow)
      → is_object (column row.payload) ≡ true
      → truthy row.checksum ≡ true
      → row.checksum ≢ checksum_of sha256 dumps (column row.payload)
      → (message : String) × (document_of sha256 dumps column loads validators name row
          ≡ raised (config_error message))
  unfolding document_of require
  document_of_changed name row o t changed =
      elim (Bool-cases (checksum_of sha256 dumps (column row.payload) == row.checksum)) [
        | inl same ↦ absurd (changed (sym ((eq_iff _ row.checksum).0 same)))
        | inr other ↦ (
          mismatch sha256 dumps name row (checksum_of sha256 dumps (column row.payload)),
          rw (parsed_object row.payload o, o, t, other) refl,
        )
      ]

  read_row :
      (name : String) (t : ConfigTable) (row : ConfigRow) (d : ConfigDocument)
      → active_row (versions_of name t) ≡ some row
      → document_of sha256 dumps column loads validators name row ≡ ok d
      → read sha256 dumps column loads validators name t ≡ ok (some d)
  unfolding read
  read_row name t row d a h = rw (read, a, h) refl

  sum_checked :
      (sum actual : String)
      → not (truthy sum && not (actual == sum)) ≡ true
      → (truthy sum ≡ false) ⊎ (sum ≡ actual)
  sum_checked sum actual h = elim (Bool-cases (truthy sum)) [
    | inr f ↦ inl f
    | inl t ↦ elim (Bool-cases (actual == sum)) [
      | inl e ↦ inr (sym ((eq_iff actual sum).0 e))
      | inr n ↦ absurd (let h' = rw (t, n) at h in cc)
    ]
  ]

  abbrev pub Checked : String → ConfigRow → ConfigDocument → Type 0
  Checked name row d =
      (parsed sha256 dumps column loads row.payload ≡ ok d.payload)
      × (is_object d.payload ≡ true)
      × (validate validators name d.payload ≡ ok tt)
      × ((truthy row.checksum ≡ false) ⊎ (row.checksum ≡ checksum_of sha256 dumps d.payload))
      × (d.version ≡ some row.version)
      × (d.checksum ≡ checksum_of sha256 dumps d.payload)

  document_of-Checked :
      (name : String) (row : ConfigRow) (d : ConfigDocument)
      → document_of sha256 dumps column loads validators name row ≡ ok d
      → Checked name row d
  unfolding document_of
  document_of-Checked name row d h =
      let (payload, h1, p) = first_step (parsed sha256 dumps column loads row.payload) _ h in
      let (mapping, h2, o) = first_step (require (is_object payload) _) _ h1 in
      let (same, h3, c) =
        first_step
          (require
            (not (truthy row.checksum && not (checksum_of sha256 dumps payload == row.checksum))) _)
          _ h2 in
      let (valid, h4, v) = first_step (validate validators name payload) _ h3 in
      let e : payload ≡ d.payload = cc in
      let n : some row.version ≡ d.version = cc in
      let m : checksum_of sha256 dumps payload ≡ d.checksum = cc in
      (
        p ∙ ap ok e,
        rw (← e) (require-ok (is_object payload) _ mapping o),
        rw (← e) v,
        rw (← e)
            (sum_checked row.checksum (checksum_of sha256 dumps payload) (require-ok _ _ same c)),
        sym n,
        rw (← e) (sym m),
      )

abbrev version_of : Option ConfigRow → ℕ
version_of found = elim found [ none ↦ 0 | some row ↦ row.version ]

served_at :
    {found target : Option ConfigRow} (ps : List Json)
    → found ≡ target
    → served (record { payloads = ps; current = version_of found })
      ≡ served (record { payloads = ps; current = version_of target })
served_at ps e =
    ap (λ (f : Option ConfigRow). served (record { payloads = ps; current = version_of f })) e

served_row :
    (rows : List ConfigRow) (row : ConfigRow)
    → 1 ≤ row.version
    → head? (drop (length rows - row.version) (payloads rows)) ≡ some row.payload
    → served (record { payloads = payloads rows; current = row.version }) ≡ some row.payload
served_row rows row one p =
    let z : eqb row.version 0 ≡ false = ground arith in
    rw (z, length-map (λ (r : ConfigRow). r.payload) rows) p

read_refused :
    (sha256 : String → String) (dumps : Json → String) (column : Json → Json)
    (loads : String → Result Json) (validators : Dict Validator) (name : String) (t : ConfigTable)
    (row : ConfigRow) (e : Exc)
    → active_row (versions_of name t) ≡ some row
    → document_of sha256 dumps column loads validators name row ≡ raised e
    → read sha256 dumps column loads validators name t ≡ raised e
unfolding read
read_refused sha256 dumps column loads validators name t row e a h = rw (read, a, h) refl

-- The active row after any commands, where the ledger of the document serves a payload.
served_active :
    (sha256 : String → String) (dumps : Json → String) (validators : Dict Validator)
    (commands : List Command) (name : String) (payload : Json)
    → served (run_ledger sha256 dumps validators name commands unpublished) ≡ some payload
    → (row : ConfigRow) × (active_row (versions_of name (run sha256 dumps validators commands []))
        ≡ some row)
      × (payload ≡ row.payload)
      × (row.checksum ≡ checksum_of sha256 dumps row.payload)
      × ((run_ledger sha256 dumps validators name commands unpublished).current ≡ row.version)
served_active sha256 dumps validators commands name payload s =
    let t = run sha256 dumps validators commands [] in
    let (w, refines) = run_refines sha256 dumps validators commands in
    let s' : served (view name t) ≡ some payload = ap served (refines name) ∙ s in
    elim (Option-cases (active_row (versions_of name t))) [
      | inl none_active ↦ absurd (
          let s'' : none ≡ some payload =
            sym (served_at (payloads (versions_of name t)) none_active) ∙ s' in
          cc)
      | inr (row, a) ↦
          let (one, most, sum, p) =
            active_row-Counted (checksum_of sha256 dumps) (versions_of name t) row (w name).0 a in
          let e : payload ≡ row.payload =
            let s'' : some row.payload ≡ some payload =
              sym (served_row (versions_of name t) row one p)
              ∙ (sym (served_at (payloads (versions_of name t)) a) ∙ s') in
            cc in
          let v' : current_of (versions_of name t) ≡ row.version =
            ap (λ (found : Option ConfigRow). elim found [ none ↦ 0 | some r ↦ r.version ]) a in
          (row, a, e, sum, ap (λ (l : Ledger). l.current) (sym (refines name)) ∙ v')
    ]

-- What `read` serves is what the ledger of the document serves, as far as the column keeps it. After
-- any commands on an empty table let a payload be the one of the version that is current. If the
-- column gives it back as it was written, and it is a mapping that passes the document's validator,
-- then `read` serves it, with that version and its checksum. If the column gives back a mapping with
-- another checksum, and the one of the payload is not empty, then `read` raises a ConfigError: what
-- was published is not served, and neither is what it has become.
pub read_serves :
    (sha256 : String → String) (dumps : Json → String) (column : Json → Json)
    (loads : String → Result Json) (validators : Dict Validator) (commands : List Command)
    (name : String) (payload : Json)
    → served (run_ledger sha256 dumps validators name commands unpublished) ≡ some payload
    → (column payload ≡ payload
        → is_object payload ≡ true
        → validate validators name payload ≡ ok tt
        → read sha256 dumps column loads validators name (run sha256 dumps validators commands [])
          ≡ ok (
              some (record {
                name = name;
                payload = payload;
                source = "table";
                version =
                    some (run_ledger sha256 dumps validators name commands unpublished).current;
                checksum = checksum_of sha256 dumps payload;
              })))
      × (is_object (column payload) ≡ true
          → truthy (checksum_of sha256 dumps payload) ≡ true
          → checksum_of sha256 dumps payload ≢ checksum_of sha256 dumps (column payload)
          → (message : String) × (read sha256 dumps column loads validators name
                (run sha256 dumps validators commands [])
              ≡ raised (config_error message)))
read_serves sha256 dumps column loads validators commands name payload s =
    let t = run sha256 dumps validators commands [] in
    let (row, a, e, sum, c) = served_active sha256 dumps validators commands name payload s in
    (
      λ kept o v.
          let d =
            document_of_lem sha256 dumps column loads validators name row (rw e at kept) sum
              (rw e at o) (rw e at v) in
          read_row sha256 dumps column loads validators name t row _ a d ∙ rw (c, e) refl,
      λ o filled changed.
          let (message, d) =
            document_of_changed sha256 dumps column loads validators name row (rw e at o)
              (ap truthy sum ∙ rw e at filled) (λ x. changed (rw e (sym sum ∙ x))) in
          (message, read_refused sha256 dumps column loads validators name t row _ a d),
    )

-- Whatever the rows of the table have become, a document that is served is that of an active row of
-- its name: its payload is a mapping, passes its validator, and has the checksum that the row
-- carries, unless the row carries an empty one. The document has the row's version and the checksum
-- of its payload.
pub read-Checked :
    (sha256 : String → String) (dumps : Json → String) (column : Json → Json)
    (loads : String → Result Json) (validators : Dict Validator) (name : String) (t : ConfigTable)
    (d : ConfigDocument)
    → read sha256 dumps column loads validators name t ≡ ok (some d)
    → (row : ConfigRow) × (active_row (versions_of name t) ≡ some row)
      × Checked sha256 dumps column loads validators name row d
unfolding read
read-Checked sha256 dumps column loads validators name t d h =
    elim (Option-cases (active_row (versions_of name t))) [
      | inl none_active ↦ absurd (let h' = rw (read, none_active) at h in cc)
      | inr (row, a) ↦
          let h' : (document_of sha256 dumps column loads validators name row >>= λ document.
          ok (some document))
              ≡ ok (some d) =
            rw (read, a) at h in
          let (d', f, e) =
            first_step (document_of sha256 dumps column loads validators name row) _ h' in
          (row, a, document_of-Checked sha256 dumps column loads validators name row d (e ∙ (cc)))
    ]

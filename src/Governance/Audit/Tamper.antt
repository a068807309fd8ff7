-- ===== src/Governance/Audit/Tamper.antt =====
-- audit_trail.py: what the walk of the chain notices of a changed history, and what it does not.
use Prim.Native.String.count as Count
use supervisor_agent.Base.{
  In, count, ◌<>◌, not, ◌&&◌, keep-append, lt→ltb, ◌<◌, ℕ, ◌+◌, String, ◌==◌, eq_iff, true, false,
  List, [], ◌∷◌, ◌++◌, map, elem, keep, all, ltb, length, ◌≡◌, refl, sym, ◌∙◌, arith, Bool-cases,
  inl, inr,
}
use supervisor_agent.Base.Append.{append_cancel}
use supervisor_agent.Base.Text.{truthy, or_text}
use supervisor_agent.Base.Dict.{Dict}
use supervisor_agent.Worker.Json.{Json}
use supervisor_agent.Governance.Audit.{
  genesis, verifiable_payload, hash_columns, AuditRow, AuditTable, ChainVerification, walk,
  walked_columns, verify_chain,
}
use supervisor_agent.Governance.Audit.Walk.{
  last_from, last_id, whole, digested, Walked, walk_of_Walked, walk-Walked, Walked-suffix,
  last_from-suffix, last_id-suffix,
}

-- The rows that a walk after an id reads.
abbrev pub later_than : ℕ → List AuditRow → List AuditRow
later_than after rows = keep (λ row. ltb after row.id) rows

abbrev pub IsChained : AuditTable → Type 0
IsChained t = all (λ name. elem name t.columns) hash_columns ≡ true

module _ (sha256 : String → String) (dumps : Dict Json → String) where
  count-truthy : (s : String) → count s ≡ 64 → truthy s ≡ true
  count-truthy String.[] h = absurd (let h' = rw Count.nil at h in omega arith)
  count-truthy (String.◌∷◌ c s) h = refl

  module _ (columns : List String) where
    abbrev pub Agree : List AuditRow → List AuditRow → Type 0
    Agree rows others =
        (map (λ (row : AuditRow). row.row_hash) rows
          ≡ map (λ (row : AuditRow). row.row_hash) others)
        × (map (digested sha256 dumps columns) rows ≡ map (digested sha256 dumps columns) others)

    -- The digest tells the texts of the rows of two lists apart: no row of the one and row of the
    -- other have different texts with the same digest.
    abbrev pub ToldApart : List AuditRow → List AuditRow → Type 0
    ToldApart rows others =
        (r s : AuditRow)
        → In r rows
        → In s others
        → sha256 (digested sha256 dumps columns r) ≡ sha256 (digested sha256 dumps columns s)
        → digested sha256 dumps columns r ≡ digested sha256 dumps columns s

    Agree-cons :
        (r s : AuditRow) (rows others : List AuditRow)
        → ToldApart (r ∷ rows) (s ∷ others)
        → sha256 (digested sha256 dumps columns r) ≡ r.row_hash
        → sha256 (digested sha256 dumps columns s) ≡ s.row_hash
        → r.row_hash ≡ s.row_hash
        → Agree rows others
        → Agree (r ∷ rows) (s ∷ others)
    Agree-cons r s rows others apart d e h (hs, ts) =
        let t = apart r s (inl refl) (inl refl) (d ∙ (h ∙ sym e)) in
        (rw (h, hs) refl, rw (t, ts) refl)

    -- A row whose predecessor's hash is known to be one names it.
    follows :
        (known prev : String)
        → truthy known ≡ true
        → (truthy known && not (prev == known)) ≡ false
        → prev ≡ known
    follows known prev t h = elim (Bool-cases (prev == known)) [
      | inl e ↦ (eq_iff prev known).0 e
      | inr n ↦ absurd (let h' = rw (t, n) at h in cc)
    ]

    or_known :
        (prev known : String) → truthy known ≡ true → prev ≡ known → or_text prev genesis ≡ known
    or_known prev known t e = rw e (rw t refl)

    module _ (fixed : (x : String) → count (sha256 x) ≡ 64) where
      hash_truthy : (x : String) → truthy (sha256 x) ≡ true
      hash_truthy x = count-truthy (sha256 x) (fixed x)

      -- The same text under the digests of two rows, after rows that are digested.
      same_before :
          (x y : String) (r s r' s' : AuditRow)
          → sha256 x ≡ r.row_hash
          → sha256 y ≡ s.row_hash
          → (truthy r.row_hash && not (r'.prev_hash == r.row_hash)) ≡ false
          → (truthy s.row_hash && not (s'.prev_hash == s.row_hash)) ≡ false
          → digested sha256 dumps columns r' ≡ digested sha256 dumps columns s'
          → r.row_hash ≡ s.row_hash
      same_before x y r s r' s' d e a b t =
          let tr : truthy r.row_hash ≡ true = rw (← d) (hash_truthy x) in
          let ts : truthy s.row_hash ≡ true = rw (← e) (hash_truthy y) in
          let fr = or_known r'.prev_hash r.row_hash tr (follows r.row_hash r'.prev_hash tr a) in
          let fs = or_known s'.prev_hash s.row_hash ts (follows s.row_hash s'.prev_hash ts b) in
          let t' : r.row_hash <> dumps (verifiable_payload r' columns)
              ≡ s.row_hash <> dumps (verifiable_payload s' columns) =
            rw (← fr, ← fs) t in
          (append_cancel r.row_hash s.row_hash _ _ (rw (← d, ← e) (fixed x ∙ sym (fixed y))) t').0

      -- Two walks of as many rows that end in the same hash.
      walks-Agree :
          (p q : String) (r s : AuditRow) (rows others : List AuditRow)
          → ToldApart (r ∷ rows) (s ∷ others)
          → Walked sha256 dumps columns p (r ∷ rows)
          → Walked sha256 dumps columns q (s ∷ others)
          → length rows ≡ length others
          → last_from r.row_hash rows ≡ last_from s.row_hash others
          → Agree (r ∷ rows) (s ∷ others)
      walks-Agree p q r s [] [] apart (a, d, w) (b, e, v) n h =
          Agree-cons r s [] [] apart d e h (refl, refl)
      walks-Agree p q r s [] (s' ∷ others) apart w v n h = absurd (omega arith)
      walks-Agree p q r s (r' ∷ rows) [] apart w v n h = absurd (omega arith)
      walks-Agree p q r s (r' ∷ rows) (s' ∷ others) apart (a, d, w) (b, e, v) n h =
          let (hs, ts) =
            walks-Agree r.row_hash s.row_hash r' s' rows others
              (λ x y m o. apart x y (inr m) (inr o)) w v (omega arith) h in
          Agree-cons r s (r' ∷ rows) (s' ∷ others) apart d e
            (same_before _ _ r s r' s' d e w.0 v.0 (cc)) (hs, ts)

module _ (sha256 : String → String) (dumps : Dict Json → String) (columns : List String)
    (fixed : (x : String) → count (sha256 x) ≡ 64) where
  abbrev walked : List AuditRow → ChainVerification
  walked rows = walk sha256 dumps columns "" 0 0 "" rows

  walked-whole :
      (rows : List AuditRow)
      → (walked rows).intact ≡ true
      → walked rows ≡ whole (0 + length rows) (last_id 0 rows) (last_from "" rows)
  walked-whole rows i =
      walk_of_Walked sha256 dumps columns "" 0 0 "" rows
        (walk-Walked sha256 dumps columns "" 0 0 "" rows i)

  ended :
      (rows others : List AuditRow)
      → (walked rows).intact ≡ true
      → (walked others).intact ≡ true
      → (walked rows).checked ≡ (walked others).checked
      → (walked rows).head_hash ≡ (walked others).head_hash
      → ToldApart sha256 dumps columns rows others
      → Agree sha256 dumps columns rows others
  ended rows others i j n h apart =
      paired rows others apart (walk-Walked sha256 dumps columns "" 0 0 "" rows i)
        (walk-Walked sha256 dumps columns "" 0 0 "" others j)
        (let n' = rw (walked-whole rows i, walked-whole others j) at n in omega arith)
        (rw (walked-whole rows i, walked-whole others j) at h)
    where
      paired :
          (rows others : List AuditRow)
          → ToldApart sha256 dumps columns rows others
          → Walked sha256 dumps columns "" rows
          → Walked sha256 dumps columns "" others
          → length rows ≡ length others
          → last_from "" rows ≡ last_from "" others
          → Agree sha256 dumps columns rows others
      paired [] [] apart w v n h = (refl, refl)
      paired [] (s ∷ others) apart w v n h = absurd (omega arith)
      paired (r ∷ rows) [] apart w v n h = absurd (omega arith)
      paired (r ∷ rows) (s ∷ others) apart w v n h =
          walks-Agree sha256 dumps columns fixed "" "" r s rows others apart w v (omega arith) h

module _ (sha256 : String → String) (dumps : Dict Json → String) (columns : List String) where
  abbrev outcome : List AuditRow → ChainVerification
  outcome rows = walk sha256 dumps columns "" 0 0 "" rows

  suffix_walk :
      (older rows : List AuditRow) (row : AuditRow)
      → (outcome (older ++ row ∷ rows)).intact ≡ true
      → ((outcome (row ∷ rows)).intact ≡ true)
        × ((outcome (row ∷ rows)).head_id ≡ (outcome (older ++ row ∷ rows)).head_id)
        × ((outcome (row ∷ rows)).head_hash ≡ (outcome (older ++ row ∷ rows)).head_hash)
  suffix_walk older rows row i =
      let w = walk-Walked sha256 dumps columns "" 0 0 "" (older ++ row ∷ rows) i in
      let whole_walk = walk_of_Walked sha256 dumps columns "" 0 0 "" (older ++ row ∷ rows) w in
      let rest_walk =
        walk_of_Walked sha256 dumps columns "" 0 0 "" (row ∷ rows)
          (Walked-suffix sha256 dumps columns "" older rows row w) in
      (
        rw rest_walk refl,
        rw (whole_walk, rest_walk) (sym (last_id-suffix sha256 dumps columns 0 0 older rows row)),
        rw (whole_walk, rest_walk)
            (sym (last_from-suffix sha256 dumps columns "" "" older rows row)),
      )

-- Two states of the table, walked after the same id, that both verify with the same number of rows
-- and the same head hash hold the same history: row by row the same hashes, and the same text under
-- each, which is the hash before it and the content. The table has the hash columns, a digest has
-- 64 characters, and it tells the texts of the rows that are walked in the two states apart.
pub same_head-same_history :
    (sha256 : String → String) (dumps : Dict Json → String)
    → ((x : String) → count (sha256 x) ≡ 64)
    → (t : AuditTable) (rows : List AuditRow) (after : ℕ) → IsChained t
    → (verify_chain sha256 dumps t after).intact ≡ true
    → (verify_chain sha256 dumps (record t { rows = rows }) after).intact ≡ true
    → (verify_chain sha256 dumps t after).checked
      ≡ (verify_chain sha256 dumps (record t { rows = rows }) after).checked
    → (verify_chain sha256 dumps t after).head_hash
      ≡ (verify_chain sha256 dumps (record t { rows = rows }) after).head_hash
    → ToldApart sha256 dumps (walked_columns t) (later_than after t.rows) (later_than after rows)
    → Agree sha256 dumps (walked_columns t) (later_than after t.rows) (later_than after rows)
unfolding verify_chain
same_head-same_history sha256 dumps fixed t rows after c i j n h apart =
    ended sha256 dumps (walked_columns t) fixed (later_than after t.rows) (later_than after rows)
      (rw c at i) (rw c at j) (rw c at n) (rw c at h) apart

-- What the walk does not notice: where the rows before some row are deleted, whether a part of the
-- history or all of it up to there, a chain that verified as intact still does, with the same head,
-- also where those rows are later than the anchored id that the walk starts after. The row is later
-- than that id, and the table has the hash columns.
pub oldest_deleted :
    (sha256 : String → String) (dumps : Dict Json → String) (t : AuditTable)
    (older rows : List AuditRow) (row : AuditRow) (after : ℕ)
    → IsChained t
    → t.rows ≡ older ++ row ∷ rows
    → after < row.id
    → (verify_chain sha256 dumps t after).intact ≡ true
    → ((verify_chain sha256 dumps (record t { rows = row ∷ rows }) after).intact ≡ true)
      × ((verify_chain sha256 dumps (record t { rows = row ∷ rows }) after).head_id
          ≡ (verify_chain sha256 dumps t after).head_id)
      × ((verify_chain sha256 dumps (record t { rows = row ∷ rows }) after).head_hash
          ≡ (verify_chain sha256 dumps t after).head_hash)
unfolding verify_chain
oldest_deleted sha256 dumps t older rows row after c e l i =
    let later = lt→ltb after row.id l in
    let kept : later_than after t.rows ≡ later_than after older ++ row ∷ later_than after rows =
      rw e (keep-append (λ (r : AuditRow). ltb after r.id) older (row ∷ rows) ∙ rw later refl) in
    rw (c, later, kept)
      (suffix_walk sha256 dumps (walked_columns t) (later_than after older) (later_than after rows)
        row (rw (c, kept) at i))

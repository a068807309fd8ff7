-- ===== src/Governance/Audit/Walk.antt =====
-- audit_trail.py: the walk of the chain, against what it checks of each row.
use supervisor_agent.Base.{
  ℕ, suc, ◌+◌, String, ◌<>◌, ◌==◌, eq_iff, true, false, not, ◌&&◌, List, [], ◌∷◌, ◌++◌, length, ◌≡◌,
  refl, ap, ◌∙◌, arith, Bool-cases, inl, inr,
}
use supervisor_agent.Base.Text.{truthy, or_text}
use supervisor_agent.Base.Dict.{Dict}
use supervisor_agent.Worker.Json.{Json}
use supervisor_agent.Governance.Audit.{
  genesis, AuditRow, ChainVerification, verifiable_payload, row_digest, walk,
}

abbrev pub last_from : String → List AuditRow → String
last_from h [] = h
last_from h (row ∷ rows) = last_from row.row_hash rows

abbrev pub last_id : ℕ → List AuditRow → ℕ
last_id i [] = i
last_id i (row ∷ rows) = last_id row.id rows

-- What a walk reports that finds nothing wrong.
abbrev pub whole : ℕ → ℕ → String → ChainVerification
whole n i h = record {
  intact = true;
  checked = n;
  head_id = i;
  head_hash = h;
  broken_at = 0;
  detail = "";
}

module _ (sha256 : String → String) (dumps : Dict Json → String) (columns : List String) where
  -- The text whose digest a row records.
  abbrev pub digested : AuditRow → String
  digested row = or_text row.prev_hash genesis <> dumps (verifiable_payload row columns)

  -- What the walk checks of each row, after the hash of the row before it.
  abbrev pub Walked : String → List AuditRow → Type 0
  Walked prev [] = Unit {0}
  Walked prev (row ∷ rows) =
      ((truthy prev && not (row.prev_hash == prev)) ≡ false)
      × (sha256 (digested row) ≡ row.row_hash)
      × Walked row.row_hash rows

  pub walk_of_Walked :
      (prev : String) (n i : ℕ) (h : String) (rows : List AuditRow)
      → Walked prev rows
      → walk sha256 dumps columns prev n i h rows
        ≡ whole (n + length rows) (last_id i rows) (last_from h rows)
  unfolding walk row_digest
  walk_of_Walked prev n i h [] w = ap (λ m. whole m i h) (omega arith)
  walk_of_Walked prev n i h (row ∷ rows) (p, d, w) =
      rw (p, (eq_iff _ _).1 d)
        (walk_of_Walked row.row_hash (n + 1) row.id row.row_hash rows w
          ∙ ap (λ m. whole m (last_id row.id rows) (last_from row.row_hash rows))
              (let e : n + 1 + length rows ≡ n + suc (length rows) = omega arith in e))

  pub walk-Walked :
      (prev : String) (n i : ℕ) (h : String) (rows : List AuditRow)
      → (walk sha256 dumps columns prev n i h rows).intact ≡ true
      → Walked prev rows
  unfolding walk row_digest
  walk-Walked prev n i h [] k = tt
  walk-Walked prev n i h (row ∷ rows) k =
      elim (Bool-cases (truthy prev && not (row.prev_hash == prev))) [
        | inl broken ↦ absurd (let b = rw broken at k in cc)
        | inr p ↦ elim (Bool-cases (sha256 (digested row) == row.row_hash)) [
          | inl d ↦
              let k' = rw (p, d) at k in
              (p, (eq_iff _ _).0 d, walk-Walked row.row_hash (n + 1) row.id row.row_hash rows k')
          | inr d ↦ absurd (let b = rw (p, d) at k in cc)
        ]
      ]

  pub Walked-suffix :
      (prev : String) (older rows : List AuditRow) (row : AuditRow)
      → Walked prev (older ++ row ∷ rows)
      → Walked "" (row ∷ rows)
  Walked-suffix prev [] rows row (p, d, w) = (refl, d, w)
  Walked-suffix prev (o ∷ older) rows row (p, d, w) = Walked-suffix o.row_hash older rows row w

  pub last_from-suffix :
      (h k : String) (older rows : List AuditRow) (row : AuditRow)
      → last_from h (older ++ row ∷ rows) ≡ last_from k (row ∷ rows)
  last_from-suffix h k [] rows row = refl
  last_from-suffix h k (o ∷ older) rows row = last_from-suffix o.row_hash k older rows row

  pub last_id-suffix :
      (i j : ℕ) (older rows : List AuditRow) (row : AuditRow)
      → last_id i (older ++ row ∷ rows) ≡ last_id j (row ∷ rows)
  last_id-suffix i j [] rows row = refl
  last_id-suffix i j (o ∷ older) rows row = last_id-suffix o.id j older rows row

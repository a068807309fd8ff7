-- ===== src/Governance/Audit/Chain.antt =====
-- audit_trail.py: the rows that `log` writes are those that `verify_chain` accepts.
use mathlib.Core.List.{append-nil, append_assoc}
use supervisor_agent.Base.{
  ℕ, suc, ◌+◌, ◌<◌, String, ◌==◌, eq_iff, Bool, true, false, not, ◌&&◌, some, List, [], ◌∷◌, ◌++◌,
  map, keep, ltb, eqb, length, if◌then◌else◌, ◌≡◌, ◌⊎◌, refl, sym, ap, ◌∙◌, arith, Bool-cases, inl,
  inr, by_test, lt→ltb, ltb→lt, length-map, length-append, map-append,
}
use supervisor_agent.Base.Text.{truthy, or_text}
use supervisor_agent.Base.Dict.{Dict, lookup}
use supervisor_agent.Base.Result.{ok}
use supervisor_agent.Worker.Json.{Json}
use supervisor_agent.Governance.Audit.{
  optional_columns, chain_columns, genesis, AuditRow, AuditTable, PostgresAuditLogger, new_logger,
  Record, value_of, last_hash, payload_of, ChainVerification, verifiable_payload, row_digest,
  new_row, log, walk, walked_columns, verify_chain,
}
use supervisor_agent.Governance.Audit.Walk.{last_from, last_id, whole}
use supervisor_agent.Governance.Audit.Fleet.{idle_fleet, Fleet, Event, write, run}

module _ (sha256 : String → String) (dumps : Dict Json → String) where
  -- The rows follow one another from the hash of the row before them, each with the digest of its
  -- content.
  abbrev pub Linked : String → List AuditRow → Type 0
  Linked h [] = Unit {0}
  Linked h (row ∷ rows) =
      (row.prev_hash ≡ or_text h genesis)
      × (row_digest sha256 dumps row.prev_hash (verifiable_payload row chain_columns)
          ≡ row.row_hash)
      × Linked row.row_hash rows

  last_hash-eq :
      (h : String) (row : AuditRow) (rows : List AuditRow)
      → last_hash (row ∷ rows) ≡ last_from h (row ∷ rows)
  unfolding last_hash
  last_hash-eq h row [] = refl
  last_hash-eq h row (next ∷ rows) = last_hash-eq row.row_hash next rows

  Linked-append :
      (h : String) (rows : List AuditRow) (row : AuditRow)
      → Linked h rows
      → Linked (last_from h rows) (row ∷ [])
      → Linked h (rows ++ row ∷ [])
  Linked-append h [] row l k = k
  Linked-append h (r ∷ rows) row (p, d, l) k = (p, d, Linked-append r.row_hash rows row l k)

  or_genesis : (h : String) → or_text (or_text h genesis) genesis ≡ or_text h genesis
  or_genesis h = by_test (λ t. or_text t genesis ≡ t) (truthy h) _ _ (λ t. rw t refl) (λ _. refl)

  follows :
      (known : Bool) (h prev : String)
      → prev ≡ or_text h genesis
      → (truthy (if known then h else "") && not (prev == (if known then h else ""))) ≡ false
  follows false h prev p = refl
  follows true h prev p = elim (Bool-cases (truthy h)) [
    | inl t ↦ let e : prev ≡ h = rw t at p in rw (t, (eq_iff prev h).1 e) refl
    | inr f ↦ rw f refl
  ]

  digest_holds :
      (h : String) (row : AuditRow)
      → row.prev_hash ≡ or_text h genesis
      → row_digest sha256 dumps row.prev_hash (verifiable_payload row chain_columns) ≡ row.row_hash
      → not (
          row_digest sha256 dumps
            (or_text row.prev_hash genesis)
            (verifiable_payload row chain_columns)
          == row.row_hash)
        ≡ false
  digest_holds h row p d =
      let e : or_text row.prev_hash genesis ≡ row.prev_hash = rw p (or_genesis h) in
      rw e (rw ((eq_iff _ _).1 d) refl)

  -- The walk accepts linked rows, whether or not it knows the hash that they follow.
  walk-Linked :
      (known : Bool) (h : String) (n i : ℕ) (rows : List AuditRow)
      → Linked h rows
      → walk sha256 dumps chain_columns (if known then h else "") n i (if known then h else "") rows
        ≡ whole (n + length rows) (last_id i rows) (last_from (if known then h else "") rows)
  unfolding walk
  walk-Linked known h n i [] l = ap (λ m. whole m i (if known then h else "")) (omega arith)
  walk-Linked known h n i (row ∷ rows) (p, d, l) =
      rw (follows known h row.prev_hash p, digest_holds h row p d)
        (walk-Linked true row.row_hash (n + 1) row.id rows l
          ∙ ap (λ m. whole m (last_id row.id rows) (last_from row.row_hash rows))
              (let e : n + 1 + length rows ≡ n + suc (length rows) = omega arith in e))

  -- The ids count up from a number.
  abbrev Numbered : ℕ → List AuditRow → Type 0
  Numbered n [] = Unit {0}
  Numbered n (row ∷ rows) = (row.id ≡ n) × Numbered (n + 1) rows

  keep_later :
      (after n : ℕ) (rows : List AuditRow)
      → Numbered n rows
      → after < n
      → keep (λ row. ltb after row.id) rows ≡ rows
  keep_later after n [] k h = refl
  keep_later after n (row ∷ rows) (e, k) h =
      rw (lt→ltb after row.id (omega arith))
        (ap (◌∷◌ row) (keep_later after (n + 1) rows k (omega arith)))

  -- What a walk from an anchored id reads is linked, too.
  keep-Linked :
      (after n : ℕ) (h : String) (rows : List AuditRow)
      → Numbered n rows
      → Linked h rows
      → (k : String) × Linked k (keep (λ row. ltb after row.id) rows)
  keep-Linked after n h [] k l = (h, tt)
  keep-Linked after n h (row ∷ rows) (e, k) (p, d, l) = elim (Bool-cases (ltb after row.id)) [
    | inl t ↦ (h, rw (t, keep_later after (n + 1) rows k (omega (arith, ltb→lt))) (p, d, l))
    | inr f ↦ rw f (keep-Linked after (n + 1) row.row_hash rows k l)
  ]

  Numbered-append :
      (n : ℕ) (rows : List AuditRow) (row : AuditRow)
      → Numbered n rows
      → row.id ≡ n + length rows
      → Numbered n (rows ++ row ∷ [])
  Numbered-append n [] row k e = (omega arith, tt)
  Numbered-append n (r ∷ rows) row (i, k) e = (i, Numbered-append (n + 1) rows row k (omega arith))

  module _ (repr : Json → String) where
    abbrev settled : PostgresAuditLogger
    settled = record { ready = true; columns = optional_columns }

    abbrev table : List AuditRow → ℕ → AuditTable
    table rows n = record { columns = optional_columns; rows = rows; next_id = n }

    -- What a decision's row holds, by column.
    abbrev pub content : Event → Dict Json
    content e = payload_of (value_of repr e.now e.decision) chain_columns

    abbrev row_for : Event → List AuditRow → ℕ → AuditRow
    row_for e rows n = new_row sha256 dumps repr optional_columns n rows e.now e.decision

    row_for-Linked :
        (e : Event) (rows : List AuditRow) (n : ℕ)
        → Linked (last_from "" rows) (row_for e rows n ∷ [])
    unfolding new_row last_hash verifiable_payload lookup
    row_for-Linked e [] n = (refl, refl, tt)
    row_for-Linked e (r ∷ rows) n = (ap (λ h. or_text h genesis) (last_hash-eq "" r rows), refl, tt)

    abbrev IsKnown : PostgresAuditLogger → Type 0
    IsKnown l = (l ≡ new_logger) ⊎ (l ≡ settled)

    log-some :
        (l : PostgresAuditLogger) (now : String) (r : Record) (rows : List AuditRow) (n : ℕ)
        → IsKnown l
        → log sha256 dumps repr l now r (some (table rows n)) ≡ (
          settled,
          ok (table (rows ++ new_row sha256 dumps repr optional_columns n rows now r ∷ []) (n + 1)),
        )
    unfolding log
    log-some l now r rows n (inl e) = rw e refl
    log-some l now r rows n (inr e) = rw e refl

    -- The state of the fleet after a list of decisions, each of which has its row.
    pub record Recorded (done : List Event) (f : Fleet) : Type 0 where
      pub rows : List AuditRow
      pub known : (j : ℕ) → IsKnown (f.loggers j)
      pub stored : f.db ≡ some (table rows (length done + 1))
      pub linked : Linked "" rows
      pub numbered : Numbered 1 rows
      pub contents : map (λ (row : AuditRow). row.cells) rows ≡ map content done

    row_for-cells :
        (e : Event) (rows : List AuditRow) (n : ℕ) → (row_for e rows n).cells ≡ content e
    unfolding new_row
    row_for-cells e rows n = refl

    row_for-id : (e : Event) (rows : List AuditRow) (n : ℕ) → (row_for e rows n).id ≡ n
    unfolding new_row
    row_for-id e rows n = refl

    length_contents :
        (rows : List AuditRow) (done : List Event)
        → map (λ (row : AuditRow). row.cells) rows ≡ map content done
        → length rows ≡ length done
    length_contents rows done h =
        sym (length-map (λ (row : AuditRow). row.cells) rows)
        ∙ ap length h
        ∙ length-map content done

    length_snoc :
        (e : Event) (done : List Event) → length done + 1 + 1 ≡ length (done ++ e ∷ []) + 1
    length_snoc e done = omega (arith, length-append {0} done (e ∷ []))

    -- One more decision, by any replica.
    write-Recorded :
        (done : List Event) (f : Fleet) (e : Event)
        → Recorded done f
        → Recorded (done ++ e ∷ []) (write sha256 dumps repr f e)
    unfolding write
    write-Recorded done f e g =
        let count = length_contents g.rows done g.contents in
        let step =
          log-some (f.loggers e.replica) e.now e.decision g.rows (length done + 1)
            (g.known e.replica) in
        record {
          rows = g.rows ++ row_for e g.rows (length done + 1) ∷ [];
          known = λ j.
              by_test (λ l. IsKnown l) (eqb j e.replica) _ _ (λ _. rw g.stored (rw step (inr refl)))
                (λ _. g.known j);
          stored = rw g.stored (
              rw step (
                ap (λ m. some (table (g.rows ++ row_for e g.rows (length done + 1) ∷ []) m))
                  (length_snoc e done)));
          linked = Linked-append "" g.rows _ g.linked (row_for-Linked e g.rows (length done + 1));
          numbered =
              Numbered-append 1 g.rows _ g.numbered
                (row_for-id e g.rows (length done + 1) ∙ omega arith);
          contents =
              map-append (λ (row : AuditRow). row.cells) g.rows _
              ∙ rw (g.contents, row_for-cells e g.rows (length done + 1))
                  (sym (map-append content done (e ∷ [])));
        }

    first-Recorded : (e : Event) → Recorded (e ∷ []) (write sha256 dumps repr idle_fleet e)
    unfolding write log
    first-Recorded e = record {
      rows = row_for e [] 1 ∷ [];
      known = λ j. by_test (λ l. IsKnown l) (eqb j e.replica) _ _ (λ _. inr refl) (λ _. inl refl);
      stored = refl;
      linked = row_for-Linked e [] 1;
      numbered = (row_for-id e [] 1, tt);
      contents = refl;
    }

    run-Recorded :
        (done events : List Event) (f : Fleet)
        → Recorded done f
        → Recorded (done ++ events) (run sha256 dumps repr events f)
    unfolding run
    run-Recorded done [] f g = rw (append-nil done) g
    run-Recorded done (e ∷ events) f g = rw (← append_assoc done (e ∷ []) events) (
        run-Recorded (done ++ e ∷ []) events (write sha256 dumps repr f e)
          (write-Recorded done f e g))

    Recorded-verified :
        (rows : List AuditRow) (n after : ℕ)
        → Linked "" rows
        → Numbered 1 rows
        → ((verify_chain sha256 dumps (table rows n) 0).checked ≡ length rows)
          × ((verify_chain sha256 dumps (table rows n) after).intact ≡ true)
    unfolding verify_chain walked_columns
    Recorded-verified rows n after l k =
        let (h, later) = keep-Linked after 1 "" rows k l in
        (
          rw (keep_later 0 1 rows k (omega arith)) (
              ap (λ (v : ChainVerification). v.checked) (walk-Linked false "" 0 0 rows l)
              ∙ omega arith),
          ap (λ (v : ChainVerification). v.intact)
              (walk-Linked false h 0 0 (keep (λ row. ltb after row.id) rows) later),
        )

-- Whatever the replicas of an endpoint log, in whatever order, starting from no table: every
-- decision has its row, with the content that was logged and in the order in which it was logged,
-- and the chain of rows verifies as intact, from the first row, which counts all of them, and from
-- any anchored id.
pub run_verified :
    (sha256 : String → String) (dumps : Dict Json → String) (repr : Json → String) (e : Event)
    (events : List Event) (after : ℕ)
    → (t : AuditTable) × ((run sha256 dumps repr (e ∷ events) idle_fleet).db ≡ some t)
      × (map (λ (row : AuditRow). row.cells) t.rows ≡ map (content sha256 dumps repr) (e ∷ events))
      × ((verify_chain sha256 dumps t 0).intact ≡ true)
      × ((verify_chain sha256 dumps t 0).checked ≡ length (e ∷ events))
      × ((verify_chain sha256 dumps t after).intact ≡ true)
unfolding run
run_verified sha256 dumps repr e events after =
    let g =
      run-Recorded sha256 dumps repr (e ∷ []) events (write sha256 dumps repr idle_fleet e)
        (first-Recorded sha256 dumps repr e) in
    let v = λ (from : ℕ).
      Recorded-verified sha256 dumps repr g.rows (length (e ∷ events) + 1) from g.linked
        g.numbered in
    (
      table sha256 dumps repr g.rows (length (e ∷ events) + 1),
      g.stored,
      g.contents,
      (v 0).1,
      (v 0).0 ∙ length_contents sha256 dumps repr g.rows (e ∷ events) g.contents,
      (v after).1,
    )

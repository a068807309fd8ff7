-- ===== src/Tests/Auditing.antt =====
-- Witnesses on the audit trail: what the replicas write, and what a walk of the chain notices.
use supervisor_agent.Base.{
  inl, inr, count, by_test, eq_iff, if◌then◌else◌, ℕ, String, ◌<>◌, true, some, List, [], ◌∷◌, map,
  ◌≡◌, ◌⊎◌, refl, arith,
}
use supervisor_agent.Base.Text.{is_in}
use supervisor_agent.Base.Dict.{Dict}
use supervisor_agent.Worker.Json.{Json, str, json_text}
use supervisor_agent.Governance.Audit.{
  AuditRow, AuditTable, optional_columns, genesis, verify_chain, walked_columns,
}
use supervisor_agent.Governance.Audit.Fleet.{Event, idle_fleet, run}
use supervisor_agent.Governance.Audit.Chain.{content, run_verified}
use supervisor_agent.Governance.Audit.Tamper.{
  Agree, ToldApart, later_than, same_head-same_history, oldest_deleted,
}

-- A payload as text, and a digest that keeps the text: no two texts share one.
plain_dumps : Dict Json → String
plain_dumps [] = ""
plain_dumps ((name, v) ∷ d) = name <> ("=" <> (json_text (λ j. "…") v <> (";" <> plain_dumps d)))

plain_digest : String → String
plain_digest text = "#" <> text

-- A digest of 64 characters that tells no two texts apart.
blind_digest : String → String
blind_digest text = genesis

decision : ℕ → String → Event
decision replica outcome = record {
  replica = replica;
  now = "2026-01-01T00:00:00+00:00";
  decision = ("request_id", str "r") ∷ ("outcome", str outcome) ∷ [];
}

abbrev two_decisions : List Event
two_decisions = decision 1 "delivered" ∷ decision 0 "denied" ∷ []

run_verified_example :
    (t : AuditTable) × ((run plain_digest plain_dumps
        (λ j. "…")
        (decision 0 "clarify" ∷ two_decisions)
        idle_fleet).db
      ≡ some t)
    × (map (λ (row : AuditRow). row.cells) t.rows
        ≡ map (content plain_digest plain_dumps (λ j. "…")) (decision 0 "clarify" ∷ two_decisions))
    × ((verify_chain plain_digest plain_dumps t 0).intact ≡ true)
    × ((verify_chain plain_digest plain_dumps t 0).checked ≡ 3)
    × ((verify_chain plain_digest plain_dumps t 2).intact ≡ true)
run_verified_example =
    run_verified plain_digest plain_dumps (λ j. "…") (decision 0 "clarify") two_decisions 2

abbrev row_of : ℕ → String → AuditRow
row_of id outcome = record {
  id = id;
  cells = ("outcome", str outcome) ∷ [];
  prev_hash = genesis;
  row_hash = genesis;
}

abbrev recorded : AuditTable
recorded = record {
  columns = optional_columns;
  rows = row_of 1 "denied" ∷ row_of 2 "denied" ∷ [];
  next_id = 3;
}

-- A digest of 64 characters that tells a delivery from everything else.
abbrev ones : String
ones = "1111111111111111111111111111111111111111111111111111111111111111"

short_digest : String → String
short_digest text = if is_in "delivered" text then ones else genesis

fixed : (x : String) → count (short_digest x) ≡ 64
unfolding short_digest plain_dumps
fixed x = by_test (λ t. count t ≡ 64) (is_in "delivered" x) ones genesis (λ _. refl) (λ _. refl)

-- A denial and a delivery after it, chained.
abbrev denial : AuditRow
denial = row_of 1 "denied"

abbrev delivery : AuditRow
delivery = record {
  id = 2;
  cells = ("outcome", str "delivered") ∷ [];
  prev_hash = genesis;
  row_hash = ones;
}

abbrev chained : AuditTable
chained = record recorded { rows = denial ∷ delivery ∷ [] }

told_apart :
    ToldApart short_digest plain_dumps
      (walked_columns chained)
      (denial ∷ delivery ∷ [])
      (denial ∷ delivery ∷ [])
unfolding short_digest plain_dumps supervisor_agent.Governance.Audit.verifiable_payload
    walked_columns supervisor_agent.Base.Dict.lookup
told_apart r s (inl e) (inl f) h = rw (e, f) refl
told_apart r s (inr (inl e)) (inr (inl f)) h = rw (e, f) refl
told_apart r s (inl e) (inr (inl f)) h =
    absurd (let h' = rw (e, f) at h in let t = (eq_iff genesis ones).1 h' in cc)
told_apart r s (inr (inl e)) (inl f) h =
    absurd (let h' = rw (e, f) at h in let t = (eq_iff ones genesis).1 h' in cc)
told_apart r s (inr (inr m)) n h = absurd m
told_apart r s (inl e) (inr (inr n)) h = absurd n
told_apart r s (inr (inl e)) (inr (inr n)) h = absurd n

same_head-same_history_example :
    Agree short_digest plain_dumps
      (walked_columns chained)
      (later_than 0 chained.rows)
      (later_than 0 chained.rows)
unfolding short_digest verify_chain plain_dumps supervisor_agent.Governance.Audit.verifiable_payload
    supervisor_agent.Base.Dict.lookup
same_head-same_history_example =
    same_head-same_history short_digest plain_dumps fixed chained chained.rows 0 refl refl refl refl
      refl told_apart

oldest_deleted_example :
    ((verify_chain blind_digest plain_dumps
        (record recorded { rows = row_of 2 "denied" ∷ [] })
        0).intact
      ≡ true)
    × ((verify_chain blind_digest plain_dumps
          (record recorded { rows = row_of 2 "denied" ∷ [] })
          0).head_id
        ≡ (verify_chain blind_digest plain_dumps recorded 0).head_id)
    × ((verify_chain blind_digest plain_dumps
          (record recorded { rows = row_of 2 "denied" ∷ [] })
          0).head_hash
        ≡ (verify_chain blind_digest plain_dumps recorded 0).head_hash)
unfolding blind_digest verify_chain
oldest_deleted_example =
    oldest_deleted blind_digest plain_dumps recorded (row_of 1 "denied" ∷ []) [] (row_of 2 "denied")
      0 refl refl (omega arith) refl

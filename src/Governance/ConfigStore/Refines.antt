-- ===== src/Governance/ConfigStore/Refines.antt =====
-- governed_config_store.py: the table keeps what the store promises of each document.
use supervisor_agent.Base.{
  ℕ, eqb, String, ◌==◌, Bool, true, false, ◌&&◌, List, [], ◌∷◌, any, if◌then◌else◌, ◌≡◌, refl, sym,
  ap, ◌∙◌, arith, Bool-cases, inl, inr,
}
use supervisor_agent.Base.Dict.{Dict}
use supervisor_agent.Base.Result.{Result, ok, raised, Result-cases}
use supervisor_agent.Worker.Json.{Json}
use supervisor_agent.Governance.ConfigStore as Store
use supervisor_agent.Governance.ConfigStore.{
  Validator, ConfigRow, ConfigTable, versions_of, config_error, active_row, max_version, deactivate,
  set_active, validate, insert_row, checksum_of,
}
use supervisor_agent.Governance.ConfigStore.Ledger as Ledger
use supervisor_agent.Governance.ConfigStore.Ledger.{Ledger, has_version, unpublished}
use supervisor_agent.Governance.ConfigStore.Steps.{
  view, WellFormed, publish_lem, publish-WellFormed, activate-WellFormed, view-published,
  has_version_rows, view-activated, publish_refused, activate_done, activate_refused, left_alone,
}
use supervisor_agent.Governance.ConfigStore.Rows.{has_version_lem}

-- What an operator asks of the store.
pub data Command : Type 0 where
  publish : String → Json → String → String → Command
  activate : String → ℕ → Command

-- A command that raises leaves the table as it was.
abbrev or_unchanged {ℓ} : {A : Type ℓ} → (A → ConfigTable) → ConfigTable → Result A → ConfigTable
or_unchanged of t (ok a) = of a
or_unchanged of t (raised e) = t

abbrev is_ok : Result (Unit {0}) → Bool
is_ok (ok u) = true
is_ok (raised e) = false

module _ (sha256 : String → String) (dumps : Json → String) (validators : Dict Validator) where
  -- One transaction after another.
  abbrev execute : Command → ConfigTable → ConfigTable
  execute (publish name payload actor comment) t =
      or_unchanged (λ done. done.0) t
        (Store.publish sha256 dumps validators name payload actor comment t)
  execute (activate name version) t = or_unchanged (λ done. done) t (Store.activate name version t)

  unfoldable pub run : List Command → ConfigTable → ConfigTable
  run [] t = t
  run (c ∷ commands) t = run commands (execute c t)

  -- The same on the ledger of one document: a payload that its validator refuses, and a command for
  -- another document, change nothing.
  abbrev promise : String → Command → Ledger → Ledger
  promise name (publish other payload actor comment) l =
      if name == other && is_ok (validate validators other payload)
      then Ledger.publish payload l
      else l
  promise name (activate other version) l = if name == other then Ledger.activate version l else l

  abbrev pub run_ledger : String → List Command → Ledger → Ledger
  run_ledger name [] l = l
  run_ledger name (c ∷ commands) l = run_ledger name commands (promise name c l)

  -- One command, on a table that is well formed.
  execute_refines :
      (c : Command) (t : ConfigTable)
      → WellFormed sha256 dumps validators t
      → WellFormed sha256 dumps validators (execute c t)
        × ((name : String) → view name (execute c t) ≡ promise name c (view name t))
  execute_refines (publish name payload actor comment) t w =
      elim (Result-cases (validate validators name payload)) [
        | inl (u, v) ↦
            let done = publish_lem sha256 dumps validators name payload actor comment t w v in
            (
              rw done (publish-WellFormed sha256 dumps validators name payload actor comment t w),
              λ other.
                  rw (done, v)
                    (view-published sha256 dumps validators name other payload actor comment t w
                      ∙ ground arith),
            )
        | inr (e, v) ↦
            let done = publish_refused sha256 dumps validators name payload actor comment t e v in
            (rw done w, λ other. rw (done, v) (ground arith))
      ]
  execute_refines (activate name version) t w =
      let rows = versions_of name t in
      let found : any (λ row. eqb row.version version) rows ≡ has_version version (view name t) =
        has_version_lem (checksum_of sha256 dumps) version rows (w name).0
        ∙ sym (has_version_rows sha256 dumps validators version rows) in
      elim (Bool-cases (has_version version (view name t))) [
        | inl h ↦
            let done = activate_done sha256 dumps validators name version t (found ∙ h) in
            (
              rw done (activate-WellFormed sha256 dumps validators name version t w),
              λ other. rw done (view-activated sha256 dumps validators name other version t w h),
            )
        | inr h ↦
            let (e, done) = activate_refused sha256 dumps validators name version t (found ∙ h) in
            (
              rw done w,
              λ other. rw done (left_alone sha256 dumps validators name other version t h),
            )
      ]

  run_from :
      (commands : List Command) (t : ConfigTable)
      → WellFormed sha256 dumps validators t
      → WellFormed sha256 dumps validators (run commands t)
        × ((name : String) → view name (run commands t) ≡ run_ledger name commands (view name t))
  unfolding run
  run_from [] t w = (w, λ name. refl)
  run_from (c ∷ commands) t w =
      let (w', step) = execute_refines c t w in
      let (w'', rest) = run_from commands (execute c t) w' in
      (w'', λ name. rest name ∙ ap (run_ledger name commands) (step name))

-- The table refines the ledgers. Whatever is published and activated, one command after another on
-- an empty table, the rows of every document stand for the ledger that the same commands make of it:
-- its versions are the payloads that its validator accepted, numbered from 1 in their order, and the
-- one that is active is the newest published or the last that there is and that was activated since.
-- At most one version of a document is ever active, and each row has the checksum of its payload.
pub run_refines :
    (sha256 : String → String) (dumps : Json → String) (validators : Dict Validator)
    (commands : List Command)
    → WellFormed sha256 dumps validators (run sha256 dumps validators commands [])
      × ((name : String)
          → view name (run sha256 dumps validators commands [])
            ≡ run_ledger sha256 dumps validators name commands unpublished)
unfolding active_row
run_refines sha256 dumps validators commands =
    run_from sha256 dumps validators commands [] (λ name. (tt, omega arith))

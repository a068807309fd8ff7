-- ===== src/Governance/ConfigStore/Ledger.antt =====
-- What the store promises of one document, without rows: its versions, and the one that is served.
use supervisor_agent.Base.{
  ℕ, ◌+◌, ◌-◌, leb, eqb, Bool, ◌&&◌, Option, none, List, [], ◌∷◌, length, drop, head?,
  if◌then◌else◌,
}
use supervisor_agent.Worker.Json.{Json}

-- The payloads of the versions, the newest first: the last in the list is version 1. Version 0 is
-- none at all.
pub record Ledger : Type 0 where
  pub payloads : List Json
  pub current : ℕ

abbrev pub unpublished : Ledger
unpublished = record { payloads = []; current = 0 }

abbrev pub has_version : ℕ → Ledger → Bool
has_version version l = leb 1 version && leb version (length l.payloads)

-- A new version is the one that is served.
abbrev pub publish : Json → Ledger → Ledger
publish payload l = record { payloads = payload ∷ l.payloads; current = length l.payloads + 1 }

-- Only a version that there is becomes the one that is served.
abbrev pub activate : ℕ → Ledger → Ledger
activate version l = if has_version version l then record l { current = version } else l

abbrev pub served : Ledger → Option Json
served l = if eqb l.current 0 then none else head? (drop (length l.payloads - l.current) l.payloads)

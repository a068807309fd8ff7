-- ===== src/Nodes/Turn.antt =====
-- nodes/base.py: what every stage reads, records and measures about a turn.
use supervisor_agent.Base.{
  ℕ, suc, ◌+◌, ◌-◌, String, ◌<>◌, ◌==◌, Bool, true, false, not, ◌&&◌, ◌||◌, Option, none, some,
  List, [], ◌∷◌, ◌++◌, map, keep, length, ltb, init, is_empty, is_some, if◌then◌else◌,
}
use supervisor_agent.Base.Text.{truthy, join, prefix, decimal, or_text}
use supervisor_agent.Base.Dict.{Dict}
use supervisor_agent.Governance.DenyRules.{Regex}
use supervisor_agent.Governance.Sanitize.{
  clean_worker_output, neutralise_embedded_directives, neutralise_history_text,
}
use supervisor_agent.Governance.Sensitive.{Matches, redact_text}
use supervisor_agent.Governance.OutputGuard.{OutputGuard, relay}
use supervisor_agent.Worker.Json.{Json, str, obj, Fields, end, field}
use supervisor_agent.Engine.Replies.{small_talk_kind}
use supervisor_agent.State.{
  Role, human, ai, another, Message, Stamp, at, unparseable, Entry, Outcome, blocked, escalated,
  expired, SupervisorState,
}
use supervisor_agent.Services.{Services, World, WorkerMessage}

-- Where a stage sends the turn, with the state after its update.
pub data Stage : Type 0 where
  rbac_gate guardrails route dispatch approval respond finish : Stage

pub record Command : Type 0 where
  pub goto : Stage
  pub state : SupervisorState

abbrev pub is_human : Message → Bool
is_human m = elim m.role [ human ↦ true | _ ↦ false ]

-- How many earlier user turns were of this kind.
count_kind : Regex → String → List Message → ℕ
count_kind re kind [] = 0
count_kind re kind (m ∷ ms) =
    let rest = count_kind re kind ms in
    if is_human m && small_talk_kind re m.content == kind then suc rest else rest

unfoldable pub small_talk_seen : Regex → List Message → String → ℕ
unfolding count_kind
small_talk_seen re messages kind = if truthy kind then count_kind re kind (init messages) else 0

-- The content of the last message of a user.
unfoldable pub last_human : Option String → List Message → Option String
last_human found [] = found
last_human found (m ∷ ms) = last_human (if is_human m then some m.content else found) ms

unfoldable pub latest_user_text : List Message → String
unfolding last_human
latest_user_text messages = elim (last_human none messages) [ none ↦ "" | some text ↦ text ]

last_message : List Message → List Message
last_message [] = []
last_message (m ∷ []) = m ∷ []
last_message (m ∷ ms) = last_message ms

unfoldable pub window : Services → List Message → ℕ → List Message
unfolding last_message
window s messages max_tokens =
    if is_empty messages then messages else elim (s.trim messages max_tokens) [
      | none ↦ messages
      | some trimmed ↦ if is_empty trimmed then last_message messages else trimmed
    ]

abbrev role_text : Role → String
role_text human = "user"
role_text ai = "assistant"
role_text another = "other"

unfoldable pub history_lines : Regex → List Message → List String
history_lines re [] = []
history_lines re (m ∷ ms) =
    (role_text m.role <> (": " <> neutralise_history_text re m.content)) ∷ history_lines re ms

pub record RelayScreen : Type 0 where
  pub messages : List WorkerMessage
  pub masked : List String
  pub directives : ℕ

abbrev is_turn : Message → Bool
is_turn m = elim m.role [ human ↦ true | ai ↦ true | another ↦ false ]

abbrev no_human : List Message → Bool
no_human [] = true
no_human (m ∷ ms) = not (is_human m) && no_human ms

-- One message of the window; only the latest user turn feeds `masked`.
abbrev relay_one : Regex → OutputGuard → Message → Bool → RelayScreen → RelayScreen
relay_one re guard m is_latest rest =
    let clean = neutralise_embedded_directives re m.content in
    let screened = relay guard clean.0 in
    if is_human m
    then record {
      messages = ("user", screened.0) ∷ rest.messages;
      masked = (if is_latest then map (λ f. f.label) screened.1 else []) ++ rest.masked;
      directives = clean.1 + rest.directives;
    }
    else record rest { messages = ("assistant", m.content) ∷ rest.messages }

relay_window : Regex → OutputGuard → List Message → RelayScreen
relay_window re guard [] = record { messages = []; masked = []; directives = 0 }
relay_window re guard (m ∷ ms) = relay_one re guard m (no_human ms) (relay_window re guard ms)

unfoldable pub worker_messages : Regex → OutputGuard → List Message → RelayScreen
unfolding relay_window
worker_messages re guard messages = relay_window re guard (keep is_turn messages)

-- `bool(self.masked or self.directives)`
abbrev pub relay_modified : RelayScreen → Bool
relay_modified r = not (is_empty r.masked) || ltb 0 r.directives

abbrev if_any : Bool → String → List String
if_any true s = s ∷ []
if_any false s = []

unfoldable pub relay_detail : (List String → List String) → RelayScreen → String
relay_detail distinct r =
    or_text
      (join "; " (
        if_any (not (is_empty r.masked)) (
          decimal (length r.masked)
          <> (" sensitive value(s) masked before relay: " <> join ", " (distinct r.masked)))
        ++ if_any (ltb 0 r.directives)
            (decimal r.directives <> " embedded directive marker(s) neutralised")))
      "clean"

abbrev pub source_field_max : ℕ
source_field_max = 200

-- The text entries of one source, screened; an entry of another type is left out.
clean_fields : Regex → OutputGuard → Fields → Dict String
clean_fields re guard end = []
clean_fields re guard (field key (str value) fs) =
    (key, (relay guard (prefix (neutralise_history_text re value) source_field_max)).0)
    ∷ clean_fields re guard fs
clean_fields re guard (field key other fs) = clean_fields re guard fs

unfoldable pub clean_sources : Regex → OutputGuard → List Json → List (Dict String)
unfolding clean_fields
clean_sources re guard [] = []
clean_sources re guard (obj fs ∷ rest) =
    let cleaned = clean_fields re guard fs in
    let others = clean_sources re guard rest in
    if is_empty cleaned then others else cleaned ∷ others
clean_sources re guard (other ∷ rest) = clean_sources re guard rest

abbrev pub entry : World → String → String → String → Entry
entry w stage decision detail = record {
  stage = stage;
  decision = decision;
  detail = detail;
  ts = at w.wall;
}

abbrev pub trail : World → SupervisorState → String → String → String → List Entry
trail w state stage decision detail = state.audit_trail ++ entry w stage decision detail ∷ []

-- Seconds since a checkpointed stamp, in thousandths, or none when it cannot be used.
unfoldable pub seconds_since : World → Option Stamp → Option ℕ
seconds_since w none = none
seconds_since w (some (at began)) = some (w.wall - began)
seconds_since w (some (unparseable text)) = none

unfoldable pub session_age_seconds : World → SupervisorState → Option ℕ
unfolding seconds_since
session_age_seconds w state = seconds_since w state.session_started_at

unfoldable pub session_idle_seconds : World → SupervisorState → Option ℕ
unfolding session_age_seconds
session_idle_seconds w state = elim (seconds_since w state.session_last_active_at) [
  | some idle ↦ some idle
  | none ↦ session_age_seconds w state
]

-- GOVERNANCE_OUTCOMES
abbrev pub is_governance_outcome : Outcome → Bool
is_governance_outcome blocked = true
is_governance_outcome escalated = true
is_governance_outcome expired = true
is_governance_outcome _ = false

unfoldable pub is_governance_decision : SupervisorState → Bool
is_governance_decision state = is_governance_outcome state.outcome || is_some state.signoff

unfoldable pub excerpt : Regex → Matches → String → String
excerpt re matches text = (redact_text matches (clean_worker_output re text 500).text).0

-- An entry that is made only under a test.
unfoldable pub when : Bool → Entry → List Entry
when true e = e ∷ []
when false e = []

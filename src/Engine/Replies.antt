-- ===== src/Engine/Replies.antt =====
-- guardrail_engine.py: the deterministic readings of a message, as small talk, as the answer to an
-- offer, and as the answer to an open approval gate.
use supervisor_agent.Base.{
  ℕ, String, Bool, not, ◌&&◌, ◌||◌, Option, none, some, List, [], ◌∷◌, any, elem, eqb, is_some,
  if◌then◌else◌,
}
use supervisor_agent.Base.Text.{strip, lstrip_by, rstrip_by, prefix, drop_prefix, truthy}
use supervisor_agent.Governance.DenyRules.{Regex}
use supervisor_agent.Engine.Patterns.{
  names_a_deliverable, vetoable, small_talk_kinds, accepts, declines, approves_gate, rejects_gate,
}

module _ (re : Regex) where
  -- The loop over the kinds; the first that matches decides.
  pub kind_among : List (String × String) → String → String
  kind_among [] query = ""
  kind_among ((kind, pattern) ∷ rest) query =
      let later = kind_among rest query in
      if is_some (re.match_i pattern query)
      then (if elem kind vetoable && re.search_i names_a_deliverable query then "" else kind)
      else later

  unfoldable pub small_talk_kind : String → String
  unfolding kind_among
  small_talk_kind query = kind_among small_talk_kinds query

-- "accept", "decline" or "" of `followup_answer`
pub data FollowupAnswer : Type 0 where
  accept decline neither : FollowupAnswer

unfoldable pub followup_answer : Regex → String → FollowupAnswer
followup_answer re text =
    let message = strip text in
    if not (truthy message)
    then neither
    else if is_some (re.match_i accepts message)
    then accept
    else if is_some (re.match_i declines message)
    then decline
    else neither

pub data Decision : Type 0 where
  approved rejected : Decision

abbrev pub decision_text : Decision → String
decision_text approved = "approved"
decision_text rejected = "rejected"

pub record ApprovalReply : Type 0 where
  pub decision : Decision
  pub comment : String

-- `.strip(" \t\r\n-–—:;,.")`
abbrev note_mark : ℕ → Bool
note_mark c = any (eqb c) (32 ∷ 9 ∷ 13 ∷ 10 ∷ b'-' ∷ 8211 ∷ 8212 ∷ b':' ∷ b';' ∷ b',' ∷ b'.' ∷ [])

comment_after : String → ℕ → String
comment_after message stop =
    prefix (rstrip_by note_mark (lstrip_by note_mark (drop_prefix message stop))) 2000

unfoldable pub approval_reply : Regex → String → Option ApprovalReply
unfolding comment_after
approval_reply re text =
    let message = strip text in
    if not (truthy message) || re.search_i names_a_deliverable message
    then none
    else elim (re.match_i rejects_gate message) [
      | some stop ↦ some (record { decision = rejected; comment = comment_after message stop })
      | none ↦ elim (re.match_i approves_gate message) [
        | some stop ↦ some (record { decision = approved; comment = comment_after message stop })
        | none ↦ none
      ]
    ]

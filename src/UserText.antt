-- ===== src/UserText.antt =====
-- src/supervisor/user_facing_text.py: the supervisor's own sentences. A template with one or two
-- places is a function of what goes into them.
use supervisor_agent.Base.{
  ℕ, zero, suc, String, ◌<>◌, Bool, true, false, ◌||◌, none, some, List, [], ◌∷◌, map, init, eqb,
  elem, ◌==◌, if◌then◌else◌,
}
use supervisor_agent.Base.Text.{strip, truthy, join, upper_first, last_code, replace_char}
use supervisor_agent.Base.Dict.{Dict, lookup}
use supervisor_agent.Base.Sort.{sort}
use supervisor_agent.Governance.Rbac.{le_text}

abbrev pub generic_error : String
generic_error =
    "Something went wrong while handling your request. Please try again, and contact support if the problem persists."

abbrev pub escalation_message : String
escalation_message =
    "I wasn't able to pin down the details needed to route your request, so I've recorded this conversation for a human reviewer to look at. You can start again with a fuller description in the meantime."

abbrev pub worker_unavailable_message : String
worker_unavailable_message =
    "The agent is temporarily unavailable. Please try again in a few minutes — your conversation has been kept."

abbrev pub approval_pending_message : String
approval_pending_message =
    "A staged draft is still waiting for a decision. Reply **approve** or **reject** — add a note after the word if you want it recorded — and I'll take it from there. Your message has not been sent to the agent."

abbrev pub governance_unavailable_message : String
governance_unavailable_message =
    "I couldn't complete the safety and routing checks on your request just now, so I've held it rather than passing it on. Nothing was sent to an agent — please try again in a moment."

abbrev pub budget_exhausted_message : String
budget_exhausted_message =
    "Your request took longer than the time I'm allowed to spend on one turn, so I've stopped rather than leaving it running. Nothing was sent to an agent — please try again, and consider narrowing the request."

abbrev pub session_expired_message : String
session_expired_message =
    "This conversation sat inactive longer than the retention window allows, so its saved context and any draft awaiting sign-off have been cleared. Please start again — I've kept nothing from it."

abbrev pub audit_unavailable_message : String
audit_unavailable_message =
    "I reached a decision on your request but couldn't record it, and I don't report a governance decision that isn't recorded. Nothing was sent to an agent — please try again in a moment."

abbrev pub input_too_long_message : String
input_too_long_message =
    "Your message is longer than I can accept in one turn. Please shorten it or split it into smaller requests — nothing was sent to an agent."

abbrev pub output_withheld_message : String
output_withheld_message =
    "The agent produced a response, but it didn't pass the output checks, so I haven't delivered it. The event has been recorded for review."

abbrev pub output_escalated_message : String
output_escalated_message =
    "The agent produced a response that the output checks flagged for human review, so I haven't delivered it. The event has been recorded for a reviewer."

abbrev pub deterministic_escalation_message : String
deterministic_escalation_message =
    "I can't route this request, and because of what it asks for I've recorded it for a human reviewer rather than simply declining."

abbrev pub deferred_request_dropped : String
deferred_request_dropped = "Understood — I've left that one. Ask again whenever you want it."

abbrev pub block_streak_escalation_message : String
block_streak_escalation_message =
    "Several requests in a row have been outside what I can route for you, so I've recorded this conversation for a human reviewer to look at."

abbrev pub clarify_retry_prefix : String
clarify_retry_prefix = "That doesn't tell me yet — "

abbrev pub clarify_final_prefix : String
clarify_final_prefix = "Last check before I bring in a human reviewer — "

abbrev pub deferred_request_offer : String → String
deferred_request_offer what =
    "\n\nYou also asked me to "
    <> (what
        <> ". I haven't started that — shall I go ahead with it now? Reply **yes** and I'll take it as the next request, or **no** to leave it.")

abbrev pub deferred_request_refused : String → String → String
deferred_request_refused what reason =
    "\n\n_You also asked me to " <> (what <> (". I can't take that one on: " <> (reason <> "._")))

abbrev pub carried_context_notice : String → String
carried_context_notice what =
    "\n\n_I carried "
    <> (what
        <> " over from an earlier conversation of yours. Say so if this one is about something else and I'll re-ask._")

abbrev pub sensitive_input_notice : String → String
sensitive_input_notice what =
    "_Note: your message contained "
    <> (what
        <> ", which I masked before sending it to the agent — the agent worked from placeholders. Please don't paste live credentials or personal data into this chat; if a credential was real, rotate it._")

abbrev pub meta_agents_reply : String → String
meta_agents_reply options =
    "I don't share details about which agents exist, how they're configured, or what they can access or hold — those aren't mine to disclose, whatever the answer would be."
    <> (options <> " If you have a software task, tell me what you need and I'll route it.")

abbrev sensitive_label_prose : Dict String
sensitive_label_prose =
    ("person", "a name")
    ∷ ("email", "an email address")
    ∷ ("phone", "a phone number")
    ∷ ("date-of-birth", "a date of birth")
    ∷ ("us-ssn", "a social security number")
    ∷ ("uk-nino", "a National Insurance number")
    ∷ ("passport-number", "a passport number")
    ∷ ("card-number", "a payment card number")
    ∷ ("card-cvv", "a card security code")
    ∷ ("card-expiry", "a card expiry date")
    ∷ ("card-fragment", "part of a payment card number")
    ∷ ("iban", "a bank account number (IBAN)")
    ∷ ("bank-account", "a bank account number")
    ∷ ("nhs-number", "an NHS number")
    ∷ ("medical-record-number", "a medical record number")
    ∷ ("patient-record-id", "a patient record identifier")
    ∷ ("health-condition", "health information")
    ∷ ("medication", "medication details")
    ∷ ("url-credentials", "credentials inside a URL")
    ∷ ("secret-assignment", "a secret value")
    ∷ ("prose-secret", "a secret value")
    ∷ ("private-key", "private key material")
    ∷ ("internal-hostname", "an internal hostname")
    ∷ ("private-ip", "an internal IP address")
    ∷ ("server-path", "a server file path")
    ∷ []

-- `_SMALL_TALK_REPLIES`, each reply with its options put in
abbrev small_talk_replies : String → Dict (List String)
small_talk_replies options =
    (
      "how_are_you",
      "Doing well, thanks for asking — ready when you are. What are you working on?"
          ∷ ("Still running fine" <> (options <> ". What would you like to look at?"))
          ∷ "All good here. Give me a concrete task and I'll route it to the right specialist."
          ∷ [],
    )
    ∷ (
      "greeting",
      "Hello — I'm the Supervisor. Tell me what you need and I'll route it to the right specialist agent."
          ∷ ("Hello again" <> (options <> ". What are you working on?"))
          ∷ "Still here. Ask me something concrete and I'll route it to the right specialist."
          ∷ [],
    )
    ∷ (
      "thanks",
      "You're welcome. Anything else you'd like me to look at?"
          ∷ ("Any time" <> (options <> ". What's next?"))
          ∷ "Happy to help — ask whenever you're ready."
          ∷ [],
    )
    ∷ (
      "farewell",
      "Goodbye — I'll be here whenever you need something routed."
          ∷ "See you. Your conversation history stays here for next time." ∷ "Take care." ∷ [],
    )
    ∷ (
      "ack",
      "Noted. What would you like to work on?"
          ∷ ("Got it" <> (options <> ". What's next?"))
          ∷ "Understood — ready when you are."
          ∷ [],
    )
    ∷ []

-- The texts without those that stand earlier: `dict.fromkeys`.
abbrev pub distinct_from : List String → List String → List String
distinct_from seen [] = []
distinct_from seen (s ∷ ss) = elim (elem s seen) [
  | true ↦ distinct_from seen ss
  | false ↦ s ∷ distinct_from (s ∷ seen) ss
]

last_of : List String → String
last_of [] = ""
last_of (s ∷ []) = s
last_of (s ∷ ss) = last_of ss

-- "a, b and c", and the same with another word; one text stands alone.
listed : String → List String → String
listed word [] = word
listed word (s ∷ []) = s
listed word ss = join ", " (init ss) <> (word <> last_of ss)

label_prose : String → String
label_prose label = elim (lookup label sensitive_label_prose) [
  | some phrase ↦ phrase
  | none ↦ replace_char b'-' " " label
]

unfoldable pub sensitive_prose : List String → String
unfolding label_prose listed last_of
sensitive_prose labels = listed " and " (distinct_from [] (map label_prose labels))

context_part : String × String → String
context_part (key, value) = replace_char b'_' " " key <> (" (" <> (value <> ")"))

unfoldable pub context_prose : Dict String → String
unfolding context_part listed last_of
context_prose carried = listed " and " (map context_part (sort (λ a b. le_text a.0 b.0) carried))

ends_sentence : String → Bool
ends_sentence text = elim (last_code text) [
  | none ↦ false
  | some c ↦ eqb c b'.' || eqb c b'!' || eqb c b'?'
]

unfoldable pub sentence : String → String
unfolding ends_sentence
sentence text =
    let upper = upper_first (strip text) in
    if truthy (strip text) then (if ends_sentence upper then upper else upper <> ".") else ""

unfoldable pub join_names : List String → String
unfolding last_of
join_names [] = ""
join_names (name ∷ []) = "the " <> name
join_names names = "the " <> (join ", the " (init names) <> (" or the " <> last_of names))

-- `variants[min(seen, len(variants) - 1)]`
variant : List String → ℕ → String
variant [] seen = ""
variant (v ∷ []) seen = v
variant (v ∷ vs) zero = v
variant (v ∷ vs) (suc seen) = variant vs seen

unfoldable pub small_talk_reply : String → List String → ℕ → String
unfolding variant
small_talk_reply kind reachable seen =
    let listed = join_names reachable in
    let options = if truthy listed then " — for your role I can reach " <> listed else "" in
    if kind == "meta_agents"
    then meta_agents_reply
        (if truthy listed then " For your role I can reach " <> (listed <> ".") else "")
    else if kind == "meta"
    then (if eqb seen 0
        then "I'm the Supervisor: I check your access, screen your request, then route it to the right specialist and relay the answer back."
        else "As before: I check your access, screen the request, and route it.")
      <> ((if truthy listed then " For your role that's " <> (listed <> ".") else "")
          <> " What do you need?")
    else elim (lookup kind (small_talk_replies options)) [
      | some variants ↦ variant variants seen
      | none ↦ elim (lookup "greeting" (small_talk_replies options)) [
        | some variants ↦ variant variants seen
        | none ↦ ""
      ]
    ]

-- ===== src/Nodes/Approval.antt =====
-- nodes/approval.py: the pause for a human decision, and what the decision does.
pub mod Authority
pub mod Exits
use supervisor_agent.Base.{
  ℕ, zero, suc, String, ◌<>◌, Bool, false, not, ◌&&◌, Option, none, some, List, [], ◌∷◌, elem,
  if◌then◌else◌,
}
use supervisor_agent.Base.Text.{strip, lower, truthy, or_text, prefix, fixed0}
use supervisor_agent.Base.Result.{Exc, Result, ok, raised, other_error}
use supervisor_agent.Governance.Rbac.{check}
use supervisor_agent.Worker.Json.{Json, Items, null, str, arr, nil, cons, truthy_json, json_text}
use supervisor_agent.Engine.Replies.{Decision, approved, rejected, decision_text, ApprovalReply}
use supervisor_agent.State.{
  at, answer, blocked, Signoff, Pending, SupervisorState, SupervisorContext,
}
use supervisor_agent.Services.{Services, World}
use supervisor_agent.Nodes.Turn.{Command, respond, trail, seconds_since}

-- The payload of a resume: a boolean, a mapping with the text of its `decision` and its `comment`
-- ("" where it has none), or something else.
pub data Resume : Type 0 where
  flag : Bool → Resume
  mapping : String → Json → Resume
  malformed : Resume

-- The node suspends with its state unchanged, raises with its state unchanged, or settles the gate.
pub data Settled : Type 0 where
  suspended : Settled
  crashed : Exc → Settled
  settled : Command → Settled

unfoldable pub may_approve : Services → SupervisorContext → String → Bool
may_approve s context agent_id = truthy agent_id && (elim context.approvable_agents [
  | some approvable ↦ elem agent_id approvable
  | none ↦ elim context.permitted_agents [
    | some permitted ↦ elem agent_id permitted
    | none ↦ (check s.rbac (strip context.user_role) agent_id).allowed
  ]
])

-- `decision`: what the gate read in the conversation, else the resume payload.
abbrev pub of_reply : ApprovalReply → Resume
of_reply r = mapping (decision_text r.decision) (str r.comment)

abbrev pub decision_of : Option ApprovalReply → Option Resume → Option Resume
decision_of (some reply) resume = some (of_reply reply)
decision_of none resume = resume

abbrev approving_words : List String
approving_words = "approved" ∷ "approve" ∷ "accept" ∷ "accepted" ∷ []

unfoldable pub approves : Resume → Bool
approves (flag yes_or_no) = yes_or_no
approves (mapping decision comment) = elem (lower (strip decision)) approving_words
approves malformed = false

abbrev pub comment_of : Resume → Json
comment_of (flag b) = str ""
comment_of (mapping decision comment) = comment
comment_of malformed = str ""

pub take_items : ℕ → Items → Items
take_items zero xs = nil
take_items (suc n) nil = nil
take_items (suc n) (cons x xs) = cons x (take_items n xs)

-- `comment[:2000]`: a text or a list is cut, anything else raises.
unfoldable pub sliced : Json → Result Json
unfolding take_items
sliced (str s) = ok (str (prefix s 2000))
sliced (arr xs) = ok (arr (take_items 2000 xs))
sliced _ = raised (other_error "TypeError" "comment[:2000]")

-- The slice where there is one: without it the node has raised.
abbrev cut : Result Json → Json
cut (ok comment) = comment
cut (raised e) = null

comment_text : Resume → String
comment_text r = json_text (λ j. "…") (comment_of r)

abbrev no_pending : Pending
no_pending = record {
  agent_id = "";
  agent_name = "";
  stage = null;
  artifact = "";
  context = [];
  staged_at = none;
  required_because = "";
  risk_level = "";
}

abbrev pub pending_of : SupervisorState → Pending
pending_of state = elim state.pending_approval [ none ↦ no_pending | some p ↦ p ]

-- `pending.get("stage") or "staged"`
abbrev stage_of : Pending → Json
stage_of p = if truthy_json p.stage then p.stage else str "staged"

stage_text : Pending → String
stage_text p = json_text (λ j. "…") (stage_of p)

abbrev pub approver_of : SupervisorContext → String
approver_of context = or_text context.user_key "unattributed"

-- `signoff`, with the decision that was taken
unfoldable pub signoff_of : SupervisorContext → World → Pending → Resume → Decision → Signoff
signoff_of context w p r decision = record {
  stage = stage_of p;
  agent_id = p.agent_id;
  approver = approver_of context;
  approver_role = context.user_role;
  decided_at = at w.wall;
  staged_at = p.staged_at;
  waited_seconds = seconds_since w p.staged_at;
  comment = cut (sliced (comment_of r));
  decision = decision;
}

unattributed : Services → World → SupervisorState → Pending → Command
unfolding stage_text
unattributed s w state p = record {
  goto = respond;
  state = record state {
    approval_reply = none;
    outcome = blocked;
    final_text =
        "I can't record who is approving this, so the "
        <> (stage_text p
            <> " draft has been left unapproved. Please approve it from the application, where your identity travels with the decision.");
    audit_trail = trail w state "approval" "deny" (
        "approval of '"
        <> (p.agent_id
            <> ("' stage "
                <> (stage_text p
                    <> " refused: no attributable approver identity was supplied at "
                    <> s.time_text w.wall))));
  };
}

not_allowed : Services → World → SupervisorState → Pending → String → Command
unfolding stage_text
not_allowed s w state p approver = record {
  goto = respond;
  state = record state {
    pending_approval = none;
    approval_reply = none;
    outcome = blocked;
    final_text =
        "You don't have permission to approve the "
        <> (or_text p.agent_name p.agent_id
            <> ("'s work. The "
                <> (stage_text p
                    <> " draft has been left unapproved — ask someone with sign-off rights for this agent to review it.")));
    audit_trail = trail w state "approval" "deny" (
        "caller lacks approve rights for '"
        <> (p.agent_id
            <> ("' (stage "
                <> (stage_text p
                    <> ("); attempted by " <> (approver <> (" at " <> s.time_text w.wall)))))));
  };
}

waited_note : Option ℕ → String
waited_note none = ""
waited_note (some waited) = " after " <> (fixed0 waited <> "s at the gate")

decided_detail : Services → SupervisorContext → World → Pending → Resume → String → String
unfolding stage_text waited_note comment_text
decided_detail s context w p r verb =
    "stage "
    <> (stage_text p
        <> (" of '"
            <> (p.agent_id
                <> ("' "
                    <> (verb
                        <> (" by "
                            <> (approver_of context
                                <> (" (role "
                                    <> (or_text context.user_role "unknown"
                                        <> (") at "
                                            <> (s.time_text w.wall
                                                <> (waited_note (seconds_since w p.staged_at)
                                                    <> (if truthy_json (comment_of r)
                                                        then "; note: " <> comment_text r
                                                        else "")))))))))))))

reject_artifact :
    Services → SupervisorContext → World → SupervisorState → Pending → Resume → Command
unfolding stage_text decided_detail comment_text
reject_artifact s context w state p r = record {
  goto = respond;
  state = record state {
    pending_approval = none;
    approval_reply = none;
    last_signoff = some (signoff_of context w p r rejected);
    outcome = answer;
    signoff = some (signoff_of context w p r rejected);
    final_text =
        "Understood — I've discarded the "
        <> (stage_text p
            <> (" draft. "
                <> (if truthy_json (comment_of r)
                    then "Note: " <> comment_text r
                    else "Tell me what to change.")));
    audit_trail = trail w state "approval" "rejected" (decided_detail s context w p r "rejected");
  };
}

approve_artifact :
    Services → SupervisorContext → World → SupervisorState → Pending → Resume → Command
unfolding decided_detail
approve_artifact s context w state p r = record {
  goto = respond;
  state = record state {
    pending_approval = none;
    approval_reply = none;
    last_signoff = some (signoff_of context w p r approved);
    worker_response = some (record { status = "approved"; stage = p.stage });
    outcome = answer;
    signoff = some (signoff_of context w p r approved);
    final_text = p.artifact;
    audit_trail = trail w state "approval" "approved" (decided_detail s context w p r "approved");
  };
}

-- `approver == "unattributed"`
abbrev pub is_unattributed : SupervisorContext → Bool
is_unattributed context = elem (approver_of context) ("unattributed" ∷ [])

unfoldable pub settle : Services → SupervisorContext → World → SupervisorState → Resume → Command
unfolding unattributed not_allowed reject_artifact approve_artifact
settle s context w state r =
    let p = pending_of state in
    if approves r && is_unattributed context
    then unattributed s w state p
    else if approves r && not (may_approve s context p.agent_id)
    then not_allowed s w state p (approver_of context)
    else if not (approves r)
    then reject_artifact s context w state p r
    else approve_artifact s context w state p r

-- `interrupt()` suspends where there is no decision yet; a resumed run has one. A reply or payload
-- that is falsy, such as the empty mapping, is no reply here. The sign-off is built before anything
-- is decided, so a comment that cannot be cut raises whatever was decided.
unfoldable pub approval :
    Services → SupervisorContext → World → SupervisorState → Option Resume → Settled
approval s context w state resume = elim (decision_of state.approval_reply resume) [
  | none ↦ suspended
  | some r ↦ elim (sliced (comment_of r)) [
    | raised e ↦ crashed e
    | ok comment ↦ settled (settle s context w state r)
  ]
]

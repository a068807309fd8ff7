-- ===== src/Tests/Staging.antt =====
-- Witnesses on the stages from the worker call to the answer, and on the long-term store.
use supervisor_agent.Base.{
  suc, ◌<◌, ℕ, ◌≤◌, String, ◌==◌, true, false, ◌≡◌, ◌⊎◌, ◌↔◌, ◌++◌, refl, none, some, List, [], ◌∷◌,
  In, inl, inr,
}
use supervisor_agent.Base.Text.{truthy}
use supervisor_agent.Base.Dict.{Dict, lookup}
use supervisor_agent.Base.Result.{Exc, other_error}
use supervisor_agent.Governance.OutputGuard as Guard
use supervisor_agent.Worker.Json.{str}
use supervisor_agent.Worker.Response.{WorkerResponse}
use supervisor_agent.Engine.Replies.{approved}
use supervisor_agent.State.{
  SupervisorContext, at, ai, blocked, escalated, error, SupervisorState, Pending, Signoff,
}
use supervisor_agent.UserText.{
  output_escalated_message, output_withheld_message, audit_unavailable_message,
}
use supervisor_agent.Memory.{Store, read, get_context, save_context}
use supervisor_agent.Memory.Boundary.{Readable, Kept, get_context-Readable, save_context_isolated}
use supervisor_agent.Nodes.Turn.{Command, respond, approval, is_governance_decision}
use supervisor_agent.Nodes.Dispatch.{after_worker, dispatch_failed, mandated_for}
use supervisor_agent.Nodes.Dispatch.Release.{
  SameReport, guarded_of, needs_signoff, after_worker_withheld, after_worker_signoff,
}
use supervisor_agent.Nodes.Approval as Gate
use supervisor_agent.Nodes.Approval.{
  Resume, approves, may_approve, is_unattributed, pending_of, signoff_of, settle,
}
use supervisor_agent.Nodes.Approval.Authority.{
  Authorised, Discarded, KeptStaged, ClosedOff, settle_approved, settle_refused,
}
use supervisor_agent.Nodes.Respond as Answer
use supervisor_agent.Nodes.Respond.{audit_record}
use supervisor_agent.Nodes.Respond.Audit.{respond_audited}
use supervisor_agent.Tests.Fixtures.{
  services, context, world, asking, answer_text, staged, design_agent,
}

abbrev leaking : WorkerResponse
leaking = record answer_text { text = "The reference is zq7-canary." }

leaks : Guard.blocked (guarded_of services leaking) ≡ true
unfolding Guard.screen Guard.leak_in supervisor_agent.Nodes.Dispatch.cleaned_of
    supervisor_agent.Governance.Sanitize.clean_worker_output supervisor_agent.Base.Text.strip
    Guard.condense supervisor_agent.Base.Text.lower
leaks = refl

after_worker_withheld_example :
    ((after_worker services world asking design_agent leaking).goto ≡ respond)
    × ((after_worker services world asking design_agent leaking).state.pending_approval ≡ none)
    × ((((after_worker services world asking design_agent leaking).state.outcome ≡ escalated)
          × ((after_worker services world asking design_agent leaking).state.final_text
              ≡ output_escalated_message))
        ⊎ (((after_worker services world asking design_agent leaking).state.outcome ≡ blocked)
            × ((after_worker services world asking design_agent leaking).state.final_text
                ≡ output_withheld_message)))
    × ((other : WorkerResponse)
        → other.status ≡ leaking.status
        → other.stage ≡ leaking.stage
        → SameReport services leaking other
        → after_worker services world asking design_agent other
          ≡ after_worker services world asking design_agent leaking)
after_worker_withheld_example =
    after_worker_withheld services world asking design_agent leaking leaks

clean : Guard.blocked (guarded_of services answer_text) ≡ false
unfolding Guard.screen Guard.leak_in supervisor_agent.Nodes.Dispatch.cleaned_of
    supervisor_agent.Governance.Sanitize.clean_worker_output supervisor_agent.Base.Text.strip
    Guard.condense supervisor_agent.Base.Text.lower
    supervisor_agent.Governance.DenyRules.first_match supervisor_agent.Governance.Sensitive.redact
    supervisor_agent.Governance.Sensitive.scan supervisor_agent.Governance.Sensitive.merge
    supervisor_agent.Base.Sort.sort
clean = refl

after_worker_signoff_example :
    (needs_signoff services asking design_agent answer_text ≡ true
      → ((after_worker services world asking design_agent answer_text).goto ≡ approval)
        × ((after_worker services world asking design_agent answer_text).state.final_text
            ≡ asking.final_text)
        × (p : Pending) × ((after_worker services world asking design_agent
              answer_text).state.pending_approval
            ≡ some p)
        × (p.artifact ≡ (guarded_of services answer_text).text)
        × (p.agent_id ≡ design_agent.id)
        × (p.required_because ≡ mandated_for services asking design_agent))
    × (needs_signoff services asking design_agent answer_text ≡ false
        → ((after_worker services world asking design_agent answer_text).goto ≡ respond)
          × ((after_worker services world asking design_agent answer_text).state.pending_approval
              ≡ none))
after_worker_signoff_example =
    after_worker_signoff services world asking design_agent answer_text clean

abbrev reset_by_peer : Exc
reset_by_peer = other_error "ConnectionError" "connection reset"

abbrev waiting : SupervisorState
waiting = record asking { pending_approval = some staged }

abbrev yes : Resume
yes = Gate.flag true

abbrev signed : Signoff
signed = record {
  stage = str "staged";
  agent_id = "design";
  approver = "user-1";
  approver_role = "analyst";
  decided_at = at 9000000;
  staged_at = some (at 8990000);
  waited_seconds = some 10000;
  comment = str "";
  decision = approved;
}

signs : (settle services context world waiting yes).state.signoff ≡ some signed
unfolding settle approves may_approve supervisor_agent.Governance.Rbac.check
    supervisor_agent.Base.Text.strip lookup signoff_of supervisor_agent.Nodes.Turn.seconds_since
    supervisor_agent.Base.Text.prefix supervisor_agent.Nodes.Approval.sliced
signs = refl

settle_approved_example :
    Authorised services context world waiting yes
    × (sg : Signoff) × ((settle services context world waiting yes).state.signoff ≡ some sg)
    × (sg.decision ≡ approved)
    × (sg.agent_id ≡ (pending_of waiting).agent_id)
    × ((settle services context world waiting yes).state.final_text ≡ (pending_of waiting).artifact)
settle_approved_example =
    settle_approved services context world waiting yes (inl (signed, refl, signs, refl))

abbrev visitor : SupervisorContext
visitor = record context { user_role = "guest" }

settle_refused_example :
    Discarded services visitor world waiting yes
    ⊎ (KeptStaged services visitor world waiting yes ⊎ ClosedOff services visitor world waiting yes)
unfolding approves may_approve supervisor_agent.Base.Text.strip supervisor_agent.Base.Text.lower
    supervisor_agent.Base.Text.is_space supervisor_agent.Base.Text.lstrip_by
    supervisor_agent.Base.Text.rstrip_by supervisor_agent.Base.Dict.lookup
    supervisor_agent.Governance.Rbac.check
settle_refused_example = settle_refused services visitor world waiting yes refl

abbrev refused : SupervisorState
refused = record asking { outcome = blocked }

is_governance : is_governance_decision refused ≡ true
unfolding is_governance_decision
is_governance = refl

respond_audited_example :
    ((Answer.respond services context world refused).1.audit_log
      ≡ world.audit_log ++ audit_record services context world refused ∷ [])
    ⊎ (((Answer.respond services context world refused).0.state.outcome ≡ error)
        × ((Answer.respond services context world refused).0.state.final_text
            ≡ audit_unavailable_message)
        × ((Answer.respond services context world refused).0.state.messages
            ≡ refused.messages ++ record { role = ai; content = audit_unavailable_message } ∷ []))
respond_audited_example = respond_audited services context world refused is_governance

abbrev kept : Store
kept =
    (
      "user-1",
      record { entries = ("project", str " Apollo ") ∷ []; stamps = ("project", 100) ∷ [] },
    )
    ∷ []

there : In ("project", "Apollo") (get_context ("project" ∷ []) 1000 kept "user-1" none 200)
unfolding get_context lookup supervisor_agent.Base.Text.strip supervisor_agent.Base.Text.split
there = inl refl

get_context-Readable_example :
    (truthy "user-1" ≡ true)
    × Readable
        ("project" ∷ [])
        1000
        none
        (read kept "user-1").entries
        (read kept "user-1").stamps
        200
        "project"
        "Apollo"
get_context-Readable_example =
    get_context-Readable ("project" ∷ []) 1000 kept "user-1" none 200 "project" "Apollo" there

abbrev said : Dict String
said = ("project", "Apollo") ∷ ("mood", "good") ∷ []

save_context_isolated_example :
    ((key value : String)
      → In (key, value) (save_context ("project" ∷ []) 1000 kept "user-2" said 300).0.stored
      → Kept ("project" ∷ []) said key value)
    × ((other : String)
        → (other == "user-2") ≡ false
        → lookup other (save_context ("project" ∷ []) 1000 kept "user-2" said 300).1
          ≡ lookup other kept)
    × (truthy "user-2" ≡ false
        → (save_context ("project" ∷ []) 1000 kept "user-2" said 300).1 ≡ kept)
    × ((save_context ("project" ∷ []) 1000 kept "user-2" said 300).0.stored ≡ []
        → (save_context ("project" ∷ []) 1000 kept "user-2" said 300).1 ≡ kept)
save_context_isolated_example = save_context_isolated ("project" ∷ []) 1000 kept "user-2" said 300

-- ===== src/Nodes/Dispatch/Release.antt =====
-- nodes/dispatch.py: what leaves a worker's reply, and under whose sign-off.
use supervisor_agent.Base.{
  String, ◌<>◌, List, ap, sym, ◌∙◌, eqb, if-true, if-false, arith, Bool, true, false, not, ◌≡◌,
  refl, ◌⊎◌, inl, inr, none, some, ◌||◌, by_test, Bool-cases,
}
use supervisor_agent.Base.Text.{truthy}
use supervisor_agent.Governance.Sanitize as Sanitize
use supervisor_agent.Governance.Sanitize.{CleanOutput}
use supervisor_agent.Governance.OutputGuard as Guard
use supervisor_agent.Governance.OutputGuard.{screen, severity, is_withheld}
use supervisor_agent.Worker.Registry.{WorkerAgent}
use supervisor_agent.Worker.Response.{WorkerResponse}
use supervisor_agent.State.{Entry, Outcome, SupervisorState, Pending, blocked, escalated}
use supervisor_agent.UserText.{output_escalated_message, output_withheld_message}
use supervisor_agent.Services.{Services, World}
use supervisor_agent.Nodes.Turn.{Command, respond, approval}
use supervisor_agent.Nodes.Failsafes as Failsafes
use supervisor_agent.Base.Result.{
  Exc, budget_exhausted, worker_unavailable, http_error, other_error,
}
use supervisor_agent.Nodes.Dispatch.{
  output_trail, dispatch_failed, failed, cleaned_of, wants_approval, mandated_for, withhold,
  stage_artifact, empty_response, deliver, release, after_worker,
}

-- The reply as the output guard has it.
abbrev pub guarded_of : Services → WorkerResponse → Guard.OutputScreenResult
guarded_of s resp = screen s.output_guard (cleaned_of s resp).text

-- Whether the work waits for a human: the worker asks for it, or the rules of the agent do, by
-- what the user asked.
abbrev pub needs_signoff : Services → SupervisorState → WorkerAgent → WorkerResponse → Bool
needs_signoff s state agent resp = wants_approval resp.status || truthy (mandated_for s state agent)

-- What is reported of how a text was cleaned.
abbrev pub SameCleaning : CleanOutput → CleanOutput → Type 0
SameCleaning c d =
    (Sanitize.modified d ≡ Sanitize.modified c)
    × (Sanitize.audit_detail d ≡ Sanitize.audit_detail c)
    × (d.code_blocks ≡ c.code_blocks)

-- What is reported of a reply: the guard's verdict on it with its reason and the counts and labels of
-- what was found, and what the cleaning of its text changed. The text itself is no part of it.
abbrev pub SameReport : Services → WorkerResponse → WorkerResponse → Type 0
SameReport s resp other =
    ((guarded_of s other).action ≡ (guarded_of s resp).action)
    × (Guard.audit_detail (guarded_of s other) ≡ Guard.audit_detail (guarded_of s resp))
    × SameCleaning (cleaned_of s resp) (cleaned_of s other)

after_worker_escalated :
    (s : Services) (w : World) (state : SupervisorState) (agent : WorkerAgent)
    (resp : WorkerResponse)
    → Guard.escalates (guarded_of s resp) ≡ true
    → after_worker s w state agent resp
      ≡ withhold w state resp escalated output_escalated_message "escalated"
          (Guard.audit_detail (guarded_of s resp) <> " — recorded for a human reviewer")
          (output_trail s w state (cleaned_of s resp))
unfolding after_worker
after_worker_escalated s w state agent resp up =
    if-true (Guard.escalates (guarded_of s resp)) _ _ up

after_worker-blocked :
    (s : Services) (w : World) (state : SupervisorState) (agent : WorkerAgent)
    (resp : WorkerResponse)
    → Guard.escalates (guarded_of s resp) ≡ false
    → Guard.blocked (guarded_of s resp) ≡ true
    → after_worker s w state agent resp
      ≡ withhold w state resp blocked output_withheld_message "withheld"
          (Guard.audit_detail (guarded_of s resp))
          (output_trail s w state (cleaned_of s resp))
unfolding after_worker
after_worker-blocked s w state agent resp down h =
    if-false (Guard.escalates (guarded_of s resp)) _ _ down
    ∙ if-true (Guard.blocked (guarded_of s resp)) _ _ h

withhold_same :
    (w : World) (state : SupervisorState) (resp other : WorkerResponse) (outcome : Outcome)
    (text decision : String) {detail detail' : String} {more more' : List Entry}
    → other.status ≡ resp.status
    → other.stage ≡ resp.stage
    → detail' ≡ detail
    → more' ≡ more
    → withhold w state other outcome text decision detail' more'
      ≡ withhold w state resp outcome text decision detail more
unfolding withhold
withhold_same w state resp other outcome text decision st sg d m = rw (withhold, st, sg, d, m) refl

output_trail_same :
    (s : Services) (w : World) (state : SupervisorState) (c d : CleanOutput)
    → SameCleaning c d
    → output_trail s w state d ≡ output_trail s w state c
unfolding output_trail
output_trail_same s w state c d (changed, detail, blocks) = rw (changed, detail, blocks) refl

-- A reply that the output guard withholds is never released, staged or quoted. The turn ends with a
-- fixed message, escalated or blocked, and no artifact is left to be approved. And the whole command,
-- the audit trail included, is the same for any other reply with the same status and stage of which
-- the same is reported: the text, the sources and the rest of the reply get nowhere.
pub after_worker_withheld :
    (s : Services) (w : World) (state : SupervisorState) (agent : WorkerAgent)
    (resp : WorkerResponse)
    → Guard.blocked (guarded_of s resp) ≡ true
    → ((after_worker s w state agent resp).goto ≡ respond)
      × ((after_worker s w state agent resp).state.pending_approval ≡ none)
      × ((((after_worker s w state agent resp).state.outcome ≡ escalated)
            × ((after_worker s w state agent resp).state.final_text ≡ output_escalated_message))
          ⊎ (((after_worker s w state agent resp).state.outcome ≡ blocked)
              × ((after_worker s w state agent resp).state.final_text ≡ output_withheld_message)))
      × ((other : WorkerResponse)
          → other.status ≡ resp.status
          → other.stage ≡ resp.stage
          → SameReport s resp other
          → after_worker s w state agent other ≡ after_worker s w state agent resp)
unfolding withhold
after_worker_withheld s w state agent resp h =
    elim (Bool-cases (Guard.escalates (guarded_of s resp))) [
      | inl up ↦
          let e = after_worker_escalated s w state agent resp up in
          (
            rw e refl,
            rw e refl,
            inl (rw e refl, rw e refl),
            λ other st sg (act, detail, cleaned).
                after_worker_escalated s w state agent other (ap (λ a. eqb (severity a) 3) act ∙ up)
                ∙ (withhold_same w state resp other escalated output_escalated_message "escalated"
                      st sg (ap (λ (d : String). d <> " — recorded for a human reviewer") detail)
                      (output_trail_same s w state (cleaned_of s resp) (cleaned_of s other) cleaned)
                    ∙ sym e),
          )
      | inr down ↦
          let e = after_worker-blocked s w state agent resp down h in
          (
            rw e refl,
            rw e refl,
            inr (rw e refl, rw e refl),
            λ other st sg (act, detail, cleaned).
                after_worker-blocked s w state agent other (ap (λ a. eqb (severity a) 3) act ∙ down)
                  (ap (λ a. is_withheld a) act ∙ h)
                ∙ (withhold_same w state resp other blocked output_withheld_message "withheld" st sg
                      detail
                      (output_trail_same s w state (cleaned_of s resp) (cleaned_of s other) cleaned)
                    ∙ sym e),
          )
    ]

not_escalated : (r : Guard.OutputScreenResult) → Guard.blocked r ≡ false → Guard.escalates r ≡ false
not_escalated r h = ground arith

-- A reply that the guard lets through goes to the user at once only if nothing asks for a
-- sign-off; else the turn goes to the approval gate with the guarded text staged under the agent
-- that produced it, and with no answer of its own yet. So work that the agent's approval rules
-- cover waits for a human even where the worker did not ask for one.
pub after_worker_signoff :
    (s : Services) (w : World) (state : SupervisorState) (agent : WorkerAgent)
    (resp : WorkerResponse)
    → Guard.blocked (guarded_of s resp) ≡ false
    → (needs_signoff s state agent resp ≡ true
        → ((after_worker s w state agent resp).goto ≡ approval)
          × ((after_worker s w state agent resp).state.final_text ≡ state.final_text)
          × (p : Pending) × ((after_worker s w state agent resp).state.pending_approval ≡ some p)
          × (p.artifact ≡ (guarded_of s resp).text)
          × (p.agent_id ≡ agent.id)
          × (p.required_because ≡ mandated_for s state agent))
      × (needs_signoff s state agent resp ≡ false
          → ((after_worker s w state agent resp).goto ≡ respond)
            × ((after_worker s w state agent resp).state.pending_approval ≡ none))
unfolding after_worker release stage_artifact empty_response deliver
after_worker_signoff s w state agent resp h =
    let calm = not_escalated (guarded_of s resp) h in
    (
      λ needed. rw (after_worker, calm, h, release, needed) (refl, refl, _, refl, refl, refl, refl),
      λ free.
          rw (after_worker, calm, h, release, free)
            (by_test (λ (c : Command). (c.goto ≡ respond) × (c.state.pending_approval ≡ none))
              (not (truthy (guarded_of s resp).text)) _ _ (λ _. (refl, refl)) (λ _. (refl, refl))),
    )

pub failed_keeps :
    (w : World) (state : SupervisorState) (e : Exc)
    → ((dispatch_failed w state e).state.last_signoff ≡ state.last_signoff)
      × ((dispatch_failed w state e).state.pending_approval ≡ state.pending_approval)
      × ((dispatch_failed w state e).goto ≡ respond)
unfolding dispatch_failed failed Failsafes.budget_exhausted
failed_keeps w state (budget_exhausted what spent budget) = (refl, refl, refl)
failed_keeps w state (worker_unavailable text) = (refl, refl, refl)
failed_keeps w state (http_error name status text) = (refl, refl, refl)
failed_keeps w state (other_error name text) = (refl, refl, refl)

-- A sign-off is relayed to one reply: once the worker has replied it is cleared, on every branch,
-- and while the call fails it is kept for the next attempt, with the artifact that is staged.
last_signoff_consumed :
    (s : Services) (w : World) (state : SupervisorState) (agent : WorkerAgent)
    (resp : WorkerResponse) (e : Exc)
    → ((after_worker s w state agent resp).state.last_signoff ≡ none)
      × ((dispatch_failed w state e).state.last_signoff ≡ state.last_signoff)
      × ((dispatch_failed w state e).state.pending_approval ≡ state.pending_approval)
      × ((dispatch_failed w state e).goto ≡ respond)
unfolding after_worker withhold release stage_artifact empty_response deliver
last_signoff_consumed s w state agent resp e =
    let replied : (after_worker s w state agent resp).state.last_signoff ≡ none = ground arith in
    let (k, p, g) = failed_keeps w state e in (replied, k, p, g)

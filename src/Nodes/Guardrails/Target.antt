-- ===== src/Nodes/Guardrails/Target.antt =====
-- nodes/guardrails.py: which requests go on, and to which agent.
use supervisor_agent.Base.{
  ◌==◌, sym, ap, ◌∙◌, arith, ℕ, String, true, false, not, ◌≡◌, refl, ◌⊎◌, inl, inr, Option, none,
  some, List, [], ◌∷◌, In, In-of_keep, Bool-cases, Option-cases,
}
use supervisor_agent.Base.Text.{truthy}
use supervisor_agent.Base.Result.{
  Exc, budget_exhausted, worker_unavailable, http_error, other_error, ok, raised, Timed,
  Result-cases,
}
use supervisor_agent.Governance.Deadline.{ensure}
use supervisor_agent.Worker.Registry.{WorkerAgent, AgentRegistry, get_agent}
use supervisor_agent.Engine.Screen.{ScreenResult}
use supervisor_agent.Engine.Screen.Choice.{screen-InCandidates}
use supervisor_agent.State.{SupervisorState, SupervisorContext}
use supervisor_agent.Services.{Services, World, turn_deadline}
use supervisor_agent.Nodes.Turn.{Command, respond, route, latest_user_text}
use supervisor_agent.Nodes.Failsafes as Failsafes
use supervisor_agent.Nodes.Failsafes.Clarifications.{clarify_or_escalate_bounded}
use supervisor_agent.Nodes.Guardrails.{
  found_agents, permitted_ids, reachable_agents, candidates_of, kill_stop, Offer, no_offer, resumed,
  dropped, read_offer, drop_offer, fail_closed, escalate_rule, escalate_streak, refuse, chat,
  agent_of, id_of, ask, go_route, after_screen, held, command_of, run_screen, screened, after_offer,
  guardrails,
}

pub ask-respond :
    (s : Services) (w : World) (state : SupervisorState) (agent : Option WorkerAgent)
    (r : ScreenResult)
    → (ask s w state agent r).goto ≡ respond
unfolding ask
ask-respond s w state agent r = (clarify_or_escalate_bounded s w state "guardrails" _ _).0

pub held-respond : (w : World) (state : SupervisorState) (e : Exc) → (held w state e).goto ≡ respond
unfolding held fail_closed Failsafes.budget_exhausted
held-respond w state (budget_exhausted what spent budget) = refl
held-respond w state (worker_unavailable text) = refl
held-respond w state (http_error name status text) = refl
held-respond w state (other_error name text) = refl

-- What a request that goes on owes to the screen's result.
abbrev Passed : Option WorkerAgent → ScreenResult → Command → Type 0
Passed addressed r c =
    c.goto ≡ route
    → (r.result.passed ≡ true)
      × (truthy r.result.clarification ≡ false)
      × (c.state.target_agent_id ≡ id_of (agent_of r addressed))

after_screen-Passed :
    (s : Services) (w : World) (state : SupervisorState) (addressed : Option WorkerAgent)
    (reachable : List WorkerAgent) (deferred_resumed : String) (r : ScreenResult)
    → Passed addressed r (after_screen s w state addressed reachable deferred_resumed r)
unfolding after_screen escalate_rule escalate_streak refuse chat go_route
after_screen-Passed s w state addressed reachable deferred_resumed r h =
    let asked = ask-respond s w state (agent_of r addressed) r in ground arith

candidates_of-In :
    (addressed : Option WorkerAgent) (reachable : List WorkerAgent) (a : WorkerAgent)
    → In a (candidates_of addressed reachable)
    → (addressed ≡ some a) ⊎ In a reachable
unfolding candidates_of
candidates_of-In none reachable a m = inr m
candidates_of-In (some b) reachable a (inl e) = inl (ap (λ (x : WorkerAgent). some x) (sym e))
candidates_of-In (some b) reachable a (inr m) =
    inr (In-of_keep (λ c. not (c.id == b.id)) a reachable m).0

found_agents-In :
    (registry : AgentRegistry) (ids : List String) (a : WorkerAgent)
    → In a (found_agents registry ids)
    → (id : String) × In id ids × (get_agent registry id ≡ some a)
unfolding found_agents
found_agents-In registry [] a m = absurd m
found_agents-In registry (id ∷ ids) a m = elim (Option-cases (get_agent registry id)) [
  | inl missing ↦
      let m' : In a (found_agents registry ids) = rw (found_agents, missing) at m in
      let (i, n, g) = found_agents-In registry ids a m' in (i, inr n, g)
  | inr (b, found) ↦
      let m' : In a (b ∷ found_agents registry ids) = rw (found_agents, found) at m in
      elim m' [
        | inl e ↦ (id, inl refl, found ∙ ap (λ (x : WorkerAgent). some x) (sym e))
        | inr k ↦ let (i, n, g) = found_agents-In registry ids a k in (i, inr n, g)
      ]
]

-- The agent that the turn was addressed to, which the gate has admitted, or an agent that the
-- registry has under one of the ids that the caller may reach.
abbrev pub Admissible : Services → SupervisorContext → SupervisorState → String → Type 0
Admissible s context state target =
    (target ≡ id_of (get_agent s.registry state.target_agent_id))
    ⊎ ((a : WorkerAgent) × (id : String) × In id (permitted_ids s context)
        × (get_agent s.registry id ≡ some a)
        × (target ≡ a.id))

module _ (s : Services) (context : SupervisorContext) (w : World) (state : SupervisorState) where
  abbrev addressed_agent : Option WorkerAgent
  addressed_agent = get_agent s.registry state.target_agent_id

  candidate-Admissible :
      (a : WorkerAgent)
      → In a (candidates_of addressed_agent (reachable_agents s context))
      → Admissible s context state a.id
  unfolding reachable_agents
  candidate-Admissible a m =
      elim (candidates_of-In addressed_agent (reachable_agents s context) a m) [
        | inl e ↦ inl (rw e refl)
        | inr n ↦
            let (id, k, g) = found_agents-In s.registry (permitted_ids s context) a n in
            inr (a, id, k, g, refl)
      ]

  result-Admissible :
      (query : String) (t : ℕ) (r : ScreenResult)
      → run_screen s context w state query ≡ (ok r, t)
      → Admissible s context state (id_of (agent_of r addressed_agent))
  unfolding run_screen
  result-Admissible query t r h = elim (Option-cases r.agent) [
    | inl nobody ↦ inl (rw nobody refl)
    | inr (a, chosen) ↦
        elim (Result-cases (ensure "the guardrail screen" (turn_deadline s context w) w.now)) [
          | inr (e, r') ↦ absurd (let h' = rw (run_screen, r') at h in cc)
          | inl (u, r') ↦ rw chosen (
              candidate-Admissible a
                (screen-InCandidates s.guardrails query _ _ _ w.now t r a (rw (run_screen, r') at h)
                  chosen).0)
        ]
  ]

  verdict-Admissible :
      (query deferred_resumed : String) (v : Timed ScreenResult)
      → run_screen s context w state query ≡ v
      → (command_of s w state addressed_agent
          (reachable_agents s context)
          deferred_resumed
          v.0).goto
        ≡ route
      → Admissible s context state
          (command_of s w state addressed_agent
            (reachable_agents s context)
            deferred_resumed
            v.0).state.target_agent_id
  unfolding command_of
  verdict-Admissible query deferred_resumed (raised e, t) v h =
      absurd (let h' = rw (held-respond w state e) at h in cc)
  verdict-Admissible query deferred_resumed (ok r, t) v h =
      let (passed, asked, target) =
        after_screen-Passed s w state addressed_agent (reachable_agents s context) deferred_resumed
          r h in
      rw target (result-Admissible query t r v)

  screened-Admissible :
      (query deferred_resumed : String)
      → (screened s context w state query deferred_resumed).0.goto ≡ route
      → Admissible s context state
          (screened s context w state query deferred_resumed).0.state.target_agent_id
  unfolding screened
  screened-Admissible query deferred_resumed h =
      verdict-Admissible query deferred_resumed (run_screen s context w state query) refl h

  after_offer-Admissible :
      (query : String) (offer : Offer)
      → (after_offer s context w state query offer).0.goto ≡ route
      → Admissible s context state
          (after_offer s context w state query offer).0.state.target_agent_id
  unfolding after_offer drop_offer
  after_offer-Admissible query no_offer h = screened-Admissible query "" h
  after_offer-Admissible query (resumed text) h = screened-Admissible text text h
  after_offer-Admissible query (dropped text) h = absurd cc

-- A turn goes on from the guardrails only while the emergency stop is off, and then only to an
-- agent that its caller may use: the one it was addressed to, or one that the registry has under
-- an id of the caller's permitted set (of the role map, where the session has no such set).
pub guardrails-Admissible :
    (s : Services) (context : SupervisorContext) (w : World) (state : SupervisorState)
    → (guardrails s context w state).0.goto ≡ route
    → (truthy s.guardrails.kill_switch_message ≡ false)
      × Admissible s context state (guardrails s context w state).0.state.target_agent_id
unfolding guardrails kill_stop
guardrails-Admissible s context w state h =
    elim (Bool-cases (truthy s.guardrails.kill_switch_message)) [
      | inl on ↦ absurd (let h' = rw (guardrails, on) at h in cc)
      | inr off ↦ (
        off,
        rw (guardrails, off)
            (after_offer-Admissible s context w state (latest_user_text state.messages)
              (read_offer s state.deferred_request (latest_user_text state.messages))
              (rw (guardrails, off) at h)),
      )
    ]

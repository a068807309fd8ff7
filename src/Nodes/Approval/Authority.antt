-- ===== src/Nodes/Approval/Authority.antt =====
-- nodes/approval.py: whose decision settles an approval gate, and how.
use supervisor_agent.Base.{
  arith, String, true, false, not, ◌&&◌, ◌≡◌, ◌≢◌, ◌⊎◌, inl, inr, refl, some, none, Bool-cases,
}
use supervisor_agent.Engine.Replies.{approved, rejected}
use supervisor_agent.State.{blocked, Signoff, SupervisorState, SupervisorContext}
use supervisor_agent.Services.{Services, World}
use supervisor_agent.Nodes.Turn.{Command, Stage}
use supervisor_agent.Nodes.Approval.{
  Resume, approves, may_approve, is_unattributed, pending_of, signoff_of, unattributed, not_allowed,
  reject_artifact, approve_artifact, settle,
}

-- The state with another artifact staged, by the same agent and for the same reason.
abbrev pub restaged : String → SupervisorState → SupervisorState
restaged artifact state = record state {
  pending_approval = some (record (pending_of state) { artifact = artifact });
}

-- All that a command does, but for what stays staged.
abbrev pub shown : Command → Stage × SupervisorState
shown c = (c.goto, record c.state { pending_approval = none })

module _ (s : Services) (context : SupervisorContext) (w : World) (state : SupervisorState)
    (r : Resume) where
  -- Whatever is staged, the same happens: nothing of the artifact gets anywhere.
  abbrev pub Withheld : Type 0
  Withheld =
      (artifact : String)
      → shown (settle s context w (restaged artifact state) r) ≡ shown (settle s context w state r)

  -- An approval is recorded that was not there before, or something of the artifact gets out: with
  -- another artifact staged, the command would differ.
  abbrev pub Released : Type 0
  Released =
      ((sg : Signoff) × (state.signoff ≡ none)
        × ((settle s context w state r).state.signoff ≡ some sg)
        × (sg.decision ≡ approved))
      ⊎ ((artifact : String) × (shown (settle s context w (restaged artifact state) r)
            ≢ shown (settle s context w state r)))

  abbrev pub Authorised : Type 0
  Authorised =
      (approves r ≡ true)
      × (is_unattributed context ≡ false)
      × (may_approve s context (pending_of state).agent_id ≡ true)

  rejected-Withheld : approves r ≡ false → Withheld
  unfolding settle reject_artifact signoff_of
  rejected-Withheld n artifact = rw (settle, n) refl

  unattributed-Withheld : approves r ≡ true → is_unattributed context ≡ true → Withheld
  unfolding settle unattributed
  unattributed-Withheld y who artifact = rw (settle, y, who) refl

  not_allowed-Withheld :
      approves r ≡ true
      → is_unattributed context ≡ false
      → may_approve s context (pending_of state).agent_id ≡ false
      → Withheld
  unfolding settle not_allowed
  not_allowed-Withheld y who may artifact = rw (settle, y, who, may) refl

  recorded-Authorised :
      (sg : Signoff)
      → state.signoff ≡ none
      → (settle s context w state r).state.signoff ≡ some sg
      → sg.decision ≡ approved
      → Authorised
  unfolding settle unattributed not_allowed reject_artifact approve_artifact signoff_of
  recorded-Authorised sg h k d = ground arith

  released-Authorised : Released → Authorised
  released-Authorised (inl (sg, h, k, d)) = recorded-Authorised sg h k d
  released-Authorised (inr (artifact, differs)) = elim (Bool-cases (approves r)) [
    | inr n ↦ absurd (differs (rejected-Withheld n artifact))
    | inl y ↦ elim (Bool-cases (is_unattributed context)) [
      | inl who ↦ absurd (differs (unattributed-Withheld y who artifact))
      | inr who ↦ elim (Bool-cases (may_approve s context (pending_of state).agent_id)) [
        | inl may ↦ (y, who, may)
        | inr may ↦ absurd (differs (not_allowed-Withheld y who may artifact))
      ]
    ]
  ]

-- Behind an approval that is recorded, and behind anything of the staged artifact that gets out of
-- the gate, there are a reply that approves, an approver with an identity, and that approver's right
-- to approve the work of the agent that produced the artifact, as the checkpoint has it, whatever
-- agent the turn names. Then the approval is recorded under that agent, and the user gets the
-- artifact as it was staged. Something gets out where the command would differ, in the answer, the
-- trail or any other part of the state, if another artifact had been staged.
pub settle_approved :
    (s : Services) (context : SupervisorContext) (w : World) (state : SupervisorState) (r : Resume)
    → Released s context w state r
    → Authorised s context w state r
      × (sg : Signoff) × ((settle s context w state r).state.signoff ≡ some sg)
      × (sg.decision ≡ approved)
      × (sg.agent_id ≡ (pending_of state).agent_id)
      × ((settle s context w state r).state.final_text ≡ (pending_of state).artifact)
unfolding settle approve_artifact signoff_of
settle_approved s context w state r released =
    let (y, who, may) = released-Authorised s context w state r released in
    (
      (y, who, may),
      signoff_of context w (pending_of state) r approved,
      rw (settle, y, who, may) refl,
      refl,
      refl,
      rw (settle, y, who, may) refl,
    )

module _ (s : Services) (context : SupervisorContext) (w : World) (state : SupervisorState)
    (r : Resume) where
  -- The three refusals: the reply is no approval, nobody stands behind it, or not the right person.
  abbrev pub Discarded : Type 0
  Discarded =
      (approves r ≡ false)
      × ((settle s context w state r).state.pending_approval ≡ none)
      × ((settle s context w state r).state.signoff
          ≡ some (signoff_of context w (pending_of state) r rejected))
      × Withheld s context w state r

  abbrev pub KeptStaged : Type 0
  KeptStaged =
      (approves r ≡ true)
      × (is_unattributed context ≡ true)
      × ((settle s context w state r).state.pending_approval ≡ state.pending_approval)
      × ((settle s context w state r).state.signoff ≡ state.signoff)
      × ((settle s context w state r).state.outcome ≡ blocked)
      × Withheld s context w state r

  abbrev pub ClosedOff : Type 0
  ClosedOff =
      (approves r ≡ true)
      × (is_unattributed context ≡ false)
      × (may_approve s context (pending_of state).agent_id ≡ false)
      × ((settle s context w state r).state.pending_approval ≡ none)
      × ((settle s context w state r).state.signoff ≡ state.signoff)
      × ((settle s context w state r).state.outcome ≡ blocked)
      × Withheld s context w state r

-- A decision that is no approval, or whose approver is unknown or may not approve, is refused in one
-- of three ways. A reply that is no approval, such as a payload that is no mapping and not true,
-- rejects: whoever answers, the artifact is discarded and the rejection is recorded. An approval
-- without an identity decides nothing: the artifact stays staged and no sign-off is recorded. An
-- approval by somebody who may not approve closes the gate without a sign-off. And in none of these
-- does the command, but for what stays staged, depend on the artifact. The decision is one that the
-- node settles: a comment that cannot be cut raises before.
pub settle_refused :
    (s : Services) (context : SupervisorContext) (w : World) (state : SupervisorState) (r : Resume)
    → (approves r
        && not (is_unattributed context)
        && may_approve s context (pending_of state).agent_id)
      ≡ false
    → Discarded s context w state r
      ⊎ (KeptStaged s context w state r ⊎ ClosedOff s context w state r)
unfolding settle unattributed not_allowed reject_artifact
settle_refused s context w state r h = elim (Bool-cases (approves r)) [
  | inr n ↦
      let held = rejected-Withheld s context w state r n in
      inl (n, rw (settle, n) refl, rw (settle, n) refl, held)
  | inl y ↦ elim (Bool-cases (is_unattributed context)) [
    | inl who ↦
        let held = unattributed-Withheld s context w state r y who in
        inr (
          inl (
            y,
            who,
            rw (settle, y, who) refl,
            rw (settle, y, who) refl,
            rw (settle, y, who) refl,
            held,
          ))
    | inr who ↦
        let may : may_approve s context (pending_of state).agent_id ≡ false = ground arith in
        let held = not_allowed-Withheld s context w state r y who may in
        inr (
          inr (
            y,
            who,
            may,
            rw (settle, y, who, may) refl,
            rw (settle, y, who, may) refl,
            rw (settle, y, who, may) refl,
            held,
          ))
  ]
]

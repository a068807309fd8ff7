-- ===== src/Engine/Screen/Tiers.antt =====
-- GuardrailEngine.screen: the tiers that need no model call, and the one that the budget stops.
use supervisor_agent.Base.{
  arith, Bool, ℕ, ◌<>◌, String, true, false, ◌≡◌, refl, inl, inr, ◌&&◌, Option, none, some, List,
  [], ◌∷◌, In, by_test, if◌then◌else◌, Bool, Bool-cases,
}
use supervisor_agent.Base.Text.{truthy}
use supervisor_agent.Base.Result.{budget_exhausted, ok, raised, Timed}
use supervisor_agent.Governance.Deadline.{Deadline, enabled, exhausted, spent, ensure}
use supervisor_agent.Governance.DenyRules.{DenyRule, first_match}
use supervisor_agent.Worker.Registry.{WorkerAgent}
use supervisor_agent.Engine.Replies.{small_talk_kind}
use supervisor_agent.Engine.Verdict.{ScreenModel}
use supervisor_agent.Engine.Screen.{
  GuardrailEngine, Gathered, refusal, chat, ruled_out, nothing_yet, examine, scan, is_sole, screen,
}

-- A request that a deterministic rule refuses, or that is small talk, gets the same answer at the
-- same moment whatever the model would say, and whatever the candidates, the history and the
-- deadline are: a refusal by the first rule that matches, or a result that names no agent.
screen_model_free :
    (e : GuardrailEngine) (model : WorkerAgent → ScreenModel) (query : String)
    (candidates : List WorkerAgent) (history : List String) (deadline : Option Deadline) (now : ℕ)
    → ((rule : DenyRule)
        → first_match e.re e.rules query ≡ some rule
        → screen (record e { model = model }) query candidates history deadline now
          ≡ (ok (refusal rule), now))
      × (first_match e.re e.rules query ≡ none
          → truthy (small_talk_kind e.re query) ≡ true
          → screen (record e { model = model }) query candidates history deadline now
            ≡ (ok (chat (small_talk_kind e.re query)), now))
unfolding screen
screen_model_free e model query candidates history deadline now =
    (λ rule m. rw (screen, m) refl, λ m talk. rw (screen, m, talk) refl)

-- The error of a budget that is exhausted, at the moment of the check.
abbrev pub StoppedAt : {A : Type 0} → ℕ → Timed A → Type 0
StoppedAt now r =
    (what : String) × (s : ℕ) × (b : ℕ) × (r ≡ (raised (budget_exhausted what s b), now))

ensure-exhausted :
    (what : String) (d : Deadline) (now : ℕ)
    → enabled d ≡ true
    → exhausted d now ≡ true
    → ensure what d now ≡ raised (budget_exhausted what (spent d now) d.budget_seconds)
unfolding ensure
ensure-exhausted what d now on out =
    by_test (λ r. r ≡ raised (budget_exhausted what (spent d now) d.budget_seconds))
      (enabled d && exhausted d now) _ _ (λ _. refl) (λ no. absurd (ground arith))

later :
    (P : WorkerAgent → Bool) (b a : WorkerAgent) (rest : List WorkerAgent)
    → In a (b ∷ rest)
    → P a ≡ false
    → P b ≡ true
    → In a rest
later P b a rest (inl e) f t = absurd (let f' : P b ≡ false = rw e at f in cc)
later P b a rest (inr m) f t = m

scan-StoppedAt :
    (e : GuardrailEngine) (query : String) (history : List String) (d : Deadline) (sole : Bool)
    (decisive : ℕ) (candidates : List WorkerAgent) (g : Gathered) (now : ℕ) (a : WorkerAgent)
    → enabled d ≡ true
    → exhausted d now ≡ true
    → In a candidates
    → ruled_out e.re a query ≡ false
    → StoppedAt now (scan e query history (some d) sole decisive candidates g now)
unfolding scan examine
scan-StoppedAt e query history d sole decisive [] g now a on out m kept = absurd m
scan-StoppedAt e query history d sole decisive (b ∷ rest) g now a on out m kept =
    elim (Bool-cases (ruled_out e.re b query)) [
      | inr in_b ↦ (
        "screening against " <> b.id,
        spent d now,
        d.budget_seconds,
        rw (scan, in_b, ensure-exhausted ("screening against " <> b.id) d now on out) refl,
      )
      | inl out_b ↦
          rw (scan, out_b)
            (scan-StoppedAt e query history d sole decisive rest g now a on out
              (later (λ c. ruled_out e.re c query) b a rest m kept out_b) kept)
    ]

-- When the turn's budget is exhausted, a request that needs the model's judgement is never passed:
-- if no deterministic rule matches it, it is no small talk, and some candidate's own deny patterns
-- leave it, the screen raises BudgetExhausted at once.
pub screen-StoppedAt :
    (e : GuardrailEngine) (query : String) (candidates : List WorkerAgent) (history : List String)
    (d : Deadline) (now : ℕ) (a : WorkerAgent)
    → enabled d ≡ true
    → exhausted d now ≡ true
    → first_match e.re e.rules query ≡ none
    → truthy (small_talk_kind e.re query) ≡ false
    → In a candidates
    → ruled_out e.re a query ≡ false
    → StoppedAt now (screen e query candidates history (some d) now)
unfolding screen
screen-StoppedAt e query candidates history d now a on out m talk member kept =
    let (what, s, b, r) =
      scan-StoppedAt e query history d (is_sole candidates)
        (if is_sole candidates then e.threshold else e.decisive) candidates nothing_yet now a on out
        member kept in
    (what, s, b, rw (screen, m, talk, r) refl)

-- ===== src/Tests/Screening.antt =====
-- Witnesses on the screen and on the stages up to the worker call.
use supervisor_agent.Base.{
  ℕ, suc, ◌≤◌, ◌<◌, String, ◌==◌, true, false, ◌≡◌, ◌≢◌, ◌⊎◌, ◌&&◌, refl, none, some, List, [], ◌∷◌,
  In, inl, inr,
}
use supervisor_agent.Base.Text.{lower, truthy, strip}
use supervisor_agent.Base.Result.{ok}
use supervisor_agent.Governance.DenyRules.{first_match}
use supervisor_agent.Governance.Deadline.{Deadline, enabled, exhausted}
use supervisor_agent.Worker.Registry.{WorkerAgent}
use supervisor_agent.Engine.Replies.{small_talk_kind}
use supervisor_agent.Engine.Verdict.{GuardrailVerdict}
use supervisor_agent.Engine.Screen.{
  ScreenResult, Gathered, undecided, plain, semantic, refusal, chat, ruled_out, conclude, screen,
}
use supervisor_agent.Engine.Screen.Choice.{screen-InCandidates}
use supervisor_agent.Engine.Screen.Tiers.{StoppedAt, screen-StoppedAt}
use supervisor_agent.Resolver.{RouteDecision}
use supervisor_agent.Tests.Fixtures.{engine, story_agent, design_agent, claim, minute}

abbrev both : List WorkerAgent
both = story_agent ∷ design_agent ∷ []

-- The result of the screen, by its first agent's decisive claim.
abbrev claimed : ScreenResult
claimed = record {
  agent = some story_agent;
  result = plain true semantic "a story is asked for";
  considered = "story" ∷ [];
  claims = ("story", "a story") ∷ [];
}

runs : screen engine "write a story" both [] (some minute) 5000 ≡ (ok claimed, 5200)
unfolding screen first_match small_talk_kind supervisor_agent.Base.Text.lower
    supervisor_agent.Governance.Deadline.ensure supervisor_agent.Engine.Verdict.semantic_verdict
    supervisor_agent.Governance.Retry.invoke_with_retries supervisor_agent.Engine.Screen.judge
    conclude supervisor_agent.Engine.Verdict.asks supervisor_agent.Engine.Verdict.second_request
    strip
runs = refl

screen-InCandidates_example :
    In story_agent both
    × ((ruled_out engine.re story_agent "write a story" ≡ false) ⊎ (claimed.claims ≡ []))
screen-InCandidates_example =
    screen-InCandidates engine "write a story" both [] (some minute) 5000 5200 claimed story_agent
      runs refl

abbrev two_claims : Gathered
two_claims = record {
  considered = "story" ∷ "design" ∷ [];
  in_domain = (story_agent, claim 620) ∷ (design_agent, claim 700) ∷ [];
  unclear = [];
  best_off = none;
}

abbrev late : ℕ
late = 70000

is_exhausted : exhausted minute late ≡ true
unfolding exhausted
is_exhausted = refl

no_rule : first_match engine.re engine.rules "write a story" ≡ none
unfolding first_match
no_rule = refl

no_small_talk : truthy (small_talk_kind engine.re "write a story") ≡ false
unfolding small_talk_kind
no_small_talk = refl

not_ruled_out : ruled_out engine.re story_agent "write a story" ≡ false
unfolding lower
not_ruled_out = refl

screen-StoppedAt_example : StoppedAt late (screen engine "write a story" both [] (some minute) late)
screen-StoppedAt_example =
    screen-StoppedAt engine "write a story" both [] minute late story_agent refl is_exhausted
      no_rule no_small_talk (inl refl) not_ruled_out

abbrev other_subject : RouteDecision
other_subject = record {
  context_applies = true;
  prior_context_applies = false;
  ready = true;
  resolved_context = ("team", "Blue") ∷ [];
  clarifying_question = none;
}

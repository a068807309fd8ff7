-- ===== src/Resolver/Dropping.antt =====
-- src/supervisor/context_resolver.py: a request about another subject drops the carried context.
use supervisor_agent.Base.{arith, if◌then◌else◌, String, ◌==◌, true, false, ◌≡◌, none, []}
use supervisor_agent.Base.Dict.{Dict, Keys, lookup, merge, merge-Keys, lookup_absent}
use supervisor_agent.Resolver.{RouteDecision, drops, settle}

settled_context :
    (d : RouteDecision) (prior : Dict String)
    → (settle d prior).resolved_context
      ≡ merge (if drops d prior then [] else prior) d.resolved_context
unfolding settle
settled_context d prior = ground arith

-- When the model says that the carried context does not apply, a key that the model did not
-- resolve anew has no value in the context that goes on to the worker, whatever the conversation
-- or the long-term store held for it.
settle-drops :
    (d : RouteDecision) (prior : Dict String) (key : String)
    → drops d prior ≡ true
    → Keys (λ j. (key == j) ≡ false) d.resolved_context
    → lookup key (settle d prior).resolved_context ≡ none
settle-drops d prior key h absent =
    rw (settled_context d prior, h)
      (lookup_absent key (merge [] d.resolved_context)
        (merge-Keys (λ j. (key == j) ≡ false) [] d.resolved_context tt absent))

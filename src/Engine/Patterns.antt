-- ===== src/Engine/Patterns.antt =====
-- guardrail_engine.py: the patterns of the conversational classifiers, by the text that
-- `re.compile` is given.
use supervisor_agent.Base.{String, List, [], ◌∷◌}

abbrev pub names_a_deliverable : String
names_a_deliverable =
    "\\b(?:write|draft|generate|produce|implement|refactor|spec(?:ify)?|summari[sz]e|user\\s+stor(?:y|ies)|test\\s+cases?|test\\s+plan|acceptance\\s+criteria|hld|lld|epic)\\b"

abbrev pub vetoable : List String
vetoable = "meta_agents" ∷ []

abbrev pub small_talk_kinds : List (String × String)
small_talk_kinds =
    (
      "thanks",
      "^\\W*(?:thanks?(?:\\s+you)?|thank\\s+you|ty|cheers|thx|(?:that'?s\\s+)?(?:great|perfect|awesome|helpful))(?:\\s+(?:a\\s+lot|so\\s+much|very\\s+much))?\\W*$",
    )
    ∷ (
      "farewell",
      "^\\W*(?:bye|goodbye|good\\s+bye|see\\s+(?:you|ya)(?:\\s+later)?|that'?s\\s+(?:all|it)(?:\\s+for\\s+now)?|(?:i'?m\\s+)?done(?:\\s+for\\s+now)?|no(?:thing)?\\s+(?:thanks|thank\\s+you))\\W*$",
    )
    ∷ (
      "meta",
      "^\\W*(?:who\\s+are\\s+you|what\\s+(?:can|do)\\s+you\\s+do|what\\s+are\\s+you\\s+for|help)\\W*$",
    )
    ∷ (
      "how_are_you",
      "^\\W*(?:(?:hi|hey|hello|yo)\\W+)?(?:how\\s+(?:are\\s+(?:you|u|things|we)|r\\s+u|is\\s+it\\s+going|do\\s+you\\s+do)|how'?s\\s+(?:it\\s+going|things|life)|(?:are\\s+)?you\\s+(?:ok|okay|well|there|alright)|what'?s\\s+up|wassup|sup)\\W*$",
    )
    ∷ (
      "greeting",
      "^\\W*(?:hi|hii+|hey+|hello+|heya|yo|greetings|howdy|good\\s+(?:morning|afternoon|evening|day))(?:\\s+(?:there|team|folks|all|everyone|bot|supervisor|agent))?\\W*$",
    )
    ∷ ("ack", "^\\W*(?:ok(?:ay)?|cool|great|nice|got\\s+it|sure|start|test)\\W*$")
    ∷ (
      "meta_agents",
      "^\\W*(?:(?:can|could|would|will)\\s+you\\s+)?(?:please\\s+)?(?:just\\s+)?(?:tell\\s+me\\s+|show\\s+me\\s+|let\\s+me\\s+know\\s+|explain\\s+|clarify\\s+)?(?:(?:does|do|can|could|is|are)\\b[^.?!\\n]{0,60}?\\b(?:agent|workflow|assistant|bot|supervisor)s?\\b[^.?!\\n]{0,40}?\\b(?:have|has|get|hold|see|access|read|reach)\\b[^.?!\\n]{0,40}?\\b(?:access|secrets?|credentials?|permissions?|privileges?|tokens?|keys?|production|prod\\b|prompts?|memory|my\\s+(?:data|prompts?|messages?|history|context|files?|notes?|conversations?))|(?:what|which|how\\s+much)\\s+(?:data|information|context|memory|records?|secrets?|permissions?|access|privileges?|credentials?|scopes?|tokens?|keys?)\\b[^.?!\\n]{0,60}?\\b(?:agent|workflow|assistant|supervisor)s?\\b|(?:what|which)\\b[^.?!\\n]{0,30}?\\b(?:agent|workflow)s?\\b[^.?!\\n]{0,30}?\\b(?:store[ds]?|stored|hold[s]?|keep[s]?|remember[s]?|retain[s]?)\\b|(?:is|are)\\s+there\\b[^.?!\\n]{0,60}?\\b(?:agent|workflow)s?\\b|(?:which|what)\\s+(?:other\\s+)?(?:agent|workflow)s?\\b[^.?!\\n]{0,40}?\\b(?:exist|are\\s+there|am\\s+i|can\\s+i|hidden|restricted|available\\s+to\\s+me|allowed|my\\s+role)\\b)",
    )
    ∷ []

abbrev pub accepts : String
accepts =
    "^\\W*(?:(?:yes|yeah|yep|yup|sure|ok(?:ay)?|affirmative)\\W*$|(?:(?:yes|yeah|yep|yup|sure|ok(?:ay)?|affirmative)\\W+)?(?:please(?:\\s+do)?|do\\s+(?:it|that|both|the\\s+second(?:\\s+one|\\s+task|\\s+part)?)|go\\s+ahead|carry\\s+on|continue|proceed|keep\\s+going)\\W*$)"

abbrev pub declines : String
declines =
    "^\\W*(?:(?:no|nope|nah|no\\s+thanks?|no\\s+thank\\s+you)\\W*$|(?:(?:no|nope|nah|no\\s+thanks?|no\\s+thank\\s+you)\\W+)?(?:not\\s+(?:now|yet|today|for\\s+now)|skip\\s+(?:it|that|the\\s+second(?:\\s+one)?)|leave\\s+(?:it|that)|don'?t(?:\\s+bother)?|cancel|that'?s\\s+(?:all|it|everything)|thanks?(?:\\s+that'?s\\s+all)?)\\W*$)"

abbrev pub approves_gate : String
approves_gate =
    "^\\W*(?:approve(?:d)?|approval|accept(?:ed)?|lgtm|looks\\s+good|sign(?:ed)?[-\\s]?off|go\\s+ahead|proceed|ship\\s+it)\\b"

abbrev pub rejects_gate : String
rejects_gate =
    "^\\W*(?:reject(?:ed)?|decline(?:d)?|no|nope|nah|don'?t\\s+approve|do\\s+not\\s+approve|not\\s+approve(?:d)?|discard|cancel|needs?\\s+(?:changes|work|rework)|rework)\\b"

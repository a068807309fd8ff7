-- ===== src/Engine/Screen/Choice.antt =====
-- GuardrailEngine.screen: which agent a screened request may go to.
use supervisor_agent.Base.{
  ◌∙◌, sym, head?-In, All-tabulate, length, ℕ, ◌<>◌, String, Bool, false, ◌≡◌, refl, ◌⊎◌, inl, inr,
  ◌&&◌, Option, Option-cases, none, some, List, [], ◌∷◌, head?, All, In, leb, ltb, by_test,
  Bool-cases, All-append,
}
use supervisor_agent.Base.Sort.{All-sort}
use supervisor_agent.Base.Result.{then_timed, ok, raised, Timed, by_reply}
use supervisor_agent.Governance.Deadline.{Deadline, ensure_some}
use supervisor_agent.Governance.DenyRules.{first_match}
use supervisor_agent.Worker.Registry.{WorkerAgent}
use supervisor_agent.Engine.Verdict.{GuardrailVerdict, semantic_verdict}
use supervisor_agent.Engine.Screen.{
  contested_among, small_talk_kind, truthy, ScreenResult, GuardrailEngine, Claim, Gathered, Scan,
  decided, undecided, judge, ruled_out, go_on, nothing_yet, examine, scan, ranked, conclude,
  ranked_or_unclear, unclear_or_off, off_domain, rank_claims, screen,
}

-- The ranking names its first claimant, contested or not.
pub rank_claims-agent :
    (e : GuardrailEngine) (considered : List String) (best : Claim) (all_ranked : List Claim)
    → (rank_claims e considered best all_ranked).agent ≡ some best.0
unfolding rank_claims
rank_claims-agent e considered best all_ranked =
    by_test (λ (r : ScreenResult). r.agent ≡ some best.0)
      (ltb 1 (length (contested_among e best.1 all_ranked))) _ _ (λ _. refl) (λ _. refl)

module _ (P : WorkerAgent → Type 0) where
  -- What holds of the agent of a result, where it has one.
  abbrev pub AgentOf : Option WorkerAgent → Type 0
  AgentOf none = Unit
  AgentOf (some a) = P a

  abbrev OfClaim : Claim → Type 0
  OfClaim c = P c.0

  abbrev pub Sound : Scan → Type 0
  Sound (decided r) = AgentOf r.agent
  Sound (undecided g) = All OfClaim g.in_domain × All OfClaim g.unclear

  abbrev pub SoundTimed : Timed Scan → Type 0
  SoundTimed (ok s, now) = Sound s
  SoundTimed (raised e, now) = Unit

  judge-Sound :
      (decisive : ℕ) (a : WorkerAgent) (v : GuardrailVerdict) (g : Gathered)
      → P a
      → Sound (undecided g)
      → Sound (judge decisive a v g)
  unfolding judge
  judge-Sound decisive a v g p (h, k) =
      by_test Sound (v.in_domain && leb decisive v.confidence) _ _ (λ _. p)
        (λ _.
          by_test Sound v.in_domain _ _
            (λ _. (All-append OfClaim g.in_domain ((a, v) ∷ []) h (p, tt), k))
            (λ _.
              by_test Sound v.underspecified _ _
                (λ _. (h, All-append OfClaim g.unclear ((a, v) ∷ []) k (p, tt))) (λ _. (h, k))))

  go_on-Sound :
      (s : Scan) (now : ℕ) (rest : Gathered → ℕ → Timed Scan)
      → Sound s
      → ((g : Gathered) (t : ℕ) → Sound (undecided g) → SoundTimed (rest g t))
      → SoundTimed (go_on s now rest)
  go_on-Sound (decided r) now rest h k = h
  go_on-Sound (undecided g) now rest h k = k g now h

  -- What holds of every candidate that its own deny patterns leave.
  abbrev pub Left : GuardrailEngine → String → List WorkerAgent → Type 0
  Left e query = All (λ a. ruled_out e.re a query ≡ false → P a)

  scan-Sound :
      (e : GuardrailEngine) (query : String) (history : List String) (deadline : Option Deadline)
      (sole : Bool) (decisive : ℕ) (candidates : List WorkerAgent) (g : Gathered) (now : ℕ)
      → Left e query candidates
      → Sound (undecided g)
      → SoundTimed (scan e query history deadline sole decisive candidates g now)
  unfolding scan examine
  scan-Sound e query history deadline sole decisive [] g now h k = k
  scan-Sound e query history deadline sole decisive (a ∷ rest) g now (p, h) k =
      elim (Bool-cases (ruled_out e.re a query)) [
        | inl out ↦
            rw (scan, out) (scan-Sound e query history deadline sole decisive rest g now h k)
        | inr kept ↦
            rw (scan, kept)
              (by_reply SoundTimed (ensure_some ("screening against " <> a.id) deadline now) now _
                (λ _ _. tt)
                (λ _ _.
                  by_reply SoundTimed
                    (semantic_verdict e.model e.attempts query a history sole deadline now).0
                    (semantic_verdict e.model e.attempts query a history sole deadline now).1 _
                    (λ _ _. tt)
                    (λ v _. go_on-Sound _ _ _ (judge-Sound decisive a v _ (p kept) k) (λ g' t k'.
                      scan-Sound e query history deadline sole decisive rest g' t h k'))))
      ]

  -- The agent of a result, or the fallback to the first candidate, which carries no claim.
  abbrev pub Picked : List WorkerAgent → ScreenResult → Type 0
  Picked candidates r = AgentOf r.agent ⊎ ((r.agent ≡ head? candidates) × (r.claims ≡ []))

  off_domain-Picked :
      (e : GuardrailEngine) (candidates : List WorkerAgent) (considered : List String)
      (best_off : Option GuardrailVerdict)
      → Picked candidates (off_domain e candidates considered best_off)
  unfolding off_domain
  off_domain-Picked e candidates considered none = inl tt
  off_domain-Picked e candidates considered (some v) =
      by_test (Picked candidates) (ltb v.confidence e.threshold) _ _ (λ _. inr (refl, refl))
        (λ _. inl tt)

  unclear-Picked :
      (e : GuardrailEngine) (candidates : List WorkerAgent) (considered : List String)
      (unclear : List Claim) (best_off : Option GuardrailVerdict)
      → All OfClaim unclear
      → Picked candidates (unclear_or_off e candidates considered unclear best_off)
  unfolding unclear_or_off
  unclear-Picked e candidates considered [] best_off h =
      off_domain-Picked e candidates considered best_off
  unclear-Picked e candidates considered (c ∷ cs) best_off h = inl h.0

  rank-Picked :
      (e : GuardrailEngine) (candidates : List WorkerAgent) (considered : List String)
      (best : Claim) (all_ranked : List Claim)
      → OfClaim best
      → Picked candidates (rank_claims e considered best all_ranked)
  rank-Picked e candidates considered best all_ranked h =
      inl (rw (rank_claims-agent e considered best all_ranked) h)

  ranked-Picked :
      (e : GuardrailEngine) (candidates : List WorkerAgent) (ranking : List Claim) (g : Gathered)
      → All OfClaim ranking
      → All OfClaim g.unclear
      → Picked candidates (ranked_or_unclear e candidates ranking g)
  unfolding ranked_or_unclear
  ranked-Picked e candidates [] g h k =
      unclear-Picked e candidates g.considered g.unclear g.best_off k
  ranked-Picked e candidates (best ∷ rest) g h k =
      rank-Picked e candidates g.considered best (best ∷ rest) h.0

  conclude-Picked :
      (e : GuardrailEngine) (candidates : List WorkerAgent) (s : Scan)
      → Sound s
      → Picked candidates (conclude e candidates s)
  unfolding conclude
  conclude-Picked e candidates (decided r) h = inl h
  conclude-Picked e candidates (undecided g) (h, k) =
      ranked-Picked e candidates (ranked g.in_domain) g (All-sort _ OfClaim g.in_domain h) k

  abbrev pub PickedTimed : List WorkerAgent → Timed ScreenResult → Type 0
  PickedTimed candidates (ok r, now) = Picked candidates r
  PickedTimed candidates (raised e, now) = Unit

  concluded :
      (e : GuardrailEngine) (candidates : List WorkerAgent) (s : Timed Scan)
      → SoundTimed s
      → PickedTimed candidates (then_timed s (λ r t. (ok (conclude e candidates r), t)))
  concluded e candidates (ok s, now) h = conclude-Picked e candidates s h
  concluded e candidates (raised x, now) h = tt

  screen-Picked :
      (e : GuardrailEngine) (query : String) (candidates : List WorkerAgent) (history : List String)
      (deadline : Option Deadline) (now : ℕ)
      → Left e query candidates
      → PickedTimed candidates (screen e query candidates history deadline now)
  unfolding screen
  screen-Picked e query candidates history deadline now h =
      elim (Option-cases (first_match e.re e.rules query)) [
        | inr (rule, m) ↦ rw (screen, m) (inl tt)
        | inl m ↦
            rw (screen, m)
              (by_test (PickedTimed candidates) (truthy (small_talk_kind e.re query)) _ _
                (λ _. inl tt)
                (λ _.
                  concluded e candidates _ (
                    scan-Sound e query history deadline _ _ candidates nothing_yet now h (tt, tt))))
      ]

-- Whenever the screen names an agent, it is one of the candidates, the agents that the caller may
-- reach. And none of the agent's own deny patterns matches the request, unless the result is the
-- fallback on a low-confidence verdict, which carries no claim.
pub screen-InCandidates :
    (e : GuardrailEngine) (query : String) (candidates : List WorkerAgent) (history : List String)
    (deadline : Option Deadline) (now t : ℕ) (r : ScreenResult) (a : WorkerAgent)
    → screen e query candidates history deadline now ≡ (ok r, t)
    → r.agent ≡ some a
    → In a candidates × ((ruled_out e.re a query ≡ false) ⊎ (r.claims ≡ []))
screen-InCandidates e query candidates history deadline now t r a s h =
    let P : WorkerAgent → Type 0 = λ b. In b candidates × (ruled_out e.re b query ≡ false) in
    let picked : Picked P candidates r = rw s at (
      screen-Picked P e query candidates history deadline now
        (All-tabulate _ candidates (λ b m kept. (m, kept)))) in
    elim picked [
      | inl p ↦ let (m, kept) : P a = rw h at p in (m, inl kept)
      | inr (first, no_claim) ↦ (head?-In a candidates (sym first ∙ h), inr no_claim)
    ]

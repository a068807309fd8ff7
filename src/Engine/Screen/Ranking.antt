-- ===== src/Engine/Screen/Ranking.antt =====
-- GuardrailEngine.screen: the ranking of the agents that claimed the request.
use supervisor_agent.Base.{
  leb→le, ◌≤◌, Bool, true, ◌≡◌, refl, inl, inr, some, List, [], ◌∷◌, All-In, In, leb, arith,
}
use supervisor_agent.Base.Sort.{Sorted, sort-Sorted, In-sort, sort-In}
use supervisor_agent.Worker.Registry.{WorkerAgent}
use supervisor_agent.Engine.Screen.{
  GuardrailEngine, Claim, Gathered, undecided, ranked, ranked_or_unclear, conclude,
}
use supervisor_agent.Engine.Screen.Choice.{rank_claims-agent}

abbrev by_confidence : Claim → Claim → Bool
by_confidence a b = leb b.1.confidence a.1.confidence

-- A claim that no other of a list exceeds.
abbrev pub IsStrongest : Claim → List Claim → Type 0
IsStrongest best claims = (c : Claim) → In c claims → c.1.confidence ≤ best.1.confidence

IsStrongest-of_Sorted :
    (best : Claim) (rest : List Claim)
    → Sorted by_confidence (best ∷ rest)
    → IsStrongest best (best ∷ rest)
IsStrongest-of_Sorted best rest (h, k) c (inl e) = rw e (omega arith)
IsStrongest-of_Sorted best rest (h, k) c (inr m) =
    let first : by_confidence best c ≡ true =
      All-In (λ d. by_confidence best d ≡ true) c rest h m in
    leb→le _ _ first

ranked-Sorted : (claims : List Claim) → Sorted by_confidence (ranked claims)
ranked-Sorted claims =
    sort-Sorted by_confidence (λ a b h. ground arith) (λ a b c h k. ground arith) claims

-- What is said of the result on a ranking.
abbrev ByStrongest : GuardrailEngine → List WorkerAgent → Gathered → List Claim → Type 0
ByStrongest e candidates g ranking =
    (best : Claim) × In best ranking
    × ((ranked_or_unclear e candidates ranking g).agent ≡ some best.0)
    × IsStrongest best ranking

ranking_lem :
    (e : GuardrailEngine) (candidates : List WorkerAgent) (g : Gathered) (ranking : List Claim)
    (c : Claim)
    → In c ranking
    → Sorted by_confidence ranking
    → ByStrongest e candidates g ranking
unfolding ranked_or_unclear
ranking_lem e candidates g [] c m h = absurd m
ranking_lem e candidates g (best ∷ rest) c m h = (
  best,
  inl refl,
  rank_claims-agent e g.considered best (best ∷ rest),
  IsStrongest-of_Sorted best rest h,
)

-- When the loop over the candidates has not decided and somebody claimed the request, the screen
-- names the agent of a claim whose confidence no other claim exceeds, whether or not the ownership
-- is contested.
conclude-IsStrongest :
    (e : GuardrailEngine) (candidates : List WorkerAgent) (g : Gathered) (c : Claim)
    → In c g.in_domain
    → (best : Claim) × In best g.in_domain
      × ((conclude e candidates (undecided g)).agent ≡ some best.0)
      × IsStrongest best g.in_domain
unfolding conclude
conclude-IsStrongest e candidates g c m =
    let (best, n, chosen, strongest) =
      ranking_lem e candidates g (ranked g.in_domain) c (sort-In by_confidence c g.in_domain m)
        (ranked-Sorted g.in_domain) in
    (
      best,
      In-sort by_confidence best g.in_domain n,
      chosen,
      λ d k. strongest d (sort-In by_confidence d g.in_domain k),
    )

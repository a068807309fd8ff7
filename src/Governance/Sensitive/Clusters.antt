-- ===== src/Governance/Sensitive/Clusters.antt =====
-- sensitive_data.py: the findings that `merge` makes of overlapping ones.
use supervisor_agent.Base.{
  inr, inl, ℕ, String, ◌≤◌, true, ◌≡◌, List, [], ◌∷◌, ◌++◌, map, min, ltb, All, All-append, arith,
  Bool-cases, ltb→ge,
}
use supervisor_agent.Base.Sort.{sort, Sorted, sort-Sorted}
use supervisor_agent.Governance.Sensitive.{
  Finding, max_stop, min_start, by_place, clusters, merge_cluster, merge_sorted, merge,
}

-- Every finding starts no earlier than `lo`.
abbrev Above : ℕ → List Finding → Type 0
Above lo = All (λ f. lo ≤ f.start)

-- Each finding ends before all that follow it start.
abbrev pub Disjoint : List Finding → Type 0
Disjoint [] = Unit
Disjoint (x ∷ xs) = Above x.stop xs × Disjoint xs

abbrev Ordered : List Finding → Type 0
Ordered [] = Unit
Ordered (x ∷ xs) = Above x.start xs × Ordered xs

Above-mono : (l m : ℕ) (fs : List Finding) → l ≤ m → Above m fs → Above l fs
Above-mono l m [] h k = tt
Above-mono l m (f ∷ fs) h (k, r) = (omega arith, Above-mono l m fs h r)

min_start-Above : (lo s : ℕ) (fs : List Finding) → lo ≤ s → Above lo fs → lo ≤ min_start s fs
min_start-Above lo s [] h k = h
min_start-Above lo s (f ∷ fs) h (k, r) = min_start-Above lo (min s f.start) fs (omega arith) r

module _ (text : String) where
  clusters-Above :
      (lo : ℕ) (first : Finding) (rest fs : List Finding)
      → lo ≤ first.start
      → Above lo rest
      → Above lo fs
      → Above lo (map (merge_cluster text) (clusters first rest fs))
  unfolding clusters merge_cluster
  clusters-Above lo first rest [] h k r = (min_start-Above lo first.start rest h k, tt)
  clusters-Above lo first rest (f ∷ fs) h k (p, r) =
      elim (Bool-cases (ltb f.start (max_stop (first ∷ rest)))) [
        | inl within ↦
            rw (clusters, within)
              (clusters-Above lo first (rest ++ f ∷ []) fs h
                (All-append (λ (g : Finding). lo ≤ g.start) rest (f ∷ []) k (p, tt)) r)
        | inr apart ↦
            rw (clusters, apart)
              (min_start-Above lo first.start rest h k, clusters-Above lo f [] fs p tt r)
      ]

  clusters-Disjoint :
      (first : Finding) (rest fs : List Finding)
      → Ordered fs
      → Disjoint (map (merge_cluster text) (clusters first rest fs))
  unfolding clusters merge_cluster
  clusters-Disjoint first rest [] h = (tt, tt)
  clusters-Disjoint first rest (f ∷ fs) (h, k) =
      elim (Bool-cases (ltb f.start (max_stop (first ∷ rest)))) [
        | inl within ↦ rw (clusters, within) (clusters-Disjoint first (rest ++ f ∷ []) fs k)
        | inr apart ↦
            let past = ltb→ge f.start (max_stop (first ∷ rest)) apart in
            rw (clusters, apart)
              (
                clusters-Above (max_stop (first ∷ rest)) f [] fs past tt
                    (Above-mono _ f.start fs past h),
                clusters-Disjoint f [] fs k,
              )
      ]

Ordered-of_Sorted : (fs : List Finding) → Sorted by_place fs → Ordered fs
Ordered-of_Sorted [] h = tt
Ordered-of_Sorted (f ∷ fs) (h, k) = (starts fs h, Ordered-of_Sorted fs k)
  where
    starts : (gs : List Finding) → All (λ g. by_place f g ≡ true) gs → Above f.start gs
    starts [] h = tt
    starts (g ∷ gs) (p, r) = (ground arith, starts gs r)

merge_sorted-Disjoint :
    (text : String) (fs : List Finding) → Ordered fs → Disjoint (merge_sorted text fs)
unfolding merge_sorted
merge_sorted-Disjoint text [] h = tt
merge_sorted-Disjoint text (f ∷ fs) (h, k) = clusters-Disjoint text f [] fs k

-- Whatever overlaps the shapes of the catalogue find, the merged findings stand in the order of
-- the text, and each ends before all that follow it start: the masks put over them cannot cut one
-- another.
pub merge-Disjoint : (raw : List Finding) (text : String) → Disjoint (merge raw text)
unfolding merge
merge-Disjoint raw text = merge_sorted-Disjoint text (sort by_place raw) (
    Ordered-of_Sorted (sort by_place raw)
      (sort-Sorted by_place (λ a b h. ground arith) (λ a b c h k. ground arith) raw))

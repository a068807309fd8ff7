-- ===== src/Governance/Sensitive.antt =====
-- sensitive_data.py: the findings of the catalogue, their merging and masking, and the redaction of
-- what is persisted. The catalogue's regular expressions are an argument: `matches` lists, for a
-- text and the wanted categories, the values that the shapes accept, each with its place.
pub mod Redaction
pub mod Clusters
pub mod Luhn
use supervisor_agent.Base.{
  ℕ, zero, suc, ◌+◌, ◌-◌, String, ◌<>◌, Bool, true, false, ◌&&◌, ◌||◌, List, [], ◌∷◌, ◌++◌, map,
  keep, any, length, max, min, ltb, leb, eqb, elem, is_empty, if◌then◌else◌,
}
use supervisor_agent.Base.Text.{prefix, drop_prefix, truthy}
use supervisor_agent.Base.Sort.{sort}
use supervisor_agent.State.{Entry}

pub data Category : Type 0 where
  credential secret_assignment government_id payment bank health_id health_condition person contact
        dob network :
      Category

abbrev pub category_index : Category → ℕ
category_index credential = 0
category_index secret_assignment = 1
category_index government_id = 2
category_index payment = 3
category_index bank = 4
category_index health_id = 5
category_index health_condition = 6
category_index person = 7
category_index contact = 8
category_index dob = 9
category_index network = 10

abbrev pub same_category : Category → Category → Bool
same_category c d = eqb (category_index c) (category_index d)

abbrev pub has_category : List Category → Category → Bool
has_category cs c = any (same_category c) cs

abbrev pub categories : List Category
categories =
    credential ∷ secret_assignment ∷ government_id ∷ payment ∷ bank ∷ health_id ∷ health_condition
    ∷ person ∷ contact ∷ dob ∷ network ∷ []

abbrev pub never_allow : List Category
never_allow = credential ∷ secret_assignment ∷ government_id ∷ payment ∷ bank ∷ health_id ∷ []

abbrev pub pii_tier : List Category
pii_tier = person ∷ contact ∷ dob ∷ health_condition ∷ []

abbrev pub bulk_categories : List Category
bulk_categories = never_allow

-- `_TIER_RANK`: the later entry of SECRET_ASSIGNMENT wins.
abbrev pub tier_rank : Category → ℕ
tier_rank secret_assignment = 1
tier_rank health_condition = 2
tier_rank person = 2
tier_rank contact = 2
tier_rank dob = 2
tier_rank network = 3
tier_rank other = 0

pub record Finding : Type 0 where
  pub label : String
  pub category : Category
  pub start : ℕ
  pub stop : ℕ
  pub value : String
  pub labels : List String
  pub categories : List Category

abbrev pub placeholder : Finding → String
placeholder f = "[redacted:" <> (f.label <> "]")

-- `text[start:stop]`
abbrev pub span : String → ℕ → ℕ → String
span text start stop = prefix (drop_prefix text start) (stop - start)

abbrev pub max_stop : List Finding → ℕ
max_stop [] = 0
max_stop (f ∷ fs) = max f.stop (max_stop fs)

abbrev pub min_start : ℕ → List Finding → ℕ
min_start s [] = s
min_start s (f ∷ fs) = min_start (min s f.start) fs

-- `raw.sort(key=lambda f: (f.start, f.end))`
abbrev pub by_place : Finding → Finding → Bool
by_place a b = ltb a.start b.start || (eqb a.start b.start && leb a.stop b.stop)

-- The clusters of overlapping findings; `current` is the last one.
pub clusters : Finding → List Finding → List Finding → List (Finding × List Finding)
clusters first rest [] = (first, rest) ∷ []
clusters first rest (f ∷ fs) = elim (ltb f.start (max_stop (first ∷ rest))) [
  | true ↦ clusters first (rest ++ f ∷ []) fs
  | false ↦ (first, rest) ∷ clusters f [] fs
]

-- The key `(rank, -(end - start), start)` of `b` is below that of `a`.
abbrev stronger : Finding → Finding → Bool
stronger b a =
    ltb (tier_rank b.category) (tier_rank a.category)
    || (eqb (tier_rank b.category) (tier_rank a.category)
        && (ltb (a.stop - a.start) (b.stop - b.start)
            || (eqb (a.stop - a.start) (b.stop - b.start) && ltb b.start a.start)))

pub primary : Finding → List Finding → Finding
primary best [] = best
primary best (f ∷ fs) = primary (if stronger f best then f else best) fs

distinct_labels : List String → List Finding → List String
distinct_labels seen [] = []
distinct_labels seen (f ∷ fs) = elim (elem f.label seen) [
  | true ↦ distinct_labels seen fs
  | false ↦ f.label ∷ distinct_labels (f.label ∷ seen) fs
]

distinct_categories : List Category → List Finding → List Category
distinct_categories seen [] = []
distinct_categories seen (f ∷ fs) = elim (has_category seen f.category) [
  | true ↦ distinct_categories seen fs
  | false ↦ f.category ∷ distinct_categories (f.category ∷ seen) fs
]

pub merge_cluster : String → Finding × List Finding → Finding
merge_cluster text (first, rest) =
    let best = primary first rest in
    let start = min_start first.start rest in
    let stop = max_stop (first ∷ rest) in
    record {
      label = best.label;
      category = best.category;
      start = start;
      stop = stop;
      value = span text start stop;
      labels = distinct_labels [] (first ∷ rest);
      categories = distinct_categories [] (first ∷ rest);
    }

merge_sorted : String → List Finding → List Finding
merge_sorted text [] = []
merge_sorted text (f ∷ fs) = map (merge_cluster text) (clusters f [] fs)

unfoldable pub merge : List Finding → String → List Finding
unfolding merge_sorted merge_cluster clusters primary distinct_labels distinct_categories
merge raw text = merge_sorted text (sort by_place raw)

mask_all : String → List Finding → String
mask_all out [] = out
mask_all out (f ∷ fs) =
    mask_all (prefix out f.start <> (placeholder f <> drop_prefix out f.stop)) fs

-- Right to left.
unfoldable pub mask : String → List Finding → String
unfolding mask_all
mask text findings = mask_all text (sort (λ a b. leb b.start a.start) findings)

abbrev pub Matches : Type 0
Matches = String → List Category → List Finding

-- `scan`; None for the categories is every category.
unfoldable pub scan : Matches → String → List Category → List Finding
scan matches text wanted = if truthy text then merge (matches text wanted) text else []

-- `[c for c in NEVER_ALLOW if c in set(categories)]`
abbrev pub withheld_only : List Category → List Category
withheld_only wanted = keep (λ c. has_category wanted c) never_allow

module _ (matches : Matches) (wanted : List Category) where
  abbrev wanted_in : ℕ → List Category
  wanted_in zero = wanted
  wanted_in (suc round) = withheld_only wanted

  -- The sweeps that are left, the number of the next one.
  pub sweep : ℕ → ℕ → String → List Finding → String × List Finding
  sweep zero round out found = (out, found)
  sweep (suc left) round out found =
      let fresh = scan matches out (wanted_in round) in
      let again = sweep left (suc round) (mask out fresh) (found ++ fresh) in
      if is_empty fresh then (out, found) else again

  unfoldable pub redact : String → String × List Finding
  unfolding sweep
  redact text = sweep 3 0 text []

-- `redact_text(text)`, with the PII tier
unfoldable pub redact_text : Matches → String → String × ℕ
redact_text matches text =
    let found = redact matches categories text in
    if truthy text then (found.0, length found.1) else ("", 0)

-- `redact_structure` of a trail: the texts of each entry, timestamps among them, which hold no
-- shape of the catalogue's and are left as they are here.
abbrev redact_entry : Matches → Entry → Entry × ℕ
redact_entry matches e =
    let stage = redact_text matches e.stage in
    let decision = redact_text matches e.decision in
    let detail = redact_text matches e.detail in
    (
      record e { stage = stage.0; decision = decision.0; detail = detail.0 },
      stage.1 + decision.1 + detail.1,
    )

unfoldable pub redact_trail : Matches → List Entry → List Entry × ℕ
redact_trail matches [] = ([], 0)
redact_trail matches (e ∷ es) =
    let first = redact_entry matches e in
    let rest = redact_trail matches es in (first.0 ∷ rest.0, first.1 + rest.1)

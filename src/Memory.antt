-- ===== src/Memory.antt =====
-- src/supervisor/memory.py: the validated, expiring context of a user across conversations.
-- The store keeps one bag a user; values are JSON, since another writer may have written them.
pub mod Boundary
use Prim.Native.Char.{code}
use supervisor_agent.Base.{
  ℕ, ◌-◌, ◌<>◌, String, Bool, true, false, not, ◌&&◌, ◌||◌, Option, none, some, List, [], ◌∷◌, elem,
  length, ltb, leb, eqb, count, is_empty, if◌then◌else◌,
}
use supervisor_agent.Base.Text.{strip, lower, split, truthy}
use supervisor_agent.Base.Dict.{Dict, lookup, insert, merge}
use supervisor_agent.Worker.Json.{Json, null, boolean, number, str, arr, obj}

abbrev pub max_value_length : ℕ
max_value_length = 60

abbrev pub max_value_words : ℕ
max_value_words = 4

abbrev imperative_openers : List String
imperative_openers =
    "act" ∷ "allow" ∷ "always" ∷ "answer" ∷ "approve" ∷ "bypass" ∷ "disregard" ∷ "escalate"
    ∷ "execute" ∷ "follow" ∷ "forget" ∷ "forward" ∷ "give" ∷ "grant" ∷ "ignore" ∷ "make" ∷ "never"
    ∷ "obey" ∷ "override" ∷ "pretend" ∷ "reject" ∷ "reply" ∷ "respond" ∷ "return" ∷ "route" ∷ "run"
    ∷ "say" ∷ "send" ∷ "set" ∷ "skip" ∷ "tell" ∷ "treat" ∷ "use" ∷ []

is_alnum : ℕ → Bool
is_alnum c = (leb b'A' c && leb c b'Z') || (leb b'a' c && leb c b'z') || (leb b'0' c && leb c b'9')

-- The class `[A-Za-z0-9 \-_./+&]`.
is_value_char : ℕ → Bool
unfolding is_alnum
is_value_char c =
    is_alnum c
    || eqb c 32
    || eqb c b'-'
    || eqb c b'_'
    || eqb c b'.'
    || eqb c b'/'
    || eqb c b'+'
    || eqb c b'&'

all_value_chars : String → Bool
unfolding is_value_char
all_value_chars String.[] = true
all_value_chars (String.◌∷◌ c s) = is_value_char (code c) && all_value_chars s

-- `_VALUE_PATTERN.match`, on a text that was stripped and so ends in no line feed.
unfoldable pub is_value : String → Bool
unfolding all_value_chars
is_value String.[] = false
is_value (String.◌∷◌ c s) = is_alnum (code c) && all_value_chars s && leb (count s) 59

-- The name of a value's Python type, and the value where it is a text.
abbrev type_name : Json → String
type_name null = "NoneType"
type_name (boolean b) = "bool"
type_name (number n) = "int"
type_name (str s) = "str"
type_name (arr xs) = "list"
type_name (obj fs) = "dict"

abbrev first_lower : List String → String
first_lower [] = ""
first_lower (w ∷ ws) = lower w

-- Why a text may not be kept, or "".
unfoldable pub validate_text : String → String
unfolding is_value
validate_text value =
    if not (truthy (strip value))
    then "value is empty"
    else if ltb max_value_length (count value)
    then "value exceeds 60 characters"
    else if not (is_value (strip value))
    then "value is not a plain identifier"
    else if ltb max_value_words (length (split value))
    then "value is prose, not a label (over 4 words)"
    else if ltb 1 (length (split value)) && elem (first_lower (split value)) imperative_openers
    then "value opens with an instruction verb, not a label"
    else ""

abbrev validate_value : Json → String
validate_value (str value) = validate_text value
validate_value other = "value is " <> (type_name other <> ", not a string")

-- `_validate`
unfoldable pub validate : String → Json → List String → String
unfolding validate_text
validate key value allowed =
    if not (elem key allowed)
    then "key is not a declared required_context key"
    else validate_value value

-- One user's bag: the values, and the sibling map of write stamps (wall clock). A stamp that is no
-- number is left out.
pub record Bag : Type 0 where
  pub entries : Dict Json
  pub stamps : Dict ℕ

abbrev pub Store : Type 0
Store = Dict Bag

abbrev pub empty_bag : Bag
empty_bag = record { entries = []; stamps = [] }

-- `_read`
abbrev pub read : Store → String → Bag
read store user_key = elim (lookup user_key store) [ none ↦ empty_bag | some bag ↦ bag ]

-- `_expired`
unfoldable pub expired : ℕ → String → Dict ℕ → ℕ → Bool
expired ttl key stamps now =
    if eqb ttl 0
    then false
    else elim (lookup key stamps) [ none ↦ true | some written ↦ not (leb (now - written) ttl) ]

abbrev wanted_key : Option (List String) → String → Bool
wanted_key none key = true
wanted_key (some keys) key = elem key keys

abbrev stripped : Json → String
stripped (str s) = strip s
stripped other = ""

-- Whether an entry is read back: it is wanted, valid and fresh.
unfoldable pub readable : List String → ℕ → Option (List String) → Dict ℕ → ℕ → String → Json → Bool
unfolding validate expired
readable allowed ttl wanted stamps now key value =
    wanted_key wanted key
    && not (truthy (validate key value allowed))
    && not (expired ttl key stamps now)

module _ (allowed : List String) (ttl : ℕ) where
  pub safe_entries : Option (List String) → Dict ℕ → ℕ → Dict Json → Dict String
  safe_entries wanted stamps now [] = []
  safe_entries wanted stamps now ((key, value) ∷ rest) =
      let others = safe_entries wanted stamps now rest in
      if readable allowed ttl wanted stamps now key value
      then (key, stripped value) ∷ others
      else others

  unfoldable pub get_context : Store → String → Option (List String) → ℕ → Dict String
  unfolding safe_entries readable
  get_context store user_key wanted now =
      if not (truthy user_key)
      then []
      else safe_entries wanted (read store user_key).stamps now (read store user_key).entries

pub record MemoryWrite : Type 0 where
  pub stored : Dict String
  pub rejected : Dict String

abbrev pub nothing_written : MemoryWrite
nothing_written = record { stored = []; rejected = [] }

-- The loop of `save_context`.
abbrev pub sift : List String → Dict String → MemoryWrite
sift allowed [] = nothing_written
sift allowed ((key, value) ∷ rest) =
    let reason = validate key (str value) allowed in
    let others = sift allowed rest in
    if truthy reason
    then record others { rejected = (key, reason) ∷ others.rejected }
    else record others { stored = (key, strip value) ∷ others.stored }

-- `{key: (now if key in stored else stamps.get(key, now)) for key in merged}`
abbrev stamp_of : Dict String → Dict ℕ → ℕ → String → ℕ
stamp_of stored stamps now key = elim (lookup key stored) [
  | some v ↦ now
  | none ↦ elim (lookup key stamps) [ none ↦ now | some t ↦ t ]
]

restamp : Dict String → Dict ℕ → ℕ → Dict String → Dict ℕ
restamp stored stamps now [] = []
restamp stored stamps now ((key, value) ∷ rest) =
    (key, stamp_of stored stamps now key) ∷ restamp stored stamps now rest

texts : Dict String → Dict Json
texts [] = []
texts ((key, value) ∷ rest) = (key, str value) ∷ texts rest

new_bag : Dict String → Dict String → Dict ℕ → ℕ → Bag
new_bag surviving stored stamps now = record {
  entries = texts (merge surviving stored);
  stamps = restamp stored stamps now (merge surviving stored);
}

unfoldable pub save_context :
    List String → ℕ → Store → String → Dict String → ℕ → MemoryWrite × Store
unfolding new_bag texts restamp get_context
save_context allowed ttl store user_key context now =
    if not (truthy user_key) || is_empty context
    then (nothing_written, store)
    else let write = sift allowed context in
      if is_empty write.stored then (write, store) else (
        write,
        insert user_key
            (new_bag (get_context allowed ttl store user_key none now) write.stored
              (read store user_key).stamps now)
            store,
      )

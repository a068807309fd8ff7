-- ===== src/Governance/Sanitize.antt =====
-- sanitize.py: what untrusted text loses before a model or a user sees it. The patterns are given
-- by their text; `_FENCE` is compiled with MULTILINE. The class of control characters is a list of
-- ranges, as in the source.
pub mod Inbound
use Prim.Native.Char.{code}
use text.Mathlib.Text.{starts_with}
use supervisor_agent.Base.{
  ℕ, suc, ◌+◌, ◌-◌, ◌*◌, ◌/◌, String, ◌<>◌, Bool, ◌&&◌, ◌||◌, Option, none, some, List, [], ◌∷◌,
  ◌++◌, any, count, ltb, leb, eqb, if◌then◌else◌,
}
use supervisor_agent.Base.Text.{strip, rstrip, prefix, drop_prefix, truthy, join, decimal}
use supervisor_agent.Governance.DenyRules.{Regex}

abbrev control_ranges : List (ℕ × ℕ)
control_ranges =
    (0x00, 0x08)
    ∷ (0x0b, 0x0c)
    ∷ (0x0e, 0x1f)
    ∷ (0x7f, 0x9f)
    ∷ (0x200b, 0x200f)
    ∷ (0x202a, 0x202e)
    ∷ (0x2066, 0x2069)
    ∷ (0xfeff, 0xfeff)
    ∷ []

unfoldable pub is_control : ℕ → Bool
is_control c = any (λ r. leb r.0 c && leb c r.1) control_ranges

-- `_CONTROL_CHARS.sub("", text)`, and the count of `subn`
unfoldable pub without_control : String → String
unfolding is_control
without_control String.[] = String.[]
without_control (String.◌∷◌ c s) =
    if is_control (code c) then without_control s else String.◌∷◌ c (without_control s)

unfoldable pub control_count : String → ℕ
unfolding is_control
control_count String.[] = 0
control_count (String.◌∷◌ c s) =
    if is_control (code c) then suc (control_count s) else control_count s

abbrev role_marker : String
role_marker =
    "(?im)^[ \\t>*_#-]*(system|assistant|user|human|ai|developer|tool|function|other)[ \\t]*:[ \\t]*"

abbrev template_marker : String
template_marker =
    "(?i)<\\|[a-z_]{0,32}\\|>|<\\/?(?:system|assistant|user|human|im_start|im_end)>|\\[/?INST\\]|\\[/?SYS\\]|###\\s*(?:system|instruction)s?\\s*:?"

abbrev embedded_directive : String
embedded_directive =
    "(?:\\b(?:NOTE|INSTRUCTIONS?|MESSAGE|ATTENTION|IMPORTANT)\\s+(?:TO|FOR)\\s+(?:THE\\s+)?(?:ASSISTANT|AI|MODEL|SUPERVISOR|SYSTEM|AGENT|LLM)\\s*:|(?<![\\w/])(?:SYSTEM|ASSISTANT|SUPERVISOR|LLM|DEVELOPER)\\s*:(?=\\s*[A-Za-z\\[(])|(?<![\\w/])(?i:supervisor|assistant|system|admin|ai|developer|operator)\\s*:(?=\\s*(?i:treat|ignore|reveal|override|skip|disregard|approve|bypass|forget|output|print|disclose|you\\s+are|from\\s+now|do\\s+not|grant|execute)\\b(?!-))|\\[(?:INJECTED|INJECTION|SYSTEM|ADMIN|OVERRIDE)\\])"

abbrev fence : String
fence = "^[ \\t]*(?:```|~~~)"

abbrev pub truncation_note : String
truncation_note = "\n\n[… truncated: the agent's response exceeded the size limit.]"

pub record CleanOutput : Type 0 where
  pub text : String
  pub original_length : ℕ
  pub truncated : Bool
  pub control_characters : ℕ
  pub role_markers : ℕ
  pub template_markers : ℕ
  pub code_blocks : ℕ

unfoldable pub modified : CleanOutput → Bool
modified c =
    c.truncated || ltb 0 c.control_characters || ltb 0 c.role_markers || ltb 0 c.template_markers

abbrev pub when_some : ℕ → String → List String
when_some n note = if ltb 0 n then (decimal n <> note) ∷ [] else []

unfoldable pub audit_detail : CleanOutput → String
audit_detail c = join "; " (
    ((decimal c.original_length <> " chars")
      ∷ (if c.truncated then ("truncated to " <> decimal (count c.text)) ∷ [] else []))
    ++ (when_some c.control_characters " control char(s) stripped"
        ++ (when_some c.role_markers " impersonated turn marker(s) neutralised"
            ++ (when_some c.template_markers " chat-template marker(s) neutralised"
                ++ when_some c.code_blocks " code block(s) surfaced for review"))))

-- `found.replace(":", " -", 1)`
unfoldable pub replace_colon : String → String
replace_colon String.[] = String.[]
replace_colon (String.◌∷◌ c s) =
    if eqb (code c) b':' then " -" <> s else String.◌∷◌ c (replace_colon s)

-- `found[:-1]`
drop_last : String → String
drop_last s = prefix s (count s - 1)

unfoldable pub neutralise_directive : String → String
unfolding drop_last replace_colon
neutralise_directive found =
    if starts_with found "["
    then "(" <> (drop_last (drop_prefix found 1) <> ")")
    else replace_colon found

-- `window.rfind(needle)`, `none` for -1
pub rfind : String → String → Option ℕ
rfind needle String.[] = none
rfind needle (String.◌∷◌ c s) = elim (rfind needle s) [
  | some i ↦ some (suc i)
  | none ↦ if starts_with (String.◌∷◌ c s) needle then some 0 else none
]

later_of : Option ℕ → Option ℕ → Option ℕ
later_of none b = b
later_of (some i) none = some i
later_of (some i) (some j) = if ltb i j then some j else some i

-- Where to cut: at a line boundary in the last fifth, else at the limit.
pub cut_at : String → ℕ → ℕ
cut_at window max_chars = elim (later_of (rfind "\n\n" window) (rfind "\n" window)) [
  | none ↦ max_chars
  | some cut ↦ if ltb (5 * cut) (4 * max_chars) then max_chars else cut
]

pub too_long : String → ℕ → Bool
too_long cleaned max_chars = ltb 0 max_chars && ltb max_chars (count cleaned)

pub bounded : String → ℕ → String
bounded cleaned max_chars =
    if too_long cleaned max_chars
    then rstrip (prefix cleaned (cut_at (prefix cleaned max_chars) max_chars)) <> truncation_note
    else cleaned

module _ (re : Regex) where
  unfoldable pub neutralise_embedded_directives : String → String × ℕ
  neutralise_embedded_directives text =
      if truthy text then re.subn embedded_directive neutralise_directive text else ("", 0)

  without_markers : String → String
  without_markers cleaned =
      let roles = (re.subn role_marker replace_colon cleaned).0 in
      let directives = (re.subn embedded_directive neutralise_directive roles).0 in
      (re.subn template_marker (λ m. " ") directives).0

  unfoldable pub neutralise_history_text : String → String
  unfolding without_markers without_control
  neutralise_history_text text = if truthy text then without_markers (without_control text) else ""

  unfoldable pub clean_worker_output : String → ℕ → CleanOutput
  unfolding bounded too_long cut_at rfind later_of without_control control_count
  clean_worker_output raw max_chars =
      let control = without_control raw in
      let role = re.subn role_marker replace_colon control in
      let directive = re.subn embedded_directive neutralise_directive role.0 in
      let template = re.subn template_marker (λ m. " ") directive.0 in
      record {
        text = strip (bounded template.0 max_chars);
        original_length = count raw;
        truncated = too_long template.0 max_chars;
        control_characters = control_count raw;
        role_markers = role.1 + directive.1;
        template_markers = template.1;
        code_blocks = re.count_all fence control / 2;
      }

unfoldable pub clean_inbound_text : String → String
unfolding without_control
clean_inbound_text text = without_control text

-- ===== src/Worker/Response.antt =====
-- worker_client.py: what the supervisor reads out of a worker's reply.
use supervisor_agent.Base.{
  String, Bool, false, List, [], ◌∷◌, ◌++◌, ◌==◌, if◌then◌else◌, is_empty, keep,
}
use supervisor_agent.Base.Text.{strip, join, truthy}
use supervisor_agent.Base.Result.{Result, ok, raised, other_error, ◌>>=◌}
use supervisor_agent.Worker.Json.{
  Json, null, str, arr, obj, nil, Fields, items_list, is_object, truthy_json, field_or, get_json,
  or_object, iterate, first_item, json_text,
}

pub data WorkerStatus : Type 0 where
  completed approval_pending : WorkerStatus

abbrev pub status_text : WorkerStatus → String
status_text completed = "completed"
status_text approval_pending = "approval_pending"

-- `stage` and the sources stay as the worker sent them.
pub record WorkerResponse : Type 0 where
  pub text : String
  pub status : WorkerStatus
  pub stage : Json
  pub sources : List Json

is_text : Json → String → Bool
is_text (str s) t = s == t
is_text other t = false

-- `[c.get("text", "") for c in content if isinstance(c, dict)]`
texts_of : List Json → List Json
texts_of [] = []
texts_of (obj fs ∷ rest) = field_or fs "text" (str "") ∷ texts_of rest
texts_of (other ∷ rest) = texts_of rest

content_parts : Json → List Json
content_parts (str s) = str s ∷ []
content_parts (arr xs) = texts_of (items_list xs)
content_parts other = []

-- The parts that one output item adds.
item_parts : Json → List Json
item_parts (obj fs) =
    if is_text (field_or fs "type" null) "message"
    then content_parts (field_or fs "content" null)
    else []
item_parts other = []

output_parts : List Json → List Json
output_parts [] = []
output_parts (item ∷ rest) = item_parts item ++ output_parts rest

-- The texts among the parts that are not empty; a part of another type cannot be joined.
part_texts : List Json → Result (List String)
part_texts [] = ok []
part_texts (str s ∷ rest) = do
  others ← part_texts rest
  ok (if truthy s then s ∷ others else others)
part_texts (other ∷ rest) =
    if truthy_json other
    then raised (other_error "TypeError" "sequence item: expected str instance")
    else part_texts rest

module _ (repr : Json → String) where
  -- `str((choices[0].get("message") or {}).get("content", "")).strip()`
  choice_text : Json → Result String
  choice_text choices = do
    first ← first_item choices
    message ← get_json first "message" null
    content ← get_json (or_object message) "content" (str "")
    ok (strip (json_text repr content))

  last_message_text : List Json → Result String
  last_message_text [] = ok ""
  last_message_text (m ∷ []) = do
    content ← get_json m "content" (str "")
    ok (strip (json_text repr content))
  last_message_text (m ∷ ms) = last_message_text ms

  message_text : Json → Result String
  message_text (arr xs) = last_message_text (items_list xs)
  message_text other = ok ""

  unfoldable pub extract_text : Fields → Result String
  unfolding output_parts item_parts content_parts texts_of is_text part_texts choice_text
      message_text last_message_text
  extract_text raw = do
    items ← iterate (field_or raw "output" (arr nil))
    if is_empty (output_parts items)
        then (if truthy_json (field_or raw "choices" null)
            then choice_text (field_or raw "choices" null)
            else message_text (field_or raw "messages" null))
        else (do texts ← part_texts (output_parts items); ok (strip (join "\n" texts)))

  unfoldable pub parse_worker_response : Fields → Result WorkerResponse
  unfolding extract_text
  parse_worker_response raw = do
    text ← extract_text raw
    sources ← get_json (or_object (field_or raw "custom_outputs" null)) "sources" null
    items ← iterate sources
    hitl ← get_json (or_object (field_or raw "custom_outputs" null)) "hitl" null
    status ← get_json (or_object hitl) "status" null
    stage ← get_json (or_object hitl) "stage" null
    ok (
        if is_text status "pending_approval"
        then record {
          text = text;
          status = approval_pending;
          stage = stage;
          sources = keep is_object items;
        }
        else record {
          text = text;
          status = completed;
          stage = null;
          sources = keep is_object items;
        })

-- ===== src/Worker/Json.antt =====
-- JSON values as Python reads them, and the operations that the response parser makes on them.
-- A number is kept as its text. What raises in Python is an exception here.
use supervisor_agent.Base.{
  String, Bool, true, false, Option, none, some, List, [], ◌∷◌, ◌==◌, if◌then◌else◌,
}
use supervisor_agent.Base.Text.{truthy}
use supervisor_agent.Base.Result.{Result, ok, raised, other_error}

mutual
  pub data Json : Type 0 where
    null : Json
    boolean : Bool → Json
    number : String → Json
    str : String → Json
    arr : Items → Json
    obj : Fields → Json

  pub data Items : Type 0 where
    nil : Items
    cons : Json → Items → Items

  pub data Fields : Type 0 where
    end : Fields
    field : String → Json → Fields → Fields

abbrev pub items_list : Items → List Json
items_list nil = []
items_list (cons x xs) = x ∷ items_list xs

abbrev pub is_object : Json → Bool
is_object (obj fs) = true
is_object _ = false

-- `bool(value)`; the parser of the service gives 0 as the text "0".
abbrev pub truthy_json : Json → Bool
truthy_json null = false
truthy_json (boolean b) = b
truthy_json (number n) = if n == "0" then false else true
truthy_json (str s) = truthy s
truthy_json (arr nil) = false
truthy_json (arr (cons x xs)) = true
truthy_json (obj end) = false
truthy_json (obj (field k v fs)) = true

abbrev pub lookup_field : String → Fields → Option Json
lookup_field k end = none
lookup_field k (field j v fs) = if k == j then some v else lookup_field k fs

-- `fields.get(key, default)`
abbrev pub field_or : Fields → String → Json → Json
field_or fs k default = elim (lookup_field k fs) [ none ↦ default | some v ↦ v ]

abbrev no_get : Result Json
no_get = raised (other_error "AttributeError" "object has no attribute 'get'")

-- `value.get(key, default)`
abbrev pub get_json : Json → String → Json → Result Json
get_json (obj fs) k default = ok (field_or fs k default)
get_json other k default = no_get

-- `value or {}`
abbrev pub or_object : Json → Json
or_object v = if truthy_json v then v else obj end

-- What `for x in value or []` goes through. The characters of a text and the keys of a mapping
-- are texts, which no caller keeps.
abbrev pub iterate : Json → Result (List Json)
iterate null = ok []
iterate (boolean false) = ok []
iterate (boolean true) = raised (other_error "TypeError" "'bool' object is not iterable")
iterate (number n) =
    if n == "0" then ok [] else raised (other_error "TypeError" "'int' object is not iterable")
iterate (str s) = ok []
iterate (arr xs) = ok (items_list xs)
iterate (obj fs) = ok []

-- `value[0]` of a truthy value
abbrev pub first_item : Json → Result Json
first_item (arr (cons x xs)) = ok x
first_item (arr nil) = raised (other_error "IndexError" "list index out of range")
first_item (str s) = ok (str s)
first_item (obj fs) = raised (other_error "KeyError" "0")
first_item other = raised (other_error "TypeError" "object is not subscriptable")

-- `str(value)`. The text of a container is an argument: no caller looks into it.
abbrev pub json_text : (Json → String) → Json → String
json_text repr null = "None"
json_text repr (boolean true) = "True"
json_text repr (boolean false) = "False"
json_text repr (number n) = n
json_text repr (str s) = s
json_text repr other = repr other

-- ===== src/Schemas.antt =====
-- src/suns_chan/schemas.py: a decoded JSON value becomes a decision, or a DecisionValidationError,
-- which is a ValueError. A number is one of ten-thousandths, so that rounding it to four decimals
-- leaves it alone.
pub mod Checked
use sunns_chan.Prelude.{
  ℕ, suc, String, Bool, true, false, not, ◌&&◌, ◌||◌, Option, none, some, List, [], ◌∷◌,
  if◌then◌else◌, is_blank, fstring, str, Error, value_error, message, Result, ok, err,
}
use sunns_chan.Prelude.Int.{ℤ, pos, leb_ℤ}
use sunns_chan.Prelude.Json.{
  Json, null, bool, int, float, text, arr, obj, Items, nil, cons, Fields, end, field, get_field,
  get_field_or, as_number, texts,
}
use sunns_chan.Policy.{ActionRequest}
use sunns_chan.Core.{Decision, GoalProposal}

-- A check that may raise, and what follows it.
unfoldable pub and_then {ℓ κ} : {A : Type ℓ} {B : Type κ} → Result A → (A → Result B) → Result B
and_then (ok a) f = f a
and_then (err e) f = err e

-- `isinstance(value, str) and value.strip()`
unfoldable pub as_filled : Option Json → Option String
as_filled (some (text s)) = if is_blank s then none else some s
as_filled _ = none

abbrev pub or_error {ℓ} : {A : Type ℓ} → Option A → String → Result A
or_error none m = err (value_error m)
or_error (some a) m = ok a

-- `_require_str`, where no empty text is allowed, as all its callers have it.
unfoldable pub require_str : Fields → String → Result String
require_str fields key =
    or_error (as_filled (get_field fields key))
      (fstring ("'" ∷ key ∷ "' must be a non-empty string" ∷ []))

-- `_require_confidence`
unfoldable pub require_confidence : Json → String → Result ℤ
require_confidence v key = elim (as_number v) [
  | none ↦ err (value_error (fstring ("'" ∷ key ∷ "' must be a number between 0 and 1" ∷ [])))
  | some z ↦
      if leb_ℤ (pos 0) z && leb_ℤ z (pos 10000)
      then ok z
      else err (value_error (fstring ("'" ∷ key ∷ "' must be between 0 and 1" ∷ [])))
]

unfoldable pub as_int : Json → Option ℤ
as_int (int z) = some z
as_int _ = none

-- The fields of an action.
unfoldable pub parse_action_fields : Fields → Result (Option ActionRequest)
parse_action_fields fields = and_then (require_str fields "name") λ name.
    and_then (require_str fields "risk") λ risk.
      and_then (require_str fields "description") λ description.
        and_then
          (or_error (as_filled (some (get_field_or fields "scope" (text "external"))))
            "'action.scope' must be a non-empty string")
          λ scope.
            and_then
              (or_error (as_int (get_field_or fields "estimated_cost" (int (pos 1))))
                "'action.estimated_cost' must be an integer")
              λ cost. ok (
                some (record {
                  name = name;
                  risk = risk;
                  description = description;
                  scope = scope;
                  estimated_cost = cost;
                }))

-- `_parse_action`, where an absent field is `None` too.
unfoldable pub parse_action : Json → Result (Option ActionRequest)
parse_action null = ok none
parse_action (obj fields) = parse_action_fields fields
parse_action _ = err (value_error "'action' must be an object or null")

unfoldable pub as_text : Json → Option String
as_text (text s) = some s
as_text _ = none

abbrev pub goal_label : ℕ → String → String
goal_label index rest = fstring ("'goals[" ∷ str index ∷ "]" ∷ rest ∷ [])

-- One goal of the list, at its index.
unfoldable pub parse_goal : ℕ → Json → Result GoalProposal
parse_goal index (obj item) = and_then (require_str item "title") λ title.
    and_then
      (or_error (as_text (get_field_or item "reason" (text "")))
        (goal_label index ".reason' must be a string"))
      λ reason.
        and_then
          (require_confidence (get_field_or item "priority" (float (pos 5000)))
            (goal_label index ".priority'"))
          λ priority. ok (record { title = title; reason = reason; priority = priority })
parse_goal index _ = err (value_error (goal_label index "' must be an object"))

unfoldable pub parse_goal_items : ℕ → Items → Result (List GoalProposal)
parse_goal_items index nil = ok []
parse_goal_items index (cons item items) =
    let rest = parse_goal_items (suc index) items in
    and_then (parse_goal index item) λ goal. and_then rest λ goals. ok (goal ∷ goals)

-- `_parse_goals`
unfoldable pub parse_goals : Json → Result (List GoalProposal)
parse_goals null = ok []
parse_goals (arr items) = parse_goal_items 0 items
parse_goals _ = err (value_error "'goals' must be a list")

abbrev pub bad_tags : Error
bad_tags = value_error "'interest_tags' must be a list of strings"

unfoldable pub parse_tag_items : Items → Result (List String)
parse_tag_items nil = ok []
parse_tag_items (cons (text t) items) =
    and_then (parse_tag_items items) λ tags. ok (if is_blank t then tags else t ∷ tags)
parse_tag_items (cons _ items) = err bad_tags

-- `_parse_tags`
unfoldable pub parse_tags : Json → Result (List String)
parse_tags null = ok []
parse_tags (arr items) = parse_tag_items items
parse_tags _ = err bad_tags

-- The fields of a decision, of which the expected outcome is any value.
unfoldable pub parse_fields : Fields → Result Decision
parse_fields fields = and_then (require_str fields "response") λ response.
    and_then (parse_action (get_field_or fields "action" null)) λ action.
      and_then (parse_goals (get_field_or fields "goals" null)) λ goals.
        and_then (parse_tags (get_field_or fields "interest_tags" null)) λ tags.
          and_then
            (require_confidence (get_field_or fields "confidence" (float (pos 5000))) "confidence")
            λ confidence. ok (record {
              response = response;
              action = action;
              goals = goals;
              interest_tags = tags;
              confidence = float confidence;
              expected_outcome = get_field_or fields "expected_outcome" (text "");
            })

-- `parse_decision`
unfoldable pub parse_decision : Json → Result Decision
parse_decision (obj fields) = parse_fields fields
parse_decision _ = err (value_error "decision must be a JSON object")

-- The last check of `parse_decision_json`
unfoldable pub check_outcome : Decision → Result Decision
check_outcome d =
    and_then (or_error (as_text d.expected_outcome) "'expected_outcome' must be a string") λ _. ok d

-- `parse_decision_json`: `loads` stands for `json.loads`, with the message of its exception.
unfoldable pub parse_decision_json : (String → Result Json) → String → Result Decision
parse_decision_json loads t = elim (loads t) [
  | err e ↦ err (value_error (fstring ("decision is not valid JSON: " ∷ message e ∷ [])))
  | ok v ↦ and_then (parse_decision v) check_outcome
]

abbrev typed : String → Fields → Json
typed t rest = obj (field "type" (text t) rest)

abbrev default_to : Json → Fields
default_to v = field "default" v end

-- The bounds of a share, and its default.
abbrev share_bounds : Fields
share_bounds =
    field "minimum" (int (pos 0)) (field "maximum" (int (pos 1)) (default_to (float (pos 5000))))

-- The `properties` of an action and of a goal in the schema.
abbrev action_properties : Fields
action_properties = field "name" (typed "string" end) (
    field "risk" (typed "string" end) (
      field "description" (typed "string" end) (
        field "scope" (typed "string" (default_to (text "external")))
          (field "estimated_cost" (typed "integer" (default_to (int (pos 1)))) end))))

abbrev goal_properties : Fields
goal_properties = field "title" (typed "string" end) (
    field "reason" (typed "string" (default_to (text "")))
      (field "priority" (typed "number" share_bounds) end))

abbrev decision_properties : Fields
decision_properties = field "response" (typed "string" (field "minLength" (int (pos 1)) end)) (
    field "action"
      (obj (
        field "type" (arr (texts ("object" ∷ "null" ∷ []))) (
          field "required" (arr (texts ("name" ∷ "risk" ∷ "description" ∷ [])))
            (field "properties" (obj action_properties) end))))
      (field "goals"
        (typed "array" (
          field "items"
            (typed "object" (
              field "required" (arr (texts ("title" ∷ [])))
                (field "properties" (obj goal_properties) end)))
            end))
        (field "interest_tags" (typed "array" (field "items" (typed "string" end) end)) (
          field "confidence" (typed "number" share_bounds)
            (field "expected_outcome" (typed "string" (default_to (text ""))) end)))))

-- `DECISION_JSON_SCHEMA`
abbrev pub decision_json_schema : Json
decision_json_schema = typed "object" (
    field "required" (arr (texts ("response" ∷ [])))
      (field "properties" (obj decision_properties) end))

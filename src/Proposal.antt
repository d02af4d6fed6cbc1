-- ===== src/Proposal.antt =====
-- `ExperimentProposal` and `validate_proposal` of src/suns_chan/sandbox_controller.py. `repr` and
-- `to_str` stand for Python's own on a decoded JSON value.
pub mod Valid
use sunns_chan.Prelude.{
  String, Bool, true, false, not, ◌&&◌, ◌||◌, Option, none, some, List, [], ◌∷◌, if◌then◌else◌,
  is_blank, strip, member, fstring, Error, value_error, Result, ok, err,
}
use sunns_chan.Prelude.Int.{ℤ, pos, leb_ℤ}
use sunns_chan.Prelude.Json.{
  Json, int, text, arr, obj, Items, nil, cons, Fields, get_field, get_field_or,
}
use sunns_chan.Schemas.{and_then, or_error, as_filled, as_int, as_text}
use sunns_chan.Vm.{network_modes}

pub record ExperimentProposal : Type 0 where
  pub goal : String
  pub hypothesis : String
  pub operations : List String
  pub expected_outcome : String
  pub time_budget_secs : ℤ
  pub network_mode : String
  pub vm_profile : String
  pub collect_paths : List String

abbrev pub require_text : Fields → String → Result String
require_text fields key =
    or_error (as_filled (get_field fields key))
      (fstring ("proposal." ∷ key ∷ " must be a non-empty string" ∷ []))

abbrev pub first_text : (String → Bool) → String → Option (List String) → Option (List String)
first_text test s none = none
first_text test s (some ss) = if test s then some (s ∷ ss) else none

-- The texts of an array that has nothing else in it, and that all pass a test.
unfoldable pub all_texts : (String → Bool) → Items → Option (List String)
all_texts test nil = some []
all_texts test (cons (text s) items) = first_text test s (all_texts test items)
all_texts test (cons _ items) = none

unfoldable pub as_texts : (String → Bool) → Json → Option (List String)
as_texts test (arr items) = all_texts test items
as_texts test _ = none

-- A list of commands: not empty, and no command is blank.
unfoldable pub as_commands : Option Json → Option (List String)
as_commands (some (arr (cons item items))) =
    as_texts (λ s. not (is_blank s)) (arr (cons item items))
as_commands _ = none

abbrev pub in_budget : ℤ → Bool
in_budget z = leb_ℤ (pos 60) z && leb_ℤ z (pos 86400)

unfoldable pub as_budget : Json → Option ℤ
as_budget (int z) = if in_budget z then some z else none
as_budget _ = none

unfoldable pub as_network_mode : Json → Option String
as_network_mode (text s) = if member s network_modes then some s else none
as_network_mode _ = none

unfoldable pub validate_fields :
    (Json → String) → (Json → String) → Fields → Result ExperimentProposal
validate_fields repr to_str fields = and_then (require_text fields "goal") λ goal.
    and_then (require_text fields "hypothesis") λ hypothesis.
      and_then (require_text fields "expected_outcome") λ expected_outcome.
        and_then
          (or_error (as_commands (get_field fields "operations"))
            "proposal.operations must be a non-empty list of command strings")
          λ operations.
            and_then
              (or_error (as_budget (get_field_or fields "time_budget_secs" (int (pos 600))))
                "proposal.time_budget_secs must be an integer between 60 and 86400")
              λ budget.
                and_then
                  (or_error (as_network_mode (get_field_or fields "network_mode" (text "isolated")))
                    (fstring (
                      "unknown network mode: "
                      ∷ repr (get_field_or fields "network_mode" (text "isolated"))
                      ∷ [])))
                  λ network_mode.
                    and_then
                      (or_error
                        (as_texts (λ _. true) (get_field_or fields "collect_paths" (arr nil)))
                        "proposal.collect_paths must be a list of strings")
                      λ collect_paths. ok (record {
                        goal = strip goal;
                        hypothesis = strip hypothesis;
                        operations = operations;
                        expected_outcome = strip expected_outcome;
                        time_budget_secs = budget;
                        network_mode = network_mode;
                        vm_profile = to_str (get_field_or fields "vm_profile" (text "default"));
                        collect_paths = collect_paths;
                      })

-- `validate_proposal`
unfoldable pub validate_proposal :
    (Json → String) → (Json → String) → Json → Result ExperimentProposal
validate_proposal repr to_str (obj fields) = validate_fields repr to_str fields
validate_proposal repr to_str _ = err (value_error "experiment proposal must be an object")

-- ===== src/Examples/Texts.antt =====
-- Decisions, proposals and sessions from decoded values.
use sunns_chan.Prelude.{◌≡◌, none, [], ◌∷◌, refl, ok, err, value_error, is_blank, strip, member}
use sunns_chan.Prelude.Int.{pos}
use sunns_chan.Prelude.Json.{
  Json, int, float, text, arr, obj, nil, cons, end, field, get_field, get_field_or,
}
use sunns_chan.Core.{Decision}
use sunns_chan.Schemas.{
  and_then, as_filled, require_str, require_confidence, as_text, parse_action, parse_goal,
  parse_goal_items, parse_goals, parse_tag_items, parse_tags, parse_fields, check_outcome,
  parse_decision, parse_decision_json,
}
use sunns_chan.Schemas.Checked.{IsChecked, parse_decision_ok}
use sunns_chan.Proposal.{
  ExperimentProposal, validate_proposal, validate_fields, all_texts, as_texts, as_commands,
  as_budget, as_network_mode,
}
use sunns_chan.Proposal.Valid.{IsRunnable, validate_proposal_ok}
use sunns_chan.Session.{AutonomySession, new_session, save, open_or_create}
use sunns_chan.Session.Resume.{open_or_create-save}

abbrev answer : Json
answer = obj (
    field "response" (text "hello") (
      field "goals" (arr (cons (obj (field "title" (text "learn tea") end)) nil)) (
        field "interest_tags" (arr (cons (text "tea") nil))
          (field "confidence" (float (pos 9000)) (field "expected_outcome" (int (pos 5)) end)))))

abbrev parsed : Decision
parsed = record {
  response = "hello";
  action = none;
  goals = record { title = "learn tea"; reason = ""; priority = pos 5000 } ∷ [];
  interest_tags = "tea" ∷ [];
  confidence = float (pos 9000);
  expected_outcome = int (pos 5);
}

parse_decision_ok_example : IsChecked parsed
unfolding and_then as_filled require_str require_confidence as_text parse_action parse_goal
    parse_goal_items parse_goals parse_tag_items parse_tags parse_fields parse_decision get_field
    get_field_or is_blank
parse_decision_ok_example = parse_decision_ok answer parsed refl

-- Such an answer is no text that the model may give.
outcome_refused :
    parse_decision_json (λ t. ok answer) ""
    ≡ err (value_error "'expected_outcome' must be a string")
unfolding and_then as_filled require_str require_confidence as_text parse_action parse_goal
    parse_goal_items parse_goals parse_tag_items parse_tags parse_fields check_outcome
    parse_decision parse_decision_json get_field get_field_or is_blank
outcome_refused = refl

abbrev experiment : Json
experiment = obj (
    field "goal" (text " try tea ") (
      field "hypothesis" (text "it works") (
        field "expected_outcome" (text "ok")
          (field "operations" (arr (cons (text "echo hi") nil)) end))))

abbrev accepted : ExperimentProposal
accepted = record {
  goal = "try tea";
  hypothesis = "it works";
  operations = "echo hi" ∷ [];
  expected_outcome = "ok";
  time_budget_secs = pos 600;
  network_mode = "isolated";
  vm_profile = "default";
  collect_paths = [];
}

validate_proposal_ok_example : IsRunnable accepted
unfolding and_then as_filled validate_proposal validate_fields all_texts as_texts as_commands
    as_budget as_network_mode get_field get_field_or is_blank strip member
validate_proposal_ok_example =
    validate_proposal_ok (λ v. "'?'") (λ v. "default") experiment accepted refl

abbrev session : AutonomySession
session = record (new_session "night") { status = "paused"; hypothesis = text "tea helps" }

open_or_create-save_example :
    open_or_create 9 "night" (save 5 session []).1 ≡ (ok session, (save 5 session []).1)
unfolding is_blank member
open_or_create-save_example = open_or_create-save 5 9 session [] refl refl

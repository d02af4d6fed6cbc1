-- ===== src/Examples/Agents.antt =====
-- Turns, goals, states and tasks on concrete providers.
use sunns_chan.Prelude.{
  ◌≡◌, ◌⊎◌, false, some, [], ◌∷◌, refl, ok, value_error, effects, Keeps, is_blank, take_text, arith,
}
use sunns_chan.Prelude.Int.{pos}
use sunns_chan.Prelude.Json.{num, field, end, text}
use sunns_chan.State.{default_state, learn_from_outcome, from_dict, express_interest}
use sunns_chan.State.Bounds.{IsValid, learn_from_outcome-IsValid}
use sunns_chan.Ledger.{Ledger, Event, record_event, load_state, new_event, insert_event}
use sunns_chan.Ledger.History.{IsLater}
use sunns_chan.Core.{
  turn, turn_context, verdict_of, close_goal, respond, record_invalid, check_range, commit_decision,
  open_goals, active_goals,
}
use sunns_chan.Core.Turns.{turn-IsLater}
use sunns_chan.Core.Failures.{turn_ok, failed_turn}
use sunns_chan.Core.Goals.{is_active, close_goal-active}
use sunns_chan.Runtime.{Setting, Task, Run, TaskResult, run_task}
use sunns_chan.Runtime.Calls.{Calls, IsAllowed, run_task-Calls}
use sunns_chan.Runtime.Outcomes.{run_task-Finished}
use sunns_chan.Examples.{agent, empty_ledger, decision, ask_echo, refuse, registry, echo_request}

turn-IsLater_example : Keeps IsLater (turn agent "hi" ask_echo "user")
turn-IsLater_example = turn-IsLater agent "hi" ask_echo "user"

abbrev hi_seen : Ledger
hi_seen = (record_event "observation" "hi" (field "source" (text "user") end) empty_ledger).1

turn_ok_example :
    (ask_echo (turn_context agent "hi" hi_seen) ≡ ok (decision (some echo_request)))
    × (verdict_of agent (decision (some echo_request))
        ≡ verdict_of agent (decision (some echo_request)))
    × (load_state (turn agent "hi" ask_echo "user" empty_ledger).1
        ≡ some (express_interest ("tea" ∷ []) (from_dict (load_state empty_ledger))))
unfolding turn record_event insert_event respond check_range commit_decision open_goals effects
    is_blank
turn_ok_example = turn_ok agent "hi" ask_echo "user" empty_ledger refl

failed_turn_example :
    load_state (turn agent "hi" refuse "user" empty_ledger).1 ≡ load_state empty_ledger
unfolding turn record_event insert_event respond record_invalid effects is_blank take_text
failed_turn_example =
    failed_turn agent "hi" refuse "user" empty_ledger (value_error "no answer") refl

abbrev goal : Event
goal = record { occurred_at = 0; kind = "goal_opened"; text = "learn tea"; metadata = end }

abbrev one_goal : Ledger
one_goal = record { clock = λ i. i; events = (1, goal) ∷ []; state_snapshots = [] }

close_goal-active_example :
    ((close_goal 1 "done" one_goal).0
      ≡ ok (2, new_event one_goal "goal_closed" "done" (field "goal_id" (num 1) end)))
    × (is_active (close_goal 1 "done" one_goal).1 1 ≡ false)
unfolding active_goals is_blank
close_goal-active_example = close_goal-active 1 "done" one_goal refl refl

learn_from_outcome-IsValid_example :
    IsValid (learn_from_outcome "failure" ("tea" ∷ []) default_state)
learn_from_outcome-IsValid_example =
    learn_from_outcome-IsValid "failure" ("tea" ∷ []) default_state (grind arith)

abbrev setting : Setting
setting = record {
  core = agent;
  env_name = "fake";
  env_summary = "fake environment nominal";
  hash = λ s. 7;
  repr = λ ts. "[...]";
}

abbrev task : Task
task = record { title = "say hello"; task_id = "t1"; max_steps = pos 2 }

abbrev start_run : Run
start_run = record {
  ledger = empty_ledger;
  tools = registry;
  bus = record { subscribers = []; events = [] };
  steps = [];
  last_response = "";
  outcome = "unknown";
}

run_task-Calls_example :
    Calls (IsAllowed agent ask_echo) 2 registry (run_task setting task ask_echo start_run).1.tools
run_task-Calls_example = run_task-Calls setting task ask_echo start_run

run_task-Finished_example :
    (t : TaskResult) × ((run_task setting task ask_echo start_run).0 ≡ ok t)
    × ((t.outcome ≡ "success") ⊎ (t.outcome ≡ "failure"))
unfolding is_blank
run_task-Finished_example =
    run_task-Finished setting task ask_echo start_run refl refl (λ context e bad. cc bad)

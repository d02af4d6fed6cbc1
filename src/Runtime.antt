-- ===== src/Runtime.antt =====
-- src/suns_chan/runtime.py: a task driven through turns of the agent, each of which may call one
-- tool. Tracing and logging are left out; `hash` and `repr` stand for Python's own.
pub mod Calls
pub mod Outcomes
use sunns_chan.Prelude.{
  ℕ, zero, suc, ◌+◌, ◌%◌, String, Bool, true, false, not, ◌&&◌, ◌||◌, Option, none, some, List, [],
  ◌∷◌, ◌++◌, if◌then◌else◌, ◌==◌, str_eq, length, is_blank, take_text, or_else, fstring, str, Error,
  value_error, runtime_error, not_implemented, Result, ok, err, Exec, pure, raise_if, lift, gets,
  modify, ◌>>=◌, ◌>>◌,
}
use sunns_chan.Prelude.Int.{ℤ, pos, negsuc, ltb_ℤ}
use sunns_chan.Prelude.Json.{field, end, text}
use sunns_chan.Policy.{ActionRequest, ActionVerdict, allow, require_approval, deny, value}
use sunns_chan.Ledger.{Ledger}
use sunns_chan.Core.{AgentCore, Decision, DecisionProvider, turn}
use sunns_chan.Tools.{ToolRegistry, ToolResult, execute}
use sunns_chan.Bus.{
  BusEvent, EventBus, publish, task_created, task_started, tool_requested, tool_executed,
  tool_failed, agent_finished,
}

pub data Stage : Type 0 where
  perceive understand load_context retrieve_memory reason plan check_permissions execute_action
        observe_result evaluate reflect update_memory learn respond :
      Stage

pub record Task : Type 0 where
  pub title : String
  pub task_id : String
  pub max_steps : ℤ

pub record StepResult : Type 0 where
  pub stage : Stage
  pub detail : String

pub record TaskResult : Type 0 where
  pub task_id : String
  pub outcome : String
  pub response : String
  pub steps : List StepResult

-- What an `AgentRuntime` does not change: the agent, the environment's name and what it observes,
-- and Python's `abs(hash(s))` and `repr` of a list of strings.
pub record Setting : Type 0 where
  pub core : AgentCore
  pub env_name : String
  pub env_summary : String
  pub hash : String → ℕ
  pub repr : List String → String

-- What it changes, with the local variables of `run_task`.
pub record Run : Type 0 where
  pub ledger : Ledger
  pub tools : ToolRegistry
  pub bus : EventBus
  pub steps : List StepResult
  pub last_response : String
  pub outcome : String

-- `record(stage, detail)`
unfoldable pub note : Stage → String → Run → Run
note stage detail r = record r { steps = r.steps ++ record { stage = stage; detail = detail } ∷ [] }

-- `self._bus.publish(event)`
unfoldable pub announce : BusEvent → Run → Run
announce event r = record r { bus = (publish event r.bus).1 }

-- The two assignments that end a step.
abbrev pub settle : String → String → Run → Run
settle response outcome r = record r { last_response = response; outcome = outcome }

abbrev pub verdict_text : Option ActionVerdict → String
verdict_text none = "none"
verdict_text (some v) = value v

abbrev pub is_allow : Option ActionVerdict → Bool
is_allow none = false
is_allow (some v) = str_eq (value v) "allow"

-- What follows the tool's result: the event, and the stages up to the answer.
unfoldable pub after_tool : String → String → ToolResult → Run → Bool × Run
after_tool name task_id result r =
    let seen = note observe_result (take_text 300 (or_else result.output result.error)) (
      note execute_action (fstring (name ∷ " ok=" ∷ (if result.done then "True" else "False") ∷ []))
        r) in
    let said =
      if result.done
      then settle result.output "success" (announce (tool_executed name true task_id) seen)
      else settle result.error "failure" (announce (tool_failed name result.error task_id) seen) in
    let learnt = note learn said.outcome (
      note update_memory said.outcome
        (note reflect said.outcome (note evaluate said.outcome said))) in
    if str_eq said.outcome "success"
    then (true, note respond (take_text 300 said.last_response) learnt)
    else (false, learnt)

-- The call of the tool.
unfoldable pub call_tool : String → ActionRequest → Run → Bool × Run
call_tool task_id action r =
    let asked = announce (tool_requested action.name task_id) r in
    let (result, tools') =
      execute action.name (field "text" (text action.description) end) true asked.tools in
    after_tool action.name task_id result (record asked { tools = tools' })

-- A requested action: the policy's verdict, and the tool behind it.
unfoldable pub act : String → ActionRequest → Option ActionVerdict → Run → Bool × Run
act task_id action verdict r =
    let checked =
      note check_permissions (fstring (action.name ∷ "=" ∷ verdict_text verdict ∷ [])) r in
    let blocked =
      fstring ("Blocked by policy (" ∷ verdict_text verdict ∷ "): " ∷ action.name ∷ []) in
    if not (is_allow verdict)
    then (true, note respond blocked (settle blocked "failure" checked))
    else call_tool task_id action checked

-- What a step does with a decision. The Boolean says whether the loop is left.
unfoldable pub follow : Setting → String → Decision → Option ActionVerdict → Run → Bool × Run
follow setting task_id decision verdict r =
    let planned =
      note plan
        (fstring (
          "goals="
          ∷ str (length decision.goals)
          ∷ " interests="
          ∷ setting.repr decision.interest_tags
          ∷ []))
        r in
    elim decision.action [
      | none ↦ (
        true,
        note respond (take_text 300 decision.response) (settle decision.response "success" planned),
      )
      | some action ↦ act task_id action verdict planned
    ]

-- `str(step_observation)`
abbrev pub step_observation : Setting → Task → ℕ → String
step_observation setting task step =
    if step == 0
    then fstring (task.title ∷ " [env: " ∷ setting.env_summary ∷ "]" ∷ [])
    else task.title

-- What a step does with what the turn returned or raised.
unfoldable pub conclude :
    Setting → String → Result (Decision × Option ActionVerdict) → Exec Run Bool
conclude setting task_id (ok (decision, verdict)) r =
    let (left, r') = follow setting task_id decision verdict r in (ok left, r')
conclude setting task_id (err (value_error m)) r =
    let invalid = fstring ("Invalid decision: " ∷ m ∷ []) in
    (ok true, note respond (take_text 300 invalid) (settle invalid "failure" r))
conclude setting task_id (err (runtime_error m)) r = (err (runtime_error m), r)
conclude setting task_id (err (not_implemented m)) r = (err (not_implemented m), r)

-- One step of the loop.
unfoldable pub run_step : Setting → Task → String → DecisionProvider → ℕ → Exec Run Bool
run_step setting task task_id decide step r =
    let reasoned = note reason (fstring ("step " ∷ str step ∷ [])) r in
    let (answer, ledger') =
      turn setting.core (step_observation setting task step) decide "task" reasoned.ledger in
    conclude setting task_id answer (record reasoned { ledger = ledger' })

-- `for step in range(task.max_steps)`, with the number of steps left.
unfoldable pub run_steps : Setting → Task → String → DecisionProvider → ℕ → ℕ → Exec Run (Unit {0})
run_steps setting task task_id decide zero step = pure tt
run_steps setting task task_id decide (suc n) step =
    run_step setting task task_id decide step >>= λ left.
    if left then pure tt else run_steps setting task task_id decide n (step + 1)

abbrev pub to_steps : ℤ → ℕ
to_steps (pos n) = n
to_steps (negsuc _) = 0

abbrev pub id_of : Setting → Task → String
id_of setting task =
    or_else task.task_id (fstring ("task-" ∷ str (setting.hash task.title % 10000000) ∷ []))

-- The stages in front of the loop.
unfoldable pub prepare : Setting → Task → Run → Run
prepare setting task r = note retrieve_memory task.title (
    note load_context (fstring ("env=" ∷ setting.env_name ∷ [])) (
      note understand task.title (
        note perceive setting.env_summary (
          announce (task_started (id_of setting task)) (
            announce (task_created task.title)
              (record r { steps = []; last_response = ""; outcome = "unknown" }))))))

unfoldable pub finish : String → Exec Run TaskResult
finish task_id = do
  outcome ← gets (λ r. r.outcome)
  event ← lift (agent_finished task_id outcome)
  modify (announce event)
  gets (λ r. record {
    task_id = task_id;
    outcome = r.outcome;
    response = r.last_response;
    steps = r.steps;
  })

-- `AgentRuntime.run_task`
unfoldable pub run_task : Setting → Task → DecisionProvider → Exec Run TaskResult
run_task setting task decide = do
  raise_if (is_blank task.title) (value_error "task title must be non-empty")
  raise_if (ltb_ℤ task.max_steps (pos 1)) (value_error "max_steps must be >= 1")
  modify (prepare setting task)
  run_steps setting task (id_of setting task) decide (to_steps task.max_steps) 0
  finish (id_of setting task)

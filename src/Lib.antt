-- ===== src/Lib.antt =====
-- Suns Chan: a persistent agent whose turns are decided by a language model and bounded by a policy.
--
-- The program. An `AgentCore` (src/suns_chan/core.py) takes one observation per turn, shows the model
-- a context that it builds from an append-only ledger (memory.py), checks the decision that comes
-- back, asks the policy gate (policy.py) for a verdict on the action, and writes observation,
-- decision, goals and state to the ledger. `AgentRuntime` (runtime.py) drives such turns in a loop,
-- and runs a tool of the registry (tools.py) where the verdict is allow, announcing each step on a
-- bus (events.py). A model's text is checked by schemas.py before it is a decision. Beside the ledger
-- three stores keep derived records in tables of their own: curiosities (curiosity.py), capabilities
-- (capability.py) and knowledge (knowledge.py); session.py keeps the sessions of the autonomous mode.
-- Experiments run in VMs: vm_sandbox.py has the provider that simulates one, and
-- sandbox_controller.py checks a proposed experiment and runs it over any provider. autonomy.py drives
-- a session through one activity after another; what comes of them is recorded by experience.py, and
-- learned.py keeps what several events teach. A message to the outside waits for an approval in comms.py.
--
-- The files.
--   Prelude     lists, texts, exceptions (`Exec`), tables with ids (`Table`, `Rows`), dicts, JSON values
--   Policy      policy.py: `evaluate`
--   State       state.py: `learn_from_outcome`, `express_interest`
--   Ledger      memory.py: `record_event` (record), `events_of_kind`, `save_state`, `load_state`
--   Core        core.py, identity.py: `turn`, `record_outcome`, `close_goal`
--   Schemas     schemas.py: `parse_decision`, `parse_decision_json`
--   Curiosity   curiosity.py: `open_curiosity` (open), `transition`
--   Capability  capability.py, and the tokens of memory.py: `discover`, `transition`; Usage: `match`
--   Knowledge   knowledge.py: `propose`, `affirm`, `replace` (supersede and contradict), `mark`; Views:
--               the queries
--   Bus         events.py: `publish`, `subscribe`
--   Tools       tools.py: `execute`, `register`
--   Runtime     runtime.py: `run_task`
--   Vm          vm_sandbox.py: the in-memory provider; Guest: the commands and files of a guest
--   Proposal    sandbox_controller.py: `validate_proposal`
--   Controller  sandbox_controller.py: `run_experiment` (Report), its `try` statement (Run); Provider: the
--               provider's protocol and what it promises; Mock: the one of Vm as such a provider
--   Learned     learned.py: `observe`, `apply_correction`, `apply_decay`, `link_knowledge`; Strategy:
--               `strategy_bonus_for`, `decay_stale`, `explain_learning`
--   Experience  experience.py: `record_experience`
--   Autonomy    autonomy.py: `start_session`, `halt` (pause and stop), `resume_session`, `run`;
--               Aftermath: `move_curiosity`, `evolve_blocked_goal`
--   Comms       comms.py, sandbox.py: `dispatch`, `to_action_request`
--   Session     session.py: `save`, `open_or_create`
--   Examples    concrete data on which the theorems are run
--
-- The model. A method that changes something is an action: it takes the state and gives a result,
-- which is a value or an exception, and the state afterwards, which is kept after an exception too.
-- A table is a list of rows with their ids, newest first; an INSERT takes the id above the newest
-- row's, and an UPDATE changes the rows with an id. Scores are integers in ten-thousandths, since the
-- program rounds every stored score to four decimals. Time is a number: the ledger has a clock, any
-- function of a row's id, and a store's method takes the time as an argument. `lower` knows ASCII
-- letters only. Loops are recursion on their list or on the number of steps left, which
-- `run_task` takes from `max_steps`; `str` has fuel for one digit more than a number can have. The
-- loop of `run` has three rounds of fuel for each activity and one more, since it stops at the third
-- round in a row without progress. A learned share is rounded away from 0 where it lies halfway, which
-- takes over a hundred sightings. A time limit of the controller is a number of milliseconds.
--
-- Parameters. What stands outside the modelled files is an argument, any function: the model's
-- answer, the approver, a tool's run and check, `recall` of the ledger, `scrub_secrets`, `json.loads`,
-- Python's `hash` and `repr`, `str.encode` and SHA-256, the clock of the controller, when its operator
-- cancels, and the step of the autonomy engine. No theorem assumes anything of these but for
-- a hypothesis that it states.
--
-- Not modelled: SQLite itself and its files, concurrency between processes, logging and tracing,
-- ranking by embeddings, and the parts of the program that are not listed above (the rest of the step
-- of the autonomy engine and the choice of its activities, the miners of the learning layer, reflection,
-- telemetry, acquisition, adapters).
pub mod Prelude
pub mod Policy
pub mod State
pub mod Ledger
pub mod Core
pub mod Curiosity
pub mod Capability
pub mod Knowledge
pub mod Bus
pub mod Tools
pub mod Runtime
pub mod Vm
pub mod Session
pub mod Proposal
pub mod Comms
pub mod Controller
pub mod Learned
pub mod Experience
pub mod Autonomy
pub mod Examples
pub mod Schemas

-- ===== src/Core.antt =====
-- src/suns_chan/core.py: one turn of the agent, and the goals and outcomes that the ledger keeps.
-- A score is a number of ten-thousandths.
pub mod Turns
pub mod Failures
pub mod Goals
pub mod Errors
use sunns_chan.Prelude.{
  ℕ, ◌*◌, String, Bool, true, false, not, ◌&&◌, ◌||◌, Option, none, some, List, [], ◌∷◌,
  if◌then◌else◌, ◌==◌, str_eq, member, any, select, is_blank, take_text, or_else, Error,
  value_error, Result, ok, err, Exec, pure, raise, gets, modify, raise_if, or_raise, on_value_error,
  ◌>>=◌, ◌>>◌,
}
use sunns_chan.Prelude.Int.{ℤ, pos, negsuc, ltb_ℤ, leb_ℤ}
use sunns_chan.Prelude.Json.{
  Json, null, bool, int, float, text, arr, obj, Fields, end, field, get_field, num, texts, text?,
  as_number,
}
use sunns_chan.Policy.{ActionRequest, ActionVerdict, Approver, evaluate, value}
use sunns_chan.State.{AgentState, from_dict, express_interest, learn_from_outcome}
use sunns_chan.Ledger.{
  Ledger, Event, MemoryEvent, record_event, events_of_kind, save_state, load_state,
}

-- `IdentitySeed` of src/suns_chan/identity.py
pub record IdentitySeed : Type 0 where
  pub name : String
  pub role : String
  pub traits : List String
  pub expression_style : String
  pub relational_context : String
  pub honesty_boundary : String
  pub simulated_rhythm_note : String

pub record TurnContext : Type 0 where
  pub observation : String
  pub recalled_events : List MemoryEvent
  pub identity : IdentitySeed
  pub state : AgentState
  pub active_goals : List MemoryEvent

pub record GoalProposal : Type 0 where
  pub title : String
  pub reason : String
  pub priority : ℤ

-- The confidence and the expected outcome are what the provider put there, of any type.
pub record Decision : Type 0 where
  pub response : String
  pub action : Option ActionRequest
  pub goals : List GoalProposal
  pub interest_tags : List String
  pub confidence : Json
  pub expected_outcome : Json

-- A provider returns a decision or raises.
abbrev pub DecisionProvider : Type 0
DecisionProvider = TurnContext → Result Decision

-- `recall` stands for `EventLedger.recall`, any function of the ledger and the query.
pub record AgentCore : Type 0 where
  pub approver : Approver
  pub identity : IdentitySeed
  pub recall : Ledger → String → List MemoryEvent

-- `event_id == value`, where the value may be of any type: Python's True is 1, and 1.0 is 1.
abbrev pub is_id : ℕ → Option Json → Bool
is_id i (some (int (pos n))) = n == i
is_id i (some (float (pos n))) = n == i * 10000
is_id i (some (bool b)) = if b then i == 1 else i == 0
is_id i _ = false

-- `_active_goals`: the newest hundred opened goals that none of the newest hundred closings names.
unfoldable pub active_goals : Ledger → List MemoryEvent
unfolding events_of_kind
active_goals l =
    let closed = events_of_kind l "goal_closed" 100 in
    select (λ e. not (any (λ c. is_id e.0 (get_field c.1.metadata "goal_id")) closed))
      (events_of_kind l "goal_opened" 100)

unfoldable pub turn_context : AgentCore → String → Ledger → TurnContext
turn_context core observation l = record {
  observation = observation;
  recalled_events = core.recall l observation;
  identity = core.identity;
  state = from_dict (load_state l);
  active_goals = active_goals l;
}

-- `except ValueError`: the failure becomes an event, and is raised again.
unfoldable pub record_invalid : ℕ → String → Exec Ledger Decision
record_invalid observation_id m = do
  record_event "invalid_decision" (or_else (take_text 500 m) "invalid decision")
      (field "observation_id" (num observation_id) end)
  raise (value_error m)

unfoldable pub check_range : ℤ → Exec Ledger (Unit {0})
check_range c =
    raise_if (not (leb_ℤ (pos 0) c && leb_ℤ c (pos 10000)))
      (value_error "decision confidence must be between 0 and 1")

unfoldable pub open_goal : ℕ → GoalProposal → Exec Ledger MemoryEvent
open_goal decision_id goal = do
  raise_if
      (is_blank goal.title || not (leb_ℤ (pos 0) goal.priority && leb_ℤ goal.priority (pos 10000)))
      (value_error "goals need a title and priority between 0 and 1")
  record_event "goal_opened" goal.title (
      field "reason" (text goal.reason)
        (field "priority" (float goal.priority) (field "decision_id" (num decision_id) end)))

unfoldable pub open_goals : ℕ → List GoalProposal → Exec Ledger (Unit {0})
open_goals decision_id [] = pure tt
open_goals decision_id (goal ∷ goals) =
    open_goal decision_id goal >>= λ _. open_goals decision_id goals

abbrev pub verdict_of : AgentCore → Decision → Option ActionVerdict
verdict_of core d = elim d.action [ none ↦ none | some a ↦ some (evaluate core.approver a) ]

abbrev pub decision_fields : AgentCore → ℕ → Decision → ℤ → Fields
decision_fields core observation_id d confidence = field "observation_id" (num observation_id) (
    field "action" (text? (elim d.action [ none ↦ none | some a ↦ some a.name ])) (
      field "verdict" (text? (elim (verdict_of core d) [ none ↦ none | some v ↦ some (value v) ])) (
        field "interest_tags" (arr (texts d.interest_tags)) (
          field "confidence" (float confidence)
            (field "expected_outcome" d.expected_outcome end)))))

-- The part of a turn that follows the checks: the decision is written, and the goals, and the state.
unfoldable pub commit_decision :
    AgentCore → ℕ → AgentState → Decision → ℤ → Exec Ledger (Decision × Option ActionVerdict)
commit_decision core observation_id state d confidence = do
  decision_event ←
      record_event "decision" d.response (decision_fields core observation_id d confidence)
  open_goals decision_event.0 d.goals
  modify (save_state (express_interest d.interest_tags state) (some decision_event.0))
  pure (d, verdict_of core d)

-- What `turn` does with the provider's answer.
unfoldable pub respond :
    AgentCore → ℕ → AgentState → Result Decision → Exec Ledger (Decision × Option ActionVerdict)
respond core observation_id state answer = do
  decision ← on_value_error answer (record_invalid observation_id)
  confidence ←
      or_raise (as_number decision.confidence)
        (value_error "decision confidence must be a number between 0 and 1")
  check_range confidence
  commit_decision core observation_id state decision confidence

-- `AgentCore.turn`
unfoldable pub turn :
    AgentCore → String → DecisionProvider → String → Exec Ledger (Decision × Option ActionVerdict)
turn core observation decide source = do
  observation_event ← record_event "observation" observation (field "source" (text source) end)
  context ← gets (turn_context core observation)
  respond core observation_event.0 context.state (decide context)

-- `AgentCore.autonomous_turn`
unfoldable pub autonomous_turn :
    AgentCore → String → DecisionProvider → Exec Ledger (Decision × Option ActionVerdict)
autonomous_turn core reason decide = do
  record_event "wake" reason (field "source" (text "autonomous") end)
  turn core reason decide "autonomous"

unfoldable pub record_lesson : String → String → ℕ → ℕ → Exec Ledger (Unit {0})
record_lesson outcome lesson outcome_id decision_id =
    if str_eq outcome "failure"
    then (do
      record_event "learning" lesson
          (field "source_outcome_id" (num outcome_id) (field "decision_id" (num decision_id) end))
      pure tt)
    else pure tt

-- `AgentCore.record_outcome`
unfoldable pub record_outcome : ℕ → String → String → List String → Exec Ledger MemoryEvent
record_outcome decision_id outcome lesson tags = do
  raise_if (not (member outcome ("success" ∷ "failure" ∷ "unknown" ∷ [])))
      (value_error "outcome must be success, failure, or unknown")
  outcome_event ← record_event "outcome" lesson (
      field "decision_id" (num decision_id)
        (field "outcome" (text outcome) (field "interest_tags" (arr (texts tags)) end)))
  record_lesson outcome lesson outcome_event.0 decision_id
  state ← gets (λ l. from_dict (load_state l))
  modify (save_state (learn_from_outcome outcome tags state) (some outcome_event.0))
  pure outcome_event

-- `AgentCore.close_goal`
unfoldable pub close_goal : ℕ → String → Exec Ledger MemoryEvent
close_goal goal_id reason = do
  goals ← gets active_goals
  raise_if (not (any (λ e. e.0 == goal_id) goals)) (value_error "only an active goal can be closed")
  record_event "goal_closed" reason (field "goal_id" (num goal_id) end)

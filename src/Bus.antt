-- ===== src/Bus.antt =====
-- src/suns_chan/events.py: the synchronous event bus. The time of an event is not kept, and of what
-- a subscriber does, only whether it raised.
use sunns_chan.Prelude.{
  ℕ, String, Bool, Option, none, some, List, [], ◌∷◌, ◌++◌, if◌then◌else◌, str_eq, select, member,
  Error, value_error, message, Result, ok, err,
}
use sunns_chan.Prelude.Json.{Fields, end, field, text, bool, num}

pub record BusEvent : Type 0 where
  pub kind : String
  pub payload : Fields

-- The typed constructors of the lifecycle.
abbrev pub task_created : String → BusEvent
task_created title = record { kind = "TaskCreated"; payload = field "title" (text title) end }

abbrev pub task_started : String → BusEvent
task_started task_id = record { kind = "TaskStarted"; payload = field "task_id" (text task_id) end }

abbrev pub tool_requested : String → String → BusEvent
tool_requested name task_id = record {
  kind = "ToolRequested";
  payload = field "tool" (text name) (field "task_id" (text task_id) end);
}

abbrev pub tool_executed : String → Bool → String → BusEvent
tool_executed name done task_id = record {
  kind = "ToolExecuted";
  payload = field "tool" (text name) (field "ok" (bool done) (field "task_id" (text task_id) end));
}

abbrev pub tool_failed : String → String → String → BusEvent
tool_failed name error task_id = record {
  kind = "ToolFailed";
  payload =
      field "tool" (text name) (field "error" (text error) (field "task_id" (text task_id) end));
}

abbrev pub user_message_received : String → BusEvent
user_message_received t = record {
  kind = "UserMessageReceived";
  payload = field "text" (text t) end;
}

abbrev pub environment_changed : String → BusEvent
environment_changed summary = record {
  kind = "EnvironmentChanged";
  payload = field "summary" (text summary) end;
}

abbrev pub memory_created : String → ℕ → BusEvent
memory_created kind event_id = record {
  kind = "MemoryCreated";
  payload = field "memory_kind" (text kind) (field "event_id" (num event_id) end);
}

abbrev pub learning_detected : String → BusEvent
learning_detected summary = record {
  kind = "LearningDetected";
  payload = field "summary" (text summary) end;
}

-- `agent_finished` raises on an outcome that is none of the three.
unfoldable pub agent_finished : String → String → Result BusEvent
agent_finished task_id outcome =
    if member outcome ("success" ∷ "failure" ∷ "unknown" ∷ [])
    then ok (record {
      kind = "AgentFinished";
      payload = field "task_id" (text task_id) (field "outcome" (text outcome) end);
    })
    else err (value_error "outcome must be success, failure, or unknown")

-- A subscriber returns, or raises an exception.
abbrev pub Subscriber : Type 0
Subscriber = BusEvent → Option Error

-- `_subscribers` as pairs of a kind and a handler, in the order of subscription; `_history` newest
-- last.
pub record EventBus : Type 0 where
  pub subscribers : List (String × Subscriber)
  pub events : List BusEvent

-- `EventBus.subscribe`
unfoldable pub subscribe : String → Subscriber → EventBus → EventBus
subscribe kind handler bus = record bus { subscribers = bus.subscribers ++ (kind, handler) ∷ [] }

-- The handlers of one kind, in order.
unfoldable pub handlers : String → List (String × Subscriber) → List Subscriber
handlers kind [] = []
handlers kind ((k, h) ∷ subs) = if str_eq k kind then h ∷ handlers kind subs else handlers kind subs

unfoldable pub run_handlers : BusEvent → List Subscriber → List String
run_handlers event [] = []
run_handlers event (h ∷ hs) = elim (h event) [
  | none ↦ run_handlers event hs
  | some e ↦ message e ∷ run_handlers event hs
]

-- `EventBus.publish`: the errors of the subscribers, and the bus with the event in its history.
unfoldable pub publish : BusEvent → EventBus → List String × EventBus
publish event bus = (
  run_handlers event (handlers event.kind bus.subscribers ++ handlers "*" bus.subscribers),
  record bus { events = bus.events ++ event ∷ [] },
)

-- `EventBus.history`
unfoldable pub history : Option String → EventBus → List BusEvent
history none bus = bus.events
history (some kind) bus = select (λ e. str_eq e.kind kind) bus.events

-- ===== src/Examples.antt =====
-- Concrete data on which the theorems are run.
mod Policies
mod Agents
mod Stores
mod Skills
mod Beliefs
mod Experiments
mod Lessons
mod Runs
mod Guests
mod Texts
mod Messages
use sunns_chan.Prelude.{String, true, Option, none, some, [], ◌∷◌, ok, err, value_error}
use sunns_chan.Prelude.Int.{pos}
use sunns_chan.Prelude.Json.{float, text, end}
use sunns_chan.Policy.{ActionRequest}
use sunns_chan.Ledger.{Ledger, Event}
use sunns_chan.Core.{AgentCore, Decision, DecisionProvider}
use sunns_chan.Tools.{ToolRegistry, Tool, echo_tool}

abbrev pub request : String → String → ActionRequest
request name risk = record {
  name = name;
  risk = risk;
  description = "hello";
  scope = "external";
  estimated_cost = pos 1;
}

abbrev pub echo_request : ActionRequest
echo_request = request "echo" "read_only"

abbrev pub agent : AgentCore
agent = record {
  approver = none;
  identity = record {
    name = "Sunn";
    role = "agent";
    traits = [];
    expression_style = "plain";
    relational_context = "";
    honesty_boundary = "";
    simulated_rhythm_note = "";
  };
  recall = λ l query. [];
}

abbrev pub empty_ledger : Ledger
empty_ledger = record { clock = λ i. i; events = []; state_snapshots = [] }

abbrev pub event : String → Event
event t = record { occurred_at = 0; kind = "observation"; text = t; metadata = end }

abbrev pub one_event : Ledger
one_event = record { clock = λ i. i; events = (1, event "seen") ∷ []; state_snapshots = [] }

abbrev pub decision : Option ActionRequest → Decision
decision action = record {
  response = "done";
  action = action;
  goals = [];
  interest_tags = "tea" ∷ [];
  confidence = float (pos 9000);
  expected_outcome = text "";
}

-- A provider that always asks for one call of the echo tool.
abbrev pub ask_echo : DecisionProvider
ask_echo context = ok (decision (some echo_request))

-- A provider that always fails.
abbrev pub refuse : DecisionProvider
refuse context = err (value_error "no answer")

abbrev pub echo : Tool
echo = echo_tool (λ v. "?")

abbrev pub registry : ToolRegistry
registry = record {
  tools = ("echo", echo) ∷ [];
  security_check = λ _ _. true;
  approver = none;
  audits = [];
}

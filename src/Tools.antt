-- ===== src/Tools.antt =====
-- src/suns_chan/tools.py: the registry through which every tool runs: validate, security, approval,
-- execute, audit.
pub mod Gates
use sunns_chan.Prelude.{
  String, Bool, true, false, not, ◌&&◌, ◌||◌, Option, none, some, List, [], ◌∷◌, ◌++◌,
  if◌then◌else◌, str_eq, member, is_blank, fstring, Error, value_error, message, Result, ok, err,
  Exec, map,
}
use sunns_chan.Prelude.Json.{Json, text, Fields, get_field}

-- `RISK_LEVELS`
abbrev pub risk_levels : List String
risk_levels =
    "read_only" ∷ "low_risk" ∷ "moderate_risk" ∷ "high_risk" ∷ "destructive" ∷ "write" ∷ "command"
    ∷ "network" ∷ "message" ∷ "install" ∷ []

-- `ToolSpec`, without its time limit, which nothing reads.
pub record ToolSpec : Type 0 where
  pub name : String
  pub description : String
  pub version : String
  pub required_permission : String
  pub risk_level : String
  pub capabilities : List String

-- `ToolSpec.__post_init__`
unfoldable pub check_spec : ToolSpec → Result ToolSpec
check_spec s =
    if is_blank s.name
    then err (value_error "tool name must be non-empty")
    else if not (member s.risk_level risk_levels)
    then err (value_error (fstring ("unknown risk level: " ∷ s.risk_level ∷ [])))
    else ok s

-- `ToolResult`, without its artifacts, which no tool here makes.
pub record ToolResult : Type 0 where
  pub done : Bool
  pub output : String
  pub error : String

abbrev pub success : String → ToolResult
success output = record { done = true; output = output; error = "" }

-- `ToolResult.failure`, for the messages here, none of which is blank.
abbrev pub failure : String → ToolResult
failure error = record { done = false; output = ""; error = error }

-- A tool: what it is, its check of the arguments (an exception or none), and its run.
pub record Tool : Type 0 where
  pub spec : ToolSpec
  pub validate : Fields → Option Error
  pub run : Fields → Result ToolResult

-- One call of the auditor.
pub record AuditEntry : Type 0 where
  pub name : String
  pub args : Fields
  pub result : ToolResult

-- The registry, with the calls that its auditor has had, newest first. A security check that was not
-- given allows everything.
pub record ToolRegistry : Type 0 where
  pub tools : List (String × Tool)
  pub security_check : String → String → Bool
  pub approver : Option (String → Fields → Bool)
  pub audits : List AuditEntry

-- `self._tools.get(name)`
unfoldable pub find_tool : String → List (String × Tool) → Option Tool
find_tool name [] = none
find_tool name ((n, t) ∷ ts) = if str_eq n name then some t else find_tool name ts

-- `ToolRegistry.register`
unfoldable pub register : Tool → Exec ToolRegistry (Unit {0})
register tool reg = elim (find_tool tool.spec.name reg.tools) [
  | some t ↦ (err (value_error (fstring ("tool already registered: " ∷ tool.spec.name ∷ []))), reg)
  | none ↦ (ok tt, record reg { tools = reg.tools ++ (tool.spec.name, tool) ∷ [] })
]

-- `self._auditor(name, args, result)`, and the result returned.
abbrev pub audited : String → Fields → ToolResult → ToolRegistry → ToolResult × ToolRegistry
audited name args result reg = (
  result,
  record reg { audits = record { name = name; args = args; result = result } ∷ reg.audits },
)

abbrev pub approves : Option (String → Fields → Bool) → String → Fields → Bool
approves none name args = false
approves (some f) name args = f name args

-- The result of running the tool, where an exception is a failure.
abbrev pub run_result : Result ToolResult → ToolResult
run_result (ok r) = r
run_result (err e) = failure (fstring ("tool raised: " ∷ message e ∷ []))

-- The gates of `execute` behind a validation that passed.
unfoldable pub execute_valid :
    Tool → String → Fields → Bool → ToolRegistry → ToolResult × ToolRegistry
execute_valid tool name args approved reg =
    if not (reg.security_check name tool.spec.risk_level)
    then audited name args (failure (fstring ("denied by security policy: " ∷ name ∷ []))) reg
    else if not (str_eq tool.spec.risk_level "read_only")
        && not approved
        && not (approves reg.approver name args)
    then audited name args (failure (fstring ("requires approval: " ∷ name ∷ []))) reg
    else audited name args (run_result (tool.run args)) reg

unfoldable pub execute_tool :
    Tool → String → Fields → Bool → ToolRegistry → ToolResult × ToolRegistry
execute_tool tool name args approved reg = elim (tool.validate args) [
  | some e ↦ audited name args (failure (fstring ("invalid input: " ∷ message e ∷ []))) reg
  | none ↦ execute_valid tool name args approved reg
]

-- `ToolRegistry.execute`
unfoldable pub execute : String → Fields → Bool → ToolRegistry → ToolResult × ToolRegistry
execute name args approved reg = elim (find_tool name reg.tools) [
  | none ↦ (failure (fstring ("unknown tool: " ∷ name ∷ [])), reg)
  | some tool ↦ execute_tool tool name args approved reg
]

-- `EchoTool.validate` and `EchoTool.run`
unfoldable pub echo_validate : Fields → Option Error
echo_validate args = elim (get_field args "text") [
  | some (text s) ↦ none
  | _ ↦ some (value_error "'text: str' is required")
]

-- `args["text"]` raises a KeyError, here as its message, where there is none; `to_str` stands for
-- Python's own on a value that is no text.
unfoldable pub echo_run : (Json → String) → Fields → Result ToolResult
echo_run to_str args = elim (get_field args "text") [
  | none ↦ err (value_error "'text'")
  | some (text s) ↦ ok (success s)
  | some v ↦ ok (success (to_str v))
]

abbrev pub echo_tool : (Json → String) → Tool
echo_tool to_str = record {
  spec = record {
    name = "echo";
    description = "Deterministic echo for tests/dev.";
    version = "0.1.0";
    required_permission = "tools.use";
    risk_level = "read_only";
    capabilities = [];
  };
  validate = echo_validate;
  run = echo_run to_str;
}

-- `ClockTool`: `now` is the time in ISO format when it runs.
abbrev pub clock_tool : String → Tool
clock_tool now = record {
  spec = record {
    name = "clock";
    description = "Return current UTC time (read-only).";
    version = "0.1.0";
    required_permission = "tools.use";
    risk_level = "read_only";
    capabilities = [];
  };
  validate = λ _. none;
  run = λ _. ok (success now);
}

-- `ToolRegistry.list_specs`
unfoldable pub list_specs : ToolRegistry → List ToolSpec
list_specs reg = map (λ (x : String × Tool). x.1.spec) reg.tools

abbrev pub empty_registry : ToolRegistry
empty_registry = record { tools = []; security_check = λ _ _. true; approver = none; audits = [] }

-- `default_registry`; registering the two tools cannot raise, their names being different.
unfoldable pub default_registry : (Json → String) → String → ToolRegistry
default_registry to_str now =
    (register (clock_tool now) (register (echo_tool to_str) empty_registry).1).1

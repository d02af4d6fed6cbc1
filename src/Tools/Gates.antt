-- ===== src/Tools/Gates.antt =====
-- The gates and the audit of `ToolRegistry.execute` in src/suns_chan/tools.py.
use sunns_chan.Prelude.{
  String, ◌≡◌, true, false, Bool, ◌&&◌, ◌||◌, none, some, ◌∷◌, arith, Result, str_eq,
}
use sunns_chan.Prelude.Json.{Fields}
use sunns_chan.Tools.{
  Tool, ToolResult, ToolRegistry, find_tool, register, execute, execute_tool, execute_valid,
  approves, run_result,
}

-- The three gates: valid arguments, the security check, and a read_only tool or an approval.
abbrev pub is_open : ToolRegistry → Tool → String → Fields → Bool → Bool
is_open reg tool name args approved =
    elim (tool.validate args) [ none ↦ true | some e ↦ false ]
    && reg.security_check name tool.spec.risk_level
    && (str_eq tool.spec.risk_level "read_only" || approved || approves reg.approver name args)

-- Where the arguments are invalid, the security check says no, or a tool that is not read_only has no
-- approval, the tool's run has no influence: with any other run in its place the call
-- has the same result and the same audit, and the result is a failure.
pub closed_gate_runs_nothing :
    (reg : ToolRegistry) (tool : Tool) (name : String) (args : Fields) (approved : Bool)
    (other : Fields → Result ToolResult)
    → is_open reg tool name args approved ≡ false
    → (execute_tool tool name args approved reg
        ≡ execute_tool (record tool { run = other }) name args approved reg)
      × ((execute_tool tool name args approved reg).0.done ≡ false)
unfolding execute_tool execute_valid
closed_gate_runs_nothing reg tool name args approved other h = ground arith

-- Behind open gates the result is that of the tool's run, an exception counting as a failure.
pub open_gate_runs :
    (reg : ToolRegistry) (tool : Tool) (name : String) (args : Fields) (approved : Bool)
    → is_open reg tool name args approved ≡ true
    → (execute_tool tool name args approved reg).0 ≡ run_result (tool.run args)
unfolding execute_tool execute_valid
open_gate_runs reg tool name args approved h = ground arith

-- A call of a registered tool adds exactly one audit entry, with the name, the arguments and the
-- result that is returned; a call of an unknown one adds none; the rest of the registry stays.
pub execute_audits :
    (reg : ToolRegistry) (name : String) (args : Fields) (approved : Bool)
    → let (result, reg') = execute name args approved reg in
      reg' ≡ elim (find_tool name reg.tools) [
        | none ↦ reg
        | some tool ↦ record reg {
          audits = record { name = name; args = args; result = result } ∷ reg.audits;
        }
      ]
unfolding execute execute_tool execute_valid
execute_audits reg name args approved = ground arith

-- Registering a name that is taken keeps the registry.
pub register_twice :
    (tool : Tool) (other : Tool) (reg : ToolRegistry)
    → find_tool tool.spec.name reg.tools ≡ some other
    → (register tool reg).1 ≡ reg
unfolding register
register_twice tool other reg h = ground arith

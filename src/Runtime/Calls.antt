-- ===== src/Runtime/Calls.antt =====
-- The tool calls of `run_task` in src/suns_chan/runtime.py.
use sunns_chan.Prelude.{
  ℕ, zero, suc, ◌+◌, ◌≤◌, String, ◌≡◌, refl, ap, Bool, true, Option, none, some, List, [], ◌∷◌,
  ◌++◌, arith, inl, inr, All, All-append, length, length-append, value_error, runtime_error,
  not_implemented, Result, ok, err, Exec, Option-cases, effects, pure, modify, Keeps, ◌>>=◌,
}
use sunns_chan.Prelude.Rules.{Keeps-if, Keeps-raise_if}
use sunns_chan.Prelude.Json.{Fields, field, end, text}
use sunns_chan.Policy.{ActionRequest, ActionVerdict, allow, require_approval, deny, evaluate}
use sunns_chan.Core.{AgentCore, TurnContext, Decision, DecisionProvider, verdict_of}
use sunns_chan.Core.Failures.{turn_ok}
use sunns_chan.Tools.{Tool, ToolRegistry, ToolResult, AuditEntry, execute, find_tool}
use sunns_chan.Tools.Gates.{execute_audits}
use sunns_chan.Bus.{agent_finished}
use sunns_chan.Runtime.{
  Setting, Run, Task, note, announce, after_tool, call_tool, act, follow, conclude, run_step,
  run_steps, run_task, prepare, finish, to_steps, id_of,
}

-- The call `e` has the name and the argument of an action that a decision of the provider requests
-- and that the policy allows.
abbrev pub IsAllowed : AgentCore → DecisionProvider → AuditEntry → Type 0
IsAllowed core decide e =
    (context : TurnContext) × (d : Decision) × (a : ActionRequest) × (decide context ≡ ok d)
    × (d.action ≡ some a)
    × (evaluate core.approver a ≡ allow)
    × (e.name ≡ a.name)
    × (e.args ≡ field "text" (text a.description) end)

-- `new` holds the calls of `old`, after at most `n` further ones that all meet `P`.
abbrev pub Calls : (AuditEntry → Type 0) → ℕ → ToolRegistry → ToolRegistry → Type 0
Calls P n old new =
    (added : List AuditEntry) × (new.audits ≡ added ++ old.audits)
    × All P added
    × (length added ≤ n)

++-assoc : {A : Type 0} (xs ys zs : List A) → (xs ++ ys) ++ zs ≡ xs ++ (ys ++ zs)
++-assoc [] ys zs = refl
++-assoc (x ∷ xs) ys zs = rw (++-assoc xs ys zs)

no_call : {P : AuditEntry → Type 0} (n : ℕ) (reg : ToolRegistry) → Calls P n reg reg
no_call n reg = ([], refl, tt, omega arith)

more-Calls :
    {P : AuditEntry → Type 0} (m n k : ℕ) (a b c : ToolRegistry)
    → m + n ≤ k
    → Calls P m a b
    → Calls P n b c
    → Calls P k a c
more-Calls {P} m n k a b c le (xs, p, hx, lx) (ys, q, hy, ly) = (
  ys ++ xs,
  rw (q, p, ++-assoc ys xs a.audits),
  All-append P ys xs hy hx,
  omega (arith, length-append ys xs),
)

call_of_audit :
    {P : AuditEntry → Type 0} (o : Option Tool) (reg new : ToolRegistry) (entry : AuditEntry)
    → P entry
    → new ≡ elim o [ none ↦ reg | some tool ↦ record reg { audits = entry ∷ reg.audits } ]
    → Calls P 1 reg new
call_of_audit none reg new entry h e = ([], ap (λ (r : ToolRegistry). r.audits) e, tt, omega arith)
call_of_audit (some tool) reg new entry h e =
    (entry ∷ [], ap (λ (r : ToolRegistry). r.audits) e, (h, tt), omega arith)

call_of_execute :
    {P : AuditEntry → Type 0} (name : String) (args : Fields) (approved : Bool) (reg : ToolRegistry)
    → ((result : ToolResult) → P (record { name = name; args = args; result = result }))
    → Calls P 1 reg (execute name args approved reg).1
call_of_execute name args approved reg h =
    call_of_audit (find_tool name reg.tools) reg (execute name args approved reg).1 _
      (h (execute name args approved reg).0) (execute_audits reg name args approved)

after_tool-tools :
    (name task_id : String) (result : ToolResult) (r : Run)
    → (after_tool name task_id result r).1.tools ≡ r.tools
unfolding after_tool note announce
after_tool-tools name task_id result r = ground arith

-- What one call of a tool adds, for an action that the policy allows.
module _ (setting : Setting) (decide : DecisionProvider) where
  abbrev Adds : ℕ → Run → Run → Type 0
  Adds n r r' = Calls (IsAllowed setting.core decide) n r.tools r'.tools

  call_tool-Adds :
      (task_id : String) (context : TurnContext) (d : Decision) (a : ActionRequest) (r : Run)
      → decide context ≡ ok d
      → d.action ≡ some a
      → evaluate setting.core.approver a ≡ allow
      → Adds 1 r (call_tool task_id a r).1
  unfolding call_tool announce
  call_tool-Adds task_id context d a r hd ha hv = rw (after_tool-tools a.name task_id _ _) (
      call_of_execute a.name (field "text" (text a.description) end) true r.tools
        (λ result. (context, d, a, hd, ha, hv, refl, refl)))

  act-Adds :
      (task_id : String) (context : TurnContext) (d : Decision) (a : ActionRequest)
      (v : ActionVerdict) (r : Run)
      → decide context ≡ ok d
      → d.action ≡ some a
      → evaluate setting.core.approver a ≡ v
      → Adds 1 r (act task_id a (some v) r).1
  unfolding act note
  act-Adds task_id context d a allow r hd ha hv = call_tool-Adds task_id context d a _ hd ha hv
  act-Adds task_id context d a require_approval r hd ha hv = no_call 1 r.tools
  act-Adds task_id context d a deny r hd ha hv = no_call 1 r.tools

  follow-Adds :
      (task_id : String) (context : TurnContext) (d : Decision) (v : Option ActionVerdict) (r : Run)
      → decide context ≡ ok d
      → v ≡ verdict_of setting.core d
      → Adds 1 r (follow setting task_id d v r).1
  unfolding follow note
  follow-Adds task_id context d v r hd hv = elim (Option-cases d.action) [
    | inl e ↦ rw e (no_call 1 r.tools)
    | inr (a, e) ↦ rw (hv, e) (act-Adds task_id context d a _ _ hd e refl)
  ]

  conclude-Adds :
      (task_id : String) (answer : Result (Decision × Option ActionVerdict)) (r : Run)
      → ((d : Decision) (v : Option ActionVerdict)
          → answer ≡ ok (d, v)
          → (context : TurnContext) × (decide context ≡ ok d) × (v ≡ verdict_of setting.core d))
      → Adds 1 r (conclude setting task_id answer r).1
  unfolding conclude note
  conclude-Adds task_id (ok (d, v)) r h =
      let (context, hd, hv) = h d v refl in follow-Adds task_id context d v r hd hv
  conclude-Adds task_id (err (value_error m)) r h = no_call 1 r.tools
  conclude-Adds task_id (err (runtime_error m)) r h = no_call 1 r.tools
  conclude-Adds task_id (err (not_implemented m)) r h = no_call 1 r.tools

  run_step-Adds :
      (task : Task) (task_id : String) (step : ℕ) (r : Run)
      → Adds 1 r (run_step setting task task_id decide step r).1
  unfolding run_step note
  run_step-Adds task task_id step r =
      conclude-Adds task_id _ _
        (λ d v h. let (hd, hv, _) = turn_ok setting.core _ decide "task" r.ledger h in (_, hd, hv))

  after_call :
      {A B : Type 0} (m n k : ℕ) (x : Result A) (a b : Run) (f : A → Exec Run B)
      → m + n ≤ k
      → Adds m a b
      → ((y : A) → Keeps (Adds n) (f y))
      → Adds k a (elim x as (λ _. Result B × Run) [ ok y ↦ f y b | err e ↦ (err e, b) ]).1
  after_call m n k (ok y) a b f le h rest =
      more-Calls m n k a.tools b.tools (f y b).1.tools le h ((rest y).at b)
  after_call m n k (err e) a b f le h rest =
      more-Calls m n k a.tools b.tools b.tools le h (no_call n b.tools)

  bind-Adds :
      {A B : Type 0} (m n k : ℕ) (p : Exec Run A) (f : A → Exec Run B)
      → m + n ≤ k
      → Keeps (Adds m) p
      → ((y : A) → Keeps (Adds n) (f y))
      → Keeps (Adds k) (p >>= f)
  unfolding ◌>>=◌
  bind-Adds m n k p f le h rest = record {
    at = λ r. after_call m n k (p r).0 r (p r).1 f le (h.at r) rest;
  }

  run_steps-Adds :
      (task : Task) (task_id : String) (n step : ℕ)
      → Keeps (Adds n) (run_steps setting task task_id decide n step)
  unfolding run_steps pure
  run_steps-Adds task task_id zero step = record { at = λ r. no_call 0 r.tools }
  run_steps-Adds task task_id (suc n) step =
      bind-Adds 1 n (suc n) _ _ (omega arith) (record { at = run_step-Adds task task_id step })
        (λ left.
          Keeps-if left _ _ (record { at = λ r. no_call n r.tools })
            (run_steps-Adds task task_id n (step + 1)))

prepare-Adds :
    (setting : Setting) (decide : DecisionProvider) (task : Task)
    → Keeps (Adds setting decide 0) (modify (prepare setting task))
unfolding prepare note announce modify
prepare-Adds setting decide task = record { at = λ r. no_call 0 r.tools }

finish-tools : (task_id : String) (r : Run) → (finish task_id r).1.tools ≡ r.tools
unfolding finish announce agent_finished effects
finish-tools task_id r = ground arith

finish-Adds :
    (setting : Setting) (decide : DecisionProvider) (task_id : String)
    → Keeps (Adds setting decide 0) (finish task_id)
finish-Adds setting decide task_id = record {
  at = λ r. ([], ap (λ (x : ToolRegistry). x.audits) (finish-tools task_id r), tt, omega arith);
}

-- Whether the task returns or raises, the tool calls that it adds to the registry are at most
-- `max_steps`, and each one has the name and the argument of an action that a decision of the
-- provider requests and that the policy allows.
pub run_task-Calls :
    (setting : Setting) (task : Task) (decide : DecisionProvider) (r : Run)
    → Calls
        (IsAllowed setting.core decide)
        (to_steps task.max_steps)
        r.tools
        (run_task setting task decide r).1.tools
unfolding run_task
run_task-Calls setting task decide r =
    let n = to_steps task.max_steps in
    (bind-Adds setting decide 0 n n _ _ (omega arith) (Keeps-raise_if none_added _ _) (λ _.
        bind-Adds setting decide 0 n n _ _ (omega arith) (Keeps-raise_if none_added _ _) (λ _.
          bind-Adds setting decide 0 n n _ _ (omega arith) (prepare-Adds setting decide task) (λ _.
            bind-Adds setting decide n 0 n _ _ (omega arith)
              (run_steps-Adds setting decide task (id_of setting task) n 0)
              (λ _. finish-Adds setting decide (id_of setting task)))))).at
      r
  where
    none_added : (s : Run) → Adds setting decide 0 s s
    none_added s = no_call 0 s.tools

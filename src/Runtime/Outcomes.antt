-- ===== src/Runtime/Outcomes.antt =====
-- The outcome of `run_task` in src/suns_chan/runtime.py.
use sunns_chan.Prelude.{
  ℕ, zero, suc, ◌+◌, ◌≤◌, String, ◌≡◌, refl, Bool, true, false, Option, arith, ◌⊎◌, inl, inr, Error,
  value_error, runtime_error, not_implemented, Result, ok, err, Exec, pure, is_blank, Option-cases,
  Bool-cases, effects, ◌>>=◌, if◌then◌else◌, raise_if, modify, ◌>>◌, member,
}
use sunns_chan.Prelude.Raises.{is_value_error}
use sunns_chan.Prelude.Int.{ℤ, pos, negsuc, ltb_ℤ}
use sunns_chan.Policy.{ActionRequest, ActionVerdict}
use sunns_chan.Core.{TurnContext, Decision, DecisionProvider}
use sunns_chan.Core.Errors.{turn-Raises}
use sunns_chan.Tools.{ToolResult}
use sunns_chan.Bus.{agent_finished}
use sunns_chan.Runtime.{
  Setting, Run, Task, TaskResult, note, announce, after_tool, call_tool, act, follow, conclude,
  run_step, run_steps, run_task, prepare, finish, to_steps, id_of, is_allow,
}

abbrev IsSettled : Run → Type 0
IsSettled r = (r.outcome ≡ "success") ⊎ (r.outcome ≡ "failure")

after_tool-IsSettled :
    (name task_id : String) (result : ToolResult) (r : Run)
    → IsSettled (after_tool name task_id result r).1
unfolding after_tool note announce
after_tool-IsSettled name task_id result r = elim (Bool-cases result.done) [
  | inl e ↦ rw e (inl refl)
  | inr e ↦ rw e (inr refl)
]

act-IsSettled :
    (task_id : String) (a : ActionRequest) (v : Option ActionVerdict) (r : Run)
    → IsSettled (act task_id a v r).1
unfolding act note call_tool
act-IsSettled task_id a v r = elim (Bool-cases (is_allow v)) [
  | inl e ↦ rw e (after_tool-IsSettled a.name task_id _ _)
  | inr e ↦ rw e (inr refl)
]

follow-IsSettled :
    (setting : Setting) (task_id : String) (d : Decision) (v : Option ActionVerdict) (r : Run)
    → IsSettled (follow setting task_id d v r).1
unfolding follow note
follow-IsSettled setting task_id d v r = elim (Option-cases d.action) [
  | inl e ↦ rw e (inl refl)
  | inr (a, e) ↦ rw e (act-IsSettled task_id a v _)
]

-- The action returned, and left a settled run.
abbrev Settles : {A : Type 0} → Result A × Run → Type 0
Settles {A} x = ((a : A) × (x.0 ≡ ok a)) × IsSettled x.1

-- From every run, and from every settled one.
record Starts {A : Type 0} (m : Exec Run A) : Type 0 where
  at : (r : Run) → Settles (m r)

record Continues {A : Type 0} (m : Exec Run A) : Type 0 where
  at : (r : Run) → IsSettled r → Settles (m r)

then-Settles :
    {A B : Type 0} (x : Result A) (r : Run) (f : A → Exec Run B)
    → ((a : A) × (x ≡ ok a))
    → IsSettled r
    → ((a : A) → Continues (f a))
    → Settles (elim x as (λ _. Result B × Run) [ ok a ↦ f a r | err e ↦ (err e, r) ])
then-Settles (ok a) r f h s k = (k a).at r s
then-Settles (err e) r f h s k = absurd (cc (h.1))

bind-Starts :
    {A B : Type 0} (m : Exec Run A) (f : A → Exec Run B)
    → Starts m
    → ((a : A) → Continues (f a))
    → Starts (m >>= f)
unfolding ◌>>=◌
bind-Starts m f h k = record { at = λ r. then-Settles (m r).0 (m r).1 f (h.at r).0 (h.at r).1 k }

if-Continues :
    (left : Bool) (m n : Exec Run (Unit {0}))
    → Continues m
    → Continues n
    → Continues (if left then m else n)
if-Continues true m n hm hn = hm
if-Continues false m n hm hn = hn

pure-Continues : {A : Type 0} (a : A) → Continues (pure a)
unfolding pure
pure-Continues a = record { at = λ r s. ((a, refl), s) }

conclude-Settles :
    (setting : Setting) (task_id : String) (answer : Result (Decision × Option ActionVerdict))
    (r : Run)
    → ((e : Error) → answer ≡ err e → is_value_error e ≡ true)
    → Settles (conclude setting task_id answer r)
unfolding conclude note
conclude-Settles setting task_id (ok (d, v)) r h =
    (((follow setting task_id d v r).0, refl), follow-IsSettled setting task_id d v r)
conclude-Settles setting task_id (err (value_error m)) r h = ((true, refl), inr refl)
conclude-Settles setting task_id (err (runtime_error m)) r h =
    absurd (cc (h (runtime_error m) refl))
conclude-Settles setting task_id (err (not_implemented m)) r h =
    absurd (cc (h (not_implemented m) refl))

-- A provider that raises nothing but ValueErrors.
abbrev pub RaisesOnlyValueErrors : DecisionProvider → Type 0
RaisesOnlyValueErrors decide =
    (context : TurnContext) (e : Error) → decide context ≡ err e → is_value_error e ≡ true

module _ (setting : Setting) (task : Task) (decide : DecisionProvider)
    (h : RaisesOnlyValueErrors decide) where
  run_step-Starts :
      (task_id : String) (step : ℕ) → Starts (run_step setting task task_id decide step)
  unfolding run_step note
  run_step-Starts task_id step = record {
    at = λ r.
        conclude-Settles setting task_id _ _
          ((turn-Raises setting.core _ decide "task" h).at r.ledger);
  }

  run_steps-Starts :
      (task_id : String) (n step : ℕ)
      → ((k : ℕ) → Continues (run_steps setting task task_id decide n k))
      → Starts (run_steps setting task task_id decide (suc n) step)
  unfolding run_steps
  run_steps-Starts task_id n step rest =
      bind-Starts _ _ (run_step-Starts task_id step)
        (λ left. if-Continues left _ _ (pure-Continues tt) (rest (step + 1)))

  run_steps-Continues :
      (task_id : String) (n step : ℕ) → Continues (run_steps setting task task_id decide n step)
  unfolding run_steps
  run_steps-Continues task_id zero step = pure-Continues tt
  run_steps-Continues task_id (suc n) step = record {
    at = λ r _. (run_steps-Starts task_id n step (run_steps-Continues task_id n)).at r;
  }

  -- The loop with at least one step.
  loop-Starts :
      (task_id : String) (n : ℕ) → 1 ≤ n → Starts (run_steps setting task task_id decide n 0)
  loop-Starts task_id zero le = absurd (omega arith)
  loop-Starts task_id (suc n) le = run_steps-Starts task_id n 0 (run_steps-Continues task_id n)

-- What `finish` returns for a settled run.
abbrev Finished : Result TaskResult → Type 0
Finished x = (t : TaskResult) × (x ≡ ok t) × ((t.outcome ≡ "success") ⊎ (t.outcome ≡ "failure"))

finish-Finished : (task_id : String) (r : Run) → IsSettled r → Finished (finish task_id r).0
unfolding finish announce agent_finished effects member
finish-Finished task_id r (inl e) = rw e (_, refl, inl refl)
finish-Finished task_id r (inr e) = rw e (_, refl, inr refl)

bind-Finished :
    {A : Type 0} (x : Result A) (r : Run) (f : A → Exec Run TaskResult)
    → ((a : A) × (x ≡ ok a))
    → ((a : A) → Finished (f a r).0)
    → Finished (elim x as (λ _. Result TaskResult × Run) [ ok a ↦ f a r | err e ↦ (err e, r) ]).0
bind-Finished (ok a) r f h k = k a
bind-Finished (err e) r f h k = absurd (cc (h.1))

loop-Finished :
    (task_id : String) (m : Exec Run (Unit {0})) (r : Run)
    → Settles (m r)
    → Finished ((m >> finish task_id) r).0
unfolding ◌>>=◌
loop-Finished task_id m r h =
    bind-Finished (m r).0 (m r).1 (λ _. finish task_id) h.0 (λ _. finish-Finished task_id _ h.1)

steps_of_test : (n : ℤ) → ltb_ℤ n (pos 1) ≡ false → 1 ≤ to_steps n
steps_of_test (pos n) h = ground arith
steps_of_test (negsuc n) h = absurd (ground arith)

guards_passed :
    {A : Type 0} (b c : Bool) (d e : Error) (f : Run → Run) (m : Exec Run A) (r : Run)
    → b ≡ false
    → c ≡ false
    → (raise_if b d >> (raise_if c e >> (modify f >> m))) r ≡ m (f r)
unfolding effects
guards_passed b c d e f m r hb hc = rw (hb, hc)

-- A task with a title, at least one step and a provider that raises nothing but ValueErrors always
-- returns a result, and its outcome is "success" or "failure", never "unknown".
pub run_task-Finished :
    (setting : Setting) (task : Task) (decide : DecisionProvider) (r : Run)
    → is_blank task.title ≡ false
    → ltb_ℤ task.max_steps (pos 1) ≡ false
    → RaisesOnlyValueErrors decide
    → (t : TaskResult) × ((run_task setting task decide r).0 ≡ ok t)
      × ((t.outcome ≡ "success") ⊎ (t.outcome ≡ "failure"))
unfolding run_task
run_task-Finished setting task decide r titled some_step h =
    let id = id_of setting task in
    let n = to_steps task.max_steps in
    rw
      (guards_passed (is_blank task.title) (ltb_ℤ task.max_steps (pos 1))
        (value_error "task title must be non-empty") (value_error "max_steps must be >= 1")
        (prepare setting task) (run_steps setting task id decide n 0 >> finish id) r titled
        some_step)
      (loop-Finished id (run_steps setting task id decide n 0) _
        ((loop-Starts setting task decide h id n (steps_of_test task.max_steps some_step)).at _))

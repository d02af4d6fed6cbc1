-- ===== src/Core/Turns.antt =====
-- The ledger under `turn`, `record_outcome` and `close_goal` of src/suns_chan/core.py.
use sunns_chan.Prelude.{ℕ, String, List, [], ◌∷◌, Result, Keeps}
use sunns_chan.Prelude.Rules.{keeps_rules, Keeps-bind}
use sunns_chan.Prelude.Int.{ℤ}
use sunns_chan.State.{AgentState}
use sunns_chan.Ledger.History.{
  IsLater, IsLater-refl, IsLater-trans, record_event-IsLater, save_state-IsLater,
}
use sunns_chan.Core.{
  AgentCore, DecisionProvider, Decision, GoalProposal, record_invalid, check_range, open_goal,
  open_goals, commit_decision, respond, turn, record_lesson, record_outcome, close_goal,
}

ruleset later = (keeps_rules, IsLater-refl, IsLater-trans, record_event-IsLater, save_state-IsLater)

record_invalid-IsLater : (i : ℕ) (m : String) → Keeps IsLater (record_invalid i m)
unfolding record_invalid
record_invalid-IsLater i m = search later

check_range-IsLater : (c : ℤ) → Keeps IsLater (check_range c)
unfolding check_range
check_range-IsLater c = search later

open_goal-IsLater : (i : ℕ) (g : GoalProposal) → Keeps IsLater (open_goal i g)
unfolding open_goal
open_goal-IsLater i g = search later

open_goals-IsLater : (i : ℕ) (gs : List GoalProposal) → Keeps IsLater (open_goals i gs)
unfolding open_goals
open_goals-IsLater i [] = search later
open_goals-IsLater i (g ∷ gs) =
    Keeps-bind IsLater-trans _ _ (open_goal-IsLater i g) (λ _. open_goals-IsLater i gs)

commit_decision-IsLater :
    (core : AgentCore) (i : ℕ) (s : AgentState) (d : Decision) (c : ℤ)
    → Keeps IsLater (commit_decision core i s d c)
unfolding commit_decision
commit_decision-IsLater core i s d c = search (later, open_goals-IsLater) depth 8

respond-IsLater :
    (core : AgentCore) (i : ℕ) (s : AgentState) (answer : Result Decision)
    → Keeps IsLater (respond core i s answer)
unfolding respond
respond-IsLater core i s answer =
    search (later, record_invalid-IsLater, check_range-IsLater, commit_decision-IsLater) depth 9

-- Whatever the provider answers or raises, a turn edits and removes no row of the ledger: it only
-- adds events and snapshots on top.
pub turn-IsLater :
    (core : AgentCore) (observation : String) (decide : DecisionProvider) (source : String)
    → Keeps IsLater (turn core observation decide source)
unfolding turn
turn-IsLater core observation decide source = search (later, respond-IsLater)

record_lesson-IsLater :
    (outcome lesson : String) (i j : ℕ) → Keeps IsLater (record_lesson outcome lesson i j)
unfolding record_lesson
record_lesson-IsLater outcome lesson i j = search later

-- Recording an outcome adds rows to the ledger and edits or removes none, also where it raises.
pub record_outcome-IsLater :
    (decision_id : ℕ) (outcome lesson : String) (tags : List String)
    → Keeps IsLater (record_outcome decision_id outcome lesson tags)
unfolding record_outcome
record_outcome-IsLater decision_id outcome lesson tags =
    search (later, record_lesson-IsLater) depth 9

-- Closing a goal adds rows to the ledger and edits or removes none, also where it raises.
pub close_goal-IsLater : (goal_id : ℕ) (reason : String) → Keeps IsLater (close_goal goal_id reason)
unfolding close_goal
close_goal-IsLater goal_id reason = search later

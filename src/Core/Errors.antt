-- ===== src/Core/Errors.antt =====
-- The exceptions of `AgentCore.turn` in src/suns_chan/core.py.
use sunns_chan.Prelude.{ℕ, String, ◌≡◌, true, List, [], ◌∷◌, Error, Result, err}
use sunns_chan.Prelude.Raises.{
  is_value_error, RaisesValueError, raises_rules, Raises-bind, Raises-gets, Raises-on_value_error,
}
use sunns_chan.Prelude.Int.{ℤ}
use sunns_chan.Prelude.Json.{Fields}
use sunns_chan.State.{AgentState}
use sunns_chan.Ledger.{record_event, insert_event}
use sunns_chan.Core.{
  AgentCore, TurnContext, DecisionProvider, Decision, GoalProposal, record_invalid, check_range,
  open_goal, open_goals, commit_decision, respond, turn,
}

insert_event-Raises : (kind t : String) (m : Fields) → RaisesValueError (insert_event kind t m)
unfolding insert_event
insert_event-Raises kind t m = record { at = λ s e h. cc }

record_event-Raises : (kind t : String) (m : Fields) → RaisesValueError (record_event kind t m)
unfolding record_event
record_event-Raises kind t m = search (raises_rules, insert_event-Raises)

ruleset raising = (raises_rules, record_event-Raises)

record_invalid-Raises : (i : ℕ) (m : String) → RaisesValueError (record_invalid i m)
unfolding record_invalid
record_invalid-Raises i m = search raising

check_range-Raises : (c : ℤ) → RaisesValueError (check_range c)
unfolding check_range
check_range-Raises c = search raising

open_goal-Raises : (i : ℕ) (g : GoalProposal) → RaisesValueError (open_goal i g)
unfolding open_goal
open_goal-Raises i g = search raising

open_goals-Raises : (i : ℕ) (gs : List GoalProposal) → RaisesValueError (open_goals i gs)
unfolding open_goals
open_goals-Raises i [] = search raising
open_goals-Raises i (g ∷ gs) = Raises-bind _ _ (open_goal-Raises i g) (λ _. open_goals-Raises i gs)

commit_decision-Raises :
    (core : AgentCore) (i : ℕ) (s : AgentState) (d : Decision) (c : ℤ)
    → RaisesValueError (commit_decision core i s d c)
unfolding commit_decision
commit_decision-Raises core i s d c = search (raising, open_goals-Raises) depth 8

respond-Raises :
    (core : AgentCore) (i : ℕ) (s : AgentState) (answer : Result Decision)
    → ((e : Error) → answer ≡ err e → is_value_error e ≡ true)
    → RaisesValueError (respond core i s answer)
unfolding respond
respond-Raises core i s answer h =
    Raises-bind _ _ (Raises-on_value_error answer _ h (record_invalid-Raises i))
      (λ d. search (raising, check_range-Raises, commit_decision-Raises) depth 8)

pub turn-Raises :
    (core : AgentCore) (observation : String) (decide : DecisionProvider) (source : String)
    → ((context : TurnContext) (e : Error) → decide context ≡ err e → is_value_error e ≡ true)
    → RaisesValueError (turn core observation decide source)
unfolding turn
turn-Raises core observation decide source h = Raises-bind _ _ (record_event-Raises _ _ _) (λ o.
    Raises-bind _ _ (Raises-gets _)
      (λ context. respond-Raises core o.0 context.state (decide context) (h context)))

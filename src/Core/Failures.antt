-- ===== src/Core/Failures.antt =====
-- `AgentCore.turn` of src/suns_chan/core.py: what it returns, and the state after it.
use sunns_chan.Prelude.{
  ℕ, String, ◌≡◌, refl, ap, ◌∙◌, Option, some, List, [], ◌∷◌, Error, value_error, runtime_error,
  not_implemented, gets, Result, ok, err, Keeps, FailKeeps, pure, effects, Exec, modify, arith,
  on_value_error, ◌>>=◌, ◌>>◌,
}
use sunns_chan.Prelude.Json.{text, field, end}
use sunns_chan.Prelude.Rules.{
  keeps_rules, Keeps-bind, FailKeeps-bind, FailKeeps-modify, FailKeeps-pure, Ensures-bind,
}
use sunns_chan.Prelude.Int.{ℤ}
use sunns_chan.Policy.{ActionVerdict}
use sunns_chan.State.{AgentState, express_interest, from_dict}
use sunns_chan.Ledger.{Ledger, record_event, save_state, load_state}
use sunns_chan.Ledger.History.{SameState, SameState-refl, SameState-trans, record_event-SameState}
use sunns_chan.Core.{
  AgentCore, TurnContext, DecisionProvider, Decision, GoalProposal, record_invalid, check_range,
  open_goal, open_goals, commit_decision, respond, turn, turn_context, verdict_of,
}

ruleset same_state = (keeps_rules, SameState-refl, SameState-trans, record_event-SameState)

record_invalid-SameState : (i : ℕ) (m : String) → Keeps SameState (record_invalid i m)
unfolding record_invalid
record_invalid-SameState i m = search same_state

check_range-SameState : (c : ℤ) → Keeps SameState (check_range c)
unfolding check_range
check_range-SameState c = search same_state

open_goal-SameState : (i : ℕ) (g : GoalProposal) → Keeps SameState (open_goal i g)
unfolding open_goal
open_goal-SameState i g = search same_state

open_goals-SameState : (i : ℕ) (gs : List GoalProposal) → Keeps SameState (open_goals i gs)
unfolding open_goals
open_goals-SameState i [] = search same_state
open_goals-SameState i (g ∷ gs) =
    Keeps-bind SameState-trans _ _ (open_goal-SameState i g) (λ _. open_goals-SameState i gs)

save_pure-FailKeeps :
    {A : Type 0} (f : Ledger → Ledger) (a : A) → FailKeeps SameState (modify f >>= λ _. pure a)
unfolding effects
save_pure-FailKeeps f a = record { at = λ l e h. cc }

ruleset failing =
    (same_state, FailKeeps-bind, FailKeeps-modify, FailKeeps-pure, save_pure-FailKeeps)

commit_decision-FailKeeps :
    (core : AgentCore) (i : ℕ) (s : AgentState) (d : Decision) (c : ℤ)
    → FailKeeps SameState (commit_decision core i s d c)
unfolding commit_decision
commit_decision-FailKeeps core i s d c = search (failing, open_goals-SameState) depth 8

respond-FailKeeps :
    (core : AgentCore) (i : ℕ) (s : AgentState) (answer : Result Decision)
    → FailKeeps SameState (respond core i s answer)
unfolding respond
respond-FailKeeps core i s answer =
    search (failing, record_invalid-SameState, check_range-SameState, commit_decision-FailKeeps)
      depth 9

-- A turn that raises, at whatever point, has saved no state.
pub turn-FailKeeps :
    (core : AgentCore) (observation : String) (decide : DecisionProvider) (source : String)
    → FailKeeps SameState (turn core observation decide source)
unfolding turn
turn-FailKeeps core observation decide source = search (failing, respond-FailKeeps)

load_state_of_SameState : (l m : Ledger) → SameState l m → load_state m ≡ load_state l
unfolding load_state
load_state_of_SameState l m h = rw h.state_snapshots

save_then_pure :
    {A : Type 0} (st : AgentState) (cause : Option ℕ) (x : A) (l : Ledger) (r : A)
    → ((modify (save_state st cause) >>= λ _. pure x) l).0 ≡ ok r
    → (r ≡ x) × (load_state ((modify (save_state st cause) >>= λ _. pure x) l).1 ≡ some st)
unfolding effects save_state load_state
save_then_pure st cause x l r h = (cc, refl)

-- What a turn promises: the decision `answer`, its verdict, and the state saved.
abbrev Done :
    AgentCore → AgentState → Result Decision → Decision × Option ActionVerdict → Ledger → Type 0
Done core s answer r m =
    (answer ≡ ok r.0)
    × (r.1 ≡ verdict_of core r.0)
    × (load_state m ≡ some (express_interest r.0.interest_tags s))

abbrev save_and_return :
    AgentCore → AgentState → Decision → Option ℕ → Exec Ledger (Decision × Option ActionVerdict)
save_and_return core s d cause = do
  modify (save_state (express_interest d.interest_tags s) cause)
  pure (d, verdict_of core d)

save-Done :
    (core : AgentCore) (s : AgentState) (d : Decision) (cause : Option ℕ) (l : Ledger)
    (r : Decision × Option ActionVerdict)
    → (save_and_return core s d cause l).0 ≡ ok r
    → Done core s (ok d) r (save_and_return core s d cause l).1
save-Done core s d cause l r h =
    let (e, saved) =
      save_then_pure (express_interest d.interest_tags s) cause (d, verdict_of core d) l r h in
    rw e (refl, refl, saved)

Done-of_answer :
    (core : AgentCore) (s : AgentState) (answer : Result Decision) (d : Decision) (m : Ledger)
    (r : Decision × Option ActionVerdict)
    → answer ≡ ok d
    → Done core s (ok d) r m
    → Done core s answer r m
Done-of_answer core s answer d m r e h = (e ∙ h.0, h.1, h.2)

commit_decision-Done :
    (core : AgentCore) (i : ℕ) (s : AgentState) (d : Decision) (c : ℤ) (l : Ledger)
    (r : Decision × Option ActionVerdict)
    → (commit_decision core i s d c l).0 ≡ ok r
    → Done core s (ok d) r (commit_decision core i s d c l).1
unfolding commit_decision
commit_decision-Done core i s d c l =
    Ensures-bind (Done core s (ok d)) _ _ l
      (λ e _. Ensures-bind (Done core s (ok d)) _ _ _ (λ _ _. save-Done core s d (some e.0) _))

record_invalid_raises :
    (i : ℕ) (m : String) (l : Ledger) (d : Decision) → (record_invalid i m l).0 ≡ ok d → ⊥
unfolding record_invalid effects
record_invalid_raises i m l d h = ground arith

answered :
    (i : ℕ) (answer : Result Decision) (l : Ledger) (d : Decision)
    → (on_value_error answer (record_invalid i) l).0 ≡ ok d
    → answer ≡ ok d
unfolding on_value_error
answered i (ok x) l d h = h
answered i (err (value_error m)) l d h = absurd (record_invalid_raises i m l d h)
answered i (err (runtime_error m)) l d h = cc
answered i (err (not_implemented m)) l d h = cc

respond-Done :
    (core : AgentCore) (i : ℕ) (s : AgentState) (answer : Result Decision) (l : Ledger)
    (r : Decision × Option ActionVerdict)
    → (respond core i s answer l).0 ≡ ok r
    → Done core s answer r (respond core i s answer l).1
unfolding respond
respond-Done core i s answer l = Ensures-bind (Done core s answer) _ _ l (λ d e.
    Ensures-bind (Done core s answer) _ _ _ (λ c _.
      Ensures-bind (Done core s answer) _ _ _ (λ _ _ r h.
        Done-of_answer core s answer d _ r (answered i answer l d e)
          (commit_decision-Done core i s d c _ r h))))

gets_ok : {A : Type 0} (f : Ledger → A) (l : Ledger) (a : A) → (gets f l).0 ≡ ok a → a ≡ f l
unfolding gets
gets_ok f l a h = cc

observed-SameState :
    (observation source : String) (l : Ledger)
    → load_state (record_event "observation" observation (field "source" (text source) end) l).1
      ≡ load_state l
unfolding load_state
observed-SameState observation source l =
    rw
      ((record_event-SameState "observation" observation (field "source" (text source) end)).at
        l).state_snapshots

-- `Done` at the context that the ledger `seen` gives, in terms of an earlier ledger with its state.
Done-of_context :
    (core : AgentCore) (observation : String) (decide : DecisionProvider) (l seen m : Ledger)
    (context : TurnContext) (r : Decision × Option ActionVerdict)
    → load_state seen ≡ load_state l
    → context ≡ turn_context core observation seen
    → Done core context.state (decide context) r m
    → Done core (from_dict (load_state l)) (decide (turn_context core observation seen)) r m
unfolding turn_context
Done-of_context core observation decide l seen m context r same e h =
    let h' = rw e at h in
    (h'.0, h'.1, h'.2 ∙ ap (λ o. some (express_interest r.0.interest_tags (from_dict o))) same)

-- A turn that returns has returned the provider's decision on the context that it was shown, with
-- the policy's verdict on its action, and has saved the state that the ledger held before, with the
-- decision's interests expressed.
pub turn_ok :
    (core : AgentCore) (observation : String) (decide : DecisionProvider) (source : String)
    (l : Ledger) {d : Decision} {v : Option ActionVerdict}
    → (turn core observation decide source l).0 ≡ ok (d, v)
    → let seen = (record_event "observation" observation (field "source" (text source) end) l).1 in
      (decide (turn_context core observation seen) ≡ ok d)
      × (v ≡ verdict_of core d)
      × (load_state (turn core observation decide source l).1
          ≡ some (express_interest d.interest_tags (from_dict (load_state l))))
unfolding turn
turn_ok core observation decide source l {d} {v} h =
    Ensures-bind Q _ _ l
      (λ o _. Ensures-bind Q _ _ seen (λ context e r k.
        Done-of_context core observation decide l seen _ context r
          (observed-SameState observation source l)
          (gets_ok (turn_context core observation) seen context e)
          (respond-Done core o.0 context.state (decide context) _ r k)))
      (d, v) h
  where
    seen : Ledger
    seen = (record_event "observation" observation (field "source" (text source) end) l).1

    Q : Decision × Option ActionVerdict → Ledger → Type 0
    Q r m = Done core (from_dict (load_state l)) (decide (turn_context core observation seen)) r m

-- A turn that raises, at whatever point, leaves the agent's state as it was.
pub failed_turn :
    (core : AgentCore) (observation : String) (decide : DecisionProvider) (source : String)
    (l : Ledger) (e : Error)
    → (turn core observation decide source l).0 ≡ err e
    → load_state (turn core observation decide source l).1 ≡ load_state l
failed_turn core observation decide source l e h =
    load_state_of_SameState l _ ((turn-FailKeeps core observation decide source).at l e h)

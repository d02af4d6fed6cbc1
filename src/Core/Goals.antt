-- ===== src/Core/Goals.antt =====
-- `close_goal` and `_active_goals` of src/suns_chan/core.py.
use sunns_chan.Prelude.{
  ℕ, Bool, String, ◌≡◌, refl, true, false, not, some, List, [], ◌∷◌, arith, any, select, take,
  value_error, ok, err, effects, is_blank, Bool-cases, inl, inr, ◌==◌, str_eq,
}
use sunns_chan.Prelude.Json.{num, field, end, get_field}
use sunns_chan.Prelude.Table.{next_id}
use sunns_chan.Ledger.{Ledger, Event, MemoryEvent, record_event, insert_event, new_event}
use sunns_chan.Core.{active_goals, close_goal, is_id}

-- Is the goal with this id among the active ones?
abbrev pub is_active : Ledger → ℕ → Bool
is_active l i = any (λ e. e.0 == i) (active_goals l)

-- Only an active goal can be closed: for any other id `close_goal` raises and writes nothing.
pub close_goal-inactive :
    (goal_id : ℕ) (reason : String) (l : Ledger)
    → is_active l goal_id ≡ false
    → close_goal goal_id reason l ≡ (err (value_error "only an active goal can be closed"), l)
unfolding close_goal effects
close_goal-inactive goal_id reason l h = rw h

names : ℕ → MemoryEvent → Bool
names g c = is_id g (get_field c.1.metadata "goal_id")

is_id_self : (g : ℕ) → is_id g (some (num g)) ≡ true
is_id_self g = ground arith

-- A goal that some closing names is filtered out.
not-active-closed :
    (g : ℕ) (closed xs : List MemoryEvent)
    → any (names g) closed ≡ true
    → any (λ e. e.0 == g) (select (λ e. not (any (names e.0) closed)) xs) ≡ false
not-active-closed g closed [] h = refl
not-active-closed g closed ((i, e) ∷ xs) h = elim (Bool-cases (i == g)) [
  | inl is_g ↦ let same : i ≡ g = ground arith in rw (same, h) (not-active-closed g closed xs h)
  | inr other ↦ ground (arith, not-active-closed g closed xs h)
]

-- With a closing of `g` on top of the ledger, `g` is not active.
closed_on_top :
    (g i : ℕ) (e : Event) (l : Ledger)
    → str_eq e.kind "goal_closed" ≡ true
    → names g (i, e) ≡ true
    → is_active (record l { events = (i, e) ∷ l.events }) g ≡ false
unfolding active_goals names
closed_on_top g i e l hk hn =
    let others : List MemoryEvent = select (λ x. str_eq x.1.kind "goal_closed") l.events in
    rw hk (not-active-closed g ((i, e) ∷ take 99 others) _ (rw hn))

-- Closing an active goal, for a reason that is not blank, returns the new event, and the goal is not
-- active afterwards.
pub close_goal-active :
    (goal_id : ℕ) (reason : String) (l : Ledger)
    → is_active l goal_id ≡ true
    → is_blank reason ≡ false
    → ((close_goal goal_id reason l).0
        ≡ ok (
          next_id l.events,
          new_event l "goal_closed" reason (field "goal_id" (num goal_id) end),
        ))
      × (is_active (close_goal goal_id reason l).1 goal_id ≡ false)
unfolding close_goal effects record_event insert_event names get_field is_blank
close_goal-active goal_id reason l h hr =
    rw (h, hr) (refl, closed_on_top goal_id _ _ l refl (is_id_self goal_id))

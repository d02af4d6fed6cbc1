-- ===== src/Ledger/History.antt =====
-- The history that `EventLedger` of src/suns_chan/memory.py keeps, and its reads.
use sunns_chan.Prelude.{
  ℕ, ◌≤◌, String, ◌≡◌, refl, true, false, Option, some, All, All-take, All-select, arith,
  Bool-cases, inl, inr, ◌||◌, str_eq, is_blank, ok, Keeps, effects, modify, ◌∙◌, length,
  length-take-le, select,
}
use sunns_chan.Prelude.Json.{Fields}
use sunns_chan.Prelude.Table.{Extends, Extends-trans, same, more, next_id, fetch}
use sunns_chan.Prelude.Rules.{Reflexive, Transitive}
use sunns_chan.State.{AgentState}
use sunns_chan.Ledger.{Ledger, record_event, events_of_kind, save_state, load_state, new_event}

-- The ledger `m` is the ledger `l` with rows added on top of its two tables.
pub record IsLater (l m : Ledger) : Type 0 where
  pub events : Extends l.events m.events
  pub state_snapshots : Extends l.state_snapshots m.state_snapshots
  pub clock : m.clock ≡ l.clock

-- The snapshots are the same ones.
pub record SameState (l m : Ledger) : Type 0 where
  pub state_snapshots : m.state_snapshots ≡ l.state_snapshots

pub IsLater-refl : Reflexive IsLater
IsLater-refl l = record { events = same; state_snapshots = same; clock = refl }

pub IsLater-trans : Transitive IsLater
IsLater-trans l m n p q = record {
  events = Extends-trans p.events q.events;
  state_snapshots = Extends-trans p.state_snapshots q.state_snapshots;
  clock = q.clock ∙ p.clock;
}

pub SameState-refl : Reflexive SameState
SameState-refl l = record { state_snapshots = refl }

pub SameState-trans : Transitive SameState
SameState-trans l m n p q = record { state_snapshots = q.state_snapshots ∙ p.state_snapshots }

module _ (kind text : String) (metadata : Fields) where
  -- Recording an event adds at most one row on top of the ledger, and edits none.
  pub record_event-IsLater : Keeps IsLater (record_event kind text metadata)
  unfolding record_event effects
  record_event-IsLater = record {
    at = λ l. elim (Bool-cases (is_blank kind || is_blank text)) [
      | inl blank ↦ rw blank (IsLater-refl l)
      | inr full ↦ rw full (record { events = more _ same; state_snapshots = same; clock = refl })
    ];
  }

  pub record_event-SameState : Keeps SameState (record_event kind text metadata)
  unfolding record_event effects
  record_event-SameState = record {
    at = λ l. elim (Bool-cases (is_blank kind || is_blank text)) [
      | inl blank ↦ rw blank (SameState-refl l)
      | inr full ↦ rw full (record { state_snapshots = refl })
    ];
  }

pub save_state-IsLater :
    (s : AgentState) (cause : Option ℕ) → Keeps IsLater (modify (save_state s cause))
unfolding save_state effects
save_state-IsLater s cause = record {
  at = λ l. record { events = same; state_snapshots = more _ same; clock = refl };
}

-- A recorded event with a kind and a text that are not blank can be looked up under the id that is
-- returned.
pub record_event_lem :
    (kind text : String) (metadata : Fields) (l : Ledger)
    → is_blank kind ≡ false
    → is_blank text ≡ false
    → let i = next_id l.events in
      ((record_event kind text metadata l).0 ≡ ok (i, new_event l kind text metadata))
      × (fetch i (record_event kind text metadata l).1.events
          ≡ some (new_event l kind text metadata))
unfolding record_event effects
record_event_lem kind text metadata l hk ht = rw (hk, ht) (refl, ground arith)

-- Everything that `events_of_kind` returns has the kind that was asked for, and there are at most
-- `limit` of them.
pub events_of_kind_lem :
    (l : Ledger) (kind : String) (limit : ℕ)
    → All (λ e. str_eq e.1.kind kind ≡ true) (events_of_kind l kind limit)
      × (length (events_of_kind l kind limit) ≤ limit)
unfolding events_of_kind
events_of_kind_lem l kind limit = (
  All-take _ limit _ (All-select (λ e. str_eq e.1.kind kind) l.events),
  length-take-le limit (select (λ e. str_eq e.1.kind kind) l.events),
)

-- The state that was saved last is the state that is loaded.
pub load_state-save_state :
    (s : AgentState) (cause : Option ℕ) (l : Ledger) → load_state (save_state s cause l) ≡ some s
unfolding load_state save_state
load_state-save_state s cause l = refl

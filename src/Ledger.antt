-- ===== src/Ledger.antt =====
-- `EventLedger` of src/suns_chan/memory.py, without `recall`: the events table and the state
-- snapshots of one SQLite file, newest row first.
pub mod History
use sunns_chan.Prelude.{
  ℕ, String, Bool, Option, none, some, List, [], ◌∷◌, ◌||◌, if◌then◌else◌, str_eq, is_blank, Error,
  value_error, Result, ok, err, Exec, raise_if, ◌>>=◌, ◌>>◌, pure, map, fstring, str,
}
use sunns_chan.Prelude.Json.{Fields}
use sunns_chan.Prelude.Table.{Table, append, next_id, fetch, newest}
use sunns_chan.State.{AgentState}

pub record Event : Type 0 where
  pub occurred_at : ℕ
  pub kind : String
  pub text : String
  pub metadata : Fields

pub record Snapshot : Type 0 where
  pub occurred_at : ℕ
  pub cause_event_id : Option ℕ
  pub state : AgentState

-- `clock i` is the time at which the row with id `i` is written: any function of the row.
pub record Ledger : Type 0 where
  pub clock : ℕ → ℕ
  pub events : Table Event
  pub state_snapshots : Table Snapshot

-- A `MemoryEvent`: a row with its id.
abbrev pub MemoryEvent : Type 0
MemoryEvent = ℕ × Event

-- The row that `record` writes.
abbrev pub new_event : Ledger → String → String → Fields → Event
new_event l kind text metadata = record {
  occurred_at = l.clock (next_id l.events);
  kind = kind;
  text = text;
  metadata = metadata;
}

unfoldable pub insert_event : String → String → Fields → Exec Ledger MemoryEvent
insert_event kind text metadata l =
    let e = new_event l kind text metadata in
    (ok (next_id l.events, e), record l { events = append e l.events })

-- `EventLedger.record`
unfoldable pub record_event : String → String → Fields → Exec Ledger MemoryEvent
unfolding insert_event
record_event kind text metadata =
    raise_if (is_blank kind || is_blank text) (value_error "kind and text must be non-empty")
    >> insert_event kind text metadata

-- `EventLedger.events_of_kind`
unfoldable pub events_of_kind : Ledger → String → ℕ → List MemoryEvent
events_of_kind l kind limit = newest (λ e. str_eq e.kind kind) limit l.events

-- `EventLedger.save_state`
unfoldable pub save_state : AgentState → Option ℕ → Ledger → Ledger
save_state state cause l = record l {
  state_snapshots =
      append
        (record {
          occurred_at = l.clock (next_id l.state_snapshots);
          cause_event_id = cause;
          state = state;
        })
        l.state_snapshots;
}

newest_state : Table Snapshot → Option AgentState
newest_state [] = none
newest_state ((_, s) ∷ _) = some s.state

-- `EventLedger.load_state`
unfoldable pub load_state : Ledger → Option AgentState
unfolding newest_state
load_state l = newest_state l.state_snapshots

-- `require_event` of memory.py
unfoldable pub require_event : Ledger → ℕ → Result (Unit {0})
require_event l event_id = elim (fetch event_id l.events) [
  | none ↦ err (value_error (fstring ("source event does not exist: " ∷ str event_id ∷ [])))
  | some _ ↦ ok tt
]

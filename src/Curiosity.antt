-- ===== src/Curiosity.antt =====
-- src/suns_chan/curiosity.py: curiosities and their lifecycle. Scores are ten-thousandths.
pub mod Lifecycle
pub mod Store
pub mod Scores
use sunns_chan.Prelude.{
  ℕ, ◌+◌, min, String, Bool, true, false, not, ◌&&◌, ◌||◌, Option, none, some, List, [], ◌∷◌,
  if◌then◌else◌, leb, str_eq, is_blank, strip, lower, fstring, str, Error, value_error, Result, ok,
  err, Exec, raise_if, or_raise, lift, modify, ◌>>=◌, ◌>>◌, take, map,
}
use sunns_chan.Prelude.Int.{pos, pos_part, leb_ℤ}
use sunns_chan.Prelude.Json.{Json, float, as_number}
use sunns_chan.Prelude.Table.{Table, append, next_id, fetch, update, newest}
use sunns_chan.Prelude.Rows.{get_row, add_row, change_row}
use sunns_chan.Ledger.{Ledger, require_event}

pub data Status : Type 0 where
  new active investigating answered abandoned reopened : Status

-- `STATUSES`: the status that a text names.
unfoldable pub parse_status : String → Option Status
parse_status s =
    if str_eq s "new"
    then some new
    else if str_eq s "active"
    then some active
    else if str_eq s "investigating"
    then some investigating
    else if str_eq s "answered"
    then some answered
    else if str_eq s "abandoned"
    then some abandoned
    else if str_eq s "reopened"
    then some reopened
    else none

abbrev pub name : Status → String
name new = "new"
name active = "active"
name investigating = "investigating"
name answered = "answered"
name abandoned = "abandoned"
name reopened = "reopened"

-- `_TRANSITIONS`
unfoldable pub can_move : Status → Status → Bool
can_move new active = true
can_move new abandoned = true
can_move active investigating = true
can_move active answered = true
can_move active abandoned = true
can_move investigating answered = true
can_move investigating active = true
can_move investigating abandoned = true
can_move answered reopened = true
can_move abandoned reopened = true
can_move reopened active = true
can_move reopened investigating = true
can_move reopened answered = true
can_move reopened abandoned = true
can_move _ _ = false

pub record Curiosity : Type 0 where
  pub created_at : ℕ
  pub updated_at : ℕ
  pub question : String
  pub origin_event_id : ℕ
  pub topic : String
  pub importance : ℕ
  pub novelty : ℕ
  pub confidence : ℕ
  pub status : Status

abbrev pub Curiosities : Type 0
Curiosities = Table Curiosity

-- `_clamp`: a number from 0 to 1, and no bool.
unfoldable pub clamp : Json → Result ℕ
clamp v = elim (as_number v) [
  | none ↦ err (value_error "curiosity scores must be numbers between 0 and 1")
  | some z ↦
      if leb_ℤ (pos 0) z && leb_ℤ z (pos 10000)
      then ok (pos_part z)
      else err (value_error "curiosity scores must be between 0 and 1")
]

-- `CuriosityStore.get`
unfoldable pub get : ℕ → Exec Curiosities (ℕ × Curiosity)
get = get_row "unknown curiosity: "

-- The row that `open` inserts.
abbrev pub new_curiosity : ℕ → String → ℕ → String → ℕ → ℕ → Curiosity
new_curiosity now question origin_event_id topic importance novelty = record {
  created_at = now;
  updated_at = now;
  question = strip question;
  origin_event_id = origin_event_id;
  topic = lower (strip topic);
  importance = importance;
  novelty = novelty;
  confidence = 4000;
  status = new;
}

-- `CuriosityStore.open`, at the time `now`
unfoldable pub open_curiosity :
    Ledger → ℕ → String → ℕ → String → Json → Json → Exec Curiosities (ℕ × Curiosity)
open_curiosity l now question origin_event_id topic importance novelty = do
  raise_if (is_blank question) (value_error "curiosity question must be non-empty")
  lift (require_event l origin_event_id)
  i ← lift (clamp importance)
  n ← lift (clamp novelty)
  add_row "unknown curiosity: " (new_curiosity now question origin_event_id topic i n)

-- The confidence after a move to a status.
unfoldable pub confidence_after : Status → ℕ → Result ℕ
confidence_after active c = clamp (float (pos (min 9000 (c + 1000))))
confidence_after investigating c = clamp (float (pos (min 9000 (c + 1000))))
confidence_after answered c = clamp (float (pos (min 9500 (c + 1500))))
confidence_after _ c = ok c

-- `CuriosityStore.transition`, at the time `now`
unfoldable pub transition : Ledger → ℕ → ℕ → String → ℕ → Exec Curiosities (ℕ × Curiosity)
transition l now curiosity_id to_status evidence_event_id = do
  target ←
      or_raise (parse_status to_status)
        (value_error (fstring ("unknown curiosity status: " ∷ to_status ∷ [])))
  row ← get curiosity_id
  raise_if (not (can_move row.1.status target)) (
      value_error
        (fstring ("cannot move curiosity " ∷ name row.1.status ∷ " -> " ∷ to_status ∷ [])))
  lift (require_event l evidence_event_id)
  c ← lift (confidence_after target row.1.confidence)
  change_row "unknown curiosity: " curiosity_id
      (λ r. record r { status = target; confidence = c; updated_at = now })

-- The statuses of a curiosity that is still open.
abbrev pub is_open : Status → Bool
is_open new = true
is_open active = true
is_open reopened = true
is_open investigating = true
is_open _ = false

-- ORDER BY importance DESC, id DESC: rows come newest first, and equal importance keeps that order.
unfoldable pub insert_by_importance : ℕ × Curiosity → List (ℕ × Curiosity) → List (ℕ × Curiosity)
insert_by_importance x [] = x ∷ []
insert_by_importance x (y ∷ ys) =
    if leb y.1.importance x.1.importance then x ∷ y ∷ ys else y ∷ insert_by_importance x ys

unfoldable pub sort_by_importance : List (ℕ × Curiosity) → List (ℕ × Curiosity)
unfolding insert_by_importance
sort_by_importance [] = []
sort_by_importance (x ∷ xs) = insert_by_importance x (sort_by_importance xs)

-- `CuriosityStore.open_curiosities`
unfoldable pub open_curiosities : ℕ → Curiosities → List (ℕ × Curiosity)
unfolding sort_by_importance
open_curiosities limit t =
    take limit (sort_by_importance (newest (λ r. is_open r.status) (next_id t) t))

-- `CuriosityStore.all`
unfoldable pub all_curiosities : ℕ → Curiosities → List (ℕ × Curiosity)
all_curiosities limit t = newest (λ r. true) limit t

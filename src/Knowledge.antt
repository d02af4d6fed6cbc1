-- ===== src/Knowledge.antt =====
-- src/suns_chan/knowledge.py: revisable claims that link back to their source events. Scores are
-- ten-thousandths.
pub mod Views
pub mod Standing
pub mod Store
pub mod Sources
pub mod Revision
use Standing.{
  Status, active, uncertain, contradicted, outdated, superseded, rejected, archived, status_eq,
  parse_status,
}
use sunns_chan.Prelude.{
  ℕ, ◌+◌, String, Bool, true, false, not, ◌&&◌, ◌||◌, Option, none, some, List, [], ◌∷◌,
  if◌then◌else◌, ltb, leb, ◌==◌, str_eq, any, select, take, is_blank, strip, lower, fstring, str,
  member, Error, value_error, Result, ok, err, Exec, raise_if, or_raise, lift, gets, pure, modify,
  ◌>>=◌, ◌>>◌,
}
use sunns_chan.Prelude.Int.{ℤ, pos, leb_ℤ, ◌+ℤ◌}
use sunns_chan.Prelude.Json.{Json, null, get_field, get_field_or}
use sunns_chan.Prelude.Table.{Table, append, next_id, fetch, update, newest}
use sunns_chan.Prelude.Rows.{get_row, add_row, change_row}
use sunns_chan.State.{clamp}
use sunns_chan.Ledger.{Ledger, Event, require_event}

pub record KnowledgeRecord : Type 0 where
  pub statement : String
  pub confidence : ℕ
  pub source_ids : List ℕ
  pub status : Status
  pub supersedes_id : Option ℕ
  pub created_at : ℕ
  pub updated_at : ℕ
  pub reason : String
  pub tags : List String

abbrev pub Knowledge : Type 0
Knowledge = Table KnowledgeRecord

append_tag : String → List String → List String
append_tag t [] = t ∷ []
append_tag t (c ∷ cs) = c ∷ append_tag t cs

-- `normalize_tags` of src/suns_chan/textutil.py; `clean` is what has been collected.
unfoldable pub normalize_tags : List String → List String → List String
unfolding append_tag
normalize_tags [] clean = clean
normalize_tags (tag ∷ tags) clean =
    let t = lower (strip tag) in
    normalize_tags tags
      (if not (str_eq t "") && not (member t clean) then append_tag t clean else clean)

-- `sorted(set(ids))`, one id at a time.
unfoldable pub insert_id : ℕ → List ℕ → List ℕ
insert_id i [] = i ∷ []
insert_id i (j ∷ js) = if i == j then j ∷ js else if ltb i j then i ∷ j ∷ js else j ∷ insert_id i js

unfoldable pub sorted_ids : List ℕ → List ℕ
unfolding insert_id
sorted_ids [] = []
sorted_ids (i ∷ is) = insert_id i (sorted_ids is)

-- `_require_sources_exist`
unfoldable pub require_sources : Ledger → List ℕ → Result (Unit {0})
require_sources l [] = ok tt
require_sources l (i ∷ is) = elim (fetch i l.events) [
  | none ↦ err (value_error (fstring ("source event does not exist: " ∷ str i ∷ [])))
  | some _ ↦ require_sources l is
]

-- `KnowledgeStore.get`
unfoldable pub get : ℕ → Exec Knowledge (ℕ × KnowledgeRecord)
get = get_row "unknown knowledge record: "

-- The row that `propose` inserts.
abbrev pub new_record : ℕ → String → List ℕ → ℤ → String → List String → KnowledgeRecord
new_record now statement sources confidence reason tags = record {
  statement = strip statement;
  confidence = clamp confidence;
  source_ids = sorted_ids sources;
  status = active;
  supersedes_id = none;
  created_at = now;
  updated_at = now;
  reason = reason;
  tags = normalize_tags tags [];
}

abbrev pub is_empty : List ℕ → Bool
is_empty [] = true
is_empty (x ∷ xs) = false

-- `KnowledgeStore.propose`, at the time `now`
unfoldable pub propose :
    Ledger → ℕ → String → List ℕ → ℤ → String → List String → Exec Knowledge (ℕ × KnowledgeRecord)
propose l now statement sources confidence reason tags = do
  raise_if (is_blank statement) (value_error "knowledge statement must be non-empty")
  raise_if (is_empty sources) (value_error "knowledge must link to at least one source event")
  raise_if (not (leb_ℤ (pos 0) confidence && leb_ℤ confidence (pos 10000)))
      (value_error "confidence must be between 0 and 1")
  lift (require_sources l (sorted_ids sources))
  add_row "unknown knowledge record: " (new_record now statement sources confidence reason tags)

-- `KnowledgeStore.affirm`, at the time `now`
unfoldable pub affirm : Ledger → ℕ → ℕ → ℕ → ℤ → Exec Knowledge (ℕ × KnowledgeRecord)
affirm l now record_id source_id boost = do
  row ← get record_id
  raise_if (not (status_eq row.1.status active))
      (value_error "only an active record can be affirmed")
  lift (require_sources l (source_id ∷ []))
  let c = clamp (pos row.1.confidence +ℤ boost)
  let ids = sorted_ids (source_id ∷ row.1.source_ids)
  change_row "unknown knowledge record: " record_id
      (λ r. record r { source_ids = ids; confidence = c; updated_at = now })

-- May a record of this status still be replaced, contradicted, rejected or outdated?
abbrev pub is_standing : Status → Bool
is_standing s = status_eq s active || status_eq s uncertain

-- The two UPDATEs that link a new record to the one that it replaces.
unfoldable pub link : ℕ → ℕ → Status → ℕ → Exec Knowledge (ℕ × KnowledgeRecord)
link now old_id target new_id = do
  modify (update old_id (λ r. record r { status = target; updated_at = now }))
  change_row "unknown knowledge record: " new_id (λ r. record r { supersedes_id = some old_id })

-- The body that `supersede` and `contradict` share, with their messages and the old record's new status.
unfoldable pub replace :
    String
    → String
    → Status
    → Ledger
    → ℕ
    → ℕ
    → String
    → List ℕ
    → ℤ
    → String
    → List String
    → Exec Knowledge (ℕ × KnowledgeRecord)
replace not_standing blank target l now old_id statement sources confidence reason tags = do
  old ← get old_id
  raise_if (not (is_standing old.1.status)) (value_error not_standing)
  raise_if (is_blank statement) (value_error blank)
  fresh ← propose l now statement sources confidence reason tags
  link now old_id target fresh.0

-- `KnowledgeStore.supersede`, at the time `now`
unfoldable pub supersede :
    Ledger → ℕ → ℕ → String → List ℕ → ℤ → String → Exec Knowledge (ℕ × KnowledgeRecord)
supersede l now old_id statement sources confidence reason =
    replace "only an active or uncertain record can be superseded"
      "replacement statement must be non-empty" superseded l now old_id statement sources confidence
      reason []

-- `KnowledgeStore.contradict`, at the time `now`
unfoldable pub contradict :
    Ledger
    → ℕ
    → ℕ
    → String
    → List ℕ
    → ℤ
    → String
    → List String
    → Exec Knowledge (ℕ × KnowledgeRecord)
contradict l now old_id statement sources confidence reason tags =
    replace "only an active or uncertain record can be contradicted"
      "contradicting statement must be non-empty" contradicted l now old_id statement sources
      confidence reason tags

-- The change that the four markings share.
abbrev pub marked : Status → String → ℕ → KnowledgeRecord → KnowledgeRecord
marked target reason now r = record r { status = target; reason = strip reason; updated_at = now }

-- The body that the four markings share: which statuses may be left, and the two messages.
unfoldable pub mark :
    (Status → Bool)
    → String
    → String
    → Status
    → ℕ
    → ℕ
    → String
    → Exec Knowledge (ℕ × KnowledgeRecord)
mark may_leave not_allowed no_reason target now record_id reason = do
  row ← get record_id
  raise_if (not (may_leave row.1.status)) (value_error not_allowed)
  raise_if (is_blank reason) (value_error no_reason)
  change_row "unknown knowledge record: " record_id (marked target reason now)

-- `KnowledgeStore.reject`, at the time `now`
unfoldable pub reject : ℕ → ℕ → String → Exec Knowledge (ℕ × KnowledgeRecord)
reject =
    mark is_standing "only an active or uncertain record can be rejected" "rejection needs a reason"
      rejected

-- `KnowledgeStore.mark_uncertain`, at the time `now`
unfoldable pub mark_uncertain : ℕ → ℕ → String → Exec Knowledge (ℕ × KnowledgeRecord)
mark_uncertain =
    mark (λ s. status_eq s active) "only an active record can be marked uncertain"
      "uncertainty needs a reason" uncertain

-- `KnowledgeStore.mark_outdated`, at the time `now`
unfoldable pub mark_outdated : ℕ → ℕ → String → Exec Knowledge (ℕ × KnowledgeRecord)
mark_outdated =
    mark is_standing "only an active or uncertain record can be marked outdated"
      "outdated needs a reason" outdated

-- `KnowledgeStore.archive`, at the time `now`
unfoldable pub archive : ℕ → ℕ → String → Exec Knowledge (ℕ × KnowledgeRecord)
archive =
    mark (λ s. not (status_eq s archived)) "record is already archived" "archive needs a reason"
      archived

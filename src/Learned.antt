-- ===== src/Learned.antt =====
-- src/suns_chan/learned.py: learned objects, their evidence and their confidence. Shares are
-- ten-thousandths, which is what the code rounds to; a tie, which the evidence term has only beyond a
-- hundred sightings, is rounded away from 0.
pub mod Confidence
pub mod Evidence
pub mod Again
pub mod Upkeep
pub mod Strategy
pub mod Multiplier
pub mod Provenance
use sunns_chan.Prelude.{
  ℕ, ◌+◌, ◌-◌, ◌*◌, ◌/◌, min, max, String, Bool, true, false, not, ◌&&◌, ◌||◌, Option, none, some,
  List, [], ◌∷◌, ◌++◌, length, if◌then◌else◌, ltb, leb, ◌==◌, str_eq, member, is_blank, strip,
  take_text, fstring, str, Error, value_error, Result, ok, err, Exec, pure, raise_if, lift, gets,
  modify, ◌>>=◌, ◌>>◌, take, any,
}
use sunns_chan.Prelude.Int.{ℤ, pos, negsuc, pos_part, ◌+ℤ◌, sub_ℕ}
use sunns_chan.Prelude.Json.{Json}
use sunns_chan.Prelude.Dict.{Dict, has_key}
use sunns_chan.Prelude.Table.{Table, newest}
use sunns_chan.Prelude.Rows.{get_row, add_row, change_row}
use sunns_chan.Ledger.{Ledger, require_event}

-- `KINDS`
abbrev pub kinds : List String
kinds = "pattern" ∷ "skill" ∷ "preference" ∷ "strategy" ∷ []

pub data Status : Type 0 where
  candidate established uncertain contradicted superseded : Status

abbrev pub is_established : Status → Bool
is_established established = true
is_established _ = false

abbrev pub is_contradicted : Status → Bool
is_contradicted contradicted = true
is_contradicted _ = false

-- `ConfidenceBreakdown`, without the sentence that spells it out
pub record ConfidenceBreakdown : Type 0 where
  pub confidence : ℕ
  pub support : ℕ
  pub contradictions : ℕ
  pub evidence_term : ℤ
  pub diversity_bonus : ℕ
  pub recency_bonus : ℕ

-- `round(0.4 * d / total, 4)` for a `d` that is not negative
abbrev pub share : ℕ → ℕ → ℕ
share d total = (8000 * d + total) / (2 * total)

-- The evidence term, with its sign.
unfoldable pub evidence_term : ℕ → ℕ → ℤ
evidence_term support contra =
    let total = support + contra + 4 in
    if leb contra support
    then pos (share (support - contra) total)
    else sub_ℕ 0 (share (contra - support) total)

-- `max(0.05, min(0.95, ...))`
abbrev pub clamped : ℤ → ℕ
clamped z = max 500 (min 9500 (pos_part z))

abbrev pub recency : Bool → ℕ
recency recent = if recent then 300 else 0

-- `compute_confidence`, on counts, which are not negative
unfoldable pub compute_confidence : ℕ → ℕ → ℕ → Bool → ConfidenceBreakdown
compute_confidence support contra diversity recent =
    let e = evidence_term support contra in
    let d = min 1000 (200 * diversity) in
    record {
      confidence = clamped (pos 5000 +ℤ e +ℤ pos d +ℤ pos (recency recent));
      support = support;
      contradictions = contra;
      evidence_term = e;
      diversity_bonus = d;
      recency_bonus = recency recent;
    }

unfoldable pub status_for : ℕ → ℕ → ℕ → Status
status_for support contra confidence =
    if ltb support contra && leb 2 (support + contra)
    then contradicted
    else if ltb support 3
    then candidate
    else if ltb confidence 4000 || ltb 0 contra && leb (max 1 support) (2 * contra)
    then uncertain
    else established

pub record LearnedObject : Type 0 where
  pub kind : String
  pub subject : String
  pub predicate : String
  pub conditions : Dict Json
  pub confidence : ℕ
  pub supporting_ids : List ℕ
  pub contradicting_ids : List ℕ
  pub status : Status
  pub knowledge_id : Option ℕ
  pub created_at : ℕ
  pub updated_at : ℕ
  pub last_observed : ℕ

abbrev pub LearnedStore : Type 0
LearnedStore = Table LearnedObject

abbrev pub has_id : ℕ → List ℕ → Bool
has_id i = any (λ j. j == i)

-- `len(set(ids))`
unfoldable pub count_distinct : List ℕ → ℕ
count_distinct [] = 0
count_distinct (i ∷ ids) = let rest = count_distinct ids in if has_id i ids then rest else rest + 1

-- `setdefault`, for every condition
unfoldable pub merge_conditions : Dict Json → Dict Json → Dict Json
merge_conditions merged [] = merged
merge_conditions merged ((k, v) ∷ conditions) =
    merge_conditions (if has_key k merged then merged else merged ++ (k, v) ∷ []) conditions

-- SELECT * FROM learned_objects WHERE kind = ? AND subject = ?
abbrev pub names : String → String → LearnedObject → Bool
names kind subject r = str_eq r.kind kind && str_eq r.subject subject

unfoldable pub find_learned : String → String → LearnedStore → Option (ℕ × LearnedObject)
find_learned kind subject [] = none
find_learned kind subject ((i, r) ∷ t) =
    if names kind subject r then some (i, r) else find_learned kind subject t

-- `LearnedStore.get`
unfoldable pub get : ℕ → Exec LearnedStore (ℕ × LearnedObject)
get = get_row "unknown learned object: "

-- The row that the first sighting inserts.
abbrev pub first_sighting : ℕ → String → String → ℕ → String → Dict Json → Bool → LearnedObject
first_sighting now kind subject event_id predicate conditions contradicts = record {
  kind = kind;
  subject = subject;
  predicate = predicate;
  conditions = conditions;
  confidence = 5000;
  supporting_ids = if contradicts then [] else event_id ∷ [];
  contradicting_ids = if contradicts then event_id ∷ [] else [];
  status = candidate;
  knowledge_id = none;
  created_at = now;
  updated_at = now;
  last_observed = now;
}

-- The confidence that new evidence gives.
abbrev pub confidence_of : List ℕ → List ℕ → ℕ
confidence_of support contra =
    (compute_confidence (length support) (length contra) (count_distinct (support ++ contra))
      true).confidence

-- The row with the given evidence.
abbrev pub with_evidence : ℕ → List ℕ → List ℕ → LearnedObject → LearnedObject
with_evidence now support contra r = record r {
  supporting_ids = support;
  contradicting_ids = contra;
  confidence = confidence_of support contra;
  status = status_for (length support) (length contra) (confidence_of support contra);
  updated_at = now;
  last_observed = now;
}

-- The row after one more sighting.
unfoldable pub sighted : ℕ → ℕ → Dict Json → Bool → LearnedObject → LearnedObject
sighted now event_id conditions contradicts r =
    let merged = record r { conditions = merge_conditions r.conditions conditions } in
    if contradicts
    then with_evidence now r.supporting_ids (r.contradicting_ids ++ event_id ∷ []) merged
    else with_evidence now (r.supporting_ids ++ event_id ∷ []) r.contradicting_ids merged

abbrev pub is_counted : ℕ → LearnedObject → Bool
is_counted event_id r = has_id event_id r.supporting_ids || has_id event_id r.contradicting_ids

-- What `observe` does with the row that it finds, or finds missing.
unfoldable pub sight :
    ℕ
    → String
    → String
    → ℕ
    → String
    → Dict Json
    → Bool
    → Option (ℕ × LearnedObject)
    → Exec LearnedStore (ℕ × LearnedObject)
sight now kind subject event_id predicate conditions contradicts none =
    add_row "unknown learned object: "
      (first_sighting now kind subject event_id predicate conditions contradicts)
sight now kind subject event_id predicate conditions contradicts (some (i, r)) =
    if is_counted event_id r
    then get i
    else change_row "unknown learned object: " i (sighted now event_id conditions contradicts)

-- The subject as it is stored; `scrub_secrets` is that of src/suns_chan/comms.py.
abbrev pub stored_subject : (String → String) → String → String
stored_subject scrub_secrets subject = strip (take_text 300 (scrub_secrets (strip subject)))

-- `LearnedStore.observe`, at the time `now`
unfoldable pub observe :
    (String → String)
    → Ledger
    → ℕ
    → String
    → String
    → ℕ
    → String
    → Dict Json
    → Bool
    → Exec LearnedStore (ℕ × LearnedObject)
observe scrub_secrets l now kind subject event_id predicate conditions contradicts = do
  raise_if (not (member kind kinds)) (value_error (fstring ("unknown learned kind: " ∷ kind ∷ [])))
  raise_if (is_blank subject) (value_error "subject must be non-empty")
  lift (require_event l event_id)
  row ← gets (find_learned kind (stored_subject scrub_secrets subject))
  sight now kind (stored_subject scrub_secrets subject) event_id predicate conditions contradicts
      row

-- A correction keeps a row from being established.
abbrev pub capped : Status → Status
capped established = uncertain
capped s = s

-- The row after a correction.
unfoldable pub corrected : ℕ → ℕ → LearnedObject → LearnedObject
corrected now event_id r =
    let s = with_evidence now r.supporting_ids (r.contradicting_ids ++ event_id ∷ []) r in
    record s { status = capped s.status }

-- `LearnedStore.apply_correction`
unfoldable pub apply_correction : Ledger → ℕ → ℕ → ℕ → Exec LearnedStore (ℕ × LearnedObject)
apply_correction l now learned_id event_id = do
  lift (require_event l event_id)
  get learned_id
  change_row "unknown learned object: " learned_id (corrected now event_id)

-- The row after a decay.
unfoldable pub decayed : ℕ → LearnedObject → LearnedObject
decayed now r =
    let c = max 500 (r.confidence - 1000) in
    record r {
      confidence = c;
      status =
          if is_contradicted r.status
          then contradicted
          else status_for (length r.supporting_ids) (length r.contradicting_ids) c;
      updated_at = now;
    }

-- `LearnedStore.apply_decay`
unfoldable pub apply_decay : ℕ → ℕ → String → Exec LearnedStore (ℕ × LearnedObject)
apply_decay now learned_id reason = do
  raise_if (is_blank reason) (value_error "decay needs a reason")
  get learned_id
  change_row "unknown learned object: " learned_id (decayed now)

-- `LearnedStore.link_knowledge`
unfoldable pub link_knowledge : ℕ → ℕ → ℕ → Exec LearnedStore (ℕ × LearnedObject)
link_knowledge now learned_id knowledge_id = do
  get learned_id
  change_row "unknown learned object: " learned_id
      (λ r. record r { knowledge_id = some knowledge_id; updated_at = now })

abbrev pub same_status : Status → Status → Bool
same_status candidate candidate = true
same_status established established = true
same_status uncertain uncertain = true
same_status contradicted contradicted = true
same_status superseded superseded = true
same_status _ _ = false

abbrev pub has_status : Option (List Status) → LearnedObject → Bool
has_status none r = true
has_status (some statuses) r = any (same_status r.status) statuses

-- `LearnedStore.by_kind`, with statuses of `STATUSES`
unfoldable pub by_kind :
    String → Option (List Status) → ℕ → LearnedStore → Result (List (ℕ × LearnedObject))
by_kind kind statuses limit t =
    if not (member kind kinds)
    then err (value_error (fstring ("unknown learned kind: " ∷ kind ∷ [])))
    else ok (newest (λ r. str_eq r.kind kind && has_status statuses r) limit t)

-- `LearnedStore.all`
unfoldable pub all_learned : ℕ → LearnedStore → List (ℕ × LearnedObject)
all_learned = newest (λ _. true)

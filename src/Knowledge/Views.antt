-- ===== src/Knowledge/Views.antt =====
-- The queries of src/suns_chan/knowledge.py: successors, explanations, provenance, and lists.
use sunns_chan.Knowledge.Standing.{
  Status, active, uncertain, contradicted, outdated, status_eq, parse_status,
}
use sunns_chan.Prelude.{
  ℕ, String, Bool, true, false, Option, none, some, List, [], ◌∷◌, if◌then◌else◌, ◌==◌, any,
  fstring, value_error, Exec, or_raise, gets, pure, ◌>>=◌,
}
use sunns_chan.Prelude.Json.{Json, null, get_field_or}
use sunns_chan.Prelude.Table.{fetch, newest}
use sunns_chan.Ledger.{Ledger, Event}
use sunns_chan.Knowledge.{KnowledgeRecord, Knowledge, get}

names_id : Option ℕ → ℕ → Bool
names_id none k = false
names_id (some j) k = j == k

-- `KnowledgeStore.superseded_by`: the newest record that names this one.
unfoldable pub superseded_by : ℕ → Knowledge → Option (ℕ × KnowledgeRecord)
unfolding names_id
superseded_by record_id [] = none
superseded_by record_id ((i, r) ∷ t) =
    if names_id r.supersedes_id record_id then some (i, r) else superseded_by record_id t

pub record SourceRef : Type 0 where
  pub event_id : ℕ
  pub kind : String
  pub text : String

-- `_resolve_sources`
unfoldable pub resolve_sources : Ledger → List ℕ → List SourceRef
resolve_sources l [] = []
resolve_sources l (i ∷ is) = elim (fetch i l.events) [
  | none ↦ resolve_sources l is
  | some e ↦ record { event_id = i; kind = e.kind; text = e.text } ∷ resolve_sources l is
]

-- One dict of `provenance`; a key that the metadata lacks is `None`.
pub record Provenance : Type 0 where
  pub event_id : ℕ
  pub kind : String
  pub url : Json
  pub source_type : Json
  pub backend : Json
  pub retrieved_at : Json

abbrev pub provenance_of : ℕ → Event → Provenance
provenance_of i e = record {
  event_id = i;
  kind = e.kind;
  url = get_field_or e.metadata "url" null;
  source_type = get_field_or e.metadata "source_type" null;
  backend = get_field_or e.metadata "backend" null;
  retrieved_at = get_field_or e.metadata "retrieved_at" null;
}

unfoldable pub provenance_entries : Ledger → List ℕ → List Provenance
provenance_entries l [] = []
provenance_entries l (i ∷ is) = elim (fetch i l.events) [
  | none ↦ provenance_entries l is
  | some e ↦ provenance_of i e ∷ provenance_entries l is
]

-- `KnowledgeStore.provenance`
unfoldable pub provenance : Ledger → ℕ → Exec Knowledge (List Provenance)
provenance l id = do row ← get id; pure (provenance_entries l row.1.source_ids)

pub record BeliefExplanation : Type 0 where
  pub record_id : ℕ
  pub statement : String
  pub status : Status
  pub confidence : ℕ
  pub supporting : List SourceRef
  pub contradicted_by : List SourceRef
  pub supersedes_id : Option ℕ
  pub reason : String

-- `KnowledgeStore.explain`
unfoldable pub explain : Ledger → ℕ → Exec Knowledge BeliefExplanation
explain l record_id = do
  row ← get record_id
  successor ← gets (superseded_by record_id)
  pure (record {
    record_id = row.0;
    statement = row.1.statement;
    status = row.1.status;
    confidence = row.1.confidence;
    supporting = resolve_sources l row.1.source_ids;
    contradicted_by = elim successor [ none ↦ [] | some s ↦ resolve_sources l s.1.source_ids ];
    supersedes_id = row.1.supersedes_id;
    reason = row.1.reason;
  })

-- The statuses that `visible` shows.
abbrev pub is_visible : Status → Bool
is_visible s = any (status_eq s) (active ∷ uncertain ∷ contradicted ∷ outdated ∷ [])

-- `KnowledgeStore.active`
unfoldable pub active_rows : ℕ → Knowledge → List (ℕ × KnowledgeRecord)
active_rows limit t = newest (λ r. status_eq r.status active) limit t

-- `KnowledgeStore.visible`
unfoldable pub visible : ℕ → Knowledge → List (ℕ × KnowledgeRecord)
visible limit t = newest (λ r. is_visible r.status) limit t

-- `KnowledgeStore.history`
unfoldable pub history : ℕ → Knowledge → List (ℕ × KnowledgeRecord)
history limit t = newest (λ r. true) limit t

-- `KnowledgeStore.by_status`
unfoldable pub by_status : String → ℕ → Exec Knowledge (List (ℕ × KnowledgeRecord))
by_status status limit = do
  wanted ←
      or_raise (parse_status status)
        (value_error (fstring ("unknown knowledge status: " ∷ status ∷ [])))
  gets (newest (λ r. status_eq r.status wanted) limit)

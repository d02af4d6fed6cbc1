-- ===== src/Experience.antt =====
-- src/suns_chan/experience.py: experiences as events of the ledger.
use sunns_chan.Prelude.{
  ℕ, String, Bool, false, not, ◌&&◌, ◌||◌, Option, none, some, List, [], ◌∷◌, if◌then◌else◌, str_eq,
  member, is_blank, strip, fstring, select, value_error, Result, ok, err, Exec, raise_if, lift,
  ◌>>=◌, ◌>>◌,
}
use sunns_chan.Prelude.Int.{pos, pos_part, leb_ℤ}
use sunns_chan.Prelude.Json.{
  Json, null, float, text, arr, obj, Items, nil, cons, Fields, end, field, get_field, as_number,
  num, texts,
}
use sunns_chan.Ledger.{Ledger, MemoryEvent, record_event, events_of_kind}

-- `RELATIONSHIPS`
abbrev pub relationships : List String
relationships =
    "inspired_by" ∷ "follow_up_of" ∷ "related_to" ∷ "contradicts" ∷ "confirms" ∷ "refines"
    ∷ "reproduces" ∷ "failed_after" ∷ "succeeded_after" ∷ []

-- The arguments of `record_experience`.
pub record ExperienceFields : Type 0 where
  pub session_id : String
  pub activity_id : String
  pub intent : String
  pub motivation : String
  pub hypothesis : String
  pub actions : List String
  pub observations : List String
  pub outcome : String
  pub artifacts : List String
  pub lessons : List String
  pub unresolved_questions : List String
  pub related : List (String × List ℕ)
  pub confidence : Json
  pub goal_id : Option ℕ
  pub affect : Fields
  pub knowledge_ids : List ℕ
  pub capability_id : Option ℕ

-- The arguments that have no default, with the defaults of the others.
abbrev pub plain_experience : String → String → String → ExperienceFields
plain_experience session_id activity_id intent = record {
  session_id = session_id;
  activity_id = activity_id;
  intent = intent;
  motivation = "";
  hypothesis = "";
  actions = [];
  observations = [];
  outcome = "unknown";
  artifacts = [];
  lessons = [];
  unresolved_questions = [];
  related = [];
  confidence = float (pos 5000);
  goal_id = none;
  affect = end;
  knowledge_ids = [];
  capability_id = none;
}

-- Every relation has to be one of `RELATIONSHIPS`.
unfoldable pub check_related : List (String × List ℕ) → Result (Unit {0})
check_related [] = ok tt
check_related ((relation, ids) ∷ related) =
    let rest = check_related related in
    if member relation relationships
    then rest
    else err (value_error (fstring ("unknown relationship: " ∷ relation ∷ [])))

-- A number from 0 to 1, in ten-thousandths.
unfoldable pub check_confidence : Json → Result ℕ
check_confidence v = elim (as_number v) [
  | none ↦ err (value_error "confidence must be between 0 and 1")
  | some z ↦
      if leb_ℤ (pos 0) z && leb_ℤ z (pos 10000)
      then ok (pos_part z)
      else err (value_error "confidence must be between 0 and 1")
]

abbrev pub affect_keys : List String
affect_keys = "energy" ∷ "confidence" ∷ "curiosity" ∷ "stress" ∷ "warmth" ∷ "rhythm" ∷ []

unfoldable pub affect_snapshot : Fields → Fields
affect_snapshot end = end
affect_snapshot (field k v fs) =
    let rest = affect_snapshot fs in if member k affect_keys then field k v rest else rest

unfoldable pub numbers : List ℕ → Items
numbers [] = nil
numbers (n ∷ ns) = cons (num n) (numbers ns)

unfoldable pub links : List (String × List ℕ) → Fields
links [] = end
links ((relation, ids) ∷ related) = field relation (arr (numbers ids)) (links related)

abbrev pub id? : Option ℕ → Json
id? none = null
id? (some i) = num i

abbrev pub experience_text : ExperienceFields → String
experience_text x =
    if is_blank x.hypothesis
    then fstring ("[" ∷ x.outcome ∷ "] " ∷ x.intent ∷ [])
    else fstring ("[" ∷ x.outcome ∷ "] " ∷ x.intent ∷ " Hypothesis: " ∷ strip x.hypothesis ∷ [])

abbrev pub experience_metadata : ℕ → ExperienceFields → Fields
experience_metadata confidence x = field "session_id" (text x.session_id) (
    field "activity_id" (text x.activity_id) (
      field "intent" (text x.intent) (
        field "motivation" (text x.motivation) (
          field "hypothesis" (text x.hypothesis) (
            field "actions" (arr (texts x.actions)) (
              field "observations" (arr (texts x.observations)) (
                field "result" (text x.outcome) (
                  field "artifacts" (arr (texts x.artifacts)) (
                    field "lessons" (arr (texts x.lessons)) (
                      field "unresolved_questions" (arr (texts x.unresolved_questions)) (
                        field "related" (obj (links x.related)) (
                          field "confidence" (float (pos confidence)) (
                            field "goal_id" (id? x.goal_id) (
                              field "affect" (obj (affect_snapshot x.affect)) (
                                field "knowledge_ids" (arr (numbers x.knowledge_ids))
                                  (field "capability_id" (id? x.capability_id) end))))))))))))))))

-- `record_experience`
unfoldable pub record_experience : ExperienceFields → Exec Ledger MemoryEvent
record_experience x = do
  raise_if (is_blank x.session_id || is_blank x.activity_id || is_blank x.intent)
      (value_error "session_id, activity_id and intent must be non-empty")
  raise_if (not (member x.outcome ("success" ∷ "failure" ∷ "unknown" ∷ [])))
      (value_error "result must be success, failure, or unknown")
  lift (check_related x.related)
  confidence ← lift (check_confidence x.confidence)
  record_event "experience" (experience_text x) (experience_metadata confidence x)

abbrev pub is_text : String → Option Json → Bool
is_text s (some (text t)) = str_eq t s
is_text s _ = false

-- `experiences_of_session`
unfoldable pub experiences_of_session : Ledger → String → ℕ → List MemoryEvent
experiences_of_session l session_id limit =
    select (λ e. is_text session_id (get_field e.1.metadata "session_id"))
      (events_of_kind l "experience" limit)

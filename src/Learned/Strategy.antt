-- ===== src/Learned/Strategy.antt =====
-- What is made of learned objects: `strategy_bonus_for`, `decay_stale` and `explain_learning` of
-- src/suns_chan/learned.py. A multiplier is a number of tenths, and a time a number of milliseconds.
use sunns_chan.Prelude.{
  ℕ, ◌-◌, ◌*◌, String, Bool, true, ◌&&◌, Option, none, some, List, [], ◌∷◌, ◌++◌, length,
  if◌then◌else◌, ltb, leb, str_eq, lower, fstring, str, take_text, select, value_error, Result, ok,
  err, Exec, pure, raise_if, gets, ◌>>=◌, ◌>>◌,
}
use sunns_chan.Prelude.Json.{Json}
use sunns_chan.Prelude.Dict.{Dict}
use sunns_chan.Prelude.Table.{fetch}
use sunns_chan.Ledger.{Ledger}
use sunns_chan.Learned.{
  LearnedObject, LearnedStore, Status, ConfidenceBreakdown, is_established, is_contradicted,
  by_kind, all_learned, apply_decay, get, compute_confidence, count_distinct,
}

-- `f"goal-{goal_id}" if goal_id else "general"`
abbrev pub context_of : Option ℕ → String
context_of none = "general"
context_of (some goal_id) =
    if leb goal_id 0 then "general" else fstring ("goal-" ∷ str goal_id ∷ [])

abbrev pub strategy_subject : String → String → String
strategy_subject context category = fstring ("strategy:" ∷ context ∷ ":" ∷ lower category ∷ [])

abbrev pub about : String → ℕ × LearnedObject → Bool
about subject o = str_eq o.1.subject subject

abbrev pub general_bonus : List (ℕ × LearnedObject) → ℕ
general_bonus [] = 10
general_bonus (_ ∷ _) = 11

abbrev pub record_bonus : LearnedObject → ℕ
record_bonus r =
    if is_established r.status && leb 6000 r.confidence
    then 12
    else if is_contradicted r.status
    then 7
    else 10

-- The multiplier for the strategies that there are.
unfoldable pub bonus_among : List (ℕ × LearnedObject) → Option ℕ → String → ℕ
bonus_among strategies goal_id category =
    elim (select (about (strategy_subject (context_of goal_id) category)) strategies) [
      | [] ↦ general_bonus (
          select (λ o. about (strategy_subject "general" category) o && is_established o.1.status)
            strategies)
      | o ∷ _ ↦ record_bonus o.1
    ]

-- `strategy_bonus_for`
unfoldable pub strategy_bonus_for : LearnedStore → Option ℕ → String → Result ℕ
strategy_bonus_for t goal_id category = elim (by_kind "strategy" none 200 t) [
  | err e ↦ err e
  | ok strategies ↦ ok (bonus_among strategies goal_id category)
]

abbrev pub is_stale : ℕ → ℕ → LearnedObject → Bool
is_stale moment older_than_days r =
    is_established r.status && ltb (older_than_days * 86400000) (moment - r.last_observed)

-- The loop over the objects that were there before it.
unfoldable pub decay_each :
    ℕ → ℕ → ℕ → List (ℕ × LearnedObject) → Exec LearnedStore (List (ℕ × LearnedObject))
decay_each now moment older_than_days [] = pure []
decay_each now moment older_than_days ((i, r) ∷ objects) =
    let rest = decay_each now moment older_than_days objects in
    if is_stale moment older_than_days r
    then (do
      o ← apply_decay now i (fstring ("unobserved for over " ∷ str older_than_days ∷ " days" ∷ []))
      os ← rest
      pure (o ∷ os))
    else rest

-- `decay_stale`, at the time `now`, which is also the moment if none is given
unfoldable pub decay_stale : ℕ → ℕ → Option ℕ → Exec LearnedStore (List (ℕ × LearnedObject))
decay_stale now older_than_days moment = do
  raise_if (ltb older_than_days 1) (value_error "older_than_days must be at least 1")
  objects ← gets (all_learned 500)
  decay_each now (elim moment [ none ↦ now | some m ↦ m ]) older_than_days objects

-- A piece of evidence: its id, its kind and the beginning of its text.
pub record Reference : Type 0 where
  pub event_id : ℕ
  pub kind : String
  pub snippet : String

-- `resolve`: an id without an event is passed over.
unfoldable pub resolve : Ledger → List ℕ → List Reference
resolve l [] = []
resolve l (i ∷ ids) =
    let rest = resolve l ids in
    elim (fetch i l.events) [
      | none ↦ rest
      | some e ↦ record { event_id = i; kind = e.kind; snippet = take_text 160 e.text } ∷ rest
    ]

pub record LearningExplanation : Type 0 where
  pub what : String
  pub confidence : ℕ
  pub breakdown : ConfidenceBreakdown
  pub supporting : List Reference
  pub contradictions : List Reference
  pub conditions : Dict Json
  pub status : Status
  pub last_observed : ℕ
  pub knowledge_id : Option ℕ

abbrev pub explanation : Ledger → LearnedObject → LearningExplanation
explanation l r = record {
  what = fstring (r.kind ∷ " " ∷ r.subject ∷ ": " ∷ r.predicate ∷ []);
  confidence = r.confidence;
  breakdown =
      compute_confidence (length r.supporting_ids) (length r.contradicting_ids)
        (count_distinct (r.supporting_ids ++ r.contradicting_ids)) true;
  supporting = resolve l r.supporting_ids;
  contradictions = resolve l r.contradicting_ids;
  conditions = r.conditions;
  status = r.status;
  last_observed = r.last_observed;
  knowledge_id = r.knowledge_id;
}

-- `explain_learning`
unfoldable pub explain_learning : Ledger → ℕ → Exec LearnedStore LearningExplanation
explain_learning l learned_id = do o ← get learned_id; pure (explanation l o.1)

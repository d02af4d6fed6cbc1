-- ===== src/Examples/Lessons.antt =====
-- Learned objects with little evidence.
use sunns_chan.Prelude.{
  ℕ, ◌*◌, ◌≤◌, ◌<◌, String, Bool, true, false, ◌≡◌, ◌≢◌, ◌↔◌, refl, none, some, [], ◌∷◌, ok, map,
  strip, take_text, lower, fstring, is_blank, member, effects, arith, Keeps,
}
use sunns_chan.Prelude.Json.{Json, end}
use sunns_chan.Prelude.Dict.{Dict}
use sunns_chan.Prelude.Table.{fetch, Rows}
use sunns_chan.Prelude.Rules.{Onward}
use sunns_chan.Prelude.Rows.{get_row, add_row, insert_row}
use sunns_chan.Ledger.{Ledger, require_event}
use sunns_chan.Learned.{
  LearnedObject, LearnedStore, established, candidate, compute_confidence, status_for, observe,
  sight, find_learned, by_kind, get, apply_correction, apply_decay, link_knowledge,
}
use sunns_chan.Learned.Confidence.{compute_confidence_mono, fresh_established_iff}
use sunns_chan.Learned.Evidence.{IsWellKept, observe-IsWellKept}
use sunns_chan.Learned.Again.{observe_again}
use sunns_chan.Learned.Upkeep.{IsEarned, evidence_behind_status, after_decays, decayed_out}
use sunns_chan.Learned.Strategy.{
  Reference, explanation, explain_learning, strategy_bonus_for, bonus_among,
}
use sunns_chan.Learned.Provenance.{IsGrounded, evidence_is_recorded, explain_learning_ok}

-- Two events.
abbrev events : Ledger
events = record {
  clock = λ i. i;
  events =
      (2, record { occurred_at = 2; kind = "outcome"; text = "it worked"; metadata = end })
      ∷ (1, record { occurred_at = 1; kind = "outcome"; text = "it failed"; metadata = end })
      ∷ [];
  state_snapshots = [];
}

abbrev lesson : LearnedObject
lesson = record {
  kind = "skill";
  subject = "skill:coding";
  predicate = "demonstrated capability";
  conditions = [];
  confidence = 5000;
  supporting_ids = 2 ∷ [];
  contradicting_ids = 1 ∷ [];
  status = candidate;
  knowledge_id = none;
  created_at = 5;
  updated_at = 6;
  last_observed = 6;
}

abbrev lessons : LearnedStore
lessons = (1, lesson) ∷ []

-- An established strategy, and a newer object of another kind.
abbrev strategies : LearnedStore
strategies =
    (2, lesson)
    ∷ (
      1,
      record lesson {
        kind = "strategy";
        subject = "strategy:general:coding";
        status = established;
        confidence = 7000;
      },
    )
    ∷ []

abbrev no_secrets : String → String
no_secrets s = s

compute_confidence_mono_example :
    (compute_confidence 2 1 3 true).confidence ≤ (compute_confidence 4 0 4 true).confidence
compute_confidence_mono_example =
    compute_confidence_mono 2 1 3 4 0 4 true (omega arith) (omega arith) (omega arith)

fresh_established_iff_example :
    (status_for 5 2 (compute_confidence 5 2 7 true).confidence ≡ established)
    ↔ ((3 ≤ 5) × (2 * 2 < 5))
fresh_established_iff_example = fresh_established_iff 5 2 7

observe-IsWellKept_example :
    Keeps (Onward IsWellKept) (observe no_secrets events 9 "skill" "skill:coding" 2 "" [] false)
observe-IsWellKept_example =
    observe-IsWellKept no_secrets events 9 "skill" "skill:coding" 2 "" [] false

abbrev observed : ℕ × LearnedObject
observed = (
  1,
  record lesson {
    subject = "skill:writing";
    predicate = "";
    supporting_ids = 2 ∷ [];
    contradicting_ids = [];
    created_at = 9;
    updated_at = 9;
    last_observed = 9;
  },
)

observe_again_example :
    observe no_secrets events 10 "skill" "skill:writing" 2 "again" [] true
      (observe no_secrets events 9 "skill" "skill:writing" 2 "" [] false []).1
    ≡ (ok observed, (observe no_secrets events 9 "skill" "skill:writing" 2 "" [] false []).1)
unfolding observe sight find_learned require_event effects member is_blank strip take_text add_row
    insert_row get_row
observe_again_example =
    observe_again no_secrets events "skill" "skill:writing" 2 9 10 "" "again" [] [] false true []
      observed refl

evidence_behind_status_example :
    ((kind subject : String) (e : ℕ) (predicate : String) (conditions : Dict Json)
        (contradicts : Bool)
      → Keeps
          (Onward (Rows IsEarned))
          (observe no_secrets events 9 kind subject e predicate conditions contradicts))
    × ((id e : ℕ) → Keeps (Onward (Rows IsEarned)) (apply_correction events 9 id e))
    × ((id : ℕ) (reason : String) → Keeps (Onward (Rows IsEarned)) (apply_decay 9 id reason))
    × ((id k : ℕ) → Keeps (Onward (Rows IsEarned)) (link_knowledge 9 id k))
evidence_behind_status_example = evidence_behind_status no_secrets events 9

decayed_out_example :
    ((after_decays 6 9 lesson).status ≢ established)
    × ((after_decays 6 9 lesson).supporting_ids ≡ lesson.supporting_ids)
    × ((after_decays 6 9 lesson).contradicting_ids ≡ lesson.contradicting_ids)
decayed_out_example = decayed_out 6 9 lesson (omega arith) (omega arith)

trusted_strategy : strategy_bonus_for strategies none "CODING" ≡ ok 12
unfolding strategy_bonus_for bonus_among by_kind member fstring lower
trusted_strategy = refl

evidence_is_recorded_example :
    ((kind subject : String) (e : ℕ) (predicate : String) (conditions : Dict Json)
        (contradicts : Bool)
      → Keeps
          (Onward (Rows (IsGrounded events)))
          (observe no_secrets events 9 kind subject e predicate conditions contradicts))
    × ((id e : ℕ) → Keeps (Onward (Rows (IsGrounded events))) (apply_correction events 9 id e))
    × ((id : ℕ) (reason : String)
        → Keeps (Onward (Rows (IsGrounded events))) (apply_decay 9 id reason))
evidence_is_recorded_example = evidence_is_recorded no_secrets events 9

explain_learning_ok_example :
    (r : LearnedObject) × (fetch 1 lessons ≡ some r)
    × (map (λ (y : Reference). y.event_id) (explanation events lesson).supporting
        ≡ r.supporting_ids)
    × (map (λ (y : Reference). y.event_id) (explanation events lesson).contradictions
        ≡ r.contradicting_ids)
unfolding require_event explain_learning get get_row effects
explain_learning_ok_example =
    explain_learning_ok events 1 lessons (explanation events lesson)
      (record { supporting = (refl, tt); contradicting = (refl, tt) }, tt) refl

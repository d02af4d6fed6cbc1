-- ===== src/Learned/Provenance.antt =====
-- The evidence of the objects of src/suns_chan/learned.py, and what `explain_learning` says of it.
use sunns_chan.Prelude.{
  ℕ, String, Bool, true, false, ◌≡◌, refl, sym, ap, ◌∙◌, Option, Option-cases, inl, inr, pure, none,
  some, List, [], ◌∷◌, map, Result, ok, Keeps, All, All-append,
}
use sunns_chan.Prelude.Json.{Json}
use sunns_chan.Prelude.Dict.{Dict}
use sunns_chan.Prelude.Table.{fetch, Rows, fetch-Rows}
use sunns_chan.Prelude.Rules.{
  >>=-eq-ok, Keeps-bind, Keeps-lift_bind, Keeps-if, Keeps-gets, Keeps-raise_if, Onward, Onward-refl,
  Onward-trans,
}
use sunns_chan.Prelude.Rows.{get_row-Rows, add_row-Rows, change_row-Rows, get_row_ok}
use sunns_chan.Ledger.{Ledger, Event, require_event}
use sunns_chan.Learned.{
  LearnedObject, LearnedStore, first_sighting, sighted, sight, observe, corrected, apply_correction,
  decayed, apply_decay, is_counted, get,
}
use sunns_chan.Learned.Strategy.{
  LearningExplanation, Reference, resolve, explanation, explain_learning,
}

-- The ledger has an event with this id.
abbrev pub IsRecorded : Ledger → ℕ → Type 0
IsRecorded l i = require_event l i ≡ ok tt

-- All evidence is events of the ledger.
pub record IsGrounded (l : Ledger) (r : LearnedObject) : Type 0 where
  pub supporting : All (IsRecorded l) r.supporting_ids
  pub contradicting : All (IsRecorded l) r.contradicting_ids

module _ (l : Ledger) (now e : ℕ) (recorded : IsRecorded l e) where
  sighted-IsGrounded :
      (conditions : Dict Json) (contradicts : Bool) (r : LearnedObject)
      → IsGrounded l r
      → IsGrounded l (sighted now e conditions contradicts r)
  unfolding sighted
  sighted-IsGrounded conditions true r g = record {
    supporting = g.supporting;
    contradicting =
        All-append (IsRecorded l) r.contradicting_ids (e ∷ []) g.contradicting (recorded, tt);
  }
  sighted-IsGrounded conditions false r g = record {
    supporting = All-append (IsRecorded l) r.supporting_ids (e ∷ []) g.supporting (recorded, tt);
    contradicting = g.contradicting;
  }

  first-IsGrounded :
      (kind subject predicate : String) (conditions : Dict Json) (contradicts : Bool)
      → IsGrounded l (first_sighting now kind subject e predicate conditions contradicts)
  first-IsGrounded kind subject predicate conditions true = record {
    supporting = tt;
    contradicting = (recorded, tt);
  }
  first-IsGrounded kind subject predicate conditions false = record {
    supporting = (recorded, tt);
    contradicting = tt;
  }

  corrected-IsGrounded : (r : LearnedObject) → IsGrounded l r → IsGrounded l (corrected now e r)
  unfolding corrected
  corrected-IsGrounded r g = record {
    supporting = g.supporting;
    contradicting =
        All-append (IsRecorded l) r.contradicting_ids (e ∷ []) g.contradicting (recorded, tt);
  }

  sight-Rows :
      (kind subject predicate : String) (conditions : Dict Json) (contradicts : Bool)
      (o : Option (ℕ × LearnedObject))
      → Keeps
          (Onward (Rows (IsGrounded l)))
          (sight now kind subject e predicate conditions contradicts o)
  unfolding sight get
  sight-Rows kind subject predicate conditions contradicts none =
      add_row-Rows (IsGrounded l) _ _
        (first-IsGrounded kind subject predicate conditions contradicts)
  sight-Rows kind subject predicate conditions contradicts (some (i, r)) =
      Keeps-if {R = Onward (Rows (IsGrounded l))} (is_counted e r) _ _
        (get_row-Rows (IsGrounded l) _ i)
        (change_row-Rows (IsGrounded l) _ i (sighted now e conditions contradicts)
          (sighted-IsGrounded conditions contradicts))

decayed-IsGrounded :
    (l : Ledger) (now : ℕ) (r : LearnedObject) → IsGrounded l r → IsGrounded l (decayed now r)
unfolding decayed
decayed-IsGrounded l now r g = record { supporting = g.supporting; contradicting = g.contradicting }

-- An observation, a correction and a decay, successful or not, keep the evidence of every object
-- among the events of the ledger.
pub evidence_is_recorded :
    (scrub_secrets : String → String) (l : Ledger) (now : ℕ)
    → ((kind subject : String) (e : ℕ) (predicate : String) (conditions : Dict Json)
          (contradicts : Bool)
        → Keeps
            (Onward (Rows (IsGrounded l)))
            (observe scrub_secrets l now kind subject e predicate conditions contradicts))
      × ((id e : ℕ) → Keeps (Onward (Rows (IsGrounded l))) (apply_correction l now id e))
      × ((id : ℕ) (reason : String)
          → Keeps (Onward (Rows (IsGrounded l))) (apply_decay now id reason))
unfolding observe apply_correction apply_decay get
evidence_is_recorded scrub_secrets l now = (
  (λ kind subject e predicate conditions contradicts.
      Keeps-bind Onward-trans _ _ (Keeps-raise_if Onward-refl _ _) (λ _.
        Keeps-bind Onward-trans _ _ (Keeps-raise_if Onward-refl _ _) (λ _.
          Keeps-lift_bind Onward-trans Onward-refl _ _ (λ u recorded.
            Keeps-bind Onward-trans _ _ (Keeps-gets Onward-refl _)
              (λ o. sight-Rows l now e recorded kind _ predicate conditions contradicts o))))),
  (λ id e. Keeps-lift_bind Onward-trans Onward-refl _ _ (λ u recorded.
      Keeps-bind Onward-trans _ _ (get_row-Rows (IsGrounded l) _ id) (λ _.
        change_row-Rows (IsGrounded l) _ id (corrected now e)
          (corrected-IsGrounded l now e recorded)))),
  (λ id reason. Keeps-bind Onward-trans _ _ (Keeps-raise_if Onward-refl _ _) (λ _.
      Keeps-bind Onward-trans _ _ (get_row-Rows (IsGrounded l) _ id) (λ _.
        change_row-Rows (IsGrounded l) _ id (decayed now) (λ r g. decayed-IsGrounded l now r g)))),
)

recorded_event : (l : Ledger) (i : ℕ) → IsRecorded l i → (e : Event) × (fetch i l.events ≡ some e)
unfolding require_event
recorded_event l i h = elim (Option-cases (fetch i l.events)) [
  | inl missing ↦ absurd (cc (missing, h))
  | inr found ↦ found
]

resolve_complete :
    (l : Ledger) (ids : List ℕ)
    → All (IsRecorded l) ids
    → map (λ (r : Reference). r.event_id) (resolve l ids) ≡ ids
unfolding resolve require_event
resolve_complete l [] h = refl
resolve_complete l (i ∷ ids) h =
    let (event, found) = recorded_event l i h.0 in
    rw (resolve, found) (ap (λ is. i ∷ is) (resolve_complete l ids h.1))

ok-injective :
    {x y : LearningExplanation} → ◌≡◌ {A = Result LearningExplanation} (ok x) (ok y) → x ≡ y
ok-injective h = cc

-- The explanation of an object whose evidence is in the ledger names every piece of it, in order.
pub explain_learning_ok :
    (l : Ledger) (learned_id : ℕ) (t : LearnedStore) (x : LearningExplanation)
    → Rows (IsGrounded l) t
    → (explain_learning l learned_id t).0 ≡ ok x
    → (r : LearnedObject) × (fetch learned_id t ≡ some r)
      × (map (λ (y : Reference). y.event_id) x.supporting ≡ r.supporting_ids)
      × (map (λ (y : Reference). y.event_id) x.contradictions ≡ r.contradicting_ids)
unfolding explain_learning get pure
explain_learning_ok l learned_id t x g h =
    let (o, got, rest) = >>=-eq-ok (get learned_id) _ t h in
    let found : fetch learned_id t ≡ some o.1 = get_row_ok _ learned_id t o got in
    let same : x ≡ explanation l o.1 = ok-injective (sym h ∙ ap (λ y. y.0) rest) in
    let grounded : IsGrounded l o.1 = fetch-Rows (IsGrounded l) learned_id t o.1 g found in
    rw same (
      o.1,
      found,
      resolve_complete l _ grounded.supporting,
      resolve_complete l _ grounded.contradicting,
    )

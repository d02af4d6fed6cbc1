-- ===== src/Learned/Upkeep.antt =====
-- What the operations of `LearnedStore` of src/suns_chan/learned.py do to the statuses.
use sunns_chan.Prelude.{
  ℕ, zero, suc, ◌-◌, ◌*◌, ◌≤◌, ◌<◌, max, String, Bool, true, false, ◌≡◌, ◌≢◌, refl, Option, none,
  some, List, [], ◌∷◌, ◌++◌, length, if◌then◌else◌, arith, Keeps,
}
use sunns_chan.Prelude.Json.{Json}
use sunns_chan.Prelude.Dict.{Dict}
use sunns_chan.Prelude.Table.{Rows}
use sunns_chan.Prelude.Rules.{
  Keeps-bind, Keeps-if, Keeps-gets, Keeps-raise_if, Keeps-lift, Onward, Onward-refl, Onward-trans,
}
use sunns_chan.Prelude.Rows.{
  get_row-Rows, add_row-Rows, change_row-Rows, FailAt, FailAt-bind, FailAt-change_row, reads,
}
use sunns_chan.Ledger.{Ledger}
use sunns_chan.Learned.{
  LearnedObject, LearnedStore, Status, candidate, established, contradicted, uncertain, superseded,
  first_sighting, with_evidence, sighted, sight, observe, corrected, capped, apply_correction,
  decayed, apply_decay, link_knowledge, get, status_for, is_counted, is_contradicted, confidence_of,
  merge_conditions,
}
use sunns_chan.Learned.Confidence.{status_for-established}

-- An object is established only on at least three supporting sightings, more than twice as many as
-- those against it, and a confidence of at least 0.4.
pub record IsEarned (r : LearnedObject) : Type 0 where
  pub at :
      r.status ≡ established
      → (3 ≤ length r.supporting_ids)
        × (2 * length r.contradicting_ids < length r.supporting_ids)
        × (4000 ≤ r.confidence)

with_evidence-IsEarned :
    (now : ℕ) (support contra : List ℕ) (r : LearnedObject)
    → IsEarned (with_evidence now support contra r)
with_evidence-IsEarned now support contra r = record {
  at = (status_for-established (length support) (length contra) (confidence_of support contra)).0;
}

sighted-IsEarned :
    (now e : ℕ) (conditions : Dict Json) (contradicts : Bool) (r : LearnedObject)
    → IsEarned (sighted now e conditions contradicts r)
unfolding sighted
sighted-IsEarned now e conditions true r =
    with_evidence-IsEarned now r.supporting_ids (r.contradicting_ids ++ e ∷ [])
      (record r { conditions = merge_conditions r.conditions conditions })
sighted-IsEarned now e conditions false r =
    with_evidence-IsEarned now (r.supporting_ids ++ e ∷ []) r.contradicting_ids
      (record r { conditions = merge_conditions r.conditions conditions })

capped_lem : (s : Status) → capped s ≢ established
capped_lem candidate h = cc
capped_lem established h = cc
capped_lem uncertain h = cc
capped_lem contradicted h = cc
capped_lem superseded h = cc

corrected-IsEarned : (now e : ℕ) (r : LearnedObject) → IsEarned (corrected now e r)
unfolding corrected
corrected-IsEarned now e r = record { at = λ h. absurd (capped_lem _ h) }

decayed_by :
    (b : Bool) (r : LearnedObject) (c : ℕ)
    → (if b
        then contradicted
        else status_for (length r.supporting_ids) (length r.contradicting_ids) c)
      ≡ established
    → (3 ≤ length r.supporting_ids)
      × (2 * length r.contradicting_ids < length r.supporting_ids)
      × (4000 ≤ c)
decayed_by true r c h = absurd (cc h)
decayed_by false r c h = (status_for-established _ _ c).0 h

decayed-IsEarned : (now : ℕ) (r : LearnedObject) → IsEarned (decayed now r)
unfolding decayed
decayed-IsEarned now r = record {
  at = decayed_by (is_contradicted r.status) r (max 500 (r.confidence - 1000));
}

first_sighting-IsEarned :
    (now : ℕ) (kind subject : String) (e : ℕ) (predicate : String) (conditions : Dict Json)
    (contradicts : Bool)
    → IsEarned (first_sighting now kind subject e predicate conditions contradicts)
first_sighting-IsEarned now kind subject e predicate conditions contradicts = record {
  at = λ h. absurd (cc h);
}

sight-Rows :
    (now : ℕ) (kind subject : String) (e : ℕ) (predicate : String) (conditions : Dict Json)
    (contradicts : Bool) (o : Option (ℕ × LearnedObject))
    → Keeps (Onward (Rows IsEarned)) (sight now kind subject e predicate conditions contradicts o)
unfolding sight get
sight-Rows now kind subject e predicate conditions contradicts none =
    add_row-Rows IsEarned _ _
      (first_sighting-IsEarned now kind subject e predicate conditions contradicts)
sight-Rows now kind subject e predicate conditions contradicts (some (i, r)) =
    Keeps-if {R = Onward (Rows IsEarned)} (is_counted e r) _ _ (get_row-Rows IsEarned _ i) (
      change_row-Rows IsEarned _ i (sighted now e conditions contradicts)
        (λ x _. sighted-IsEarned now e conditions contradicts x))

-- Whatever is observed, corrected, decayed or linked, and whether it succeeds or raises, every object
-- that is established has earned it.
pub evidence_behind_status :
    (scrub_secrets : String → String) (l : Ledger) (now : ℕ)
    → ((kind subject : String) (e : ℕ) (predicate : String) (conditions : Dict Json)
          (contradicts : Bool)
        → Keeps
            (Onward (Rows IsEarned))
            (observe scrub_secrets l now kind subject e predicate conditions contradicts))
      × ((id e : ℕ) → Keeps (Onward (Rows IsEarned)) (apply_correction l now id e))
      × ((id : ℕ) (reason : String) → Keeps (Onward (Rows IsEarned)) (apply_decay now id reason))
      × ((id k : ℕ) → Keeps (Onward (Rows IsEarned)) (link_knowledge now id k))
unfolding observe apply_correction apply_decay link_knowledge get
evidence_behind_status scrub_secrets l now = (
  (λ kind subject e predicate conditions contradicts.
      Keeps-bind Onward-trans _ _ (Keeps-raise_if Onward-refl _ _) (λ _.
        Keeps-bind Onward-trans _ _ (Keeps-raise_if Onward-refl _ _) (λ _.
          Keeps-bind Onward-trans _ _ (Keeps-lift Onward-refl _) (λ _.
            Keeps-bind Onward-trans _ _ (Keeps-gets Onward-refl _)
              (λ o. sight-Rows now kind _ e predicate conditions contradicts o))))),
  (λ id e. Keeps-bind Onward-trans _ _ (Keeps-lift Onward-refl _) (λ _.
      Keeps-bind Onward-trans _ _ (get_row-Rows IsEarned _ id) (λ _.
        change_row-Rows IsEarned _ id (corrected now e) (λ r _. corrected-IsEarned now e r)))),
  (λ id reason. Keeps-bind Onward-trans _ _ (Keeps-raise_if Onward-refl _ _) (λ _.
      Keeps-bind Onward-trans _ _ (get_row-Rows IsEarned _ id)
        (λ _. change_row-Rows IsEarned _ id (decayed now) (λ r _. decayed-IsEarned now r)))),
  (λ id k.
      Keeps-bind Onward-trans _ _ (get_row-Rows IsEarned _ id)
        (λ _. change_row-Rows IsEarned _ id _ (λ r h. record { at = h.at }))),
)

-- An operation that raises has left the store as it was.
pub failed_upkeep :
    (l : Ledger) (now : ℕ) (t : LearnedStore)
    → ((id e : ℕ) → FailAt (apply_correction l now id e) t)
      × ((id : ℕ) (reason : String) → FailAt (apply_decay now id reason) t)
      × ((id k : ℕ) → FailAt (link_knowledge now id k) t)
unfolding apply_correction apply_decay link_knowledge get
failed_upkeep l now t = (
  (λ id e. search (FailAt-bind, FailAt-change_row, reads) depth 8),
  (λ id reason. search (FailAt-bind, FailAt-change_row, reads) depth 8),
  (λ id k. search (FailAt-bind, FailAt-change_row, reads) depth 8),
)

-- The object after a number of decays.
abbrev pub after_decays : ℕ → ℕ → LearnedObject → LearnedObject
after_decays zero now r = r
after_decays (suc n) now r = decayed now (after_decays n now r)

after_decays-confidence :
    (n now : ℕ) (r : LearnedObject)
    → (after_decays n now r).confidence ≤ max 500 (r.confidence - 1000 * n)
unfolding decayed
after_decays-confidence zero now r = omega arith
after_decays-confidence (suc n) now r = omega (arith, after_decays-confidence n now r)

not_earned :
    (now : ℕ) (r : LearnedObject)
    → (decayed now r).confidence < 4000
    → (decayed now r).status ≢ established
not_earned now r h e = omega (arith, ((decayed-IsEarned now r).at e).2)

decays-evidence :
    (n now : ℕ) (r : LearnedObject)
    → ((after_decays n now r).supporting_ids ≡ r.supporting_ids)
      × ((after_decays n now r).contradicting_ids ≡ r.contradicting_ids)
unfolding decayed
decays-evidence zero now r = (refl, refl)
decays-evidence (suc n) now r = decays-evidence n now r

-- Learning that is only decayed does not stay established: after six decays at most, whatever its
-- evidence, which the decays keep.
pub decayed_out :
    (n now : ℕ) (r : LearnedObject)
    → 6 ≤ n
    → r.confidence ≤ 9500
    → ((after_decays n now r).status ≢ established)
      × ((after_decays n now r).supporting_ids ≡ r.supporting_ids)
      × ((after_decays n now r).contradicting_ids ≡ r.contradicting_ids)
decayed_out zero now r h k = absurd (omega arith)
decayed_out (suc n) now r h k = (
  not_earned now (after_decays n now r) (omega (arith, after_decays-confidence (suc n) now r)),
  (decays-evidence (suc n) now r).0,
  (decays-evidence (suc n) now r).1,
)

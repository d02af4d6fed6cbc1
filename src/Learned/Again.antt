-- ===== src/Learned/Again.antt =====
-- A second `observe` of src/suns_chan/learned.py with the same evidence.
use sunns_chan.Prelude.{
  ℕ, String, Bool, true, false, not, ◌||◌, ◌≡◌, refl, sym, ap, ◌∙◌, inl, inr, Bool-cases, Option,
  none, some, List, [], ◌∷◌, ◌++◌, eq_iff, ◌==◌, if◌then◌else◌, arith, Result, ok, effects, member,
  is_blank,
}
use sunns_chan.Prelude.Json.{Json}
use sunns_chan.Prelude.Dict.{Dict}
use sunns_chan.Prelude.Table.{update, append, next_id}
use sunns_chan.Prelude.Rules.{raise_if_ok, lift_ok}
use sunns_chan.Prelude.Rows.{
  get_row, get_row-Same, change_row_state, change_row, add_row_lem, change_row_result,
  get_row_found, Ensures-read, reads,
}
use sunns_chan.Ledger.{Ledger, require_event}
use sunns_chan.Learned.{
  LearnedObject, LearnedStore, has_id, names, find_learned, get, first_sighting, sighted,
  is_counted, sight, stored_subject, observe, kinds,
}

-- What `observe` checks before it looks for the row.
record IsObservable (l : Ledger) (kind subject : String) (e : ℕ) : Type 0 where
  known : not (member kind kinds) ≡ false
  named : is_blank subject ≡ false
  recorded : require_event l e ≡ ok tt

module _ (scrub_secrets : String → String) (l : Ledger) (kind subject : String) (e : ℕ) (now : ℕ)
    (predicate : String) (conditions : Dict Json) (contradicts : Bool) (t : LearnedStore) where
  observe_ok :
      (a : ℕ × LearnedObject)
      → (observe scrub_secrets l now kind subject e predicate conditions contradicts t).0 ≡ ok a
      → IsObservable l kind subject e
  unfolding observe
  observe_ok =
      Ensures-read (λ _ _. IsObservable l kind subject e) _ _ t (search reads)
        λ _ known.
          Ensures-read (λ _ _. IsObservable l kind subject e) _ _ t (search reads)
            λ _ named.
              Ensures-read (λ _ _. IsObservable l kind subject e) _ _ t (search reads)
                λ _ recorded _ _. record {
                  known = raise_if_ok _ _ t _ known;
                  named = raise_if_ok _ _ t _ named;
                  recorded = lift_ok _ t _ recorded;
                }

  observe-eq-sight :
      IsObservable l kind subject e
      → observe scrub_secrets l now kind subject e predicate conditions contradicts t
        ≡ sight now kind
            (stored_subject scrub_secrets subject)
            e
            predicate
            conditions
            contradicts
            (find_learned kind (stored_subject scrub_secrets subject) t)
            t
  unfolding observe effects
  observe-eq-sight h = rw (h.known, h.named, h.recorded) refl

names_self :
    (kind subject : String) (r : LearnedObject)
    → r.kind ≡ kind
    → r.subject ≡ subject
    → names kind subject r ≡ true
names_self kind subject r p q =
    rw (p, q, (eq_iff kind kind).1 refl, (eq_iff subject subject).1 refl) refl

module _ (kind subject : String) (f : LearnedObject → LearnedObject)
    (same_names : (r : LearnedObject) → names kind subject (f r) ≡ names kind subject r) where
  find_learned-update :
      (i : ℕ) (r : LearnedObject) (t : LearnedStore)
      → find_learned kind subject t ≡ some (i, r)
      → find_learned kind subject (update i f t) ≡ some (i, f r)
  unfolding find_learned
  find_learned-update i r [] e = cc
  find_learned-update i r ((j, x) ∷ t) e = elim (Bool-cases (names kind subject x)) [
    | inl here ↦
        let same : ◌≡◌ {A = Option (ℕ × LearnedObject)} (some (j, x)) (some (i, r)) =
          sym (ap (λ b. if b then some (j, x) else find_learned kind subject t) here) ∙ e in
        let id : j ≡ i = cc in
        let row : x ≡ r = cc in
        let self : (j == i) ≡ true = ground arith in
        rw (self, same_names x ∙ here) (rw (id, row) refl)
    | inr there ↦
        let rest : find_learned kind subject t ≡ some (i, r) =
          sym (ap (λ b. if b then some (j, x) else find_learned kind subject t) there) ∙ e in
        elim (Bool-cases (j == i)) [
          | inl self ↦ rw (self, same_names x ∙ there) (find_learned-update i r t rest)
          | inr other ↦ rw (other, there) (find_learned-update i r t rest)
        ]
  ]

or_true : (b : Bool) → b || true ≡ true
or_true true = refl
or_true false = refl

has_id-last : (e : ℕ) (ids : List ℕ) → has_id e (ids ++ e ∷ []) ≡ true
has_id-last e [] = ground arith
has_id-last e (i ∷ ids) = ground (arith, has_id-last e ids)

module _ (kind subject : String) (e : ℕ) (now : ℕ) (predicate : String) (conditions : Dict Json)
    (contradicts : Bool) where
  sighted-is_counted :
      (r : LearnedObject) → is_counted e (sighted now e conditions contradicts r) ≡ true
  unfolding sighted
  sighted-is_counted r =
      elim contradicts as (λ c. is_counted e (sighted now e conditions c r) ≡ true) [
        | true ↦ rw (has_id-last e r.contradicting_ids) (or_true (has_id e r.supporting_ids))
        | false ↦ rw (has_id-last e r.supporting_ids) refl
      ]

  sighted-names :
      (r : LearnedObject)
      → names kind subject (sighted now e conditions contradicts r) ≡ names kind subject r
  unfolding sighted
  sighted-names r =
      elim contradicts
        as (λ c. names kind subject (sighted now e conditions c r) ≡ names kind subject r) [
          | true ↦ refl
          | false ↦ refl
        ]

  first-is_counted :
      is_counted e (first_sighting now kind subject e predicate conditions contradicts) ≡ true
  first-is_counted =
      elim contradicts
        as (λ c. is_counted e (first_sighting now kind subject e predicate conditions c) ≡ true) [
          | true ↦ ground arith
          | false ↦ ground arith
        ]

  module _ (now' : ℕ) (predicate' : String) (conditions' : Dict Json) (contradicts' : Bool) where
    -- A row that has the evidence is only read.
    sight_counted :
        (i : ℕ) (r : LearnedObject) (u : LearnedStore) (a : ℕ × LearnedObject)
        → is_counted e r ≡ true
        → (get i u).0 ≡ ok a
        → sight now' kind subject e predicate' conditions' contradicts' (some (i, r)) u ≡ (ok a, u)
    unfolding sight get
    sight_counted i r u a c h = rw c (
        let same : (get_row {R = LearnedObject} "unknown learned object: " i u).1 ≡ u =
          (get_row-Same _ i).at u in
        cc)

    settled :
        (x : Result (ℕ × LearnedObject) × LearnedStore) (i : ℕ) (r : LearnedObject)
        (u : LearnedStore) (a : ℕ × LearnedObject)
        → x ≡ (ok a, u)
        → find_learned kind subject u ≡ some (i, r)
        → is_counted e r ≡ true
        → (get i u).0 ≡ ok a
        → sight now' kind subject e predicate' conditions' contradicts'
            (find_learned kind subject x.1)
            x.1
          ≡ (x.0, x.1)
    settled x i r u a p f c h = rw (p, f) (sight_counted i r u a c h)

    after_first :
        (t : LearnedStore)
        → let x = sight now kind subject e predicate conditions contradicts none t in
          sight now' kind subject e predicate' conditions' contradicts'
            (find_learned kind subject x.1)
            x.1
          ≡ (x.0, x.1)
    unfolding sight find_learned get get_row
    after_first t =
        let row = first_sighting now kind subject e predicate conditions contradicts in
        settled _ (next_id t) row (append row t) (next_id t, row)
          (add_row_lem "unknown learned object: " row t)
          (rw (names_self kind subject row refl refl) refl) first-is_counted
          (get_row_found "unknown learned object: " (next_id t) (append row t) row (ground arith))

    after_change :
        (b : Bool) (i : ℕ) (r : LearnedObject) (t : LearnedStore) (a : ℕ × LearnedObject)
        → is_counted e r ≡ b
        → find_learned kind subject t ≡ some (i, r)
        → let x =
            (if b
                then get i
                else change_row "unknown learned object: " i (sighted now e conditions contradicts))
              t in
          x.0 ≡ ok a
          → sight now' kind subject e predicate' conditions' contradicts'
              (find_learned kind subject x.1)
              x.1
            ≡ (x.0, x.1)
    unfolding get
    after_change true i r t a c f h =
        settled (get i t) i r t a (let same : (get i t).1 ≡ t = (get_row-Same _ i).at t in cc) f c h
    after_change false i r t a c f h =
        let g = sighted now e conditions contradicts in
        let left = change_row_state "unknown learned object: " i g t in
        settled _ i (g r) (update i g t) a (cc)
          (find_learned-update kind subject g sighted-names i r t f) (sighted-is_counted r)
          (sym (change_row_result "unknown learned object: " i g t) ∙ h)

    after_change_of :
        (i : ℕ) (r : LearnedObject) (t : LearnedStore) (a : ℕ × LearnedObject)
        → find_learned kind subject t ≡ some (i, r)
        → let x = sight now kind subject e predicate conditions contradicts (some (i, r)) t in
          x.0 ≡ ok a
          → sight now' kind subject e predicate' conditions' contradicts'
              (find_learned kind subject x.1)
              x.1
            ≡ (x.0, x.1)
    unfolding sight
    after_change_of i r t a f h = after_change (is_counted e r) i r t a refl f h

    sight_again :
        (o : Option (ℕ × LearnedObject)) (t : LearnedStore) (a : ℕ × LearnedObject)
        → find_learned kind subject t ≡ o
        → let x = sight now kind subject e predicate conditions contradicts o t in
          x.0 ≡ ok a
          → sight now' kind subject e predicate' conditions' contradicts'
              (find_learned kind subject x.1)
              x.1
            ≡ (x.0, x.1)
    sight_again none t a f h = after_first t
    sight_again (some (i, r)) t a f h = after_change_of i r t a f h

-- The same evidence counts once: after an observation that succeeded, an observation of the same kind,
-- subject and event, whatever else it is given, returns the same object and changes nothing.
pub observe_again :
    (scrub_secrets : String → String) (l : Ledger) (kind subject : String) (e now now' : ℕ)
    (predicate predicate' : String) (conditions conditions' : Dict Json)
    (contradicts contradicts' : Bool) (t : LearnedStore) (a : ℕ × LearnedObject)
    → (observe scrub_secrets l now kind subject e predicate conditions contradicts t).0 ≡ ok a
    → observe scrub_secrets l now' kind subject e predicate' conditions' contradicts'
        (observe scrub_secrets l now kind subject e predicate conditions contradicts t).1
      ≡ (ok a, (observe scrub_secrets l now kind subject e predicate conditions contradicts t).1)
observe_again scrub_secrets l kind subject e now now' predicate predicate' conditions conditions'
      contradicts contradicts' t a h =
    let name = stored_subject scrub_secrets subject in
    let o = observe_ok scrub_secrets l kind subject e now predicate conditions contradicts t a h in
    let first =
      observe-eq-sight scrub_secrets l kind subject e now predicate conditions contradicts t o in
    let u =
      (sight now kind name e predicate conditions contradicts (find_learned kind name t) t).1 in
    let h' : (sight now kind name e predicate conditions contradicts (find_learned kind name t) t).0
        ≡ ok a =
      ap (λ x. x.0) (sym first) ∙ h in
    rw first (
      observe-eq-sight scrub_secrets l kind subject e now' predicate' conditions' contradicts' u o
      ∙ sight_again kind name e now predicate conditions contradicts now' predicate' conditions'
          contradicts' (find_learned kind name t) t a refl h'
      ∙ ap (λ x. (x, u)) h')

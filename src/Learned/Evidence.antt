-- ===== src/Learned/Evidence.antt =====
-- The evidence that `observe` of src/suns_chan/learned.py counts.
use mathlib.Core.List.{append_assoc, append-nil}
use sunns_chan.Prelude.{
  ℕ, ◌<◌, ◌≤◌, String, Bool, true, false, ◌||◌, ◌≡◌, refl, sym, subst, ap, ◌∙◌, inl, inr,
  Bool-cases, Option, none, some, List, [], ◌∷◌, ◌++◌, ◌==◌, if◌then◌else◌, length, arith, ◌>>=◌,
  gets, effects, Keeps,
}
use sunns_chan.Prelude.Json.{Json}
use sunns_chan.Prelude.Dict.{Dict}
use sunns_chan.Prelude.Table.{
  IsBelow, IsOrdered, Rows, append-IsOrdered, update-IsBelow, next_id-update, update, next_id,
}
use sunns_chan.Prelude.Rows.{get_row-Same, change_row_state, add_row_state, change_row}
use sunns_chan.Prelude.Rules.{
  Keeps-bind, Keeps-raise_if, Keeps-lift, Onward, Onward-refl, Onward-trans,
}
use sunns_chan.Ledger.{Ledger}
use sunns_chan.Learned.{
  LearnedObject, LearnedStore, has_id, count_distinct, names, find_learned, get, first_sighting,
  sighted, is_counted, sight, stored_subject, observe,
}

-- No id stands twice.
abbrev pub IsDistinct : List ℕ → Type 0
IsDistinct [] = Unit
IsDistinct (i ∷ ids) = (has_id i ids ≡ false) × IsDistinct ids

-- Every piece of evidence counts once, on one side.
pub record IsCountedOnce (r : LearnedObject) : Type 0 where
  pub distinct : IsDistinct (r.supporting_ids ++ r.contradicting_ids)

has_id-append : (i : ℕ) (xs ys : List ℕ) → has_id i (xs ++ ys) ≡ has_id i xs || has_id i ys
has_id-append i [] ys = refl
has_id-append i (x ∷ xs) ys = ground (arith, has_id-append i xs ys)

not_among :
    (x i : ℕ) (xs ys : List ℕ)
    → has_id x (xs ++ ys) ≡ false
    → (x == i) || has_id i xs ≡ false
    → has_id x (xs ++ i ∷ ys) ≡ false
not_among x i xs ys h k =
    let p : has_id x xs || has_id x ys ≡ false = sym (has_id-append x xs ys) ∙ h in
    let q : has_id x (xs ++ i ∷ ys) ≡ has_id x xs || ((i == x) || has_id x ys) =
      has_id-append x xs (i ∷ ys) in
    ground arith

-- Evidence that is new on both sides can be put between them.
IsDistinct-insert :
    (i : ℕ) (xs ys : List ℕ)
    → IsDistinct (xs ++ ys)
    → has_id i xs ≡ false
    → has_id i ys ≡ false
    → IsDistinct (xs ++ i ∷ ys)
IsDistinct-insert i [] ys d h k = (k, d)
IsDistinct-insert i (x ∷ xs) ys d h k =
    (not_among x i xs ys d.0 h, IsDistinct-insert i xs ys d.1 (ground arith) k)

count_distinct-IsDistinct : (ids : List ℕ) → IsDistinct ids → count_distinct ids ≡ length ids
unfolding count_distinct
count_distinct-IsDistinct [] d = refl
count_distinct-IsDistinct (i ∷ ids) d = rw (d.0, count_distinct-IsDistinct ids d.1) (ground arith)

sighted-IsCountedOnce :
    (now event_id : ℕ) (conditions : Dict Json) (contradicts : Bool) (r : LearnedObject)
    → is_counted event_id r ≡ false
    → IsCountedOnce r
    → IsCountedOnce (sighted now event_id conditions contradicts r)
unfolding sighted
sighted-IsCountedOnce now e conditions true r h d = record {
  distinct = rw (sym (append_assoc r.supporting_ids r.contradicting_ids (e ∷ []))) (
      IsDistinct-insert e (r.supporting_ids ++ r.contradicting_ids) []
        (rw (append-nil (r.supporting_ids ++ r.contradicting_ids)) d.distinct)
        (has_id-append e r.supporting_ids r.contradicting_ids ∙ h) refl);
}
sighted-IsCountedOnce now e conditions false r h d = record {
  distinct = rw (append_assoc r.supporting_ids (e ∷ []) r.contradicting_ids) (
      IsDistinct-insert e r.supporting_ids r.contradicting_ids d.distinct (ground arith)
        (ground arith));
}

update-above :
    (f : LearnedObject → LearnedObject) (i : ℕ) (t : LearnedStore) → IsBelow i t → update i f t ≡ t
update-above f i t h = above i i t h (omega arith)
  where
    above : (n i : ℕ) (t : LearnedStore) → IsBelow n t → n ≤ i → update i f t ≡ t
    above n i [] h le = refl
    above n i ((j, x) ∷ t) h le =
        let other : (j == i) ≡ false = ground (arith, h.0) in
        rw (other, above j i t h.1 (omega (arith, h.0))) refl

module _ (kind subject : String) where
  find_learned-below :
      (n i : ℕ) (r : LearnedObject) (t : LearnedStore)
      → IsBelow n t
      → find_learned kind subject t ≡ some (i, r)
      → i < n
  unfolding find_learned
  find_learned-below n i r [] h e = cc
  find_learned-below n i r ((j, x) ∷ t) h e = elim (Bool-cases (names kind subject x)) [
    | inl here ↦
        let same : ◌≡◌ {A = Option (ℕ × LearnedObject)} (some (j, x)) (some (i, r)) =
          sym (ap (λ b. if b then some (j, x) else find_learned kind subject t) here) ∙ e in
        let q : j ≡ i = cc in rw (sym q) h.0
    | inr there ↦
        let rest : find_learned kind subject t ≡ some (i, r) =
          sym (ap (λ b. if b then some (j, x) else find_learned kind subject t) there) ∙ e in
        let low : i < j = find_learned-below j i r t h.1 rest in
        let high : j < n = h.0 in omega arith
  ]

  update-found-Rows :
      (P : LearnedObject → Type 0) (f : LearnedObject → LearnedObject) (n i : ℕ) (r : LearnedObject)
      (t : LearnedStore)
      → IsBelow n t
      → find_learned kind subject t ≡ some (i, r)
      → Rows P t
      → P (f r)
      → Rows P (update i f t)
  unfolding find_learned
  update-found-Rows P f n i r [] h e p q = cc
  update-found-Rows P f n i r ((j, x) ∷ t) h e p q = elim (Bool-cases (names kind subject x)) [
    | inl here ↦
        let same : ◌≡◌ {A = Option (ℕ × LearnedObject)} (some (j, x)) (some (i, r)) =
          sym (ap (λ b. if b then some (j, x) else find_learned kind subject t) here) ∙ e in
        let id : j ≡ i = cc in
        let row : r ≡ x = cc in
        let self : (j == i) ≡ true = ground arith in
        let tail : update i f t ≡ t = update-above f i t (rw (sym id) h.1) in
        rw (self, tail) (subst (λ y. P (f y)) row q, p.1)
    | inr there ↦
        let rest : find_learned kind subject t ≡ some (i, r) =
          sym (ap (λ b. if b then some (j, x) else find_learned kind subject t) there) ∙ e in
        let low : i < j = find_learned-below j i r t h.1 rest in
        let other : (j == i) ≡ false = ground arith in
        rw other (p.0, update-found-Rows P f j i r t h.1 rest p.1 q)
  ]

  find_learned-Rows :
      (P : LearnedObject → Type 0) (i : ℕ) (r : LearnedObject) (t : LearnedStore)
      → find_learned kind subject t ≡ some (i, r)
      → Rows P t
      → P r
  unfolding find_learned
  find_learned-Rows P i r [] e p = cc
  find_learned-Rows P i r ((j, x) ∷ t) e p = elim (Bool-cases (names kind subject x)) [
    | inl here ↦
        let same : ◌≡◌ {A = Option (ℕ × LearnedObject)} (some (j, x)) (some (i, r)) =
          sym (ap (λ b. if b then some (j, x) else find_learned kind subject t) here) ∙ e in
        let row : x ≡ r = cc in subst P row p.0
    | inr there ↦
        let rest : find_learned kind subject t ≡ some (i, r) =
          sym (ap (λ b. if b then some (j, x) else find_learned kind subject t) there) ∙ e in
        find_learned-Rows P i r t rest p.1
  ]

-- A store in which every piece of evidence counts once.
pub record IsWellKept (t : LearnedStore) : Type 0 where
  pub ordered : IsOrdered t
  pub counted : Rows IsCountedOnce t

first_sighting-IsCountedOnce :
    (now : ℕ) (kind subject : String) (e : ℕ) (predicate : String) (conditions : Dict Json)
    (contradicts : Bool)
    → IsCountedOnce (first_sighting now kind subject e predicate conditions contradicts)
first_sighting-IsCountedOnce now kind subject e predicate conditions true = record {
  distinct = (refl, tt);
}
first_sighting-IsCountedOnce now kind subject e predicate conditions false = record {
  distinct = (refl, tt);
}

module _ (now : ℕ) (kind subject : String) (e : ℕ) (predicate : String) (conditions : Dict Json)
    (contradicts : Bool) where
  counted_change :
      (b : Bool) (i : ℕ) (r : LearnedObject) (t : LearnedStore)
      → is_counted e r ≡ b
      → find_learned kind subject t ≡ some (i, r)
      → IsWellKept t
      → IsWellKept
          ((if b
              then get i
              else change_row "unknown learned object: " i (sighted now e conditions contradicts))
            t).1
  unfolding get
  counted_change true i r t c f w = rw ((get_row-Same _ i).at t) w
  counted_change false i r t c f w =
      rw (change_row_state "unknown learned object: " i (sighted now e conditions contradicts) t)
        (record {
          ordered =
              rw (next_id-update i (sighted now e conditions contradicts) t)
                (update-IsBelow (next_id t) i (sighted now e conditions contradicts) t w.ordered);
          counted =
              update-found-Rows kind subject IsCountedOnce (sighted now e conditions contradicts)
                (next_id t) i r t w.ordered f w.counted
                (sighted-IsCountedOnce now e conditions contradicts r c
                  (find_learned-Rows kind subject IsCountedOnce i r t f w.counted));
        })

  sight-IsWellKept :
      (o : Option (ℕ × LearnedObject)) (t : LearnedStore)
      → find_learned kind subject t ≡ o
      → IsWellKept t
      → IsWellKept (sight now kind subject e predicate conditions contradicts o t).1
  unfolding sight
  sight-IsWellKept none t f w =
      let row = first_sighting now kind subject e predicate conditions contradicts in
      rw (add_row_state "unknown learned object: " row t) (record {
        ordered = append-IsOrdered row t w.ordered;
        counted = (
          first_sighting-IsCountedOnce now kind subject e predicate conditions contradicts,
          w.counted,
        );
      })
  sight-IsWellKept (some (i, r)) t f w = counted_change (is_counted e r) i r t refl f w

  read_and_sight : Keeps (Onward IsWellKept) (
      gets (find_learned kind subject)
      >>= sight now kind subject e predicate conditions contradicts)
  unfolding effects
  read_and_sight = record {
    at = λ t. record { at = sight-IsWellKept (find_learned kind subject t) t refl };
  }

-- An observation, successful or not, keeps a store in which every piece of evidence counts once in
-- each learned object, on one side, and in which no two objects have the same id.
pub observe-IsWellKept :
    (scrub_secrets : String → String) (l : Ledger) (now : ℕ) (kind subject : String) (e : ℕ)
    (predicate : String) (conditions : Dict Json) (contradicts : Bool)
    → Keeps
        (Onward IsWellKept)
        (observe scrub_secrets l now kind subject e predicate conditions contradicts)
unfolding observe
observe-IsWellKept scrub_secrets l now kind subject e predicate conditions contradicts =
    Keeps-bind Onward-trans _ _ (Keeps-raise_if Onward-refl _ _) (λ _.
      Keeps-bind Onward-trans _ _ (Keeps-raise_if Onward-refl _ _) (λ _.
        Keeps-bind Onward-trans _ _ (Keeps-lift Onward-refl _) (λ _.
          read_and_sight now kind (stored_subject scrub_secrets subject) e predicate conditions
            contradicts)))

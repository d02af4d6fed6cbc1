-- ===== src/Prelude/Dict.antt =====
-- A Python dict with texts as keys: pairs in the order of insertion, each key once.
use Prim.Native.String.{String}
use mathlib.Core.Path.{◌≡◌, refl, sym, ap, ◌∙◌}
use mathlib.Core.Bool.{Bool, true, false, not, ◌&&◌, ◌||◌}
use mathlib.Core.Option.{Option, none, some}
use mathlib.Core.List.{List, [], ◌∷◌}
use mathlib.Core.Logic.{inl, inr}
use sunns_chan.Prelude.Tests.{if◌then◌else◌, str_eq, eq_iff, Bool-cases}

abbrev pub Dict : Type 0 → Type 0
Dict A = List (String × A)

or_again : (a b : Bool) → a || b ≡ a || (a || b)
or_again true b = refl
or_again false b = refl

or_swap : (a b c : Bool) → a || (b || c) ≡ b || (a || c)
or_swap true true c = refl
or_swap true false c = refl
or_swap false b c = refl

and_false : (b : Bool) → false ≡ b && false
and_false true = refl
and_false false = refl

drop_same : (a b : Bool) → not a && b ≡ not a && (a || b)
drop_same true b = refl
drop_same false b = refl

keep_other : (a b c : Bool) → (b ≡ true → a ≡ false) → a || (not b && c) ≡ not b && (a || c)
keep_other a true c h = rw (h refl) refl
keep_other true false c h = refl
keep_other false false c h = refl

module _ {A : Type 0} where
  -- `d.get(k)`
  unfoldable pub find : String → Dict A → Option A
  find k [] = none
  find k ((j, a) ∷ d) = if str_eq j k then some a else find k d

  -- `d[k] = a`
  unfoldable pub put : String → A → Dict A → Dict A
  put k a [] = (k, a) ∷ []
  put k a ((j, b) ∷ d) = if str_eq j k then (j, a) ∷ d else (j, b) ∷ put k a d

  -- `del d[k]`, where `k` is a key.
  unfoldable pub erase : String → Dict A → Dict A
  erase k [] = []
  erase k ((j, b) ∷ d) = if str_eq j k then erase k d else (j, b) ∷ erase k d

  pub find-put : (k : String) (a : A) (d : Dict A) → find k (put k a d) ≡ some a
  unfolding find put
  find-put k a [] = let e : str_eq k k ≡ true = (eq_iff k k).1 refl in rw e refl
  find-put k a ((j, b) ∷ d) = elim (Bool-cases (str_eq j k)) [
    | inl e ↦ rw (e, e) refl
    | inr e ↦ rw (e, e) (find-put k a d)
  ]

  pub find-put_other :
      (k i : String) (a : A) (d : Dict A) → str_eq k i ≡ false → find i (put k a d) ≡ find i d
  unfolding find put
  find-put_other k i a [] h = rw h refl
  find-put_other k i a ((j, b) ∷ d) h = elim (Bool-cases (str_eq j k)) [
    | inl e ↦
        let p : j ≡ k = (eq_iff j k).0 e in let f : str_eq j i ≡ false = rw p h in rw e (rw f refl)
    | inr e ↦ rw (e, find-put_other k i a d h) refl
  ]

  -- `k in d`
  unfoldable pub has_key : String → Dict A → Bool
  has_key k [] = false
  has_key k ((j, a) ∷ d) = str_eq j k || has_key k d

  pub find-has_key : (k : String) (d : Dict A) {a : A} → find k d ≡ some a → has_key k d ≡ true
  unfolding find has_key
  find-has_key k [] h = cc
  find-has_key k ((j, b) ∷ d) h = elim (Bool-cases (str_eq j k)) [
    | inl e ↦ rw e refl
    | inr e ↦
        let behind : find k d ≡ some _ = sym (ap (λ b'. if b' then some b else find k d) e) ∙ h in
        rw (e, find-has_key k d behind) refl
  ]

  pub has_key-put :
      (k i : String) (a : A) (d : Dict A) → has_key i (put k a d) ≡ str_eq k i || has_key i d
  unfolding put has_key
  has_key-put k i a [] = refl
  has_key-put k i a ((j, b) ∷ d) = elim (Bool-cases (str_eq j k)) [
    | inl e ↦
        let same : j ≡ k = (eq_iff j k).0 e in rw e (rw same (or_again (str_eq k i) (has_key i d)))
    | inr e ↦ rw (e, has_key-put k i a d) (or_swap (str_eq j i) (str_eq k i) (has_key i d))
  ]

  pub has_key-erase :
      (k i : String) (d : Dict A) → has_key i (erase k d) ≡ not (str_eq k i) && has_key i d
  unfolding has_key erase
  has_key-erase k i [] = and_false (not (str_eq k i))
  has_key-erase k i ((j, b) ∷ d) = elim (Bool-cases (str_eq j k)) [
    | inl e ↦
        let same : j ≡ k = (eq_iff j k).0 e in
        rw e (rw (same, has_key-erase k i d) (drop_same (str_eq k i) (has_key i d)))
    | inr e ↦
        rw (e, has_key-erase k i d)
          (keep_other (str_eq j i) (str_eq k i) (has_key i d)
            (λ f. let same : k ≡ i = (eq_iff k i).0 f in ap (str_eq j) (sym same) ∙ e))
  ]

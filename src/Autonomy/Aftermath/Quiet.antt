-- ===== src/Autonomy/Aftermath/Quiet.antt =====
-- `_move_curiosity` of src/suns_chan/autonomy.py never raises: whatever the store of
-- src/suns_chan/curiosity.py raises is a ValueError.
use sunns_chan.Prelude.{
  ℕ, String, Bool, true, false, ◌≡◌, refl, ap, ◌∙◌, arith, Option, none, some, Error, value_error,
  runtime_error, not_implemented, Result, ok, err, Exec, pure, lift, ◌>>=◌, if◌then◌else◌,
}
use sunns_chan.Prelude.Raises.{
  is_value_error, RaisesValueError, Raises-bind, Raises-or_raise, Raises-raise_if, Raises-modify,
}
use sunns_chan.Prelude.Rows.{get_row, change_row}
use sunns_chan.Ledger.{Ledger, require_event}
use sunns_chan.Curiosity.{Status, Curiosities, clamp, confidence_after, get, transition, name}
use sunns_chan.Autonomy.Aftermath.{
  caught, attempt, try_move, move_from, move_curiosity, is_direct, is_stepwise,
}
use sunns_chan.Autonomy.Aftermath.Moves.{Onwards, move_curiosity-Onwards}

-- An action that never raises.
record Quiet {ℓ κ} {S : Type ℓ} {A : Type κ} (m : Exec S A) : Type (ℓ ⊔ κ) where
  at : (s : S) → (a : A) × ((m s).0 ≡ ok a)

module _ {ℓ κ} {S : Type ℓ} {A : Type κ} where
  Quiet-pure : (a : A) → Quiet {S = S} (pure a)
  unfolding pure
  Quiet-pure a = record { at = λ s. (a, refl) }

  Quiet-if : (b : Bool) (m n : Exec S A) → Quiet m → Quiet n → Quiet (if b then m else n)
  Quiet-if true m n h k = h
  Quiet-if false m n h k = k

  caught_quiet :
      (x : Result A) (t : S)
      → ((e : Error) → x ≡ err e → is_value_error e ≡ true)
      → (o : Option A) × ((caught x t).0 ≡ ok o)
  unfolding caught
  caught_quiet (ok a) t h = (some a, refl)
  caught_quiet (err (value_error m)) t h = (none, refl)
  caught_quiet (err (runtime_error m)) t h = absurd (cc (h (runtime_error m) refl))
  caught_quiet (err (not_implemented m)) t h = absurd (cc (h (not_implemented m) refl))

  Quiet-attempt : (m : Exec S A) → RaisesValueError m → Quiet (attempt m)
  unfolding attempt
  Quiet-attempt m r = record { at = λ s. caught_quiet (m s).0 (m s).1 (r.at s) }

  Raises-lift :
      (x : Result A)
      → ((e : Error) → x ≡ err e → is_value_error e ≡ true)
      → RaisesValueError {S = S} (lift x)
  unfolding lift
  Raises-lift x h = record { at = λ s. h }

module _ {ℓ κ ν} {S : Type ℓ} {A : Type κ} {B : Type ν} where
  Quiet-bind :
      (m : Exec S A) (f : A → Exec S B) → Quiet m → ((a : A) → Quiet (f a)) → Quiet (m >>= f)
  unfolding ◌>>=◌
  Quiet-bind m f h k = record {
    at = λ s.
        let (a, e) = h.at s in
        let (b, d) = (k a).at (m s).1 in
        let rest : Result A → Result B = λ x.
          (elim x as (λ _. Result B × S) [ ok a ↦ f a (m s).1 | err e ↦ (err e, (m s).1) ]).0 in
        (b, ap rest e ∙ d);
  }

  Quiet-option :
      (o : Option A) (m : Exec S B) (f : A → Exec S B)
      → Quiet m
      → ((a : A) → Quiet (f a))
      → Quiet (elim o [ none ↦ m | some a ↦ f a ])
  Quiet-option none m f h k = h
  Quiet-option (some a) m f h k = k a

get_row-Raises : {R : Type 0} (label : String) (k : ℕ) → RaisesValueError (get_row {R = R} label k)
unfolding get_row
get_row-Raises label k = record { at = λ s e h. ground arith }

require_event-Raises :
    (l : Ledger) (i : ℕ) (e : Error) → require_event l i ≡ err e → is_value_error e ≡ true
unfolding require_event
require_event-Raises l i e h = ground arith

confidence_after-Raises :
    (s : Status) (c : ℕ) (e : Error) → confidence_after s c ≡ err e → is_value_error e ≡ true
unfolding confidence_after clamp
confidence_after-Raises s c e h = ground arith

transition-Raises :
    (l : Ledger) (now id : ℕ) (to_status : String) (evidence : ℕ)
    → RaisesValueError (transition l now id to_status evidence)
unfolding transition get change_row
transition-Raises l now id to_status evidence = Raises-bind _ _ (Raises-or_raise _ _) λ target.
    Raises-bind _ _ (get_row-Raises _ id) λ row. Raises-bind _ _ (Raises-raise_if _ _) λ _.
      Raises-bind _ _ (Raises-lift _ (require_event-Raises l evidence)) λ _.
        Raises-bind _ _ (Raises-lift _ (confidence_after-Raises target row.1.confidence))
          λ c. Raises-bind _ _ (Raises-modify _) λ _. get_row-Raises _ id

try_move-Quiet :
    (l : Ledger) (now id : ℕ) (to_status : String) (evidence : ℕ)
    → Quiet (try_move l now id to_status evidence)
try_move-Quiet l now id to_status evidence =
    Quiet-bind _ _ (Quiet-attempt _ (transition-Raises l now id to_status evidence))
      (λ _. Quiet-pure _)

move_from-Quiet :
    (l : Ledger) (now id : ℕ) (to_status : String) (evidence : ℕ) (current : String)
    → Quiet (move_from l now id to_status evidence current)
unfolding move_from
move_from-Quiet l now id to_status evidence current =
    Quiet-if (is_direct to_status current) _ _ (try_move-Quiet l now id to_status evidence) (
      Quiet-if (is_stepwise to_status current) _ _
        (Quiet-bind _ _ (Quiet-attempt _ (transition-Raises l now id "active" evidence)) (λ step.
          Quiet-option step _ _ (Quiet-pure _) (λ _. try_move-Quiet l now id to_status evidence)))
        (Quiet-pure _))

move_curiosity-Quiet :
    (l : Ledger) (now : ℕ) (id : Option ℕ) (to_status : String) (evidence : ℕ) (t : Curiosities)
    → (move_curiosity l now id to_status evidence t).0 ≡ ok tt
unfolding move_curiosity get
move_curiosity-Quiet l now none to_status evidence t = ((Quiet-pure tt).at t).1
move_curiosity-Quiet l now (some id) to_status evidence t =
    ((Quiet-bind _ _ (Quiet-attempt _ (get_row-Raises "unknown curiosity: " id)) (λ row.
        Quiet-option row _ _ (Quiet-pure tt)
          (λ r. move_from-Quiet l now id to_status evidence (name r.1.status)))).at
      t).1

-- Whatever move the engine asks for, known or not, `_move_curiosity` raises nothing, and every
-- curiosity that was in the store is there afterwards, with a status that arrows of the lifecycle
-- lead to from its status before.
pub move_curiosity_lem :
    (l : Ledger) (now : ℕ) (id : Option ℕ) (to_status : String) (evidence : ℕ) (t : Curiosities)
    → ((move_curiosity l now id to_status evidence t).0 ≡ ok tt)
      × Onwards t (move_curiosity l now id to_status evidence t).1
move_curiosity_lem l now id to_status evidence t = (
  move_curiosity-Quiet l now id to_status evidence t,
  move_curiosity-Onwards l now id to_status evidence t,
)

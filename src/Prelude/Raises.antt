-- ===== src/Prelude/Raises.antt =====
-- Which exceptions an action can raise, with one rule for each way to build an action.
use mathlib.Core.Path.{◌≡◌, refl}
use mathlib.Core.Bool.{Bool, true, false}
use mathlib.Core.Option.{Option, none, some}
use Prim.Native.String.{String}
use sunns_chan.Prelude.Effects.{
  Error, value_error, runtime_error, not_implemented, Result, ok, err, Exec, pure, raise, gets,
  ◌>>=◌, raise_if, modify, or_raise, on_value_error,
}

-- A `ValueError`, as a Boolean.
abbrev pub is_value_error : Error → Bool
is_value_error (value_error m) = true
is_value_error (runtime_error m) = false
is_value_error (not_implemented m) = false

-- Every exception that `m` raises is a `ValueError`.
pub record RaisesValueError {ℓ κ} {S : Type ℓ} {A : Type κ} (m : Exec S A) : Type (ℓ ⊔ κ) where
  pub at : (s : S) (e : Error) → (m s).0 ≡ err e → is_value_error e ≡ true

module _ {ℓ κ} {S : Type ℓ} {A : Type κ} where
  pub Raises-pure : (a : A) → RaisesValueError {S = S} (pure a)
  unfolding pure
  Raises-pure a = record { at = λ s e h. cc }

  pub Raises-gets : (f : S → A) → RaisesValueError (gets f)
  unfolding gets
  Raises-gets f = record { at = λ s e h. cc }

  pub Raises-raise : (m : String) → RaisesValueError {S = S} {A = A} (raise (value_error m))
  unfolding raise
  Raises-raise m = record { at = λ s e h. cc }

  pub Raises-or_raise :
      (o : Option A) (m : String) → RaisesValueError {S = S} (or_raise o (value_error m))
  unfolding or_raise
  Raises-or_raise none m = record { at = λ s e h. cc }
  Raises-or_raise (some a) m = record { at = λ s e h. cc }

  pub Raises-on_value_error :
      (x : Result A) (h : String → Exec S A)
      → ((e : Error) → x ≡ err e → is_value_error e ≡ true)
      → ((m : String) → RaisesValueError (h m))
      → RaisesValueError (on_value_error x h)
  unfolding on_value_error
  Raises-on_value_error (ok a) h k r = record { at = λ s e p. cc }
  Raises-on_value_error (err (value_error m)) h k r = record { at = λ s. (r m).at s }
  Raises-on_value_error (err (runtime_error m)) h k r = absurd (cc (k (runtime_error m) refl))
  Raises-on_value_error (err (not_implemented m)) h k r = absurd (cc (k (not_implemented m) refl))

pub Raises-raise_if {ℓ} :
    {S : Type ℓ} (b : Bool) (m : String) → RaisesValueError {S = S} (raise_if b (value_error m))
unfolding raise_if
Raises-raise_if true m = record { at = λ s e h. cc }
Raises-raise_if false m = record { at = λ s e h. cc }

pub Raises-modify {ℓ} : {S : Type ℓ} (f : S → S) → RaisesValueError (modify f)
unfolding modify
Raises-modify f = record { at = λ s e h. cc }

module _ {ℓ κ ν} {S : Type ℓ} {A : Type κ} {B : Type ν} where
  raised :
      (x : Result A) (s' : S) (f : A → Exec S B) (e : Error)
      → ((d : Error) → x ≡ err d → is_value_error d ≡ true)
      → ((a : A) → RaisesValueError (f a))
      → (elim x as (λ _. Result B × S) [ ok a ↦ f a s' | err e ↦ (err e, s') ]).0 ≡ err e
      → is_value_error e ≡ true
  raised (ok a) s' f e k r h = (r a).at s' e h
  raised (err d) s' f e k r h = cc (k d refl, h)

  pub Raises-bind :
      (m : Exec S A) (f : A → Exec S B)
      → RaisesValueError m
      → ((a : A) → RaisesValueError (f a))
      → RaisesValueError (m >>= f)
  unfolding ◌>>=◌
  Raises-bind m f r k = record { at = λ s e. raised (m s).0 (m s).1 f e (r.at s) k }

pub ruleset raises_rules = (
  Raises-pure, Raises-gets, Raises-raise, Raises-or_raise, Raises-raise_if, Raises-modify,
  Raises-bind,
)

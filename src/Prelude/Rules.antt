-- ===== src/Prelude/Rules.antt =====
-- Rules for `Keeps` and `FailKeeps`, one for each way to build an action, for a relation that is
-- reflexive and transitive.
use mathlib.Core.Path.{◌≡◌, refl}
use mathlib.Core.Bool.{Bool, true, false, not}
use mathlib.Core.Option.{Option, none, some}
use Prim.Native.String.{String}
use sunns_chan.Prelude.Tests.{if◌then◌else◌}
use sunns_chan.Prelude.Effects.{
  Error, value_error, runtime_error, not_implemented, Result, ok, err, Exec, pure, raise, gets,
  lift, ◌>>=◌, raise_if, modify, or_raise, on_value_error, Keeps, FailKeeps,
}

abbrev pub Reflexive {ℓ μ} : {S : Type ℓ} → (S → S → Type μ) → Type (ℓ ⊔ μ)
Reflexive {S = S} R = (s : S) → R s s

abbrev pub Transitive {ℓ μ} : {S : Type ℓ} → (S → S → Type μ) → Type (ℓ ⊔ μ)
Transitive {S = S} R = (s t u : S) → R s t → R t u → R s u

-- `P` is kept: a relation between states that is reflexive and transitive.
pub record Onward {ℓ} {S : Type ℓ} (P : S → Type 0) (s t : S) : Type 0 where
  pub at : P s → P t

module _ {ℓ} {S : Type ℓ} {P : S → Type 0} where
  pub Onward-refl : Reflexive (Onward P)
  Onward-refl s = record { at = λ p. p }

  pub Onward-trans : Transitive (Onward P)
  Onward-trans s t u h k = record { at = λ p. k.at (h.at p) }

module _ {ℓ κ μ} {S : Type ℓ} {A : Type κ} {R : S → S → Type μ} (r : Reflexive R) where
  pub Keeps-pure : (a : A) → Keeps R (pure a)
  unfolding pure
  Keeps-pure a = record { at = r }

  pub Keeps-raise : (e : Error) → Keeps R (raise {A = A} e)
  unfolding raise
  Keeps-raise e = record { at = r }

  pub Keeps-gets : (f : S → A) → Keeps R (gets f)
  unfolding gets
  Keeps-gets f = record { at = r }

  pub Keeps-lift : (x : Result A) → Keeps R (lift x)
  unfolding lift
  Keeps-lift x = record { at = r }

  pub Keeps-or_raise : (o : Option A) (e : Error) → Keeps R (or_raise o e)
  unfolding or_raise
  Keeps-or_raise none e = record { at = r }
  Keeps-or_raise (some a) e = record { at = r }

  pub Keeps-on_value_error :
      (x : Result A) (h : String → Exec S A)
      → ((m : String) → Keeps R (h m))
      → Keeps R (on_value_error x h)
  unfolding on_value_error
  Keeps-on_value_error (ok a) h k = record { at = r }
  Keeps-on_value_error (err (value_error m)) h k = record { at = λ s. (k m).at s }
  Keeps-on_value_error (err (runtime_error m)) h k = record { at = r }
  Keeps-on_value_error (err (not_implemented m)) h k = record { at = r }

  pub FailKeeps-pure : (a : A) → FailKeeps R (pure a)
  unfolding pure
  FailKeeps-pure a = record { at = λ s e _. r s }

pub Keeps-raise_if {ℓ μ} :
    {S : Type ℓ} {R : S → S → Type μ}
    → Reflexive R
    → (b : Bool) (e : Error) → Keeps R (raise_if b e)
unfolding raise_if
Keeps-raise_if r true e = record { at = r }
Keeps-raise_if r false e = record { at = r }

-- A change of the state that cannot raise.
pub FailKeeps-modify {ℓ μ} : {S : Type ℓ} {R : S → S → Type μ} (f : S → S) → FailKeeps R (modify f)
unfolding modify
FailKeeps-modify f = record { at = λ s e h. cc }

module _ {ℓ κ μ} {S : Type ℓ} {A : Type κ} {R : S → S → Type μ} where
  pub Keeps-if : (b : Bool) (m n : Exec S A) → Keeps R m → Keeps R n → Keeps R (if b then m else n)
  Keeps-if true m n km kn = km
  Keeps-if false m n km kn = kn

  pub FailKeeps-Keeps : (m : Exec S A) → Keeps R m → FailKeeps R m
  FailKeeps-Keeps m k = record { at = λ s e _. k.at s }

module _ {ℓ κ ν μ} {S : Type ℓ} {A : Type κ} {B : Type ν} {R : S → S → Type μ}
    (t : Transitive R) where
  after :
      (x : Result A) (s s' : S) (f : A → Exec S B)
      → R s s'
      → ((a : A) → Keeps R (f a))
      → R s (elim x as (λ _. Result B × S) [ ok a ↦ f a s' | err e ↦ (err e, s') ]).1
  after (ok a) s s' f h k = t s s' (f a s').1 h ((k a).at s')
  after (err e) s s' f h k = h

  pub Keeps-bind :
      (m : Exec S A) (f : A → Exec S B) → Keeps R m → ((a : A) → Keeps R (f a)) → Keeps R (m >>= f)
  unfolding ◌>>=◌
  Keeps-bind m f km kf = record { at = λ s. after (m s).0 s (m s).1 f (km.at s) kf }

  -- What is lifted is a success in what follows.
  pub Keeps-lift_bind :
      Reflexive R
      → (x : Result A) (f : A → Exec S B) → ((a : A) → x ≡ ok a → Keeps R (f a))
      → Keeps R (lift x >>= f)
  unfolding lift ◌>>=◌
  Keeps-lift_bind r (ok a) f k = record { at = (k a refl).at }
  Keeps-lift_bind r (err e) f k = record { at = r }

  after_fail :
      (x : Result A) (s s' : S) (f : A → Exec S B) (e : Error)
      → R s s'
      → ((a : A) → FailKeeps R (f a))
      → (elim x as (λ _. Result B × S) [ ok a ↦ f a s' | err e ↦ (err e, s') ]).0 ≡ err e
      → R s (elim x as (λ _. Result B × S) [ ok a ↦ f a s' | err e ↦ (err e, s') ]).1
  after_fail (ok a) s s' f e h k p = t s s' (f a s').1 h ((k a).at s' e p)
  after_fail (err e') s s' f e h k p = h

  pub FailKeeps-bind :
      (m : Exec S A) (f : A → Exec S B)
      → Keeps R m
      → ((a : A) → FailKeeps R (f a))
      → FailKeeps R (m >>= f)
  unfolding ◌>>=◌
  FailKeeps-bind m f km kf = record { at = λ s e. after_fail (m s).0 s (m s).1 f e (km.at s) kf }

pub ruleset keeps_rules = (
  Keeps-pure, Keeps-raise, Keeps-gets, Keeps-lift, Keeps-or_raise, Keeps-on_value_error,
  Keeps-raise_if, Keeps-if, Keeps-bind,
)

module _ {ℓ κ ν} {S : Type ℓ} {A : Type κ} {B : Type ν} where
  ok_parts :
      (x : Result A) (s' : S) (f : A → Exec S B) {b : B}
      → (elim x as (λ _. Result B × S) [ ok a ↦ f a s' | err e ↦ (err e, s') ]).0 ≡ ok b
      → (a : A) × (x ≡ ok a)
        × (elim x as (λ _. Result B × S) [ ok a ↦ f a s' | err e ↦ (err e, s') ] ≡ f a s')
  ok_parts (ok a) s' f h = (a, refl, refl)
  ok_parts (err e) s' f h = cc

  -- A successful sequence is a success of both halves.
  pub >>=-eq-ok :
      (m : Exec S A) (f : A → Exec S B) (s : S) {b : B}
      → ((m >>= f) s).0 ≡ ok b
      → (a : A) × ((m s).0 ≡ ok a) × ((m >>= f) s ≡ f a (m s).1)
  unfolding ◌>>=◌
  >>=-eq-ok m f s h = ok_parts (m s).0 (m s).1 f h

module _ {ℓ κ ν μ} {S : Type ℓ} {A : Type κ} {B : Type ν} (Q : B → S → Type μ) where
  ensures_parts :
      (x : Result A) (s' : S) (f : A → Exec S B)
      → ((a : A) → x ≡ ok a → (b : B) → (f a s').0 ≡ ok b → Q b (f a s').1)
      → (b : B) → (elim x as (λ _. Result B × S) [ ok a ↦ f a s' | err e ↦ (err e, s') ]).0 ≡ ok b
      → Q b (elim x as (λ _. Result B × S) [ ok a ↦ f a s' | err e ↦ (err e, s') ]).1
  ensures_parts (ok a) s' f k b h = k a refl b h
  ensures_parts (err e) s' f k b h = cc

  -- What a sequence ensures is what its second half ensures after its first.
  pub Ensures-bind :
      (m : Exec S A) (f : A → Exec S B) (s : S)
      → ((a : A) → (m s).0 ≡ ok a → (b : B) → (f a (m s).1).0 ≡ ok b → Q b (f a (m s).1).1)
      → (b : B) → ((m >>= f) s).0 ≡ ok b
      → Q b ((m >>= f) s).1
  unfolding ◌>>=◌
  Ensures-bind m f s k = ensures_parts (m s).0 (m s).1 f k

-- What a step that returned tells of its test.
pub raise_if_ok {ℓ} :
    {S : Type ℓ} (b : Bool) (e : Error) (s : S) (a : Unit {0})
    → (raise_if b e s).0 ≡ ok a
    → b ≡ false
unfolding raise_if
raise_if_ok true e s a h = cc
raise_if_ok false e s a h = refl

pub raise_if-not_ok {ℓ} :
    {S : Type ℓ} (b : Bool) (e : Error) (s : S) (a : Unit {0})
    → (raise_if (not b) e s).0 ≡ ok a
    → b ≡ true
unfolding raise_if
raise_if-not_ok true e s a h = refl
raise_if-not_ok false e s a h = cc

pub or_raise_ok {ℓ κ} :
    {S : Type ℓ} {A : Type κ} (o : Option A) (e : Error) (s : S) (a : A)
    → (or_raise o e s).0 ≡ ok a
    → o ≡ some a
unfolding or_raise
or_raise_ok none e s a h = cc
or_raise_ok (some x) e s a h = cc

pub lift_ok {ℓ κ} :
    {S : Type ℓ} {A : Type κ} (x : Result A) (s : S) (a : A) → (lift x s).0 ≡ ok a → x ≡ ok a
unfolding lift
lift_ok x s a h = h

pub gets_ok {ℓ κ} :
    {S : Type ℓ} {A : Type κ} (f : S → A) (s : S) (a : A) → (gets f s).0 ≡ ok a → f s ≡ a
unfolding gets
gets_ok f s a h = cc

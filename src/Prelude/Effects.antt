-- ===== src/Prelude/Effects.antt =====
-- Methods that may raise: a state passed along, and an exception as a value. The state comes back
-- after an exception too, since what was written before it stays written.
use Prim.Native.String.{String}
use mathlib.Core.Path.{◌≡◌, refl}
use mathlib.Core.Logic.{◌⊎◌, inl, inr}
use mathlib.Core.Bool.{Bool, true, false}
use mathlib.Core.Option.{Option, none, some}

-- The exceptions that the modelled code raises, with their messages.
pub data Error : Type 0 where
  value_error : String → Error
  runtime_error : String → Error
  not_implemented : String → Error

-- `str(exc)`
abbrev pub message : Error → String
message (value_error m) = m
message (runtime_error m) = m
message (not_implemented m) = m

pub data Result {ℓ} (A : Type ℓ) : Type ℓ where
  ok : A → Result A
  err : Error → Result A

abbrev pub Exec {ℓ κ} : Type ℓ → Type κ → Type (ℓ ⊔ κ)
Exec S A = S → Result A × S

module _ {ℓ κ} {S : Type ℓ} {A : Type κ} where
  unfoldable pub pure : A → Exec S A
  pure a s = (ok a, s)

  unfoldable pub raise : Error → Exec S A
  raise e s = (err e, s)

  unfoldable pub gets : (S → A) → Exec S A
  gets f s = (ok (f s), s)

  unfoldable pub lift : Result A → Exec S A
  lift r s = (r, s)

infixl 5 ◌>>=◌ ◌>>◌
unfoldable pub ◌>>=◌ {ℓ κ μ} :
    {S : Type ℓ} {A : Type κ} {B : Type μ} → Exec S A → (A → Exec S B) → Exec S B
◌>>=◌ m f s = let (r, s') = m s in elim r [ ok a ↦ f a s' | err e ↦ (err e, s') ]

abbrev pub ◌>>◌ {ℓ κ μ} : {S : Type ℓ} {A : Type κ} {B : Type μ} → Exec S A → Exec S B → Exec S B
m >> k = m >>= λ _. k

unfoldable pub raise_if {ℓ} : {S : Type ℓ} → Bool → Error → Exec S (Unit {0})
raise_if true e s = (err e, s)
raise_if false e s = (ok tt, s)

unfoldable pub modify {ℓ} : {S : Type ℓ} → (S → S) → Exec S (Unit {0})
modify f s = (ok tt, f s)

unfoldable pub or_raise {ℓ κ} : {S : Type ℓ} {A : Type κ} → Option A → Error → Exec S A
or_raise none e s = (err e, s)
or_raise (some a) e s = (ok a, s)

-- `try: m except ValueError as exc: handler`, on a call that has already been made.
unfoldable pub on_value_error {ℓ κ} :
    {S : Type ℓ} {A : Type κ} → Result A → (String → Exec S A) → Exec S A
on_value_error (ok a) handler s = (ok a, s)
on_value_error (err (value_error m)) handler s = handler m s
on_value_error (err (runtime_error m)) handler s = (err (runtime_error m), s)
on_value_error (err (not_implemented m)) handler s = (err (not_implemented m), s)

-- To unfold this is to unfold every operation above.
unfoldable pub effects : Unit {0}
unfolding pure raise gets lift ◌>>=◌ raise_if modify or_raise on_value_error
effects = tt

-- `m` relates the state before it to the state after it by `R`, whether it returns or raises.
pub record Keeps {ℓ κ μ} {S : Type ℓ} {A : Type κ} (R : S → S → Type μ) (m : Exec S A)
    : Type (ℓ ⊔ κ ⊔ μ) where
  pub at : (s : S) → R s (m s).1

-- `m` does so where it raises.
pub record FailKeeps {ℓ κ μ} {S : Type ℓ} {A : Type κ} (R : S → S → Type μ) (m : Exec S A)
    : Type (ℓ ⊔ κ ⊔ μ) where
  pub at : (s : S) (e : Error) → (m s).0 ≡ err e → R s (m s).1

pub Result-cases {ℓ} :
    {A : Type ℓ} (r : Result A) → ((a : A) × (r ≡ ok a)) ⊎ ((e : Error) × (r ≡ err e))
Result-cases (ok a) = inl (a, refl)
Result-cases (err e) = inr (e, refl)

-- ===== src/Autonomy/Aftermath/Attempts.antt =====
-- Calls with an `except ValueError` around them, as in src/suns_chan/autonomy.py.
use sunns_chan.Prelude.{
  String, ◌≡◌, refl, ap, Option, none, some, value_error, runtime_error, not_implemented, Result,
  ok, err, Exec, Keeps, ◌>>=◌,
}
use sunns_chan.Autonomy.Aftermath.{caught, attempt}

module _ {ℓ κ} {S : Type ℓ} {A : Type κ} where
  -- After a ValueError the code goes on with nothing.
  attempt_failed :
      (m : Exec S A) (s t : S) (e : String)
      → m s ≡ (err (value_error e), t)
      → attempt m s ≡ (ok none, t)
  unfolding attempt
  attempt_failed m s t e h = ap (λ p. caught p.0 p.1) h

  pub attempt_returned :
      (m : Exec S A) (s t : S) (a : A) → m s ≡ (ok a, t) → attempt m s ≡ (ok (some a), t)
  unfolding attempt
  attempt_returned m s t a h = ap (λ p. caught p.0 p.1) h

  caught_state : (x : Result A) (t : S) → (caught x t).1 ≡ t
  unfolding caught
  caught_state (ok a) t = refl
  caught_state (err (value_error m)) t = refl
  caught_state (err (runtime_error m)) t = refl
  caught_state (err (not_implemented m)) t = refl

module _ {ℓ κ μ} {S : Type ℓ} {A : Type κ} {R : S → S → Type μ} where
  pub Keeps-attempt : (m : Exec S A) → Keeps R m → Keeps R (attempt m)
  unfolding attempt
  Keeps-attempt m k = record { at = λ s. rw (caught_state (m s).0 (m s).1) (k.at s) }

module _ {ℓ κ ν} {S : Type ℓ} {A : Type κ} {B : Type ν} where
  -- After a call that returns the code goes on with what it returned.
  pub returned-then :
      (m : Exec S A) (f : A → Exec S B) (s t : S) (a : A) → m s ≡ (ok a, t) → (m >>= f) s ≡ f a t
  unfolding ◌>>=◌
  returned-then m f s t a h =
      ap (λ p. elim p.0 as (λ _. Result B × S) [ ok a ↦ f a p.1 | err e ↦ (err e, p.1) ]) h

  pub attempt_failed-then :
      (m : Exec S A) (f : Option A → Exec S B) (s t : S) (e : String)
      → m s ≡ (err (value_error e), t)
      → (attempt m >>= f) s ≡ f none t
  unfolding ◌>>=◌
  attempt_failed-then m f s t e h =
      ap (λ p. elim p.0 as (λ _. Result B × S) [ ok a ↦ f a p.1 | err e ↦ (err e, p.1) ])
        (attempt_failed m s t e h)

module _ {ℓ κ ν μ} {S : Type ℓ} {A : Type κ} {B : Type ν} {R : S → S → Type μ} where
  pub Keeps-option :
      (o : Option A) (m : Exec S B) (f : A → Exec S B)
      → Keeps R m
      → ((a : A) → Keeps R (f a))
      → Keeps R (elim o [ none ↦ m | some a ↦ f a ])
  Keeps-option none m f h k = h
  Keeps-option (some a) m f h k = k a

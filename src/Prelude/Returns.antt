-- ===== src/Prelude/Returns.antt =====
-- What an action returns, from any state, with a rule for each way to build it.
use mathlib.Core.Path.{◌≡◌, refl, subst, ap}
use mathlib.Core.Bool.{Bool, true, false}
use sunns_chan.Prelude.Tests.{if◌then◌else◌}
use sunns_chan.Prelude.Effects.{Result, ok, err, Exec, pure, ◌>>=◌}

-- Every result of `m` has `Q`.
pub record Returns {ℓ κ μ} {S : Type ℓ} {A : Type κ} (Q : A → Type μ) (m : Exec S A)
    : Type (ℓ ⊔ κ ⊔ μ) where
  pub at : (s : S) (a : A) → (m s).0 ≡ ok a → Q a

module _ {ℓ κ μ} {S : Type ℓ} {A : Type κ} {Q : A → Type μ} where
  pub Returns-pure : (a : A) → Q a → Returns {S = S} Q (pure a)
  unfolding pure
  Returns-pure a q = record { at = λ s b h. subst Q (ok-injective h) q }
    where
      ok-injective : {b : A} → ◌≡◌ {A = Result A} (ok a) (ok b) → a ≡ b
      ok-injective h = cc

  pub Returns-if :
      (b : Bool) (m n : Exec S A)
      → (b ≡ true → Returns Q m)
      → (b ≡ false → Returns Q n)
      → Returns Q (if b then m else n)
  Returns-if true m n h k = h refl
  Returns-if false m n h k = k refl

module _ {ℓ κ μ ν} {S : Type ℓ} {A : Type κ} {B : Type ν} {Q : B → Type μ} where
  returned :
      (x : Result A) (s : S) (f : A → Exec S B)
      → ((a : A) → Returns Q (f a))
      → (b : B) → (elim x as (λ _. Result B × S) [ ok a ↦ f a s | err e ↦ (err e, s) ]).0 ≡ ok b
      → Q b
  returned (ok a) s f k b h = (k a).at s b h
  returned (err e) s f k b h = cc

  pub Returns-bind :
      (m : Exec S A) (f : A → Exec S B) → ((a : A) → Returns Q (f a)) → Returns Q (m >>= f)
  unfolding ◌>>=◌
  Returns-bind m f k = record { at = λ s. returned (m s).0 (m s).1 f k }

  returned_after :
      {P : A → Type μ} (x : Result A) (s : S) (f : A → Exec S B)
      → ((a : A) → x ≡ ok a → P a)
      → ((a : A) → P a → Returns Q (f a))
      → (b : B) → (elim x as (λ _. Result B × S) [ ok a ↦ f a s | err e ↦ (err e, s) ]).0 ≡ ok b
      → Q b
  returned_after (ok a) s f p k b h = (k a (p a refl)).at s b h
  returned_after (err e) s f p k b h = cc

  -- What the second half may rely on is what the first one returns.
  pub Returns-then :
      {P : A → Type μ} (m : Exec S A) (f : A → Exec S B)
      → Returns P m
      → ((a : A) → P a → Returns Q (f a))
      → Returns Q (m >>= f)
  unfolding ◌>>=◌
  Returns-then m f p k = record { at = λ s. returned_after (m s).0 (m s).1 f (p.at s) k }

-- A first half that is known.
pub bind_ok {ℓ κ ν} :
    {S : Type ℓ} {A : Type κ} {B : Type ν} (m : Exec S A) (f : A → Exec S B) (s s' : S) (a : A)
    → m s ≡ (ok a, s')
    → (m >>= f) s ≡ f a s'
unfolding ◌>>=◌
bind_ok {S = S} {A = A} {B = B} m f s s' a h =
    ap
      (λ (y : Result A × S). elim y.0 as (λ _. Result B × S) [
        | ok x ↦ f x y.1
        | err e ↦ (err e, y.1)
      ])
      h

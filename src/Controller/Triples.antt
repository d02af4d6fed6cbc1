-- ===== src/Controller/Triples.antt =====
-- Conditions before and after an action of a run, with a rule for each way to build the action.
use sunns_chan.Prelude.{◌≡◌, refl, Result, ok, err, Exec, ◌>>=◌, Keeps}
use sunns_chan.Prelude.Rules.{keeps_rules, Onward, Onward-refl, Onward-trans}
use sunns_chan.Controller.Run.{attempt}

-- From a state with `P`, the state afterwards has `Q`, whether `m` returns or raises.
pub record Triple {ℓ κ} {S : Type ℓ} {A : Type κ} (P Q : S → Type 0) (m : Exec S A)
    : Type (ℓ ⊔ κ) where
  pub at : (s : S) → P s → Q (m s).1

module _ {ℓ κ μ} {S : Type ℓ} {A : Type κ} {B : Type μ} where
  triple_parts :
      {Q T : S → Type 0} (x : Result A) (s' : S) (f : A → Exec S B)
      → Q s'
      → ((a : A) → Triple Q T (f a))
      → ((s : S) → Q s → T s)
      → T (elim x as (λ _. Result B × S) [ ok a ↦ f a s' | err e ↦ (err e, s') ]).1
  triple_parts (ok a) s' f q k w = (k a).at s' q
  triple_parts (err e) s' f q k w = w s' q

  pub Triple-bind :
      {P Q T : S → Type 0} (m : Exec S A) (f : A → Exec S B)
      → Triple P Q m
      → ((a : A) → Triple Q T (f a))
      → ((s : S) → Q s → T s)
      → Triple P T (m >>= f)
  unfolding ◌>>=◌
  Triple-bind m f h k w = record { at = λ s p. triple_parts (m s).0 (m s).1 f (h.at s p) k w }

-- `m` never raises.
pub record Total {ℓ κ} {S : Type ℓ} {A : Type κ} (m : Exec S A) : Type (ℓ ⊔ κ) where
  pub at : (s : S) → (a : A) × ((m s).0 ≡ ok a)

module _ {ℓ κ μ} {S : Type ℓ} {A : Type κ} {B : Type μ} where
  total_parts :
      {Q T : S → Type 0} (x : Result A) (s' : S) (f : A → Exec S B)
      → (a : A) × (x ≡ ok a)
      → Q s'
      → ((a : A) → Triple Q T (f a))
      → T (elim x as (λ _. Result B × S) [ ok a ↦ f a s' | err e ↦ (err e, s') ]).1
  total_parts (ok a) s' f t q k = (k a).at s' q
  total_parts (err e) s' f t q k = cc

  -- After an action that never raises, only the second half has to end in `T`.
  pub Triple-bind_always :
      {P Q T : S → Type 0} (m : Exec S A) (f : A → Exec S B)
      → Total m
      → Triple P Q m
      → ((a : A) → Triple Q T (f a))
      → Triple P T (m >>= f)
  unfolding ◌>>=◌
  Triple-bind_always m f t h k = record {
    at = λ s p. total_parts (m s).0 (m s).1 f (t.at s) (h.at s p) k;
  }

module _ {ℓ} {S : Type ℓ} {P : S → Type 0} where
  pub Triple-of_Keeps {κ} : {A : Type κ} (m : Exec S A) → Keeps (Onward P) m → Triple P P m
  Triple-of_Keeps m h = record { at = λ s. (h.at s).at }

  pub Keeps-of_Triple {κ} : {A : Type κ} (m : Exec S A) → Triple P P m → Keeps (Onward P) m
  Keeps-of_Triple m h = record { at = λ s. record { at = h.at s } }

pub Triple-attempt :
    {S A : Type 0} {P Q : S → Type 0} (m : Exec S A) → Triple P Q m → Triple P Q (attempt m)
unfolding attempt
Triple-attempt m h = record { at = h.at }

pub Keeps-attempt :
    {S A : Type 0} {R : S → S → Type 0} (m : Exec S A) → Keeps R m → Keeps R (attempt m)
unfolding attempt
Keeps-attempt m h = record { at = h.at }

pub ruleset onward = (keeps_rules, Onward-refl, Onward-trans, Keeps-attempt)

pub attempt-Total : {S A : Type 0} (m : Exec S A) → Total (attempt m)
unfolding attempt
attempt-Total m = record { at = λ s. ((m s).0, refl) }

-- ===== src/Controller/Yields.antt =====
-- Conditions on the record of a run of src/suns_chan/sandbox_controller.py, before and after an action
-- that returns.
use sunns_chan.Prelude.{
  String, ◌≡◌, refl, Bool, true, false, Result, ok, err, Error, Exec, pure, gets, ◌>>=◌,
  if◌then◌else◌, lift, modify,
}
use sunns_chan.Proposal.{ExperimentProposal}
use sunns_chan.Controller.{
  ExperimentRecord, Setup, Attempt, on_provider, set_record, audit, read_clock, create_vm,
}
use sunns_chan.Controller.Run.{attempt}

-- From a record with `P`, where `m` returns, the record afterwards has `Q`.
pub record Yields {S A : Type 0} (P Q : ExperimentRecord → Type 0) (m : Exec (Attempt S) A)
    : Type 0 where
  pub at : (s : Attempt S) → P s.experiment → (a : A) → (m s).0 ≡ ok a → Q (m s).1.experiment

module _ {S A B : Type 0} {Q T : ExperimentRecord → Type 0} where
  yields_parts :
      (x : Result A) (s' : Attempt S) (f : A → Exec (Attempt S) B) (b : B)
      → ((a : A) → x ≡ ok a → Q s'.experiment)
      → ((a : A) → Yields Q T (f a))
      → (elim x as (λ _. Result B × Attempt S) [ ok a ↦ f a s' | err e ↦ (err e, s') ]).0 ≡ ok b
      → T
          (elim x as (λ _. Result B × Attempt S) [
            | ok a ↦ f a s'
            | err e ↦ (err e, s')
          ]).1.experiment
  yields_parts (ok a) s' f b q k h = (k a).at s' (q a refl) b h
  yields_parts (err e) s' f b q k h = cc

  pub Yields-bind :
      {P : ExperimentRecord → Type 0} (m : Exec (Attempt S) A) (f : A → Exec (Attempt S) B)
      → Yields P Q m
      → ((a : A) → Yields Q T (f a))
      → Yields P T (m >>= f)
  unfolding ◌>>=◌
  Yields-bind m f h k = record { at = λ s p b e. yields_parts (m s).0 (m s).1 f b (h.at s p) k e }

module _ {S A B : Type 0} {Q T : ExperimentRecord → Type 0} where
  attempted :
      (x : Result A) (s' : Attempt S) (f : Result A → Exec (Attempt S) B) (b : B)
      → ((a : A) → x ≡ ok a → Q s'.experiment)
      → ((a : A) → Yields Q T (f (ok a)))
      → ((e : Error) → Yields (λ _. Unit {0}) T (f (err e)))
      → (f x s').0 ≡ ok b
      → T (f x s').1.experiment
  attempted (ok a) s' f b q k h = (k a).at s' (q a refl) b
  attempted (err e) s' f b q k h = (h e).at s' tt b

module _ {S A B : Type 0} {P T : ExperimentRecord → Type 0} where
  -- A value that is read from the record is known to be there.
  pub Yields-gets :
      (g : ExperimentRecord → A) (f : A → Exec (Attempt S) B)
      → ((a : A) → Yields (λ r. P r × (g r ≡ a)) T (f a))
      → Yields P T (gets (λ s. g s.experiment) >>= f)
  unfolding ◌>>=◌ gets
  Yields-gets g f k = record { at = λ s p b e. (k (g s.experiment)).at s (p, refl) b e }

  -- After an exception nothing is known.
  pub Yields-attempt :
      {Q : ExperimentRecord → Type 0} (m : Exec (Attempt S) A) (f : Result A → Exec (Attempt S) B)
      → Yields P Q m
      → ((a : A) → Yields Q T (f (ok a)))
      → ((e : Error) → Yields (λ _. Unit {0}) T (f (err e)))
      → Yields P T (attempt m >>= f)
  unfolding ◌>>=◌ attempt
  Yields-attempt m f h k bad = record {
    at = λ s p b. attempted (m s).0 (m s).1 f b (h.at s p) k bad;
  }

  -- What cannot change the record leaves its condition after an exception too.
  pub Yields-attempted :
      (m : Exec S A) (f : Result A → Exec (Attempt S) B)
      → ((x : Result A) → Yields P T (f x))
      → Yields P T (attempt (on_provider m) >>= f)
  unfolding ◌>>=◌ attempt on_provider
  Yields-attempted m f k = record { at = λ s p b. (k (m s.provider).0).at _ p b }

module _ {S A : Type 0} {P Q : ExperimentRecord → Type 0} where
  pub Yields-if :
      (b : Bool) (m n : Exec (Attempt S) A)
      → (b ≡ true → Yields P Q m)
      → (b ≡ false → Yields P Q n)
      → Yields P Q (if b then m else n)
  Yields-if true m n h k = h refl
  Yields-if false m n h k = k refl

  pub Yields-of :
      {P' : ExperimentRecord → Type 0} (m : Exec (Attempt S) A)
      → ((r : ExperimentRecord) → P' r → P r)
      → Yields P Q m
      → Yields P' Q m
  Yields-of m w h = record { at = λ s p. h.at s (w s.experiment p) }

  pub Yields-pure : (a : A) → ((r : ExperimentRecord) → P r → Q r) → Yields {S = S} P Q (pure a)
  unfolding pure
  Yields-pure a w = record { at = λ s p b e. w s.experiment p }

pub Yields-set :
    {S : Type 0} {P Q : ExperimentRecord → Type 0} (f : ExperimentRecord → ExperimentRecord)
    → ((r : ExperimentRecord) → P r → Q (f r))
    → Yields {S = S} P Q (set_record f)
unfolding set_record
Yields-set f w = record { at = λ s p b e. w s.experiment p }

-- What leaves the record alone.
module _ {S : Type 0} {P : ExperimentRecord → Type 0} where
  pub Yields-provider : {A : Type 0} (m : Exec S A) → Yields P P (on_provider m)
  unfolding on_provider
  Yields-provider m = record { at = λ s p b e. p }

  pub Yields-audit : (x i d : String) → Yields {S = S} P P (audit x i d)
  unfolding audit
  Yields-audit x i d = record { at = λ s p b e. p }

  pub Yields-clock : (u : Setup S) → Yields P P (read_clock u)
  unfolding read_clock
  Yields-clock u = record { at = λ s p b e. p }

  pub Yields-read : {A : Type 0} (f : Attempt S → A) → Yields P P (gets f)
  unfolding gets
  Yields-read f = record { at = λ s p b e. p }

  Yields-lift : {A : Type 0} (x : Result A) → Yields {S = S} P P (lift x)
  unfolding lift
  Yields-lift x = record { at = λ s p b e. p }

  Yields-sandbox : (i : String) → Yields {S = S} P P (modify (λ a. record a { sandbox_id = i }))
  unfolding modify
  Yields-sandbox i = record { at = λ s p b e. p }

  pub Yields-create :
      (u : Setup S) (name : String) (p : ExperimentProposal) → Yields P P (create_vm u name p)
  unfolding create_vm
  Yields-create u name p =
      Yields-bind _ _ (Yields-lift _)
        (λ spec. Yields-bind _ _ (Yields-provider (u.provider.create spec)) (λ i. Yields-sandbox i))

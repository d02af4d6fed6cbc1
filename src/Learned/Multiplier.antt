-- ===== src/Learned/Multiplier.antt =====
-- The grounds on which `strategy_bonus_for` of src/suns_chan/learned.py gives its multiplier.
use sunns_chan.Prelude.{ℕ, ◌≤◌, String, Bool, true, false, ◌≡◌, ◌≢◌, All, ◌&&◌, List, ◌∷◌, str_eq}
use sunns_chan.Prelude.Table.{newest}
use sunns_chan.Learned.{LearnedObject, LearnedStore, established, contradicted, is_established}
use sunns_chan.Learned.Strategy.{about}

-- The first element of a list that passes a test.
pub data IsFirst {A : Type 0} (p : A → Bool) (x : A) : List A → Type 0 where
  here : {xs : List A} → p x ≡ true → IsFirst p x (x ∷ xs)
  after : {y : A} {xs : List A} → p y ≡ false → IsFirst p x xs → IsFirst p x (y ∷ xs)

abbrev pub is_strategy : LearnedObject → Bool
is_strategy r = str_eq r.kind "strategy" && true

-- The strategies that are read.
abbrev pub strategies : LearnedStore → List (ℕ × LearnedObject)
strategies t = newest is_strategy 200 t

-- The newest strategy of the store for a subject.
abbrev pub IsNewest : LearnedStore → String → ℕ × LearnedObject → Type 0
IsNewest t subject o = IsFirst (λ x. is_strategy x.1 && about subject x) o t

abbrev pub IsTrusted : LearnedObject → Type 0
IsTrusted r = (r.status ≡ established) × (6000 ≤ r.confidence)

-- Why a multiplier, in tenths, is given to a category in a context.
pub data Grounds (t : LearnedStore) (own general : String) : ℕ → Type 0 where
  -- The newest strategy for the context is established, with enough confidence.
  trusted : (o : ℕ × LearnedObject) → IsNewest t own o → IsTrusted o.1 → Grounds t own general 12
  -- It is contradicted.
  refuted :
      (o : ℕ × LearnedObject)
      → IsNewest t own o
      → o.1.status ≡ contradicted
      → Grounds t own general 7
  -- It is neither.
  unsettled :
      (o : ℕ × LearnedObject)
      → IsNewest t own o
      → ¬ IsTrusted o.1
      → o.1.status ≢ contradicted
      → Grounds t own general 10
  -- None of the newest 200 strategies is for the context, and the newest established one for no
  -- context in particular is there.
  elsewhere :
      (o : ℕ × LearnedObject)
      → All (λ x. about own x ≡ false) (strategies t)
      → IsFirst (λ x. is_strategy x.1 && (about general x && is_established x.1.status)) o t
      → Grounds t own general 11
  -- Nor is such a one among them.
  unknown :
      All (λ x. about own x ≡ false) (strategies t)
      → All (λ x. about general x && is_established x.1.status ≡ false) (strategies t)
      → Grounds t own general 10

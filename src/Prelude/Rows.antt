-- ===== src/Prelude/Rows.antt =====
-- The reads and writes of the stores on an SQLite table, with rules on what a method that raises leaves.
use Prim.Native.Nat.{ℕ}
use Prim.Native.String.{String}
use mathlib.Core.Path.{◌≡◌, refl, ◌∙◌, ap}
use mathlib.Core.Bool.{true}
use mathlib.Core.Option.{none, some}
use mathlib.Core.List.{[], ◌∷◌}
use native.Mathlib.Omega.{arith}
use sunns_chan.Prelude.Tests.{◌==◌}
use sunns_chan.Prelude.Text.{fstring, str}
use sunns_chan.Prelude.Effects.{
  Error, value_error, Result, ok, err, Exec, ◌>>=◌, ◌>>◌, modify, Keeps, effects,
}
use sunns_chan.Prelude.Rules.{keeps_rules, Onward}
use sunns_chan.Prelude.Table.{
  Table, append, next_id, fetch, update, fetch-update, Rows, update-Rows,
}

module _ {R : Type 0} where
  -- SELECT ... WHERE id = ?, where a missing row is a ValueError with the given label.
  unfoldable pub get_row : String → ℕ → Exec (Table R) (ℕ × R)
  get_row label k t = elim (fetch k t) [
    | none ↦ (err (value_error (fstring (label ∷ str k ∷ []))), t)
    | some r ↦ (ok (k, r), t)
  ]

  -- INSERT, and the new row's id.
  unfoldable pub insert_row : R → Exec (Table R) ℕ
  insert_row r t = (ok (next_id t), append r t)

  -- INSERT, and the new row read back.
  unfoldable pub add_row : String → R → Exec (Table R) (ℕ × R)
  unfolding get_row insert_row
  add_row label r = do k ← insert_row r; get_row label k

  -- UPDATE ... WHERE id = ?, and the row read back.
  unfoldable pub change_row : String → ℕ → (R → R) → Exec (Table R) (ℕ × R)
  unfolding get_row
  change_row label k f = do modify (update k f); get_row label k

  fetch-update_found :
      (k : ℕ) (f : R → R) (t : Table R) (r : R)
      → fetch k t ≡ some r
      → fetch k (update k f t) ≡ some (f r)
  fetch-update_found k f t r h =
      let e : (k == k) ≡ true = ground arith in rw (fetch-update k k f t, e, h)

  pub change_row_found :
      (label : String) (k : ℕ) (f : R → R) (t : Table R) (r : R)
      → fetch k t ≡ some r
      → change_row label k f t ≡ (ok (k, f r), update k f t)
  unfolding change_row effects
  change_row_found label k f t r h = ground (arith, fetch-update_found k f t r h)

  pub add_row_lem :
      (label : String) (r : R) (t : Table R) → add_row label r t ≡ (ok (next_id t, r), append r t)
  unfolding add_row effects
  add_row_lem label r t = ground arith

  pub add_row_state : (label : String) (r : R) (t : Table R) → (add_row label r t).1 ≡ append r t
  add_row_state label r t = ap (λ (x : Result (ℕ × R) × Table R). x.1) (add_row_lem label r t)

  pub get_row_ok :
      (label : String) (k : ℕ) (t : Table R) (a : ℕ × R)
      → (get_row label k t).0 ≡ ok a
      → fetch k t ≡ some a.1
  unfolding get_row
  get_row_ok label k t a h = ground arith

-- The state is the same.
abbrev pub Same {ℓ} : {S : Type ℓ} → S → S → Type ℓ
Same s t = t ≡ s

pub Same-refl {ℓ} : {S : Type ℓ} (s : S) → Same s s
Same-refl s = refl

pub Same-trans {ℓ} : {S : Type ℓ} (s t u : S) → Same s t → Same t u → Same s u
Same-trans s t u p q = q ∙ p

pub get_row-Same : {R : Type 0} (label : String) (k : ℕ) → Keeps Same (get_row {R = R} label k)
unfolding get_row
get_row-Same label k = record { at = λ t. ground arith }

-- What a change of a row leaves, whether the row is there or not.
pub change_row_state :
    {R : Type 0} (label : String) (k : ℕ) (f : R → R) (t : Table R)
    → (change_row label k f t).1 ≡ update k f t
unfolding change_row effects
change_row_state label k f t = (get_row-Same label k).at (update k f t)

-- What it returns is read from there.
pub change_row_result :
    {R : Type 0} (label : String) (k : ℕ) (f : R → R) (t : Table R)
    → (change_row label k f t).0 ≡ (get_row label k (update k f t)).0
unfolding change_row effects
change_row_result label k f t = refl

pub get_row_found :
    {R : Type 0} (label : String) (k : ℕ) (t : Table R) (r : R)
    → fetch k t ≡ some r
    → (get_row label k t).0 ≡ ok (k, r)
unfolding get_row
get_row_found label k t r h = ground arith

-- From the state `s`, an `m` that raises leaves `s` as it was.
pub record FailAt {ℓ κ} {S : Type ℓ} {A : Type κ} (m : Exec S A) (s : S) : Type (ℓ ⊔ κ) where
  pub same : (e : Error) → (m s).0 ≡ err e → (m s).1 ≡ s

pub FailAt-Keeps {ℓ κ} :
    {S : Type ℓ} {A : Type κ} (m : Exec S A) (s : S) → Keeps Same m → FailAt m s
FailAt-Keeps m s k = record { same = λ e h. k.at s }

module _ {ℓ κ ν} {S : Type ℓ} {A : Type κ} {B : Type ν} where
  fails :
      (x : Result A) (s s' : S) (f : A → Exec S B) (e : Error)
      → s' ≡ s
      → ((a : A) → x ≡ ok a → FailAt (f a) s)
      → (elim x as (λ _. Result B × S) [ ok a ↦ f a s' | err e ↦ (err e, s') ]).0 ≡ err e
      → (elim x as (λ _. Result B × S) [ ok a ↦ f a s' | err e ↦ (err e, s') ]).1 ≡ s
  fails (ok a) s s' f e same k h = rw same ((k a refl).same e (rw same at h))
  fails (err c) s s' f e same k h = same

  -- A read, and then something that leaves the state alone where it raises.
  pub FailAt-bind :
      (m : Exec S A) (f : A → Exec S B) (s : S)
      → Keeps Same m
      → ((a : A) → (m s).0 ≡ ok a → FailAt (f a) s)
      → FailAt (m >>= f) s
  unfolding ◌>>=◌
  FailAt-bind m f s read k = record { same = λ e. fails (m s).0 s (m s).1 f e (read.at s) k }

module _ {ℓ κ ν μ} {S : Type ℓ} {A : Type κ} {B : Type ν} (Q : B → S → Type μ) where
  read_parts :
      (x : Result A) (s s' : S) (f : A → Exec S B)
      → s' ≡ s
      → ((a : A) → x ≡ ok a → (b : B) → (f a s).0 ≡ ok b → Q b (f a s).1)
      → (b : B) → (elim x as (λ _. Result B × S) [ ok a ↦ f a s' | err e ↦ (err e, s') ]).0 ≡ ok b
      → Q b (elim x as (λ _. Result B × S) [ ok a ↦ f a s' | err e ↦ (err e, s') ]).1
  read_parts (ok a) s s' f same k b h = rw same (k a refl b (rw same at h))
  read_parts (err e) s s' f same k b h = cc

  -- After a read, a success is one of the rest, from the same state.
  pub Ensures-read :
      (m : Exec S A) (f : A → Exec S B) (s : S)
      → Keeps Same m
      → ((a : A) → (m s).0 ≡ ok a → (b : B) → (f a s).0 ≡ ok b → Q b (f a s).1)
      → (b : B) → ((m >>= f) s).0 ≡ ok b
      → Q b ((m >>= f) s).1
  unfolding ◌>>=◌
  Ensures-read m f s read k = read_parts (m s).0 s (m s).1 f (read.at s) k

module _ {R : Type 0} where
  -- What a change of a row that was found returns and leaves.
  pub change_row_ok :
      (label : String) (k : ℕ) (f : R → R) (t : Table R) (a b : ℕ × R)
      → (get_row label k t).0 ≡ ok a
      → (change_row label k f t).0 ≡ ok b
      → (b ≡ (k, f a.1)) × ((change_row label k f t).1 ≡ update k f t)
  change_row_ok label k f t a b h g =
      let e = change_row_found label k f t a.1 (get_row_ok label k t a h) in
      (cc (e, g), ap (λ (x : Result (ℕ × R) × Table R). x.1) e)

  pub FailAt-change_row :
      (label : String) (k : ℕ) (f : R → R) (t : Table R) (a : ℕ × R)
      → (get_row label k t).0 ≡ ok a
      → FailAt (change_row label k f) t
  FailAt-change_row label k f t a h = record {
    same =
        λ e bad. absurd (never (change_row_found label k f t a.1 (get_row_ok label k t a h)) bad);
  }
    where
      never :
          {x : Result (ℕ × R) × Table R} {y : ℕ × R} {u : Table R} {e : Error}
          → x ≡ (ok y, u)
          → x.0 ≡ err e
          → ⊥
      never p q = cc

  pub FailAt-add_row : (label : String) (r : R) (t : Table R) → FailAt (add_row label r) t
  FailAt-add_row label r t = record { same = λ e bad. cc (add_row_lem label r t, bad) }

pub ruleset reads = (keeps_rules, Same-refl, Same-trans, get_row-Same)

-- A property of every row is kept by a read, by a new row that has it, and by a change that keeps it.
module _ {R : Type 0} (P : R → Type 0) where
  pub get_row-Rows : (label : String) (k : ℕ) → Keeps (Onward (Rows P)) (get_row label k)
  get_row-Rows label k = record {
    at = λ t. record { at = λ h. rw ((get_row-Same label k).at t) h };
  }

  pub add_row-Rows : (label : String) (r : R) → P r → Keeps (Onward (Rows P)) (add_row label r)
  add_row-Rows label r p = record {
    at = λ t. record { at = λ h. rw (add_row_state label r t) (p, h) };
  }

  pub change_row-Rows :
      (label : String) (k : ℕ) (f : R → R)
      → ((r : R) → P r → P (f r))
      → Keeps (Onward (Rows P)) (change_row label k f)
  change_row-Rows label k f keep = record {
    at = λ t. record { at = λ h. rw (change_row_state label k f t) (update-Rows P k f t h keep) };
  }

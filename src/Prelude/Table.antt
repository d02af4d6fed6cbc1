-- ===== src/Prelude/Table.antt =====
-- An SQLite table with an INTEGER PRIMARY KEY, newest row first.
use Prim.Native.Nat.{ℕ, ◌+◌, ◌≤◌, ◌<◌}
use mathlib.Core.Path.{◌≡◌, refl, subst}
use mathlib.Core.Logic.{inl, inr}
use mathlib.Core.Bool.{Bool, true, false}
use mathlib.Core.Option.{Option, none, some, some-injective}
use mathlib.Core.List.{List, [], ◌∷◌}
use native.Mathlib.Omega.{arith}
use sunns_chan.Prelude.Tests.{if◌then◌else◌, ◌==◌, Bool-cases}
use sunns_chan.Prelude.Lists.{length, take, select}

abbrev pub Table : Type 0 → Type 0
Table R = List (ℕ × R)

module _ {R : Type 0} where
  -- The id that an INSERT is given: one above the largest, which is the newest row's.
  abbrev pub next_id : Table R → ℕ
  next_id [] = 1
  next_id ((i, _) ∷ t) = i + 1

  -- SELECT * FROM t WHERE id = ?
  abbrev pub fetch : ℕ → Table R → Option R
  fetch k [] = none
  fetch k ((i, r) ∷ t) = if i == k then some r else fetch k t

  -- INSERT
  abbrev pub append : R → Table R → Table R
  append r t = (next_id t, r) ∷ t

  -- UPDATE t SET ... WHERE id = ?
  abbrev pub update : ℕ → (R → R) → Table R → Table R
  update k f [] = []
  update k f ((i, r) ∷ t) = if i == k then (i, f r) ∷ update k f t else (i, r) ∷ update k f t

  -- SELECT * FROM t WHERE p ORDER BY id DESC LIMIT n
  abbrev pub newest : (R → Bool) → ℕ → Table R → Table R
  newest p n t = take n (select (λ row. p row.1) t)

  -- Every id lies below `n`, and ids fall from each row to the next.
  abbrev pub IsBelow : ℕ → Table R → Type 0
  IsBelow n [] = Unit
  IsBelow n ((i, _) ∷ t) = (i < n) × IsBelow i t

  abbrev pub IsOrdered : Table R → Type 0
  IsOrdered t = IsBelow (next_id t) t

  -- The relation that only appends have been made.
  pub data Extends (t : Table R) : Table R → Type 0 where
    same : Extends t t
    more : {u : Table R} (r : R) → Extends t u → Extends t (append r u)

  pub Extends-trans : {t u v : Table R} → Extends t u → Extends u v → Extends t v
  Extends-trans p same = p
  Extends-trans p (more r q) = more r (Extends-trans p q)

  pub fetch-IsBelow : (n k : ℕ) (t : Table R) → IsBelow n t → n ≤ k → fetch k t ≡ none
  fetch-IsBelow n k [] h le = refl
  fetch-IsBelow n k ((i, r) ∷ t) h le = ground (arith, fetch-IsBelow i k t h.1)

  -- A new row's id is in use by no other row.
  pub fetch-next_id : (t : Table R) → IsOrdered t → fetch (next_id t) t ≡ none
  fetch-next_id t h = fetch-IsBelow (next_id t) (next_id t) t h (omega arith)

  pub append-IsOrdered : (r : R) (t : Table R) → IsOrdered t → IsOrdered (append r t)
  append-IsOrdered r t h = (omega arith, h)

  pub update-IsBelow : (n k : ℕ) (f : R → R) (t : Table R) → IsBelow n t → IsBelow n (update k f t)
  update-IsBelow n k f [] h = tt
  update-IsBelow n k f ((i, r) ∷ t) h = ground (arith, update-IsBelow i k f t h.1)

  pub next_id-update : (k : ℕ) (f : R → R) (t : Table R) → next_id (update k f t) ≡ next_id t
  next_id-update k f [] = refl
  next_id-update k f ((i, r) ∷ t) = ground arith

  pub length-update : (k : ℕ) (f : R → R) (t : Table R) → length (update k f t) ≡ length t
  length-update k f [] = refl
  length-update k f ((i, r) ∷ t) = ground (arith, length-update k f t)

  -- `Option.map`, written so that it computes at once.
  abbrev pub map_some : (R → R) → Option R → Option R
  map_some f none = none
  map_some f (some r) = some (f r)

  pub fetch-update :
      (k j : ℕ) (f : R → R) (t : Table R)
      → fetch j (update k f t) ≡ (if k == j then map_some f (fetch j t) else fetch j t)
  fetch-update k j f [] = ground arith
  fetch-update k j f ((i, r) ∷ t) = ground (arith, fetch-update k j f t)

  -- A row that is there stays there, unchanged, under appends.
  pub fetch-append :
      (k : ℕ) (r old : R) (t : Table R)
      → IsOrdered t
      → fetch k t ≡ some old
      → fetch k (append r t) ≡ some old
  fetch-append k r old t h e = ground (arith, fetch-next_id t h)

-- A property of every row.
abbrev pub Rows {κ} : {R : Type 0} → (R → Type κ) → Table R → Type κ
Rows P [] = Unit
Rows P ((_, r) ∷ t) = P r × Rows P t

module _ {κ} {R : Type 0} (P : R → Type κ) where
  fetch-Rows_head :
      (b : Bool) (r x : R) (o : Option R)
      → (b ≡ true → P x)
      → (o ≡ some r → P r)
      → (if b then some x else o) ≡ some r
      → P r
  fetch-Rows_head true r x o here there e = subst P (some-injective x r e) (here refl)
  fetch-Rows_head false r x o here there e = there e

  -- A row that is found has the property.
  pub fetch-Rows : (k : ℕ) (t : Table R) (r : R) → Rows P t → fetch k t ≡ some r → P r
  fetch-Rows k [] r h e = cc
  fetch-Rows k ((i, x) ∷ t) r h e =
      fetch-Rows_head (i == k) r x (fetch k t) (λ _. h.0) (fetch-Rows k t r h.1) e

  pub update-Rows :
      (k : ℕ) (f : R → R) (t : Table R)
      → Rows P t
      → ((r : R) → P r → P (f r))
      → Rows P (update k f t)
  update-Rows k f [] h keep = tt
  update-Rows k f ((i, r) ∷ t) h keep = elim (Bool-cases (i == k)) [
    | inl here ↦ rw here (keep r h.0, update-Rows k f t h.1 keep)
    | inr there ↦ rw there (h.0, update-Rows k f t h.1 keep)
  ]

-- ===== src/Knowledge/Sources.antt =====
-- The source events and the confidence of the records of src/suns_chan/knowledge.py, under `propose`
-- and `affirm`.
use sunns_chan.Prelude.{
  ℕ, ◌≤◌, String, ◌≡◌, refl, none, some, List, [], ◌∷◌, All, arith, ok, inl, inr, Result-cases,
  Bool-cases, Option-cases, ltb, ◌==◌,
}
use sunns_chan.Prelude.Int.{ℤ}
use sunns_chan.Prelude.Table.{Rows, fetch, append, next_id, update-Rows, fetch-Rows}
use sunns_chan.Prelude.Rules.{lift_ok}
use sunns_chan.Prelude.Rows.{get_row_ok, change_row_ok, Ensures-read, add_row, add_row_lem, reads}
use sunns_chan.State.Bounds.{clamp_bounds}
use sunns_chan.Ledger.{Ledger, Event}
use sunns_chan.Knowledge.{
  KnowledgeRecord, Knowledge, propose, affirm, get, require_sources, sorted_ids, insert_id,
}
use sunns_chan.Knowledge.Standing.{active}
use sunns_chan.Knowledge.Store.{propose-FailAt, affirm-FailAt}

-- The source events of a record are in the ledger, and its confidence is from 0 to 1.
pub record IsSourced (l : Ledger) (r : KnowledgeRecord) : Type 0 where
  pub sources : All (λ i. (e : Event) × (fetch i l.events ≡ some e)) r.source_ids
  pub confidence : r.confidence ≤ 10000

require_sources_ok :
    (l : Ledger) (ids : List ℕ) (a : Unit {0})
    → require_sources l ids ≡ ok a
    → All (λ i. (e : Event) × (fetch i l.events ≡ some e)) ids
unfolding require_sources
require_sources_ok l [] a h = tt
require_sources_ok l (i ∷ ids) a h = elim (Option-cases (fetch i l.events)) [
  | inl missing ↦ ground arith
  | inr (e, found) ↦ ((e, found), require_sources_ok l ids a (rw (found, require_sources) at h))
]

abbrev IsKnown : Ledger → ℕ → Type 0
IsKnown l i = (e : Event) × (fetch i l.events ≡ some e)

insert_id-All :
    (l : Ledger) (i : ℕ) (ids : List ℕ)
    → IsKnown l i
    → All (IsKnown l) ids
    → All (IsKnown l) (insert_id i ids)
unfolding insert_id
insert_id-All l i [] hi h = (hi, tt)
insert_id-All l i (j ∷ js) hi h = elim (Bool-cases (i == j)) [
  | inl same ↦ rw same h
  | inr other ↦ elim (Bool-cases (ltb i j)) [
    | inl before ↦ rw (other, before) (hi, h)
    | inr after ↦ rw (other, after) (h.0, insert_id-All l i js hi h.1)
  ]
]

sorted_ids-All :
    (l : Ledger) (ids : List ℕ) → All (IsKnown l) ids → All (IsKnown l) (sorted_ids ids)
unfolding sorted_ids
sorted_ids-All l [] h = tt
sorted_ids-All l (i ∷ ids) h = insert_id-All l i (sorted_ids ids) h.0 (sorted_ids-All l ids h.1)

-- What a successful proposal leaves.
pub record Proposed (l : Ledger) (t : Knowledge) (b : ℕ × KnowledgeRecord) (u : Knowledge)
    : Type 0 where
  pub returned : b.0 ≡ next_id t
  pub stored : u ≡ append b.1 t
  pub sourced : IsSourced l b.1
  pub standing : b.1.status ≡ active
  pub unlinked : b.1.supersedes_id ≡ none

added-Proposed :
    (l : Ledger) (label : String) (r : KnowledgeRecord) (t : Knowledge) (b : ℕ × KnowledgeRecord)
    → IsSourced l r
    → r.status ≡ active
    → r.supersedes_id ≡ none
    → (add_row label r t).0 ≡ ok b
    → Proposed l t b (add_row label r t).1
added-Proposed l label r t b h st un done =
    let e = add_row_lem label r t in
    let same : b ≡ (next_id t, r) = cc (e, done) in
    rw (e, same)
      (record { returned = refl; stored = refl; sourced = h; standing = st; unlinked = un })

-- A proposal that succeeds adds one active record, all of whose sources are events of the ledger,
-- with a confidence from 0 to 1.
pub propose_ok :
    (l : Ledger) (now : ℕ) (statement : String) (sources : List ℕ) (c : ℤ) (reason : String)
    (tags : List String) (t : Knowledge) (b : ℕ × KnowledgeRecord)
    → (propose l now statement sources c reason tags t).0 ≡ ok b
    → Proposed l t b (propose l now statement sources c reason tags t).1
unfolding propose
propose_ok l now statement sources c reason tags t =
    Ensures-read (Proposed l t) _ _ t (search reads) λ _ _.
      Ensures-read (Proposed l t) _ _ t (search reads) λ _ _.
        Ensures-read (Proposed l t) _ _ t (search reads) λ _ _.
          Ensures-read (Proposed l t) _ _ t (search reads) λ a known b done.
            added-Proposed l _ _ t b
              (record {
                sources = require_sources_ok l (sorted_ids sources) a (lift_ok _ t a known);
                confidence = clamp_bounds c;
              })
              refl refl done

-- Proposing a claim, or failing to, keeps every record linked to events of the ledger only, with a
-- confidence from 0 to 1.
pub propose-IsSourced :
    (l : Ledger) (now : ℕ) (statement : String) (sources : List ℕ) (c : ℤ) (reason : String)
    (tags : List String) (t : Knowledge)
    → Rows (IsSourced l) t
    → Rows (IsSourced l) (propose l now statement sources c reason tags t).1
propose-IsSourced l now statement sources c reason tags t h =
    elim (Result-cases (propose l now statement sources c reason tags t).0) [
      | inl (b, done) ↦
          let p : Proposed l t b _ = propose_ok l now statement sources c reason tags t b done in
          rw p.stored (p.sourced, h)
      | inr (e, failed) ↦
          rw ((propose-FailAt l now statement sources c reason tags t).same e failed) h
    ]

affirmed-IsSourced :
    (l : Ledger) (now id source : ℕ) (boost : ℤ) (t : Knowledge)
    → Rows (IsSourced l) t
    → (b : ℕ × KnowledgeRecord) → (affirm l now id source boost t).0 ≡ ok b
    → Rows (IsSourced l) (affirm l now id source boost t).1
unfolding affirm get
affirmed-IsSourced l now id source boost t h =
    Ensures-read (λ _ u. Rows (IsSourced l) u) _ _ t (search reads)
      λ row got.
        Ensures-read (λ _ u. Rows (IsSourced l) u) _ _ t (search reads)
          λ _ _.
            Ensures-read (λ _ u. Rows (IsSourced l) u) _ _ t (search reads)
              λ a known b done.
                let old : IsSourced l row.1 =
                  fetch-Rows (IsSourced l) id t row.1 h (get_row_ok _ id t row got) in
                let ids =
                  sorted_ids-All l (source ∷ row.1.source_ids)
                    ((require_sources_ok l (source ∷ []) a (lift_ok _ t a known)).0, old.sources) in
                rw ((change_row_ok _ id _ t row b got done).1) (
                  update-Rows (IsSourced l) id _ t h
                    (λ r _. record { sources = ids; confidence = clamp_bounds _ }))

-- Affirming a record, or failing to, keeps every record linked to events of the ledger only, with a
-- confidence from 0 to 1.
pub affirm-IsSourced :
    (l : Ledger) (now id source : ℕ) (boost : ℤ) (t : Knowledge)
    → Rows (IsSourced l) t
    → Rows (IsSourced l) (affirm l now id source boost t).1
affirm-IsSourced l now id source boost t h =
    elim (Result-cases (affirm l now id source boost t).0) [
      | inl (b, done) ↦ affirmed-IsSourced l now id source boost t h b done
      | inr (e, failed) ↦ rw ((affirm-FailAt l now id source boost t).same e failed) h
    ]

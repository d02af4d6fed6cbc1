-- ===== src/Curiosity/Scores.antt =====
-- The scores in the table of src/suns_chan/curiosity.py, under `open` and `transition`.
use sunns_chan.Prelude.{ℕ, ◌≤◌, String, ◌≡◌, refl, arith, ok, inl, inr, Result-cases, strip}
use sunns_chan.Prelude.Json.{Json}
use sunns_chan.Prelude.Table.{Rows, append, fetch-Rows, update-Rows}
use sunns_chan.Prelude.Rules.{lift_ok}
use sunns_chan.Prelude.Rows.{Ensures-read, add_row_state, reads}
use sunns_chan.Ledger.{Ledger}
use sunns_chan.Curiosity.{
  Curiosity, Curiosities, Status, new, clamp, new_curiosity, open_curiosity, confidence_after,
  transition,
}
use sunns_chan.Curiosity.Store.{Moved, transition_ok, transition-FailAt, open_curiosity-FailAt}

-- An importance and a novelty from 0 to 1, and a confidence from 0.4 to 0.95.
pub record IsRated (r : Curiosity) : Type 0 where
  pub importance : r.importance ≤ 10000
  pub novelty : r.novelty ≤ 10000
  pub confident : 4000 ≤ r.confidence
  pub unsure : r.confidence ≤ 9500

clamp-le : (v : Json) (n : ℕ) → clamp v ≡ ok n → n ≤ 10000
unfolding clamp
clamp-le v n h = ground arith

confidence_after_bounds :
    (s : Status) (c d : ℕ)
    → 4000 ≤ c
    → c ≤ 9500
    → confidence_after s c ≡ ok d
    → (4000 ≤ d) × (d ≤ 9500)
unfolding confidence_after clamp
confidence_after_bounds s c d lo hi h = ground arith

Moved-IsRated :
    (id now : ℕ) (t u : Curiosities) (b : ℕ × Curiosity)
    → Moved id now t b u
    → Rows IsRated t
    → Rows IsRated u
Moved-IsRated id now t u b m h =
    let old : IsRated m.old = fetch-Rows IsRated id t m.old h m.found in
    let score : (4000 ≤ m.score) × (m.score ≤ 9500) =
      confidence_after_bounds m.target m.old.confidence m.score old.confident old.unsure m.rated in
    rw m.stored (
      update-Rows IsRated id _ t h (λ r ok. record {
        importance = ok.importance;
        novelty = ok.novelty;
        confident = score.0;
        unsure = score.1;
      }))

-- Moving a curiosity, or failing to, keeps the scores of every row in range.
pub transition-IsRated :
    (l : Ledger) (now id : ℕ) (to_status : String) (evidence : ℕ) (t : Curiosities)
    → Rows IsRated t
    → Rows IsRated (transition l now id to_status evidence t).1
transition-IsRated l now id to_status evidence t h =
    elim (Result-cases (transition l now id to_status evidence t).0) [
      | inl (b, done) ↦
          Moved-IsRated id now t _ b (transition_ok l now id to_status evidence t b done) h
      | inr (e, failed) ↦ rw ((transition-FailAt l now id to_status evidence t).same e failed) h
    ]

-- What a successful opening leaves.
record Opened (question : String) (now : ℕ) (t : Curiosities) (b : ℕ × Curiosity) (u : Curiosities)
    : Type 0 where
  row : Curiosity
  stored : u ≡ append row t
  asked : row.question ≡ strip question
  fresh : row.status ≡ new
  rated : IsRated row

open_curiosity_ok :
    (l : Ledger) (now : ℕ) (question : String) (origin : ℕ) (topic : String)
    (importance novelty : Json) (t : Curiosities) (b : ℕ × Curiosity)
    → (open_curiosity l now question origin topic importance novelty t).0 ≡ ok b
    → Opened question now t b (open_curiosity l now question origin topic importance novelty t).1
unfolding open_curiosity
open_curiosity_ok l now question origin topic importance novelty t =
    Ensures-read (Opened question now t) _ _ t (search reads) λ _ _.
      Ensures-read (Opened question now t) _ _ t (search reads) λ _ _.
        Ensures-read (Opened question now t) _ _ t (search reads) λ i hi.
          Ensures-read (Opened question now t) _ _ t (search reads) λ n hn b done. record {
            row = new_curiosity now question origin topic i n;
            stored = add_row_state _ _ t;
            asked = refl;
            fresh = refl;
            rated = record {
              importance = clamp-le importance i (lift_ok _ t i hi);
              novelty = clamp-le novelty n (lift_ok _ t n hn);
              confident = omega arith;
              unsure = omega arith;
            };
          }

-- Opening a curiosity, or failing to, keeps the scores of every row in range.
pub open_curiosity-IsRated :
    (l : Ledger) (now : ℕ) (question : String) (origin : ℕ) (topic : String)
    (importance novelty : Json) (t : Curiosities)
    → Rows IsRated t
    → Rows IsRated (open_curiosity l now question origin topic importance novelty t).1
open_curiosity-IsRated l now question origin topic importance novelty t h =
    elim (Result-cases (open_curiosity l now question origin topic importance novelty t).0) [
      | inl (b, done) ↦
          let o : Opened question now t b _ =
            open_curiosity_ok l now question origin topic importance novelty t b done in
          rw o.stored (o.rated, h)
      | inr (e, failed) ↦
          rw
            ((open_curiosity-FailAt l now question origin topic importance novelty t).same e failed)
            h
    ]

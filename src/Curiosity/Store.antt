-- ===== src/Curiosity/Store.antt =====
-- `open` and `transition` of src/suns_chan/curiosity.py, on every path.
use sunns_chan.Prelude.{ℕ, String, ◌≡◌, true, some, Error, ok, err}
use sunns_chan.Prelude.Json.{Json}
use sunns_chan.Prelude.Table.{fetch, update}
use sunns_chan.Prelude.Rules.{raise_if-not_ok, lift_ok}
use sunns_chan.Prelude.Rows.{
  get_row_ok, FailAt, Ensures-read, change_row_ok, FailAt-bind, FailAt-change_row, FailAt-add_row,
  reads,
}
use sunns_chan.Ledger.{Ledger}
use sunns_chan.Curiosity.{
  Curiosity, Curiosities, Status, can_move, get, open_curiosity, confidence_after, transition,
}

-- An opening that raises has left the table as it was.
pub open_curiosity-FailAt :
    (l : Ledger) (now : ℕ) (question : String) (origin : ℕ) (topic : String) (i n : Json)
    (t : Curiosities)
    → FailAt (open_curiosity l now question origin topic i n) t
unfolding open_curiosity
open_curiosity-FailAt l now question origin topic i n t =
    search (FailAt-bind, FailAt-add_row, reads) depth 8

-- A move that raises has left the table as it was.
pub transition-FailAt :
    (l : Ledger) (now id : ℕ) (to_status : String) (evidence : ℕ) (t : Curiosities)
    → FailAt (transition l now id to_status evidence) t
unfolding transition get
transition-FailAt l now id to_status evidence t =
    search (FailAt-bind, FailAt-change_row, reads) depth 9

-- How a successful move goes from the table `t` to `u`, and what it returns.
pub record Moved (id now : ℕ) (t : Curiosities) (b : ℕ × Curiosity) (u : Curiosities) : Type 0 where
  pub old : Curiosity
  pub target : Status
  pub score : ℕ
  pub found : fetch id t ≡ some old
  pub allowed : can_move old.status target ≡ true
  pub rated : confidence_after target old.confidence ≡ ok score
  pub returned : b ≡ (id, record old { status = target; confidence = score; updated_at = now })
  pub stored :
      u ≡ update id (λ r. record r { status = target; confidence = score; updated_at = now }) t

-- A move that succeeds found its row, moved along an arrow of the lifecycle, and changed nothing
-- but the status, the confidence and the time of that row.
pub transition_ok :
    (l : Ledger) (now id : ℕ) (to_status : String) (evidence : ℕ) (t : Curiosities)
    (b : ℕ × Curiosity)
    → (transition l now id to_status evidence t).0 ≡ ok b
    → Moved id now t b (transition l now id to_status evidence t).1
unfolding transition get
transition_ok l now id to_status evidence t =
    Ensures-read (Moved id now t) _ _ t (search reads) λ target _.
      Ensures-read (Moved id now t) _ _ t (search reads) λ row got.
        Ensures-read (Moved id now t) _ _ t (search reads) λ _ allowed.
          Ensures-read (Moved id now t) _ _ t (search reads) λ _ _.
            Ensures-read (Moved id now t) _ _ t (search reads) λ score rated b done.
              let (returned, stored) = change_row_ok _ id _ t row b got done in
              record {
                old = row.1;
                target = target;
                score = score;
                found = get_row_ok _ id t row got;
                allowed = raise_if-not_ok _ _ t _ allowed;
                rated = lift_ok _ t _ rated;
                returned = returned;
                stored = stored;
              }

-- A move that raises, for whatever reason, has left the table as it was.
pub failed_transition :
    (l : Ledger) (now id : ℕ) (to_status : String) (evidence : ℕ) (t : Curiosities) (e : Error)
    → (transition l now id to_status evidence t).0 ≡ err e
    → (transition l now id to_status evidence t).1 ≡ t
failed_transition l now id to_status evidence t =
    (transition-FailAt l now id to_status evidence t).same

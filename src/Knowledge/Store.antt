-- ===== src/Knowledge/Store.antt =====
-- `propose`, `affirm` and the markings of src/suns_chan/knowledge.py, on every path.
use sunns_chan.Prelude.{ℕ, String, ◌≡◌, true, Bool, some, List, Error, ok, err}
use sunns_chan.Prelude.Int.{ℤ}
use sunns_chan.Prelude.Table.{fetch, update}
use sunns_chan.Prelude.Rules.{raise_if-not_ok}
use sunns_chan.Prelude.Rows.{
  get_row_ok, change_row_ok, Ensures-read, FailAt, FailAt-bind, FailAt-change_row, FailAt-add_row,
  reads,
}
use sunns_chan.Ledger.{Ledger}
use sunns_chan.Knowledge.{KnowledgeRecord, Knowledge, propose, affirm, mark, marked, get}
use sunns_chan.Knowledge.Standing.{Status}

-- A proposal that raises has left the table as it was.
pub propose-FailAt :
    (l : Ledger) (now : ℕ) (statement : String) (sources : List ℕ) (c : ℤ) (reason : String)
    (tags : List String) (t : Knowledge)
    → FailAt (propose l now statement sources c reason tags) t
unfolding propose
propose-FailAt l now statement sources c reason tags t =
    search (FailAt-bind, FailAt-add_row, reads) depth 9

-- An affirmation that raises has left the table as it was.
pub affirm-FailAt :
    (l : Ledger) (now id source : ℕ) (boost : ℤ) (t : Knowledge)
    → FailAt (affirm l now id source boost) t
unfolding affirm get
affirm-FailAt l now id source boost t = search (FailAt-bind, FailAt-change_row, reads) depth 8

-- A marking that raises has left the table as it was.
pub mark-FailAt :
    (may_leave : Status → Bool) (m n : String) (target : Status) (now id : ℕ) (reason : String)
    (t : Knowledge)
    → FailAt (mark may_leave m n target now id reason) t
unfolding mark get
mark-FailAt may_leave m n target now id reason t =
    search (FailAt-bind, FailAt-change_row, reads) depth 8

-- What a successful marking did: its record was found in a status that may be left, and only its
-- status, reason and time have changed.
pub record Marked (may_leave : Status → Bool) (target : Status) (now id : ℕ) (reason : String)
    (t : Knowledge) (b : ℕ × KnowledgeRecord) (u : Knowledge) : Type 0 where
  pub old : KnowledgeRecord
  pub found : fetch id t ≡ some old
  pub left : may_leave old.status ≡ true
  pub returned : b ≡ (id, marked target reason now old)
  pub stored : u ≡ update id (marked target reason now) t

-- A marking that succeeds found its record in a status that it may leave, and changed nothing of the
-- table but the status, the reason and the time of that record, which it returns.
pub mark_ok :
    (may_leave : Status → Bool) (m n : String) (target : Status) (now id : ℕ) (reason : String)
    (t : Knowledge) (b : ℕ × KnowledgeRecord)
    → (mark may_leave m n target now id reason t).0 ≡ ok b
    → Marked may_leave target now id reason t b (mark may_leave m n target now id reason t).1
unfolding mark get
mark_ok may_leave m n target now id reason t =
    Ensures-read (Marked may_leave target now id reason t) _ _ t (search reads) λ row got.
      Ensures-read (Marked may_leave target now id reason t) _ _ t (search reads) λ _ left.
        Ensures-read (Marked may_leave target now id reason t) _ _ t (search reads) λ _ _ b done.
          let (returned, stored) = change_row_ok _ id _ t row b got done in
          record {
            old = row.1;
            found = get_row_ok _ id t row got;
            left = raise_if-not_ok _ _ t _ left;
            returned = returned;
            stored = stored;
          }

-- An affirmation that raises, for whatever reason, has left the table as it was.
pub failed_affirm :
    (l : Ledger) (now id source : ℕ) (boost : ℤ) (t : Knowledge) (e : Error)
    → (affirm l now id source boost t).0 ≡ err e
    → (affirm l now id source boost t).1 ≡ t
failed_affirm l now id source boost t = (affirm-FailAt l now id source boost t).same

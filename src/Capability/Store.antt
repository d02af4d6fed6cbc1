-- ===== src/Capability/Store.antt =====
-- `discover`, `transition` and `set_invocation` of src/suns_chan/capability.py, on every path.
use sunns_chan.Prelude.{
  ℕ, String, ◌≡◌, ◌≢◌, ◌∙◌, ap, true, false, Option, none, some, arith, ok, inl, inr, Result-cases,
  ◌==◌,
}
use sunns_chan.Prelude.Table.{fetch, update, fetch-update}
use sunns_chan.Prelude.Rules.{raise_if-not_ok, or_raise_ok}
use sunns_chan.Prelude.Rows.{
  get_row_ok, change_row_ok, Ensures-read, FailAt, FailAt-bind, FailAt-change_row, FailAt-add_row,
  FailAt-Keeps, get_row-Same, reads,
}
use sunns_chan.Capability.{
  CapabilityRecord, Capabilities, Candidate, Status, can_move, parse_status, get, discover,
  reuse_or_add, moved, transition, set_invocation,
}

-- A move that raises has left the table as it was.
pub transition-FailAt :
    (now id : ℕ) (to_status reason : String) (t : Capabilities)
    → FailAt (transition now id to_status reason) t
unfolding transition get
transition-FailAt now id to_status reason t = search (FailAt-bind, FailAt-change_row, reads) depth 8

-- Setting an invocation that raises has left the table as it was.
pub set_invocation-FailAt :
    (now id : ℕ) (location invoke : String) (t : Capabilities)
    → FailAt (set_invocation now id location invoke) t
unfolding set_invocation get
set_invocation-FailAt now id location invoke t =
    search (FailAt-bind, FailAt-change_row, reads) depth 6

reuse_or_add-FailAt :
    (o : Option ℕ) (r : CapabilityRecord) (t : Capabilities) → FailAt (reuse_or_add o r) t
unfolding reuse_or_add get
reuse_or_add-FailAt none r t = FailAt-add_row _ r t
reuse_or_add-FailAt (some i) r t = FailAt-Keeps _ t (get_row-Same _ i)

-- A discovery that raises has left the table as it was.
pub discover-FailAt :
    (scrub : String → String) (now : ℕ) (c : Candidate) (t : Capabilities)
    → FailAt (discover scrub now c) t
unfolding discover
discover-FailAt scrub now c t = search (FailAt-bind, reuse_or_add-FailAt, reads) depth 7

-- How a successful move goes from the table `t` to `u`, and what it returns.
pub record Moved (now id : ℕ) (to_status reason : String) (t : Capabilities)
    (b : ℕ × CapabilityRecord) (u : Capabilities) : Type 0 where
  pub old : CapabilityRecord
  pub target : Status
  pub found : fetch id t ≡ some old
  pub wanted : parse_status to_status ≡ some target
  pub allowed : can_move old.status target ≡ true
  pub returned : b ≡ (id, moved target reason now old)
  pub stored : u ≡ update id (moved target reason now) t

-- A move that succeeds found its row, moved along an arrow of the lifecycle to the status that was
-- asked for, and changed nothing but the status, the note and the two times of that row.
pub transition_ok :
    (now id : ℕ) (to_status reason : String) (t : Capabilities) (b : ℕ × CapabilityRecord)
    → (transition now id to_status reason t).0 ≡ ok b
    → Moved now id to_status reason t b (transition now id to_status reason t).1
unfolding transition get
transition_ok now id to_status reason t =
    Ensures-read (Moved now id to_status reason t) _ _ t (search reads) λ target wanted.
      Ensures-read (Moved now id to_status reason t) _ _ t (search reads) λ row got.
        Ensures-read (Moved now id to_status reason t) _ _ t (search reads) λ _ allowed b done.
          let (returned, stored) = change_row_ok _ id _ t row b got done in
          record {
            old = row.1;
            target = target;
            found = get_row_ok _ id t row got;
            wanted = or_raise_ok _ _ t _ wanted;
            allowed = raise_if-not_ok _ _ t _ allowed;
            returned = returned;
            stored = stored;
          }

fetch-update_ne :
    (id j : ℕ) (f : CapabilityRecord → CapabilityRecord) (t : Capabilities)
    → j ≢ id
    → fetch j (update id f t) ≡ fetch j t
fetch-update_ne id j f t ne =
    let other : (id == j) ≡ false = ground arith in rw (fetch-update id j f t, other)

-- Moving one capability, or failing to, leaves every other row as it was.
pub transition_others :
    (now id j : ℕ) (to_status reason : String) (t : Capabilities)
    → j ≢ id
    → fetch j (transition now id to_status reason t).1 ≡ fetch j t
transition_others now id j to_status reason t ne =
    elim (Result-cases (transition now id to_status reason t).0) [
      | inl (b, done) ↦
          let m : Moved now id to_status reason t b _ =
            transition_ok now id to_status reason t b done in
          ap (fetch j) m.stored ∙ fetch-update_ne id j (moved m.target reason now) t ne
      | inr (e, failed) ↦ ap (fetch j) ((transition-FailAt now id to_status reason t).same e failed)
    ]

-- ===== src/Knowledge/Revision.antt =====
-- `supersede` and `contradict` of src/suns_chan/knowledge.py.
use sunns_chan.Prelude.{
  ℕ, String, ◌≡◌, ◌≢◌, refl, sym, ◌∙◌, ap, true, false, Option, none, some, List, arith, Result, ok,
  if◌then◌else◌, ◌==◌, effects,
}
use sunns_chan.Prelude.Int.{ℤ}
use sunns_chan.Prelude.Table.{
  fetch, update, append, next_id, fetch-update, fetch-next_id, IsOrdered, map_some,
}
use sunns_chan.Prelude.Rules.{raise_if-not_ok, Ensures-bind}
use sunns_chan.Prelude.Rows.{get_row_ok, change_row_found, Ensures-read, reads}
use sunns_chan.Ledger.{Ledger}
use sunns_chan.Knowledge.{KnowledgeRecord, Knowledge, replace, link, get, is_standing}
use sunns_chan.Knowledge.Standing.{Status}
use sunns_chan.Knowledge.Sources.{Proposed, propose_ok}

abbrev pub retired : Status → ℕ → KnowledgeRecord → KnowledgeRecord
retired target now r = record r { status = target; updated_at = now }

abbrev pub linked : ℕ → KnowledgeRecord → KnowledgeRecord
linked old_id r = record r { supersedes_id = some old_id }

-- Linking a record that is there returns, and has changed the two records only.
link_found :
    (now old_id new_id : ℕ) (target : Status) (t : Knowledge) (r : KnowledgeRecord)
    → fetch new_id (update old_id (retired target now) t) ≡ some r
    → link now old_id target new_id t ≡ (
      ok (new_id, linked old_id r),
      update new_id (linked old_id) (update old_id (retired target now) t),
    )
unfolding link effects
link_found now old_id new_id target t r h =
    change_row_found "unknown knowledge record: " new_id (linked old_id)
      (update old_id (retired target now) t) r h

fetch-top : (r : KnowledgeRecord) (t : Knowledge) → fetch (next_id t) (append r t) ≡ some r
fetch-top r t = ground arith

-- What a replacement did: the old record was standing, and is kept with its new status; the new one
-- is on top, and names it.
pub record Replaced (target : Status) (now old_id : ℕ) (t : Knowledge) (b : ℕ × KnowledgeRecord)
    (u : Knowledge) : Type 0 where
  pub old : KnowledgeRecord
  pub fresh : KnowledgeRecord
  pub found : fetch old_id t ≡ some old
  pub standing : is_standing old.status ≡ true
  pub kept : fetch old_id u ≡ some (retired target now old)
  pub returned : b ≡ (next_id t, linked old_id fresh)
  pub stored : fetch (next_id t) u ≡ some (linked old_id fresh)
  pub others : (j : ℕ) → j ≢ old_id → j ≢ next_id t → fetch j u ≡ fetch j t

fetch-linked :
    (now old_id j : ℕ) (target : Status) (t : Knowledge) (fresh : KnowledgeRecord)
    → old_id ≢ next_id t
    → let u =
        update (next_id t) (linked old_id) (update old_id (retired target now) (append fresh t)) in
      fetch j u ≡ (
        if next_id t == j
        then some (linked old_id fresh)
        else if old_id == j
        then map_some (retired target now) (fetch j t)
        else fetch j t)
fetch-linked now old_id j target t fresh ne =
    rw
      (
        fetch-update (next_id t) j (linked old_id)
            (update old_id (retired target now) (append fresh t)),
        fetch-update old_id j (retired target now) (append fresh t),
      )
      (ground arith)

linked_ok :
    (now old_id : ℕ) (target : Status) (t : Knowledge) (old fresh : KnowledgeRecord)
    → IsOrdered t
    → fetch old_id t ≡ some old
    → is_standing old.status ≡ true
    → (b : ℕ × KnowledgeRecord) → (link now old_id target (next_id t) (append fresh t)).0 ≡ ok b
    → Replaced target now old_id t b (link now old_id target (next_id t) (append fresh t)).1
linked_ok now old_id target t old fresh ordered found standing b done =
    let ne : old_id ≢ next_id t =
      λ e. not-some-none (sym found ∙ ap (λ k. fetch k t) e ∙ fetch-next_id t ordered) in
    let differ : (old_id == next_id t) ≡ false = ground arith in
    let differ' : (next_id t == old_id) ≡ false = ground arith in
    let on_top : fetch (next_id t) (update old_id (retired target now) (append fresh t))
        ≡ some fresh =
      rw (fetch-update old_id (next_id t) (retired target now) (append fresh t), differ)
        (fetch-top fresh t) in
    let run = link_found now old_id (next_id t) target (append fresh t) fresh on_top in
    rw (ap (λ (x : Result (ℕ × KnowledgeRecord) × Knowledge). x.1) run) (record {
      old = old;
      fresh = fresh;
      found = found;
      standing = standing;
      kept = fetch-linked now old_id old_id target t fresh ne ∙ rw (differ', found) (ground arith);
      returned = cc (run, done);
      stored = fetch-linked now old_id (next_id t) target t fresh ne ∙ ground arith;
      others = λ j ne_old ne_new.
          let off : (next_id t == j) ≡ false = ground arith in
          let off' : (old_id == j) ≡ false = ground arith in
          fetch-linked now old_id j target t fresh ne ∙ rw (off, off') refl;
    })
  where
    not-some-none : {o : KnowledgeRecord} → ◌≡◌ {A = Option KnowledgeRecord} (some o) none → ⊥
    not-some-none h = cc

-- In a table whose ids fall from each row to the next, superseding or contradicting a claim, where
-- it succeeds, keeps the old record under its id with all
-- but its status and time unchanged, puts the new record on top with a link to the old one, and
-- leaves every other record as it was.
pub replace_ok :
    (m n : String) (target : Status) (l : Ledger) (now old_id : ℕ) (statement : String)
    (sources : List ℕ) (c : ℤ) (reason : String) (tags : List String) (t : Knowledge)
    (b : ℕ × KnowledgeRecord)
    → IsOrdered t
    → (replace m n target l now old_id statement sources c reason tags t).0 ≡ ok b
    → Replaced target now old_id t b
        (replace m n target l now old_id statement sources c reason tags t).1
unfolding replace get
replace_ok m n target l now old_id statement sources c reason tags t b ordered =
    (Ensures-read Q _ _ t (search reads) λ row got.
        Ensures-read Q _ _ t (search reads) λ _ standing. Ensures-read Q _ _ t (search reads) λ _ _.
          Ensures-bind Q _ _ t λ fresh proposed b done.
            let p : Proposed l t fresh _ =
              propose_ok l now statement sources c reason tags t fresh proposed in
            let done' = rw (p.stored, p.returned) at done in
            rw (p.stored, p.returned)
              (linked_ok now old_id target t row.1 fresh.1 ordered (get_row_ok _ old_id t row got)
                (raise_if-not_ok _ _ t _ standing) b done'))
      b
  where
    Q : ℕ × KnowledgeRecord → Knowledge → Type 0
    Q b u = Replaced target now old_id t b u

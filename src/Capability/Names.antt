-- ===== src/Capability/Names.antt =====
-- Names and versions in the table of src/suns_chan/capability.py, under `discover` and `transition`.
use text.Mathlib.TextPositions.{eq_refl}
use sunns_chan.Prelude.{
  ℕ, String, ◌≡◌, refl, ◌∙◌, true, false, Option, none, some, [], ◌∷◌, inl, inr, Result-cases,
  Bool-cases, ◌==◌, effects, member, is_blank,
}
use sunns_chan.Prelude.Table.{update, append, next_id}
use sunns_chan.Prelude.Rules.{gets_ok, Keeps-gets}
use sunns_chan.Prelude.Rows.{Ensures-read, get_row, add_row_state, reads, get_row-Same, Same-refl}
use sunns_chan.Capability.{
  CapabilityRecord, Capabilities, Candidate, get, find_named, discover, reuse_or_add, moved,
  new_capability, transition, capability_kinds,
}
use sunns_chan.Capability.Store.{Moved, transition_ok, transition-FailAt, discover-FailAt}

-- No two rows have the same name and version.
abbrev pub IsUnique : Capabilities → Type 0
IsUnique [] = Unit
IsUnique ((i, r) ∷ t) = (find_named r.title r.version t ≡ none) × IsUnique t

-- An update that keeps the names does not change which name is found where.
find_named-update :
    (title version : String) (k : ℕ) (f : CapabilityRecord → CapabilityRecord) (t : Capabilities)
    → ((r : CapabilityRecord) → ((f r).title ≡ r.title) × ((f r).version ≡ r.version))
    → find_named title version (update k f t) ≡ find_named title version t
unfolding find_named
find_named-update title version k f [] same = refl
find_named-update title version k f ((i, r) ∷ t) same = elim (Bool-cases (i == k)) [
  | inl here ↦ rw (here, (same r).0, (same r).1, find_named-update title version k f t same)
  | inr there ↦ rw (there, find_named-update title version k f t same)
]

update-IsUnique :
    (k : ℕ) (f : CapabilityRecord → CapabilityRecord) (t : Capabilities)
    → ((r : CapabilityRecord) → ((f r).title ≡ r.title) × ((f r).version ≡ r.version))
    → IsUnique t
    → IsUnique (update k f t)
update-IsUnique k f [] same h = tt
update-IsUnique k f ((i, r) ∷ t) same h = elim (Bool-cases (i == k)) [
  | inl here ↦
      rw (here, (same r).0, (same r).1)
        (find_named-update r.title r.version k f t same ∙ h.0, update-IsUnique k f t same h.1)
  | inr there ↦
      rw there
        (find_named-update r.title r.version k f t same ∙ h.0, update-IsUnique k f t same h.1)
]

-- Moving a capability, or failing to, keeps the names and versions unique.
pub transition-IsUnique :
    (now id : ℕ) (to_status reason : String) (t : Capabilities)
    → IsUnique t
    → IsUnique (transition now id to_status reason t).1
transition-IsUnique now id to_status reason t h =
    elim (Result-cases (transition now id to_status reason t).0) [
      | inl (b, done) ↦
          let m : Moved now id to_status reason t b _ =
            transition_ok now id to_status reason t b done in
          rw m.stored (update-IsUnique id (moved m.target reason now) t (λ r. (refl, refl)) h)
      | inr (e, failed) ↦ rw ((transition-FailAt now id to_status reason t).same e failed) h
    ]

reuse_or_add-IsUnique :
    (r : CapabilityRecord) (t : Capabilities) (o : Option ℕ)
    → find_named r.title r.version t ≡ o
    → IsUnique t
    → IsUnique (reuse_or_add o r t).1
unfolding reuse_or_add get
reuse_or_add-IsUnique r t none e h = rw (add_row_state "unknown capability: " r t) (e, h)
reuse_or_add-IsUnique r t (some i) e h = rw ((get_row-Same "unknown capability: " i).at t) h

-- Discovering a candidate, or failing to, keeps the names and versions unique.
pub discover-IsUnique :
    (scrub : String → String) (now : ℕ) (c : Candidate) (t : Capabilities)
    → IsUnique t
    → IsUnique (discover scrub now c t).1
unfolding discover
discover-IsUnique scrub now c t h = elim (Result-cases (discover scrub now c t).0) [
  | inr (e, failed) ↦ rw ((discover-FailAt scrub now c t).same e failed) h
  | inl (b, done) ↦
      (Ensures-read (λ _ u. IsUnique u) _ _ t (search reads)
          λ _ _.
            Ensures-read (λ _ u. IsUnique u) _ _ t (search reads)
              λ _ _.
                Ensures-read (λ _ u. IsUnique u) _ _ t (Keeps-gets Same-refl _)
                  λ o found _ _.
                    reuse_or_add-IsUnique (new_capability scrub now c) t o (gets_ok _ t o found) h)
        b done
]

-- A candidate that is accepted is looked up, and added where it is missing.
accepted :
    (scrub : String → String) (now : ℕ) (c : Candidate) (t : Capabilities)
    → member c.kind capability_kinds ≡ true
    → is_blank c.title ≡ false
    → let r = new_capability scrub now c in
      discover scrub now c t ≡ reuse_or_add (find_named r.title r.version t) r t
unfolding discover effects
accepted scrub now c t kind titled = rw (kind, titled)

reuse_again :
    (r later : CapabilityRecord) (t : Capabilities) (o : Option ℕ)
    → later.title ≡ r.title
    → later.version ≡ r.version
    → find_named r.title r.version t ≡ o
    → let u = (reuse_or_add o r t).1 in
      (reuse_or_add (find_named later.title later.version u) later u).1 ≡ u
unfolding reuse_or_add get find_named
reuse_again r later t none et ev e =
    rw (add_row_state "unknown capability: " r t, et, ev, eq_refl r.title, eq_refl r.version)
      ((get_row-Same "unknown capability: " (next_id t)).at (append r t))
reuse_again r later t (some i) et ev e =
    let same : (get_row "unknown capability: " i t).1 ≡ t =
      (get_row-Same "unknown capability: " i).at t in
    rw (same, et, ev, e, same)

-- Discovering a candidate of a known kind, with a title that is not blank, a second time writes
-- nothing: its name and version are found.
pub discover_again :
    (scrub : String → String) (now later : ℕ) (c : Candidate) (t : Capabilities)
    → member c.kind capability_kinds ≡ true
    → is_blank c.title ≡ false
    → let u = (discover scrub now c t).1 in (discover scrub later c u).1 ≡ u
discover_again scrub now later c t kind titled =
    rw (accepted scrub now c t kind titled, accepted scrub later c _ kind titled)
      (reuse_again (new_capability scrub now c) (new_capability scrub later c) t _ refl refl refl)

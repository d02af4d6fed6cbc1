-- ===== src/Capability/Stamps.antt =====
-- The times of validation in the table of src/suns_chan/capability.py.
use sunns_chan.Prelude.{
  ℕ, String, Bool, true, false, ◌≡◌, refl, Option, none, some, if◌then◌else◌, Keeps,
}
use sunns_chan.Prelude.Table.{Rows}
use sunns_chan.Prelude.Rules.{
  Keeps-bind, Keeps-gets, Keeps-raise_if, Keeps-or_raise, Onward, Onward-refl, Onward-trans,
}
use sunns_chan.Prelude.Rows.{get_row-Rows, add_row-Rows, change_row-Rows}
use sunns_chan.Capability.{
  CapabilityRecord, Candidate, Status, validates, new_capability, moved, get, reuse_or_add,
  discover, transition, set_invocation,
}

-- A capability that is validated or available has a time at which it was validated.
pub record IsStamped (r : CapabilityRecord) : Type 0 where
  pub at : validates r.status ≡ true → (n : ℕ) × (r.last_validated ≡ some n)

stamp :
    (b : Bool) (now : ℕ) (before : Option ℕ)
    → b ≡ true
    → (n : ℕ) × ((if b then some now else before) ≡ some n)
stamp true now before h = (now, refl)
stamp false now before h = absurd (cc h)

moved-IsStamped :
    (target : Status) (reason : String) (now : ℕ) (r : CapabilityRecord)
    → IsStamped (moved target reason now r)
moved-IsStamped target reason now r = record { at = stamp (validates target) now r.last_validated }

new_capability-IsStamped :
    (scrub : String → String) (now : ℕ) (c : Candidate) → IsStamped (new_capability scrub now c)
new_capability-IsStamped scrub now c = record { at = λ h. absurd (cc h) }

reuse_or_add-Rows :
    (o : Option ℕ) (r : CapabilityRecord)
    → IsStamped r
    → Keeps (Onward (Rows IsStamped)) (reuse_or_add o r)
unfolding reuse_or_add get
reuse_or_add-Rows none r h = add_row-Rows IsStamped _ r h
reuse_or_add-Rows (some i) r h = get_row-Rows IsStamped _ i

-- Whatever is discovered, moved or given an invocation, and whether it succeeds or raises: if every
-- capability that was validated or available had a time of validation before, every one has one
-- afterwards, by whichever way it became so.
pub available-IsStamped :
    (now : ℕ)
    → ((scrub : String → String) (c : Candidate)
        → Keeps (Onward (Rows IsStamped)) (discover scrub now c))
      × ((id : ℕ) (to_status reason : String)
          → Keeps (Onward (Rows IsStamped)) (transition now id to_status reason))
      × ((id : ℕ) (location invoke : String)
          → Keeps (Onward (Rows IsStamped)) (set_invocation now id location invoke))
unfolding discover transition set_invocation get
available-IsStamped now = (
  (λ scrub c. Keeps-bind Onward-trans _ _ (Keeps-raise_if Onward-refl _ _) (λ _.
      Keeps-bind Onward-trans _ _ (Keeps-raise_if Onward-refl _ _) (λ _.
        Keeps-bind Onward-trans _ _ (Keeps-gets Onward-refl _)
          (λ o. reuse_or_add-Rows o _ (new_capability-IsStamped scrub now c))))),
  (λ id to_status reason. Keeps-bind Onward-trans _ _ (Keeps-or_raise Onward-refl _ _) (λ target.
      Keeps-bind Onward-trans _ _ (get_row-Rows IsStamped _ id) (λ row.
        Keeps-bind Onward-trans _ _ (Keeps-raise_if Onward-refl _ _) (λ _.
          change_row-Rows IsStamped _ id (moved target reason now)
            (λ r _. moved-IsStamped target reason now r))))),
  (λ id location invoke.
      Keeps-bind Onward-trans _ _ (get_row-Rows IsStamped _ id)
        (λ _. change_row-Rows IsStamped _ id _ (λ r h. record { at = h.at }))),
)

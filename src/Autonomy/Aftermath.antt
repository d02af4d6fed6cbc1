-- ===== src/Autonomy/Aftermath.antt =====
-- src/suns_chan/autonomy.py: what an activity leaves in the stores of curiosities and goals.
pub mod Attempts
pub mod Goals
pub mod Moves
pub mod Quiet
use sunns_chan.Prelude.{
  ℕ, ◌+◌, String, Bool, true, false, not, ◌&&◌, ◌||◌, Option, none, some, List, [], ◌∷◌, ◌++◌, any,
  if◌then◌else◌, leb, member, fstring, str, take_text, Error, value_error, runtime_error,
  not_implemented, Result, ok, err, Exec, pure, gets, lift, modify, ◌>>=◌, ◌>>◌,
}
use sunns_chan.Prelude.Int.{pos}
use sunns_chan.Prelude.Json.{float, text, num, end, field}
use sunns_chan.Ledger.{Ledger, MemoryEvent, record_event}
use sunns_chan.Core.{close_goal}
use sunns_chan.Curiosity.{Curiosities, name, get, transition}

-- What a call gives under `except ValueError`.
unfoldable pub caught {ℓ κ} : {S : Type ℓ} {A : Type κ} → Result A → S → Result (Option A) × S
caught (ok a) t = (ok (some a), t)
caught (err (value_error m)) t = (ok none, t)
caught (err (runtime_error m)) t = (err (runtime_error m), t)
caught (err (not_implemented m)) t = (err (not_implemented m), t)

-- `try: m` with an `except ValueError` around it, which gives nothing then.
unfoldable pub attempt {ℓ κ} : {S : Type ℓ} {A : Type κ} → Exec S A → Exec S (Option A)
unfolding caught
attempt m s = let (r, t) = m s in caught r t

-- `allowed`: may a curiosity of the status `current` move to `to_status` at once?
unfoldable pub is_direct : String → String → Bool
is_direct to_status current =
    if member to_status ("investigating" ∷ [])
    then member current ("new" ∷ "active" ∷ "reopened" ∷ [])
    else if member to_status ("answered" ∷ [])
    then member current ("active" ∷ "investigating" ∷ "reopened" ∷ [])
    else if member to_status ("active" ∷ [])
    then member current ("investigating" ∷ [])
    else false

-- Does the walk go by `active`?
abbrev pub is_stepwise : String → String → Bool
is_stepwise to_status current =
    member current ("new" ∷ "reopened" ∷ []) && member to_status ("investigating" ∷ "answered" ∷ [])

-- The last move of `_move_curiosity`
abbrev pub try_move : Ledger → ℕ → ℕ → String → ℕ → Exec Curiosities (Unit {0})
try_move l now id to_status evidence = attempt (transition l now id to_status evidence) >> pure tt

-- `_move_curiosity` of a curiosity that has been found with the status `current`
unfoldable pub move_from : Ledger → ℕ → ℕ → String → ℕ → String → Exec Curiosities (Unit {0})
move_from l now id to_status evidence current =
    if is_direct to_status current
    then try_move l now id to_status evidence
    else if is_stepwise to_status current
    then (do
      step ← attempt (transition l now id "active" evidence)
      elim step [ none ↦ pure tt | some _ ↦ try_move l now id to_status evidence ])
    else pure tt

-- `_move_curiosity`, for an engine that has a store of curiosities, at the time `now`
unfoldable pub move_curiosity : Ledger → ℕ → Option ℕ → String → ℕ → Exec Curiosities (Unit {0})
move_curiosity l now none to_status evidence = pure tt
move_curiosity l now (some id) to_status evidence = do
  row ← attempt (get id)
  elim row [ none ↦ pure tt | some r ↦ move_from l now id to_status evidence (name r.1.status) ]

abbrev pub blocked : ℕ → String
blocked experience_id =
    fstring ("Blocked after repeated attempts; see experience #" ∷ str experience_id ∷ "." ∷ [])

-- The goal that follows a blocked one, once that is closed.
unfoldable pub open_refined : ℕ → String → ℕ → Option MemoryEvent → Exec Ledger (Unit {0})
open_refined goal_id title experience_id none = pure tt
open_refined goal_id title experience_id (some closed) =
    record_event "goal_opened"
      (fstring ("Refined follow-up (was goal #" ∷ str goal_id ∷ "): " ∷ take_text 120 title ∷ []))
      (field "reason"
        (text
          (fstring ("strategy change after stuck pattern; evidence #" ∷ str experience_id ∷ [])))
        (field "priority" (float (pos 5000))
          (field "refines_goal_id" (num goal_id) (field "decision_id" (num experience_id) end))))
    >> pure tt

-- `_evolve_blocked_goal`, of the goal and the title of a candidate
unfoldable pub evolve_blocked_goal : Option ℕ → String → ℕ → Exec Ledger (Unit {0})
evolve_blocked_goal none title experience_id = pure tt
evolve_blocked_goal (some goal_id) title experience_id =
    attempt (close_goal goal_id (blocked experience_id))
    >>= open_refined goal_id title experience_id

-- ===== src/Autonomy.antt =====
-- src/suns_chan/autonomy.py: the lifecycle of a session and the loop of `run`. What a step of the loop
-- does with the other stores is any action on the engine's state.
pub mod Aftermath
pub mod Loop
pub mod Sessions
use sunns_chan.Prelude.{
  ℕ, ◌+◌, ◌*◌, String, Bool, true, false, not, ◌&&◌, ◌||◌, Option, none, some, List, [], ◌∷◌, ◌++◌,
  if◌then◌else◌, ltb, leb, str_eq, member, strip, fstring, Error, value_error, Result, ok, err,
  Exec, pure, raise_if, ◌>>=◌, ◌>>◌, zero, suc, take_last, length, ◌==◌,
}
use sunns_chan.Prelude.Int.{pos, ℤ}
use sunns_chan.Prelude.Json.{Json, bool, int, float, text, obj, Fields, end, field, get_field}
use sunns_chan.Session.{AutonomySession, SessionStore, open_or_create, save}
use sunns_chan.Ledger.{Ledger, MemoryEvent, record_event}
use sunns_chan.Experience.{ExperienceFields, record_experience, plain_experience}

-- What the engine keeps: the sessions, the ledger, and the state of everything else.
pub record Engine (S : Type 0) : Type 0 where
  pub sessions : SessionStore
  pub ledger : Ledger
  pub others : S

pub record StepReport : Type 0 where
  pub session_id : String
  pub activity_key : String
  pub category : String
  pub outcome : String
  pub status : String
  pub detail : String

pub record RunReport : Type 0 where
  pub session_id : String
  pub activities_completed : ℕ
  pub status : String
  pub steps : List StepReport

pub record RecoveryInfo : Type 0 where
  pub session_id : String
  pub recovered : Bool
  pub previous_status : String
  pub detail : String

-- `session.activity_counter == 0`
abbrev pub is_zero : Json → Bool
is_zero (int (pos n)) = leb n 0
is_zero (float (pos n)) = leb n 0
is_zero (bool b) = not b
is_zero _ = false

-- `session.current_activity or {}`: the engine writes nothing but objects there.
abbrev pub activity_of : Json → Fields
activity_of (obj fs) = fs
activity_of _ = end

-- `activity.get(key, default)`, where the engine writes texts.
abbrev pub text_at : Option Json → String → String
text_at (some (text s)) d = s
text_at _ d = d

abbrev pub session_fields : String → String → Fields
session_fields session_id state =
    field "session_id" (text session_id) (field "state" (text state) end)

abbrev pub recovery : String → Bool → String → String → RecoveryInfo
recovery session_id recovered previous detail = record {
  session_id = session_id;
  recovered = recovered;
  previous_status = previous;
  detail = detail;
}

-- The event of a session that starts.
unfoldable pub announce : String → Exec Ledger (Unit {0})
announce session_id = do
  record_event "session" (fstring ("Autonomy session " ∷ session_id ∷ " started." ∷ []))
      (session_fields session_id "started")
  pure tt

abbrev pub is_halted : String → Bool
is_halted status = member status ("paused" ∷ "aborted" ∷ "completed" ∷ "failed" ∷ [])

abbrev pub is_progress : StepReport → Bool
is_progress step = member step.outcome ("success" ∷ "failure" ∷ [])

-- What `resume_session` records of an interrupted activity.
abbrev pub interruption_event : String → AutonomySession → Exec Ledger MemoryEvent
interruption_event session_id session =
    record_event "session"
      (fstring (
        "Session "
        ∷ session_id
        ∷ " recovered from "
        ∷ session.status
        ∷ " during "
        ∷ text_at (get_field (activity_of session.current_activity) "key") "unknown activity"
        ∷ "; marked for replanning."
        ∷ []))
      (field "session_id" (text session_id)
        (field "state" (text "recovered") (field "previous" (text session.status) end)))

abbrev pub interrupted_experience : String → AutonomySession → ExperienceFields
interrupted_experience session_id session =
    record (plain_experience session_id
      (text_at (get_field (activity_of session.current_activity) "key") "unknown")
      (text_at (get_field (activity_of session.current_activity) "title") "interrupted activity")) {
        observations =
            fstring ("Interrupted while " ∷ session.status ∷ "; sandbox state unknown." ∷ []) ∷ [];
        lessons = "Verify sandbox/VM state before replanning." ∷ [];
      }

module _ {S : Type 0} where
  unfoldable pub on_sessions : {A : Type 0} → Exec SessionStore A → Exec (Engine S) A
  on_sessions m e = let (r, t) = m e.sessions in (r, record e { sessions = t })

  unfoldable pub on_ledger : {A : Type 0} → Exec Ledger A → Exec (Engine S) A
  on_ledger m e = let (r, l) = m e.ledger in (r, record e { ledger = l })

  -- `_set`, and the two assignments that it is elsewhere
  unfoldable pub set_status : ℕ → AutonomySession → String → Exec (Engine S) (Unit {0})
  set_status now session status = on_sessions (save now (record session { status = status }))

  -- `start_session`, at the time `now`
  unfoldable pub start_session : ℕ → String → Exec (Engine S) AutonomySession
  start_session now session_id = do
    session ← on_sessions (open_or_create now session_id)
    if str_eq session.status "idle" && is_zero session.activity_counter
        then on_ledger (announce session_id)
        else pure tt
    on_sessions (open_or_create now session_id)

  -- `pause`, and `stop`, whose body is the same but for the words
  unfoldable pub halt : String → String → ℕ → String → String → Exec (Engine S) AutonomySession
  halt status verb now session_id reason = do
    session ← on_sessions (open_or_create now session_id)
    set_status now session status
    on_ledger (
        record_event "session"
          (strip (fstring ("Session " ∷ session_id ∷ " " ∷ verb ∷ ". " ∷ reason ∷ [])))
          (session_fields session_id status))
    pure (record session { status = status })

  abbrev pub pause : ℕ → String → String → Exec (Engine S) AutonomySession
  pause = halt "paused" "paused"

  abbrev pub stop : ℕ → String → String → Exec (Engine S) AutonomySession
  stop = halt "aborted" "stopped"

  -- What `resume_session` does after a crash in the middle of an activity.
  unfoldable pub recover : ℕ → String → AutonomySession → Exec (Engine S) RecoveryInfo
  recover now session_id session = do
    on_ledger (interruption_event session_id session)
    on_ledger (record_experience (interrupted_experience session_id session))
    on_sessions (save now (record session { current_activity = obj end; status = "idle" }))
    pure (recovery session_id true session.status "interruption recorded; replan required")

  -- `resume_session`
  unfoldable pub resume_session : ℕ → String → Exec (Engine S) RecoveryInfo
  resume_session now session_id = do
    session ← on_sessions (open_or_create now session_id)
    if member session.status ("paused" ∷ "waiting" ∷ "idle" ∷ [])
        then (set_status now session "idle"
            >> pure (recovery session_id false session.status "no interrupted activity"))
        else if member session.status ("completed" ∷ "failed" ∷ "aborted" ∷ [])
        then pure (recovery session_id false session.status "session already terminal")
        else recover now session_id session

  -- The loop of `run`, with at most `fuel` rounds; the steps so far are the oldest first. Out of fuel
  -- there is no result.
  unfoldable pub loop :
      ℕ
      → ℕ
      → String
      → ℕ
      → (AutonomySession → Exec (Engine S) StepReport)
      → ℕ
      → ℕ
      → List StepReport
      → Exec (Engine S) (Option (ℕ × List StepReport))
  loop zero now session_id max_activities step completed idle_steps steps = pure none
  loop (suc fuel) now session_id max_activities step completed idle_steps steps =
      if leb max_activities completed then pure (some (completed, steps)) else (do
        session ← on_sessions (open_or_create now session_id)
        if is_halted session.status then pure (some (completed, steps)) else (do
          report ← step session
          if member report.status ("paused" ∷ "waiting" ∷ [])
              then pure (some (completed, steps ++ report ∷ []))
              else if is_progress report
              then loop fuel now session_id max_activities step (completed + 1) 0
                  (steps ++ report ∷ [])
              else if leb 3 (idle_steps + 1)
              then (do
                again ← on_sessions (open_or_create now session_id)
                set_status now again "waiting"
                pure (some (completed, steps ++ report ∷ [])))
              else loop fuel now session_id max_activities step completed (idle_steps + 1)
                  (steps ++ report ∷ [])))

  -- What follows the loop.
  unfoldable pub finish_run :
      ℕ → String → ℕ → Option (ℕ × List StepReport) → Exec (Engine S) (Option RunReport)
  finish_run now session_id max_activities none = pure none
  finish_run now session_id max_activities (some (completed, steps)) = do
    session ← on_sessions (open_or_create now session_id)
    if str_eq session.status "idle" && leb max_activities completed
        then (set_status now session "waiting"
            >> pure (
                some (record {
                  session_id = session_id;
                  activities_completed = completed;
                  status = "waiting";
                  steps = steps;
                })))
        else pure (
            some (record {
              session_id = session_id;
              activities_completed = completed;
              status = session.status;
              steps = steps;
            }))

  -- `run`, whose loop takes at most three rounds for every activity.
  unfoldable pub run :
      ℕ
      → String
      → (AutonomySession → Exec (Engine S) StepReport)
      → ℕ
      → Exec (Engine S) (Option RunReport)
  run now session_id step max_activities = do
    raise_if (ltb max_activities 1) (value_error "max_activities must be at least 1")
    start_session now session_id
    r ← loop (3 * max_activities + 1) now session_id max_activities step 0 0 []
    finish_run now session_id max_activities r

-- `len(set(recent)) == 1`
unfoldable pub all_same : List String → Bool
all_same [] = false
all_same (s ∷ []) = true
all_same (s ∷ t ∷ ss) = str_eq s t && all_same (t ∷ ss)

-- `_stuck_signatures`
unfoldable pub stuck_signatures : ℕ → List String → Bool
stuck_signatures stuck_threshold signatures =
    let recent = take_last stuck_threshold signatures in
    (length recent == stuck_threshold) && all_same recent

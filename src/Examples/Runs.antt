-- ===== src/Examples/Runs.antt =====
-- Sessions of the autonomy engine.
use sunns_chan.Prelude.{
  ℕ, arith, String, true, ◌≡◌, refl, some, [], ◌∷◌, ok, pure, Exec, fstring, is_blank, member,
  effects, lift, raise_if,
}
use sunns_chan.Prelude.Json.{obj, text, end, field, get_field, get_field_or}
use sunns_chan.Prelude.Dict.{find, put}
use sunns_chan.Prelude.Returns.{Returns}
use sunns_chan.Ledger.{Ledger, record_event, insert_event}
use sunns_chan.Ledger.History.{IsLater}
use sunns_chan.Session.{
  AutonomySession, SessionRow, new_session, state_of, to_session, open_or_create, reopen, save,
}
use sunns_chan.Experience.{record_experience, check_related, check_confidence}
use sunns_chan.Autonomy.{
  Engine, StepReport, RecoveryInfo, run, recovery, recover, resume_session, on_sessions, on_ledger,
}
use sunns_chan.Autonomy.Loop.{IsBounded, run-Returns}
use sunns_chan.Autonomy.Sessions.{halted_run, interrupted_resume, saved_idle}

-- A session with a status, in the middle of an activity.
abbrev row_with : String → SessionRow
row_with status = record {
  status = status;
  state_json = state_of (record (new_session "s") {
    current_activity = obj (field "key" (text "read:1") (field "title" (text "Read") end));
  });
  updated_at = 4;
}

abbrev engine_with : String → Engine ℕ
engine_with status = record {
  sessions = ("s", row_with status) ∷ [];
  ledger = record { clock = λ i. i; events = []; state_snapshots = [] };
  others = 0;
}

-- A step that never makes progress.
abbrev aimless : AutonomySession → Exec (Engine ℕ) StepReport
aimless session = pure (record {
  session_id = "s";
  activity_key = "";
  category = "";
  outcome = "unknown";
  status = "idle";
  detail = "";
})

run-Returns_example : Returns (IsBounded 3) (run 5 "s" aimless 3)
run-Returns_example = run-Returns 5 "s" aimless 3

halted_run_example : run 5 "s" aimless 3 (engine_with "paused") ≡ (
  ok (some (record { session_id = "s"; activities_completed = 0; status = "paused"; steps = [] })),
  engine_with "paused",
)
unfolding find is_blank member
halted_run_example =
    halted_run 5 "s" (row_with "paused") (engine_with "paused") refl refl 3 aimless refl
      (omega arith)

abbrev replanned : RecoveryInfo
replanned = recovery "s" true "executing" "interruption recorded; replan required"

interrupted_resume_example :
    (replanned ≡ replanned)
    × (l : Ledger) × ((resume_session 5 "s" (engine_with "executing")).1
        ≡ saved_idle 5 "s" (row_with "executing") (engine_with "executing") (obj end) l)
    × IsLater (engine_with "executing").ledger l
unfolding find is_blank member resume_session recover on_sessions on_ledger open_or_create reopen
    to_session save record_event insert_event record_experience check_related check_confidence
    effects get_field get_field_or put fstring raise_if lift
interrupted_resume_example =
    interrupted_resume 5 "s" (row_with "executing") (engine_with "executing") refl refl replanned
      refl refl refl

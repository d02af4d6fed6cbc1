-- ===== src/Controller/Report.antt =====
-- `run_experiment` of src/suns_chan/sandbox_controller.py as a whole, and `_record_outcome`.
use sunns_chan.Prelude.{
  ℕ, ◌+◌, String, Bool, true, false, not, ◌&&◌, Option, none, some, List, [], ◌∷◌, if◌then◌else◌,
  ltb, str_eq, length, map, strip, fstring, str, runtime_error, Result, ok, err, Exec, pure, ◌>>=◌,
  ◌>>◌,
}
use sunns_chan.Prelude.Json.{Fields, field, end, text, bool, arr, num, texts}
use sunns_chan.Prelude.Int.{pos, scale, ◌+ℤ◌}
use sunns_chan.Vm.{ArtifactRecord}
use sunns_chan.Ledger.{Ledger, record_event}
use sunns_chan.Proposal.{ExperimentProposal}
use sunns_chan.Controller.{ExperimentRecord, AuditLine, Setup, Attempt, last_text}
use sunns_chan.Controller.Run.{experiment}

-- `f"{n:04d}"`
abbrev pub four_digits : ℕ → String
four_digits n =
    if ltb n 10
    then fstring ("000" ∷ str n ∷ [])
    else if ltb n 100
    then fstring ("00" ∷ str n ∷ [])
    else if ltb n 1000
    then fstring ("0" ∷ str n ∷ [])
    else str n

abbrev pub summary_of : ExperimentProposal → ExperimentRecord → String
summary_of p r = strip (
    fstring (
      "Experiment "
      ∷ r.experiment_id
      ∷ " ["
      ∷ r.status
      ∷ "] in "
      ∷ r.backend
      ∷ " sandbox: "
      ∷ p.hypothesis
      ∷ " -> "
      ∷ r.outcome
      ∷ ". "
      ∷ str r.command_count
      ∷ " commands, "
      ∷ str (length r.artifacts)
      ∷ " artifacts. "
      ∷ r.failure_reason
      ∷ []))

abbrev pub experiment_fields : ExperimentRecord → Fields
experiment_fields r = field "experiment_id" (text r.experiment_id) (
    field "sandbox_id" (text r.sandbox_id) (
      field "status" (text r.status) (
        field "backend" (text r.backend) (
          field "network_mode" (text r.network_mode) (
            field "artifacts" (arr (texts (map (λ (a : ArtifactRecord). a.path) r.artifacts))) (
              field "artifact_hashes"
                (arr (texts (map (λ (a : ArtifactRecord). a.sha256) r.artifacts)))
                (field "rolled_back" (bool r.rolled_back)
                  (field "log_summary" (text (last_text 1000 r.log_summary)) end))))))))

-- The lesson of a failed experiment.
unfoldable pub record_lesson : ExperimentProposal → ExperimentRecord → ℕ → Exec Ledger (Unit {0})
record_lesson p r experiment_event_id = do
  record_event "learning"
      (fstring (
        "Lesson from " ∷ r.experiment_id ∷ ": " ∷ r.failure_reason ∷ " (hypothesis was: "
        ∷ p.hypothesis ∷ ")" ∷ []))
      (field "source_experiment_id" (text r.experiment_id)
        (field "source_outcome_id" (num experiment_event_id) end))
  pure tt

-- `_record_outcome`
unfoldable pub record_outcome_of : ExperimentProposal → ExperimentRecord → Exec Ledger (Unit {0})
record_outcome_of p r = do
  experiment_event ← record_event "experiment" (summary_of p r) (experiment_fields r)
  record_event "outcome" (summary_of p r) (
      field "outcome" (text r.outcome) (
        field "experiment_id" (text r.experiment_id)
          (field "cause_event_id" (num experiment_event.0) end)))
  if str_eq r.outcome "failure" then record_lesson p r experiment_event.0 else pure tt

-- The state of a controller, with the ledger that a run is given, if any.
pub record Lab (S : Type 0) : Type 0 where
  pub provider : S
  pub audits : List AuditLine
  pub readings : ℕ
  pub counter : ℕ
  pub ledger : Option Ledger

abbrev pub new_record : String → String → ExperimentProposal → ExperimentRecord
new_record experiment_id backend p = record {
  experiment_id = experiment_id;
  sandbox_id = "";
  goal = p.goal;
  hypothesis = p.hypothesis;
  status = "proposed";
  backend = backend;
  network_mode = p.network_mode;
  command_count = 0;
  artifacts = [];
  outcome = "unknown";
  failure_reason = "";
  rolled_back = false;
  log_summary = "";
}

abbrev pub denied : String → String → ExperimentProposal → ExperimentRecord
denied experiment_id backend p = record (new_record experiment_id backend p) {
  status = "cancelled";
  failure_reason = "approval denied";
}

abbrev pub is_denied : Option (ExperimentProposal → Bool) → ExperimentProposal → Bool
is_denied none p = false
is_denied (some f) p = not (f p)

abbrev pub is_missing : Option (ExperimentProposal → Bool) → Bool
is_missing none = true
is_missing (some f) = false

module _ {S : Type 0} where
  abbrev pub put_back : Attempt S → Lab S → Lab S
  put_back a s = record s { provider = a.provider; audits = a.audits; readings = a.readings }

  -- The end of the run, when the events are written, or could not be.
  abbrev pub written :
      ExperimentRecord → Lab S → Result (Unit {0}) × Ledger → Result ExperimentRecord × Lab S
  written r s (ok _, l) = (ok r, record s { ledger = some l })
  written r s (err e, l) = (err e, record s { ledger = some l })

  -- The end of the `finally`: the events, if there is a ledger.
  abbrev pub report_to :
      ExperimentProposal
      → ExperimentRecord
      → Lab S
      → Option Ledger
      → Result ExperimentRecord × Lab S
  report_to p r s none = (ok r, s)
  report_to p r s (some l) = written r s (record_outcome_of p r l)

  unfoldable pub report : ExperimentProposal → ExperimentRecord → Exec (Lab S) ExperimentRecord
  report p r s = report_to p r s s.ledger

  abbrev pub first_attempt : Setup S → String → ExperimentProposal → Lab S → Attempt S
  first_attempt u experiment_id p s = record {
    provider = s.provider;
    audits = s.audits;
    readings = s.readings + 1;
    experiment = new_record experiment_id u.provider.backend p;
    sandbox_id = "";
  }

  -- What follows the `try` statement: its exception, or the events and the record.
  abbrev pub ended :
      ExperimentProposal → Lab S → Result (Unit {0}) × Attempt S → Result ExperimentRecord × Lab S
  ended p s (err e, a) = (err e, put_back a s)
  ended p s (ok _, a) = report p a.experiment (put_back a s)

  -- A run that has been approved.
  unfoldable pub run_approved :
      Setup S → ExperimentProposal → String → Bool → Bool → Exec (Lab S) ExperimentRecord
  run_approved u p experiment_id restore_after keep_vm s = ended p s (
      experiment u experiment_id p (pos (u.clock s.readings) +ℤ scale 1000 p.time_budget_secs)
        restore_after keep_vm (first_attempt u experiment_id p s))

  -- `run_experiment`
  unfoldable pub run_experiment :
      Setup S → ExperimentProposal → Bool → Bool → Exec (Lab S) ExperimentRecord
  run_experiment u p restore_after keep_vm s =
      let n = s.counter + 1 in
      let experiment_id = fstring ("exp-" ∷ four_digits n ∷ []) in
      let s' = record s { counter = n } in
      if str_eq u.provider.backend "REAL" && is_missing u.approver
      then (err (runtime_error "real infrastructure requires an approval callback"), s')
      else if is_denied u.approver p
      then (ok (denied experiment_id u.provider.backend p), s')
      else run_approved u p experiment_id restore_after keep_vm s'

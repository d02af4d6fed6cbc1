-- ===== src/Examples/Experiments.antt =====
-- Experiments with the in-memory provider.
use sunns_chan.Prelude.{
  String, true, false, ◌≡◌, refl, none, some, [], ◌∷◌, Result, ok, err, effects, fstring, lift,
  take_text, str, is_blank, strip, lower, member,
}
use sunns_chan.Prelude.Int.{pos, ◌+ℤ◌, ◌-ℤ◌}
use sunns_chan.Prelude.Dict.{has_key, find, put, erase}
use sunns_chan.Ledger.{Ledger, record_event, insert_event}
use sunns_chan.Ledger.History.{IsLater}
use sunns_chan.Proposal.{ExperimentProposal}
use sunns_chan.Vm.{
  MockVm, new_vm, Bytes, MockSandboxProvider, check_vm_spec, create, require, store, start,
  wait_ready, snapshot, restore,
}
use sunns_chan.Vm.Guest.{execute_command, run_command, collect, collect_files, destroy, drop_text}
use sunns_chan.Controller.{
  ExperimentRecord, Setup, join_lines, on_provider, set_record, audit, read_clock, create_vm, judge,
  run_commands,
}
use sunns_chan.Controller.Run.{
  attempt, collect_artifacts, keep_artifacts, prepare_vm, after_restore, roll_back, experiment_body,
  handle_failure, destroy_vm, cleanup, experiment,
}
use sunns_chan.Controller.Provider.{IsProvider}
use sunns_chan.Controller.Report.{
  Lab, new_record, run_experiment, run_approved, report, record_outcome_of, record_lesson,
}
use sunns_chan.Controller.Leftover.{no_leftover}
use sunns_chan.Controller.Mock.{mock_provider, status, in_vms, mock_provider-IsProvider}
use sunns_chan.Controller.Events.{run_experiment-Recorded}
use sunns_chan.Controller.Success.{Ended}
use sunns_chan.Controller.Success.Whole.{run_experiment-Ended}

abbrev encode : String → Bytes
encode s = []

abbrev sha256 : Bytes → String
sha256 b = "0"

abbrev laboratory : Setup MockSandboxProvider
laboratory = record {
  provider = mock_provider encode sha256;
  template = "debian";
  resources = record { vcpus = 2; ram_mb = 4096; disk_gb = 40; lifetime_secs = 3600 };
  approver = none;
  clock = λ n. n;
  cancelled = λ n. false;
}

-- The second command destroys the guest.
abbrev risky : ExperimentProposal
risky = record {
  goal = "learn";
  hypothesis = "it survives";
  operations = "echo hi" ∷ "rm -rf /" ∷ "echo again" ∷ [];
  expected_outcome = "no damage";
  time_budget_secs = pos 600;
  network_mode = "isolated";
  vm_profile = "default";
  collect_paths = [];
}

abbrev history : Ledger
history = record { clock = λ i. i; events = []; state_snapshots = [] }

-- A sandbox of somebody else.
abbrev resident : MockVm
resident = new_vm (record {
  name = "guest";
  template = "debian";
  resources = record { vcpus = 2; ram_mb = 4096; disk_gb = 40; lifetime_secs = 3600 };
  network_mode = "isolated";
})

abbrev idle : Lab MockSandboxProvider
idle = record {
  provider = record { vms = ("guest", resident) ∷ []; counter = 0 };
  audits = [];
  readings = 0;
  counter = 0;
  ledger = some history;
}

mock_provider-IsProvider_example : IsProvider (mock_provider encode sha256) in_vms
mock_provider-IsProvider_example = mock_provider-IsProvider encode sha256

run_experiment-Recorded_example :
    (m : Ledger) × ((run_experiment laboratory risky true false idle).1.ledger ≡ some m)
    × IsLater history m
run_experiment-Recorded_example =
    run_experiment-Recorded risky laboratory true false idle history refl

abbrev record_or : ExperimentRecord → Result ExperimentRecord → ExperimentRecord
record_or r (ok s) = s
record_or r (err e) = r

-- One command, which destroys the guest, without a ledger.
abbrev short : ExperimentProposal
short = record risky { operations = "rm -rf /" ∷ [] }

abbrev quiet : Lab MockSandboxProvider
quiet = record idle { ledger = none }

-- The run of the short experiment, rolled back and cleaned up.
abbrev rolled_back_record : ExperimentRecord
rolled_back_record =
    record_or (new_record "" "" short) (run_experiment laboratory short true false quiet).0

no_leftover_example : in_vms quiet.provider "guest" ≡ true
unfolding has_key run_experiment run_approved report record_outcome_of record_lesson record_event
    insert_event experiment attempt experiment_body prepare_vm set_record create_vm check_vm_spec
    member is_blank lift effects on_provider audit read_clock judge run_commands after_restore
    roll_back handle_failure destroy_vm cleanup create require store start wait_ready snapshot
    restore execute_command run_command destroy drop_text status find put erase ◌+ℤ◌ ◌-ℤ◌ fstring
    str strip lower take_text join_lines
no_leftover_example =
    no_leftover laboratory in_vms (mock_provider-IsProvider encode sha256) short true quiet
      rolled_back_record refl refl "guest" refl

-- One command that succeeds.
abbrev easy : ExperimentProposal
easy = record risky { operations = "echo hi" ∷ [] }

abbrev completed_record : ExperimentRecord
completed_record =
    record_or (new_record "" "" easy) (run_experiment laboratory easy true false quiet).0

run_experiment-Ended_example : Ended 1 completed_record
unfolding has_key run_experiment run_approved report record_outcome_of record_lesson record_event
    insert_event experiment attempt experiment_body prepare_vm set_record create_vm check_vm_spec
    member is_blank lift effects on_provider audit read_clock judge run_commands after_restore
    roll_back handle_failure destroy_vm cleanup create require store start wait_ready snapshot
    restore execute_command run_command destroy drop_text status find put erase ◌+ℤ◌ ◌-ℤ◌ fstring
    str strip lower take_text join_lines collect_artifacts keep_artifacts collect collect_files
run_experiment-Ended_example =
    run_experiment-Ended easy laboratory true false quiet completed_record refl

completed_run : completed_record.status ≡ "completed"
unfolding has_key run_experiment run_approved report record_outcome_of record_lesson record_event
    insert_event experiment attempt experiment_body prepare_vm set_record create_vm check_vm_spec
    member is_blank lift effects on_provider audit read_clock judge run_commands after_restore
    roll_back handle_failure destroy_vm cleanup create require store start wait_ready snapshot
    restore execute_command run_command destroy drop_text status find put erase ◌+ℤ◌ ◌-ℤ◌ fstring
    str strip lower take_text join_lines collect_artifacts keep_artifacts collect collect_files
completed_run = refl

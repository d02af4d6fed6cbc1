-- ===== src/Controller/Run.antt =====
-- `run_experiment` of src/suns_chan/sandbox_controller.py: the body of its `try`, the handlers, the
-- cleanup in its `finally`, and the events that it records.
use sunns_chan.Prelude.{
  min, String, Bool, true, not, ◌&&◌, List, [], ◌∷◌, if◌then◌else◌, str_eq, member, take_text,
  fstring, value_error, runtime_error, not_implemented, message, Result, ok, err, Exec, pure, raise,
  gets, ◌>>=◌, ◌>>◌,
}
use sunns_chan.Prelude.Int.{ℤ, pos_part, scale}
use sunns_chan.Vm.{ArtifactRecord}
use sunns_chan.Proposal.{ExperimentProposal}
use sunns_chan.Controller.{
  ExperimentRecord, Setup, Attempt, last_text, join_lines, on_provider, set_record, move_to, audit,
  create_vm, run_commands,
}

-- What `m` returns or raises, as a value: the `try` of a `try` statement.
unfoldable pub attempt : {S A : Type 0} → Exec S A → Exec S (Result A)
attempt m s = let (r, s') = m s in (ok r, s')

abbrev pub is_one_of : String → List String → Bool
is_one_of = member

-- The log, and what the loop's last status means.
abbrev pub concluded : List String → ExperimentRecord → ExperimentRecord
concluded history r =
    let logged = record r { log_summary = last_text 2000 (join_lines history) } in
    if str_eq r.status "running"
    then record logged { status = "observing"; outcome = "success" }
    else if is_one_of r.status ("failed" ∷ "timeout" ∷ "corrupted" ∷ "cancelled" ∷ [])
    then record logged { outcome = "failure" }
    else logged

abbrev pub failed_with : String → ExperimentRecord → ExperimentRecord
failed_with m r = record r {
  status = "failed";
  outcome = "failure";
  failure_reason = take_text 300 m;
}

module _ {S : Type 0} where
  -- From the creation of the VM to its baseline snapshot.
  unfoldable pub prepare_vm : Setup S → String → ExperimentProposal → Exec (Attempt S) (Unit {0})
  prepare_vm u experiment_id proposal = do
    set_record (move_to "validated")
    create_vm u experiment_id proposal
    i ← gets (λ a. a.sandbox_id)
    set_record (λ r. record r { sandbox_id = i })
    audit "create" i
        (fstring ("goal=" ∷ take_text 120 proposal.goal ∷ " net=" ∷ proposal.network_mode ∷ []))
    on_provider (u.provider.start i)
    on_provider
        (u.provider.wait_ready i (min 180000 (pos_part (scale 1000 proposal.time_budget_secs))))
    on_provider (u.provider.snapshot i "baseline")
    set_record (move_to "running")

  -- The handlers of the artifact collection.
  unfoldable pub keep_artifacts : Result (List ArtifactRecord) → Exec (Attempt S) (Unit {0})
  keep_artifacts (ok artifacts) =
      set_record (λ r. record r { artifacts = artifacts; status = "completed" })
  keep_artifacts (err (value_error m)) = set_record (λ r. record r {
    status = "failed";
    outcome = "failure";
    failure_reason = fstring ("artifact collection failed: " ∷ m ∷ []);
  })
  keep_artifacts (err (runtime_error m)) = raise (runtime_error m)
  keep_artifacts (err (not_implemented m)) = raise (not_implemented m)

  unfoldable pub collect_artifacts :
      Setup S → String → ExperimentProposal → Exec (Attempt S) (Unit {0})
  collect_artifacts u experiment_id proposal = do
    i ← gets (λ a. a.sandbox_id)
    r ← attempt (on_provider (u.provider.collect i experiment_id proposal.collect_paths))
    keep_artifacts r

  -- `destroy` and `create` of a recreation, which replace the sandbox.
  unfoldable pub replace_vm : Setup S → String → ExperimentProposal → Exec (Attempt S) (Unit {0})
  replace_vm u name proposal = do
    i ← gets (λ a. a.sandbox_id)
    on_provider (u.provider.destroy i)
    create_vm u name proposal

  unfoldable pub recreate :
      Setup S → String → ExperimentProposal → String → Exec (Attempt S) (Unit {0})
  recreate u experiment_id proposal reason = do
    i ← gets (λ a. a.sandbox_id)
    audit "recreate" i (fstring ("restore failed (" ∷ reason ∷ "); recreating" ∷ []))
    replace_vm u (fstring (experiment_id ∷ "-retry" ∷ [])) proposal
    j ← gets (λ a. a.sandbox_id)
    on_provider (u.provider.start j)
    set_record (λ r. record r { sandbox_id = j; status = "recreated"; rolled_back = true })

  -- What follows the restore, or its exception.
  unfoldable pub after_restore :
      Setup S → String → ExperimentProposal → Result (Unit {0}) → Exec (Attempt S) (Unit {0})
  after_restore u experiment_id proposal (ok _) = do
    set_record (λ r. record r { rolled_back = true; status = "rolled_back" })
    i ← gets (λ a. a.sandbox_id)
    audit "rollback" i (fstring ("experiment=" ∷ experiment_id ∷ []))
  after_restore u experiment_id proposal (err e) = recreate u experiment_id proposal (message e)

  unfoldable pub roll_back : Setup S → String → ExperimentProposal → Exec (Attempt S) (Unit {0})
  roll_back u experiment_id proposal = do
    i ← gets (λ a. a.sandbox_id)
    r ← attempt (on_provider (u.provider.restore i "baseline"))
    after_restore u experiment_id proposal r

  -- The body of the `try`.
  unfoldable pub experiment_body :
      Setup S → String → ExperimentProposal → ℤ → Bool → Exec (Attempt S) (Unit {0})
  experiment_body u experiment_id proposal deadline restore_after = do
    prepare_vm u experiment_id proposal
    i ← gets (λ a. a.sandbox_id)
    history ← run_commands u i deadline proposal.operations []
    set_record (concluded history)
    status ← gets (λ a. a.experiment.status)
    if str_eq status "observing" then collect_artifacts u experiment_id proposal else pure tt
    status' ← gets (λ a. a.experiment.status)
    if is_one_of status' ("failed" ∷ "corrupted" ∷ []) && restore_after
        then roll_back u experiment_id proposal
        else pure tt

  -- `except (RuntimeError, ValueError)`: a NotImplementedError is a RuntimeError.
  unfoldable pub handle_failure : Result (Unit {0}) → Exec (Attempt S) (Unit {0})
  handle_failure (ok _) = pure tt
  handle_failure (err e) = set_record (failed_with (message e))

  unfoldable pub destroy_vm : Setup S → String → Exec (Attempt S) (Unit {0})
  destroy_vm u experiment_id = do
    i ← gets (λ a. a.sandbox_id)
    status ← gets (λ a. a.experiment.status)
    audit "destroy" i (fstring ("experiment=" ∷ experiment_id ∷ " status=" ∷ status ∷ []))
    attempt (on_provider (u.provider.destroy i))
    pure tt

  -- Is there a sandbox that the run has to destroy?
  abbrev pub must_destroy : Bool → Attempt S → Bool
  must_destroy keep_vm a =
      not (str_eq a.sandbox_id "") && not keep_vm && not (str_eq a.experiment.status "recreated")

  -- The cleanup of the `finally`.
  unfoldable pub cleanup : Setup S → String → Bool → Exec (Attempt S) (Unit {0})
  cleanup u experiment_id keep_vm = do
    b ← gets (must_destroy keep_vm)
    if b then destroy_vm u experiment_id else pure tt

  -- The `try` statement without the events.
  unfoldable pub experiment :
      Setup S → String → ExperimentProposal → ℤ → Bool → Bool → Exec (Attempt S) (Unit {0})
  experiment u experiment_id proposal deadline restore_after keep_vm = do
    r ← attempt (experiment_body u experiment_id proposal deadline restore_after)
    handle_failure r
    cleanup u experiment_id keep_vm

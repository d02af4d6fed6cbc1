-- ===== src/Controller.antt =====
-- `SandboxController` of src/suns_chan/sandbox_controller.py: one experiment in a sandbox, over any
-- provider. The times of a record are left out; a clock reading is a number of milliseconds.
pub mod Provider
pub mod Run
pub mod Report
pub mod Triples
pub mod Yields
pub mod Success
pub mod Steps
pub mod Creation
pub mod Cleanup
pub mod Leftover
pub mod Mock
pub mod Events
use Provider.{SandboxProvider}
use Prim.Native.String.{len}
use sunns_chan.Prelude.{
  ℕ, ◌+◌, ◌-◌, ◌*◌, min, String, Bool, true, false, not, ◌&&◌, ◌||◌, Option, none, some, List, [],
  ◌∷◌, ◌++◌, if◌then◌else◌, ◌==◌, leb, ltb, str_eq, member, length, map, take_text, strip, fstring,
  str, Error, value_error, runtime_error, not_implemented, message, Result, ok, err, Exec, pure,
  raise, gets, lift, modify, ◌>>=◌, ◌>>◌,
}
use sunns_chan.Prelude.Json.{Fields, field, end, text, bool, arr, num, texts}
use sunns_chan.Prelude.Int.{ℤ, pos, pos_part, scale, leb_ℤ, ◌+ℤ◌, ◌-ℤ◌}
use sunns_chan.Vm.{VmSpec, VmResources, check_vm_spec, GuestResult, ArtifactRecord}
use sunns_chan.Vm.Guest.{drop_text}
use sunns_chan.Ledger.{Ledger, record_event}
use sunns_chan.Proposal.{ExperimentProposal}

pub record ExperimentRecord : Type 0 where
  pub experiment_id : String
  pub sandbox_id : String
  pub goal : String
  pub hypothesis : String
  pub status : String
  pub backend : String
  pub network_mode : String
  pub command_count : ℕ
  pub artifacts : List ArtifactRecord
  pub outcome : String
  pub failure_reason : String
  pub rolled_back : Bool
  pub log_summary : String

pub record AuditLine : Type 0 where
  pub action : String
  pub sandbox_id : String
  pub detail : String

-- What a controller is made with: the clock gives its n-th reading, and `cancelled n` says whether
-- the operator has cancelled the experiment when n commands have run.
pub record Setup (S : Type 0) : Type 0 where
  pub provider : SandboxProvider S
  pub template : String
  pub resources : VmResources
  pub approver : Option (ExperimentProposal → Bool)
  pub clock : ℕ → ℕ
  pub cancelled : ℕ → Bool

-- The state of one run: the provider's, the audit (newest first), the readings of the clock so far,
-- the record and the local `sandbox_id`.
pub record Attempt (S : Type 0) : Type 0 where
  pub provider : S
  pub audits : List AuditLine
  pub readings : ℕ
  pub experiment : ExperimentRecord
  pub sandbox_id : String

-- `text[-n:]`
abbrev pub last_text : ℕ → String → String
last_text n s = drop_text (len s - n) s

-- `"\n".join(lines)`
unfoldable pub join_lines : List String → String
join_lines [] = ""
join_lines (l ∷ []) = l
join_lines (l ∷ m ∷ ls) = fstring (l ∷ "\n" ∷ join_lines (m ∷ ls) ∷ [])

-- `record.status = ...; record.failure_reason = ...`
abbrev pub stop_with : String → String → ExperimentRecord → ExperimentRecord
stop_with status reason r = record r { status = status; failure_reason = reason }

abbrev pub move_to : String → ExperimentRecord → ExperimentRecord
move_to status r = record r { status = status }

abbrev pub history_line : String → GuestResult → String
history_line command result =
    fstring
      ("$ " ∷ command ∷ "\n(exit " ∷ str result.exit_code ∷ ") " ∷ last_text 400 result.stdout ∷ [])

module _ {S : Type 0} where
  unfoldable pub on_provider : {A : Type 0} → Exec S A → Exec (Attempt S) A
  on_provider m a = let (r, s) = m a.provider in (r, record a { provider = s })

  -- An assignment to the record.
  unfoldable pub set_record : (ExperimentRecord → ExperimentRecord) → Exec (Attempt S) (Unit {0})
  set_record f a = (ok tt, record a { experiment = f a.experiment })

  -- `self._audit`
  unfoldable pub audit : String → String → String → Exec (Attempt S) (Unit {0})
  audit action sandbox_id detail a = (
    ok tt,
    record a {
      audits = record { action = action; sandbox_id = sandbox_id; detail = detail } ∷ a.audits;
    },
  )

  -- `self._clock()`
  unfoldable pub read_clock : Setup S → Exec (Attempt S) ℕ
  read_clock u a = (ok (u.clock a.readings), record a { readings = a.readings + 1 })

  -- `sandbox_id = self._provider.create(VMSpec(...))`
  unfoldable pub create_vm : Setup S → String → ExperimentProposal → Exec (Attempt S) (Unit {0})
  create_vm u name proposal = do
    spec ← lift (
        check_vm_spec (record {
          name = name;
          template = u.template;
          resources = u.resources;
          network_mode = proposal.network_mode;
        }))
    i ← on_provider (u.provider.create spec)
    modify (λ a. record a { sandbox_id = i })

  -- What `run_experiment` does with the result of a command: the rest of the loop, or a break.
  unfoldable pub judge :
      Setup S
      → String
      → String
      → GuestResult
      → List String
      → Exec (Attempt S) (List String)
      → Exec (Attempt S) (List String)
  judge u sandbox_id command result history rest = do
    set_record (λ r. record r { command_count = r.command_count + 1 })
    status ← on_provider (u.provider.status sandbox_id)
    if str_eq status "corrupted"
        then (set_record (
              stop_with "corrupted"
                (fstring ("guest corrupted itself at command: " ∷ take_text 120 command ∷ [])))
            >> pure history)
        else if not (result.exit_code == 0)
        then (set_record (
              stop_with "failed" (
                fstring
                  ("command exited " ∷ str result.exit_code ∷ ": " ∷ take_text 120 command ∷ [])))
            >> pure history)
        else rest

  -- The loop over the commands, with the log so far; it returns the whole log.
  unfoldable pub run_commands :
      Setup S → String → ℤ → List String → List String → Exec (Attempt S) (List String)
  run_commands u sandbox_id deadline [] history = pure history
  run_commands u sandbox_id deadline (command ∷ commands) history = do
    count ← gets (λ a. a.experiment.command_count)
    if u.cancelled count
        then (set_record (stop_with "cancelled" "cancelled by operator") >> pure history)
        else (do
          now ← read_clock u
          if leb_ℤ (deadline -ℤ pos now) (pos 0)
              then (set_record (
                    stop_with "timeout"
                      (fstring ("time budget exhausted after " ∷ str count ∷ " commands" ∷ [])))
                  >> pure history)
              else (do
                result ← on_provider (
                    u.provider.execute sandbox_id command
                      (min (pos_part (deadline -ℤ pos now)) 300000))
                judge u sandbox_id command result (history ++ history_line command result ∷ []) (
                    run_commands u sandbox_id deadline commands
                      (history ++ history_line command result ∷ []))))

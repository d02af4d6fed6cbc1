-- ===== src/Vm/Commands.antt =====
-- `MockSandboxProvider.execute` of src/suns_chan/vm_sandbox.py.
use sunns_chan.Prelude.{
  String, ◌≡◌, refl, ◌↔◌, Bool, true, false, not, some, [], ◌∷◌, arith, ◌⊎◌, inl, inr, ◌∙◌, str_eq,
  eq_iff, is_blank, strip, lower, Error, runtime_error, fstring, ok, err, Exec, Bool-cases, effects,
  member, raise_if, ◌>>◌,
}
use sunns_chan.Prelude.Dict.{find}
use sunns_chan.Vm.{
  Bytes, MockVm, MockSandboxProvider, running, is_running, is_corrupted, status_text, store,
}
use sunns_chan.Vm.Guest.{execute_command, run_command, reboots, self_destructions}
use sunns_chan.Vm.Recovery.{require_found, guarded, modify-pure}

no_destruction : (t : String) → member t reboots ≡ true → member t self_destructions ≡ false
unfolding member
no_destruction t h = elim (Bool-cases (str_eq t "reboot")) [
  | inl a ↦ rw ((eq_iff t "reboot").0 a) refl
  | inr a ↦ elim (Bool-cases (str_eq t "sudo reboot")) [
    | inl b ↦ rw ((eq_iff t "sudo reboot").0 b) refl
    | inr b ↦ elim (Bool-cases (str_eq t "shutdown -r now")) [
      | inl c ↦ rw ((eq_iff t "shutdown -r now").0 c) refl
      | inr c ↦ ground (arith, a, b, c, h)
    ]
  ]
]

-- A command corrupts a running guest exactly when it is, up to case and white space around it, one
-- of the three self-destructions.
pub run_command_corrupts_iff :
    (encode : String → Bytes) (command : String) (vm : MockVm)
    → vm.status ≡ running
    → (is_corrupted (run_command encode command vm).1.status ≡ true)
      ↔ (member (lower (strip command)) self_destructions ≡ true)
unfolding run_command
run_command_corrupts_iff encode command vm h =
    ground (arith, no_destruction (lower (strip command)), h)

refused :
    {A : Type 0} (b : Bool) (error : Error) (m : Exec MockSandboxProvider A)
    (p : MockSandboxProvider)
    → b ≡ true
    → (raise_if b error >> m) p ≡ (err error, p)
unfolding effects
refused b error m p h = rw h refl

-- On a VM that exists, a command that is not blank runs exactly when the VM is running, whatever
-- the command is; else it raises, and the provider stays as it was.
pub execute_command_lem :
    (encode : String → Bytes) (i command : String) (vm : MockVm) (p : MockSandboxProvider)
    → find i p.vms ≡ some vm
    → is_blank command ≡ false
    → ((is_running vm.status ≡ true)
        × (execute_command encode i command p
            ≡ (ok (run_command encode command vm).0, store i (run_command encode command vm).1 p)))
      ⊎ ((is_running vm.status ≡ false)
          × (execute_command encode i command p ≡ (
            err (
                runtime_error
                  (fstring ("vm is not running (status=" ∷ status_text vm.status ∷ ")" ∷ []))),
            p,
          )))
unfolding execute_command
execute_command_lem encode i command vm p e given = elim (Bool-cases (is_running vm.status)) [
  | inl on ↦ inl (
    on,
    (require_found i _ p vm e
        ∙ guarded (is_blank command) _ _ p given
        ∙ guarded (not (is_running vm.status)) _ _ p (rw on refl)
        ∙ modify-pure (store i (run_command encode command vm).1) (run_command encode command vm).0
            p),
  )
  | inr off ↦ inr (
    off,
    (require_found i _ p vm e
        ∙ guarded (is_blank command) _ _ p given
        ∙ refused (not (is_running vm.status)) _ _ p (rw off refl)),
  )
]

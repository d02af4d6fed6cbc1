-- ===== src/Vm/Guest.antt =====
-- The commands and the files of a guest: `execute`, `upload`, `download`, `collect` and `destroy` of the
-- provider of src/suns_chan/vm_sandbox.py.
use Prim.Native.Char.{code}
use Prim.Native.String.{◌++◌ as str_append}
use text.Mathlib.Text.{starts_with}
use sunns_chan.Prelude.{
  ℕ, zero, suc, String, Bool, not, ◌||◌, none, some, List, [], ◌∷◌, ◌++◌, if◌then◌else◌, ◌==◌,
  str_eq, member, length, is_space, is_blank, strip, lower, fstring, value_error, runtime_error,
  Result, ok, err, Exec, pure, raise_if, lift, modify, ◌>>=◌, ◌>>◌,
}
use sunns_chan.Prelude.Dict.{find, put, erase}
use sunns_chan.Vm.{
  Bytes, GuestResult, ArtifactRecord, status_text, is_running, MockVm, MockSandboxProvider, require,
  store, with_status, running, corrupted,
}

-- `text.split()[-1]`: the last run of characters that are no spaces; `last` is the last one read, and
-- `run` the one being read.
unfoldable pub last_word : String → String → String → String
last_word last run String.[] = if str_eq run "" then last else run
last_word last run (String.◌∷◌ c s) =
    if is_space (code c)
    then last_word (if str_eq run "" then last else run) "" s
    else last_word last (str_append run (String.◌∷◌ c "")) s

-- `text[n:]`
unfoldable pub drop_text : ℕ → String → String
drop_text zero s = s
drop_text (suc n) String.[] = ""
drop_text (suc n) (String.◌∷◌ c s) = drop_text n s

-- `text.partition(" ")`: what stands before the first space, and behind it.
unfoldable pub before_space : String → String
before_space String.[] = ""
before_space (String.◌∷◌ c s) = if code c == 32 then "" else String.◌∷◌ c (before_space s)

unfoldable pub after_space : String → String
after_space String.[] = ""
after_space (String.◌∷◌ c s) = if code c == 32 then s else after_space s

abbrev pub guest_result : String → String → String → GuestResult
guest_result command stdout stderr = record {
  command = command;
  exit_code = 0;
  stdout = stdout;
  stderr = stderr;
  backend = "MOCK";
}

abbrev pub reboots : List String
reboots = "reboot" ∷ "sudo reboot" ∷ "shutdown -r now" ∷ []

abbrev pub self_destructions : List String
self_destructions = "rm -rf /" ∷ "rm -rf /*" ∷ ":(){ :|:& };:" ∷ []

abbrev pub installs : String → Bool
installs s =
    starts_with s "apt install " || starts_with s "apt-get install " || starts_with s "pip install "

-- What a command does to a running guest, from the history on.
unfoldable pub run_command : (String → Bytes) → String → MockVm → GuestResult × MockVm
run_command encode command before =
    let vm = record before { command_history = before.command_history ++ command ∷ [] } in
    let text = strip command in
    let lowered = lower text in
    if member lowered reboots
    then (guest_result command "" "", with_status running vm)
    else if member lowered self_destructions
    then (guest_result command "" "guest destroyed itself", with_status corrupted vm)
    else if starts_with lowered "echo "
    then (guest_result command (fstring (drop_text 5 text ∷ "\n" ∷ [])) "", vm)
    else if installs lowered
    then (let package_name = last_word "" "" text in
        (
          guest_result command (fstring ("installed " ∷ package_name ∷ " (mock)\n" ∷ [])) "",
          record vm { installed_packages = vm.installed_packages ++ package_name ∷ [] },
        ))
    else if starts_with lowered "write "
    then (let path = before_space (after_space text) in
        (
          guest_result command (fstring ("wrote " ∷ path ∷ " (mock)\n" ∷ [])) "",
          record vm { files = put path (encode (after_space (after_space text))) vm.files },
        ))
    else (guest_result command "" "", vm)

-- `MockSandboxProvider.execute`
unfoldable pub execute_command :
    (String → Bytes) → String → String → Exec MockSandboxProvider GuestResult
execute_command encode sandbox_id command = do
  vm ← require sandbox_id
  raise_if (is_blank command) (value_error "command must be non-empty")
  raise_if (not (is_running vm.status))
      (runtime_error (fstring ("vm is not running (status=" ∷ status_text vm.status ∷ ")" ∷ [])))
  modify (store sandbox_id (run_command encode command vm).1)
  pure (run_command encode command vm).0

-- `MockSandboxProvider.upload`
unfoldable pub upload : String → String → Bytes → Exec MockSandboxProvider (Unit {0})
upload sandbox_id path content = do
  vm ← require sandbox_id
  raise_if (is_blank path) (value_error "path must be non-empty")
  modify (store sandbox_id (record vm { files = put path content vm.files }))

abbrev pub guest_file : String → MockVm → Result Bytes
guest_file path vm = elim (find path vm.files) [
  | none ↦ err (value_error (fstring ("guest file not found: " ∷ path ∷ [])))
  | some content ↦ ok content
]

-- `MockSandboxProvider.download`
unfoldable pub download : String → String → Exec MockSandboxProvider Bytes
download sandbox_id path = do vm ← require sandbox_id; lift (guest_file path vm)

abbrev pub artifact : (Bytes → String) → String → String → String → Bytes → ArtifactRecord
artifact sha256 experiment_id sandbox_id path content = record {
  experiment_id = experiment_id;
  sandbox_id = sandbox_id;
  path = path;
  size = length content;
  sha256 = sha256 content;
}

unfoldable pub collect_files :
    (Bytes → String) → String → String → MockVm → List String → Result (List ArtifactRecord)
collect_files sha256 experiment_id sandbox_id vm [] = ok []
collect_files sha256 experiment_id sandbox_id vm (path ∷ paths) =
    let rest = collect_files sha256 experiment_id sandbox_id vm paths in
    elim (guest_file path vm) [
      | err e ↦ err e
      | ok content ↦ elim rest [
        | err e ↦ err e
        | ok records ↦ ok (artifact sha256 experiment_id sandbox_id path content ∷ records)
      ]
    ]

-- `MockSandboxProvider.collect`
unfoldable pub collect :
    (Bytes → String)
    → String
    → String
    → List String
    → Exec MockSandboxProvider (List ArtifactRecord)
collect sha256 sandbox_id experiment_id paths = do
  vm ← require sandbox_id
  lift (collect_files sha256 experiment_id sandbox_id vm paths)

-- `MockSandboxProvider.destroy`
unfoldable pub destroy : String → Exec MockSandboxProvider (Unit {0})
destroy sandbox_id p = (ok tt, record p { vms = erase sandbox_id p.vms })

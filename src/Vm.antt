-- ===== src/Vm.antt =====
-- src/suns_chan/vm_sandbox.py: the specification of a VM and the in-memory provider. A guest file
-- holds bytes; `encode` and `sha256` stand for Python's own, and times are left out.
pub mod Guest
pub mod Recovery
pub mod Commands
use Prim.Native.Char.{code}
use Prim.Native.String.{◌++◌ as str_append}
use text.Mathlib.Text.{starts_with}
use sunns_chan.Prelude.{
  ℕ, zero, suc, ◌+◌, String, Bool, true, false, not, ◌&&◌, ◌||◌, Option, none, some, List, [], ◌∷◌,
  ◌++◌, if◌then◌else◌, ltb, ◌==◌, str_eq, member, length, is_space, is_blank, strip, lower, fstring,
  str, Error, value_error, runtime_error, Result, ok, err, Exec, pure, raise_if, or_raise, lift,
  gets, modify, ◌>>=◌, ◌>>◌,
}
use sunns_chan.Prelude.Dict.{Dict, find, put, erase}

abbrev pub network_modes : List String
network_modes = "isolated" ∷ "restricted" ∷ "internet" ∷ []

pub record VmResources : Type 0 where
  pub vcpus : ℕ
  pub ram_mb : ℕ
  pub disk_gb : ℕ
  pub lifetime_secs : ℕ

-- `VMResources.__post_init__`
unfoldable pub check_resources : VmResources → Result VmResources
check_resources r =
    if ltb r.vcpus 1 || ltb r.ram_mb 512 || ltb r.disk_gb 5 || ltb r.lifetime_secs 60
    then err (value_error "unreasonably small VM resources")
    else ok r

pub record VmSpec : Type 0 where
  pub name : String
  pub template : String
  pub resources : VmResources
  pub network_mode : String

-- `VMSpec.__post_init__`; the quotes are those of Python's `repr` of a plain text.
unfoldable pub check_vm_spec : VmSpec → Result VmSpec
check_vm_spec s =
    if is_blank s.name
    then err (value_error "vm name must be non-empty")
    else if is_blank s.template
    then err (value_error "vm template must be non-empty")
    else if not (member s.network_mode network_modes)
    then err (value_error (fstring ("unknown network mode: '" ∷ s.network_mode ∷ "'" ∷ [])))
    else ok s

abbrev pub Bytes : Type 0
Bytes = List ℕ

-- `GuestResult`, without its duration, which the mock backend always gives as 0.
pub record GuestResult : Type 0 where
  pub command : String
  pub exit_code : ℕ
  pub stdout : String
  pub stderr : String
  pub backend : String

pub record ArtifactRecord : Type 0 where
  pub experiment_id : String
  pub sandbox_id : String
  pub path : String
  pub size : ℕ
  pub sha256 : String

pub data VmStatus : Type 0 where
  creating running stopped corrupted : VmStatus

abbrev pub status_text : VmStatus → String
status_text creating = "creating"
status_text running = "running"
status_text stopped = "stopped"
status_text corrupted = "corrupted"

abbrev pub is_running : VmStatus → Bool
is_running running = true
is_running _ = false

abbrev pub is_corrupted : VmStatus → Bool
is_corrupted corrupted = true
is_corrupted _ = false

-- The dict that `snapshot` stores.
pub record Saved : Type 0 where
  pub files : Dict Bytes
  pub installed_packages : List String
  pub status : VmStatus

-- `_MockVM`
pub record MockVm : Type 0 where
  pub spec : VmSpec
  pub status : VmStatus
  pub files : Dict Bytes
  pub installed_packages : List String
  pub command_history : List String
  pub snapshots : Dict Saved

-- `MockSandboxProvider`
pub record MockSandboxProvider : Type 0 where
  pub vms : Dict MockVm
  pub counter : ℕ

abbrev pub new_vm : VmSpec → MockVm
new_vm spec = record {
  spec = spec;
  status = creating;
  files = [];
  installed_packages = [];
  command_history = [];
  snapshots = [];
}

-- `MockSandboxProvider.create`
unfoldable pub create : VmSpec → Exec MockSandboxProvider String
create spec p =
    let sandbox_id = fstring ("mock-vm-" ∷ str (p.counter + 1) ∷ []) in
    (ok sandbox_id, record { vms = put sandbox_id (new_vm spec) p.vms; counter = p.counter + 1 })

-- `MockSandboxProvider._require`
unfoldable pub require : String → Exec MockSandboxProvider MockVm
require sandbox_id p =
    or_raise (find sandbox_id p.vms) (value_error (fstring ("unknown sandbox: " ∷ sandbox_id ∷ [])))
      p

-- The VM is an object: what is assigned to it is seen in the provider.
unfoldable pub store : String → MockVm → MockSandboxProvider → MockSandboxProvider
store sandbox_id vm p = record p { vms = put sandbox_id vm p.vms }

abbrev pub with_status : VmStatus → MockVm → MockVm
with_status status vm = record vm { status = status }

-- `MockSandboxProvider.start`, and `restart`, whose body is the same.
unfoldable pub start : String → Exec MockSandboxProvider (Unit {0})
start sandbox_id = do
  vm ← require sandbox_id
  raise_if (is_corrupted vm.status) (runtime_error "vm is corrupted; restore or recreate first")
  modify (store sandbox_id (with_status running vm))

-- `MockSandboxProvider.stop`
unfoldable pub stop : String → Exec MockSandboxProvider (Unit {0})
stop sandbox_id = do vm ← require sandbox_id; modify (store sandbox_id (with_status stopped vm))

-- `MockSandboxProvider.wait_ready`
unfoldable pub wait_ready : String → Exec MockSandboxProvider (Unit {0})
wait_ready sandbox_id = do
  vm ← require sandbox_id
  raise_if (not (is_running vm.status)) (runtime_error "vm is not running")

abbrev pub saved_of : MockVm → Saved
saved_of vm = record {
  files = vm.files;
  installed_packages = vm.installed_packages;
  status = vm.status;
}

-- `MockSandboxProvider.snapshot`
unfoldable pub snapshot : String → String → Exec MockSandboxProvider String
snapshot sandbox_id name = do
  vm ← require sandbox_id
  raise_if (is_blank name) (value_error "snapshot name must be non-empty")
  modify (store sandbox_id (record vm { snapshots = put name (saved_of vm) vm.snapshots }))
  pure name

-- The status that a restored VM gets.
abbrev pub recovered : VmStatus → VmStatus
recovered corrupted = running
recovered s = s

abbrev pub restored : Saved → MockVm → MockVm
restored saved vm = record vm {
  files = saved.files;
  installed_packages = saved.installed_packages;
  status = recovered saved.status;
}

-- `MockSandboxProvider.restore`
unfoldable pub restore : String → String → Exec MockSandboxProvider (Unit {0})
restore sandbox_id name = do
  vm ← require sandbox_id
  saved ←
      or_raise (find name vm.snapshots) (value_error (fstring ("unknown snapshot: " ∷ name ∷ [])))
  modify (store sandbox_id (restored saved vm))

-- ===== src/Examples/Guests.antt =====
-- The in-memory VM provider on one guest.
use sunns_chan.Prelude.{String, ◌≡◌, some, List, [], ◌∷◌, refl, ok, is_blank}
use sunns_chan.Prelude.Dict.{find}
use sunns_chan.Vm.{Bytes, MockVm, MockSandboxProvider, running, snapshot, restore, recovered}
use sunns_chan.Vm.Recovery.{Op, do_execute, do_stop, run_ops, restore_recovers}

abbrev guest : MockVm
guest = record {
  spec = record {
    name = "exp-0001";
    template = "debian";
    resources = record { vcpus = 2; ram_mb = 4096; disk_gb = 40; lifetime_secs = 3600 };
    network_mode = "isolated";
  };
  status = running;
  files = ("notes", 1 ∷ 2 ∷ []) ∷ [];
  installed_packages = "curl" ∷ [];
  command_history = [];
  snapshots = [];
}

abbrev provider : MockSandboxProvider
provider = record { vms = ("mock-vm-1", guest) ∷ []; counter = 1 }

abbrev encode : String → Bytes
encode s = []

-- The guest destroys itself, and is stopped.
abbrev trouble : List Op
trouble = do_execute "mock-vm-1" "rm -rf /" ∷ do_stop "mock-vm-1" ∷ []

restore_recovers_example :
    let r =
      restore "mock-vm-1" "baseline"
        (run_ops encode trouble (snapshot "mock-vm-1" "baseline" provider).1) in
    (r.0 ≡ ok tt)
    × ((new : MockVm) × (find "mock-vm-1" r.1.vms ≡ some new)
        × (new.files ≡ guest.files)
        × (new.installed_packages ≡ guest.installed_packages)
        × (new.status ≡ recovered guest.status))
unfolding find is_blank
restore_recovers_example =
    restore_recovers encode "mock-vm-1" "baseline" guest trouble provider refl refl

-- ===== src/Vm/Recovery.antt =====
-- `snapshot` and `restore` of src/suns_chan/vm_sandbox.py, with other operations between them.
use sunns_chan.Prelude.{
  String, ◌≡◌, refl, ◌∙◌, Bool, true, false, Option, none, some, List, [], ◌∷◌, arith, inl, inr,
  str_eq, eq_iff, is_blank, Error, ok, Exec, Bool-cases, effects, or_raise, raise_if, modify, pure,
  ◌>>=◌, ◌>>◌,
}
use sunns_chan.Prelude.Dict.{find, put, find-put, find-put_other}
use sunns_chan.Vm.{
  Bytes, MockVm, MockSandboxProvider, Saved, require, store, start, stop, snapshot, restore,
  restored, recovered, saved_of,
}
use sunns_chan.Vm.Guest.{execute_command, upload, run_command}

-- What a caller can do to a guest between a snapshot and its return.
pub data Op : Type 0 where
  do_start do_stop : String → Op
  do_execute : String → String → Op
  do_upload : String → String → Bytes → Op
  do_restore : String → String → Op

abbrev pub run_op : (String → Bytes) → Op → MockSandboxProvider → MockSandboxProvider
run_op encode (do_start i) p = (start i p).1
run_op encode (do_stop i) p = (stop i p).1
run_op encode (do_execute i command) p = (execute_command encode i command p).1
run_op encode (do_upload i path content) p = (upload i path content p).1
run_op encode (do_restore i name) p = (restore i name p).1

-- A sequence of operations, where an exception does not end it.
abbrev pub run_ops : (String → Bytes) → List Op → MockSandboxProvider → MockSandboxProvider
run_ops encode [] p = p
run_ops encode (o ∷ os) p = run_ops encode os (run_op encode o p)

-- The VM `i` has the snapshot.
abbrev Holds : String → String → Saved → MockSandboxProvider → Type 0
Holds i name saved p =
    (vm : MockVm) × (find i p.vms ≡ some vm) × (find name vm.snapshots ≡ some saved)

run_command-snapshots :
    (encode : String → Bytes) (command : String) (vm : MockVm)
    → (run_command encode command vm).1.snapshots ≡ vm.snapshots
unfolding run_command
run_command-snapshots encode command vm = ground arith

or_raise_found :
    {A B : Type 0} (o : Option A) (error : Error) (f : A → Exec MockSandboxProvider B)
    (p : MockSandboxProvider) (a : A)
    → o ≡ some a
    → (or_raise o error >>= f) p ≡ f a p
unfolding effects
or_raise_found none error f p a h = cc
or_raise_found (some b) error f p a h = cc

pub require_found :
    {A : Type 0} (j : String) (f : MockVm → Exec MockSandboxProvider A) (p : MockSandboxProvider)
    (vm : MockVm)
    → find j p.vms ≡ some vm
    → (require j >>= f) p ≡ f vm p
unfolding require ◌>>=◌
require_found j f p vm h = or_raise_found (find j p.vms) _ f p vm h

-- What a restore of a snapshot that the VM has does.
restore_found :
    (i name : String) (saved : Saved) (vm : MockVm) (p : MockSandboxProvider)
    → find i p.vms ≡ some vm
    → find name vm.snapshots ≡ some saved
    → restore i name p ≡ (ok tt, store i (restored saved vm) p)
unfolding restore modify
restore_found i name saved vm p e k =
    require_found i _ p vm e ∙ or_raise_found (find name vm.snapshots) _ _ p saved k

pub guarded :
    {A : Type 0} (b : Bool) (error : Error) (m : Exec MockSandboxProvider A)
    (p : MockSandboxProvider)
    → b ≡ false
    → (raise_if b error >> m) p ≡ m p
unfolding effects
guarded b error m p h = rw h refl

pub modify-pure :
    {A : Type 0} (f : MockSandboxProvider → MockSandboxProvider) (a : A) (p : MockSandboxProvider)
    → (modify f >> pure a) p ≡ (ok a, f p)
unfolding effects
modify-pure f a p = refl

snapshot_found :
    (i name : String) (vm : MockVm) (p : MockSandboxProvider)
    → find i p.vms ≡ some vm
    → is_blank name ≡ false
    → snapshot i name p
      ≡ (ok name, store i (record vm { snapshots = put name (saved_of vm) vm.snapshots }) p)
unfolding snapshot
snapshot_found i name vm p e named =
    require_found i _ p vm e
    ∙ guarded (is_blank name) _ _ p named
    ∙ modify-pure (store i (record vm { snapshots = put name (saved_of vm) vm.snapshots })) name p

module _ (i name : String) (saved : Saved) where
  -- A VM is changed, and keeps its snapshots.
  store-Holds :
      (j : String) (vm new : MockVm) (p : MockSandboxProvider)
      → find j p.vms ≡ some vm
      → new.snapshots ≡ vm.snapshots
      → Holds i name saved p
      → Holds i name saved (store j new p)
  unfolding store
  store-Holds j vm new p hj same (w, hw, hs) = elim (Bool-cases (str_eq j i)) [
    | inl e ↦ (
      new,
      rw ((eq_iff j i).0 e) (find-put i new p.vms),
      (let q : vm ≡ w = cc ((eq_iff j i).0 e, hj, hw) in rw (same, q) hs),
    )
    | inr e ↦ (w, find-put_other j i new p.vms e ∙ hw, hs)
  ]

  -- The parts that the operations are made of.
  require_parts :
      {A : Type 0} (j : String) (o : Option MockVm) (error : Error)
      (f : MockVm → Exec MockSandboxProvider A) (p : MockSandboxProvider)
      → find j p.vms ≡ o
      → ((vm : MockVm) → find j p.vms ≡ some vm → Holds i name saved (f vm p).1)
      → Holds i name saved p
      → Holds i name saved ((or_raise o error >>= f) p).1
  unfolding effects
  require_parts j none error f p e k h = h
  require_parts j (some vm) error f p e k h = k vm e

  require-Holds :
      {A : Type 0} (j : String) (f : MockVm → Exec MockSandboxProvider A) (p : MockSandboxProvider)
      → ((vm : MockVm) → find j p.vms ≡ some vm → Holds i name saved (f vm p).1)
      → Holds i name saved p
      → Holds i name saved ((require j >>= f) p).1
  unfolding require ◌>>=◌
  require-Holds j f p = require_parts j (find j p.vms) _ f p refl

  raise_if-Holds :
      {A : Type 0} (b : Bool) (error : Error) (m : Exec MockSandboxProvider A)
      (p : MockSandboxProvider)
      → Holds i name saved (m p).1
      → Holds i name saved p
      → Holds i name saved ((raise_if b error >> m) p).1
  unfolding effects
  raise_if-Holds true error m p after before = before
  raise_if-Holds false error m p after before = after

  modify-pure-Holds :
      {A : Type 0} (f : MockSandboxProvider → MockSandboxProvider) (a : A) (p : MockSandboxProvider)
      → Holds i name saved (f p)
      → Holds i name saved ((modify f >> pure a) p).1
  unfolding effects
  modify-pure-Holds f a p h = h

  restore_parts :
      (o : Option Saved) (error : Error) (j : String) (vm : MockVm) (p : MockSandboxProvider)
      → find j p.vms ≡ some vm
      → Holds i name saved p
      → Holds i name saved ((or_raise o error >>= λ s. modify (store j (restored s vm))) p).1
  unfolding effects
  restore_parts none error j vm p e h = h
  restore_parts (some s) error j vm p e h = store-Holds j vm _ p e refl h

  run_op-Holds :
      (encode : String → Bytes) (o : Op) (p : MockSandboxProvider)
      → Holds i name saved p
      → Holds i name saved (run_op encode o p)
  unfolding start stop execute_command upload restore modify
  run_op-Holds encode (do_start j) p h =
      require-Holds j _ p (λ vm e. raise_if-Holds _ _ _ p (store-Holds j vm _ p e refl h) h) h
  run_op-Holds encode (do_stop j) p h =
      require-Holds j _ p (λ vm e. store-Holds j vm _ p e refl h) h
  run_op-Holds encode (do_execute j command) p h =
      require-Holds j _ p
        (λ vm e.
          raise_if-Holds _ _ _ p
            (raise_if-Holds _ _ _ p
              (modify-pure-Holds _ _ p (
                store-Holds j vm (run_command encode command vm).1 p e
                  (run_command-snapshots encode command vm) h))
              h)
            h)
        h
  run_op-Holds encode (do_upload j path content) p h =
      require-Holds j _ p (λ vm e. raise_if-Holds _ _ _ p (store-Holds j vm _ p e refl h) h) h
  run_op-Holds encode (do_restore j other) p h =
      require-Holds j _ p (λ vm e. restore_parts (find other vm.snapshots) _ j vm p e h) h

  run_ops-Holds :
      (encode : String → Bytes) (os : List Op) (p : MockSandboxProvider)
      → Holds i name saved p
      → Holds i name saved (run_ops encode os p)
  run_ops-Holds encode [] p h = h
  run_ops-Holds encode (o ∷ os) p h = run_ops-Holds encode os _ (run_op-Holds encode o p h)

  -- A restore brings the VM to what the snapshot holds.
  restore_held :
      (p : MockSandboxProvider)
      → Holds i name saved p
      → ((restore i name p).0 ≡ ok tt)
        × ((vm : MockVm) × (find i (restore i name p).1.vms ≡ some vm)
            × (vm.files ≡ saved.files)
            × (vm.installed_packages ≡ saved.installed_packages)
            × (vm.status ≡ recovered saved.status))
  unfolding store
  restore_held p (vm, e, k) =
      rw (restore_found i name saved vm p e k)
        (refl, (restored saved vm, find-put i (restored saved vm) p.vms, refl, refl, refl))

-- What a snapshot of a VM that exists stores.
snapshot-Holds :
    (i name : String) (vm : MockVm) (p : MockSandboxProvider)
    → find i p.vms ≡ some vm
    → is_blank name ≡ false
    → Holds i name (saved_of vm) (snapshot i name p).1
unfolding store
snapshot-Holds i name vm p e named = rw (snapshot_found i name vm p e named) (
  _,
  find-put i (record vm { snapshots = put name (saved_of vm) vm.snapshots }) p.vms,
  find-put name (saved_of vm) vm.snapshots,
)

-- After a snapshot, under a name that is not blank, of a VM that exists, and then any starts, stops, commands, uploads and restores, on any VM
-- and whether they raise or not, a restore of the snapshot returns, and the VM has the files and the
-- packages that it had at the snapshot, and its status, or "running" where that was "corrupted".
pub restore_recovers :
    (encode : String → Bytes) (i name : String) (vm : MockVm) (os : List Op)
    (p : MockSandboxProvider)
    → find i p.vms ≡ some vm
    → is_blank name ≡ false
    → let r = restore i name (run_ops encode os (snapshot i name p).1) in
      (r.0 ≡ ok tt)
      × ((new : MockVm) × (find i r.1.vms ≡ some new)
          × (new.files ≡ vm.files)
          × (new.installed_packages ≡ vm.installed_packages)
          × (new.status ≡ recovered vm.status))
restore_recovers encode i name vm os p e named =
    restore_held i name (saved_of vm) _
      (run_ops-Holds i name (saved_of vm) encode os _ (snapshot-Holds i name vm p e named))

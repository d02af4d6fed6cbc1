-- ===== src/Controller/Mock.antt =====
-- `MockSandboxProvider` of src/suns_chan/vm_sandbox.py as the provider of a controller.
use Prim.Native.String.{len, ◌++◌ as str_append}
use text.Mathlib.TextPositions.{len-append}
use sunns_chan.Prelude.{
  arith, String, ◌≡◌, refl, sym, ◌∙◌, ap, Bool, true, false, ◌||◌, ◌+◌, [], ◌∷◌, fstring, str,
  Bool-cases, eq_iff, inl, inr, Option, none, some, List, str_eq, effects, Error, ok, Exec, pure,
  or_raise, modify, ◌>>=◌, Keeps,
}
use sunns_chan.Prelude.Dict.{has_key, find-has_key, has_key-put, has_key-erase, find}
use sunns_chan.Prelude.Rules.{keeps_rules, Reflexive, Transitive}
use sunns_chan.Vm.{
  Bytes, VmSpec, MockVm, MockSandboxProvider, status_text, create, new_vm, start, wait_ready,
  snapshot, restore, require, store,
}
use sunns_chan.Vm.Guest.{execute_command, collect, destroy}
use sunns_chan.Controller.Provider.{SandboxProvider, KeepsLive, IsProvider}

-- `MockSandboxProvider.status`
unfoldable pub status : String → Exec MockSandboxProvider String
status sandbox_id = do vm ← require sandbox_id; pure (status_text vm.status)

-- The time limits are ignored.
abbrev pub mock_provider : (String → Bytes) → (Bytes → String) → SandboxProvider MockSandboxProvider
mock_provider encode sha256 = record {
  backend = "MOCK";
  create = create;
  start = start;
  wait_ready = λ i _. wait_ready i;
  snapshot = snapshot;
  restore = restore;
  execute = λ i command _. execute_command encode i command;
  status = status;
  collect = collect sha256;
  destroy = destroy;
}

abbrev pub in_vms : MockSandboxProvider → String → Bool
in_vms p i = has_key i p.vms

-- If there is a sandbox `i`, the sandboxes stay the same ones.
record Kept (i : String) (p q : MockSandboxProvider) : Type 0 where
  at : in_vms p i ≡ true → (j : String) → in_vms q j ≡ in_vms p j

present :
    (i j : String) (p : MockSandboxProvider)
    → in_vms p i ≡ true
    → str_eq i j || in_vms p j ≡ in_vms p j
present i j p h = elim (Bool-cases (str_eq i j)) [
  | inl e ↦ let same : i ≡ j = (eq_iff i j).0 e in rw e (sym (ap (in_vms p) (sym same) ∙ h))
  | inr e ↦ rw e refl
]

module _ (i : String) where
  Kept-refl : Reflexive (Kept i)
  Kept-refl p = record { at = λ h j. refl }

  Kept-trans : Transitive (Kept i)
  Kept-trans p q r h k = record { at = λ l j. k.at (h.at l i ∙ l) j ∙ h.at l j }

  store-Kept : (vm : MockVm) → Keeps (Kept i) (modify (store i vm))
  unfolding store effects
  store-Kept vm = record {
    at = λ p. record { at = λ l j. has_key-put i j vm p.vms ∙ present i j p l };
  }

  looked_up :
      {A : Type 0} (o : Option MockVm) (e : Error) (f : MockVm → Exec MockSandboxProvider A)
      (p : MockSandboxProvider)
      → find i p.vms ≡ o
      → ((vm : MockVm) → Keeps (Kept i) (f vm))
      → (j : String) → in_vms ((or_raise o e >>= f) p).1 j ≡ in_vms p j
  unfolding effects
  looked_up none e f p h k j = refl
  looked_up (some vm) e f p h k j = ((k vm).at p).at (find-has_key i p.vms h) j

  -- An operation that looks its sandbox up first can only change that one.
  require-KeepsLive :
      {A : Type 0} (f : MockVm → Exec MockSandboxProvider A)
      → ((vm : MockVm) → Keeps (Kept i) (f vm))
      → KeepsLive in_vms (require i >>= f)
  unfolding require effects
  require-KeepsLive f k = record { at = λ p j. looked_up (find i p.vms) _ f p refl k j }

ruleset kept = (keeps_rules, Kept-refl, Kept-trans, store-Kept)

start-KeepsLive : (i : String) → KeepsLive in_vms (start i)
unfolding start
start-KeepsLive i = require-KeepsLive i _ (λ vm. search (kept))

wait_ready-KeepsLive : (i : String) → KeepsLive in_vms (wait_ready i)
unfolding wait_ready
wait_ready-KeepsLive i = require-KeepsLive i _ (λ vm. search (kept))

snapshot-KeepsLive : (i n : String) → KeepsLive in_vms (snapshot i n)
unfolding snapshot
snapshot-KeepsLive i n = require-KeepsLive i _ (λ vm. search (kept))

restore-KeepsLive : (i n : String) → KeepsLive in_vms (restore i n)
unfolding restore
restore-KeepsLive i n = require-KeepsLive i _ (λ vm. search (kept))

status-KeepsLive : (i : String) → KeepsLive in_vms (status i)
unfolding status
status-KeepsLive i = require-KeepsLive i _ (λ vm. search (kept))

not_empty : (t : String) → str_eq (str_append "mock-vm-" t) "" ≡ false
not_empty t = elim (Bool-cases (str_eq (str_append "mock-vm-" t) "")) [
  | inl e ↦
      let size : 8 + len t ≡ 0 =
        sym (len-append "mock-vm-" t) ∙ ap len ((eq_iff (str_append "mock-vm-" t) "").0 e) in
      ground arith
  | inr e ↦ e
]

module _ (encode : String → Bytes) (sha256 : Bytes → String) where
  execute_command-KeepsLive : (i c : String) → KeepsLive in_vms (execute_command encode i c)
  unfolding execute_command
  execute_command-KeepsLive i c = require-KeepsLive i _ (λ vm. search (kept))

  collect-KeepsLive : (i e : String) (ps : List String) → KeepsLive in_vms (collect sha256 i e ps)
  unfolding collect
  collect-KeepsLive i e ps = require-KeepsLive i _ (λ vm. search (kept))

  name_of_created :
      (spec : VmSpec) (p : MockSandboxProvider) (i : String)
      → (create spec p).0 ≡ ok i
      → (str_eq i "" ≡ false)
        × ((j : String) → in_vms (create spec p).1 j ≡ str_eq i j || in_vms p j)
  unfolding create fstring
  name_of_created spec p i h =
      let same : fstring ("mock-vm-" ∷ str (p.counter + 1) ∷ []) ≡ i = cc in
      (
        ap (λ k. str_eq k "") (sym same) ∙ not_empty (fstring (str (p.counter + 1) ∷ [])),
        λ j. has_key-put _ j (new_vm spec) p.vms ∙ ap (λ k. str_eq k j || in_vms p j) same,
      )

  -- The in-memory provider keeps the promises of a sandbox provider: a creation adds exactly the sandbox
  -- that it returns, whose name is not empty, a destruction removes exactly the one that is named, and
  -- no other operation changes which sandboxes exist, also where it raises.
  pub mock_provider-IsProvider : IsProvider (mock_provider encode sha256) in_vms
  unfolding create destroy
  mock_provider-IsProvider = record {
    created = λ spec p i h. name_of_created spec p i h;
    destroyed = λ i p j. has_key-erase i j p.vms;
    start-KeepsLive = start-KeepsLive;
    wait_ready-KeepsLive = λ i t. wait_ready-KeepsLive i;
    snapshot-KeepsLive = snapshot-KeepsLive;
    restore-KeepsLive = restore-KeepsLive;
    execute-KeepsLive = λ i c t. execute_command-KeepsLive i c;
    status-KeepsLive = status-KeepsLive;
    collect-KeepsLive = collect-KeepsLive;
    not_created = λ spec p e h. cc;
  }

-- ===== src/Controller/Provider.antt =====
-- `SandboxProvider` of src/suns_chan/vm_sandbox.py, as the sandbox controller uses it: operations on a
-- state of any type, and what they do to the set of sandboxes that exist.
use sunns_chan.Prelude.{ℕ, String, ◌≡◌, Bool, false, not, ◌&&◌, ◌||◌, List, str_eq, ok, err, Exec}
use sunns_chan.Vm.{VmSpec, GuestResult, ArtifactRecord}

-- A time limit is a number of milliseconds. `is_live s i` says whether the sandbox `i` exists.
pub record SandboxProvider (S : Type 0) : Type 0 where
  pub backend : String
  pub create : VmSpec → Exec S String
  pub start : String → Exec S (Unit {0})
  pub wait_ready : String → ℕ → Exec S (Unit {0})
  pub snapshot : String → String → Exec S String
  pub restore : String → String → Exec S (Unit {0})
  pub execute : String → String → ℕ → Exec S GuestResult
  pub status : String → Exec S String
  pub collect : String → String → List String → Exec S (List ArtifactRecord)
  pub destroy : String → Exec S (Unit {0})

-- An operation leaves the set of sandboxes as it is.
pub record KeepsLive {S A : Type 0} (is_live : S → String → Bool) (m : Exec S A) : Type 0 where
  pub at : (s : S) (j : String) → is_live (m s).1 j ≡ is_live s j

-- The contract: what creates and destroys sandboxes, and that a created one has a name.
pub record IsProvider {S : Type 0} (p : SandboxProvider S) (is_live : S → String → Bool)
    : Type 0 where
  pub created :
      (spec : VmSpec) (s : S) (i : String)
      → (p.create spec s).0 ≡ ok i
      → (str_eq i "" ≡ false)
        × ((j : String) → is_live (p.create spec s).1 j ≡ str_eq i j || is_live s j)
  pub destroyed :
      (i : String) (s : S) (j : String)
      → is_live (p.destroy i s).1 j ≡ not (str_eq i j) && is_live s j
  pub start-KeepsLive : (i : String) → KeepsLive is_live (p.start i)
  pub wait_ready-KeepsLive : (i : String) (t : ℕ) → KeepsLive is_live (p.wait_ready i t)
  pub snapshot-KeepsLive : (i n : String) → KeepsLive is_live (p.snapshot i n)
  pub restore-KeepsLive : (i n : String) → KeepsLive is_live (p.restore i n)
  pub execute-KeepsLive : (i c : String) (t : ℕ) → KeepsLive is_live (p.execute i c t)
  pub status-KeepsLive : (i : String) → KeepsLive is_live (p.status i)
  pub collect-KeepsLive : (i e : String) (ps : List String) → KeepsLive is_live (p.collect i e ps)
  pub not_created :
      (spec : VmSpec) (s : S) (e : _)
      → (p.create spec s).0 ≡ err e
      → (j : String) → is_live (p.create spec s).1 j ≡ is_live s j

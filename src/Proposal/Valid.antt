-- ===== src/Proposal/Valid.antt =====
-- The proposals that `validate_proposal` of src/suns_chan/sandbox_controller.py returns.
use sunns_chan.Prelude.{
  String, ◌≡◌, ◌≢◌, refl, Bool, true, not, Option, none, some, List, [], arith, inl, inr, is_blank,
  member, All, Bool-cases, ok,
}
use sunns_chan.Prelude.Int.{ℤ}
use sunns_chan.Prelude.Json.{
  Json, null, bool, int, float, text, arr, obj, Items, nil, cons, Fields, get_field,
}
use sunns_chan.Schemas.Checked.{and_then_ok, or_error_ok, ok_eq}
use sunns_chan.Vm.{network_modes}
use sunns_chan.Proposal.{
  ExperimentProposal, first_text, all_texts, as_texts, as_commands, as_budget, as_network_mode,
  in_budget, validate_fields, validate_proposal,
}

pub record IsRunnable (p : ExperimentProposal) : Type 0 where
  pub some_operation : p.operations ≢ []
  pub operations : All (λ s. not (is_blank s) ≡ true) p.operations
  pub budget : in_budget p.time_budget_secs ≡ true
  pub network_mode : member p.network_mode network_modes ≡ true

some_eq : {A : Type 0} {a b : A} → ◌≡◌ {A = Option A} (some a) (some b) → a ≡ b
some_eq h = cc

none-some : {A : Type 0} {a : A} → ◌≡◌ {A = Option A} none (some a) → ⊥
none-some h = cc

first_text-some :
    (test : String → Bool) (s : String) (o : Option (List String)) (ss : List String)
    → ((ts : List String) → o ≡ some ts → All (λ s. test s ≡ true) ts)
    → first_text test s o ≡ some ss
    → All (λ s. test s ≡ true) ss × (ss ≢ [])
first_text-some test s none ss k h = absurd (none-some h)
first_text-some test s (some ts) ss k h = elim (Bool-cases (test s)) [
  | inl e ↦ rw⁻¹ (some_eq (rw (first_text, e) at h)) ((e, k ts refl), λ bad. cc bad)
  | inr e ↦ absurd (none-some (rw (first_text, e) at h))
]

all_texts-some :
    (test : String → Bool) (items : Items) (ss : List String)
    → all_texts test items ≡ some ss
    → All (λ s. test s ≡ true) ss
unfolding all_texts
all_texts-some test nil ss h = rw⁻¹ (some_eq h) tt
all_texts-some test (cons (text s) items) ss h =
    (first_text-some test s (all_texts test items) ss (all_texts-some test items) h).0
all_texts-some test (cons null items) ss h = absurd (cc h)
all_texts-some test (cons (bool _) items) ss h = absurd (cc h)
all_texts-some test (cons (int _) items) ss h = absurd (cc h)
all_texts-some test (cons (float _) items) ss h = absurd (cc h)
all_texts-some test (cons (arr _) items) ss h = absurd (cc h)
all_texts-some test (cons (obj _) items) ss h = absurd (cc h)

as_budget-some : (v : Json) (z : ℤ) → as_budget v ≡ some z → in_budget z ≡ true
unfolding as_budget
as_budget-some v z h = ground arith

as_network_mode-some :
    (v : Json) (s : String) → as_network_mode v ≡ some s → member s network_modes ≡ true
unfolding as_network_mode
as_network_mode-some v s h = ground arith

-- The commands of a list that has at least one item.
as_commands-some :
    (v : Option Json) (ss : List String)
    → as_commands v ≡ some ss
    → All (λ s. not (is_blank s) ≡ true) ss × (ss ≢ [])
unfolding as_commands as_texts all_texts
as_commands-some (some (arr (cons (text s) items))) ss h =
    first_text-some (λ s. not (is_blank s)) s (all_texts (λ s. not (is_blank s)) items) ss
      (all_texts-some (λ s. not (is_blank s)) items) h
as_commands-some (some (arr (cons null items))) ss h = absurd (none-some h)
as_commands-some (some (arr (cons (bool _) items))) ss h = absurd (none-some h)
as_commands-some (some (arr (cons (int _) items))) ss h = absurd (none-some h)
as_commands-some (some (arr (cons (float _) items))) ss h = absurd (none-some h)
as_commands-some (some (arr (cons (arr _) items))) ss h = absurd (none-some h)
as_commands-some (some (arr (cons (obj _) items))) ss h = absurd (none-some h)
as_commands-some (some (arr nil)) ss h = absurd (none-some h)
as_commands-some (some null) ss h = absurd (none-some h)
as_commands-some (some (bool _)) ss h = absurd (none-some h)
as_commands-some (some (int _)) ss h = absurd (none-some h)
as_commands-some (some (float _)) ss h = absurd (none-some h)
as_commands-some (some (text _)) ss h = absurd (none-some h)
as_commands-some (some (obj _)) ss h = absurd (none-some h)
as_commands-some none ss h = absurd (none-some h)

validate_fields_ok :
    (repr to_str : Json → String) (fs : Fields) (p : ExperimentProposal)
    → validate_fields repr to_str fs ≡ ok p
    → IsRunnable p
unfolding validate_fields
validate_fields_ok repr to_str fs p h =
    let (goal, _, h1) = and_then_ok _ _ p h in
    let (hypothesis, _, h2) = and_then_ok _ _ p h1 in
    let (expected, _, h3) = and_then_ok _ _ p h2 in
    let (operations, ho, h4) = and_then_ok _ _ p h3 in
    let (budget, hb, h5) = and_then_ok _ _ p h4 in
    let (mode, hm, h6) = and_then_ok _ _ p h5 in
    let (paths, _, h7) = and_then_ok _ _ p h6 in
    let commands = as_commands-some (get_field fs "operations") operations (or_error_ok _ _ _ ho) in
    rw⁻¹ (ok_eq h7) (record {
      some_operation = commands.1;
      operations = commands.0;
      budget = as_budget-some _ budget (or_error_ok _ _ _ hb);
      network_mode = as_network_mode-some _ mode (or_error_ok _ _ _ hm);
    })

-- A proposal that validation accepts has at least one operation, none of them blank, a time budget
-- from 60 to 86400 seconds and one of the three network modes.
pub validate_proposal_ok :
    (repr to_str : Json → String) (v : Json) (p : ExperimentProposal)
    → validate_proposal repr to_str v ≡ ok p
    → IsRunnable p
unfolding validate_proposal
validate_proposal_ok repr to_str (obj fs) p h = validate_fields_ok repr to_str fs p h
validate_proposal_ok repr to_str null p h = absurd (cc h)
validate_proposal_ok repr to_str (bool _) p h = absurd (cc h)
validate_proposal_ok repr to_str (int _) p h = absurd (cc h)
validate_proposal_ok repr to_str (float _) p h = absurd (cc h)
validate_proposal_ok repr to_str (text _) p h = absurd (cc h)
validate_proposal_ok repr to_str (arr _) p h = absurd (cc h)

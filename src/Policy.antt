-- ===== src/Policy.antt =====
-- src/suns_chan/policy.py: the gate that every requested action passes.
pub mod Verdicts
use sunns_chan.Prelude.{
  String, Bool, true, false, Option, none, some, List, [], ◌∷◌, ◌&&◌, ◌||◌, not, if◌then◌else◌,
  str_eq, member,
}
use sunns_chan.Prelude.Int.{ℤ, pos, ltb_ℤ}

pub data ActionVerdict : Type 0 where
  allow require_approval deny : ActionVerdict

-- `verdict.value`
abbrev pub value : ActionVerdict → String
value allow = "allow"
value require_approval = "require_approval"
value deny = "deny"

pub record ActionRequest : Type 0 where
  pub name : String
  pub risk : String
  pub description : String
  pub scope : String
  pub estimated_cost : ℤ

-- The approval callback, if one was given.
abbrev pub Approver : Type 0
Approver = Option (ActionRequest → Bool)

abbrev pub approves : Approver → ActionRequest → Bool
approves none r = false
approves (some f) r = f r

abbrev pub approvable_risks : List String
approvable_risks = "write" ∷ "command" ∷ "network" ∷ "message" ∷ "install" ∷ []

abbrev pub sandbox_actions : List String
sandbox_actions = "sandbox.write" ∷ "sandbox.command" ∷ "sandbox.install" ∷ "sandbox.network" ∷ []

-- `PolicyGate.evaluate`
unfoldable pub evaluate : Approver → ActionRequest → ActionVerdict
evaluate approver request =
    if ltb_ℤ request.estimated_cost (pos 1) || ltb_ℤ (pos 100) request.estimated_cost
    then deny
    else if str_eq request.risk "destructive"
    then deny
    else if str_eq request.risk "read_only"
    then allow
    else if not (member request.risk approvable_risks)
    then deny
    else if str_eq request.scope "sandbox" && member request.name sandbox_actions
    then allow
    else if approves approver request
    then allow
    else require_approval

-- ===== src/Policy/Verdicts.antt =====
-- The verdicts of `PolicyGate.evaluate` in src/suns_chan/policy.py.
use sunns_chan.Prelude.{
  String, ◌≡◌, ◌⊎◌, ◌↔◌, Bool, true, false, none, arith, ◌&&◌, ◌||◌, str_eq, member, eq_iff,
}
use sunns_chan.Prelude.Int.{pos, leb_ℤ}
use sunns_chan.Policy.{
  ActionRequest, Approver, allow, require_approval, deny, evaluate, approves, approvable_risks,
  sandbox_actions,
}

-- The cost lies from 1 to 100, and the risk is a known one that is not destructive.
abbrev pub is_admissible : ActionRequest → Bool
is_admissible r =
    leb_ℤ (pos 1) r.estimated_cost
    && leb_ℤ r.estimated_cost (pos 100)
    && (str_eq r.risk "read_only" || member r.risk approvable_risks)

-- "destructive" is none of the risks that can be allowed.
not-known-destructive :
    (risk : String)
    → str_eq risk "destructive" ≡ true
    → (str_eq risk "read_only" || member risk approvable_risks) ≡ false
unfolding member
not-known-destructive risk h = rw ((eq_iff risk "destructive").0 h)

-- A request is denied exactly when its cost is outside 1 to 100 or its risk is neither read_only
-- nor one of the five approvable ones, whoever approves.
pub deny_iff_not_admissible :
    (a : Approver) (r : ActionRequest) → (evaluate a r ≡ deny) ↔ (is_admissible r ≡ false)
unfolding evaluate
deny_iff_not_admissible a r = ground (arith, not-known-destructive r.risk)

-- Without an approver only a read_only request, or one of the four sandbox actions in the scope
-- "sandbox", is allowed.
pub allow_without_approver :
    (r : ActionRequest)
    → evaluate none r ≡ allow
    → (str_eq r.risk "read_only" ≡ true)
      ⊎ ((str_eq r.scope "sandbox" ≡ true) × (member r.name sandbox_actions ≡ true))
unfolding evaluate
allow_without_approver r h = ground arith

-- An approver changes a verdict only from require_approval to allow, and only where it says yes.
pub approver_only_upgrades :
    (a : Approver) (r : ActionRequest)
    → (evaluate a r ≡ evaluate none r)
      ⊎ ((evaluate none r ≡ require_approval) × (approves a r ≡ true) × (evaluate a r ≡ allow))
unfolding evaluate
approver_only_upgrades a r = ground arith

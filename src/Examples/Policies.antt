-- ===== src/Examples/Policies.antt =====
-- The policy gate and the tool registry on concrete requests.
use sunns_chan.Prelude.{◌≡◌, ◌↔◌, ◌⊎◌, true, false, none, some, ◌∷◌, refl, ok}
use sunns_chan.Prelude.Json.{get_field, Fields, field, end, text}
use sunns_chan.Policy.{evaluate, deny, allow, require_approval, approves}
use sunns_chan.Policy.Verdicts.{is_admissible, deny_iff_not_admissible, approver_only_upgrades}
use sunns_chan.Tools.{echo_validate, execute_tool, execute, success, find_tool}
use sunns_chan.Tools.Gates.{closed_gate_runs_nothing, execute_audits}
use sunns_chan.Examples.{request, echo, registry}

deny_iff_not_admissible_example :
    (evaluate none (request "wipe" "destructive") ≡ deny)
    ↔ (is_admissible (request "wipe" "destructive") ≡ false)
deny_iff_not_admissible_example = deny_iff_not_admissible none (request "wipe" "destructive")

approver_only_upgrades_example :
    (evaluate (some (λ _. true)) (request "save" "write") ≡ evaluate none (request "save" "write"))
    ⊎ ((evaluate none (request "save" "write") ≡ require_approval)
        × (approves (some (λ _. true)) (request "save" "write") ≡ true)
        × (evaluate (some (λ _. true)) (request "save" "write") ≡ allow))
approver_only_upgrades_example = approver_only_upgrades (some (λ _. true)) (request "save" "write")

abbrev hello : Fields
hello = field "text" (text "hello") end

closed_gate_runs_nothing_example :
    (execute_tool echo "echo" end true registry
      ≡ execute_tool (record echo { run = λ _. ok (success "other") }) "echo" end true registry)
    × ((execute_tool echo "echo" end true registry).0.done ≡ false)
unfolding echo_validate get_field
closed_gate_runs_nothing_example =
    closed_gate_runs_nothing registry echo "echo" end true (λ _. ok (success "other")) refl

execute_audits_example :
    (execute "echo" hello false registry).1 ≡ elim (find_tool "echo" registry.tools) [
      | none ↦ registry
      | some tool ↦ record registry {
        audits =
            record { name = "echo"; args = hello; result = (execute "echo" hello false registry).0 }
            ∷ registry.audits;
      }
    ]
execute_audits_example = execute_audits registry "echo" hello false

-- ===== src/Comms/Dispatch.antt =====
-- `dispatch` of src/suns_chan/comms.py, and the requests of src/suns_chan/sandbox.py at the policy gate.
use sunns_chan.Prelude.{
  ℕ, String, ◌≡◌, refl, ◌∙◌, Bool, true, false, ◌||◌, Option, arith, inl, inr, str_eq, eq_iff,
  member, ok, Exec, Bool-cases, ◌>>◌, pure, modify, Keeps,
}
use sunns_chan.Prelude.Rules.{keeps_rules, Reflexive, Transitive}
use sunns_chan.Prelude.Int.{ℤ, pos, leb_ℤ, ltb_ℤ}
use sunns_chan.Policy.{ActionRequest, Approver, allow, evaluate, value, sandbox_actions}
use sunns_chan.Ledger.{Ledger, MemoryEvent}
use sunns_chan.Comms.{
  CommunicationProposal, DispatchResult, Outgoing, on_ledger, tell_auditor, audit, request_of,
  approved_by, SandboxRequest, to_action_request, risk_of,
}

record SameOutbox (s t : Outgoing) : Type 0 where
  outbox : t.outbox ≡ s.outbox

SameOutbox-refl : Reflexive SameOutbox
SameOutbox-refl s = record { outbox = refl }

SameOutbox-trans : Transitive SameOutbox
SameOutbox-trans s t u p q = record { outbox = q.outbox ∙ p.outbox }

on_ledger-SameOutbox : (m : Exec Ledger MemoryEvent) → Keeps SameOutbox (on_ledger m)
unfolding on_ledger
on_ledger-SameOutbox m = record { at = λ s. record { outbox = refl } }

tell_auditor-SameOutbox :
    (channel : String) (id : ℕ) (sent : Bool)
    → Keeps SameOutbox (modify (tell_auditor channel id sent))
unfolding tell_auditor modify
tell_auditor-SameOutbox channel id sent = record { at = λ s. record { outbox = ground arith } }

ruleset same_outbox =
    (keeps_rules, SameOutbox-refl, SameOutbox-trans, on_ledger-SameOutbox, tell_auditor-SameOutbox)

report : (String → String) → CommunicationProposal → String → String → Exec Outgoing DispatchResult
report scrub p verdict receipt = do
  audit scrub p verdict true receipt
  pure (record { sent = true; verdict = verdict; receipt = receipt; reason = "" })

-- May the message go out: the gate allows it, or the approver says yes.
abbrev pub may_send :
    Approver → Option (CommunicationProposal → Bool) → CommunicationProposal → Bool
may_send gate approver p =
    str_eq (value (evaluate gate (request_of p))) "allow" || approved_by approver p

in_range :
    (c : ℤ)
    → leb_ℤ (pos 1) c ≡ true
    → leb_ℤ c (pos 100) ≡ true
    → (ltb_ℤ c (pos 1) || ltb_ℤ (pos 100) c) ≡ false
in_range c lo hi = ground arith

-- The request that a well-formed one becomes.
abbrev pub action_of : SandboxRequest → String → ActionRequest
action_of r action = record {
  name = action;
  risk = risk_of action;
  description = r.description;
  scope = "sandbox";
  estimated_cost = r.estimated_cost;
}

to_action_request_ok :
    (r : SandboxRequest) (a : ActionRequest)
    → to_action_request r ≡ ok a
    → (member r.action sandbox_actions ≡ true) × (a ≡ action_of r r.action)
unfolding to_action_request
to_action_request_ok r a h = ground arith

sandbox_allowed :
    (gate : Approver) (r : SandboxRequest)
    → (ltb_ℤ r.estimated_cost (pos 1) || ltb_ℤ (pos 100) r.estimated_cost) ≡ false
    → member r.action sandbox_actions ≡ true
    → evaluate gate (action_of r r.action) ≡ allow
unfolding evaluate member
sandbox_allowed gate r cost h = elim (Bool-cases (str_eq r.action "sandbox.write")) [
  | inl e ↦ rw ((eq_iff r.action "sandbox.write").0 e, cost) refl
  | inr a ↦ elim (Bool-cases (str_eq r.action "sandbox.command")) [
    | inl e ↦ rw ((eq_iff r.action "sandbox.command").0 e, cost) refl
    | inr b ↦ elim (Bool-cases (str_eq r.action "sandbox.install")) [
      | inl e ↦ rw ((eq_iff r.action "sandbox.install").0 e, cost) refl
      | inr c ↦ elim (Bool-cases (str_eq r.action "sandbox.network")) [
        | inl e ↦ rw ((eq_iff r.action "sandbox.network").0 e, cost) refl
        | inr d ↦ absurd (ground (arith, a, b, c, d, h))
      ]
    ]
  ]
]

-- A request for the sandbox that is well formed, at a cost from 1 to 100, is allowed by the gate
-- whoever approves.
pub sandbox_request_allowed :
    (gate : Approver) (r : SandboxRequest) (a : ActionRequest)
    → to_action_request r ≡ ok a
    → leb_ℤ (pos 1) r.estimated_cost ≡ true
    → leb_ℤ r.estimated_cost (pos 100) ≡ true
    → evaluate gate a ≡ allow
sandbox_request_allowed gate r a h lo hi =
    let (known, e) = to_action_request_ok r a h in
    rw e (sandbox_allowed gate r (in_range r.estimated_cost lo hi) known)

-- ===== src/Comms.antt =====
-- src/suns_chan/comms.py and src/suns_chan/sandbox.py: messages that wait for an approval, over the
-- channel that records them, and requests for the sandbox. `scrub` stands for `scrub_secrets`; the
-- creation time of a proposal, and the brief that is shown to an approver, are left out.
pub mod Dispatch
use sunns_chan.Prelude.{
  ℕ, String, Bool, true, false, not, ◌&&◌, ◌||◌, Option, none, some, List, [], ◌∷◌, ◌++◌,
  if◌then◌else◌, str_eq, member, is_blank, take_text, length, map, fstring, str, Error, value_error,
  Result, ok, err, Exec, pure, gets, modify, ◌>>=◌, ◌>>◌,
}
use sunns_chan.Prelude.Int.{ℤ, pos, leb_ℤ}
use sunns_chan.Prelude.Json.{Json, Fields, Items, nil, cons, field, end, text, bool, arr, num}
use sunns_chan.Policy.{ActionRequest, ActionVerdict, Approver, evaluate, value, sandbox_actions}
use sunns_chan.Ledger.{Ledger, MemoryEvent, record_event}

pub record CommunicationProposal : Type 0 where
  pub channel : String
  pub recipient : String
  pub content : String
  pub reason : String
  pub activity_id : String
  pub goal_id : Option ℕ
  pub evidence_ids : List ℕ
  pub confidence : ℤ

-- `CommunicationProposal.__post_init__`, for a confidence that is a number.
unfoldable pub check_proposal : CommunicationProposal → Result CommunicationProposal
check_proposal p =
    if is_blank p.channel || is_blank p.recipient
    then err (value_error "channel and recipient must be non-empty")
    else if is_blank p.content || is_blank p.reason
    then err (value_error "content and reason must be non-empty")
    else if not (leb_ℤ (pos 0) p.confidence && leb_ℤ p.confidence (pos 10000))
    then err (value_error "confidence must be between 0 and 1")
    else ok p

pub record DispatchResult : Type 0 where
  pub sent : Bool
  pub verdict : String
  pub receipt : String
  pub reason : String

-- The ledger, the outbox of a `MockChannel`, whether there is an auditor, and its calls, newest first.
pub record Outgoing : Type 0 where
  pub ledger : Ledger
  pub outbox : List CommunicationProposal
  pub has_auditor : Bool
  pub audits : List (String × ℕ × Bool)

-- `MockChannel.send`
unfoldable pub send : CommunicationProposal → Exec Outgoing String
send p s =
    let outbox' = s.outbox ++ p ∷ [] in
    (ok (fstring ("mock-receipt-" ∷ str (length outbox') ∷ [])), record s { outbox = outbox' })

unfoldable pub ids : List ℕ → Items
ids [] = nil
ids (i ∷ is) = cons (num i) (ids is)

abbrev pub audit_text : (String → String) → CommunicationProposal → Bool → String
audit_text scrub p sent = fstring (
    "["
    ∷ (if sent then "sent" else "blocked")
    ∷ ":"
    ∷ p.channel
    ∷ "] to "
    ∷ p.recipient
    ∷ ": "
    ∷ take_text 500 (scrub p.content)
    ∷ [])

abbrev pub audit_fields : CommunicationProposal → String → Bool → String → Fields
audit_fields p verdict sent receipt = field "channel" (text p.channel) (
    field "recipient" (text p.recipient) (
      field "verdict" (text verdict) (
        field "sent" (bool sent) (
          field "receipt" (text receipt) (
            field "activity_id" (text p.activity_id)
              (field "evidence_ids" (arr (ids p.evidence_ids)) end))))))

-- `ledger.record`, on the ledger of the state.
unfoldable pub on_ledger : Exec Ledger MemoryEvent → Exec Outgoing MemoryEvent
on_ledger m s = let (r, l) = m s.ledger in (r, record s { ledger = l })

unfoldable pub tell_auditor : String → ℕ → Bool → Outgoing → Outgoing
tell_auditor channel id sent s =
    if s.has_auditor then record s { audits = (channel, id, sent) ∷ s.audits } else s

-- `_audit`
unfoldable pub audit :
    (String → String) → CommunicationProposal → String → Bool → String → Exec Outgoing (Unit {0})
audit scrub p verdict sent receipt = do
  event ←
      on_ledger (
        record_event "communication" (audit_text scrub p sent)
          (audit_fields p verdict sent receipt))
  modify (tell_auditor p.channel event.0 sent)

abbrev pub request_of : CommunicationProposal → ActionRequest
request_of p = record {
  name = fstring ("comm." ∷ p.channel ∷ []);
  risk = "message";
  description = fstring ("Send to " ∷ p.recipient ∷ ": " ∷ take_text 120 p.content ∷ []);
  scope = "external";
  estimated_cost = pos 1;
}

abbrev pub approved_by : Option (CommunicationProposal → Bool) → CommunicationProposal → Bool
approved_by none p = false
approved_by (some f) p = f p

-- The part of `dispatch` behind the approval, and the part without one.
unfoldable pub deliver :
    (String → String) → CommunicationProposal → String → Exec Outgoing DispatchResult
deliver scrub p verdict = do
  receipt ← send p
  audit scrub p verdict true receipt
  pure (record { sent = true; verdict = verdict; receipt = receipt; reason = "" })

unfoldable pub block :
    (String → String) → CommunicationProposal → String → Exec Outgoing DispatchResult
block scrub p verdict = do
  audit scrub p verdict false ""
  pure (record {
    sent = false;
    verdict = verdict;
    receipt = "";
    reason = "approval denied or missing";
  })

-- `dispatch`
unfoldable pub dispatch :
    (String → String)
    → CommunicationProposal
    → Approver
    → Option (CommunicationProposal → Bool)
    → Exec Outgoing DispatchResult
dispatch scrub p gate approver =
    let verdict = value (evaluate gate (request_of p)) in
    if not (str_eq verdict "allow") && not (approved_by approver p)
    then block scrub p verdict
    else deliver scrub p verdict

pub record SandboxRequest : Type 0 where
  pub action : String
  pub description : String
  pub sandbox_id : String
  pub estimated_cost : ℤ

-- `self.action.removeprefix("sandbox.")`, on the four actions.
abbrev pub risk_of : String → String
risk_of action =
    if str_eq action "sandbox.install"
    then "install"
    else if str_eq action "sandbox.write"
    then "write"
    else if str_eq action "sandbox.command"
    then "command"
    else "network"

-- `SandboxRequest.to_action_request`
unfoldable pub to_action_request : SandboxRequest → Result ActionRequest
to_action_request r =
    if is_blank r.sandbox_id
    then err (value_error "sandbox_id is required")
    else if not (member r.action sandbox_actions)
    then err (value_error (fstring ("unsupported sandbox action: " ∷ r.action ∷ [])))
    else ok (record {
      name = r.action;
      risk = risk_of r.action;
      description = r.description;
      scope = "sandbox";
      estimated_cost = r.estimated_cost;
    })

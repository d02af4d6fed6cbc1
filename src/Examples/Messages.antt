-- ===== src/Examples/Messages.antt =====
-- A message and a sandbox request at the policy gate.
use sunns_chan.Prelude.{false, none, []}
use sunns_chan.Prelude.Int.{pos}
use sunns_chan.Comms.{CommunicationProposal, Outgoing, SandboxRequest}
use sunns_chan.Examples.{empty_ledger}

abbrev greeting : CommunicationProposal
greeting = record {
  channel = "console";
  recipient = "Surya";
  content = "hello";
  reason = "morning";
  activity_id = "";
  goal_id = none;
  evidence_ids = [];
  confidence = pos 5000;
}

abbrev outgoing : Outgoing
outgoing = record { ledger = empty_ledger; outbox = []; has_auditor = false; audits = [] }

abbrev install : SandboxRequest
install = record {
  action = "sandbox.install";
  description = "curl";
  sandbox_id = "mock-vm-1";
  estimated_cost = pos 5;
}

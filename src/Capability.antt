-- ===== src/Capability.antt =====
-- src/suns_chan/capability.py: the registry of capabilities, their lifecycle and their usage.
-- `scrub` stands for `scrub_secrets` of src/suns_chan/comms.py: any function on texts.
pub mod Usage
pub mod Tokens
pub mod Lifecycle
pub mod Store
pub mod Names
pub mod Words
pub mod Stamps
pub mod Matching
use Tokens.{tokenize, overlap}
use sunns_chan.Prelude.{
  ℕ, ◌+◌, String, Bool, true, false, not, ◌&&◌, ◌||◌, Option, none, some, List, [], ◌∷◌, ◌++◌,
  if◌then◌else◌, ltb, ◌==◌, str_eq, any, take, select, member, is_blank, strip, take_text, fstring,
  str, Error, value_error, Result, ok, err, Exec, raise_if, or_raise, lift, modify, gets, pure,
  ◌>>=◌, ◌>>◌,
}
use sunns_chan.Prelude.Table.{Table, append, next_id, fetch, update, newest}
use sunns_chan.Prelude.Rows.{get_row, add_row, change_row}

-- `CAPABILITY_KINDS`
abbrev pub capability_kinds : List String
capability_kinds =
    "tool" ∷ "executable" ∷ "package" ∷ "script" ∷ "library" ∷ "agent" ∷ "service" ∷ "webapp"
    ∷ "other" ∷ []

pub data Status : Type 0 where
  discovered downloaded installed initialized validated available failed disabled removed : Status

abbrev pub name : Status → String
name discovered = "discovered"
name downloaded = "downloaded"
name installed = "installed"
name initialized = "initialized"
name validated = "validated"
name available = "available"
name failed = "failed"
name disabled = "disabled"
name removed = "removed"

-- `CAPABILITY_STATUSES`: the status that a text names.
unfoldable pub parse_status : String → Option Status
parse_status s =
    if str_eq s "discovered"
    then some discovered
    else if str_eq s "downloaded"
    then some downloaded
    else if str_eq s "installed"
    then some installed
    else if str_eq s "initialized"
    then some initialized
    else if str_eq s "validated"
    then some validated
    else if str_eq s "available"
    then some available
    else if str_eq s "failed"
    then some failed
    else if str_eq s "disabled"
    then some disabled
    else if str_eq s "removed"
    then some removed
    else none

-- `_TRANSITIONS`
unfoldable pub can_move : Status → Status → Bool
can_move discovered downloaded = true
can_move discovered failed = true
can_move discovered removed = true
can_move downloaded installed = true
can_move downloaded failed = true
can_move downloaded removed = true
can_move installed initialized = true
can_move installed failed = true
can_move installed removed = true
can_move initialized validated = true
can_move initialized failed = true
can_move initialized removed = true
can_move validated available = true
can_move validated failed = true
can_move validated disabled = true
can_move validated removed = true
can_move available disabled = true
can_move available failed = true
can_move available removed = true
can_move failed discovered = true
can_move failed disabled = true
can_move failed removed = true
can_move disabled available = true
can_move disabled removed = true
can_move _ _ = false

pub record CapabilityRecord : Type 0 where
  pub title : String
  pub kind : String
  pub description : String
  pub version : String
  pub status : Status
  pub source_type : String
  pub source_url : String
  pub origin : String
  pub install_method : String
  pub invoke : String
  pub install_location : String
  pub checksum : String
  pub dependencies : List String
  pub capabilities : List String
  pub acquired_at : ℕ
  pub last_validated : Option ℕ
  pub validation_note : String
  pub created_at : ℕ
  pub updated_at : ℕ

pub record CapabilityUsage : Type 0 where
  pub capability_id : ℕ
  pub task : String
  pub result : String
  pub note : String
  pub occurred_at : ℕ

abbrev pub Capabilities : Type 0
Capabilities = Table CapabilityRecord

-- The arguments of `discover`.
pub record Candidate : Type 0 where
  pub title : String
  pub kind : String
  pub description : String
  pub version : String
  pub source_type : String
  pub source_url : String
  pub origin : String
  pub install_method : String
  pub invoke : String
  pub checksum : String
  pub dependencies : List String
  pub capabilities : List String

-- `CapabilityStore.get`
unfoldable pub get : ℕ → Exec Capabilities (ℕ × CapabilityRecord)
get = get_row "unknown capability: "

-- SELECT id FROM capabilities WHERE name = ? AND version = ?
unfoldable pub find_named : String → String → Capabilities → Option ℕ
find_named title version [] = none
find_named title version ((i, r) ∷ t) =
    if str_eq r.title title && str_eq r.version version then some i else find_named title version t

-- The row that `discover` inserts.
abbrev pub new_capability : (String → String) → ℕ → Candidate → CapabilityRecord
new_capability scrub now c = record {
  title = take_text 200 (scrub (strip c.title));
  kind = c.kind;
  description = strip c.description;
  version = strip c.version;
  status = discovered;
  source_type = strip c.source_type;
  source_url = strip c.source_url;
  origin = strip c.origin;
  install_method = strip c.install_method;
  invoke = strip c.invoke;
  install_location = "";
  checksum = strip c.checksum;
  dependencies = c.dependencies;
  capabilities = c.capabilities;
  acquired_at = now;
  last_validated = none;
  validation_note = "";
  created_at = now;
  updated_at = now;
}

-- The existing row, or the new one.
unfoldable pub reuse_or_add : Option ℕ → CapabilityRecord → Exec Capabilities (ℕ × CapabilityRecord)
reuse_or_add (some i) r = get i
reuse_or_add none r = add_row "unknown capability: " r

-- `CapabilityStore.discover`, at the time `now`
unfoldable pub discover :
    (String → String) → ℕ → Candidate → Exec Capabilities (ℕ × CapabilityRecord)
discover scrub now c = do
  raise_if (not (member c.kind capability_kinds))
      (value_error (fstring ("unknown capability kind: " ∷ c.kind ∷ [])))
  raise_if (is_blank c.title) (value_error "capability name must be non-empty")
  let r = new_capability scrub now c
  existing ← gets (find_named r.title r.version)
  reuse_or_add existing r

-- Does a move to this status count as a validation?
abbrev pub validates : Status → Bool
validates validated = true
validates available = true
validates _ = false

-- The two UPDATEs of `transition`, on the row.
abbrev pub moved : Status → String → ℕ → CapabilityRecord → CapabilityRecord
moved target reason now r = record r {
  status = target;
  validation_note = strip reason;
  updated_at = now;
  last_validated = if validates target then some now else r.last_validated;
}

-- `CapabilityStore.transition`, at the time `now`
unfoldable pub transition : ℕ → ℕ → String → String → Exec Capabilities (ℕ × CapabilityRecord)
transition now capability_id to_status reason = do
  target ←
      or_raise (parse_status to_status)
        (value_error (fstring ("unknown capability status: " ∷ to_status ∷ [])))
  row ← get capability_id
  raise_if (not (can_move row.1.status target)) (
      value_error
        (fstring ("cannot move capability " ∷ name row.1.status ∷ " -> " ∷ to_status ∷ [])))
  change_row "unknown capability: " capability_id (moved target reason now)

-- `CapabilityStore.set_invocation`, at the time `now`
unfoldable pub set_invocation : ℕ → ℕ → String → String → Exec Capabilities (ℕ × CapabilityRecord)
set_invocation now capability_id install_location invoke = do
  get capability_id
  change_row "unknown capability: " capability_id (λ r. record r {
    install_location = strip install_location;
    invoke = strip invoke;
    updated_at = now;
  })

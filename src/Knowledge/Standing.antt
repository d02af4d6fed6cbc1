-- ===== src/Knowledge/Standing.antt =====
-- The statuses of a record of src/suns_chan/knowledge.py.
use sunns_chan.Prelude.{String, Bool, Option, none, some, str_eq, if◌then◌else◌}

pub data Status : Type 0 where
  active uncertain contradicted outdated superseded rejected archived : Status

abbrev pub name : Status → String
name active = "active"
name uncertain = "uncertain"
name contradicted = "contradicted"
name outdated = "outdated"
name superseded = "superseded"
name rejected = "rejected"
name archived = "archived"

abbrev pub status_eq : Status → Status → Bool
status_eq a b = str_eq (name a) (name b)

-- The status that a text names.
unfoldable pub parse_status : String → Option Status
parse_status s =
    if str_eq s "active"
    then some active
    else if str_eq s "uncertain"
    then some uncertain
    else if str_eq s "contradicted"
    then some contradicted
    else if str_eq s "superseded"
    then some superseded
    else if str_eq s "rejected"
    then some rejected
    else if str_eq s "outdated"
    then some outdated
    else if str_eq s "archived"
    then some archived
    else none

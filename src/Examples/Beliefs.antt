-- ===== src/Examples/Beliefs.antt =====
-- Knowledge on a small table.
use sunns_chan.Prelude.{none, some, [], ◌∷◌, refl, effects, arith, is_blank, strip}
use sunns_chan.Prelude.Int.{pos}
use sunns_chan.Prelude.Table.{Rows}
use sunns_chan.Prelude.Rows.{get_row, change_row, add_row, insert_row}
use sunns_chan.State.{clamp}
use sunns_chan.Examples.{one_event}
use sunns_chan.Knowledge.{
  KnowledgeRecord, Knowledge, propose, get, require_sources, replace, link, sorted_ids,
  normalize_tags, insert_id,
}
use sunns_chan.Knowledge.Standing.{active, superseded}
use sunns_chan.Knowledge.Sources.{IsSourced, propose-IsSourced}
use sunns_chan.Knowledge.Revision.{Replaced, replace_ok}

abbrev claim : KnowledgeRecord
claim = record {
  statement = "tea is hot";
  confidence = 6000;
  source_ids = 1 ∷ [];
  status = active;
  supersedes_id = none;
  created_at = 0;
  updated_at = 0;
  reason = "";
  tags = [];
}

abbrev claims : Knowledge
claims = (1, claim) ∷ []

claim-IsSourced : IsSourced one_event claim
claim-IsSourced = record { sources = ((_, refl), tt); confidence = omega arith }

propose-IsSourced_example :
    Rows
      (IsSourced one_event)
      (propose one_event 9 "tea is green" (1 ∷ []) (pos 7000) "" [] claims).1
propose-IsSourced_example =
    propose-IsSourced one_event 9 "tea is green" (1 ∷ []) (pos 7000) "" [] claims
      (claim-IsSourced, tt)

abbrev newer : KnowledgeRecord
newer = record {
  statement = "tea is warm";
  confidence = 7000;
  source_ids = 1 ∷ [];
  status = active;
  supersedes_id = some 1;
  created_at = 9;
  updated_at = 9;
  reason = "cooled";
  tags = [];
}

replace_ok_example :
    Replaced superseded 9 1 claims
      (2, newer)
      (replace "m" "n" superseded one_event 9 1 "tea is warm"
        (1 ∷ [])
        (pos 7000)
        "cooled"
        []
        claims).1
unfolding replace link get get_row change_row add_row insert_row propose require_sources sorted_ids
    insert_id normalize_tags effects is_blank strip clamp
replace_ok_example =
    replace_ok "m" "n" superseded one_event 9 1 "tea is warm" (1 ∷ []) (pos 7000) "cooled" [] claims
      (2, newer) (omega arith, tt) refl

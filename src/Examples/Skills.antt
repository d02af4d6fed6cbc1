-- ===== src/Examples/Skills.antt =====
-- Capabilities on a small table.
use sunns_chan.Prelude.{
  ℕ, String, ◌≡◌, ◌↔◌, true, false, [], ◌∷◌, refl, ok, All, is_blank, member, fstring, lower, Keeps,
}
use sunns_chan.Prelude.Table.{Rows}
use sunns_chan.Prelude.Rules.{Onward}
use sunns_chan.Capability.{
  CapabilityRecord, Capabilities, Candidate, available, transition, set_invocation, discover,
  find_named, new_capability,
}
use sunns_chan.Capability.Usage.{
  detect_capability_gap, all_capabilities, match, sort_scored, insert_scored, score_rows, blob,
}
use sunns_chan.Capability.Tokens.{
  tokenize, keep_token, distinct, near, token_score, sum_scores, overlap,
}
use sunns_chan.Capability.Stamps.{IsStamped, available-IsStamped}
use sunns_chan.Capability.Names.{IsUnique, discover-IsUnique, discover_again}
use sunns_chan.Capability.Matching.{IsUseless, gap_iff}

abbrev candidate : Candidate
candidate = record {
  title = "pdf reader";
  kind = "tool";
  description = "reads pdf files";
  version = "1.0";
  source_type = "";
  source_url = "";
  origin = "manual";
  install_method = "";
  invoke = "";
  checksum = "";
  dependencies = [];
  capabilities = [];
}

abbrev reader : CapabilityRecord
reader = new_capability (λ s. s) 0 candidate

abbrev skills : Capabilities
skills = (1, reader) ∷ []

available-IsStamped_example :
    ((scrub : String → String) (c : Candidate)
      → Keeps (Onward (Rows IsStamped)) (discover scrub 9 c))
    × ((id : ℕ) (to_status reason : String)
        → Keeps (Onward (Rows IsStamped)) (transition 9 id to_status reason))
    × ((id : ℕ) (location invoke : String)
        → Keeps (Onward (Rows IsStamped)) (set_invocation 9 id location invoke))
available-IsStamped_example = available-IsStamped 9

discover-IsUnique_example : IsUnique (discover (λ s. s) 9 candidate skills).1
unfolding find_named
discover-IsUnique_example = discover-IsUnique (λ s. s) 9 candidate skills (refl, tt)

discover_again_example :
    (discover (λ s. s) 9 candidate (discover (λ s. s) 8 candidate []).1).1
    ≡ (discover (λ s. s) 8 candidate []).1
unfolding member is_blank
discover_again_example = discover_again (λ s. s) 8 9 candidate [] refl refl

gap_iff_example :
    (detect_capability_gap "read a pdf" skills ≡ ok true)
    ↔ All (IsUseless (tokenize "read a pdf")) (all_capabilities 500 skills)
unfolding is_blank
gap_iff_example = gap_iff "read a pdf" skills refl

-- "reading" and "read" are no common word, and yet there is no gap.
abbrev library : Capabilities
library = (1, record reader { title = "read"; description = ""; status = available }) ∷ []

near_word : detect_capability_gap "reading" library ≡ ok false
unfolding detect_capability_gap match sort_scored insert_scored score_rows all_capabilities blob
    overlap sum_scores token_score distinct near tokenize keep_token member is_blank fstring lower
near_word = refl

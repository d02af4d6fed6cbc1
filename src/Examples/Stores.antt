-- ===== src/Examples/Stores.antt =====
-- The store of curiosities on a small table.
use sunns_chan.Prelude.{◌≡◌, ok, some, member, [], ◌∷◌, refl, effects}
use sunns_chan.Prelude.Rows.{get_row, change_row}
use sunns_chan.Ledger.{require_event}
use sunns_chan.Examples.{one_event}
use sunns_chan.Curiosity.{
  Curiosity, Curiosities, new, active, answered, can_move, parse_status, confidence_after, get,
  transition, clamp as clamp_score,
}
use sunns_chan.Curiosity.Store.{Moved, transition_ok}
use sunns_chan.Autonomy.Aftermath.{caught, attempt, is_direct, move_from, move_curiosity}
use sunns_chan.Autonomy.Aftermath.Moves.{Onwards}
use sunns_chan.Autonomy.Aftermath.Quiet.{move_curiosity_lem}

abbrev question : Curiosity
question = record {
  created_at = 0;
  updated_at = 0;
  question = "why tea?";
  origin_event_id = 1;
  topic = "tea";
  importance = 5000;
  novelty = 5000;
  confidence = 4000;
  status = new;
}

abbrev questions : Curiosities
questions = (1, question) ∷ []

abbrev looked_at : Curiosity
looked_at = record question { status = active; confidence = 5000; updated_at = 9 }

transition_ok_example :
    Moved 1 9 questions (1, looked_at) (transition one_event 9 1 "active" 1 questions).1
unfolding transition parse_status get get_row can_move confidence_after clamp_score require_event
    change_row effects
transition_ok_example = transition_ok one_event 9 1 "active" 1 questions (1, looked_at) refl

move_curiosity_lem_example :
    ((move_curiosity one_event 9 (some 1) "answered" 1 questions).0 ≡ ok tt)
    × Onwards questions (move_curiosity one_event 9 (some 1) "answered" 1 questions).1
move_curiosity_lem_example = move_curiosity_lem one_event 9 (some 1) "answered" 1 questions

-- Such a curiosity is answered, by way of `active`.
answered_by_way_of_active :
    (move_curiosity one_event 9 (some 1) "answered" 1 questions).1
    ≡ (1, record question { status = answered; confidence = 6500; updated_at = 9 }) ∷ []
unfolding move_curiosity move_from attempt caught is_direct member transition parse_status get
    get_row can_move confidence_after clamp_score require_event change_row effects
answered_by_way_of_active = refl

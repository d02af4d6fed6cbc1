-- ===== src/State.antt =====
-- src/suns_chan/state.py and `clamp` of src/suns_chan/textutil.py. A score is a number of
-- ten-thousandths, 0 to 10000: `clamp` rounds every stored score to four decimals.
pub mod Bounds
use sunns_chan.Prelude.{
  ℕ, String, Bool, Option, none, some, List, [], ◌∷◌, if◌then◌else◌, str_eq, ltb, min, strip, lower,
  refl, ◌≡◌,
}
use sunns_chan.Prelude.Int.{ℤ, pos, negsuc, ◌+ℤ◌, ◌-ℤ◌, pos_part}

-- `round(max(0.0, min(1.0, value)), 4)`
unfoldable pub clamp : ℤ → ℕ
clamp (pos n) = if ltb n 10000 then n else 10000
clamp (negsuc n) = 0

abbrev pub Interests : Type 0
Interests = List (String × ℕ)

pub record AgentState : Type 0 where
  pub curiosity : ℕ
  pub confidence : ℕ
  pub stress : ℕ
  pub energy : ℕ
  pub warmth : ℕ
  pub directness : ℕ
  pub rhythm : String
  pub interests : Interests

abbrev pub default_state : AgentState
default_state = record {
  curiosity = 7800;
  confidence = 5000;
  stress = 2800;
  energy = 7000;
  warmth = 5500;
  directness = 6200;
  rhythm = "steady";
  interests = [];
}

-- `AgentState.from_dict`
abbrev pub from_dict : Option AgentState → AgentState
from_dict none = default_state
from_dict (some s) = s

-- `self.interests.get(tag, 0.30)`
unfoldable pub interest : String → Interests → ℕ
interest tag [] = 3000
interest tag ((t, v) ∷ m) = if str_eq t tag then v else interest tag m

-- `self.interests[tag] = v`
unfoldable pub set_interest : String → ℕ → Interests → Interests
set_interest tag v [] = (tag, v) ∷ []
set_interest tag v ((t, w) ∷ m) = if str_eq t tag then (t, v) ∷ m else (t, w) ∷ set_interest tag v m

unfoldable pub express_one : String → Interests → Interests
unfolding interest
express_one tag m =
    let normalized = lower (strip tag) in
    if str_eq normalized ""
    then m
    else set_interest normalized (clamp (pos (interest normalized m) +ℤ pos 400)) m

unfoldable pub express_all : List String → Interests → Interests
unfolding express_one
express_all [] m = m
express_all (tag ∷ tags) m = express_all tags (express_one tag m)

unfoldable pub express_interest : List String → AgentState → AgentState
unfolding express_all
express_interest tags s = record s { interests = express_all tags s.interests }

unfoldable pub adjust_for_outcome : String → AgentState → AgentState
adjust_for_outcome outcome s =
    if str_eq outcome "success"
    then record s {
      confidence = clamp (pos s.confidence +ℤ pos 600);
      stress = clamp (pos s.stress -ℤ pos 400);
      energy = clamp (pos s.energy -ℤ pos 200);
    }
    else if str_eq outcome "failure"
    then record s {
      confidence = clamp (pos s.confidence -ℤ pos 700);
      stress = clamp (pos s.stress +ℤ pos 800);
      curiosity = clamp (pos s.curiosity +ℤ pos 300);
    }
    else record s { confidence = clamp (pos s.confidence -ℤ pos 100) }

unfoldable pub learn_from_outcome : String → List String → AgentState → AgentState
unfolding adjust_for_outcome express_interest
learn_from_outcome outcome tags s = express_interest tags (adjust_for_outcome outcome s)

-- ===== src/State/Bounds.antt =====
-- The range of the scores of src/suns_chan/state.py.
use sunns_chan.Prelude.{
  ℕ, ◌≤◌, String, List, [], ◌∷◌, All, arith, str_eq, Bool-cases, inl, inr, strip, lower,
}
use sunns_chan.Prelude.Int.{ℤ, pos, negsuc}
use sunns_chan.State.{
  AgentState, Interests, clamp, set_interest, express_one, express_all, express_interest,
  adjust_for_outcome, learn_from_outcome,
}

abbrev pub IsScore : ℕ → Type 0
IsScore n = n ≤ 10000

pub record IsValid (s : AgentState) : Type 0 where
  pub curiosity : IsScore s.curiosity
  pub confidence : IsScore s.confidence
  pub stress : IsScore s.stress
  pub energy : IsScore s.energy
  pub warmth : IsScore s.warmth
  pub directness : IsScore s.directness
  pub interests : All (λ e. IsScore e.1) s.interests

pub clamp_bounds : (z : ℤ) → clamp z ≤ 10000
unfolding clamp
clamp_bounds (pos n) = ground arith
clamp_bounds (negsuc n) = omega arith

set_interest-IsScore :
    (tag : String) (v : ℕ) (m : Interests)
    → IsScore v
    → All (λ e. IsScore e.1) m
    → All (λ e. IsScore e.1) (set_interest tag v m)
unfolding set_interest
set_interest-IsScore tag v [] hv h = (hv, tt)
set_interest-IsScore tag v ((t, w) ∷ m) hv h = ground (arith, set_interest-IsScore tag v m hv h.1)

express_one-IsScore :
    (tag : String) (m : Interests)
    → All (λ e. IsScore e.1) m
    → All (λ e. IsScore e.1) (express_one tag m)
unfolding express_one
express_one-IsScore tag m h =
    let t = lower (strip tag) in
    elim (Bool-cases (str_eq t "")) [
      | inl blank ↦ rw blank h
      | inr word ↦ rw word (set_interest-IsScore t _ m (clamp_bounds _) h)
    ]

express_all-IsScore :
    (tags : List String) (m : Interests)
    → All (λ e. IsScore e.1) m
    → All (λ e. IsScore e.1) (express_all tags m)
unfolding express_all
express_all-IsScore [] m h = h
express_all-IsScore (tag ∷ tags) m h =
    express_all-IsScore tags (express_one tag m) (express_one-IsScore tag m h)

adjust_for_outcome-IsValid :
    (outcome : String) (s : AgentState) → IsValid s → IsValid (adjust_for_outcome outcome s)
unfolding adjust_for_outcome
adjust_for_outcome-IsValid outcome s h = grind (arith, clamp_bounds)

-- Expressing interests keeps every score between 0 and 1.
pub express_interest-IsValid :
    (tags : List String) (s : AgentState) → IsValid s → IsValid (express_interest tags s)
unfolding express_interest
express_interest-IsValid tags s h = record {
  curiosity = h.curiosity;
  confidence = h.confidence;
  stress = h.stress;
  energy = h.energy;
  warmth = h.warmth;
  directness = h.directness;
  interests = express_all-IsScore tags s.interests h.interests;
}

-- From a state whose scores all lie between 0 and 1, whatever the outcome and the tags, learning
-- leaves every score, and every interest, between 0 and 1.
pub learn_from_outcome-IsValid :
    (outcome : String) (tags : List String) (s : AgentState)
    → IsValid s
    → IsValid (learn_from_outcome outcome tags s)
unfolding learn_from_outcome
learn_from_outcome-IsValid outcome tags s h =
    express_interest-IsValid tags (adjust_for_outcome outcome s)
      (adjust_for_outcome-IsValid outcome s h)

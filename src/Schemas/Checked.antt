-- ===== src/Schemas/Checked.antt =====
-- The decisions that src/suns_chan/schemas.py returns, against the checks of `AgentCore.turn`.
use sunns_chan.Prelude.{
  ℕ, suc, String, ◌≡◌, refl, Bool, true, false, ◌&&◌, Option, none, some, List, arith, inl, inr,
  is_blank, All, Result-cases, Bool-cases, ap, Result, ok, err,
}
use mathlib.Core.Option.{some-injective}
use sunns_chan.Prelude.Int.{ℤ, pos, leb_ℤ}
use sunns_chan.Prelude.Json.{
  Json, null, bool, int, float, text, arr, obj, Items, nil, cons, Fields, get_field, as_number,
}
use sunns_chan.Core.{Decision, GoalProposal}
use sunns_chan.Schemas.{
  and_then, as_filled, or_error, require_str, require_confidence, as_text, parse_goal,
  parse_goal_items, parse_goals, parse_tag_items, parse_tags, parse_fields, check_outcome,
  parse_decision, parse_decision_json,
}

-- A number from 0 to 1, in ten-thousandths.
abbrev pub is_share : ℤ → Bool
is_share z = leb_ℤ (pos 0) z && leb_ℤ z (pos 10000)

-- The check of `open_goals` on one goal.
abbrev pub IsGoal : GoalProposal → Type 0
IsGoal g = (is_blank g.title ≡ false) × (is_share g.priority ≡ true)

pub record IsChecked (d : Decision) : Type 0 where
  pub response : is_blank d.response ≡ false
  pub confidence : (z : ℤ) × (as_number d.confidence ≡ some z) × (is_share z ≡ true)
  pub goals : All IsGoal d.goals
  pub tags : All (λ t. is_blank t ≡ false) d.interest_tags

-- A success of a chain is one of each of its halves.
pub and_then_ok :
    {A B : Type 0} (r : Result A) (f : A → Result B) (b : B)
    → and_then r f ≡ ok b
    → (a : A) × (r ≡ ok a) × (f a ≡ ok b)
unfolding and_then
and_then_ok (ok a) f b h = (a, refl, h)
and_then_ok (err e) f b h = cc

as_filled-some : (v : Option Json) (s : String) → as_filled v ≡ some s → is_blank s ≡ false
unfolding as_filled
as_filled-some v s h = ground arith

pub or_error_ok :
    {A : Type 0} (o : Option A) (m : String) (a : A) → or_error o m ≡ ok a → o ≡ some a
or_error_ok none m a h = cc
or_error_ok (some b) m a h = cc

require_str_ok : (fs : Fields) (key s : String) → require_str fs key ≡ ok s → is_blank s ≡ false
unfolding require_str
require_str_ok fs key s h = as_filled-some (get_field fs key) s (or_error_ok _ _ s h)

require_confidence_ok :
    (v : Json) (key : String) (z : ℤ) → require_confidence v key ≡ ok z → is_share z ≡ true
unfolding require_confidence
require_confidence_ok v key z h = ground arith

pub ok_eq : {A : Type 0} {a b : A} → ◌≡◌ {A = Result A} (ok a) (ok b) → a ≡ b
ok_eq h = cc

parse_goal_ok : (index : ℕ) (v : Json) (g : GoalProposal) → parse_goal index v ≡ ok g → IsGoal g
unfolding parse_goal
parse_goal_ok index (obj item) g h =
    let (title, ht, h1) = and_then_ok _ _ g h in
    let (reason, hr, h2) = and_then_ok _ _ g h1 in
    let (priority, hp, h3) = and_then_ok _ _ g h2 in
    rw⁻¹ (ok_eq h3) (require_str_ok _ _ _ ht, require_confidence_ok _ _ _ hp)
parse_goal_ok index null g h = cc
parse_goal_ok index (bool _) g h = cc
parse_goal_ok index (int _) g h = cc
parse_goal_ok index (float _) g h = cc
parse_goal_ok index (text _) g h = cc
parse_goal_ok index (arr _) g h = cc

parse_goal_items_ok :
    (index : ℕ) (items : Items) (gs : List GoalProposal)
    → parse_goal_items index items ≡ ok gs
    → All IsGoal gs
unfolding parse_goal_items
parse_goal_items_ok index nil gs h = rw⁻¹ (ok_eq h) tt
parse_goal_items_ok index (cons item items) gs h =
    let (goal, hg, h1) = and_then_ok _ _ gs h in
    let (goals, hs, h2) = and_then_ok _ _ gs h1 in
    rw⁻¹ (ok_eq h2)
      (parse_goal_ok index item goal hg, parse_goal_items_ok (suc index) items goals hs)

parse_goals_ok : (v : Json) (gs : List GoalProposal) → parse_goals v ≡ ok gs → All IsGoal gs
unfolding parse_goals
parse_goals_ok null gs h = rw⁻¹ (ok_eq h) tt
parse_goals_ok (arr items) gs h = parse_goal_items_ok 0 items gs h
parse_goals_ok (bool _) gs h = absurd (cc h)
parse_goals_ok (int _) gs h = absurd (cc h)
parse_goals_ok (float _) gs h = absurd (cc h)
parse_goals_ok (text _) gs h = absurd (cc h)
parse_goals_ok (obj _) gs h = absurd (cc h)

abbrev IsTag : String → Type 0
IsTag t = is_blank t ≡ false

parse_tag_items_ok :
    (items : Items) (ts : List String) → parse_tag_items items ≡ ok ts → All IsTag ts
unfolding parse_tag_items
parse_tag_items_ok nil ts h = rw⁻¹ (ok_eq h) tt
parse_tag_items_ok (cons (text t) items) ts h =
    let (tags, hs, h1) = and_then_ok _ _ ts h in
    rw⁻¹ (ok_eq h1) (elim (Bool-cases (is_blank t)) [
      | inl e ↦ rw e (parse_tag_items_ok items tags hs)
      | inr e ↦ rw e (e, parse_tag_items_ok items tags hs)
    ])
parse_tag_items_ok (cons null items) ts h = absurd (cc h)
parse_tag_items_ok (cons (bool _) items) ts h = absurd (cc h)
parse_tag_items_ok (cons (int _) items) ts h = absurd (cc h)
parse_tag_items_ok (cons (float _) items) ts h = absurd (cc h)
parse_tag_items_ok (cons (arr _) items) ts h = absurd (cc h)
parse_tag_items_ok (cons (obj _) items) ts h = absurd (cc h)

parse_tags_ok : (v : Json) (ts : List String) → parse_tags v ≡ ok ts → All IsTag ts
unfolding parse_tags
parse_tags_ok null ts h = rw⁻¹ (ok_eq h) tt
parse_tags_ok (arr items) ts h = parse_tag_items_ok items ts h
parse_tags_ok (bool _) ts h = absurd (cc h)
parse_tags_ok (int _) ts h = absurd (cc h)
parse_tags_ok (float _) ts h = absurd (cc h)
parse_tags_ok (text _) ts h = absurd (cc h)
parse_tags_ok (obj _) ts h = absurd (cc h)

parse_fields_ok : (fs : Fields) (d : Decision) → parse_fields fs ≡ ok d → IsChecked d
unfolding parse_fields
parse_fields_ok fs d h =
    let (response, hr, h1) = and_then_ok _ _ d h in
    let (action, ha, h2) = and_then_ok _ _ d h1 in
    let (goals, hg, h3) = and_then_ok _ _ d h2 in
    let (tags, ht, h4) = and_then_ok _ _ d h3 in
    let (confidence, hc, h5) = and_then_ok _ _ d h4 in
    rw⁻¹ (ok_eq h5) (record {
      response = require_str_ok _ _ _ hr;
      confidence = (confidence, refl, require_confidence_ok _ _ _ hc);
      goals = parse_goals_ok _ goals hg;
      tags = parse_tags_ok _ tags ht;
    })

-- A decision that `parse_decision` accepts meets each check that a turn makes of a decision: the response
-- is not blank, the confidence is a number from 0 to 1, and every goal has a title that is not blank
-- and a priority from 0 to 1; and none of its interest tags is blank.
pub parse_decision_ok : (v : Json) (d : Decision) → parse_decision v ≡ ok d → IsChecked d
unfolding parse_decision
parse_decision_ok (obj fs) d h = parse_fields_ok fs d h
parse_decision_ok null d h = absurd (cc h)
parse_decision_ok (bool _) d h = absurd (cc h)
parse_decision_ok (int _) d h = absurd (cc h)
parse_decision_ok (float _) d h = absurd (cc h)
parse_decision_ok (text _) d h = absurd (cc h)
parse_decision_ok (arr _) d h = absurd (cc h)

as_text-some : (v : Json) (s : String) → as_text v ≡ some s → v ≡ text s
unfolding as_text
as_text-some (text t) s h = ap text (some-injective t s h)
as_text-some null s h = absurd (cc h)
as_text-some (bool _) s h = absurd (cc h)
as_text-some (int _) s h = absurd (cc h)
as_text-some (float _) s h = absurd (cc h)
as_text-some (arr _) s h = absurd (cc h)
as_text-some (obj _) s h = absurd (cc h)

check_outcome_ok :
    (c d : Decision)
    → check_outcome c ≡ ok d
    → (c ≡ d) × ((s : String) × (d.expected_outcome ≡ text s))
unfolding check_outcome
check_outcome_ok c d h =
    let (s, hs, same) = and_then_ok (or_error (as_text c.expected_outcome) _) _ d h in
    let e : c ≡ d = ok_eq same in
    (e, (s, rw⁻¹ e (as_text-some c.expected_outcome s (or_error_ok _ _ s hs))))

-- Whatever the decoder does, a decision that `parse_decision_json` returns meets the checks of a turn
-- too, and its expected outcome is a text.
pub parse_decision_json_ok :
    (loads : String → Result Json) (t : String) (d : Decision)
    → parse_decision_json loads t ≡ ok d
    → IsChecked d × ((s : String) × (d.expected_outcome ≡ text s))
unfolding parse_decision_json
parse_decision_json_ok loads t d h = elim (Result-cases (loads t)) [
  | inr (e, failed) ↦ absurd (cc (rw (parse_decision_json, failed) at h))
  | inl (v, done) ↦
      let (c, hc, checked) =
        and_then_ok (parse_decision v) _ d (rw (parse_decision_json, done) at h) in
      let (same, outcome) = check_outcome_ok c d checked in
      (rw⁻¹ same (parse_decision_ok v c hc), outcome)
]

-- ===== src/Autonomy/Aftermath/Goals.antt =====
-- `_evolve_blocked_goal` of src/suns_chan/autonomy.py.
use sunns_chan.Prelude.{ℕ, String, ◌≡◌, false, some, ok, effects}
use sunns_chan.Ledger.{Ledger}
use sunns_chan.Core.{close_goal}
use sunns_chan.Core.Goals.{is_active, close_goal-inactive}
use sunns_chan.Autonomy.Aftermath.{blocked, open_refined, evolve_blocked_goal}
use sunns_chan.Autonomy.Aftermath.Attempts.{attempt_failed-then}

-- A goal that is not active has no follow-up, and nothing is written about it.
evolve_blocked_goal-inactive :
    (goal_id : ℕ) (title : String) (experience_id : ℕ) (l : Ledger)
    → is_active l goal_id ≡ false
    → evolve_blocked_goal (some goal_id) title experience_id l ≡ (ok tt, l)
unfolding evolve_blocked_goal open_refined effects
evolve_blocked_goal-inactive goal_id title experience_id l h =
    attempt_failed-then (close_goal goal_id (blocked experience_id))
      (open_refined goal_id title experience_id) l l _
      (close_goal-inactive goal_id (blocked experience_id) l h)

-- ===== src/Curiosity/Lifecycle.antt =====
-- The lifecycle table `_TRANSITIONS` of src/suns_chan/curiosity.py, as a relation between statuses.
use sunns_chan.Prelude.{subst, ◌≡◌, ◌≢◌, refl, true, arith}
use sunns_chan.Curiosity.{
  Status, new, active, investigating, answered, abandoned, reopened, can_move,
}

-- One or more moves.
pub data Reaches (s : Status) : Status → Type 0 where
  move : {t : Status} → can_move s t ≡ true → Reaches s t
  then_move : {t u : Status} → Reaches s t → can_move t u ≡ true → Reaches s u

not-can_move-new : (s : Status) → ¬ (can_move s new ≡ true)
unfolding can_move
not-can_move-new s h = ground arith

-- No move ever leads back to `new`.
pub not-Reaches-new : {s t : Status} → Reaches s t → t ≢ new
unfolding can_move
not-Reaches-new {s} {t} (move h) = λ e. not-can_move-new s (subst (λ u. can_move s u ≡ true) e h)
not-Reaches-new (then_move {t = t} r h) =
    λ e. not-can_move-new t (subst (λ u. can_move t u ≡ true) e h)

-- From every status each of the other five can be reached, so no curiosity is stuck for good.
pub Reaches-answered : (s : Status) → Reaches s answered
unfolding can_move
Reaches-answered new = then_move (move {t = active} refl) refl
Reaches-answered active = move refl
Reaches-answered investigating = move refl
Reaches-answered answered = then_move (move {t = reopened} refl) refl
Reaches-answered abandoned = then_move (move {t = reopened} refl) refl
Reaches-answered reopened = move refl

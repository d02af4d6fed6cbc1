-- ===== src/Capability/Lifecycle.antt =====
-- The lifecycle table `_TRANSITIONS` of src/suns_chan/capability.py, as a relation between statuses.
use sunns_chan.Prelude.{◌≡◌, ◌≢◌, refl, true, arith}
use sunns_chan.Capability.{Status, validated, available, failed, disabled, removed, can_move}

-- One or more moves, none of which leads into the status `avoided`.
pub data ReachesAvoiding (avoided s : Status) : Status → Type 0 where
  move : {t : Status} → can_move s t ≡ true → t ≢ avoided → ReachesAvoiding avoided s t
  then_move :
      {t u : Status}
      → ReachesAvoiding avoided s t
      → can_move t u ≡ true
      → u ≢ avoided
      → ReachesAvoiding avoided s u

not-can_move-removed : (t : Status) → ¬ (can_move removed t ≡ true)
unfolding can_move
not-can_move-removed t h = ground arith

-- A removed capability stays removed: no sequence of moves leaves that status.
pub not-Reaches-of-removed : (avoided t : Status) → ¬ ReachesAvoiding avoided removed t
not-Reaches-of-removed avoided t (move h _) = not-can_move-removed t h
not-Reaches-of-removed avoided t (then_move r h _) = not-Reaches-of-removed avoided _ r

-- By failing, being disabled, and being enabled again.
by_failing : (s : Status) → can_move s failed ≡ true → ReachesAvoiding validated s available
unfolding can_move
by_failing s h =
    then_move {t = disabled} (then_move (move {t = failed} h (λ e. cc)) refl (λ e. cc)) refl
      (λ e. cc)

-- From every status but `removed` a capability can become available by moves none of which makes it
-- validated.
pub available_without_validation :
    (s : Status) → s ≢ removed → ReachesAvoiding validated s available
unfolding can_move
available_without_validation disabled h = move refl (λ e. cc)
available_without_validation failed h =
    then_move (move {t = disabled} refl (λ e. cc)) refl (λ e. cc)
available_without_validation removed h = absurd (h refl)
available_without_validation s h = by_failing s refl

-- ===== src/Session/Resume.antt =====
-- `save` and `open_or_create` of src/suns_chan/session.py, together.
use sunns_chan.Prelude.{
  ℕ, String, ◌≡◌, refl, true, false, some, arith, is_blank, member, str_eq, ok, effects,
}
use sunns_chan.Prelude.Dict.{find, put, find-put, find-put_other}
use sunns_chan.Prelude.Json.{get_field, get_field_or}
use sunns_chan.Session.{
  AutonomySession, SessionRow, SessionStore, session_statuses, state_of, to_session, save, reopen,
  open_or_create,
}

-- What `save` writes is read back as it was.
to_session_of_state :
    (now : ℕ) (s : AutonomySession)
    → to_session s.session_id
        (record { status = s.status; state_json = state_of s; updated_at = now })
      ≡ s
unfolding to_session get_field_or get_field
to_session_of_state now s = refl

save_known :
    (now : ℕ) (s : AutonomySession) (t : SessionStore)
    → member s.status session_statuses ≡ true
    → save now s t ≡ (
      ok tt,
      put s.session_id (record { status = s.status; state_json = state_of s; updated_at = now }) t,
    )
unfolding save effects
save_known now s t h = rw h refl

open_found :
    (now : ℕ) (id : String) (t : SessionStore) (row : SessionRow)
    → is_blank id ≡ false
    → find id t ≡ some row
    → open_or_create now id t ≡ (ok (to_session id row), t)
unfolding open_or_create reopen effects
open_found now id t row named h = rw (named, h) refl

-- A session with an id that is not blank and a known status, saved and opened again, at whatever
-- times, is the session that was saved, and opening it changes nothing.
pub open_or_create-save :
    (now later : ℕ) (s : AutonomySession) (t : SessionStore)
    → is_blank s.session_id ≡ false
    → member s.status session_statuses ≡ true
    → open_or_create later s.session_id (save now s t).1 ≡ (ok s, (save now s t).1)
unfolding to_session get_field_or get_field
open_or_create-save now later s t named known = rw (save_known now s t known) (
    open_found later s.session_id _ _ named (
      find-put s.session_id
        (record { status = s.status; state_json = state_of s; updated_at = now }) t))

-- Saving a session leaves every other one as it was.
pub save_others :
    (now : ℕ) (s : AutonomySession) (t : SessionStore) (id : String)
    → str_eq s.session_id id ≡ false
    → find id (save now s t).1 ≡ find id t
unfolding save effects
save_others now s t id h = ground (
  arith,
  find-put_other s.session_id id
      (record { status = s.status; state_json = state_of s; updated_at = now }) t h,
)

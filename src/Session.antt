-- ===== src/Session.antt =====
-- src/suns_chan/session.py: the sessions of the autonomy engine. The column `state_json` is kept as
-- the object that it encodes, and a state field has any JSON value, since nothing checks it.
pub mod Resume
use sunns_chan.Prelude.{
  ℕ, String, Bool, true, false, not, Option, none, some, List, [], ◌∷◌, if◌then◌else◌, leb, member,
  select, map, is_blank, fstring, Error, value_error, Result, ok, err, Exec, pure, raise_if, gets,
  modify, ◌>>=◌, ◌>>◌,
}
use sunns_chan.Prelude.Dict.{Dict, find, put}
use sunns_chan.Prelude.Int.{pos}
use sunns_chan.Prelude.Json.{Json, int, text, arr, obj, nil, Fields, end, field, get_field_or}

-- `SESSION_STATUSES`
abbrev pub session_statuses : List String
session_statuses =
    "idle" ∷ "assessing" ∷ "thinking" ∷ "generating" ∷ "selecting" ∷ "preparing" ∷ "executing"
    ∷ "observing" ∷ "recording" ∷ "reflecting" ∷ "updating" ∷ "waiting" ∷ "paused" ∷ "completed"
    ∷ "failed" ∷ "aborted" ∷ []

pub record AutonomySession : Type 0 where
  pub session_id : String
  pub status : String
  pub current_activity : Json
  pub hypothesis : Json
  pub attempt_signatures : Json
  pub avoid_keys : Json
  pub recent_keys : Json
  pub last_selection : Json
  pub activity_counter : Json
  pub pending : Json

-- A session with the defaults of the class.
abbrev pub new_session : String → AutonomySession
new_session session_id = record {
  session_id = session_id;
  status = "idle";
  current_activity = obj end;
  hypothesis = text "";
  attempt_signatures = arr nil;
  avoid_keys = arr nil;
  recent_keys = arr nil;
  last_selection = obj end;
  activity_counter = int (pos 0);
  pending = arr nil;
}

-- A row of the table, whose key is the session's id.
pub record SessionRow : Type 0 where
  pub status : String
  pub state_json : Fields
  pub updated_at : ℕ

abbrev pub SessionStore : Type 0
SessionStore = Dict SessionRow

-- The dict that `save` writes.
abbrev pub state_of : AutonomySession → Fields
state_of s = field "current_activity" s.current_activity (
    field "hypothesis" s.hypothesis (
      field "attempt_signatures" s.attempt_signatures (
        field "avoid_keys" s.avoid_keys (
          field "recent_keys" s.recent_keys (
            field "last_selection" s.last_selection
              (field "activity_counter" s.activity_counter (field "pending" s.pending end)))))))

-- `SessionStore._to_session`
unfoldable pub to_session : String → SessionRow → AutonomySession
to_session session_id row = record {
  session_id = session_id;
  status = row.status;
  current_activity = get_field_or row.state_json "current_activity" (obj end);
  hypothesis = get_field_or row.state_json "hypothesis" (text "");
  attempt_signatures = get_field_or row.state_json "attempt_signatures" (arr nil);
  avoid_keys = get_field_or row.state_json "avoid_keys" (arr nil);
  recent_keys = get_field_or row.state_json "recent_keys" (arr nil);
  last_selection = get_field_or row.state_json "last_selection" (obj end);
  activity_counter = get_field_or row.state_json "activity_counter" (int (pos 0));
  pending = get_field_or row.state_json "pending" (arr nil);
}

-- `SessionStore.save`, at the time `now`
unfoldable pub save : ℕ → AutonomySession → Exec SessionStore (Unit {0})
save now session = do
  raise_if (not (member session.status session_statuses))
      (value_error (fstring ("unknown session status: " ∷ session.status ∷ [])))
  modify (
      put session.session_id
        (record { status = session.status; state_json = state_of session; updated_at = now }))

-- What `open_or_create` does with the row that it found or not.
unfoldable pub reopen : ℕ → String → Option SessionRow → Exec SessionStore AutonomySession
reopen now session_id (some row) = pure (to_session session_id row)
reopen now session_id none = do save now (new_session session_id); pure (new_session session_id)

-- `SessionStore.open_or_create`
unfoldable pub open_or_create : ℕ → String → Exec SessionStore AutonomySession
open_or_create now session_id = do
  raise_if (is_blank session_id) (value_error "session_id must be non-empty")
  row ← gets (find session_id)
  reopen now session_id row

abbrev pub ended : List String
ended = "completed" ∷ "failed" ∷ "aborted" ∷ []

-- ORDER BY updated_at DESC; rows with one time keep their order.
unfoldable pub insert_recent :
    String × SessionRow → List (String × SessionRow) → List (String × SessionRow)
insert_recent x [] = x ∷ []
insert_recent x (y ∷ ys) =
    if leb y.1.updated_at x.1.updated_at then x ∷ y ∷ ys else y ∷ insert_recent x ys

unfoldable pub sort_recent : List (String × SessionRow) → List (String × SessionRow)
sort_recent [] = []
sort_recent (x ∷ xs) = insert_recent x (sort_recent xs)

-- `SessionStore.list_open`
unfoldable pub list_open : SessionStore → List AutonomySession
list_open t =
    map (λ x. to_session x.0 x.1) (sort_recent (select (λ x. not (member x.1.status ended)) t))

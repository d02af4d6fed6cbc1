-- ===== src/Autonomy/Sessions.antt =====
-- The sessions that src/suns_chan/autonomy.py halts and resumes.
use sunns_chan.Prelude.{
  ℕ, ◌+◌, ◌*◌, ◌≤◌, suc, String, Bool, true, false, ◌&&◌, ◌≡◌, refl, sym, ap, ◌∙◌, some, List, [],
  ◌∷◌, arith, if◌then◌else◌, ltb, leb, member, str_eq, is_blank, Result, ok, Keeps, value_error,
  Exec, pure, raise_if, effects, inl, inr, Bool-cases, eq_iff, All, ◌||◌,
}
use sunns_chan.Prelude.Json.{Json, obj, end}
use sunns_chan.Prelude.Dict.{find, put}
use sunns_chan.Prelude.Returns.{bind_ok}
use sunns_chan.Prelude.Rules.{keeps_rules, >>=-eq-ok}
use sunns_chan.Ledger.History.{IsLater, IsLater-refl, IsLater-trans, record_event-IsLater}
use sunns_chan.Experience.{ExperienceFields, record_experience}
use sunns_chan.Session.{
  AutonomySession, SessionRow, open_or_create, reopen, to_session, save, state_of,
}
use sunns_chan.Ledger.{Ledger}
use sunns_chan.Autonomy.{
  Engine, StepReport, on_sessions, on_ledger, set_status, start_session, is_halted, loop,
  finish_run, run, resume_session, recovery, recover, RecoveryInfo, interruption_event,
  interrupted_experience,
}

-- What fails for every text of a list fails for each member of it.
member-All :
    (p : String → Bool) (s : String) (xs : List String)
    → All (λ x. p x ≡ false) xs
    → member s xs ≡ true
    → p s ≡ false
unfolding member
member-All p s [] h m = cc
member-All p s (x ∷ xs) h m = elim (Bool-cases (str_eq s x)) [
  | inl e ↦ let same : s ≡ x = (eq_iff s x).0 e in ap p same ∙ h.0
  | inr e ↦ member-All p s xs h.1 (sym (ap (λ b. b || member s xs) e) ∙ m)
]

not_idle : (s : String) → is_halted s ≡ true → str_eq s "idle" ≡ false
not_idle s =
    member-All (λ x. str_eq x "idle") s ("paused" ∷ "aborted" ∷ "completed" ∷ "failed" ∷ [])
      (refl, (refl, (refl, (refl, tt))))

abbrev pub ended : List String
ended = "completed" ∷ "failed" ∷ "aborted" ∷ []

abbrev pub resting : List String
resting = "paused" ∷ "waiting" ∷ "idle" ∷ []

not_resting : (s : String) → member s ended ≡ true → member s resting ≡ false
unfolding member
not_resting s = member-All (λ x. member x resting) s ended (refl, (refl, (refl, tt)))

last_branch :
    {S A : Type 0} (b c : Bool) (x y z : Exec S A) (s : S)
    → b ≡ false
    → c ≡ false
    → (if b then x else if c then y else z) s ≡ z s
last_branch b c x y z s p q = rw (p, q) refl

record_experience-IsLater : (x : ExperienceFields) → Keeps IsLater (record_experience x)
unfolding record_experience
record_experience-IsLater x =
    search (keeps_rules, IsLater-refl, IsLater-trans, record_event-IsLater) depth 9

module _ {S : Type 0} (now : ℕ) (session_id : String) (row : SessionRow) (e : Engine S)
    (named : is_blank session_id ≡ false) (found : find session_id e.sessions ≡ some row) where
  opened :
      on_sessions {S = S} (open_or_create now session_id) e ≡ (ok (to_session session_id row), e)
  unfolding on_sessions open_or_create reopen effects
  opened = rw (named, found) refl

  unannounced :
      (b : Bool) (m : Exec (Engine S) (Unit {0}))
      → str_eq row.status "idle" ≡ false
      → (if str_eq row.status "idle" && b then m else pure tt) e ≡ (ok tt, e)
  unfolding pure
  unannounced b m h = rw h refl

  halted_start :
      is_halted row.status ≡ true
      → start_session now session_id e ≡ (ok (to_session session_id row), e)
  unfolding start_session to_session
  halted_start h =
      bind_ok _ _ e e (to_session session_id row) opened
      ∙ bind_ok _ _ e e tt (unannounced _ _ (not_idle row.status h))
      ∙ opened

  halted_loop :
      (fuel most : ℕ) (step : AutonomySession → Exec (Engine S) StepReport)
      → is_halted row.status ≡ true
      → leb most 0 ≡ false
      → loop (suc fuel) now session_id most step 0 0 [] e ≡ (ok (some (0, [])), e)
  unfolding loop pure to_session
  halted_loop fuel most step h l =
      rw l (bind_ok _ _ e e (to_session session_id row) opened ∙ rw h refl)

  halted_finish :
      (most : ℕ)
      → is_halted row.status ≡ true
      → finish_run {S = S} now session_id most (some (0, [])) e ≡ (
        ok (
            some (record {
              session_id = session_id;
              activities_completed = 0;
              status = row.status;
              steps = [];
            })),
        e,
      )
  unfolding finish_run pure to_session
  halted_finish most h =
      bind_ok _ _ e e (to_session session_id row) opened ∙ rw (not_idle row.status h) refl

  passed :
      (most : ℕ)
      → ltb most 1 ≡ false
      → raise_if {S = Engine S} (ltb most 1) (value_error "max_activities must be at least 1") e
        ≡ (ok tt, e)
  unfolding raise_if pure
  passed most h = rw h refl

  -- A session that is paused, aborted, completed or failed is not worked on: a run reports no activity and no
  -- step, and changes nothing.
  pub halted_run :
      (most : ℕ) (step : AutonomySession → Exec (Engine S) StepReport)
      → is_halted row.status ≡ true
      → 1 ≤ most
      → run now session_id step most e ≡ (
        ok (
            some (record {
              session_id = session_id;
              activities_completed = 0;
              status = row.status;
              steps = [];
            })),
        e,
      )
  unfolding run
  halted_run most step h le =
      let many : ltb most 1 ≡ false = ground arith in
      let some_left : leb most 0 ≡ false = ground arith in
      let fuel : 3 * most + 1 ≡ suc (3 * most) = omega arith in
      bind_ok _ _ e e tt (passed most many)
      ∙ bind_ok _ _ e e (to_session session_id row) (halted_start h)
      ∙ bind_ok _ _ e e (some (0, [])) (rw fuel (halted_loop (3 * most) most step h some_left))
      ∙ halted_finish most h

  -- A session that has ended is not resumed: nothing changes.
  pub ended_resume :
      member row.status ended ≡ true
      → resume_session now session_id e
        ≡ (ok (recovery session_id false row.status "session already terminal"), e)
  unfolding resume_session pure to_session
  ended_resume h =
      bind_ok _ _ e e (to_session session_id row) opened ∙ rw (not_resting row.status h, h) refl

-- The session as it is saved, idle and with the given activity.
abbrev pub idle_session : String → SessionRow → Json → AutonomySession
idle_session session_id row activity = record (to_session session_id row) {
  current_activity = activity;
  status = "idle";
}

module _ {S : Type 0} (now : ℕ) (session_id : String) (row : SessionRow) (e : Engine S) where
  abbrev pub saved_idle : Json → Ledger → Engine S
  saved_idle activity l = record e {
    sessions =
        put session_id
          (record {
            status = "idle";
            state_json = state_of (idle_session session_id row activity);
            updated_at = now;
          })
          e.sessions;
    ledger = l;
  }

  abbrev pub Replanned : RecoveryInfo → Engine S → Type 0
  Replanned info e' =
      (info ≡ recovery session_id true row.status "interruption recorded; replan required")
      × (l : Ledger) × (e' ≡ saved_idle (obj end) l)
      × IsLater e.ledger l

module _ {S : Type 0} (now : ℕ) (session_id : String) (row : SessionRow) (e : Engine S)
    (named : is_blank session_id ≡ false) (found : find session_id e.sessions ≡ some row) where
  saved :
      (activity : Json) (l : Ledger)
      → on_sessions {S = S}
          (save now (idle_session session_id row activity))
          (record e { ledger = l })
        ≡ (ok tt, saved_idle now session_id row e activity l)
  unfolding on_sessions save effects to_session member
  saved activity l = refl

  -- A session that was paused, was waiting or idle is idle afterwards, with its activity, and the ledger is the same.
  pub resting_resume :
      member row.status resting ≡ true
      → resume_session now session_id e ≡ (
        ok (recovery session_id false row.status "no interrupted activity"),
        saved_idle now session_id row e (to_session session_id row).current_activity e.ledger,
      )
  unfolding resume_session set_status pure to_session
  resting_resume h =
      bind_ok _ _ e e (to_session session_id row) (opened now session_id row e named found)
      ∙ rw h (bind_ok _ _ e _ tt (saved _ e.ledger))

  same_info : {a b : RecoveryInfo} → ◌≡◌ {A = Result RecoveryInfo} (ok a) (ok b) → a ≡ b
  same_info h = cc

  recovered_parts :
      (info : RecoveryInfo)
      → (recover now session_id (to_session session_id row) e).0 ≡ ok info
      → Replanned now session_id row e info (recover now session_id (to_session session_id row) e).1
  unfolding recover on_ledger to_session pure
  recovered_parts info h =
      let session = to_session session_id row in
      let (_, _, p) = >>=-eq-ok (on_ledger (interruption_event session_id session)) _ e h in
      let h' = ap (λ x. x.0) (sym p) ∙ h in
      let l : Ledger = (interruption_event session_id session e.ledger).1 in
      let (_, _, q) =
        >>=-eq-ok (on_ledger (record_experience (interrupted_experience session_id session))) _
          (record e { ledger = l }) h' in
      let m : Ledger = (record_experience (interrupted_experience session_id session) l).1 in
      let r =
        bind_ok (on_sessions (save now (idle_session session_id row (obj end))))
          (λ _. pure (recovery session_id true row.status "interruption recorded; replan required"))
          (record e { ledger = m }) (saved_idle now session_id row e (obj end) m) tt
          (saved (obj end) m) in
      let whole = p ∙ q ∙ r in
      (
        same_info (sym h ∙ ap (λ x. x.0) whole),
        m,
        ap (λ x. x.1) whole,
        IsLater-trans _ _ _ ((record_event-IsLater _ _ _).at e.ledger)
            ((record_experience-IsLater _).at l),
      )

  -- A session whose activity was interrupted is idle afterwards and has no activity: none is executed again. The
  -- ledger only gets rows on top, and nothing else changes.
  pub interrupted_resume :
      (info : RecoveryInfo)
      → member row.status resting ≡ false
      → member row.status ended ≡ false
      → (resume_session now session_id e).0 ≡ ok info
      → Replanned now session_id row e info (resume_session now session_id e).1
  unfolding resume_session to_session
  interrupted_resume info r n h =
      let whole : resume_session now session_id e
          ≡ recover now session_id (to_session session_id row) e =
        bind_ok _ _ e e (to_session session_id row) (opened now session_id row e named found)
        ∙ last_branch (member row.status resting) (member row.status ended) _ _
            (recover now session_id (to_session session_id row)) e r n in
      rw whole (recovered_parts info (ap (λ x. x.0) (sym whole) ∙ h))

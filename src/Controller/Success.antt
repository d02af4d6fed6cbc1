-- ===== src/Controller/Success.antt =====
-- What the outcome of a run of src/suns_chan/sandbox_controller.py says of its commands.
pub mod Body
pub mod Whole
use sunns_chan.Prelude.{
  ℕ, zero, suc, ◌+◌, String, ◌≡◌, refl, ap, ◌∙◌, sym, subst, Bool, true, false, not, ◌&&◌, Option,
  none, some, List, [], ◌∷◌, ◌++◌, length, if◌then◌else◌, str_eq, eq_iff, ◌==◌, arith, Result, ok,
  err, Exec, pure, gets, ◌>>=◌, ◌>>◌, value_error, runtime_error, not_implemented, member, raise,
  Bool-cases, inl, inr,
}
use sunns_chan.Prelude.Int.{ℤ, pos, leb_ℤ, ◌-ℤ◌}
use sunns_chan.Vm.{GuestResult, ArtifactRecord}
use sunns_chan.Proposal.{ExperimentProposal}
use sunns_chan.Controller.{
  ExperimentRecord, Setup, Attempt, on_provider, set_record, stop_with, audit, read_clock, judge,
  run_commands, history_line,
}
use sunns_chan.Controller.Run.{
  attempt, is_one_of, concluded, prepare_vm, keep_artifacts, collect_artifacts, replace_vm,
  recreate, after_restore, roll_back, experiment_body, handle_failure, destroy_vm, must_destroy,
  cleanup, experiment,
}
use sunns_chan.Controller.Yields.{
  Yields, Yields-bind, Yields-gets, Yields-attempt, Yields-attempted, Yields-if, Yields-of,
  Yields-pure, Yields-set, Yields-provider, Yields-audit, Yields-clock, Yields-read, Yields-create,
}

-- The loop goes on, and has run `n` commands.
pub record Going (n : ℕ) (r : ExperimentRecord) : Type 0 where
  pub running : r.status ≡ "running"
  pub counted : r.command_count ≡ n
  pub open_ : r.outcome ≡ "unknown"

-- The statuses of a loop that was left early.
pub data Halts : String → Type 0 where
  on_failure : Halts "failed"
  on_timeout : Halts "timeout"
  on_corruption : Halts "corrupted"
  on_cancel : Halts "cancelled"

-- The loop has run all of `n` commands, or was left early.
pub data Looped (n : ℕ) (r : ExperimentRecord) : Type 0 where
  through : Going n r → Looped n r
  halted : Halts r.status → Looped n r

module _ {S : Type 0} (u : Setup S) where
  stop :
      {P : ExperimentRecord → Type 0} (n : ℕ) (status reason : String) (h : List String)
      → Halts status
      → Yields P (Looped n) (set_record {S = S} (stop_with status reason) >> pure h)
  stop n status reason h x =
      Yields-bind {Q = Looped n} _ _ (Yields-set _ (λ r p. halted x))
        (λ _. Yields-pure h (λ r p. p))

  judge-Yields :
      (n m : ℕ) (i c : String) (g : GuestResult) (h : List String)
      (rest : Exec (Attempt S) (List String))
      → Yields (Going (n + 1)) (Looped m) rest
      → Yields (Going n) (Looped m) (judge u i c g h rest)
  unfolding judge
  judge-Yields n m i c g h rest k =
      Yields-bind {Q = Going (n + 1)} _ _
        (Yields-set _ (λ r p. record {
          running = p.running;
          counted = ap (λ x. x + 1) p.counted;
          open_ = p.open_;
        }))
        (λ _. Yields-bind _ _ (Yields-provider (u.provider.status i)) (λ st.
          Yields-if (str_eq st "corrupted") _ _ (λ _. stop m _ _ h on_corruption)
            (λ _. Yields-if (not (g.exit_code == 0)) _ _ (λ _. stop m _ _ h on_failure) (λ _. k))))

  pub run_commands-Yields :
      (n : ℕ) (i : String) (deadline : ℤ) (cs h : List String)
      → Yields (Going n) (Looped (n + length cs)) (run_commands u i deadline cs h)
  unfolding run_commands
  run_commands-Yields n i deadline [] h =
      let none_left : n ≡ n + length {A = String} [] = omega arith in
      Yields-pure h (λ r p. through (subst (λ m. Going m r) none_left p))
  run_commands-Yields n i deadline (c ∷ cs) h =
      let total : n + 1 + length cs ≡ n + suc (length cs) = omega arith in
      Yields-bind _ _ (Yields-read _) (λ count.
        Yields-if (u.cancelled count) _ _ (λ _. stop _ _ _ h on_cancel)
          (λ _. Yields-bind _ _ (Yields-clock u) (λ now.
            Yields-if (leb_ℤ (deadline -ℤ pos now) (pos 0)) _ _ (λ _. stop _ _ _ h on_timeout)
              (λ _. Yields-bind _ _ (Yields-provider _) (λ g.
                judge-Yields n (n + suc (length cs)) i c g _ _ (
                  subst
                    (λ m.
                      Yields (Going (n + 1)) (Looped m)
                        (run_commands u i deadline cs (h ++ history_line c g ∷ [])))
                    total (run_commands-Yields (n + 1) i deadline cs _)))))))

-- The record after the loop: all of `n` commands have succeeded, or the run has failed.
pub data Judged (n : ℕ) (r : ExperimentRecord) : Type 0 where
  observed : r.status ≡ "observing" → r.outcome ≡ "success" → r.command_count ≡ n → Judged n r
  missed : Halts r.status → r.outcome ≡ "failure" → Judged n r

-- The record at the end: a success is a completed run of all of `n` commands.
pub data Ended (n : ℕ) (r : ExperimentRecord) : Type 0 where
  succeeded : r.status ≡ "completed" → r.outcome ≡ "success" → r.command_count ≡ n → Ended n r
  fell : str_eq r.status "completed" ≡ false → str_eq r.outcome "success" ≡ false → Ended n r

pub concluded-Judged :
    (n : ℕ) (history : List String) (r : ExperimentRecord)
    → Looped n r
    → Judged n (concluded history r)
unfolding member
concluded-Judged n history r (through g) =
    let status : str_eq r.status "running" ≡ true = rw g.running refl in
    rw status (observed refl refl g.counted)
concluded-Judged n history r (halted h) = left r.status refl h
  where
    left : (s : String) → r.status ≡ s → Halts s → Judged n (concluded history r)
    left _ e on_failure = rw e (missed on_failure refl)
    left _ e on_timeout = rw e (missed on_timeout refl)
    left _ e on_corruption = rw e (missed on_corruption refl)
    left _ e on_cancel = rw e (missed on_cancel refl)

-- A loop that was left early has neither of these statuses.
pub Halts-ne :
    (s : String) → Halts s → (str_eq s "observing" ≡ false) × (str_eq s "completed" ≡ false)
Halts-ne _ on_failure = (refl, refl)
Halts-ne _ on_timeout = (refl, refl)
Halts-ne _ on_corruption = (refl, refl)
Halts-ne _ on_cancel = (refl, refl)

-- ===== src/Controller/Success/Whole.antt =====
-- The outcome that `run_experiment` of src/suns_chan/sandbox_controller.py returns.
use sunns_chan.Prelude.{
  ◌+◌, String, ◌≡◌, refl, subst, Bool, true, false, ◌&&◌, length, if◌then◌else◌, str_eq, arith,
  Result, ok, err, [],
}
use sunns_chan.Prelude.Int.{ℤ}
use sunns_chan.Proposal.{ExperimentProposal}
use sunns_chan.Controller.{ExperimentRecord, Setup, Attempt, run_commands}
use sunns_chan.Controller.Run.{
  experiment_body, handle_failure, destroy_vm, must_destroy, cleanup, experiment,
}
use sunns_chan.Controller.Report.{
  Lab, put_back, report, ended, run_approved, run_experiment, is_missing, is_denied,
}
use sunns_chan.Controller.Leftover.{report_to-record}
use sunns_chan.Controller.Yields.{
  Yields, Yields-bind, Yields-gets, Yields-attempt, Yields-attempted, Yields-if, Yields-pure,
  Yields-set, Yields-audit, Yields-read,
}
use sunns_chan.Controller.Success.{
  Going, Looped, Judged, Ended, fell, concluded-Judged, run_commands-Yields,
}
use sunns_chan.Controller.Success.Body.{
  Begun, prepare-Yields, collect_if-Yields, roll_back_if-Yields,
}

module _ {S : Type 0} (u : Setup S) (name : String) (p : ExperimentProposal) where
  body-Yields :
      (deadline : ℤ) (restore_after : Bool)
      → Yields Begun (Ended (length p.operations)) (experiment_body u name p deadline restore_after)
  unfolding experiment_body
  body-Yields deadline restore_after =
      let n = length p.operations in
      let all : 0 + n ≡ n = omega arith in
      Yields-bind _ _ (prepare-Yields u name p n) (λ _. Yields-bind _ _ (Yields-read _) (λ i.
        Yields-bind _ _
          (subst (λ m. Yields (Going 0) (Looped m) (run_commands u i deadline p.operations [])) all
            (run_commands-Yields u 0 i deadline p.operations []))
          (λ history.
            Yields-bind {Q = Judged n} _ _ (Yields-set _ (concluded-Judged n history)) (λ _.
              Yields-gets (λ r. r.status) _
                (λ st. Yields-bind _ _ (collect_if-Yields u name p n st) (λ _.
                  Yields-gets (λ r. r.status) _
                    (λ st'. roll_back_if-Yields u name p n st' restore_after)))))))

  cleanup-Yields :
      {P : ExperimentRecord → Type 0} (keep_vm : Bool) → Yields P P (cleanup u name keep_vm)
  unfolding cleanup destroy_vm
  cleanup-Yields keep_vm = Yields-bind _ _ (Yields-read (must_destroy keep_vm)) (λ b.
      Yields-if b _ _
        (λ _. Yields-bind _ _ (Yields-read _) (λ i. Yields-bind _ _ (Yields-read _) (λ st.
          Yields-bind _ _ (Yields-audit "destroy" i _)
            (λ _. Yields-attempted (u.provider.destroy i) _ (λ _. Yields-pure tt (λ r h. h))))))
        (λ _. Yields-pure tt (λ r h. h)))

  experiment-Yields :
      (deadline : ℤ) (restore_after keep_vm : Bool)
      → Yields Begun
          (Ended (length p.operations))
          (experiment u name p deadline restore_after keep_vm)
  unfolding experiment handle_failure
  experiment-Yields deadline restore_after keep_vm =
      Yields-attempt {Q = Ended (length p.operations)} _ _ (body-Yields deadline restore_after)
        (λ a. Yields-bind _ _ (Yields-pure tt (λ r h. h)) (λ _. cleanup-Yields keep_vm))
        (λ e. Yields-bind _ _ (Yields-set _ (λ r h. fell refl refl)) (λ _. cleanup-Yields keep_vm))

same_record : (x r : ExperimentRecord) → ◌≡◌ {A = Result ExperimentRecord} (ok x) (ok r) → x ≡ r
same_record x r h = cc

module _ {S : Type 0} (p : ExperimentProposal) where
  ended-Ended :
      (s : Lab S) (x : Result (Unit {0}) × Attempt S) (r : ExperimentRecord)
      → ((a : Unit {0}) → x.0 ≡ ok a → Ended (length p.operations) x.1.experiment)
      → (ended p s x).0 ≡ ok r
      → Ended (length p.operations) r
  unfolding report
  ended-Ended s (err e, a) r h g = cc
  ended-Ended s (ok o, a) r h g =
      subst (Ended (length p.operations))
        (report_to-record p a.experiment (put_back a s) s.ledger r g) (h o refl)

  denied-or :
      (b c : Bool) (x y z : Result ExperimentRecord × Lab S) (r : ExperimentRecord)
      → (x.0 ≡ ok r → Ended (length p.operations) r)
      → (y.0 ≡ ok r → Ended (length p.operations) r)
      → (z.0 ≡ ok r → Ended (length p.operations) r)
      → (if b then x else if c then y else z).0 ≡ ok r
      → Ended (length p.operations) r
  denied-or true c x y z r f g h = f
  denied-or false true x y z r f g h = g
  denied-or false false x y z r f g h = h

  -- Whatever the provider does, a run that returns a record with the outcome "success" has completed, and
  -- has executed as many commands as were proposed; a record with another outcome is not "completed".
  pub run_experiment-Ended :
      (u : Setup S) (restore_after keep_vm : Bool) (s : Lab S) (r : ExperimentRecord)
      → (run_experiment u p restore_after keep_vm s).0 ≡ ok r
      → Ended (length p.operations) r
  unfolding run_experiment run_approved
  run_experiment-Ended u restore_after keep_vm s r =
      denied-or (str_eq u.provider.backend "REAL" && is_missing u.approver) (is_denied u.approver p)
        _ _ _ r (λ h. absurd (cc h))
        (λ h. subst (Ended (length p.operations)) (same_record _ r h) (fell refl refl))
        (ended-Ended (record s { counter = s.counter + 1 }) _ r
          ((experiment-Yields u _ p _ restore_after keep_vm).at _ (refl, refl)))

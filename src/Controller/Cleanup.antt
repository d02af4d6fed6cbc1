-- ===== src/Controller/Cleanup.antt =====
-- What `run_experiment` of src/suns_chan/sandbox_controller.py creates, replaces and destroys.
use sunns_chan.Prelude.{
  String, ◌≡◌, refl, Bool, true, false, not, ◌&&◌, List, [], ◌∷◌, inl, inr, if◌then◌else◌, str_eq,
  message, value_error, runtime_error, not_implemented, Result, ok, err, pure, gets, ◌>>=◌, Keeps,
}
use sunns_chan.Prelude.Int.{ℤ}
use sunns_chan.Vm.{ArtifactRecord}
use sunns_chan.Proposal.{ExperimentProposal}
use sunns_chan.Controller.{Setup, Attempt, on_provider, set_record, audit, create_vm}
use sunns_chan.Controller.Provider.{IsProvider}
use sunns_chan.Controller.Run.{
  attempt, is_one_of, prepare_vm, keep_artifacts, collect_artifacts, replace_vm, recreate,
  after_restore, roll_back, experiment_body, handle_failure, destroy_vm, must_destroy, cleanup,
  experiment,
}
use sunns_chan.Prelude.Rules.{
  Onward, Onward-refl, Onward-trans, Keeps-bind, Keeps-if, Keeps-pure, Keeps-gets, Keeps-raise,
}
use sunns_chan.Controller.Triples.{
  Triple, Triple-bind, Triple-bind_always, Total, attempt-Total, Triple-attempt, Triple-of_Keeps,
  Keeps-of_Triple, Keeps-attempt,
}
use sunns_chan.Controller.Steps.{
  Accounted, Clean, Accounted-of_Clean, set_record-Safe, audit-Safe, start-Safe, wait_ready-Safe,
  snapshot-Safe, restore-Safe, collect-Safe, run_commands-Safe,
}
use sunns_chan.Controller.Creation.{
  and_true, clash, Owner, create_vm-Triple, destroyed-Clean, set_record-Clean,
}

unnamed : (b c : Bool) → not b && not false && not c ≡ false → c ≡ false → b ≡ true
unnamed true c h g = refl
unnamed false true h g = cc
unnamed false false h g = cc

module _ {S : Type 0} (u : Setup S) (is_live : S → String → Bool)
    (law : IsProvider u.provider is_live) (start : S) where
  prepare_vm-Triple :
      (name : String) (p : ExperimentProposal)
      → Triple (Clean u is_live law start) (Accounted u is_live law start) (prepare_vm u name p)
  unfolding prepare_vm
  prepare_vm-Triple name p =
      Triple-bind (set_record _) _ (set_record-Clean u is_live law start _)
        (λ _.
          Triple-bind (create_vm u name p) _ (create_vm-Triple u is_live law start name p)
            (λ _. Triple-of_Keeps _ (
              Keeps-bind Onward-trans _ _ (Keeps-gets Onward-refl _) (λ i.
                Keeps-bind Onward-trans _ _ (set_record-Safe u is_live law start _) (λ _.
                  Keeps-bind Onward-trans _ _ (audit-Safe u is_live law start _ _ _) (λ _.
                    Keeps-bind Onward-trans _ _ (start-Safe u is_live law start i) (λ _.
                      Keeps-bind Onward-trans _ _ (wait_ready-Safe u is_live law start i _) (λ _.
                        Keeps-bind Onward-trans _ _ (snapshot-Safe u is_live law start i _)
                          (λ _. set_record-Safe u is_live law start _))))))))
            (λ _ h. h))
        (Accounted-of_Clean u is_live law start)

  -- The old sandbox is destroyed before the new one is created.
  replace_vm-Safe :
      (name : String) (p : ExperimentProposal)
      → Keeps (Onward (Accounted u is_live law start)) (replace_vm u name p)
  unfolding replace_vm gets ◌>>=◌
  replace_vm-Safe name p = Keeps-of_Triple _ (record {
    at = λ a h.
        (Triple-bind (on_provider (u.provider.destroy a.sandbox_id)) _
            (destroyed-Clean u is_live law start a.sandbox_id)
            (λ _. create_vm-Triple u is_live law start name p)
            (Accounted-of_Clean u is_live law start)).at
          a (record { held = h; named = refl });
  })

  recreate-Safe :
      (name reason : String) (p : ExperimentProposal)
      → Keeps (Onward (Accounted u is_live law start)) (recreate u name p reason)
  unfolding recreate
  recreate-Safe name reason p = Keeps-bind Onward-trans _ _ (Keeps-gets Onward-refl _) (λ i.
      Keeps-bind Onward-trans _ _ (audit-Safe u is_live law start _ _ _) (λ _.
        Keeps-bind Onward-trans _ _ (replace_vm-Safe _ p) (λ _.
          Keeps-bind Onward-trans _ _ (Keeps-gets Onward-refl _) (λ j.
            Keeps-bind Onward-trans _ _ (start-Safe u is_live law start j)
              (λ _. set_record-Safe u is_live law start _)))))

  after_restore-Safe :
      (name : String) (p : ExperimentProposal) (r : Result (Unit {0}))
      → Keeps (Onward (Accounted u is_live law start)) (after_restore u name p r)
  unfolding after_restore
  after_restore-Safe name p (ok _) =
      Keeps-bind Onward-trans _ _ (set_record-Safe u is_live law start _) (λ _.
        Keeps-bind Onward-trans _ _ (Keeps-gets Onward-refl _)
          (λ i. audit-Safe u is_live law start _ _ _))
  after_restore-Safe name p (err e) = recreate-Safe name (message e) p

  roll_back-Safe :
      (name : String) (p : ExperimentProposal)
      → Keeps (Onward (Accounted u is_live law start)) (roll_back u name p)
  unfolding roll_back
  roll_back-Safe name p = Keeps-bind Onward-trans _ _ (Keeps-gets Onward-refl _) (λ i.
      Keeps-bind Onward-trans _ _ (Keeps-attempt _ (restore-Safe u is_live law start i _))
        (λ r. after_restore-Safe name p r))

  keep_artifacts-Safe :
      (r : Result (List ArtifactRecord))
      → Keeps (Onward (Accounted u is_live law start)) (keep_artifacts {S = S} r)
  unfolding keep_artifacts
  keep_artifacts-Safe (ok as') = set_record-Safe u is_live law start _
  keep_artifacts-Safe (err (value_error m)) = set_record-Safe u is_live law start _
  keep_artifacts-Safe (err (runtime_error m)) = Keeps-raise Onward-refl _
  keep_artifacts-Safe (err (not_implemented m)) = Keeps-raise Onward-refl _

  collect_artifacts-Safe :
      (name : String) (p : ExperimentProposal)
      → Keeps (Onward (Accounted u is_live law start)) (collect_artifacts u name p)
  unfolding collect_artifacts
  collect_artifacts-Safe name p = Keeps-bind Onward-trans _ _ (Keeps-gets Onward-refl _) (λ i.
      Keeps-bind Onward-trans _ _ (Keeps-attempt _ (collect-Safe u is_live law start i _ _))
        keep_artifacts-Safe)

  done-Safe :
      Keeps (Onward (Accounted u is_live law start)) (pure {S = Attempt S} {A = Unit {0}} tt)
  done-Safe = Keeps-pure Onward-refl tt

  experiment_body-Triple :
      (name : String) (p : ExperimentProposal) (deadline : ℤ) (restore_after : Bool)
      → Triple
          (Clean u is_live law start)
          (Accounted u is_live law start)
          (experiment_body u name p deadline restore_after)
  unfolding experiment_body
  experiment_body-Triple name p deadline restore_after =
      Triple-bind (prepare_vm u name p) _ (prepare_vm-Triple name p)
        (λ _. Triple-of_Keeps _ (
          Keeps-bind Onward-trans _ _ (Keeps-gets Onward-refl _) (λ i.
            Keeps-bind Onward-trans _ _
              (run_commands-Safe u is_live law start i deadline p.operations [])
              (λ h. Keeps-bind Onward-trans _ _ (set_record-Safe u is_live law start _) (λ _.
                Keeps-bind Onward-trans _ _ (Keeps-gets Onward-refl _) (λ st.
                  Keeps-bind Onward-trans _ _
                    (Keeps-if {R = Onward (Accounted u is_live law start)} (str_eq st "observing") _
                      _ (collect_artifacts-Safe name p) done-Safe)
                    (λ _. Keeps-bind Onward-trans _ _ (Keeps-gets Onward-refl _) (λ st'.
                      Keeps-if {R = Onward (Accounted u is_live law start)}
                        (is_one_of st' ("failed" ∷ "corrupted" ∷ []) && restore_after) _ _
                        (roll_back-Safe name p) done-Safe))))))))
        (λ _ h. h)

  handle_failure-Safe :
      (r : Result (Unit {0}))
      → Keeps (Onward (Accounted u is_live law start)) (handle_failure {S = S} r)
  unfolding handle_failure
  handle_failure-Safe (ok _) = Keeps-pure Onward-refl _
  handle_failure-Safe (err e) = set_record-Safe u is_live law start _

  -- Nothing of the run is left, but for a sandbox that was created again.
  pub record Swept (a : Attempt S) : Type 0 where
    pub at : str_eq a.experiment.status "recreated" ≡ false → Clean u is_live law start a

  Swept-of_Clean : (a : Attempt S) → Clean u is_live law start a → Swept a
  Swept-of_Clean a h = record { at = λ _. h }

  Clean-of_unnamed :
      (a : Attempt S)
      → Accounted u is_live law start a
      → str_eq a.sandbox_id "" ≡ true
      → Clean u is_live law start a
  Clean-of_unnamed a h e = record {
    at = λ j l. elim (h.at j l) [
      | inl old ↦ old
      | inr own ↦ clash (str_eq a.sandbox_id "") (and_true _ _ own).0 e
    ];
  }

  pure-Clean :
      Triple
        (Clean u is_live law start)
        (Clean u is_live law start)
        (pure {S = Attempt S} {A = Unit {0}} tt)
  unfolding pure
  pure-Clean = record { at = λ a h. h }

  audit-Total : (x y d : String) → Total (audit {S = S} x y d)
  unfolding audit
  audit-Total x y d = record { at = λ a. (tt, refl) }

  audit-Owner :
      (i x y d : String)
      → Triple (Owner u is_live law start i) (Owner u is_live law start i) (audit {S = S} x y d)
  unfolding audit
  audit-Owner i x y d = record {
    at = λ a h. record { held = record { at = h.held.at }; named = h.named };
  }

  destroy_vm-Triple :
      (name : String)
      → Triple (Accounted u is_live law start) (Clean u is_live law start) (destroy_vm u name)
  unfolding destroy_vm gets ◌>>=◌
  destroy_vm-Triple name = record {
    at = λ a h.
        (Triple-bind_always (audit "destroy" a.sandbox_id _) _ (audit-Total _ _ _)
            (audit-Owner a.sandbox_id _ _ _)
            (λ _.
              Triple-bind (attempt (on_provider (u.provider.destroy a.sandbox_id))) _
                (Triple-attempt _ (destroyed-Clean u is_live law start a.sandbox_id))
                (λ _. pure-Clean) (λ b c. c))).at
          a (record { held = h; named = refl });
  }

  handle_failure-Total : (r : Result (Unit {0})) → Total (handle_failure {S = S} r)
  unfolding handle_failure set_record pure
  handle_failure-Total (ok _) = record { at = λ a. (_, refl) }
  handle_failure-Total (err e) = record { at = λ a. (_, refl) }

  after_cleanup :
      (name : String) (a : Attempt S) (b : Bool)
      → must_destroy false a ≡ b
      → Accounted u is_live law start a
      → Swept ((if b then destroy_vm u name else pure tt) a).1
  unfolding pure
  after_cleanup name a true e h = Swept-of_Clean _ ((destroy_vm-Triple name).at a h)
  after_cleanup name a false e h = record {
    at = λ q.
        Clean-of_unnamed a h
          (unnamed (str_eq a.sandbox_id "") (str_eq a.experiment.status "recreated") e q);
  }

  cleanup-Triple :
      (name : String) → Triple (Accounted u is_live law start) Swept (cleanup u name false)
  unfolding cleanup gets ◌>>=◌
  cleanup-Triple name = record { at = λ a h. after_cleanup name a (must_destroy false a) refl h }

  pub experiment-Triple :
      (name : String) (p : ExperimentProposal) (deadline : ℤ) (restore_after : Bool)
      → Triple (Clean u is_live law start) Swept (experiment u name p deadline restore_after false)
  unfolding experiment
  experiment-Triple name p deadline restore_after =
      Triple-bind_always (attempt (experiment_body u name p deadline restore_after)) _
        (attempt-Total _) (Triple-attempt _ (experiment_body-Triple name p deadline restore_after))
        (λ r.
          Triple-bind_always (handle_failure r) _ (handle_failure-Total r)
            (Triple-of_Keeps _ (handle_failure-Safe r)) (λ _. cleanup-Triple name))

-- ===== src/Controller/Success/Body.antt =====
-- The steps of the `try` statement of src/suns_chan/sandbox_controller.py before and after the loop, and
-- what the record of a run says at its end.
use sunns_chan.Prelude.{
  ℕ, String, ◌≡◌, refl, ◌∙◌, sym, subst, Bool, true, false, ◌&&◌, List, [], ◌∷◌, if◌then◌else◌,
  str_eq, Result, ok, err, pure, value_error, runtime_error, not_implemented, member, raise,
}
use sunns_chan.Vm.{ArtifactRecord}
use sunns_chan.Proposal.{ExperimentProposal}
use sunns_chan.Controller.{ExperimentRecord, Setup}
use sunns_chan.Controller.Run.{
  is_one_of, prepare_vm, keep_artifacts, collect_artifacts, replace_vm, recreate, after_restore,
  roll_back,
}
use sunns_chan.Controller.Yields.{
  Yields, Yields-bind, Yields-attempted, Yields-if, Yields-of, Yields-pure, Yields-set,
  Yields-provider, Yields-audit, Yields-read, Yields-create,
}
use sunns_chan.Controller.Success.{
  Going, Judged, observed, missed, Ended, succeeded, fell, Halts-ne,
}

-- A record of which nothing has been decided.
abbrev pub Begun : ExperimentRecord → Type 0
Begun r = (r.outcome ≡ "unknown") × (r.command_count ≡ 0)

module _ {S : Type 0} (u : Setup S) (name : String) (p : ExperimentProposal) (n : ℕ) where
  keep_artifacts-Yields :
      (x : Result (List ArtifactRecord))
      → Yields {S = S}
          (λ r. (r.outcome ≡ "success") × (r.command_count ≡ n))
          (Ended n)
          (keep_artifacts x)
  unfolding keep_artifacts raise
  keep_artifacts-Yields (ok xs) = Yields-set _ (λ r h. succeeded refl h.0 h.1)
  keep_artifacts-Yields (err (value_error m)) = Yields-set _ (λ r h. fell refl refl)
  keep_artifacts-Yields (err (runtime_error m)) = record { at = λ s h a e. absurd (cc e) }
  keep_artifacts-Yields (err (not_implemented m)) = record { at = λ s h a e. absurd (cc e) }

  collect-Yields :
      Yields
        (λ r. (r.outcome ≡ "success") × (r.command_count ≡ n))
        (Ended n)
        (collect_artifacts u name p)
  unfolding collect_artifacts
  collect-Yields = Yields-bind _ _ (Yields-read _) (λ i.
      Yields-attempted (u.provider.collect i name p.collect_paths) _ (λ x. keep_artifacts-Yields x))

  -- Artifacts are collected of a run that has come through.
  pub collect_if-Yields :
      (st : String)
      → Yields
          (λ r. Judged n r × (r.status ≡ st))
          (Ended n)
          (if str_eq st "observing" then collect_artifacts u name p else pure tt)
  collect_if-Yields st =
      Yields-if (str_eq st "observing") _ _
        (λ on. Yields-of _ (λ r (j, e). came_through r on e j) collect-Yields)
        (λ off. Yields-pure tt (λ r (j, e). fallen r off e j))
    where
      came_through :
          (r : ExperimentRecord)
          → str_eq st "observing" ≡ true
          → r.status ≡ st
          → Judged n r
          → (r.outcome ≡ "success") × (r.command_count ≡ n)
      came_through r on e (observed s o c) = (o, c)
      came_through r on e (missed h o) =
          absurd (cc (subst (λ x. str_eq x "observing" ≡ false) e (Halts-ne r.status h).0, on))

      fallen :
          (r : ExperimentRecord)
          → str_eq st "observing" ≡ false
          → r.status ≡ st
          → Judged n r
          → Ended n r
      fallen r off e (observed s o c) =
          let on : str_eq st "observing" ≡ true = rw (sym e, s) refl in absurd (cc (on, off))
      fallen r off e (missed h o) = fell (Halts-ne r.status h).1 (rw o refl)

  abbrev Failed : ExperimentRecord → Type 0
  Failed r = str_eq r.outcome "success" ≡ false

  after_restore-Yields :
      (x : Result (Unit {0})) → Yields Failed (Ended n) (after_restore u name p x)
  unfolding after_restore recreate replace_vm
  after_restore-Yields (ok _) =
      Yields-bind {Q = Ended n} _ _ (Yields-set _ (λ r h. fell refl h))
        (λ _. Yields-bind _ _ (Yields-read _) (λ i. Yields-audit _ i _))
  after_restore-Yields (err e) = Yields-bind {Q = Failed} _ _ (Yields-read _) (λ i.
      Yields-bind {Q = Failed} _ _ (Yields-audit _ i _) (λ _.
        Yields-bind {Q = Failed} _ _
          (Yields-bind {Q = Failed} _ _ (Yields-read _) (λ k.
            Yields-bind {Q = Failed} _ _ (Yields-provider (u.provider.destroy k))
              (λ _. Yields-create u _ p)))
          (λ _. Yields-bind {Q = Failed} _ _ (Yields-read _) (λ j.
            Yields-bind {Q = Failed} _ _ (Yields-provider (u.provider.start j))
              (λ _. Yields-set _ (λ r h. fell refl h))))))

  roll_back-Yields : Yields Failed (Ended n) (roll_back u name p)
  unfolding roll_back
  roll_back-Yields =
      Yields-bind {Q = Failed} _ _ (Yields-read _)
        (λ i. Yields-attempted (u.provider.restore i "baseline") _ (λ x. after_restore-Yields x))

  -- Only a run that has failed is rolled back.
  pub roll_back_if-Yields :
      (st : String) (restore_after : Bool)
      → Yields
          (λ r. Ended n r × (r.status ≡ st))
          (Ended n)
          (if is_one_of st ("failed" ∷ "corrupted" ∷ []) && restore_after
            then roll_back u name p
            else pure tt)
  unfolding member
  roll_back_if-Yields st restore_after =
      Yields-if (is_one_of st ("failed" ∷ "corrupted" ∷ []) && restore_after) _ _
        (λ on. Yields-of _ (λ r (h, e). failed r on e h) roll_back-Yields)
        (λ off. Yields-pure tt (λ r (h, e). h))
    where
      failed :
          (r : ExperimentRecord)
          → is_one_of st ("failed" ∷ "corrupted" ∷ []) && restore_after ≡ true
          → r.status ≡ st
          → Ended n r
          → Failed r
      failed r on e (fell s o) = o
      failed r on e (succeeded s o c) =
          let same : st ≡ "completed" = sym e ∙ s in absurd (cc (rw same at on))

  pub prepare-Yields : Yields Begun (Going 0) (prepare_vm u name p)
  unfolding prepare_vm
  prepare-Yields = Yields-bind {Q = Begun} _ _ (Yields-set _ (λ r h. h)) (λ _.
      Yields-bind {Q = Begun} _ _ (Yields-create u name p) (λ _.
        Yields-bind {Q = Begun} _ _ (Yields-read _) (λ i.
          Yields-bind {Q = Begun} _ _ (Yields-set _ (λ r h. h)) (λ _.
            Yields-bind {Q = Begun} _ _ (Yields-audit _ i _) (λ _.
              Yields-bind {Q = Begun} _ _ (Yields-provider (u.provider.start i)) (λ _.
                Yields-bind {Q = Begun} _ _ (Yields-provider _) (λ _.
                  Yields-bind {Q = Begun} _ _ (Yields-provider (u.provider.snapshot i "baseline"))
                    (λ _.
                      Yields-set _
                        (λ r h. record { running = refl; counted = h.1; open_ = h.0 })))))))))

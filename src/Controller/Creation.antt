-- ===== src/Controller/Creation.antt =====
-- `create` and `destroy` under `run_experiment` of src/suns_chan/sandbox_controller.py.
use sunns_chan.Prelude.{
  String, ◌≡◌, refl, sym, ◌∙◌, ap, Bool, true, false, not, ◌&&◌, ◌||◌, ◌⊎◌, inl, inr, str_eq,
  Result, ok, err, lift, modify, ◌>>=◌,
}
use sunns_chan.Vm.{VmSpec}
use sunns_chan.Proposal.{ExperimentProposal}
use sunns_chan.Controller.{ExperimentRecord, Setup, Attempt, on_provider, set_record, create_vm}
use sunns_chan.Controller.Provider.{IsProvider}
use sunns_chan.Controller.Triples.{Triple, Triple-bind}
use sunns_chan.Controller.Steps.{Accounted, Clean, Accounted-of_Clean}

or_true : (b c : Bool) → b || c ≡ true → (b ≡ true) ⊎ (c ≡ true)
or_true true c h = inl refl
or_true false c h = inr h

pub and_true : (b c : Bool) → b && c ≡ true → (b ≡ true) × (c ≡ true)
and_true true c h = (refl, h)
and_true false c h = cc

pub clash : {A : Type 0} (b : Bool) → not b ≡ true → b ≡ true → A
clash true h g = cc
clash false h g = cc

module _ {S : Type 0} (u : Setup S) (is_live : S → String → Bool)
    (law : IsProvider u.provider is_live) (start : S) where
  -- The run's own sandbox is `i`.
  pub record Owner (i : String) (a : Attempt S) : Type 0 where
    pub held : Accounted u is_live law start a
    pub named : a.sandbox_id ≡ i

  pub set_record-Clean :
      (f : ExperimentRecord → ExperimentRecord)
      → Triple (Clean u is_live law start) (Clean u is_live law start) (set_record f)
  unfolding set_record
  set_record-Clean f = record { at = λ a h. record { at = h.at } }

  lift-Clean :
      {A : Type 0} (x : Result A)
      → Triple (Clean u is_live law start) (Clean u is_live law start) (lift x)
  unfolding lift
  lift-Clean x = record { at = λ a h. h }

  made :
      (spec : VmSpec) (a : Attempt S) (x : Result String)
      → (u.provider.create spec a.provider).0 ≡ x
      → Clean u is_live law start a
      → Accounted u is_live law start
          (elim x as (λ _. Result (Unit {0}) × Attempt S) [
            | ok i ↦
                modify
                  (λ b. record b { sandbox_id = i })
                  (record a { provider = (u.provider.create spec a.provider).1 })
            | err e ↦ (err e, record a { provider = (u.provider.create spec a.provider).1 })
          ]).1
  unfolding modify
  made spec a (ok i) e h = record {
    at = λ j l.
        let (named, live) = law.created spec a.provider i e in
        elim (or_true (str_eq i j) (is_live a.provider j) (sym (live j) ∙ l)) [
          | inl own ↦ inr cc
          | inr old ↦ inl (h.at j old)
        ];
  }
  made spec a (err x) e h = record {
    at = λ j l. inl (h.at j (sym (law.not_created spec a.provider x e j) ∙ l));
  }

  -- A creation adds the run's own sandbox, and none where it raises.
  make-Triple :
      (spec : VmSpec)
      → Triple
          (Clean u is_live law start)
          (Accounted u is_live law start)
          (on_provider (u.provider.create spec) >>= λ i. modify (λ a. record a { sandbox_id = i }))
  unfolding on_provider ◌>>=◌
  make-Triple spec = record { at = λ a h. made spec a (u.provider.create spec a.provider).0 refl h }

  pub create_vm-Triple :
      (name : String) (p : ExperimentProposal)
      → Triple (Clean u is_live law start) (Accounted u is_live law start) (create_vm u name p)
  unfolding create_vm
  create_vm-Triple name p =
      Triple-bind (lift _) _ (lift-Clean _) (λ spec. make-Triple spec)
        (Accounted-of_Clean u is_live law start)

  pub destroyed-Clean :
      (i : String)
      → Triple (Owner i) (Clean u is_live law start) (on_provider (u.provider.destroy i))
  unfolding on_provider
  destroyed-Clean i = record {
    at = λ a h. record {
      at = λ j l.
          let (other, old) =
            and_true (not (str_eq i j)) (is_live a.provider j)
              (sym (law.destroyed i a.provider j) ∙ l) in
          elim (h.held.at j old) [
            | inl start ↦ start
            | inr own ↦
                clash (str_eq i j) other (ap (λ x. str_eq x j) (sym h.named) ∙ (and_true _ _ own).1)
          ];
    };
  }

-- ===== src/Controller/Steps.antt =====
-- The steps of `run_experiment` of src/suns_chan/sandbox_controller.py that keep the sandboxes that exist.
use sunns_chan.Prelude.{
  ℕ, String, ◌≡◌, sym, ◌∙◌, Bool, true, not, ◌&&◌, List, [], ◌∷◌, ◌==◌, ◌⊎◌, inl, str_eq, Exec,
  pure, ◌>>◌, Keeps,
}
use sunns_chan.Prelude.Int.{ℤ, pos, leb_ℤ, ◌-ℤ◌}
use sunns_chan.Vm.{GuestResult}
use sunns_chan.Controller.{
  ExperimentRecord, Setup, Attempt, on_provider, set_record, audit, read_clock, judge, run_commands,
}
use sunns_chan.Controller.Provider.{KeepsLive, IsProvider}
use sunns_chan.Prelude.Rules.{
  Onward, Onward-refl, Onward-trans, Keeps-bind, Keeps-if, Keeps-pure, Keeps-gets,
}

module _ {S : Type 0} (u : Setup S) (is_live : S → String → Bool)
    (law : IsProvider u.provider is_live) (start : S) where
  -- The sandbox that the run holds.
  abbrev pub owns : Attempt S → String → Bool
  owns a j = not (str_eq a.sandbox_id "") && str_eq a.sandbox_id j

  -- Every sandbox existed at the start, or is the run's own.
  pub record Accounted (a : Attempt S) : Type 0 where
    pub at :
        (j : String) → is_live a.provider j ≡ true → (is_live start j ≡ true) ⊎ (owns a j ≡ true)

  -- Every sandbox existed at the start.
  pub record Clean (a : Attempt S) : Type 0 where
    pub at : (j : String) → is_live a.provider j ≡ true → is_live start j ≡ true

  pub Accounted-of_Clean : (a : Attempt S) → Clean a → Accounted a
  Accounted-of_Clean a h = record { at = λ j l. inl (h.at j l) }

  pub set_record-Safe :
      (f : ExperimentRecord → ExperimentRecord) → Keeps (Onward Accounted) (set_record f)
  unfolding set_record
  set_record-Safe f = record { at = λ a. record { at = λ h. record { at = h.at } } }

  pub audit-Safe : (x i d : String) → Keeps (Onward Accounted) (audit x i d)
  unfolding audit
  audit-Safe x i d = record { at = λ a. record { at = λ h. record { at = h.at } } }

  pub read_clock-Safe : Keeps (Onward Accounted) (read_clock u)
  unfolding read_clock
  read_clock-Safe = record { at = λ a. record { at = λ h. record { at = h.at } } }

  pub on_provider-Safe :
      {A : Type 0} (m : Exec S A) → KeepsLive is_live m → Keeps (Onward Accounted) (on_provider m)
  unfolding on_provider
  on_provider-Safe m k = record {
    at = λ a. record { at = λ h. record { at = λ j l. h.at j (sym (k.at a.provider j) ∙ l) } };
  }

  pub start-Safe : (i : String) → Keeps (Onward Accounted) (on_provider (u.provider.start i))
  start-Safe i = on_provider-Safe (u.provider.start i) (law.start-KeepsLive i)

  pub wait_ready-Safe :
      (i : String) (t : ℕ) → Keeps (Onward Accounted) (on_provider (u.provider.wait_ready i t))
  wait_ready-Safe i t = on_provider-Safe (u.provider.wait_ready i t) (law.wait_ready-KeepsLive i t)

  pub snapshot-Safe :
      (i n : String) → Keeps (Onward Accounted) (on_provider (u.provider.snapshot i n))
  snapshot-Safe i n = on_provider-Safe (u.provider.snapshot i n) (law.snapshot-KeepsLive i n)

  pub restore-Safe :
      (i n : String) → Keeps (Onward Accounted) (on_provider (u.provider.restore i n))
  restore-Safe i n = on_provider-Safe (u.provider.restore i n) (law.restore-KeepsLive i n)

  pub execute-Safe :
      (i c : String) (t : ℕ) → Keeps (Onward Accounted) (on_provider (u.provider.execute i c t))
  execute-Safe i c t = on_provider-Safe (u.provider.execute i c t) (law.execute-KeepsLive i c t)

  pub status-Safe : (i : String) → Keeps (Onward Accounted) (on_provider (u.provider.status i))
  status-Safe i = on_provider-Safe (u.provider.status i) (law.status-KeepsLive i)

  pub collect-Safe :
      (i e : String) (ps : List String)
      → Keeps (Onward Accounted) (on_provider (u.provider.collect i e ps))
  collect-Safe i e ps = on_provider-Safe (u.provider.collect i e ps) (law.collect-KeepsLive i e ps)

  -- A break out of the loop: the record says why.
  pub stop-Safe :
      (f : ExperimentRecord → ExperimentRecord) (h : List String)
      → Keeps (Onward Accounted) (set_record {S = S} f >> pure h)
  stop-Safe f h = Keeps-bind Onward-trans _ _ (set_record-Safe f) (λ _. Keeps-pure Onward-refl h)

  pub judge-Safe :
      (i c : String) (r : GuestResult) (h : List String) (rest : Exec (Attempt S) (List String))
      → Keeps (Onward Accounted) rest
      → Keeps (Onward Accounted) (judge u i c r h rest)
  unfolding judge
  judge-Safe i c r h rest k = Keeps-bind Onward-trans _ _ (set_record-Safe _) (λ _.
      Keeps-bind Onward-trans _ _ (status-Safe i) (λ st.
        Keeps-if {R = Onward Accounted} (str_eq st "corrupted") _ _ (stop-Safe _ h)
          (Keeps-if {R = Onward Accounted} (not (r.exit_code == 0)) _ _ (stop-Safe _ h) k)))

  pub run_commands-Safe :
      (i : String) (deadline : ℤ) (cs h : List String)
      → Keeps (Onward Accounted) (run_commands u i deadline cs h)
  unfolding run_commands
  run_commands-Safe i deadline [] h = Keeps-pure Onward-refl h
  run_commands-Safe i deadline (c ∷ cs) h =
      Keeps-bind Onward-trans _ _ (Keeps-gets Onward-refl _) (λ n.
        Keeps-if {R = Onward Accounted} (u.cancelled n) _ _ (stop-Safe _ h) (
          Keeps-bind Onward-trans _ _ read_clock-Safe (λ now.
            Keeps-if {R = Onward Accounted} (leb_ℤ (deadline -ℤ pos now) (pos 0)) _ _
              (stop-Safe _ h)
              (Keeps-bind Onward-trans _ _ (execute-Safe i c _)
                (λ r. judge-Safe i c r _ _ (run_commands-Safe i deadline cs _))))))

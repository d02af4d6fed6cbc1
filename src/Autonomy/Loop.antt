-- ===== src/Autonomy/Loop.antt =====
-- How often the loop of `run` of src/suns_chan/autonomy.py runs.
use sunns_chan.Prelude.{
  ℕ, zero, suc, ◌+◌, ◌-◌, ◌*◌, ◌≤◌, ◌<◌, String, Bool, true, false, ◌≡◌, refl, ap, ◌∙◌, none, some,
  Option, List, [], ◌∷◌, ◌++◌, length, select, arith, if◌then◌else◌, leb, member, str_eq, ◌&&◌,
  Exec,
}
use sunns_chan.Prelude.Returns.{Returns, Returns-pure, Returns-if, Returns-bind, Returns-then}
use sunns_chan.Session.{AutonomySession}
use sunns_chan.Autonomy.{
  Engine, StepReport, RunReport, is_halted, is_progress, loop, finish_run, run,
}

-- The loop came to an end, with no more activities and steps than it is allowed.
pub record Ended (most completed : ℕ) (steps : List StepReport) : Type 0 where
  pub few : completed ≤ most
  pub short : length steps ≤ 3 * most
  pub real : completed ≤ length (select is_progress steps)

abbrev HasEnded : ℕ → Option (ℕ × List StepReport) → Type 0
HasEnded most r = (c : ℕ) × (steps : List StepReport) × (r ≡ some (c, steps)) × Ended most c steps

length-snoc : (xs : List StepReport) (x : StepReport) → length (xs ++ x ∷ []) ≡ length xs + 1
length-snoc [] x = ground arith
length-snoc (y ∷ xs) x = ground (arith, length-snoc xs x)

progress-snoc :
    (xs : List StepReport) (x : StepReport)
    → length (select is_progress (xs ++ x ∷ [])) ≡ (
        if is_progress x
        then length (select is_progress xs) + 1
        else length (select is_progress xs))
progress-snoc [] x = ground arith
progress-snoc (y ∷ xs) x = ground (arith, progress-snoc xs x)

-- What holds before each round: `fuel` is enough, and `idle` rounds have made no progress.
record Going (fuel most completed idle : ℕ) (steps : List StepReport) : Type 0 where
  few : completed ≤ most
  patient : idle ≤ 2
  unfinished : idle ≤ 3 * (most - completed)
  enough : 3 * (most - completed) + 1 ≤ fuel + idle
  short : length steps ≤ 3 * completed + idle
  real : completed ≤ length (select is_progress steps)

module _ {most : ℕ} where
  stop_before :
      {fuel c idle : ℕ} {steps : List StepReport}
      → Going fuel most c idle steps
      → Ended most c steps
  stop_before g = record {
    few = g.few;
    short = omega (arith, g.few, g.unfinished, g.short);
    real = g.real;
  }

  stop_after :
      {fuel c idle : ℕ} {steps : List StepReport} (x : StepReport)
      → c < most
      → Going fuel most c idle steps
      → Ended most c (steps ++ x ∷ [])
  stop_after {steps = steps} x l g = record {
    few = g.few;
    short = omega (arith, g.short, g.patient, length-snoc steps x);
    real = more (is_progress x) g.real (progress-snoc steps x);
  }
    where
      more : {c n m : ℕ} (b : Bool) → c ≤ n → m ≡ (if b then n + 1 else n) → c ≤ m
      more true h e = omega arith
      more false h e = omega arith

  progressed :
      {fuel c idle : ℕ} {steps : List StepReport} (x : StepReport)
      → c < most
      → is_progress x ≡ true
      → Going (suc fuel) most c idle steps
      → Going fuel most (c + 1) 0 (steps ++ x ∷ [])
  progressed {steps = steps} x l p g =
      let one : length (select is_progress (steps ++ x ∷ []))
          ≡ length (select is_progress steps) + 1 =
        progress-snoc steps x
        ∙ ap
            (λ b.
              if b
              then length (select is_progress steps) + 1
              else length (select is_progress steps))
            p in
      record {
        few = omega arith;
        patient = omega arith;
        unfinished = omega arith;
        enough = omega (arith, g.enough, g.patient);
        short = omega (arith, g.short, g.patient, length-snoc steps x);
        real = omega (arith, g.real, one);
      }

  waited :
      {fuel c idle : ℕ} {steps : List StepReport} (x : StepReport)
      → c < most
      → leb 3 (idle + 1) ≡ false
      → Going (suc fuel) most c idle steps
      → Going fuel most c (idle + 1) (steps ++ x ∷ [])
  waited {idle = idle} {steps = steps} x l p g =
      let small : idle + 1 < 3 = ground arith in
      let end = stop_after x l g in
      record {
        few = g.few;
        patient = omega arith;
        unfinished = omega arith;
        enough = omega (arith, g.enough);
        short = omega (arith, g.short, length-snoc steps x);
        real = end.real;
      }

module _ {S : Type 0} (now : ℕ) (session_id : String) (most : ℕ)
    (step : AutonomySession → Exec (Engine S) StepReport) where
  loop-Returns :
      (fuel c idle : ℕ) (steps : List StepReport)
      → Going fuel most c idle steps
      → Returns (HasEnded most) (loop fuel now session_id most step c idle steps)
  unfolding loop
  loop-Returns zero c idle steps g = absurd (omega (arith, g.enough, g.unfinished))
  loop-Returns (suc fuel) c idle steps g =
      Returns-if (leb most c) _ _ (λ _. Returns-pure _ (c, steps, refl, stop_before g))
        (λ l.
          let less : c < most = ground arith in
          Returns-bind _ _ (λ session.
            Returns-if (is_halted session.status) _ _
              (λ _. Returns-pure _ (c, steps, refl, stop_before g))
              (λ _. Returns-bind _ _ (λ x.
                Returns-if (member x.status ("paused" ∷ "waiting" ∷ [])) _ _
                  (λ _. Returns-pure _ (c, steps ++ x ∷ [], refl, stop_after x less g))
                  (λ _.
                    Returns-if (is_progress x) _ _
                      (λ p. loop-Returns fuel (c + 1) 0 (steps ++ x ∷ []) (progressed x less p g))
                      (λ _.
                        Returns-if (leb 3 (idle + 1)) _ _
                          (λ _. Returns-bind _ _ (λ again.
                            Returns-bind _ _ (λ _.
                              Returns-pure _ (c, steps ++ x ∷ [], refl, stop_after x less g))))
                          (λ w.
                            loop-Returns fuel c (idle + 1) (steps ++ x ∷ [])
                              (waited x less w g))))))))

-- What `run` reports.
pub record IsBounded (most : ℕ) (r : Option RunReport) : Type 0 where
  pub report : RunReport
  pub given : r ≡ some report
  pub bounds : Ended most report.activities_completed report.steps

finish_run-Returns :
    {S : Type 0} (now : ℕ) (session_id : String) (most : ℕ) (r : Option (ℕ × List StepReport))
    → HasEnded most r
    → Returns (IsBounded most) (finish_run {S = S} now session_id most r)
unfolding finish_run
finish_run-Returns now session_id most none h = absurd (cc (h.2))
finish_run-Returns now session_id most (some (c, steps)) h = Returns-bind _ _ (λ session.
    Returns-if (str_eq session.status "idle" && leb most c) _ _
      (λ _.
        Returns-bind _ _
          (λ _. Returns-pure _ (record { report = _; given = refl; bounds = ended })))
      (λ _. Returns-pure _ (record { report = _; given = refl; bounds = ended })))
  where
    ended : Ended most c steps
    ended =
        let (c', steps', e, done) = h in
        let p : c ≡ c' = cc in let q : steps ≡ steps' = cc in rw (p, q) done

-- The loop of `run` comes to an end whatever its steps do: if nothing raises, there is a report, of at most
-- `max_activities` finished activities, which are all among its steps, and at most three times as many steps.
pub run-Returns :
    {S : Type 0} (now : ℕ) (session_id : String)
    (step : AutonomySession → Exec (Engine S) StepReport) (most : ℕ)
    → Returns (IsBounded most) (run now session_id step most)
unfolding run
run-Returns now session_id step most = Returns-bind _ _ (λ _. Returns-bind _ _ (λ _.
    Returns-then _ _
      (loop-Returns now session_id most step (3 * most + 1) 0 0 [] (record {
        few = omega arith;
        patient = omega arith;
        unfinished = omega arith;
        enough = omega arith;
        short = omega arith;
        real = omega arith;
      }))
      (λ r h. finish_run-Returns now session_id most r h)))

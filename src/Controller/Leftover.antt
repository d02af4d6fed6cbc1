-- ===== src/Controller/Leftover.antt =====
-- The sandboxes that exist after `run_experiment` of src/suns_chan/sandbox_controller.py returns.
use sunns_chan.Prelude.{
  ◌+◌, String, ◌≡◌, refl, sym, ◌∙◌, ap, Bool, true, false, ◌&&◌, Option, none, some, if◌then◌else◌,
  str_eq, Result, ok, err,
}
use sunns_chan.Prelude.Int.{pos, scale, ◌+ℤ◌}
use sunns_chan.Ledger.{Ledger}
use sunns_chan.Proposal.{ExperimentProposal}
use sunns_chan.Controller.{ExperimentRecord, Setup, Attempt}
use sunns_chan.Controller.Provider.{IsProvider}
use sunns_chan.Controller.Run.{experiment}
use sunns_chan.Controller.Report.{
  Lab, record_outcome_of, put_back, written, report_to, ended, report, run_approved, run_experiment,
  first_attempt, is_missing, is_denied,
}
use sunns_chan.Controller.Cleanup.{Swept, experiment-Triple}

-- The events of a run change nothing that its provider holds, and do not change the record.
module _ {S : Type 0} (p : ExperimentProposal) (r : ExperimentRecord) where
  written-provider :
      (w : Result (Unit {0}) × Ledger) (s : Lab S) → (written r s w).1.provider ≡ s.provider
  written-provider (ok _, l) s = refl
  written-provider (err e, l) s = refl

  written-record :
      (w : Result (Unit {0}) × Ledger) (s : Lab S) (r' : ExperimentRecord)
      → (written r s w).0 ≡ ok r'
      → r ≡ r'
  written-record (ok _, l) s r' h = cc
  written-record (err e, l) s r' h = cc

  report_to-provider : (s : Lab S) (x : Option Ledger) → (report_to p r s x).1.provider ≡ s.provider
  report_to-provider s none = refl
  report_to-provider s (some l) = written-provider (record_outcome_of p r l) s

  pub report_to-record :
      (s : Lab S) (x : Option Ledger) (r' : ExperimentRecord)
      → (report_to p r s x).0 ≡ ok r'
      → r ≡ r'
  report_to-record s none r' h = cc
  report_to-record s (some l) r' h = written-record (record_outcome_of p r l) s r' h

-- What a run that returns a record leaves: no new sandbox, but for one that was created again.
abbrev Spotless :
    {S : Type 0} (is_live : S → String → Bool) (start : S)
    → Result ExperimentRecord × Lab S
    → Type 0
Spotless is_live start x =
    (r : ExperimentRecord)
    → x.0 ≡ ok r
    → str_eq r.status "recreated" ≡ false
    → (j : String) → is_live x.1.provider j ≡ true
    → is_live start j ≡ true

Spotless-if :
    {S : Type 0} (is_live : S → String → Bool) (start : S) (b : Bool)
    (x y : Result ExperimentRecord × Lab S)
    → Spotless is_live start x
    → Spotless is_live start y
    → Spotless is_live start (if b then x else y)
Spotless-if is_live start true x y h k = h
Spotless-if is_live start false x y h k = k

module _ {S : Type 0} (u : Setup S) (is_live : S → String → Bool)
    (law : IsProvider u.provider is_live) where
  ended-Spotless :
      (p : ExperimentProposal) (s : Lab S) (start : S) (x : Result (Unit {0}) × Attempt S)
      → Swept u is_live law start x.1
      → Spotless is_live start (ended p s x)
  unfolding report
  ended-Spotless p s start (err e, a) h r g d j l = cc
  ended-Spotless p s start (ok o, a) h r g d j l =
      let same = report_to-record p a.experiment (put_back a s) s.ledger r g in
      let held = report_to-provider p a.experiment (put_back a s) s.ledger in
      (h.at (ap (λ x. str_eq x.status "recreated") same ∙ d)).at j
        (ap (λ x. is_live x j) (sym held) ∙ l)

  run_approved-Spotless :
      (p : ExperimentProposal) (name : String) (restore_after : Bool) (s : Lab S)
      → Spotless is_live s.provider (run_approved u p name restore_after false s)
  unfolding run_approved
  run_approved-Spotless p name restore_after s =
      ended-Spotless p s s.provider
        (experiment u name p (pos (u.clock s.readings) +ℤ scale 1000 p.time_budget_secs)
          restore_after false (first_attempt u name p s))
        ((experiment-Triple u is_live law s.provider name p
            (pos (u.clock s.readings) +ℤ scale 1000 p.time_budget_secs) restore_after).at
          (first_attempt u name p s) (record { at = λ j l. l }))

  -- When the provider creates and destroys sandboxes as it promises, a run that returns a record with
  -- another status than "recreated", and that was not told to keep its VM, leaves no sandbox behind:
  -- each one that exists afterwards existed before the run, whatever failed on the way.
  pub no_leftover :
      (p : ExperimentProposal) (restore_after : Bool) (s : Lab S) (r : ExperimentRecord)
      → (run_experiment u p restore_after false s).0 ≡ ok r
      → str_eq r.status "recreated" ≡ false
      → (j : String) → is_live (run_experiment u p restore_after false s).1.provider j ≡ true
      → is_live s.provider j ≡ true
  unfolding run_experiment
  no_leftover p restore_after s =
      Spotless-if is_live s.provider (str_eq u.provider.backend "REAL" && is_missing u.approver) _ _
        (λ r h d j l. cc)
        (Spotless-if is_live s.provider (is_denied u.approver p) _ _ (λ r h d j l. l)
          (run_approved-Spotless p _ restore_after (record s { counter = s.counter + 1 })))

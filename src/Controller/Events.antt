-- ===== src/Controller/Events.antt =====
-- The events of `run_experiment` of src/suns_chan/sandbox_controller.py.
use sunns_chan.Prelude.{
  ℕ, ◌+◌, String, ◌≡◌, refl, Bool, true, false, ◌&&◌, Option, none, some, if◌then◌else◌, str_eq,
  Result, ok, err, Keeps,
}
use sunns_chan.Prelude.Rules.{keeps_rules}
use sunns_chan.Prelude.Int.{pos, scale, ◌+ℤ◌}
use sunns_chan.Ledger.{Ledger}
use sunns_chan.Ledger.History.{IsLater, IsLater-refl, IsLater-trans, record_event-IsLater}
use sunns_chan.Proposal.{ExperimentProposal}
use sunns_chan.Controller.{ExperimentRecord, Setup, Attempt}
use sunns_chan.Controller.Run.{experiment}
use sunns_chan.Controller.Report.{
  Lab, put_back, first_attempt, record_lesson, record_outcome_of, written, report_to, report, ended,
  run_approved, run_experiment, is_missing, is_denied,
}

ruleset later = (keeps_rules, IsLater-refl, IsLater-trans, record_event-IsLater)

record_lesson-IsLater :
    (p : ExperimentProposal) (r : ExperimentRecord) (i : ℕ) → Keeps IsLater (record_lesson p r i)
unfolding record_lesson
record_lesson-IsLater p r i = search later

record_outcome_of-IsLater :
    (p : ExperimentProposal) (r : ExperimentRecord) → Keeps IsLater (record_outcome_of p r)
unfolding record_outcome_of
record_outcome_of-IsLater p r = search (later, record_lesson-IsLater) depth 9

-- The ledger of the second state, if the first one has one, is a later one of it.
record Recorded {S : Type 0} (s t : Lab S) : Type 0 where
  at : (l : Ledger) → s.ledger ≡ some l → (l' : Ledger) × (t.ledger ≡ some l') × IsLater l l'

module _ {S : Type 0} (p : ExperimentProposal) where
  written-Recorded :
      (r : ExperimentRecord) (s : Lab S) (l : Ledger) (w : Result (Unit {0}) × Ledger)
      → IsLater l w.1
      → s.ledger ≡ some l
      → Recorded s (written r s w).1
  written-Recorded r s l (ok _, m) grown e = record {
    at = λ k g. (m, refl, (let same : k ≡ l = cc in rw same grown));
  }
  written-Recorded r s l (err x, m) grown e = record {
    at = λ k g. (m, refl, (let same : k ≡ l = cc in rw same grown));
  }

  report_to-Recorded :
      (r : ExperimentRecord) (s : Lab S) (x : Option Ledger)
      → s.ledger ≡ x
      → Recorded s (report_to p r s x).1
  report_to-Recorded r s none e = record { at = λ k g. (k, g, IsLater-refl k) }
  report_to-Recorded r s (some l) e =
      written-Recorded r s l (record_outcome_of p r l) ((record_outcome_of-IsLater p r).at l) e

  ended-Recorded : (s : Lab S) (x : Result (Unit {0}) × Attempt S) → Recorded s (ended p s x).1
  unfolding report
  ended-Recorded s (err e, a) = record { at = λ k g. (k, g, IsLater-refl k) }
  ended-Recorded s (ok o, a) = record {
    at = λ k g. (report_to-Recorded a.experiment (put_back a s) s.ledger refl).at k g;
  }

  Recorded-if :
      (b : Bool) (s : Lab S) (x y : Result ExperimentRecord × Lab S)
      → Recorded s x.1
      → Recorded s y.1
      → Recorded s (if b then x else y).1
  Recorded-if true s x y h k = h
  Recorded-if false s x y h k = k

  run_approved-Recorded :
      (u : Setup S) (name : String) (restore_after keep_vm : Bool) (s : Lab S)
      → Recorded s (run_approved u p name restore_after keep_vm s).1
  unfolding run_approved
  run_approved-Recorded u name restore_after keep_vm s = ended-Recorded s (
      experiment u name p (pos (u.clock s.readings) +ℤ scale 1000 p.time_budget_secs) restore_after
        keep_vm (first_attempt u name p s))

  -- However a run ends, in a record or in an exception, the ledger that it was given has kept every row
  -- and only got rows on top.
  pub run_experiment-Recorded :
      (u : Setup S) (restore_after keep_vm : Bool) (s : Lab S) (l : Ledger)
      → s.ledger ≡ some l
      → (m : Ledger) × ((run_experiment u p restore_after keep_vm s).1.ledger ≡ some m)
        × IsLater l m
  unfolding run_experiment
  run_experiment-Recorded u restore_after keep_vm s l g =
      let started : Lab S = record s { counter = s.counter + 1 } in
      (Recorded-if (str_eq u.provider.backend "REAL" && is_missing u.approver) started _ _
          (record { at = λ k g'. (k, g', IsLater-refl k) })
          (Recorded-if (is_denied u.approver p) started _ _
            (record { at = λ k g'. (k, g', IsLater-refl k) })
            (run_approved-Recorded u _ restore_after keep_vm started))).at
        l g

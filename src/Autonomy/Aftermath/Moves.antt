-- ===== src/Autonomy/Aftermath/Moves.antt =====
-- `_move_curiosity` of src/suns_chan/autonomy.py.
use sunns_chan.Prelude.{
  ℕ, String, ◌≡◌, refl, ap, member, fstring, [], ◌∷◌, ◌∙◌, subst, true, Option, none, some, inl,
  inr, Result-cases, ok, err, effects, arith, Bool-cases, ◌==◌, Keeps, Exec, pure, value_error,
}
use sunns_chan.Prelude.Table.{fetch, fetch-update}
use sunns_chan.Prelude.Rules.{Reflexive, Transitive, Keeps-pure, Keeps-if, Keeps-bind}
use sunns_chan.Prelude.Rows.{get_row, get_row-Same}
use sunns_chan.Ledger.{Ledger}
use sunns_chan.Curiosity.{
  Curiosity, Curiosities, Status, parse_status, can_move, new, name, get, transition,
}
use sunns_chan.Curiosity.Store.{Moved, transition_ok, failed_transition}
use sunns_chan.Autonomy.Aftermath.{
  attempt, try_move, move_from, move_curiosity, is_direct, is_stepwise,
}
use sunns_chan.Autonomy.Aftermath.Attempts.{
  returned-then, attempt_returned, attempt_failed-then, Keeps-attempt, Keeps-option,
}

-- Any number of moves of the lifecycle.
pub data Walks (s : Status) : Status → Type 0 where
  stay : Walks s s
  walk : {t u : Status} → Walks s t → can_move t u ≡ true → Walks s u

Walks-trans : {s t u : Status} → Walks s t → Walks t u → Walks s u
Walks-trans w stay = w
Walks-trans w (walk v h) = walk (Walks-trans w v) h

-- What has become of the row of a curiosity.
pub record Later (k : ℕ) (c : Curiosity) (u : Curiosities) : Type 0 where
  pub now : Curiosity
  pub found : fetch k u ≡ some now
  pub walked : Walks c.status now.status

-- From the table `t` to `u` every curiosity has gone along the lifecycle, and none is lost.
pub record Onwards (t u : Curiosities) : Type 0 where
  pub at : (k : ℕ) (c : Curiosity) → fetch k t ≡ some c → Later k c u

Onwards-refl : Reflexive Onwards
Onwards-refl t = record { at = λ k c h. record { now = c; found = h; walked = stay } }

Onwards-trans : Transitive Onwards
Onwards-trans t u v p q = record {
  at = λ k c h.
      let a : Later k c u = p.at k c h in
      let b : Later k a.now v = q.at k a.now a.found in
      record { now = b.now; found = b.found; walked = Walks-trans a.walked b.walked };
}

Moved-Onwards :
    (id time : ℕ) (t : Curiosities) (b : ℕ × Curiosity) (u : Curiosities)
    → Moved id time t b u
    → Onwards t u
Moved-Onwards id time t b u m = record {
  at = λ k c h.
      let to : Curiosity → Curiosity =
        λ r. record r { status = m.target; confidence = m.score; updated_at = time } in
      elim (Bool-cases (id == k)) [
        | inl here ↦
            let same : id ≡ k = ground arith in
            let it : m.old ≡ c = cc (m.found, h, same) in
            record {
              now = to c;
              found = rw (m.stored, fetch-update id k to t, here, h) refl;
              walked = walk stay (subst (λ r. can_move r.status m.target ≡ true) it m.allowed);
            }
        | inr other ↦ record {
          now = c;
          found = rw (m.stored, fetch-update id k to t, other) h;
          walked = stay;
        }
      ];
}

transition-Onwards :
    (l : Ledger) (now id : ℕ) (to_status : String) (evidence : ℕ)
    → Keeps Onwards (transition l now id to_status evidence)
transition-Onwards l now id to_status evidence = record {
  at = λ t. elim (Result-cases (transition l now id to_status evidence t).0) [
    | inl (b, done) ↦
        Moved-Onwards id now t b _ (transition_ok l now id to_status evidence t b done)
    | inr (e, failed) ↦
        rw (failed_transition l now id to_status evidence t e failed) (Onwards-refl t)
  ];
}

try_move-Onwards :
    (l : Ledger) (now id : ℕ) (to_status : String) (evidence : ℕ)
    → Keeps Onwards (try_move l now id to_status evidence)
try_move-Onwards l now id to_status evidence =
    Keeps-bind Onwards-trans _ _ (Keeps-attempt _ (transition-Onwards l now id to_status evidence))
      (λ _. Keeps-pure Onwards-refl _)

move_from-Onwards :
    (l : Ledger) (now id : ℕ) (to_status : String) (evidence : ℕ) (current : String)
    → Keeps Onwards (move_from l now id to_status evidence current)
unfolding move_from
move_from-Onwards l now id to_status evidence current =
    Keeps-if (is_direct to_status current) _ _ (try_move-Onwards l now id to_status evidence) (
      Keeps-if (is_stepwise to_status current) _ _
        (Keeps-bind Onwards-trans _ _
          (Keeps-attempt _ (transition-Onwards l now id "active" evidence))
          (λ step.
            Keeps-option step _ _ (Keeps-pure Onwards-refl _)
              (λ _. try_move-Onwards l now id to_status evidence)))
        (Keeps-pure Onwards-refl _))

get-Onwards : (id : ℕ) → Keeps Onwards (get id)
unfolding get
get-Onwards id = record {
  at = λ t. rw ((get_row-Same "unknown curiosity: " id).at t) (Onwards-refl t);
}

move_curiosity-Keeps :
    (l : Ledger) (now : ℕ) (id : Option ℕ) (to_status : String) (evidence : ℕ)
    → Keeps Onwards (move_curiosity l now id to_status evidence)
unfolding move_curiosity
move_curiosity-Keeps l now none to_status evidence = Keeps-pure Onwards-refl _
move_curiosity-Keeps l now (some id) to_status evidence =
    Keeps-bind Onwards-trans _ _ (Keeps-attempt _ (get-Onwards id)) (λ row.
      Keeps-option row _ _ (Keeps-pure Onwards-refl _)
        (λ r. move_from-Onwards l now id to_status evidence (name r.1.status)))

-- Whatever move the engine asks for, and whether it is made or not, every curiosity that was in the
-- store is there afterwards, with a status that arrows of the lifecycle lead to from its status before.
pub move_curiosity-Onwards :
    (l : Ledger) (now : ℕ) (id : Option ℕ) (to_status : String) (evidence : ℕ) (t : Curiosities)
    → Onwards t (move_curiosity l now id to_status evidence t).1
move_curiosity-Onwards l now id to_status evidence =
    (move_curiosity-Keeps l now id to_status evidence).at

get_found :
    (id : ℕ) (t : Curiosities) (c : Curiosity) → fetch id t ≡ some c → get id t ≡ (ok (id, c), t)
unfolding get get_row
get_found id t c h = ground arith

abbrev cannot_investigate : String
cannot_investigate = fstring ("cannot move curiosity " ∷ "new" ∷ " -> " ∷ "investigating" ∷ [])

-- The store refuses to investigate a new curiosity.
new_refused :
    (l : Ledger) (now id evidence : ℕ) (t : Curiosities) (c : Curiosity)
    → fetch id t ≡ some c
    → c.status ≡ new
    → transition l now id "investigating" evidence t ≡ (err (value_error cannot_investigate), t)
unfolding transition parse_status get get_row can_move effects
new_refused l now id evidence t c h e =
    rw (h, e)
      (ap (λ u. (err (value_error cannot_investigate), u))
        ((get_row-Same "unknown curiosity: " id).at t))

-- So the engine, which takes that move to be allowed and does not walk by `active`, leaves a new
-- curiosity that it investigates as it was.
pub new_stays_new :
    (l : Ledger) (now id evidence : ℕ) (t : Curiosities) (c : Curiosity)
    → fetch id t ≡ some c
    → c.status ≡ new
    → move_curiosity l now (some id) "investigating" evidence t ≡ (ok tt, t)
unfolding move_curiosity move_from is_direct member effects
new_stays_new l now id evidence t c h e =
    returned-then (attempt (get id)) (then_move l now id evidence) t t (some (id, c))
      (attempt_returned (get id) t t (id, c) (get_found id t c h))
    ∙ rw e (
        attempt_failed-then (transition l now id "investigating" evidence) (λ _. pure tt) t t _
          (new_refused l now id evidence t c h e))
  where
    then_move : Ledger → ℕ → ℕ → ℕ → Option (ℕ × Curiosity) → Exec Curiosities (Unit {0})
    then_move l now id evidence row = elim row [
      | none ↦ pure tt
      | some r ↦ move_from l now id "investigating" evidence (name r.1.status)
    ]

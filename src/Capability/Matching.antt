-- ===== src/Capability/Matching.antt =====
-- `match` and `detect_capability_gap` of src/suns_chan/capability.py.
use sunns_chan.Prelude.{
  ℕ, zero, suc, ◌≤◌, ◌<◌, String, ◌≡◌, ◌≢◌, refl, true, false, Bool, ◌&&◌, ◌||◌, List, [], ◌∷◌,
  arith, Result, ok, inl, inr, Bool-cases, All, All-take, length, length-take-le, take, any, ltb,
  ◌==◌, is_blank, ◌⊎◌, ◌↔◌,
}
use sunns_chan.Capability.{CapabilityRecord, Capabilities, Status, available}
use sunns_chan.Capability.Usage.{
  status_eq, score_rows, insert_scored, sort_scored, match, detect_capability_gap, all_capabilities,
  blob,
}
use sunns_chan.Capability.Tokens.{tokenize, overlap}
use sunns_chan.Capability.Words.{meet, overlap-zero}

abbrev pub Scored : Type 0
Scored = ℕ × ℕ × CapabilityRecord

-- A hit has one of the statuses, and as its score the overlap of the words, which is not 0.
pub record IsHit (query : List String) (statuses : List Status) (x : Scored) : Type 0 where
  pub wanted : any (status_eq x.2.status) statuses ≡ true
  pub scored : x.0 ≡ overlap query (blob x.2)
  pub positive : 0 < x.0

score_rows-IsHit :
    (query : List String) (statuses : List Status) (rows : List (ℕ × CapabilityRecord))
    → All (IsHit query statuses) (score_rows query statuses rows)
unfolding score_rows
score_rows-IsHit query statuses [] = tt
score_rows-IsHit query statuses ((i, r) ∷ rows) =
    elim (Bool-cases (any (status_eq r.status) statuses && ltb 0 (overlap query (blob r)))) [
      | inl hit ↦ rw hit (
        record { wanted = ground arith; scored = refl; positive = ground arith },
        score_rows-IsHit query statuses rows,
      )
      | inr miss ↦ rw miss (score_rows-IsHit query statuses rows)
    ]

insert_scored-All :
    (P : Scored → Type 0) (x : Scored) (xs : List Scored)
    → P x
    → All P xs
    → All P (insert_scored x xs)
unfolding insert_scored
insert_scored-All P x [] px h = (px, tt)
insert_scored-All P x (y ∷ ys) px h = ground (arith, insert_scored-All P x ys px h.1)

sort_scored-All : (P : Scored → Type 0) (xs : List Scored) → All P xs → All P (sort_scored xs)
unfolding sort_scored
sort_scored-All P [] h = tt
sort_scored-All P (x ∷ xs) h = insert_scored-All P x (sort_scored xs) h.0 (sort_scored-All P xs h.1)

-- The scores fall.
abbrev pub IsFalling : List Scored → Type 0
IsFalling [] = Unit
IsFalling (x ∷ xs) = All (λ y. y.0 ≤ x.0) xs × IsFalling xs

All-le : (n m : ℕ) (xs : List Scored) → n ≤ m → All (λ y. y.0 ≤ n) xs → All (λ y. y.0 ≤ m) xs
All-le n m [] le h = tt
All-le n m (x ∷ xs) le h = (omega arith, All-le n m xs le h.1)

insert_scored-IsFalling :
    (x : Scored) (xs : List Scored) → IsFalling xs → IsFalling (insert_scored x xs)
unfolding insert_scored
insert_scored-IsFalling x [] h = (tt, tt)
insert_scored-IsFalling x (y ∷ ys) h =
    elim (Bool-cases (ltb y.0 x.0 || y.0 == x.0 && ltb y.1 x.1)) [
      | inl before ↦
          let le : y.0 ≤ x.0 = ground arith in rw before ((le, All-le y.0 x.0 ys le h.0), h)
      | inr after ↦
          let le : x.0 ≤ y.0 = ground arith in
          rw after
            (insert_scored-All (λ z. z.0 ≤ y.0) x ys le h.0, insert_scored-IsFalling x ys h.1)
    ]

sort_scored-IsFalling : (xs : List Scored) → IsFalling (sort_scored xs)
unfolding sort_scored
sort_scored-IsFalling [] = tt
sort_scored-IsFalling (x ∷ xs) =
    insert_scored-IsFalling x (sort_scored xs) (sort_scored-IsFalling xs)

IsFalling-take : (n : ℕ) (xs : List Scored) → IsFalling xs → IsFalling (take n xs)
IsFalling-take zero xs h = tt
IsFalling-take (suc n) [] h = tt
IsFalling-take (suc n) (x ∷ xs) h = (All-take _ n xs h.0, IsFalling-take n xs h.1)

-- `match` returns at most `limit` capabilities, by falling score; each has one of the statuses asked
-- for, and as its score the overlap of its words with the requirement's, which is not 0.
pub match_lem :
    (requirement : String) (limit : ℕ) (statuses : List Status) (t : Capabilities)
    → let found = match requirement limit statuses t in
      (length found ≤ limit) × IsFalling found × All (IsHit (tokenize requirement) statuses) found
unfolding match
match_lem requirement limit statuses t =
    let rows : List Scored = score_rows (tokenize requirement) statuses (all_capabilities 500 t) in
    (
      length-take-le limit (sort_scored rows),
      IsFalling-take limit (sort_scored rows) (sort_scored-IsFalling rows),
      All-take _ limit (sort_scored rows) (
          sort_scored-All _ rows
            (score_rows-IsHit (tokenize requirement) statuses (all_capabilities 500 t))),
    )

-- A row is not available, or none of its words meets one of the requirement's.
abbrev pub IsUseless : List String → ℕ × CapabilityRecord → Type 0
IsUseless query row = (status_eq row.1.status available ≡ false) ⊎ (meet query (blob row.1) ≡ false)

IsUseless-of_nil :
    (query : List String) (rows : List (ℕ × CapabilityRecord))
    → score_rows query (available ∷ []) rows ≡ []
    → All (IsUseless query) rows
unfolding score_rows
IsUseless-of_nil query [] h = tt
IsUseless-of_nil query ((i, r) ∷ rows) h =
    elim (Bool-cases (status_eq r.status available || false)) [
      | inl on ↦ elim (Bool-cases (ltb 0 (overlap query (blob r)))) [
        | inl hit ↦ ground arith
        | inr miss ↦ (
          inr ((overlap-zero query (blob r)).0 (ground arith)),
          IsUseless-of_nil query rows (rw (on, miss) at h),
        )
      ]
      | inr off ↦ (inl (ground arith), IsUseless-of_nil query rows (rw off at h))
    ]

nil_of_useless :
    (query : List String) (rows : List (ℕ × CapabilityRecord))
    → All (IsUseless query) rows
    → score_rows query (available ∷ []) rows ≡ []
unfolding score_rows
nil_of_useless query [] h = refl
nil_of_useless query ((i, r) ∷ rows) (inl off, h) = rw off (nil_of_useless query rows h)
nil_of_useless query ((i, r) ∷ rows) (inr apart, h) =
    rw ((overlap-zero query (blob r)).1 apart) (ground (arith, nil_of_useless query rows h))

insert_scored-ne-nil : (x : Scored) (xs : List Scored) → insert_scored x xs ≢ []
unfolding insert_scored
insert_scored-ne-nil x [] h = cc
insert_scored-ne-nil x (y ∷ ys) h = ground arith

-- The best ten are none only where there are none.
nil_of_best : (xs : List Scored) → take 10 (sort_scored xs) ≡ [] → xs ≡ []
unfolding sort_scored
nil_of_best [] h = refl
nil_of_best (x ∷ xs) h =
    absurd
      (insert_scored-ne-nil x (sort_scored xs) (nil_of_take (insert_scored x (sort_scored xs)) h))
  where
    nil_of_take : (ys : List Scored) → take 10 ys ≡ [] → ys ≡ []
    nil_of_take [] h = refl
    nil_of_take (y ∷ ys) h = cc

-- The case split of `detect_capability_gap`.
nil_of_gap :
    (xs : List Scored)
    → ◌≡◌ {A = Result Bool} (elim xs [ [] ↦ ok true | ◌∷◌ x xs ↦ ok false ]) (ok true)
    → xs ≡ []
nil_of_gap [] h = refl
nil_of_gap (x ∷ xs) h = cc

-- A gap is reported for a requirement that is not blank exactly when none of the newest 500
-- capabilities is available and has a token that meets one of the requirement's: the same token, or
-- another where one of the two begins with the other and the requirement's has at least four letters.
pub gap_iff :
    (requirement : String) (t : Capabilities)
    → is_blank requirement ≡ false
    → (detect_capability_gap requirement t ≡ ok true)
      ↔ All (IsUseless (tokenize requirement)) (all_capabilities 500 t)
unfolding detect_capability_gap match sort_scored
gap_iff requirement t h =
    let query : List String = tokenize requirement in
    let rows : List (ℕ × CapabilityRecord) = all_capabilities 500 t in
    (
      λ gap. IsUseless-of_nil query rows (nil_of_best _ (nil_of_gap _ (rw h at gap))),
      λ useless. rw (h, nil_of_useless query rows useless),
    )

-- ===== src/Capability/Usage.antt =====
-- The usage records and the queries of src/suns_chan/capability.py: reliability, matching, gaps.
use sunns_chan.Capability.Tokens.{tokenize, overlap}
use sunns_chan.Prelude.{
  ℕ, ◌+◌, String, Bool, true, false, not, ◌&&◌, ◌||◌, Option, none, some, List, [], ◌∷◌,
  if◌then◌else◌, ltb, ◌==◌, str_eq, any, take, member, is_blank, strip, fstring, value_error,
  Result, ok, err, Exec, raise_if, or_raise, lift, gets, ◌>>=◌, ◌>>◌,
}
use sunns_chan.Prelude.Table.{Table, append, next_id, newest}
use sunns_chan.Capability.{
  Status, name, parse_status, CapabilityRecord, CapabilityUsage, Capabilities, get, available,
}

-- The two tables of the store.
pub record CapabilityStore : Type 0 where
  pub capabilities : Capabilities
  pub usages : Table CapabilityUsage

unfoldable pub insert_usage : CapabilityUsage → Exec CapabilityStore (ℕ × CapabilityUsage)
insert_usage u s = (ok (next_id s.usages, u), record s { usages = append u s.usages })

-- `CapabilityStore.record_usage`, at the time `now`
unfoldable pub record_usage :
    ℕ → ℕ → String → String → String → Exec CapabilityStore (ℕ × CapabilityUsage)
record_usage now capability_id result task note = do
  found ← gets (λ s. (get capability_id s.capabilities).0)
  lift found
  raise_if (not (member result ("success" ∷ "failure" ∷ "unknown" ∷ [])))
      (value_error "usage result must be success, failure, or unknown")
  insert_usage (record {
    capability_id = capability_id;
    task = strip task;
    result = result;
    note = strip note;
    occurred_at = now;
  })

abbrev pub status_eq : Status → Status → Bool
status_eq a b = str_eq (name a) (name b)

-- `CapabilityStore.by_name`
unfoldable pub by_name : String → Capabilities → List (ℕ × CapabilityRecord)
by_name title t = newest (λ r. str_eq r.title title) (next_id t) t

-- `CapabilityStore.by_status`
unfoldable pub by_status : String → ℕ → Exec Capabilities (List (ℕ × CapabilityRecord))
by_status status limit = do
  wanted ←
      or_raise (parse_status status)
        (value_error (fstring ("unknown capability status: " ∷ status ∷ [])))
  gets (newest (λ r. status_eq r.status wanted) limit)

-- `CapabilityStore.all`
unfoldable pub all_capabilities : ℕ → Capabilities → List (ℕ × CapabilityRecord)
all_capabilities limit t = newest (λ r. true) limit t

-- `CapabilityStore.available`
unfoldable pub available_rows : ℕ → Capabilities → List (ℕ × CapabilityRecord)
available_rows limit t = newest (λ r. status_eq r.status available) limit t

unfoldable pub count_uses : ℕ → String → Table CapabilityUsage → ℕ
count_uses capability_id result [] = 0
count_uses capability_id result ((_, u) ∷ t) =
    if u.capability_id == capability_id && str_eq u.result result
    then count_uses capability_id result t + 1
    else count_uses capability_id result t

-- `CapabilityStore.reliability`: the counts of which the ratio is taken, `none` without history.
unfoldable pub reliability : ℕ → Table CapabilityUsage → Option (ℕ × ℕ)
reliability capability_id t =
    let won = count_uses capability_id "success" t in
    let total = won + count_uses capability_id "failure" t in
    if total == 0 then none else some (won, total)

spaced : List String → List String
spaced [] = []
spaced (c ∷ cs) = " " ∷ c ∷ spaced cs

-- The words of a capability.
unfoldable pub blob : CapabilityRecord → List String
unfolding spaced
blob r = tokenize (fstring (r.title ∷ " " ∷ r.description ∷ spaced r.capabilities))

unfoldable pub score_rows :
    List String → List Status → List (ℕ × CapabilityRecord) → List (ℕ × ℕ × CapabilityRecord)
score_rows query statuses [] = []
score_rows query statuses ((i, r) ∷ rows) =
    let score = overlap query (blob r) in
    if any (status_eq r.status) statuses && ltb 0 score
    then (score, i, r) ∷ score_rows query statuses rows
    else score_rows query statuses rows

-- Sorted by score and then id, greatest first.
unfoldable pub insert_scored :
    ℕ × ℕ × CapabilityRecord → List (ℕ × ℕ × CapabilityRecord) → List (ℕ × ℕ × CapabilityRecord)
insert_scored x [] = x ∷ []
insert_scored x (y ∷ ys) =
    if ltb y.0 x.0 || y.0 == x.0 && ltb y.1 x.1 then x ∷ y ∷ ys else y ∷ insert_scored x ys

unfoldable pub sort_scored : List (ℕ × ℕ × CapabilityRecord) → List (ℕ × ℕ × CapabilityRecord)
sort_scored [] = []
sort_scored (x ∷ xs) = insert_scored x (sort_scored xs)

-- `CapabilityStore.match`
unfoldable pub match : String → ℕ → List Status → Capabilities → List (ℕ × ℕ × CapabilityRecord)
match requirement limit statuses t =
    take limit (sort_scored (score_rows (tokenize requirement) statuses (all_capabilities 500 t)))

-- `detect_capability_gap`: true for a gap.
unfoldable pub detect_capability_gap : String → Capabilities → Result Bool
detect_capability_gap requirement t =
    if is_blank requirement
    then err (value_error "requirement must be non-empty")
    else elim (match requirement 10 (available ∷ []) t) [ [] ↦ ok true | ◌∷◌ x xs ↦ ok false ]

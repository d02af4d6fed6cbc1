-- ===== src/Learned/Confidence.antt =====
-- `compute_confidence` and `status_for` of src/suns_chan/learned.py.
use native.Mathlib.Nat.{
  le-div_iff_mul-le, div-lt_iff_lt-mul, le_of_mul-le-mul_left, mul-le-mul_right, mul-le-mul,
  add_comm, le_trans,
}
use sunns_chan.Prelude.{
  ℕ, ◌+◌, ◌-◌, ◌*◌, ◌≤◌, ◌<◌, min, Bool, true, ◌≡◌, ◌↔◌, Bool-cases, inl, inr, leb, arith,
}
use sunns_chan.Prelude.Int.{ℤ, pos, negsuc, neg_part, ◌+ℤ◌, ◌≤ℤ◌, sub_ℕ}
use sunns_chan.Learned.{
  established, share, evidence_term, clamped, recency, compute_confidence, status_for,
}

-- What the code computes as a share grows with the ratio.
share_mono : (d t d' t' : ℕ) → 0 < t → 0 < t' → d * t' ≤ d' * t → share d t ≤ share d' t'
share_mono d t d' t' h h' r =
    let q : ℕ = share d t in
    let low : q * (2 * t) ≤ 8000 * d + t = (le-div_iff_mul-le (omega arith)).0 (omega arith) in
    let scaled : q * (2 * t) * t' ≤ (8000 * d + t) * t' = mul-le-mul_right t' low in
    (le-div_iff_mul-le (omega arith)).1 (le_of_mul-le-mul_left (omega arith) h)

share_small : (d t : ℕ) → d ≤ t → 0 < t → share d t < 4001
share_small d t h p = (div-lt_iff_lt-mul (omega arith)).1 (omega arith)

-- The ratio of the difference to the sum grows with the larger count and falls with the smaller one.
share-difference :
    (m n m' n' : ℕ)
    → n ≤ m
    → n' ≤ m'
    → m ≤ m'
    → n' ≤ n
    → share (m - n) (m + n + 4) ≤ share (m' - n') (m' + n' + 4)
share-difference m n m' n' h h' k l =
    let a = m - n in
    let b = m' - n' in
    let p : a * (2 * n' + 4) ≤ b * (2 * n + 4) = mul-le-mul (omega arith) (omega arith) in
    let e : m + n + 4 ≡ a + (2 * n + 4) = omega arith in
    let e' : m' + n' + 4 ≡ b + (2 * n' + 4) = omega arith in
    share_mono a (m + n + 4) b (m' + n' + 4) (omega arith) (omega arith) (rw (e, e') (omega arith))

negated : (x y : ℕ) → x ≤ y → sub_ℕ 0 y ≤ℤ sub_ℕ 0 x
negated x y h = ground arith

below_zero : (x y : ℕ) → sub_ℕ 0 x ≤ℤ pos y
below_zero x y = ground arith

-- The evidence term grows with the support and falls with the contradictions.
evidence_term_mono : (s c s' c' : ℕ) → s ≤ s' → c' ≤ c → evidence_term s c ≤ℤ evidence_term s' c'
unfolding evidence_term
evidence_term_mono s c s' c' h k = elim (Bool-cases (leb c s)) [
  | inl e ↦ elim (Bool-cases (leb c' s')) [
    | inl e' ↦
        let m : share (s - c) (s + c + 4) ≤ share (s' - c') (s' + c' + 4) =
          share-difference s c s' c' (ground arith) (ground arith) h k in
        rw (e, e') (ground arith)
    | inr e' ↦ absurd (ground arith)
  ]
  | inr e ↦ elim (Bool-cases (leb c' s')) [
    | inl e' ↦ rw (e, e') (below_zero (share (c - s) (s + c + 4)) (share (s' - c') (s' + c' + 4)))
    | inr e' ↦
        let m : share (c' - s') (s' + c' + 4) ≤ share (c - s) (s + c + 4) =
          rw (add_comm s' c', add_comm s c)
            (share-difference c' s' c s (ground arith) (ground arith) k h) in
        rw (e, e') (negated (share (c' - s') (s' + c' + 4)) (share (c - s) (s + c + 4)) m)
  ]
]

pos-≤ℤ : (a b : ℕ) → a ≤ b → pos a ≤ℤ pos b
pos-≤ℤ a b h = omega arith

sum_mono : (x y z w : ℤ) → x ≤ℤ y → z ≤ℤ w → x +ℤ z ≤ℤ y +ℤ w
unfolding ◌+ℤ◌
sum_mono x y z w h k = ground arith

clamped_mono : (x y : ℤ) → x ≤ℤ y → clamped x ≤ clamped y
clamped_mono (pos a) (pos b) h = ground arith
clamped_mono (pos a) (negsuc b) h = ground arith
clamped_mono (negsuc a) y h = ground arith

total_mono :
    (x y : ℤ) (d d' r : ℕ)
    → x ≤ℤ y
    → d ≤ d'
    → clamped (pos 5000 +ℤ x +ℤ pos d +ℤ pos r) ≤ clamped (pos 5000 +ℤ y +ℤ pos d' +ℤ pos r)
total_mono x y d d' r h k =
    let a = sum_mono (pos 5000) (pos 5000) x y (pos-≤ℤ 5000 5000 (omega arith)) h in
    let b = sum_mono (pos 5000 +ℤ x) (pos 5000 +ℤ y) (pos d) (pos d') a (pos-≤ℤ d d' k) in
    clamped_mono (pos 5000 +ℤ x +ℤ pos d +ℤ pos r) (pos 5000 +ℤ y +ℤ pos d' +ℤ pos r) (
      sum_mono (pos 5000 +ℤ x +ℤ pos d) (pos 5000 +ℤ y +ℤ pos d') (pos r) (pos r) b
        (pos-≤ℤ r r (omega arith)))

-- More support, fewer contradictions and more distinct evidence never give less confidence.
pub compute_confidence_mono :
    (s c d s' c' d' : ℕ) (recent : Bool)
    → s ≤ s'
    → c' ≤ c
    → d ≤ d'
    → (compute_confidence s c d recent).confidence ≤ (compute_confidence s' c' d' recent).confidence
unfolding compute_confidence
compute_confidence_mono s c d s' c' d' recent hs hc hd =
    total_mono (evidence_term s c) (evidence_term s' c') (min 1000 (200 * d)) (min 1000 (200 * d'))
      (recency recent) (evidence_term_mono s c s' c' hs hc) (omega arith)

-- A status is earned by the counts and the confidence together.
pub status_for-established :
    (s c confidence : ℕ)
    → (status_for s c confidence ≡ established) ↔ ((3 ≤ s) × (2 * c < s) × (4000 ≤ confidence))
unfolding status_for
status_for-established s c confidence = ground arith

at_least_half : (q d r : ℕ) → 5000 ≤ clamped (pos 5000 +ℤ pos q +ℤ pos d +ℤ pos r)
unfolding ◌+ℤ◌
at_least_half q d r = ground arith

confidence_supported : (s c d : ℕ) → c ≤ s → 5000 ≤ (compute_confidence s c d true).confidence
unfolding compute_confidence evidence_term
confidence_supported s c d h =
    let e : leb c s ≡ true = ground arith in
    rw e (at_least_half (share (s - c) (s + c + 4)) (min 1000 (200 * d)) 300)

-- What new evidence establishes is settled by the counts: at least three sightings support it, and they
-- are more than twice as many as those against it.
pub fresh_established_iff :
    (s c d : ℕ)
    → (status_for s c (compute_confidence s c d true).confidence ≡ established)
      ↔ ((3 ≤ s) × (2 * c < s))
fresh_established_iff s c d =
    let (earned, enough) = status_for-established s c (compute_confidence s c d true).confidence in
    (
      λ h. ((earned h).0, (earned h).1),
      λ h. enough (h.0, h.1, le_trans (omega arith) (confidence_supported s c d (omega arith))),
    )

top : (x : ℤ) (d r : ℕ) → clamped (pos 5000 +ℤ x +ℤ pos d +ℤ pos r) ≤ 9500
top x d r = omega arith

bottom : (x : ℤ) (d r : ℕ) → neg_part x ≤ 4000 → 1000 ≤ clamped (pos 5000 +ℤ x +ℤ pos d +ℤ pos r)
unfolding ◌+ℤ◌
bottom x d r h = ground arith

negated_small : (x : ℕ) → x < 4001 → neg_part (sub_ℕ 0 x) ≤ 4000
negated_small x h = ground arith

evidence_term-low : (s c : ℕ) → neg_part (evidence_term s c) ≤ 4000
unfolding evidence_term
evidence_term-low s c = elim (Bool-cases (leb c s)) [
  | inl e ↦ rw e (ground arith)
  | inr e ↦ rw e (
      negated_small (share (c - s) (s + c + 4))
        (share_small (c - s) (s + c + 4) (omega arith) (omega arith)))
]

-- Every confidence lies between 0.1 and 0.95: the bound of 0.05 below is never reached.
pub compute_confidence-bounds :
    (s c d : ℕ) (recent : Bool)
    → (1000 ≤ (compute_confidence s c d recent).confidence)
      × ((compute_confidence s c d recent).confidence ≤ 9500)
unfolding compute_confidence
compute_confidence-bounds s c d recent = (
  bottom (evidence_term s c) (min 1000 (200 * d)) (recency recent) (evidence_term-low s c),
  top (evidence_term s c) (min 1000 (200 * d)) (recency recent),
)

-- ===== src/Capability/Words.antt =====
-- When the overlap of two sets of tokens, as src/suns_chan/capability.py counts it, is nothing.
use sunns_chan.Prelude.{
  ◌+◌, String, Bool, true, false, ◌≡◌, refl, ◌∙◌, subst, ◌||◌, List, [], ◌∷◌, if◌then◌else◌, str_eq,
  any, member, eq_iff, Bool-cases, inl, inr, arith, ◌↔◌,
}
use sunns_chan.Capability.Tokens.{distinct, near, token_score, sum_scores, overlap}

-- A token of a requirement meets one of a capability: they are the same, or one of the two begins with
-- the other and the requirement's has at least four letters.
abbrev pub meets : String → String → Bool
meets q t = str_eq q t || near q t

-- Does any of the words of a requirement meet one of a capability?
abbrev pub meet : List String → List String → Bool
meet query tokens = any (λ q. any (meets q) tokens) query

any-at :
    (p : String → Bool) (t : String) (ts : List String)
    → member t ts ≡ true
    → p t ≡ true
    → any p ts ≡ true
unfolding member
any-at p t [] h e = absurd (cc h)
any-at p t (u ∷ ts) h e = elim (Bool-cases (str_eq t u)) [
  | inl same ↦
      let s : t ≡ u = (eq_iff t u).0 same in let first : p u ≡ true = rw⁻¹ s e in rw first refl
  | inr other ↦ ground (arith, any-at p t ts (rw other at h) e)
]

-- To count a word once is no loss.
any-distinct : (p : String → Bool) (ts : List String) → any p (distinct ts) ≡ any p ts
unfolding distinct
any-distinct p [] = refl
any-distinct p (t ∷ ts) = elim (Bool-cases (member t (distinct ts))) [
  | inr fresh ↦ rw (fresh, any-distinct p ts) refl
  | inl again ↦ elim (Bool-cases (p t)) [
    | inr off ↦ rw (again, off) (any-distinct p ts)
    | inl on ↦ rw (again, on) (any-at p t (distinct ts) again on)
  ]
]

any-or : (p q : String → Bool) (ts : List String) → any (λ t. p t || q t) ts ≡ any p ts || any q ts
any-or p q [] = refl
any-or p q (t ∷ ts) = ground (arith, any-or p q ts)

any-cong :
    (p q : String → Bool) (ts : List String) → ((t : String) → p t ≡ q t) → any p ts ≡ any q ts
any-cong p q [] same = refl
any-cong p q (t ∷ ts) same = rw (same t, any-cong p q ts same) refl

module _ (tokens : List String) where
  token_score-zero : (q : String) → (token_score tokens q ≡ 0) ↔ (any (meets q) tokens ≡ false)
  unfolding token_score member
  token_score-zero q =
      rw (any-or (str_eq q) (near q) tokens) (both (any (str_eq q) tokens) (any (near q) tokens))
    where
      both : (a b : Bool) → ((if a then 1 else 0) + (if b then 1 else 0) ≡ 0) ↔ (a || b ≡ false)
      both true true = ((λ h. ground arith), (λ h. cc))
      both true false = ((λ h. ground arith), (λ h. cc))
      both false true = ((λ h. ground arith), (λ h. cc))
      both false false = ((λ h. refl), (λ h. refl))

  sum_scores-zero :
      (query : List String) → (sum_scores tokens query ≡ 0) ↔ (meet query tokens ≡ false)
  unfolding sum_scores
  sum_scores-zero [] = ((λ h. refl), (λ h. refl))
  sum_scores-zero (q ∷ qs) = (
    (λ h.
        let one : any (meets q) tokens ≡ false = (token_score-zero q).0 (omega arith) in
        let rest : meet qs tokens ≡ false = (sum_scores-zero qs).0 (omega arith) in
        rw (one, rest) refl),
    (λ h. elim (Bool-cases (any (meets q) tokens)) [
      | inl on ↦ absurd (cc (rw on at h))
      | inr off ↦
          let one : token_score tokens q ≡ 0 = (token_score-zero q).1 off in
          let rest : sum_scores tokens qs ≡ 0 = (sum_scores-zero qs).1 (rw off at h) in omega arith
    ]),
  )

-- The overlap is nothing exactly when no word of the requirement meets one of the capability.
pub overlap-zero :
    (query tokens : List String) → (overlap query tokens ≡ 0) ↔ (meet query tokens ≡ false)
unfolding overlap
overlap-zero query tokens =
    subst (λ b. (overlap query tokens ≡ 0) ↔ (b ≡ false))
      (any-distinct (λ q. any (meets q) (distinct tokens)) query
        ∙ any-cong _ _ query (λ q. any-distinct (meets q) tokens))
      (sum_scores-zero (distinct tokens) (distinct query))

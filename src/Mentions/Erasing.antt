-- ===== src/Mentions/Erasing.antt =====
-- The loop of stripRoleMentions: it ends, and it ends where neither pattern has a match.
use announcement_tool.Common.{
  ℕ, zero, suc, ◌≤◌, ◌<◌, ◌≡◌, refl, ap, ◌⊎◌, inl, inr, Bool, false, ◌||◌, [], ◌∷◌, Text, text_eq,
  text_eq_iff, length, ltb, arith, Bool-cases,
}
use announcement_tool.Mentions.{erase, mention_length, everyone_length, strip_round, strip_loop}

-- Somewhere in the text the pattern has a match.
unfoldable pub hits : (Text → ℕ) → Text → Bool
hits m [] = false
hits m (c ∷ s) = ltb 0 (m (c ∷ s)) || hits m s

length_case : (n : ℕ) → (n ≡ 0) ⊎ ((k : ℕ) × (n ≡ suc k))
length_case zero = inl refl
length_case (suc k) = inr (k, refl)

module _ (m : Text → ℕ) where
  length-erase : (skip : ℕ) (s : Text) → length (erase m skip s) ≤ length s
  unfolding erase
  length-erase skip [] = omega arith
  length-erase (suc skip) (c ∷ s) = omega (arith, length-erase skip s)
  length-erase zero (c ∷ s) = elim (length_case (m (c ∷ s))) [
    | inl e ↦ rw (e, erase) (omega (arith, length-erase zero s))
    | inr (k, e) ↦ rw (e, erase) (omega (arith, length-erase k s))
  ]

  -- A replacement changes nothing, there being no match, or shortens the text.
  erase_cases :
      (s : Text) → ((erase m 0 s ≡ s) × (hits m s ≡ false)) ⊎ (length (erase m 0 s) < length s)
  unfolding erase hits
  erase_cases [] = inl (refl, refl)
  erase_cases (c ∷ s) = elim (length_case (m (c ∷ s))) [
    | inr (k, e) ↦ inr (rw (e, erase) (omega (arith, length-erase k s)))
    | inl e ↦ elim (erase_cases s) [
      | inl (same, none) ↦ inl (rw (e, erase) (ap (λ t. c ∷ t) same), rw e none)
      | inr shorter ↦ inr (rw (e, erase) (omega (arith, shorter)))
    ]
  ]

-- Neither pattern has a match.
abbrev pub Clean : Text → Type 0
Clean s = (hits mention_length s ≡ false) × (hits everyone_length s ≡ false)

strip_round_cases :
    (s : Text) → ((strip_round s ≡ s) × Clean s) ⊎ (length (strip_round s) < length s)
unfolding strip_round
strip_round_cases s = elim (erase_cases mention_length s) [
  | inr shorter ↦
      inr (omega (arith, shorter, length-erase everyone_length 0 (erase mention_length 0 s)))
  | inl (same, none) ↦ elim (erase_cases everyone_length s) [
    | inr shorter ↦ inr (rw same shorter)
    | inl (same2, none2) ↦ inl (rw same same2, (none, none2))
  ]
]

-- With fuel for each unit of the text, the loop ends: another round changes nothing, and the result
-- has no match.
pub strip_loop-Clean :
    (fuel : ℕ) (s : Text)
    → length s < fuel
    → (strip_round (strip_loop fuel s) ≡ strip_loop fuel s) × Clean (strip_loop fuel s)
unfolding strip_loop
strip_loop-Clean zero s h = absurd (omega arith)
strip_loop-Clean (suc fuel) s h = elim (strip_round_cases s) [
  | inl (same, clean) ↦
      rw ((text_eq_iff (strip_round s) s).1 same, strip_loop) (rw same (same, clean))
  | inr shorter ↦ elim (Bool-cases (text_eq (strip_round s) s)) [
    | inl e ↦
        let same = (text_eq_iff (strip_round s) s).0 e in absurd (omega (arith, rw same at shorter))
    | inr e ↦ rw (e, strip_loop) (strip_loop-Clean fuel (strip_round s) (omega (arith, shorter, h)))
  ]
]

-- ===== src/Mentions/Squeezing.antt =====
-- stripRoleMentions: the prefix has no mention after its spaces are collapsed and trimmed.
use announcement_tool.Common.{
  ℕ, suc, ◌≡◌, refl, inl, inr, Bool, true, false, [], ◌∷◌, ◌++◌, Text, is_space, collapse_runs,
  trim, trim_split, length, ltb, arith, Bool-cases, All, or-eq-false,
}
use announcement_tool.Mentions.{
  mention_length, everyone_length, strip_round, strip_loop, strip_role_mentions,
}
use announcement_tool.Mentions.Erasing.{hits, Clean, strip_loop-Clean}
use announcement_tool.Mentions.Spaces.{
  Stops, SameInk, stops, goes_on, mention_length-SameInk, everyone_length-SameInk,
}

pub one_space : is_space 32 ≡ true
unfolding is_space
one_space = refl

collapse_runs-SameInk : (s : Text) → SameInk s (collapse_runs is_space false s)
unfolding collapse_runs
collapse_runs-SameInk [] = stops [] [] tt tt
collapse_runs-SameInk (c ∷ s) = elim (Bool-cases (is_space c)) [
  | inl e ↦ rw (e, collapse_runs) (stops (c ∷ s) _ e one_space)
  | inr e ↦
      rw (e, collapse_runs)
        (goes_on c s (collapse_runs is_space false s) e (collapse_runs-SameInk s))
]

-- What stands before a space, and the same text alone.
pub append-SameInk : (s u : Text) → Stops u → SameInk s (s ++ u)
append-SameInk [] u h = stops [] u tt h
append-SameInk (c ∷ s) u h = elim (Bool-cases (is_space c)) [
  | inl e ↦ stops (c ∷ s) (c ∷ s ++ u) e e
  | inr e ↦ goes_on c s (s ++ u) e (append-SameInk s u h)
]

pub Stops-spaces : (u : Text) → All (λ c. is_space c ≡ true) u → Stops u
Stops-spaces [] h = tt
Stops-spaces (c ∷ u) h = h.0

module _ (m : Text → ℕ) (same : (s t : Text) → SameInk s t → m s ≡ m t) (start : m [] ≡ 0) where
  no_space : (s : Text) → Stops s → ltb 0 (m s) ≡ false
  no_space s h = rw (same s [] (stops s [] h tt), start) refl

  hits-collapse_runs :
      (spaced : Bool) (s : Text)
      → hits m s ≡ false
      → hits m (collapse_runs is_space spaced s) ≡ false
  unfolding hits collapse_runs
  hits-collapse_runs spaced [] h = refl
  hits-collapse_runs spaced (c ∷ s) h =
      let (first, rest) = or-eq-false (ltb 0 (m (c ∷ s))) (hits m s) h in
      elim (Bool-cases (is_space c)) [
        | inr e ↦
            let ink =
              same (c ∷ s) (c ∷ collapse_runs is_space false s)
                (goes_on c s (collapse_runs is_space false s) e (collapse_runs-SameInk s)) in
            rw (e, ← ink, first, collapse_runs) (hits-collapse_runs false s rest)
        | inl e ↦ elim (Bool-cases spaced) [
          | inl f ↦ rw (e, f, collapse_runs) (hits-collapse_runs true s rest)
          | inr f ↦
              rw (e, f, collapse_runs)
                (rw (no_space (32 ∷ collapse_runs is_space true s) one_space)
                  (hits-collapse_runs true s rest))
        ]
      ]

  hits-append_right : (b s : Text) → hits m (b ++ s) ≡ false → hits m s ≡ false
  unfolding hits
  hits-append_right [] s h = h
  hits-append_right (c ∷ b) s h = hits-append_right b s (or-eq-false _ (hits m (b ++ s)) h).1

  hits-append_left : (s u : Text) → Stops u → hits m (s ++ u) ≡ false → hits m s ≡ false
  unfolding hits
  hits-append_left [] u k h = refl
  hits-append_left (c ∷ s) u k h =
      let (first, rest) = or-eq-false (ltb 0 (m (c ∷ s ++ u))) (hits m (s ++ u)) h in
      rw (same (c ∷ s) (c ∷ s ++ u) (append-SameInk (c ∷ s) u k), first)
        (hits-append_left s u k rest)

  hits-trim : (s : Text) → hits m s ≡ false → hits m (trim s) ≡ false
  hits-trim s h =
      let (b, u, before, after, e) = trim_split s in
      hits-append_left (trim s) u (Stops-spaces u after)
        (hits-append_right b (trim s ++ u) (rw (← e) h))

-- The loop of `stripRoleMentions` ends, whatever the prefix: it has found a text that another round
-- leaves as it is. What the function returns has no role or user mention and no literal @everyone or
-- @here, wherever they are spliced in the prefix.
pub strip_role_mentions-Clean :
    (s : Text)
    → (strip_round (strip_loop (suc (length s)) s) ≡ strip_loop (suc (length s)) s)
      × Clean (strip_role_mentions s)
unfolding strip_role_mentions
strip_role_mentions-Clean s =
    let r = strip_loop (suc (length s)) s in
    let (same, (mention, everyone)) = strip_loop-Clean (suc (length s)) s (omega arith) in
    (
      same,
      (
        hits-trim mention_length mention_length-SameInk refl (collapse_runs is_space false r)
            (hits-collapse_runs mention_length mention_length-SameInk refl false r mention),
        hits-trim everyone_length everyone_length-SameInk refl (collapse_runs is_space false r)
            (hits-collapse_runs everyone_length everyone_length-SameInk refl false r everyone),
      ),
    )

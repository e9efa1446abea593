-- ===== src/Delivery/Redacting.antt =====
-- The redaction of a token from a text, and what is done to the text after it: the token stays hidden.
use announcement_tool.Common.{
  ℕ, zero, suc, ◌-◌, ◌≡◌, refl, sym, ◌∙◌, inl, inr, Bool, true, false, false-ne-true, ◌||◌, ◌↔◌, [],
  ◌∷◌, ◌++◌, Text, take, trim, trim_split, collapse_runs, length, ◌==◌, arith, Bool-cases, All,
  or-eq-false, starts_with, starts_with-append, is_blank, Contains,
}
use announcement_tool.Delivery.{hide, redact}

-- The text is somewhere in the other.
unfoldable pub occurs : Text → Text → Bool
occurs token [] = false
occurs token (c ∷ s) = starts_with token (c ∷ s) || occurs token s

-- A token that no redaction can complete: it is not empty, and no unit of it is a star or in the class
-- of the spaces.
pub record IsToken (token : Text) : Type 0 where
  pub given : is_blank token ≡ false
  pub no_star : All (λ c. (c == b'*') ≡ false) token
  pub no_space : All (λ c. (c == b' ') ≡ false) token

same_test : (a b : ℕ) → (a == b) ≡ (b == a)
same_test a b = ground arith

starts_with-nil : (token : Text) → is_blank token ≡ false → starts_with token [] ≡ false
unfolding starts_with
starts_with-nil [] h = cc
starts_with-nil (c ∷ token) h = refl

starts_with-cons :
    (w : Text) (d : ℕ) (s : Text)
    → is_blank w ≡ false
    → All (λ c. (c == d) ≡ false) w
    → starts_with w (d ∷ s) ≡ false
unfolding starts_with
starts_with-cons [] d s h k = cc
starts_with-cons (c ∷ w) d s h k = rw (k.0) refl

starts_with_more :
    (x : ℕ) (w : Text) (c : ℕ) (s : Text)
    → (starts_with (x ∷ w) (c ∷ s) ≡ true) ↔ (((x == c) ≡ true) × (starts_with w s ≡ true))
unfolding starts_with
starts_with_more x w c s = (λ h. (ground arith, ground arith), λ (h, k). rw (h, k) refl)

starts_with_nothing : (s : Text) → starts_with [] s ≡ true
unfolding starts_with
starts_with_nothing s = refl

starts_occurs :
    (token after : Text) → is_blank token ≡ false → occurs token (token ++ after) ≡ false → ⊥
unfolding occurs
starts_occurs [] after h k = cc
starts_occurs (c ∷ w) after h k =
    false-ne-true (sym (or-eq-false _ _ k).0 ∙ starts_with-append (c ∷ w) after)

-- What starts with some units after the replacement did so before it, if none of them is a star.
starts_with-hide :
    (token w s : Text)
    → All (λ c. (c == b'*') ≡ false) w
    → starts_with w (hide token 0 s) ≡ true
    → starts_with w s ≡ true
unfolding hide
starts_with-hide token [] s n h = starts_with_nothing s
starts_with-hide token (x ∷ w) [] n h = h
starts_with-hide token (x ∷ w) (c ∷ s) n h = elim (Bool-cases (starts_with token (c ∷ s))) [
  | inl e ↦
      absurd (false-ne-true (sym n.0 ∙ ((starts_with_more x w b'*' _).0 (rw (e, hide) at h)).0))
  | inr e ↦
      let (first, rest) = (starts_with_more x w c (hide token 0 s)).0 (rw (e, hide) at h) in
      (starts_with_more x w c s).1 (first, starts_with-hide token w s n.1 rest)
]

-- The same, for the replacement of each run of a class by a space.
starts_with-collapse_runs :
    (p : ℕ → Bool) (w s : Text)
    → All (λ c. (c == b' ') ≡ false) w
    → starts_with w (collapse_runs p false s) ≡ true
    → starts_with w s ≡ true
unfolding collapse_runs
starts_with-collapse_runs p [] s n h = starts_with_nothing s
starts_with-collapse_runs p (x ∷ w) [] n h = h
starts_with-collapse_runs p (x ∷ w) (c ∷ s) n h = elim (Bool-cases (p c)) [
  | inl e ↦
      absurd
        (false-ne-true (sym n.0 ∙ ((starts_with_more x w b' ' _).0 (rw (e, collapse_runs) at h)).0))
  | inr e ↦
      let (first, rest) =
        (starts_with_more x w c (collapse_runs p false s)).0 (rw (e, collapse_runs) at h) in
      (starts_with_more x w c s).1 (first, starts_with-collapse_runs p w s n.1 rest)
]

starts_with-take : (n : ℕ) (w s : Text) → starts_with w (take n s) ≡ true → starts_with w s ≡ true
starts_with-take zero [] s h = starts_with_nothing s
starts_with-take zero (x ∷ w) s h = absurd (false-ne-true (sym (starts_with-nil (x ∷ w) refl) ∙ h))
starts_with-take (suc n) [] s h = starts_with_nothing s
starts_with-take (suc n) (x ∷ w) [] h = h
starts_with-take (suc n) (x ∷ w) (c ∷ s) h =
    let (first, rest) = (starts_with_more x w c (take n s)).0 h in
    (starts_with_more x w c s).1 (first, starts_with-take n w s rest)

starts_with-append_right : (w s u : Text) → starts_with w s ≡ true → starts_with w (s ++ u) ≡ true
starts_with-append_right [] s u h = starts_with_nothing (s ++ u)
starts_with-append_right (x ∷ w) [] u h =
    absurd (false-ne-true (sym (starts_with-nil (x ∷ w) refl) ∙ h))
starts_with-append_right (x ∷ w) (c ∷ s) u h =
    let (first, rest) = (starts_with_more x w c s).0 h in
    (starts_with_more x w c (s ++ u)).1 (first, starts_with-append_right w s u rest)

-- A test that holds only where another holds is false where that one is.
false_before : (a b : Bool) → (a ≡ true → b ≡ true) → b ≡ false → a ≡ false
false_before true b f h = absurd (false-ne-true (sym h ∙ f refl))
false_before false b f h = refl

module _ (token : Text) (t : IsToken token) where
  occurs-cons :
      (c : ℕ) (s : Text)
      → starts_with token (c ∷ s) ≡ false
      → occurs token s ≡ false
      → occurs token (c ∷ s) ≡ false
  unfolding occurs
  occurs-cons c s h k = rw (h, k) refl

  occurs_parts :
      (c : ℕ) (s : Text)
      → occurs token (c ∷ s) ≡ false
      → (starts_with token (c ∷ s) ≡ false) × (occurs token s ≡ false)
  unfolding occurs
  occurs_parts c s h = or-eq-false _ _ h

  star : (s : Text) → occurs token s ≡ false → occurs token (b'*' ∷ s) ≡ false
  star s h = occurs-cons b'*' s (starts_with-cons token b'*' s t.given t.no_star) h

  occurs-hide : (skip : ℕ) (s : Text) → occurs token (hide token skip s) ≡ false
  unfolding occurs hide
  occurs-hide skip [] = refl
  occurs-hide (suc skip) (c ∷ s) = occurs-hide skip s
  occurs-hide zero (c ∷ s) = elim (Bool-cases (starts_with token (c ∷ s))) [
    | inl e ↦ rw (e, hide) (star _ (star _ (star _ (occurs-hide (length token - 1) s))))
    | inr e ↦
        let same : hide token 0 (c ∷ s) ≡ c ∷ hide token 0 s = rw (e, hide) refl in
        let kept : starts_with token (hide token 0 (c ∷ s)) ≡ false =
          false_before _ _ (starts_with-hide token token (c ∷ s) t.no_star) e in
        rw (e, hide) (occurs-cons c (hide token 0 s) (rw same at kept) (occurs-hide zero s))
  ]

  pub occurs-redact : (raw : Text) → occurs token (redact token raw) ≡ false
  unfolding redact
  occurs-redact raw = rw t.given (occurs-hide 0 raw)

  pub occurs-take : (n : ℕ) (s : Text) → occurs token s ≡ false → occurs token (take n s) ≡ false
  unfolding occurs
  occurs-take zero s h = refl
  occurs-take (suc n) [] h = refl
  occurs-take (suc n) (c ∷ s) h =
      let (first, rest) = occurs_parts c s h in
      occurs-cons c (take n s) (false_before _ _ (starts_with-take (suc n) token (c ∷ s)) first)
        (occurs-take n s rest)

  pub occurs-collapse_runs :
      (p : ℕ → Bool) (spaced : Bool) (s : Text)
      → occurs token s ≡ false
      → occurs token (collapse_runs p spaced s) ≡ false
  unfolding occurs collapse_runs
  occurs-collapse_runs p spaced [] h = refl
  occurs-collapse_runs p spaced (c ∷ s) h =
      let (first, rest) = occurs_parts c s h in
      elim (Bool-cases (p c)) [
        | inl e ↦ elim (Bool-cases spaced) [
          | inl f ↦ rw (e, f, collapse_runs) (occurs-collapse_runs p true s rest)
          | inr f ↦
              rw (e, f, collapse_runs)
                (occurs-cons b' ' _ (starts_with-cons token b' ' _ t.given t.no_space)
                  (occurs-collapse_runs p true s rest))
        ]
        | inr e ↦
            let same : collapse_runs p false (c ∷ s) ≡ c ∷ collapse_runs p false s =
              rw (e, collapse_runs) refl in
            let kept : starts_with token (collapse_runs p false (c ∷ s)) ≡ false =
              false_before _ _ (starts_with-collapse_runs p token (c ∷ s) t.no_space) first in
            rw (e, collapse_runs)
              (occurs-cons c (collapse_runs p false s) (rw same at kept)
                (occurs-collapse_runs p false s rest))
      ]

  occurs-append_right : (b s : Text) → occurs token (b ++ s) ≡ false → occurs token s ≡ false
  occurs-append_right [] s h = h
  occurs-append_right (c ∷ b) s h = occurs-append_right b s (occurs_parts c (b ++ s) h).1

  occurs-append_left : (s u : Text) → occurs token (s ++ u) ≡ false → occurs token s ≡ false
  unfolding occurs
  occurs-append_left [] u h = refl
  occurs-append_left (c ∷ s) u h =
      let (first, rest) = occurs_parts c (s ++ u) h in
      occurs-cons c s (false_before _ _ (starts_with-append_right token (c ∷ s) u) first)
        (occurs-append_left s u rest)

  pub occurs-trim : (s : Text) → occurs token s ≡ false → occurs token (trim s) ≡ false
  occurs-trim s h =
      let (b, u, before, after, e) = trim_split s in
      occurs-append_left (trim s) u (occurs-append_right b (trim s ++ u) (rw (← e) h))

  -- A text in which the token does not occur does not have it as a part.
  pub occurs-Contains : (s : Text) → occurs token s ≡ false → Contains token s → ⊥
  occurs-Contains s h (before, after, e) =
      starts_occurs token after t.given (occurs-append_right before (token ++ after) (rw e at h))

-- ===== src/Mentions/Spaces.antt =====
-- The patterns of mentions read no space: what stands before the next space decides a match.
use announcement_tool.Common.{
  ℕ, ◌≡◌, refl, sym, ap, ◌∙◌, inl, inr, true, false, ◌&&◌, [], ◌∷◌, Option, none, some, Text, codes,
  is_space, ◌==◌, arith, Bool-cases, false-ne-true, All,
}
use announcement_tool.Mentions.{
  is_digit, is_word, digits_close, not_empty, numeral, after_open, mention_after, mention_length,
  word_at, everyone_length, role_after, role_at,
}

-- The text ends or goes on with a space.
abbrev pub Stops : Text → Type 0
Stops [] = Unit
Stops (c ∷ s) = is_space c ≡ true

-- The two texts have the same units before their next space.
pub data SameInk : Text → Text → Type 0 where
  stops : (s t : Text) → Stops s → Stops t → SameInk s t
  goes_on : (c : ℕ) (s t : Text) → is_space c ≡ false → SameInk s t → SameInk (c ∷ s) (c ∷ t)

space_digit : (c : ℕ) → is_space c ≡ true → is_digit c ≡ false
unfolding is_space
space_digit c h = ground arith

space_word : (c : ℕ) → is_space c ≡ true → is_word c ≡ false
unfolding is_space
space_word c h = ground arith

space_unit : (c d : ℕ) → is_space c ≡ true → is_space d ≡ false → (c == d) ≡ false
space_unit c d h k = elim (Bool-cases (c == d)) [
  | inr e ↦ e
  | inl e ↦ let same : c ≡ d = ground arith in absurd (false-ne-true (sym k ∙ (rw (← same) h)))
]

digits_close-Stops : (s : Text) → Stops s → digits_close s ≡ none
unfolding digits_close is_space
digits_close-Stops [] h = refl
digits_close-Stops (c ∷ s) h = rw (space_digit c h, space_unit c b'>' h refl) refl

digits_close-SameInk : (s t : Text) → SameInk s t → digits_close s ≡ digits_close t
unfolding digits_close
digits_close-SameInk s t (stops _ _ h k) = digits_close-Stops s h ∙ sym (digits_close-Stops t k)
digits_close-SameInk s t (goes_on c s' t' h k) = rw (digits_close-SameInk s' t' k) refl

numeral-SameInk : (s t : Text) → SameInk s t → numeral s ≡ numeral t
unfolding numeral
numeral-SameInk s t h = ap not_empty (digits_close-SameInk s t h)

after_open-Stops : (s : Text) → Stops s → after_open s ≡ none
unfolding after_open is_space
after_open-Stops [] h = refl
after_open-Stops (c ∷ []) h = refl
after_open-Stops (c ∷ d ∷ s) h = rw (space_unit c b'<' h refl) refl

after_open_one : (c : ℕ) (s : Text) → Stops s → after_open (c ∷ s) ≡ none
unfolding after_open is_space
after_open_one c [] h = refl
after_open_one c (d ∷ s) h = elim (Bool-cases (c == b'<')) [
  | inl e ↦ rw (e, space_unit d b'@' h refl) refl
  | inr e ↦ rw e refl
]

-- Both have no opening, or both have one and the same units after it.
abbrev SameOpening : Option Text → Option Text → Type 0
SameOpening none none = Unit
SameOpening (some u) (some v) = SameInk u v
SameOpening _ _ = ⊥

SameOpening-none : (o p : Option Text) → o ≡ none → p ≡ none → SameOpening o p
SameOpening-none o p e f = rw (e, f) tt

after_open-SameInk : (s t : Text) → SameInk s t → SameOpening (after_open s) (after_open t)
unfolding after_open
after_open-SameInk s t (stops _ _ h k) =
    SameOpening-none _ _ (after_open-Stops s h) (after_open-Stops t k)
after_open-SameInk s t (goes_on c s' t' h (stops _ _ k l)) =
    SameOpening-none _ _ (after_open_one c s' k) (after_open_one c t' l)
after_open-SameInk s t (goes_on c _ _ h (goes_on d s' t' k l)) =
    elim (Bool-cases ((c == b'<') && (d == b'@'))) [ inl e ↦ rw e l | inr e ↦ rw e tt ]

numeral-Stops : (s : Text) → Stops s → numeral s ≡ none
unfolding numeral
numeral-Stops s h = rw (digits_close-Stops s h) refl

mention_after-Stops : (s : Text) → Stops s → mention_after s ≡ 0
unfolding mention_after is_space
mention_after-Stops [] h = refl
mention_after-Stops (c ∷ s) h =
    rw (space_unit c b'&' h refl, space_unit c b'!' h refl, numeral-Stops (c ∷ s) h) refl

role_after-Stops : (s : Text) → Stops s → role_after s ≡ none
unfolding is_space role_after
role_after-Stops [] h = refl
role_after-Stops (c ∷ s) h = rw (space_unit c b'&' h refl) refl

mention_after-SameInk : (s t : Text) → SameInk s t → mention_after s ≡ mention_after t
unfolding mention_after
mention_after-SameInk s t (stops _ _ h k) = mention_after-Stops s h ∙ sym (mention_after-Stops t k)
mention_after-SameInk s t (goes_on c s' t' h k) =
    rw (numeral-SameInk s' t' k, numeral-SameInk (c ∷ s') (c ∷ t') (goes_on c s' t' h k)) refl

role_after-SameInk : (s t : Text) → SameInk s t → role_after s ≡ role_after t
unfolding role_after
role_after-SameInk s t (stops _ _ h k) = role_after-Stops s h ∙ sym (role_after-Stops t k)
role_after-SameInk s t (goes_on c s' t' h k) = rw (numeral-SameInk s' t' k) refl

with_opening :
    {A : Type 0} (none_value : A) (f : Text → A) (o p : Option Text)
    → ((s t : Text) → SameInk s t → f s ≡ f t)
    → SameOpening o p
    → elim o as (λ _. A) [ none ↦ none_value | some t ↦ f t ]
      ≡ elim p as (λ _. A) [ none ↦ none_value | some t ↦ f t ]
with_opening n f none none h k = refl
with_opening n f (some s) (some t) h k = h s t k
with_opening n f none (some t) h k = absurd k
with_opening n f (some s) none h k = absurd k

pub mention_length-SameInk : (s t : Text) → SameInk s t → mention_length s ≡ mention_length t
unfolding mention_length
mention_length-SameInk s t h =
    with_opening 0 mention_after (after_open s) (after_open t) mention_after-SameInk
      (after_open-SameInk s t h)

pub role_at-SameInk : (s t : Text) → SameInk s t → role_at s ≡ role_at t
unfolding role_at
role_at-SameInk s t h =
    with_opening none role_after (after_open s) (after_open t) role_after-SameInk
      (after_open-SameInk s t h)

same_test : (a b : ℕ) → (a == b) ≡ (b == a)
same_test a b = ground arith

no_word : (p : ℕ) (ps s : Text) → is_space p ≡ false → Stops s → word_at (p ∷ ps) s ≡ false
unfolding word_at
no_word p ps [] n h = refl
no_word p ps (c ∷ s) n h = rw (same_test p c, space_unit c p h n) refl

word_at-Stops :
    (p : Text) (s t : Text)
    → All (λ c. is_space c ≡ false) p
    → Stops s
    → Stops t
    → word_at p s ≡ word_at p t
unfolding word_at
word_at-Stops [] [] [] n h k = refl
word_at-Stops [] [] (d ∷ t) n h k = rw (space_word d k) refl
word_at-Stops [] (c ∷ s) [] n h k = rw (space_word c h) refl
word_at-Stops [] (c ∷ s) (d ∷ t) n h k = rw (space_word c h, space_word d k) refl
word_at-Stops (p ∷ ps) s t n h k = no_word p ps s n.0 h ∙ sym (no_word p ps t n.0 k)

word_at-SameInk :
    (p : Text) (s t : Text)
    → All (λ c. is_space c ≡ false) p
    → SameInk s t
    → word_at p s ≡ word_at p t
unfolding word_at
word_at-SameInk p s t n (stops _ _ h k) = word_at-Stops p s t n h k
word_at-SameInk [] s t n (goes_on c s' t' h k) = refl
word_at-SameInk (p ∷ ps) s t n (goes_on c s' t' h k) = rw (word_at-SameInk ps s' t' n.1 k) refl

pub everyone_length-SameInk : (s t : Text) → SameInk s t → everyone_length s ≡ everyone_length t
unfolding everyone_length is_space
everyone_length-SameInk s t h =
    rw
      (
        word_at-SameInk (codes "@everyone") s t
            (refl, (refl, (refl, (refl, (refl, (refl, (refl, (refl, (refl, tt))))))))) h,
        word_at-SameInk (codes "@here") s t (refl, (refl, (refl, (refl, (refl, tt))))) h,
      )
      refl

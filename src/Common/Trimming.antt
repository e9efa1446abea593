-- ===== src/Common/Trimming.antt =====
-- When nothing is left of a text that is trimmed, and what trimming and `toLowerCase` keep.
use Prim.Native.Nat.{ℕ}
use mathlib.Core.Path.{◌≡◌, refl, sym, ap, ◌∙◌}
use mathlib.Core.Logic.{inl, inr}
use mathlib.Core.Bool.{Bool, true, false, ◌||◌, not}
use mathlib.Core.List.{[], ◌∷◌, ◌++◌, reverse, reverse-cons, reverse-append, reverse-reverse}
use native.Mathlib.Omega.{arith}
use announcement_tool.Common.Tests.{Bool-cases}
use announcement_tool.Common.Strings.{
  Text, is_space, is_blank, trim, trim_start, lower_unit, to_lower_case,
}
use announcement_tool.Common.Lists.{some_of, All, All-append}

-- The text has a unit that is no space.
abbrev has_ink : Text → Bool
has_ink s = some_of (λ c. not (is_space c)) s

has_ink-append : (s t : Text) → has_ink (s ++ t) ≡ (has_ink s || has_ink t)
has_ink-append [] t = refl
has_ink-append (c ∷ s) t = ground (arith, has_ink-append s t)

has_ink-reverse : (s : Text) → has_ink (reverse s) ≡ has_ink s
has_ink-reverse [] = refl
has_ink-reverse (c ∷ s) =
    rw (reverse-cons c s, has_ink-append (reverse s) (c ∷ []), has_ink-reverse s) (ground arith)

has_ink-trim_start : (s : Text) → has_ink (trim_start s) ≡ has_ink s
unfolding trim_start
has_ink-trim_start [] = refl
has_ink-trim_start (c ∷ s) = elim (Bool-cases (is_space c)) [
  | inl h ↦ rw h (has_ink-trim_start s)
  | inr h ↦ rw h (rw h refl)
]

is_blank-trim_start : (s : Text) → is_blank (trim_start s) ≡ not (has_ink s)
unfolding trim_start
is_blank-trim_start [] = refl
is_blank-trim_start (c ∷ s) = elim (Bool-cases (is_space c)) [
  | inl h ↦ rw h (is_blank-trim_start s)
  | inr h ↦ rw h refl
]

is_blank-append : (s : Text) (c : ℕ) → is_blank (s ++ c ∷ []) ≡ false
is_blank-append [] c = refl
is_blank-append (d ∷ s) c = refl

is_blank-reverse : (s : Text) → is_blank (reverse s) ≡ is_blank s
is_blank-reverse [] = refl
is_blank-reverse (c ∷ s) = rw (reverse-cons c s) (is_blank-append (reverse s) c)

is_blank-trim_ink : (s : Text) → is_blank (trim s) ≡ not (has_ink s)
unfolding trim
is_blank-trim_ink s = rw (
  is_blank-reverse (trim_start (reverse (trim_start s))),
  is_blank-trim_start (reverse (trim_start s)),
  has_ink-reverse (trim_start s),
  has_ink-trim_start s,
)

has_ink-trim : (s : Text) → has_ink (trim s) ≡ has_ink s
unfolding trim
has_ink-trim s = rw (
  has_ink-reverse (trim_start (reverse (trim_start s))),
  has_ink-trim_start (reverse (trim_start s)),
  has_ink-reverse (trim_start s),
  has_ink-trim_start s,
)

is_space-lower_unit : (c : ℕ) → is_space (lower_unit c) ≡ is_space c
unfolding is_space lower_unit
is_space-lower_unit c = ground arith

has_ink-to_lower_case : (s : Text) → has_ink (to_lower_case s) ≡ has_ink s
unfolding to_lower_case
has_ink-to_lower_case [] = refl
has_ink-to_lower_case (c ∷ s) = rw (is_space-lower_unit c, has_ink-to_lower_case s)

-- Trimming again, in any case of the letters, leaves something where something was left.
pub is_blank-trim_again : (s : Text) → is_blank (trim (trim s)) ≡ is_blank (trim s)
is_blank-trim_again s = rw (is_blank-trim_ink (trim s), has_ink-trim s, is_blank-trim_ink s)

pub is_blank-trim_lower : (s : Text) → is_blank (trim (to_lower_case s)) ≡ is_blank (trim s)
is_blank-trim_lower s =
    rw (is_blank-trim_ink (to_lower_case s), has_ink-to_lower_case s, is_blank-trim_ink s)

pub is_blank-lower : (s : Text) → is_blank (to_lower_case s) ≡ is_blank s
unfolding to_lower_case
is_blank-lower [] = refl
is_blank-lower (c ∷ s) = refl

trim_start_split :
    (s : Text) → (b : Text) × All (λ c. is_space c ≡ true) b × (s ≡ b ++ trim_start s)
unfolding trim_start
trim_start_split [] = ([], tt, refl)
trim_start_split (c ∷ s) = elim (Bool-cases (is_space c)) [
  | inl h ↦
      let (b, spaces, e) = trim_start_split s in (c ∷ b, (h, spaces), rw h (ap (λ t. c ∷ t) e))
  | inr h ↦ ([], tt, rw h refl)
]

All-reverse : (P : ℕ → Type 0) (s : Text) → All P s → All P (reverse s)
All-reverse P [] h = tt
All-reverse P (c ∷ s) h =
    rw (reverse-cons c s) (All-append P (reverse s) (c ∷ []) (All-reverse P s h.1) (h.0, tt))

-- Trimming takes spaces from both ends.
pub trim_split :
    (s : Text)
    → (b : Text) × (u : Text) × All (λ c. is_space c ≡ true) b
      × All (λ c. is_space c ≡ true) u
      × (s ≡ b ++ (trim s ++ u))
unfolding trim
trim_split s =
    let (b, spaces, e) = trim_start_split s in
    let (u, more, f) = trim_start_split (reverse (trim_start s)) in
    let g : trim_start s ≡ reverse (trim_start (reverse (trim_start s))) ++ reverse u =
      sym (reverse-reverse (trim_start s))
      ∙ ap reverse f
      ∙ reverse-append u (trim_start (reverse (trim_start s))) in
    (b, reverse u, spaces, All-reverse (λ c. is_space c ≡ true) u more, e ∙ ap (λ t. b ++ t) g)

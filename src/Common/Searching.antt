-- ===== src/Common/Searching.antt =====
-- Text searched for other text: `startsWith`, `endsWith`, `includes` and `indexOf`.
use Prim.Native.Nat.{ℕ}
use mathlib.Core.Path.{◌≡◌, refl, sym, ap, ◌∙◌}
use mathlib.Core.Logic.{inl, inr, ◌↔◌}
use mathlib.Core.Bool.{Bool, true, false, ◌&&◌}
use mathlib.Core.Option.{Option, none, some}
use mathlib.Core.List.{[], ◌∷◌, ◌++◌, reverse}
use native.Mathlib.Omega.{arith}
use announcement_tool.Common.Tests.{
  ◌==◌, if◌then◌else◌, Bool-cases, none-ne-some, some_inj, Option-cases, false-ne-true,
}
use announcement_tool.Common.Strings.{Text, same_unit}
use announcement_tool.Common.Lists.{All}

-- s.startsWith(prefix)
unfoldable pub starts_with : Text → Text → Bool
starts_with [] s = true
starts_with (p ∷ ps) [] = false
starts_with (p ∷ ps) (c ∷ s) = (p == c) && starts_with ps s

-- s.endsWith(suffix)
unfoldable pub ends_with : Text → Text → Bool
ends_with suffix s = starts_with (reverse suffix) (reverse s)

pub starts_with-append : (p s : Text) → starts_with p (p ++ s) ≡ true
unfolding starts_with
starts_with-append [] s = refl
starts_with-append (c ∷ p) s = rw (same_unit c, starts_with-append p s)

pub starts_with_prefix : (p s : Text) → starts_with p s ≡ true → (rest : Text) × (s ≡ p ++ rest)
unfolding starts_with
starts_with_prefix [] s h = (s, refl)
starts_with_prefix (p ∷ ps) [] h = absurd (cc)
starts_with_prefix (p ∷ ps) (c ∷ s) h =
    let same : p ≡ c = ground arith in
    let (rest, e) = starts_with_prefix ps s (ground arith) in (rest, cc)

-- What stands before and after the first occurrence of a text, or `none`: `indexOf` with `slice`.
pub record Cut : Type 0 where
  pub before : Text
  pub after : Text

-- s.slice(n), for the length n of a prefix
unfoldable pub without : Text → Text → Text
without [] s = s
without (p ∷ ps) [] = []
without (p ∷ ps) (c ∷ s) = without ps s

abbrev pub move : ℕ → Option Cut → Option Cut
move c none = none
move c (some k) = some (record k { before = c ∷ k.before })

unfoldable pub cut : Text → Text → Option Cut
unfolding starts_with without
cut needle [] = if starts_with needle [] then some (record { before = []; after = [] }) else none
cut needle (c ∷ s) =
    let rest = cut needle s in
    if starts_with needle (c ∷ s)
    then some (record { before = []; after = without needle (c ∷ s) })
    else move c rest

abbrev pub is_found : Option Cut → Bool
is_found none = false
is_found (some k) = true

-- s.includes(needle)
abbrev pub has_text : Text → Text → Bool
has_text needle s = is_found (cut needle s)

without-append : (p s : Text) → without p (p ++ s) ≡ s
unfolding without
without-append [] s = refl
without-append (c ∷ p) s = without-append p s

-- A text is found at its first occurrence where its first unit does not stand before.
pub cut_first :
    (n : ℕ) (needle before after : Text)
    → All (λ c. (n == c) ≡ false) before
    → cut (n ∷ needle) (before ++ (n ∷ needle ++ after))
      ≡ some (record { before = before; after = after })
unfolding cut starts_with without
cut_first n needle [] after h =
    rw (same_unit n, starts_with-append needle after, without-append needle after)
cut_first n needle (c ∷ before) after h = rw (h.0, cut_first n needle before after h.1)

pub cut-none : (n : ℕ) (needle s : Text) → All (λ c. (n == c) ≡ false) s → cut (n ∷ needle) s ≡ none
unfolding cut starts_with
cut-none n needle [] h = refl
cut-none n needle (c ∷ s) h = rw (h.0, cut-none n needle s h.1)

without_prefix : (p s : Text) → starts_with p s ≡ true → s ≡ p ++ without p s
unfolding starts_with without
without_prefix [] s h = refl
without_prefix (p ∷ ps) [] h = absurd (cc)
without_prefix (p ∷ ps) (c ∷ s) h =
    let same : p ≡ c = ground arith in let rest = without_prefix ps s (ground arith) in cc

starts_with_nil : (needle : Text) → starts_with needle [] ≡ true → [] ≡ needle ++ []
unfolding starts_with
starts_with_nil [] h = refl
starts_with_nil (n ∷ needle) h = absurd (cc)

-- Some part of the text is the needle.
abbrev pub Contains : Text → Text → Type 0
Contains needle s = (before : Text) × (after : Text) × (s ≡ before ++ (needle ++ after))

moved :
    (c : ℕ) (o : Option Cut) (k : Cut)
    → move c o ≡ some k
    → (j : Cut) × (o ≡ some j) × (k ≡ record j { before = c ∷ j.before })
moved c none k h = absurd (none-ne-some h)
moved c (some j) k h = (j, refl, sym (some_inj h))

pub cut_sound :
    (needle s : Text) (k : Cut) → cut needle s ≡ some k → s ≡ k.before ++ (needle ++ k.after)
unfolding cut
cut_sound needle [] k h = elim (Bool-cases (starts_with needle [])) [
  | inl e ↦ let e' = some_inj (rw e at h) in rw (← e') (starts_with_nil needle e)
  | inr e ↦ absurd (none-ne-some (rw e at h))
]
cut_sound needle (c ∷ s) k h = elim (Bool-cases (starts_with needle (c ∷ s))) [
  | inl e ↦ let e' = some_inj (rw e at h) in rw (← e') (without_prefix needle (c ∷ s) e)
  | inr e ↦
      let (j, f, g) = moved c (cut needle s) k (rw e at h) in
      rw g (ap (λ (t : Text). c ∷ t) (cut_sound needle s j f))
]

has_text_start : (needle s : Text) → starts_with needle s ≡ true → has_text needle s ≡ true
unfolding cut
has_text_start needle [] h = rw (cut, h) refl
has_text_start needle (c ∷ s) h = rw (cut, h) refl

move-is_found : (c : ℕ) (o : Option Cut) → is_found (move c o) ≡ is_found o
move-is_found c none = refl
move-is_found c (some k) = refl

cut_complete : (needle before after : Text) → has_text needle (before ++ (needle ++ after)) ≡ true
unfolding cut
cut_complete needle [] after =
    has_text_start needle (needle ++ after) (starts_with-append needle after)
cut_complete needle (c ∷ before) after =
    elim (Bool-cases (starts_with needle (c ∷ (before ++ (needle ++ after))))) [
      | inl e ↦ has_text_start needle _ e
      | inr e ↦ rw (cut, e) (move-is_found c _ ∙ cut_complete needle before after)
    ]

-- `includes` tells exactly whether a text has the other as a part.
pub has_text_iff : (needle s : Text) → (has_text needle s ≡ true) ↔ Contains needle s
has_text_iff needle s = (
  λ h. elim (Option-cases (cut needle s)) [
    | inl e ↦ absurd (false-ne-true (rw e at h))
    | inr (k, e) ↦ (k.before, k.after, cut_sound needle s k e)
  ],
  λ (before, after, e). rw e (cut_complete needle before after),
)

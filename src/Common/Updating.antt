-- ===== src/Common/Updating.antt =====
-- update … set … where …, over a list of rows.
use mathlib.Core.Path.{◌≡◌, refl}
use mathlib.Core.Logic.{◌⊎◌, inl, inr}
use mathlib.Core.Bool.{Bool, true, false}
use mathlib.Core.List.{List, [], ◌∷◌}
use announcement_tool.Common.Tests.{if◌then◌else◌, Bool-cases}
use announcement_tool.Common.Lists.{In, length}
use announcement_tool.Common.Keyed.{Apart, Distinct}

module _ {A : Type 0} (chosen : A → Bool) (set : A → A) where
  unfoldable pub update_where : List A → List A
  update_where [] = []
  update_where (r ∷ rs) = (if chosen r then set r else r) ∷ update_where rs

  -- A row that is chosen is rewritten, and every other is left as it is.
  pub In-update_where :
      (rows : List A) (s : A)
      → In s (update_where rows)
      → (In s rows × (chosen s ≡ false)) ⊎ ((r : A) × In r rows × (chosen r ≡ true) × (s ≡ set r))
  unfolding update_where
  In-update_where [] s m = absurd m
  In-update_where (q ∷ rest) s (inl e) = elim (Bool-cases (chosen q)) [
    | inl h ↦ inr (q, inl refl, h, rw h at e)
    | inr h ↦ let e' : s ≡ q = rw h at e in inl (inl e', rw e' h)
  ]
  In-update_where (q ∷ rest) s (inr m) = elim (In-update_where rest s m) [
    | inl (n, h) ↦ inl (inr n, h)
    | inr (r, n, h, e) ↦ inr (r, inr n, h, e)
  ]

  pub update_where-In_other :
      (rows : List A) (s : A) → In s rows → chosen s ≡ false → In s (update_where rows)
  unfolding update_where
  update_where-In_other [] s m h = absurd m
  update_where-In_other (q ∷ rest) s (inl e) h = inl (rw (← e, h))
  update_where-In_other (q ∷ rest) s (inr m) h = inr (update_where-In_other rest s m h)

  pub update_where-In_self :
      (rows : List A) (s : A) → In s rows → chosen s ≡ true → In (set s) (update_where rows)
  unfolding update_where
  update_where-In_self [] s m h = absurd m
  update_where-In_self (q ∷ rest) s (inl e) h = inl (rw (← e) (rw h refl))
  update_where-In_self (q ∷ rest) s (inr m) h = inr (update_where-In_self rest s m h)

  pub length-update_where : (rows : List A) → length (update_where rows) ≡ length rows
  unfolding update_where
  length-update_where [] = refl
  length-update_where (q ∷ rest) = rw (length-update_where rest)

  -- An update that keeps the key columns keeps the key.
  module _ (same : A → A → Bool) (keep_left : (r s : A) → same (set r) s ≡ same r s)
      (keep_right : (r s : A) → same r (set s) ≡ same r s) where
    Apart-update_where :
        (r : A) (rows : List A) → Apart same r rows → Apart same r (update_where rows)
    unfolding update_where
    Apart-update_where r [] a = tt
    Apart-update_where r (q ∷ rest) a = (
      elim (Bool-cases (chosen q)) [ inl h ↦ rw (h, keep_right r q) a.0 | inr h ↦ rw h a.0 ],
      Apart-update_where r rest a.1,
    )

    Apart-set : (r : A) (rows : List A) → Apart same r rows → Apart same (set r) rows
    Apart-set r [] a = tt
    Apart-set r (q ∷ rest) a = (rw (keep_left r q) a.0, Apart-set r rest a.1)

    pub Distinct-update_where :
        (rows : List A) → Distinct same rows → Distinct same (update_where rows)
    unfolding update_where
    Distinct-update_where [] u = tt
    Distinct-update_where (q ∷ rest) u = (
      elim (Bool-cases (chosen q)) [
        | inl h ↦ rw h (Apart-set q (update_where rest) (Apart-update_where q rest u.0))
        | inr h ↦ rw h (Apart-update_where q rest u.0)
      ],
      Distinct-update_where rest u.1,
    )

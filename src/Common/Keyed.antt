-- ===== src/Common/Keyed.antt =====
-- Sorting by a Boolean order (insertion, stable), and lists no two entries of which have one key.
use Prim.Native.Nat.{ℕ, zero, suc}
use mathlib.Core.Path.{◌≡◌, refl, sym, ◌∙◌}
use mathlib.Core.Logic.{◌⊎◌, inl, inr}
use mathlib.Core.Bool.{Bool, true, false}
use mathlib.Core.List.{List, [], ◌∷◌, ◌++◌}
use native.Mathlib.Omega.{arith}
use announcement_tool.Common.Tests.{if◌then◌else◌, Bool-cases, false-ne-true}
use announcement_tool.Common.Lists.{
  length, take, keep, In, All, All-append, All-In, In-take, In-keep,
}

module _ {A : Type 0} (before : A → A → Bool) where
  unfoldable pub insert_by : A → List A → List A
  insert_by r [] = r ∷ []
  insert_by r (s ∷ xs) = if before r s then r ∷ s ∷ xs else s ∷ insert_by r xs

  -- order by
  unfoldable pub sort_by : List A → List A
  unfolding insert_by
  sort_by [] = []
  sort_by (r ∷ xs) = insert_by r (sort_by xs)

  In-insert_by : (a r : A) (xs : List A) → In a (insert_by r xs) → (a ≡ r) ⊎ In a xs
  unfolding insert_by
  In-insert_by a r [] m = m
  In-insert_by a r (s ∷ xs) m = elim (Bool-cases (before r s)) [
    | inl e ↦ rw e at m
    | inr e ↦ elim (rw e at m) [
      | inl i ↦ inr (inl i)
      | inr n ↦ elim (In-insert_by a r xs n) [ inl i ↦ inl i | inr o ↦ inr (inr o) ]
    ]
  ]

  pub In-sort_by : (a : A) (xs : List A) → In a (sort_by xs) → In a xs
  unfolding sort_by
  In-sort_by a [] m = m
  In-sort_by a (r ∷ xs) m = elim (In-insert_by a r (sort_by xs) m) [
    | inl e ↦ inl e
    | inr n ↦ inr (In-sort_by a xs n)
  ]

  insert_by-In : (a r : A) (xs : List A) → In a (r ∷ xs) → In a (insert_by r xs)
  unfolding insert_by
  insert_by-In a r [] m = m
  insert_by-In a r (s ∷ xs) m = elim (Bool-cases (before r s)) [
    | inl e ↦ rw e m
    | inr e ↦ rw e (elim m [
      | inl i ↦ inr (insert_by-In a r xs (inl i))
      | inr n ↦ elim n [ inl i ↦ inl i | inr o ↦ inr (insert_by-In a r xs (inr o)) ]
    ])
  ]

  pub sort_by-In : (a : A) (xs : List A) → In a xs → In a (sort_by xs)
  unfolding sort_by
  sort_by-In a [] m = m
  sort_by-In a (r ∷ xs) (inl e) = insert_by-In a r (sort_by xs) (inl e)
  sort_by-In a (r ∷ xs) (inr m) = insert_by-In a r (sort_by xs) (inr (sort_by-In a xs m))

  length-insert_by : (r : A) (xs : List A) → length (insert_by r xs) ≡ suc (length xs)
  unfolding insert_by
  length-insert_by r [] = refl
  length-insert_by r (s ∷ xs) = elim (Bool-cases (before r s)) [
    | inl e ↦ rw e
    | inr e ↦ rw (e, length-insert_by r xs)
  ]

  pub length-sort_by : (xs : List A) → length (sort_by xs) ≡ length xs
  unfolding sort_by
  length-sort_by [] = refl
  length-sort_by (r ∷ xs) = omega (arith, length-insert_by r (sort_by xs), length-sort_by xs)

module _ {A : Type 0} (same : A → A → Bool) where
  -- No entry of the list has the key of `r`.
  abbrev pub Apart : A → List A → Type 0
  Apart r = All (λ s. same r s ≡ false)

  abbrev pub Distinct : List A → Type 0
  Distinct [] = Unit {0}
  Distinct (r ∷ xs) = Apart r xs × Distinct xs

  pub Apart-In : (r s : A) (xs : List A) → Apart r xs → In s xs → same r s ≡ false
  Apart-In r s [] a m = absurd m
  Apart-In r s (x ∷ xs) a (inl e) = rw e a.0
  Apart-In r s (x ∷ xs) a (inr m) = Apart-In r s xs a.1 m

  -- A list drawn from another.
  Apart-sub :
      (r : A) (xs part : List A) → ((a : A) → In a part → In a xs) → Apart r xs → Apart r part
  Apart-sub r xs [] sub a = tt
  Apart-sub r xs (p ∷ part) sub a =
      (Apart-In r p xs a (sub p (inl refl)), Apart-sub r xs part (λ q m. sub q (inr m)) a)

  pub Distinct-keep : (p : A → Bool) (xs : List A) → Distinct xs → Distinct (keep p xs)
  Distinct-keep p [] u = u
  Distinct-keep p (r ∷ xs) u = elim (Bool-cases (p r)) [
    | inl e ↦
        rw e (Apart-sub r xs (keep p xs) (λ a m. (In-keep p a xs m).0) u.0, Distinct-keep p xs u.1)
    | inr e ↦ rw e (Distinct-keep p xs u.1)
  ]

  pub Distinct-take : (n : ℕ) (xs : List A) → Distinct xs → Distinct (take n xs)
  Distinct-take zero xs u = tt
  Distinct-take (suc n) [] u = u
  Distinct-take (suc n) (r ∷ xs) u =
      (Apart-sub r xs (take n xs) (λ a m. In-take a n xs m) u.0, Distinct-take n xs u.1)

  module _ (symmetric : (r s : A) → same r s ≡ false → same s r ≡ false) where
    -- Two entries with one key are one entry.
    pub Distinct-eq :
        (xs : List A) (r s : A) → Distinct xs → In r xs → In s xs → same r s ≡ true → s ≡ r
    Distinct-eq [] r s u m n h = absurd m
    Distinct-eq (q ∷ xs) r s u (inl e) (inl k) h = k ∙ sym e
    Distinct-eq (q ∷ xs) r s u (inl e) (inr n) h =
        absurd (false-ne-true (sym (Apart-In r s xs (rw e u.0) n) ∙ h))
    Distinct-eq (q ∷ xs) r s u (inr m) (inl k) h =
        let apart = symmetric q r (Apart-In q r xs u.0 m) in
        absurd (false-ne-true (sym (rw (← k) at apart) ∙ h))
    Distinct-eq (q ∷ xs) r s u (inr m) (inr n) h = Distinct-eq xs r s u.1 m n h

    pub Distinct-append : (xs : List A) (r : A) → Distinct xs → Apart r xs → Distinct (xs ++ r ∷ [])
    Distinct-append [] r u a = (tt, tt)
    Distinct-append (q ∷ xs) r u a = (
      All-append (λ s. same q s ≡ false) xs (r ∷ []) u.0 (symmetric r q a.0, tt),
      Distinct-append xs r u.1 a.1,
    )

    Distinct-insert_by :
        (before : A → A → Bool) (r : A) (xs : List A)
        → Apart r xs
        → Distinct xs
        → Distinct (insert_by before r xs)
    unfolding insert_by
    Distinct-insert_by before r [] a u = (a, u)
    Distinct-insert_by before r (s ∷ xs) a u = elim (Bool-cases (before r s)) [
      | inl e ↦ rw e (a, u)
      | inr e ↦ rw e (
        All-In (λ q. same s q ≡ false) (insert_by before r xs)
            (λ q m. elim (In-insert_by before q r xs m) [
              | inl i ↦ rw i (symmetric r s a.0)
              | inr n ↦ Apart-In s q xs u.0 n
            ]),
        Distinct-insert_by before r xs a.1 u.1,
      )
    ]

    pub Distinct-sort_by :
        (before : A → A → Bool) (xs : List A) → Distinct xs → Distinct (sort_by before xs)
    unfolding sort_by
    Distinct-sort_by before [] u = u
    Distinct-sort_by before (r ∷ xs) u =
        Distinct-insert_by before r (sort_by before xs)
          (Apart-sub r xs (sort_by before xs) (λ a m. In-sort_by before a xs m) u.0)
          (Distinct-sort_by before xs u.1)

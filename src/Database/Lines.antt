-- ===== src/Database/Lines.antt =====
-- normalizePem: the lines into which the body of a certificate is put, as a description of its own.
use announcement_tool.Common.{
  ℕ, zero, suc, ◌≤◌, ◌≡◌, refl, ap, ◌∙◌, not, List, [], ◌∷◌, ◌++◌, arith, Text, is_space, length,
  keep,
}
use announcement_tool.Database.{pem_begin, pem_end, wrap}

-- Lines, with a newline between each and the next.
abbrev pub joined : Text → List Text → Text
joined first [] = first
joined first (l ∷ more) = first ++ 10 ∷ joined l more

abbrev pub text_of_lines : Text → List Text → Text
text_of_lines first [] = first
text_of_lines first (l ∷ more) = first ++ text_of_lines l more

-- The first line has `room` units and the others 64, but the last of all may have fewer; no line
-- after the first is empty.
abbrev pub Filled : ℕ → Text → List Text → Type 0
Filled room first [] = length first ≤ room
Filled room first (l ∷ more) = (length first ≡ room) × (1 ≤ length l) × Filled 64 l more

-- The certificates of the bodies, each between its markers, in lines of 64 units without white space.
abbrev pub IsBundle : List Text → Text → Type 0
IsBundle [] pem = pem ≡ []
IsBundle (body ∷ bodies) pem =
    (first : Text) × (more : List Text) × (rest : Text) × (pem
      ≡ pem_begin ++ (10 ∷ (joined first more ++ (10 ∷ (pem_end ++ 10 ∷ rest)))))
    × (text_of_lines first more ≡ keep (λ c. not (is_space c)) body)
    × Filled 64 first more
    × IsBundle bodies rest

joined-cons :
    (c : ℕ) (first : Text) (more : List Text) → joined (c ∷ first) more ≡ c ∷ joined first more
joined-cons c first [] = refl
joined-cons c first (l ∷ more) = refl

text_of_lines-cons :
    (c : ℕ) (first : Text) (more : List Text)
    → text_of_lines (c ∷ first) more ≡ c ∷ text_of_lines first more
text_of_lines-cons c first [] = refl
text_of_lines-cons c first (l ∷ more) = refl

Filled-cons :
    (room c : ℕ) (first : Text) (more : List Text)
    → Filled room first more
    → Filled (suc room) (c ∷ first) more
Filled-cons room c first [] h = omega arith
Filled-cons room c first (l ∷ more) (e, h, f) = (ap suc e, h, f)

pub wrap-Filled :
    (room : ℕ) (s : Text)
    → (first : Text) × (more : List Text) × (wrap room s ≡ joined first more)
      × (text_of_lines first more ≡ s)
      × Filled room first more
unfolding wrap
wrap-Filled room [] = ([], [], refl, refl, omega arith)
wrap-Filled zero (c ∷ s) =
    let (first, more, e, t, f) = wrap-Filled 63 s in
    (
      [],
      (c ∷ first) ∷ more,
      rw (joined-cons c first more, e) refl,
      text_of_lines-cons c first more ∙ ap (λ (r : Text). c ∷ r) t,
      (refl, omega arith, Filled-cons 63 c first more f),
    )
wrap-Filled (suc room) (c ∷ s) =
    let (first, more, e, t, f) = wrap-Filled room s in
    (
      c ∷ first,
      more,
      rw (joined-cons c first more, e) refl,
      text_of_lines-cons c first more ∙ ap (λ (r : Text). c ∷ r) t,
      Filled-cons room c first more f,
    )

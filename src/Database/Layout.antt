-- ===== src/Database/Layout.antt =====
-- The layout of a block of normalizePem: its white space, its lines and its markers.
use announcement_tool.Common.{
  ℕ, zero, suc, ◌≡◌, refl, ap, inl, inr, true, false, [], ◌∷◌, ◌++◌, append_assoc, append-nil, Text,
  is_space, All, All-append, Bool-cases, ◌==◌,
}
use announcement_tool.Database.{pem_begin, pem_end, squeeze, wrap, pem_block}

-- No `-` stands in the text, as in base64 and white space.
abbrev pub Plain : Text → Type 0
Plain = All (λ c. (b'-' == c) ≡ false)

squeeze-append : (s t : Text) → squeeze (s ++ t) ≡ squeeze s ++ squeeze t
squeeze-append [] t = refl
squeeze-append (c ∷ s) t = elim (Bool-cases (is_space c)) [
  | inl e ↦ rw e (squeeze-append s t)
  | inr e ↦ rw e (ap (λ (r : Text). c ∷ r) (squeeze-append s t))
]

squeeze_idem : (s : Text) → squeeze (squeeze s) ≡ squeeze s
squeeze_idem [] = refl
squeeze_idem (c ∷ s) = elim (Bool-cases (is_space c)) [
  | inl e ↦ rw e (squeeze_idem s)
  | inr e ↦ rw e (rw e (ap (λ (r : Text). c ∷ r) (squeeze_idem s)))
]

newline_space : is_space 10 ≡ true
unfolding is_space
newline_space = refl

kept : (c : ℕ) (s t : Text) → squeeze s ≡ squeeze t → squeeze (c ∷ s) ≡ squeeze (c ∷ t)
kept c s t e = elim (Bool-cases (is_space c)) [
  | inl k ↦ rw k e
  | inr k ↦ rw k (ap (λ (r : Text). c ∷ r) e)
]

squeeze-wrap : (room : ℕ) (s : Text) → squeeze (wrap room s) ≡ squeeze s
unfolding wrap
squeeze-wrap room [] = refl
squeeze-wrap zero (c ∷ s) = rw newline_space (kept c _ s (squeeze-wrap 63 s))
squeeze-wrap (suc room) (c ∷ s) = kept c _ s (squeeze-wrap room s)

-- The text of a block between its markers.
abbrev pub inside : Text → Text
inside b = 10 ∷ (wrap 64 (squeeze b) ++ 10 ∷ [])

pub pem_block-inside : (b : Text) → pem_block (inside b) ≡ pem_block b
unfolding pem_block
pem_block-inside b = ap (λ s. pem_begin ++ (10 ∷ (wrap 64 s ++ (10 ∷ (pem_end ++ 10 ∷ []))))) same
  where
    same : squeeze (inside b) ≡ squeeze b
    same =
        rw
          (
            newline_space,
            squeeze-append (wrap 64 (squeeze b)) (10 ∷ []),
            newline_space,
            append-nil (squeeze (wrap 64 (squeeze b))),
            squeeze-wrap 64 (squeeze b),
          )
          (squeeze_idem b)

pub pem_block-append :
    (b rest : Text) → pem_block b ++ rest ≡ pem_begin ++ (inside b ++ (pem_end ++ 10 ∷ rest))
unfolding pem_block
pem_block-append b rest =
    let w = wrap 64 (squeeze b) in
    rw
      (
        append_assoc w (10 ∷ (pem_end ++ 10 ∷ [])) rest,
        append_assoc w (10 ∷ []) (pem_end ++ 10 ∷ rest),
      )
      refl

Plain-wrap : (room : ℕ) (s : Text) → Plain s → Plain (wrap room s)
unfolding wrap
Plain-wrap room [] p = tt
Plain-wrap zero (c ∷ s) p = (refl, (p.0, Plain-wrap 63 s p.1))
Plain-wrap (suc room) (c ∷ s) p = (p.0, Plain-wrap room s p.1)

Plain-squeeze : (s : Text) → Plain s → Plain (squeeze s)
Plain-squeeze [] p = tt
Plain-squeeze (c ∷ s) p = elim (Bool-cases (is_space c)) [
  | inl e ↦ rw e (Plain-squeeze s p.1)
  | inr e ↦ rw e (p.0, Plain-squeeze s p.1)
]

pub Plain-inside : (b : Text) → Plain b → Plain (inside b)
Plain-inside b p = (
  refl,
  All-append _ (wrap 64 (squeeze b)) (10 ∷ []) (Plain-wrap 64 _ (Plain-squeeze b p)) (refl, tt),
)

-- ===== src/Database/Pem.antt =====
-- normalizePem: certificates whose white space was damaged are put into one form.
use announcement_tool.Common.{
  ℕ, zero, suc, ◌≤◌, ◌<◌, ◌≡◌, refl, ap, ◌∙◌, inl, inr, true, List, [], ◌∷◌, ◌++◌, append-nil,
  append_assoc, Text, codes, length, length-append, All, arith, ok, cut, cut_first, cut-none,
  Bool-cases, has_text, has_text_iff, map,
}
use announcement_tool.Database.{
  pem_begin, pem_end, squeeze, wrap, pem_block, pem_blocks, escaped_newline, unescaped,
  normalize_pem,
}
use announcement_tool.Database.Lines.{IsBundle, wrap-Filled}
use announcement_tool.Database.Layout.{
  Plain, inside, pem_block-inside, pem_block-append, Plain-inside,
}

-- A certificate in a pasted value: what stands before it, and its text between the markers.
pub record Piece : Type 0 where
  pub gap : Text
  pub body : Text

-- The value, with what stands after the last certificate.
unfoldable pub document : List Piece → Text → Text
document [] rest = rest
document (p ∷ ps) rest = p.gap ++ (pem_begin ++ (p.body ++ (pem_end ++ document ps rest)))

abbrev pub PlainPiece : Piece → Type 0
PlainPiece p = Plain p.gap × Plain p.body

-- The certificates in the form that is wanted: each marker on its line, lines of 64.
unfoldable bundle : List Text → Text
bundle [] = []
bundle (b ∷ bs) = pem_block b ++ bundle bs

bundle-IsBundle : (bs : List Text) → IsBundle bs (bundle bs)
unfolding bundle
bundle-IsBundle [] = refl
bundle-IsBundle (b ∷ bs) =
    let (first, more, e, body, filled) = wrap-Filled 64 (squeeze b) in
    (
      first,
      more,
      bundle bs,
      pem_block-append b (bundle bs)
          ∙ ap (λ (t : Text). pem_begin ++ (10 ∷ t))
              (append_assoc (wrap 64 (squeeze b)) (10 ∷ []) (pem_end ++ 10 ∷ bundle bs)
                ∙ ap (λ (t : Text). t ++ (10 ∷ (pem_end ++ 10 ∷ bundle bs))) e),
      body,
      filled,
      bundle-IsBundle bs,
    )

abbrev pub bodies : List Piece → List Text
bodies = map (λ p. p.body)

abbrev begin_tail : Text
begin_tail = codes "----BEGIN CERTIFICATE-----"

abbrev end_tail : Text
end_tail = codes "----END CERTIFICATE-----"

pem_blocks-document :
    (fuel : ℕ) (ps : List Piece) (rest : Text)
    → length ps < fuel
    → All PlainPiece ps
    → Plain rest
    → pem_blocks fuel (document ps rest) ≡ ok (bundle (bodies ps))
unfolding pem_blocks document bundle
pem_blocks-document zero ps rest h a r = absurd (omega arith)
pem_blocks-document (suc fuel) [] rest h a r = rw (pem_blocks, cut-none b'-' begin_tail rest r) refl
pem_blocks-document (suc fuel) (p ∷ ps) rest h a r =
    let opened = cut_first b'-' begin_tail p.gap (p.body ++ (pem_end ++ document ps rest)) a.0.0 in
    let closed = cut_first b'-' end_tail p.body (document ps rest) a.0.1 in
    let ih = pem_blocks-document fuel ps rest (omega arith) a.1 r in
    rw (pem_blocks, opened, closed, ih) refl

length-le-document : (ps : List Piece) (rest : Text) → length ps ≤ length (document ps rest)
unfolding document
length-le-document [] rest = omega arith
length-le-document (p ∷ ps) rest =
    let after = document ps rest in
    omega (
      arith,
      length-append p.gap (pem_begin ++ (p.body ++ (pem_end ++ after))),
      length-append p.body (pem_end ++ after),
      length-le-document ps rest,
    )

pieces_of : Text → List Text → List Piece
pieces_of gap [] = []
pieces_of gap (b ∷ bs) = record { gap = gap; body = inside b } ∷ pieces_of (10 ∷ []) bs

after_all : Text → List Text → Text
after_all gap [] = gap
after_all gap (b ∷ bs) = after_all (10 ∷ []) bs

document-bundle :
    (gap : Text) (bs : List Text)
    → gap ++ bundle bs ≡ document (pieces_of gap bs) (after_all gap bs)
unfolding document bundle pieces_of after_all
document-bundle gap [] = append-nil gap
document-bundle gap (b ∷ bs) =
    ap (λ (s : Text). gap ++ s)
      (pem_block-append b (bundle bs)
        ∙ ap (λ (s : Text). pem_begin ++ (inside b ++ (pem_end ++ s)))
            (document-bundle (10 ∷ []) bs))

bundle-pieces_of : (gap : Text) (bs : List Text) → bundle (bodies (pieces_of gap bs)) ≡ bundle bs
unfolding bundle pieces_of
bundle-pieces_of gap [] = refl
bundle-pieces_of gap (b ∷ bs) =
    ap (λ (s : Text). s ++ bundle (bodies (pieces_of (10 ∷ []) bs))) (pem_block-inside b)
    ∙ ap (λ (s : Text). pem_block b ++ s) (bundle-pieces_of (10 ∷ []) bs)

PlainPiece-pieces_of :
    (gap : Text) (bs : List Text)
    → Plain gap
    → All Plain bs
    → All PlainPiece (pieces_of gap bs) × Plain (after_all gap bs)
unfolding pieces_of after_all
PlainPiece-pieces_of gap [] g p = (tt, g)
PlainPiece-pieces_of gap (b ∷ bs) g p =
    let (ps, r) = PlainPiece-pieces_of (10 ∷ []) bs (refl, tt) p.1 in
    (((g, Plain-inside b p.0), ps), r)

unescaped-newline : (s : Text) → has_text (10 ∷ []) s ≡ true → unescaped s ≡ s
unfolding unescaped
unescaped-newline s h = elim (Bool-cases (has_text escaped_newline s)) [
  | inl e ↦ rw (e, h) refl
  | inr e ↦ rw e refl
]

unescaped-bundle : (bs : List Text) → unescaped (bundle bs) ≡ bundle bs
unfolding unescaped bundle pem_block cut
unescaped-bundle [] = refl
unescaped-bundle (b ∷ bs) = unescaped-newline (bundle (b ∷ bs)) (
    (has_text_iff (10 ∷ []) _).1
      (pem_begin, (wrap 64 (squeeze b) ++ (10 ∷ (pem_end ++ 10 ∷ []))) ++ bundle bs, refl))

normalize_document :
    (raw : Text) (ps : List Piece) (rest : Text)
    → unescaped raw ≡ document ps rest
    → All PlainPiece ps
    → Plain rest
    → normalize_pem raw ≡ ok (bundle (bodies ps))
unfolding normalize_pem
normalize_document raw ps rest e a r = rw e (
    pem_blocks-document (suc (length (document ps rest))) ps rest
      (omega (arith, length-le-document ps rest)) a r)

All-bodies : (ps : List Piece) → All PlainPiece ps → All Plain (bodies ps)
All-bodies [] a = tt
All-bodies (p ∷ ps) a = (a.0.1, All-bodies ps a.1)

-- A pasted value that is certificates in any layout, once its escaped newlines are newlines again
-- (the white space of the bodies is anything, and so is what stands between and around them, short
-- of a hyphen), is normalised to all the certificates in their order: each begin marker on a line of
-- its own, then the body without its white space in lines of 64 units, the last of which may be
-- shorter, then the end marker on a line of its own. What is in that form already is left as it is.
pub normalize_pem-IsBundle :
    (raw : Text) (ps : List Piece) (rest : Text)
    → unescaped raw ≡ document ps rest
    → All PlainPiece ps
    → Plain rest
    → (pem : Text) × (normalize_pem raw ≡ ok pem)
      × IsBundle (bodies ps) pem
      × (normalize_pem pem ≡ ok pem)
normalize_pem-IsBundle raw ps rest e a r =
    let (plain, last) = PlainPiece-pieces_of [] (bodies ps) tt (All-bodies ps a) in
    (
      bundle (bodies ps),
      normalize_document raw ps rest e a r,
      bundle-IsBundle (bodies ps),
      normalize_document (bundle (bodies ps)) (pieces_of [] (bodies ps)) _
            (unescaped-bundle (bodies ps) ∙ document-bundle [] (bodies ps)) plain last
          ∙ ap ok (bundle-pieces_of [] (bodies ps)),
    )

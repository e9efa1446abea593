-- ===== src/SafeUrl/Embedded.antt =====
-- forbiddenV6: an address of version 4 inside one of version 6.
use announcement_tool.Common.{
  ℕ, ◌+◌, ◌*◌, ◌/◌, ◌%◌, ◌<◌, ◌≡◌, refl, sym, ap, ◌∙◌, List, [], ◌∷◌, ◌++◌, true, Bool-cases, inl,
  inr, ==_iff, ◌==◌, arith, Text, split, split-append, split_whole, decimal, number-decimal,
  decimal_no_dot,
}
use announcement_tool.SafeUrl.{
  v4_to_int, dotted, forbidden_v4, forbidden_int, Groups, first_zero, forbidden_groups,
}
use announcement_tool.SafeUrl.Ranges.{forbidden_quad, of_bytes, forbidden_int-quad}

-- One number, its dot, and what follows.
after_dot :
    (n : ℕ) (t : Text) (parts : List Text)
    → split b'.' t ≡ parts
    → split b'.' (decimal n ++ b'.' ∷ t) ≡ decimal n ∷ parts
after_dot n t parts e =
    split-append b'.' (decimal n) t (decimal_no_dot n) ∙ ap (λ (ps : List Text). decimal n ∷ ps) e

split-dotted :
    (hi lo : ℕ)
    → split b'.' (dotted hi lo)
      ≡ decimal (hi / 256) ∷ decimal (hi % 256) ∷ decimal (lo / 256) ∷ decimal (lo % 256) ∷ []
unfolding dotted
split-dotted hi lo = after_dot (hi / 256) _ _ (
    after_dot (hi % 256) _ _ (
      after_dot (lo / 256) _ _ (split_whole b'.' (decimal (lo % 256)) (decimal_no_dot (lo % 256)))))

-- Two groups written as a dotted quad are read back as the 32 bits that they hold.
pub v4_to_int-dotted : (hi lo : ℕ) → v4_to_int (dotted hi lo) ≡ hi * 65536 + lo
unfolding v4_to_int
v4_to_int-dotted hi lo =
    rw (split-dotted hi lo, v4_to_int)
      (omega (
        arith,
        number-decimal (hi / 256),
        number-decimal (hi % 256),
        number-decimal (lo / 256),
        number-decimal (lo % 256),
      ))

pub forbidden_v4-dotted :
    (hi lo : ℕ)
    → hi < 65536
    → lo < 65536
    → forbidden_v4 (dotted hi lo) ≡ forbidden_quad (hi / 256) (hi % 256) (lo / 256)
unfolding forbidden_v4
forbidden_v4-dotted hi lo h l =
    let bytes : hi * 65536 + lo ≡ of_bytes (hi / 256) (hi % 256) (lo / 256) (lo % 256) =
      omega arith in
    ap forbidden_int (v4_to_int-dotted hi lo ∙ bytes)
    ∙ forbidden_int-quad (hi / 256) (hi % 256) (lo / 256) (lo % 256) (omega arith) (omega arith)
        (omega arith) (omega arith)

-- The groups that hold an address of version 4: ::ffff:a.b.c.d, ::a.b.c.d (with :: and ::1),
-- 64:ff9b::a.b.c.d, and 2002:a.b.c.d::.
pub data Carries (g : Groups) : ℕ → ℕ → Type 0 where
  mapped : first_zero g ≡ true → g.g5 ≡ 0xffff → Carries g g.g6 g.g7
  compatible : first_zero g ≡ true → g.g5 ≡ 0 → Carries g g.g6 g.g7
  translated :
      g.g0 ≡ 0x64 → g.g1 ≡ 0xff9b → g.g2 ≡ 0 → g.g3 ≡ 0 → g.g4 ≡ 0 → g.g5 ≡ 0 → Carries g g.g6 g.g7
  six_to_four : g.g0 ≡ 0x2002 → Carries g g.g1 g.g2

this_network : (hi lo : ℕ) → hi ≡ 0 → forbidden_quad (hi / 256) (hi % 256) (lo / 256) ≡ true
this_network hi lo e = rw e refl

-- An address of version 6 that carries one of version 4 is forbidden exactly when the bytes of that
-- one name a forbidden range: no notation gets around the table.
pub forbidden_groups-Carries :
    (g : Groups) (hi lo : ℕ)
    → hi < 65536
    → lo < 65536
    → Carries g hi lo
    → forbidden_groups g ≡ forbidden_quad (hi / 256) (hi % 256) (lo / 256)
unfolding forbidden_groups
forbidden_groups-Carries g hi lo h l (mapped z e) = rw (z, e) (forbidden_v4-dotted g.g6 g.g7 h l)
forbidden_groups-Carries g hi lo h l (compatible z e) = elim (Bool-cases (g.g6 == 0)) [
  | inr n ↦ rw (z, e, n) (forbidden_v4-dotted g.g6 g.g7 h l)
  | inl y ↦
      let quad = this_network g.g6 g.g7 ((==_iff g.g6 0).0 y) in
      elim (Bool-cases (g.g7 == 0)) [
        | inl v ↦ rw (z, e, y, v) (sym quad)
        | inr v ↦ elim (Bool-cases (g.g7 == 1)) [
          | inl w ↦ rw (z, e, y, v, w) (sym quad)
          | inr w ↦ rw (z, e, y, v, w) (forbidden_v4-dotted g.g6 g.g7 h l)
        ]
      ]
]
forbidden_groups-Carries g hi lo h l (translated a b c d e f) =
    rw (a, b, c, d, e, f) (forbidden_v4-dotted g.g6 g.g7 h l)
forbidden_groups-Carries g hi lo h l (six_to_four e) = rw e (forbidden_v4-dotted g.g1 g.g2 h l)

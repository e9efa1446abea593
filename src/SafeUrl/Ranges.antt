-- ===== src/SafeUrl/Ranges.antt =====
-- forbiddenV4: the table of prefixes against the addresses written by their bytes.
use announcement_tool.Common.{
  ℕ, ◌+◌, ◌*◌, ◌/◌, ◌<◌, ◌≡◌, refl, Bool, true, false, ◌&&◌, ◌||◌, [], ◌∷◌, arith, leb, ◌==◌,
  some_of,
}
use announcement_tool.SafeUrl.{in_range, forbidden_int}

-- a.b.c.* is this network, private, shared, loopback, link-local, reserved for the IETF, used for
-- benchmarks, multicast or reserved.
abbrev pub forbidden_quad : ℕ → ℕ → ℕ → Bool
forbidden_quad a b c =
    some_of (λ named. named)
      ((a == 0)
        ∷ (a == 10)
        ∷ ((a == 100) && leb 64 b && leb b 127)
        ∷ (a == 127)
        ∷ ((a == 169) && (b == 254))
        ∷ ((a == 172) && leb 16 b && leb b 31)
        ∷ ((a == 192) && (b == 0) && (c == 0))
        ∷ ((a == 192) && (b == 168))
        ∷ ((a == 198) && leb 18 b && leb b 19)
        ∷ leb 224 a
        ∷ [])

abbrev pub of_bytes : ℕ → ℕ → ℕ → ℕ → ℕ
of_bytes a b c d = a * 16777216 + b * 65536 + c * 256 + d

module _ (a b c d : ℕ) (ha : a < 256) (hb : b < 256) (hc : c < 256) (hd : d < 256) where
  one_byte : (net : ℕ) → (of_bytes a b c d / 16777216 * 16777216 == net * 16777216) ≡ (a == net)
  one_byte net = ground arith

  ten_bits :
      (of_bytes a b c d / 4194304 * 4194304 == 0x64400000) ≡ ((a == 100) && leb 64 b && leb b 127)
  ten_bits = ground arith

  twelve_bits :
      (of_bytes a b c d / 1048576 * 1048576 == 0xac100000) ≡ ((a == 172) && leb 16 b && leb b 31)
  twelve_bits = ground arith

  three_bytes : (of_bytes a b c d / 256 * 256 == 0xc0000000) ≡ ((a == 192) && (b == 0) && (c == 0))
  three_bytes = ground arith

  fifteen_bits :
      (of_bytes a b c d / 131072 * 131072 == 0xc6120000) ≡ ((a == 198) && leb 18 b && leb b 19)
  fifteen_bits = ground arith

  link_local : (of_bytes a b c d / 65536 * 65536 == 0xa9fe0000) ≡ ((a == 169) && (b == 254))
  link_local = ground arith

  private_16 : (of_bytes a b c d / 65536 * 65536 == 0xc0a80000) ≡ ((a == 192) && (b == 168))
  private_16 = ground arith

  four_bits :
      ((of_bytes a b c d / 268435456 * 268435456 == 0xe0000000)
        || (of_bytes a b c d / 268435456 * 268435456 == 0xf0000000))
      ≡ leb 224 a
  four_bits = ground arith

  last_two : (x y z : Bool) → (x || y) ≡ z → (x || (y || false)) ≡ (z || false)
  last_two true y z e = rw (← e) refl
  last_two false true z e = rw (← e) refl
  last_two false false z e = rw (← e) refl

  -- The table of prefixes forbids an address exactly when its bytes name one of the ranges.
  pub forbidden_int-quad : forbidden_int (of_bytes a b c d) ≡ forbidden_quad a b c
  unfolding forbidden_int
  forbidden_int-quad =
      let n = of_bytes a b c d in
      rw
        (
          one_byte 0,
          one_byte 10,
          ten_bits,
          one_byte 127,
          link_local,
          twelve_bits,
          three_bytes,
          private_16,
          fifteen_bits,
          last_two (in_range n (0xe0000000, 4)) (in_range n (0xf0000000, 4)) (leb 224 a) four_bits,
        )
        refl

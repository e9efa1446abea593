-- ===== src/SafeUrl.antt =====
-- src/core/safe-url.ts: which destinations a webhook may have. `isIP` of node:net, the URL parser and
-- the resolver of names are arguments. An address is in its textual form.
pub mod Parsing
pub mod Ranges
pub mod Embedded
pub mod Deliverable
pub mod Vetted
use announcement_tool.Common.{
  ℕ, zero, suc, ◌+◌, ◌-◌, ◌*◌, ◌/◌, ◌%◌, ◌^◌, Bool, true, false, ◌&&◌, ◌||◌, not, List, [], ◌∷◌,
  ◌++◌, map, reverse, Option, none, some, Text, codes, text_eq, split, is_blank, some_of, length,
  ltb, leb, ◌==◌, if◌then◌else◌, decimal, number, Result, ok, err, ◌>>=◌, ◌>>◌, throw_if,
}

-- [network, prefix length]
abbrev pub forbidden_ranges : List (ℕ × ℕ)
forbidden_ranges =
    (0x00000000, 8)
    ∷ (0x0a000000, 8)
    ∷ (0x64400000, 10)
    ∷ (0x7f000000, 8)
    ∷ (0xa9fe0000, 16)
    ∷ (0xac100000, 12)
    ∷ (0xc0000000, 24)
    ∷ (0xc0a80000, 16)
    ∷ (0xc6120000, 15)
    ∷ (0xe0000000, 4)
    ∷ (0xf0000000, 4)
    ∷ []

-- The part at a position; `undefined` is 0 under the operators on bits.
abbrev pub part : ℕ → List ℕ → ℕ
part i [] = 0
part zero (p ∷ ps) = p
part (suc i) (p ∷ ps) = part i ps

-- ((p[0] << 24) | (p[1] << 16) | (p[2] << 8) | p[3]) >>> 0. The parts are bytes, since the callers
-- pass dotted quads, so that `|` adds.
unfoldable pub v4_to_int : Text → ℕ
v4_to_int ip =
    let p = map number (split b'.' ip) in
    part 0 p * 16777216 + part 1 p * 65536 + part 2 p * 256 + part 3 p

-- ((n & mask) >>> 0) === net, for the mask of the `bits` leading bits of 32
abbrev pub in_range : ℕ → ℕ × ℕ → Bool
in_range n (net, bits) = n / 2 ^ (32 - bits) * 2 ^ (32 - bits) == net

unfoldable pub forbidden_int : ℕ → Bool
forbidden_int n = some_of (in_range n) forbidden_ranges

unfoldable pub forbidden_v4 : Text → Bool
unfolding forbidden_int v4_to_int
forbidden_v4 ip = forbidden_int (v4_to_int ip)

-- `${g[i] >> 8}.${g[i] & 0xff}.${g[j] >> 8}.${g[j] & 0xff}`
unfoldable pub dotted : ℕ → ℕ → Text
dotted hi lo =
    decimal (hi / 256)
    ++ b'.' ∷ (decimal (hi % 256) ++ b'.' ∷ (decimal (lo / 256) ++ b'.' ∷ decimal (lo % 256)))

-- The eight groups of an address of version 6.
pub record Groups : Type 0 where
  pub g0 : ℕ
  pub g1 : ℕ
  pub g2 : ℕ
  pub g3 : ℕ
  pub g4 : ℕ
  pub g5 : ℕ
  pub g6 : ℕ
  pub g7 : ℕ

-- isZero(0, 5)
abbrev pub first_zero : Groups → Bool
first_zero g = (g.g0 == 0) && (g.g1 == 0) && (g.g2 == 0) && (g.g3 == 0) && (g.g4 == 0)

-- The tests of `forbiddenV6` in their order, on the groups of the address.
unfoldable pub forbidden_groups : Groups → Bool
unfolding forbidden_v4 dotted
forbidden_groups g =
    let last = forbidden_v4 (dotted g.g6 g.g7) in
    let sixth_zero = first_zero g && (g.g5 == 0) in
    if sixth_zero && (g.g6 == 0) && (g.g7 == 0)
    then true
    else if sixth_zero && (g.g6 == 0) && (g.g7 == 1)
    then true
    else if first_zero g && (g.g5 == 0xffff)
    then last
    else if sixth_zero && not ((g.g6 == 0) && (g.g7 == 0))
    then last
    else if (g.g0 == 0x64)
        && (g.g1 == 0xff9b)
        && (g.g2 == 0)
        && (g.g3 == 0)
        && (g.g4 == 0)
        && (g.g5 == 0)
    then last
    else if (g.g0 == 0x64) && (g.g1 == 0xff9b) && (g.g2 == 1)
    then true
    else if g.g0 == 0x2002
    then forbidden_v4 (dotted g.g1 g.g2)
    else if g.g0 / 64 * 64 == 0xfec0
    then true
    else if g.g0 / 512 * 512 == 0xfc00
    then true
    else if g.g0 / 64 * 64 == 0xfe80
    then true
    else g.g0 / 256 * 256 == 0xff00

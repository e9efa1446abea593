-- ===== src/Common/Decimals.antt =====
-- Numbers in decimal: `String(n)` and `Number(s)`, and that the one reads what the other writes.
use Prim.Native.Nat.{ℕ, zero, suc, ◌+◌, ◌-◌, ◌*◌, ◌/◌, ◌%◌, ◌<◌, ◌≤◌}
use mathlib.Core.Path.{◌≡◌, refl, ◌∙◌}
use mathlib.Core.Logic.{inl, inr}
use mathlib.Core.Bool.{false}
use mathlib.Core.List.{[], ◌∷◌, ◌++◌}
use native.Mathlib.Omega.{arith}
use announcement_tool.Common.Tests.{ltb, ◌==◌, if◌then◌else◌, Bool-cases, ltb-false→le}
use announcement_tool.Common.Strings.{Text}
use announcement_tool.Common.Lists.{All, All-append, length, length-append}

digits_of : ℕ → ℕ → Text
digits_of zero n = []
digits_of (suc f) n =
    let more = digits_of f (n / 10) ++ (b'0' + n % 10) ∷ [] in
    if ltb n 10 then (b'0' + n) ∷ [] else more

-- String(n)
unfoldable pub decimal : ℕ → Text
unfolding digits_of
decimal n = digits_of (suc n) n

-- Number(s), for a text of decimal digits
unfoldable pub number_from : ℕ → Text → ℕ
number_from n [] = n
number_from n (c ∷ s) = number_from (n * 10 + (c - b'0')) s

unfoldable pub number : Text → ℕ
unfolding number_from
number s = number_from 0 s

number_from-append : (n : ℕ) (s t : Text) → number_from n (s ++ t) ≡ number_from (number_from n s) t
unfolding number_from
number_from-append n [] t = refl
number_from-append n (c ∷ s) t = number_from-append (n * 10 + (c - b'0')) s t

number-digits_of : (f n : ℕ) → n < f → number_from 0 (digits_of f n) ≡ n
unfolding digits_of number_from
number-digits_of zero n h = absurd (omega arith)
number-digits_of (suc f) n h = elim (Bool-cases (ltb n 10)) [
  | inl small ↦ rw small (omega arith)
  | inr big ↦
      let least = ltb-false→le n 10 big in
      let head = number-digits_of f (n / 10) (omega arith) in
      rw big (number_from-append 0 (digits_of f (n / 10)) _ ∙ rw head (omega arith))
]

-- Reading what was written.
pub number-decimal : (n : ℕ) → number (decimal n) ≡ n
unfolding number decimal
number-decimal n = number-digits_of (suc n) n (omega arith)

digits_of_no_dot : (f n : ℕ) → All (λ c. (c == b'.') ≡ false) (digits_of f n)
unfolding digits_of
digits_of_no_dot zero n = tt
digits_of_no_dot (suc f) n = elim (Bool-cases (ltb n 10)) [
  | inl small ↦ rw small (ground arith, tt)
  | inr big ↦ rw big (
      All-append (λ c. (c == b'.') ≡ false) (digits_of f (n / 10)) _ (digits_of_no_dot f (n / 10))
        (ground arith, tt))
]

pub decimal_no_dot : (n : ℕ) → All (λ c. (c == b'.') ≡ false) (decimal n)
unfolding decimal
decimal_no_dot n = digits_of_no_dot (suc n) n

length-digits_of : (f n : ℕ) → n < 10 → length (digits_of (suc f) n) ≡ 1
unfolding digits_of
length-digits_of f n h = elim (Bool-cases (ltb n 10)) [
  | inl small ↦ rw small refl
  | inr big ↦ let least = ltb-false→le n 10 big in absurd (omega arith)
]

-- A number below a hundred has one or two digits.
pub length-decimal : (n : ℕ) → n < 100 → length (decimal n) ≤ 2
unfolding decimal digits_of
length-decimal zero h = omega arith
length-decimal (suc n) h = elim (Bool-cases (ltb (suc n) 10)) [
  | inl small ↦ rw small (omega arith)
  | inr big ↦ rw big (
      omega (
        arith,
        length-append (digits_of (suc n) (suc n / 10)) ((b'0' + suc n % 10) ∷ []),
        length-digits_of n (suc n / 10) (omega arith),
      ))
]

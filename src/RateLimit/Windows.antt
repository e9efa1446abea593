-- ===== src/RateLimit/Windows.antt =====
-- consumeRateLimit: how many calls of one window are allowed, and how long a caller waits.
use announcement_tool.Common.{
  ℕ, ◌+◌, ◌*◌, ◌/◌, ◌%◌, ◌≤◌, ◌<◌, min, ◌≡◌, refl, sym, ap, ◌∙◌, inl, inr, true, false, ◌&&◌, List,
  [], ◌∷◌, arith, Text, text_eq, text_eq_iff, text_eq_refl, ltb, leb, ◌==◌, All, Bool-cases,
  and-eq-true, ltb→lt, if◌then◌else◌,
}
use native.Mathlib.Nat.{mod-lt}
use native.Mathlib.Omega.{div_any}
use announcement_tool.RateLimit.{
  RateLimitRule, Counter, is_counter, count_call, prune, window_ms, window_start_of, retry_after,
  consume_rate_limit, prune_age_ms,
}

-- The count that the table has for a key and a window.
unfoldable pub count_of : Text → ℕ → List Counter → ℕ
count_of key w [] = 0
count_of key w (c ∷ cs) =
    let rest = count_of key w cs in if is_counter key w c then c.count else rest

count_call-count :
    (key : Text) (w : ℕ) (t : List Counter) → (count_call key w t).1 ≡ count_of key w t + 1
unfolding count_call count_of
count_call-count key w [] = refl
count_call-count key w (c ∷ cs) = elim (Bool-cases (is_counter key w c)) [
  | inl h ↦ rw h refl
  | inr h ↦ rw h (count_call-count key w cs)
]

count_of-count_call :
    (key : Text) (w : ℕ) (t : List Counter)
    → count_of key w (count_call key w t).0 ≡ count_of key w t + 1
unfolding count_call count_of
count_of-count_call key w [] = rw (text_eq_refl key) (ground arith)
count_of-count_call key w (c ∷ cs) = elim (Bool-cases (is_counter key w c)) [
  | inl h ↦ rw h (rw h refl)
  | inr h ↦ rw h (rw h (count_of-count_call key w cs))
]

-- The count of another key.
count_of_other :
    (key other : Text) (w v : ℕ) (t : List Counter)
    → text_eq other key ≡ false
    → count_of key w (count_call other v t).0 ≡ count_of key w t
unfolding count_call count_of
count_of_other key other w v [] h = rw h refl
count_of_other key other w v (c ∷ cs) h = elim (Bool-cases (is_counter other v c)) [
  | inr off ↦ rw off (
      ap (λ (n : ℕ). if is_counter key w c then c.count else n) (count_of_other key other w v cs h))
  | inl on ↦ rw on (
      let same : c.key ≡ other = (text_eq_iff c.key other).0 (and-eq-true _ _ on).0 in
      rw (same, h) refl)
]

-- A row that is pruned is of no window that is still counted.
not_counted :
    (key : Text) (w now : ℕ) (c : Counter) (n : ℕ)
    → now ≤ w + prune_age_ms
    → ltb (c.window_start + prune_age_ms) now ≡ true
    → (if is_counter key w c then c.count else n) ≡ n
not_counted key w now c n h old =
    let before = ltb→lt _ _ old in
    let other : (c.window_start == w) ≡ false = ground arith in rw other (ground arith)

count_of-prune :
    (key : Text) (w now : ℕ) (t : List Counter)
    → now ≤ w + prune_age_ms
    → count_of key w (prune now t) ≡ count_of key w t
unfolding prune count_of
count_of-prune key w now [] h = refl
count_of-prune key w now (c ∷ cs) h = elim (Bool-cases (ltb (c.window_start + prune_age_ms) now)) [
  | inr young ↦
      rw young
        (ap (λ (n : ℕ). if is_counter key w c then c.count else n) (count_of-prune key w now cs h))
  | inl old ↦ rw old (count_of-prune key w now cs h ∙ sym (not_counted key w now c _ h old))
]

window_bounds :
    (rule : RateLimitRule) (now : ℕ)
    → 0 < rule.window_seconds
    → (window_start_of rule now ≤ now) × (now < window_start_of rule now + window_ms rule)
window_bounds rule now pos =
    let left = mod-lt now {m = window_ms rule} (omega arith) in
    let split : window_ms rule * (now / window_ms rule) + now % window_ms rule ≡ now =
      div_any now (window_ms rule) in
    (omega (arith, split, left), omega (arith, split, left))

-- The answer tells to wait at least a second, until the next window begins, and no second longer
-- than the window is.
pub retry_after_bounds :
    (key : Text) (rule : RateLimitRule) (now : ℕ) (table : List Counter)
    → 0 < rule.window_seconds
    → (1 ≤ (consume_rate_limit key rule now table).0.retry_after_seconds)
      × ((consume_rate_limit key rule now table).0.retry_after_seconds ≤ rule.window_seconds)
      × (window_start_of rule now + window_ms rule
          ≤ now + (consume_rate_limit key rule now table).0.retry_after_seconds * 1000)
unfolding consume_rate_limit retry_after
retry_after_bounds key rule now table pos =
    let (low, high) = window_bounds rule now pos in
    (omega arith, omega (arith, low, high), omega (arith, low, high))

-- How many of the calls, each with its key and time, are allowed to `key`, and how many it makes.
unfoldable pub allowed_calls : Text → RateLimitRule → List (Text × ℕ) → List Counter → ℕ
allowed_calls key rule [] t = 0
allowed_calls key rule ((caller, now) ∷ calls) t =
    let (result, t') = consume_rate_limit caller rule now t in
    let rest = allowed_calls key rule calls t' in
    if text_eq caller key && result.allowed then rest + 1 else rest

abbrev pub calls_of : Text → List (Text × ℕ) → ℕ
calls_of key [] = 0
calls_of key ((caller, now) ∷ calls) =
    let rest = calls_of key calls in if text_eq caller key then rest + 1 else rest

-- Every call is made in the window that begins at `w`.
abbrev pub InWindow : RateLimitRule → ℕ → List (Text × ℕ) → Type 0
InWindow rule w = All (λ (call : Text × ℕ). window_start_of rule call.1 ≡ w)

one_more :
    (c n l a : ℕ)
    → min (c + 1) l + a ≡ min (c + 1 + n) l
    → min c l + (if leb (c + 1) l then a + 1 else a) ≡ min (c + (n + 1)) l
one_more c n l a h = ground arith

module _ (key : Text) (rule : RateLimitRule) (w : ℕ) (pos : 0 < rule.window_seconds)
    (day : rule.window_seconds ≤ 86_400) where
  young : (now : ℕ) → window_start_of rule now ≡ w → now ≤ w + prune_age_ms
  young now e = let (low, high) = window_bounds rule now pos in omega (arith, low, high, e)

  count-after :
      (caller : Text) (now : ℕ) (t : List Counter)
      → window_start_of rule now ≡ w
      → count_of key w (consume_rate_limit caller rule now t).1
        ≡ (if text_eq caller key then count_of key w t + 1 else count_of key w t)
  unfolding consume_rate_limit
  count-after caller now t e =
      count_of-prune key w now _ (young now e) ∙ elim (Bool-cases (text_eq caller key)) [
        | inl same ↦ rw (same, (text_eq_iff caller key).0 same, e) (count_of-count_call key w t)
        | inr other ↦ rw (other, e) (count_of_other key caller w w t other)
      ]

  allowed-count :
      (caller : Text) (now : ℕ) (t : List Counter)
      → text_eq caller key ≡ true
      → window_start_of rule now ≡ w
      → (consume_rate_limit caller rule now t).0.allowed ≡ leb (count_of key w t + 1) rule.limit
  unfolding consume_rate_limit
  allowed-count caller now t same e =
      rw ((text_eq_iff caller key).0 same, e) (rw (count_call-count key w t) refl)

  -- In one window, of at most a day, exactly the first `limit` calls of a key are allowed, whatever
  -- other keys do in between: the calls counted so far and those allowed from now on make up the
  -- limit, or all calls where they are fewer.
  pub allowed_calls-min :
      (calls : List (Text × ℕ)) (table : List Counter)
      → InWindow rule w calls
      → min (count_of key w table) rule.limit + allowed_calls key rule calls table
        ≡ min (count_of key w table + calls_of key calls) rule.limit
  unfolding allowed_calls
  allowed_calls-min [] table inside = omega arith
  allowed_calls-min ((caller, now) ∷ calls) table inside =
      let rest = allowed_calls-min calls (consume_rate_limit caller rule now table).1 inside.1 in
      let count = count-after caller now table inside.0 in
      elim (Bool-cases (text_eq caller key)) [
        | inr other ↦ rw other (rw (count, other) at rest)
        | inl same ↦
            rw (same, allowed-count caller now table same inside.0)
              (one_more _ _ rule.limit _ (rw (count, same) at rest))
      ]

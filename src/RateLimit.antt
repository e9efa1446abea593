-- ===== src/RateLimit.antt =====
-- src/core/rate-limit.ts: fixed clock windows, counted in the table `rate_limits`. The times are in
-- milliseconds.
pub mod Windows
use announcement_tool.Common.{
  ℕ, zero, suc, ◌+◌, ◌-◌, ◌*◌, ◌/◌, max, Bool, true, false, ◌&&◌, not, List, [], ◌∷◌, Text, text_eq,
  keep, ltb, leb, ◌==◌, if◌then◌else◌,
}

pub record RateLimitRule : Type 0 where
  pub limit : ℕ
  pub window_seconds : ℕ

pub record RateLimitResult : Type 0 where
  pub allowed : Bool
  pub remaining : ℕ
  pub retry_after_seconds : ℕ

-- RATE_LIMITS
abbrev pub email_per_address : RateLimitRule
email_per_address = record { limit = 3; window_seconds = 3600 }

abbrev pub email_per_ip : RateLimitRule
email_per_ip = record { limit = 10; window_seconds = 3600 }

abbrev pub webhook_per_ip : RateLimitRule
webhook_per_ip = record { limit = 5; window_seconds = 3600 }

abbrev pub csp_report_per_ip : RateLimitRule
csp_report_per_ip = record { limit = 60; window_seconds = 3600 }

abbrev pub webhook_test_per_sub : RateLimitRule
webhook_test_per_sub = record { limit = 10; window_seconds = 3600 }

abbrev pub webhook_test_per_ip : RateLimitRule
webhook_test_per_ip = record { limit = 20; window_seconds = 3600 }

abbrev pub prune_age_ms : ℕ
prune_age_ms = 86_400_000

-- A row of `rate_limits`.
pub record Counter : Type 0 where
  pub key : Text
  pub window_start : ℕ
  pub count : ℕ

abbrev pub is_counter : Text → ℕ → Counter → Bool
is_counter key window_start c = text_eq c.key key && (c.window_start == window_start)

-- insert … on conflict (key, window_start) do update set count = rate_limits.count + 1 returning count
unfoldable pub count_call : Text → ℕ → List Counter → List Counter × ℕ
count_call key window_start [] =
    (record { key = key; window_start = window_start; count = 1 } ∷ [], 1)
count_call key window_start (c ∷ cs) =
    let (cs', n) = count_call key window_start cs in
    if is_counter key window_start c
    then (record c { count = c.count + 1 } ∷ cs, c.count + 1)
    else (c ∷ cs', n)

-- delete from rate_limits where window_start < now - PRUNE_AGE_MS
unfoldable pub prune : ℕ → List Counter → List Counter
prune now = keep (λ c. not (ltb (c.window_start + prune_age_ms) now))

abbrev pub window_ms : RateLimitRule → ℕ
window_ms rule = rule.window_seconds * 1000

abbrev pub window_start_of : RateLimitRule → ℕ → ℕ
window_start_of rule now = now / window_ms rule * window_ms rule

-- Math.max(1, Math.ceil((windowStartMs + windowMs - now) / 1000))
unfoldable pub retry_after : RateLimitRule → ℕ → ℕ
retry_after rule now = max 1 ((window_start_of rule now + window_ms rule - now + 999) / 1000)

unfoldable pub consume_rate_limit :
    Text → RateLimitRule → ℕ → List Counter → RateLimitResult × List Counter
unfolding prune count_call
consume_rate_limit key rule now table =
    let (counted, count) = count_call key (window_start_of rule now) table in
    (
      record {
        allowed = leb count rule.limit;
        remaining = rule.limit - count;
        retry_after_seconds = retry_after rule now;
      },
      prune now counted,
    )

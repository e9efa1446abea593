-- ===== src/Subscriptions/Table.antt =====
-- src/core/subscriptions.ts: the operations on the rows of `subscriptions`. A key of a partial
-- filter that is absent is `none`; the keys are checked in the order of the type.
use announcement_tool.Common.{
  ℕ, ◌+◌, ◌*◌, Bool, true, false, ◌&&◌, ◌||◌, not, List, [], ◌∷◌, ◌++◌, Option, none, some, Text,
  text_eq, to_lower_case, codes, some_of, ltb, update_where, if◌then◌else◌, Result, ok, err, ◌>>◌,
  throw_if,
}
use announcement_tool.Types.{ChannelName, webhook, email, channel_eq}
use announcement_tool.Store.{SubscriptionFilters, PartialFilters, SubscriptionRow, Db}
use announcement_tool.Subscriptions.{Subscription, row_to_sub, defaults, verify_token_ttl_hours}

pub data SubscriptionError : Type 0 where
  filter_empty : Text → SubscriptionError
  duplicate_key email_not_lowercase mail_failed null_filters : SubscriptionError

abbrev pub no_filters : PartialFilters
no_filters = record { networks = none; types = none; severities = none; audiences = none }

-- Array.isArray(v) && v.length === 0
abbrev is_empty_array {ℓ} : {A : Type ℓ} → Option (List A) → Bool
is_empty_array none = false
is_empty_array (some []) = true
is_empty_array (some (x ∷ xs)) = false

-- The first key whose array is empty.
unfoldable pub empty_filter : PartialFilters → Option Text
empty_filter f =
    if is_empty_array f.networks
    then some (codes "networks")
    else if is_empty_array f.types
    then some (codes "types")
    else if is_empty_array f.severities
    then some (codes "severities")
    else if is_empty_array f.audiences
    then some (codes "audiences")
    else none

unfoldable pub check_filters : PartialFilters → Result SubscriptionError (Unit {0})
check_filters f = elim (empty_filter f) [ none ↦ ok tt | some k ↦ err (filter_empty k) ]

-- coalesce(new, old), and `{ ...old, ...new }` on one key
abbrev pub coalesce {ℓ} : {A : Type ℓ} → Option A → A → A
coalesce none old = old
coalesce (some new) old = new

unfoldable pub merge_filters : PartialFilters → SubscriptionFilters → SubscriptionFilters
merge_filters f old = record {
  networks = coalesce f.networks old.networks;
  types = coalesce f.types old.types;
  severities = coalesce f.severities old.severities;
  audiences = coalesce f.audiences old.audiences;
}

abbrev pub or_none : Option PartialFilters → PartialFilters
or_none none = no_filters
or_none (some f) = f

-- The values that src/core/ids.ts draws at random for one new row.
pub record Draw : Type 0 where
  pub id : Text
  pub secret : Text
  pub unsubscribe_token : Text
  pub verify_token : Text

unfoldable pub same_token : Option Text → Option Text → Bool
same_token none t = false
same_token (some s) none = false
same_token (some s) (some t) = text_eq s t

-- where channel = … and endpoint = …
abbrev pub at_endpoint : ChannelName → Text → SubscriptionRow → Bool
at_endpoint channel endpoint r = channel_eq r.channel channel && text_eq r.endpoint endpoint

-- The primary key and the unique columns: id, (channel, endpoint), unsubscribe_token, verify_token.
unfoldable pub clashes : SubscriptionRow → SubscriptionRow → Bool
unfolding same_token
clashes new r =
    text_eq r.id new.id
    || at_endpoint new.channel new.endpoint r
    || text_eq r.unsubscribe_token new.unsubscribe_token
    || same_token r.verify_token new.verify_token

abbrev pub set_subscriptions : (List SubscriptionRow → List SubscriptionRow) → Db → Db
set_subscriptions f db = record db { subscriptions = f db.subscriptions }

abbrev pub is_webhook : ChannelName → Bool
is_webhook c = channel_eq c webhook

abbrev pub new_subscription : ℕ → Draw → ChannelName → Text → PartialFilters → SubscriptionRow
new_subscription now draw channel endpoint f = record {
  id = draw.id;
  channel = channel;
  endpoint = endpoint;
  verified = false;
  secret = if is_webhook channel then some draw.secret else none;
  filters = merge_filters f defaults;
  unsubscribe_token = draw.unsubscribe_token;
  verify_token = some draw.verify_token;
  verify_token_issued_at = some now;
  pending_filters = none;
  pending_token = none;
  pending_token_issued_at = none;
}

-- check (channel <> 'email' or endpoint = lower(endpoint))
abbrev pub breaks_lowercase : ChannelName → Text → Bool
breaks_lowercase channel endpoint =
    channel_eq channel email && not (text_eq endpoint (to_lower_case endpoint))

unfoldable pub create_subscription :
    ℕ
    → Draw
    → ChannelName
    → Text
    → Option PartialFilters
    → Db
    → Result SubscriptionError (Subscription × Db)
create_subscription now draw channel endpoint filters db = do
  check_filters (or_none filters)
  let row = new_subscription now draw channel endpoint (or_none filters)
  throw_if (breaks_lowercase channel endpoint) email_not_lowercase
  throw_if (some_of (clashes row) db.subscriptions) duplicate_key
  ok (row_to_sub row, set_subscriptions (λ rows. rows ++ row ∷ []) db)

-- where id = ${id}
abbrev pub has_id : Text → SubscriptionRow → Bool
has_id id r = text_eq r.id id

abbrev pub set_filters : PartialFilters → SubscriptionRow → SubscriptionRow
set_filters f r = record r { filters = merge_filters f r.filters }

unfoldable pub update_subscription_filters :
    Text → PartialFilters → Db → Result SubscriptionError Db
update_subscription_filters id f db = do
  check_filters f
  ok (set_subscriptions (update_where (has_id id) (set_filters f)) db)

abbrev pub set_verified : SubscriptionRow → SubscriptionRow
set_verified r = record r { verified = true; verify_token = none; verify_token_issued_at = none }

unfoldable pub verify_subscription : Text → Db → Db
verify_subscription id = set_subscriptions (update_where (has_id id) set_verified)

-- The first row that a select returns.
unfoldable pub first_row : (SubscriptionRow → Bool) → List SubscriptionRow → Option SubscriptionRow
first_row p [] = none
first_row p (r ∷ rows) = let rest = first_row p rows in if p r then some r else rest

abbrev pub to_sub : Option SubscriptionRow → Option Subscription
to_sub none = none
to_sub (some r) = some (row_to_sub r)

unfoldable pub get_subscription : Text → Db → Option Subscription
get_subscription id db = to_sub (first_row (has_id id) db.subscriptions)

abbrev pub hour : ℕ
hour = 3_600_000

-- issued_at > now() - (hours || ' hours')::interval; null is not
unfoldable pub still_valid : ℕ → ℕ → Option ℕ → Bool
still_valid now hours none = false
still_valid now hours (some issued_at) = ltb now (issued_at + hours * hour)

abbrev pub has_verify_token : ℕ → Text → SubscriptionRow → Bool
has_verify_token now token r =
    same_token r.verify_token (some token)
    && still_valid now verify_token_ttl_hours r.verify_token_issued_at

unfoldable pub get_subscription_by_verify_token : ℕ → Text → Db → Option Subscription
get_subscription_by_verify_token now token db =
    to_sub (first_row (has_verify_token now token) db.subscriptions)

abbrev pub has_unsubscribe_token : Text → SubscriptionRow → Bool
has_unsubscribe_token token r = text_eq r.unsubscribe_token token

unfoldable pub get_subscription_by_unsubscribe_token : Text → Db → Option Subscription
get_subscription_by_unsubscribe_token token db =
    to_sub (first_row (has_unsubscribe_token token) db.subscriptions)

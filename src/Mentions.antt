-- ===== src/Mentions.antt =====
-- src/core/discord-mentions.ts: the line of mentions above a Discord message. A regular expression is
-- the function that measures or reads its match at the start of a text; `\b` after a letter is the end
-- of the text or a unit that is no word unit.
pub mod Erasing
pub mod Spaces
pub mod Squeezing
pub mod Line
pub mod Allowed
use announcement_tool.Common.{
  ℕ, zero, suc, ◌+◌, Bool, true, false, ◌&&◌, ◌||◌, not, List, [], ◌∷◌, ◌++◌, Option, none, some,
  map, keep, some_of, Text, codes, text_eq, is_space, collapse_runs, is_blank, trim, includes,
  length, leb, ltb, ◌==◌, if◌then◌else◌,
}

-- Type DiscordRole of src/core/types.ts.
pub record DiscordRole : Type 0 where
  pub name : Text
  pub id : Text

-- An element of `config.roles`: its two members where they are texts.
pub record RoleEntry : Type 0 where
  pub name : Option Text
  pub id : Option Text

-- What the functions read of a row's config; `roles` is `none` where it is no array.
pub record MentionConfig : Type 0 where
  pub prefix : Option Text
  pub roles : Option (List RoleEntry)

abbrev pub is_digit : ℕ → Bool
is_digit c = leb b'0' c && leb c b'9'

-- \w
abbrev pub is_word : ℕ → Bool
is_word c = is_digit c || leb b'a' c && leb c b'z' || leb b'A' c && leb c b'Z' || (c == b'_')

abbrev pub push_unit : ℕ → Option Text → Option Text
push_unit c none = none
push_unit c (some s) = some (c ∷ s)

-- \d*>, with the digits
unfoldable pub digits_close : Text → Option Text
digits_close [] = none
digits_close (c ∷ s) =
    let rest = digits_close s in
    if c == b'>' then some [] else if is_digit c then push_unit c rest else none

abbrev pub not_empty : Option Text → Option Text
not_empty none = none
not_empty (some []) = none
not_empty (some (c ∷ s)) = some (c ∷ s)

-- \d+>
unfoldable pub numeral : Text → Option Text
unfolding digits_close
numeral s = not_empty (digits_close s)

-- What stands after <@
unfoldable pub after_open : Text → Option Text
after_open (c ∷ d ∷ s) = if (c == b'<') && (d == b'@') then some s else none
after_open _ = none

abbrev pub units : ℕ → Option Text → ℕ
units n none = 0
units n (some id) = n + length id

unfoldable pub mention_after : Text → ℕ
unfolding numeral
mention_after [] = 0
mention_after (c ∷ s) =
    if (c == b'&') || (c == b'!') then units 4 (numeral s) else units 3 (numeral (c ∷ s))

-- The length of a match of <@[&!]?\d+>
unfoldable pub mention_length : Text → ℕ
unfolding after_open mention_after
mention_length s = elim (after_open s) [ none ↦ 0 | some t ↦ mention_after t ]

-- The word, and then \b
unfoldable pub word_at : Text → Text → Bool
word_at [] [] = true
word_at [] (c ∷ s) = not (is_word c)
word_at (p ∷ ps) [] = false
word_at (p ∷ ps) (c ∷ s) = (p == c) && word_at ps s

-- The length of a match of @(?:everyone|here)\b
unfoldable pub everyone_length : Text → ℕ
unfolding word_at
everyone_length s =
    if word_at (codes "@everyone") s then 9 else if word_at (codes "@here") s then 5 else 0

-- s.replace(…, '') for all matches, after `skip` units that belong to a match.
unfoldable pub erase : (Text → ℕ) → ℕ → Text → Text
erase m skip [] = []
erase m (suc skip) (c ∷ s) = erase m skip s
erase m zero (c ∷ s) = elim (m (c ∷ s)) [ zero ↦ c ∷ erase m zero s | suc n ↦ erase m n s ]

-- One round of the loop.
unfoldable pub strip_round : Text → Text
unfolding erase mention_length everyone_length
strip_round s = erase everyone_length 0 (erase mention_length 0 s)

-- do { … } while (s !== prev); a round that changes the text shortens it, so the length is fuel enough.
unfoldable pub strip_loop : ℕ → Text → Text
unfolding strip_round
strip_loop zero s = s
strip_loop (suc fuel) s = elim (text_eq (strip_round s) s) [
  | true ↦ strip_round s
  | false ↦ strip_loop fuel (strip_round s)
]

unfoldable pub strip_role_mentions : Text → Text
unfolding strip_loop collapse_runs
strip_role_mentions s = trim (collapse_runs is_space false (strip_loop (suc (length s)) s))

abbrev pub everyone : DiscordRole
everyone = record { name = codes "everyone"; id = codes "everyone" }

abbrev pub here : DiscordRole
here = record { name = codes "here"; id = codes "here" }

abbrev pub builtin_roles : List DiscordRole
builtin_roles = everyone ∷ here ∷ []

abbrev pub is_builtin : Text → Bool
is_builtin id = some_of (λ (r : DiscordRole). text_eq r.id id) builtin_roles

-- The callback of flatMap, on the two members.
unfoldable pub parse_role : Option Text → Option Text → List DiscordRole
parse_role (some name) (some id) =
    if is_blank (trim name) || is_blank (trim id)
    then []
    else if is_builtin (trim id)
    then []
    else record { name = trim name; id = trim id } ∷ []
parse_role _ _ = []

abbrev kept_roles : List RoleEntry → List DiscordRole
kept_roles [] = []
kept_roles (r ∷ rs) = parse_role r.name r.id ++ kept_roles rs

unfoldable pub parse_discord_roles : MentionConfig → List DiscordRole
unfolding parse_role
parse_discord_roles cfg = elim cfg.roles [ none ↦ [] | some roles ↦ kept_roles roles ]

abbrev pub or_empty : {A : Type 0} → Option (List A) → List A
or_empty none = []
or_empty (some xs) = xs

abbrev pub selected : List Text → List DiscordRole → List DiscordRole
selected ids = keep (λ r. includes ids r.id)

-- `@${r.name}`
abbrev pub at_name : DiscordRole → Text
at_name r = b'@' ∷ r.name

-- `<@&${id}>`
abbrev pub role_mention : DiscordRole → Text
role_mention r = codes "<@&" ++ (r.id ++ codes ">")

-- [...(prefix ? [prefix] : []), …]
abbrev pub with_prefix : Text → List Text → List Text
with_prefix prefix parts = if is_blank prefix then parts else prefix ∷ parts

-- parts.join(' ')
unfoldable pub join_spaced : List Text → Text
join_spaced [] = []
join_spaced (p ∷ []) = p
join_spaced (p ∷ q ∷ ps) = p ++ (b' ' ∷ join_spaced (q ∷ ps))

unfoldable pub mention_line : MentionConfig → List Text → Text
unfolding strip_role_mentions parse_discord_roles join_spaced
mention_line cfg ids = trim (
    join_spaced (
      with_prefix (strip_role_mentions (or_empty cfg.prefix)) (
        map at_name (selected ids builtin_roles)
        ++ map role_mention (selected ids (parse_discord_roles cfg)))))

-- line || undefined
unfoldable pub compose_mention_line : MentionConfig → Option (List Text) → Option Text
unfolding mention_line
compose_mention_line cfg ids =
    let line = mention_line cfg (or_empty ids) in if is_blank line then none else some line

abbrev pub role_after : Text → Option Text
unfolding numeral
role_after [] = none
role_after (c ∷ s) = if c == b'&' then numeral s else none

-- A match of <@&(\d+)>, with what it captures.
unfoldable pub role_at : Text → Option Text
unfolding after_open
role_at s = elim (after_open s) [ none ↦ none | some t ↦ role_after t ]

-- [...s.matchAll(/<@&(\d+)>/g)].map(m => m[1]), after `skip` units that belong to a match.
unfoldable pub role_ids : ℕ → Text → List Text
unfolding role_at
role_ids skip [] = []
role_ids (suc skip) (c ∷ s) = role_ids skip s
role_ids zero (c ∷ s) = elim (role_at (c ∷ s)) [
  | none ↦ role_ids zero s
  | some id ↦ id ∷ role_ids (length id + 3) s
]

unfoldable pub mentioned_role_ids : MentionConfig → Option (List Text) → List Text
unfolding compose_mention_line role_ids
mentioned_role_ids cfg ids = elim (compose_mention_line cfg ids) [
  | none ↦ []
  | some line ↦ role_ids 0 line
]

unfoldable pub mentions_everyone : Option (List Text) → Bool
mentions_everyone ids = some_of is_builtin (or_empty ids)

abbrev pub max_prefix_length : ℕ
max_prefix_length = 512

-- The length of a prefix that is refused.
unfoldable pub validate_prefix : Text → Option ℕ
validate_prefix prefix =
    if leb (length prefix) max_prefix_length then none else some (length prefix)

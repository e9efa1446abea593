-- ===== src/Mentions/Allowed.antt =====
-- mentionedRoleIds: the roles that a message may ping are the ones that its author selected.
use announcement_tool.Common.{
  ◌≡◌, refl, sym, ◌⊎◌, ◌↔◌, inl, inr, true, List, [], ◌∷◌, ◌++◌, Option, none, some, map, Text,
  includes, is_blank, In, In-append_right, In-append_cases, In-keep, keep-In, In-map, map-In,
  if◌then◌else◌,
}
use announcement_tool.Mentions.{
  DiscordRole, MentionConfig, builtin_roles, parse_discord_roles, or_empty, selected, at_name,
  role_mention, with_prefix, join_spaced, strip_role_mentions, mention_line, compose_mention_line,
  role_at, role_ids, mentioned_role_ids, after_open,
}
use announcement_tool.Mentions.Squeezing.{strip_role_mentions-Clean}
use announcement_tool.Mentions.Line.{
  IsNumeral, role_ids-trim, role_ids-hits, role_ids-join, role_ids-mention,
}

-- A part of the line that mentions no role, or the mention of one role.
no_builtin : (r : DiscordRole) → In r builtin_roles → role_ids 0 (at_name r) ≡ []
unfolding role_ids role_at after_open
no_builtin r (inl e) = rw e refl
no_builtin r (inr (inl e)) = rw e refl
no_builtin r (inr (inr m)) = absurd m

with_prefix_cases :
    (prefix p : Text) (parts : List Text)
    → In p (with_prefix prefix parts)
    → (p ≡ prefix) ⊎ In p parts
with_prefix_cases [] p parts m = inr m
with_prefix_cases (c ∷ s) p parts (inl e) = inl e
with_prefix_cases (c ∷ s) p parts (inr m) = inr m

with_prefix-In :
    (prefix p : Text) (parts : List Text) → In p parts → In p (with_prefix prefix parts)
with_prefix-In [] p parts m = m
with_prefix-In (c ∷ s) p parts m = inr m

-- A configured role has the identifier, and the author selected it.
abbrev pub Selected : MentionConfig → List Text → Text → Type 0
Selected cfg ids id =
    (r : DiscordRole) × In r (parse_discord_roles cfg) × (r.id ≡ id) × (includes ids id ≡ true)

module _ (cfg : MentionConfig) (ids : List Text)
    (numerals : (r : DiscordRole) → In r (parse_discord_roles cfg) → IsNumeral r.id) where
  abbrev parts : List Text
  parts =
      map at_name (selected ids builtin_roles)
      ++ map role_mention (selected ids (parse_discord_roles cfg))

  parts-Selected : (p id : Text) → In p parts → In id (role_ids 0 p) → Selected cfg ids id
  parts-Selected p id m n =
      elim (In-append_cases p (map at_name (selected ids builtin_roles)) _ m) [
        | inl b ↦
            let (r, k, e) = In-map at_name p _ b in
            let known = In-keep (λ (r : DiscordRole). includes ids r.id) r builtin_roles k in
            absurd (rw (e, no_builtin r known.0) at n)
        | inr c ↦
            let (r, k, e) = In-map role_mention p _ c in
            let (known, chosen) =
              In-keep (λ (r : DiscordRole). includes ids r.id) r (parse_discord_roles cfg) k in
            elim (rw (e, role_ids-mention r (numerals r known)) at n) [
              | inl f ↦ (r, known, sym f, rw f chosen)
              | inr x ↦ absurd x
            ]
      ]

  Selected-parts :
      (id : Text) → Selected cfg ids id → (p : Text) × In p parts × In id (role_ids 0 p)
  Selected-parts id (r, known, e, chosen) = (
    role_mention r,
    In-append_right (role_mention r) (map at_name (selected ids builtin_roles)) _ (
        map-In role_mention r _ (
          keep-In (λ (r : DiscordRole). includes ids r.id) r (parse_discord_roles cfg) known
            (rw e chosen))),
    rw (role_ids-mention r (numerals r known)) (inl (sym e)),
  )

  line_iff : (id : Text) → In id (role_ids 0 (mention_line cfg ids)) ↔ Selected cfg ids id
  unfolding mention_line
  line_iff id =
      let prefix = strip_role_mentions (or_empty cfg.prefix) in
      let (f, g) = role_ids-join (with_prefix prefix parts) id in
      let clean = role_ids-hits prefix (strip_role_mentions-Clean (or_empty cfg.prefix)).1.0 in
      (
        λ h.
            let (p, m, n) = f (rw (role_ids-trim (join_spaced (with_prefix prefix parts))) at h) in
            elim (with_prefix_cases prefix p parts m) [
              | inl e ↦ absurd (rw (e, clean) at n)
              | inr k ↦ parts-Selected p id k n
            ],
        λ s.
            let (p, m, n) = Selected-parts id s in
            rw (role_ids-trim (join_spaced (with_prefix prefix parts)))
              (g (p, with_prefix-In prefix p parts m, n)),
      )

of_line :
    (line : Text)
    → elim (if is_blank line then none else some line) as (λ _. List Text) [
      | none ↦ []
      | some l ↦ role_ids 0 l
    ]
      ≡ role_ids 0 line
unfolding role_ids
of_line [] = refl
of_line (c ∷ s) = refl

mentioned_lem :
    (cfg : MentionConfig) (ids : Option (List Text))
    → mentioned_role_ids cfg ids ≡ role_ids 0 (mention_line cfg (or_empty ids))
unfolding mentioned_role_ids compose_mention_line
mentioned_lem cfg ids = of_line (mention_line cfg (or_empty ids))

-- The roles that a Discord message may ping are exactly the configured roles that its author selected,
-- if each configured role has a numeral for its identifier: no text of the prefix adds a role to them,
-- and no selected role is lost.
pub mentioned_role_ids_iff :
    (cfg : MentionConfig) (ids : Option (List Text)) (id : Text)
    → ((r : DiscordRole) → In r (parse_discord_roles cfg) → IsNumeral r.id)
    → In id (mentioned_role_ids cfg ids) ↔ Selected cfg (or_empty ids) id
mentioned_role_ids_iff cfg ids id numerals =
    rw (mentioned_lem cfg ids) (line_iff cfg (or_empty ids) numerals id)

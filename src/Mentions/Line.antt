-- ===== src/Mentions/Line.antt =====
-- mentionedRoleIds reads the roles from the composed line: what it finds in the parts of a line.
use announcement_tool.Common.{
  ℕ, zero, suc, ◌+◌, ◌≤◌, ◌≡◌, refl, sym, ap, ◌∙◌, ◌↔◌, inl, inr, true, false, List, [], ◌∷◌, ◌++◌,
  Option, none, some, Text, codes, is_space, is_blank, trim, trim_split, length, length-append, ltb,
  arith, Bool-cases, Option-cases, All, In, In-append_left, In-append_right, In-append_cases,
  or-eq-false, none-ne-some, some_inj, ◌==◌, ◌&&◌, append-nil,
}
use announcement_tool.Mentions.{
  is_digit, digits_close, numeral, not_empty, after_open, units, mention_after, mention_length,
  role_after, role_at, role_ids, join_spaced, DiscordRole, role_mention,
}
use announcement_tool.Mentions.Erasing.{hits}
use announcement_tool.Mentions.Spaces.{Stops, stops, role_at-SameInk}
use announcement_tool.Mentions.Squeezing.{append-SameInk, Stops-spaces, one_space}

length-digits_close : (s id : Text) → digits_close s ≡ some id → length id + 1 ≤ length s
unfolding digits_close
length-digits_close [] id h = absurd (none-ne-some h)
length-digits_close (c ∷ s) id h = elim (Bool-cases (c == b'>')) [
  | inl e ↦ let n : [] ≡ id = some_inj (rw e at h) in rw (← n) (omega arith)
  | inr e ↦ elim (Bool-cases (is_digit c)) [
    | inr f ↦ absurd (none-ne-some (rw (e, f) at h))
    | inl f ↦ elim (Option-cases (digits_close s)) [
      | inl g ↦ absurd (none-ne-some (rw (e, f, g) at h))
      | inr (more, g) ↦
          let n : c ∷ more ≡ id = some_inj (rw (e, f, g) at h) in
          rw (← n) (omega (arith, length-digits_close s more g))
    ]
  ]
]

not_empty-some : (o : Option Text) (id : Text) → not_empty o ≡ some id → o ≡ some id
not_empty-some none id h = absurd (none-ne-some h)
not_empty-some (some []) id h = absurd (none-ne-some h)
not_empty-some (some (c ∷ s)) id h = h

length-role_after : (s id : Text) → role_after s ≡ some id → length id + 2 ≤ length s
unfolding role_after numeral
length-role_after [] id h = absurd (none-ne-some h)
length-role_after (c ∷ s) id h = elim (Bool-cases (c == b'&')) [
  | inl e ↦ omega (arith, length-digits_close s id (not_empty-some (digits_close s) id (rw e at h)))
  | inr e ↦ absurd (none-ne-some (rw e at h))
]

length-role_at : (s id : Text) → role_at s ≡ some id → length id + 4 ≤ length s
unfolding role_at after_open
length-role_at [] id h = absurd (none-ne-some h)
length-role_at (c ∷ []) id h = absurd (none-ne-some h)
length-role_at (c ∷ d ∷ s) id h = elim (Bool-cases ((c == b'<') && (d == b'@'))) [
  | inl e ↦ omega (arith, length-role_after s id (rw (e, role_at) at h))
  | inr e ↦ absurd (none-ne-some (rw (e, role_at) at h))
]

role_ids-append :
    (skip : ℕ) (s u : Text)
    → Stops u
    → skip ≤ length s
    → role_ids skip (s ++ u) ≡ role_ids skip s ++ role_ids 0 u
unfolding role_ids
role_ids-append zero [] u h k = refl
role_ids-append (suc skip) [] u h k = absurd (omega arith)
role_ids-append (suc skip) (c ∷ s) u h k = role_ids-append skip s u h (omega arith)
role_ids-append zero (c ∷ s) u h k =
    let same = role_at-SameInk (c ∷ s) (c ∷ s ++ u) (append-SameInk (c ∷ s) u h) in
    elim (Option-cases (role_at (c ∷ s))) [
      | inl e ↦ rw (← same, e, role_ids) (role_ids-append zero s u h (omega arith))
      | inr (id, e) ↦
          rw (← same, e, role_ids)
            (ap (λ ids. id ∷ ids)
              (role_ids-append (length id + 3) s u h (omega (arith, length-role_at (c ∷ s) id e))))
    ]

role_at-Stops : (s : Text) → Stops s → role_at s ≡ none
unfolding role_at after_open
role_at-Stops s h = role_at-SameInk s [] (stops s [] h tt)

role_ids_spaces : (b s : Text) → All (λ c. is_space c ≡ true) b → role_ids 0 (b ++ s) ≡ role_ids 0 s
unfolding role_ids
role_ids_spaces [] s h = refl
role_ids_spaces (c ∷ b) s h =
    rw (role_at-Stops (c ∷ b ++ s) h.0, role_ids) (role_ids_spaces b s h.1)

role_ids-nil : role_ids 0 [] ≡ []
unfolding role_ids
role_ids-nil = refl

pub role_ids-trim : (s : Text) → role_ids 0 (trim s) ≡ role_ids 0 s
role_ids-trim s =
    let (b, u, before, after, e) = trim_split s in
    let none_after : role_ids 0 u ≡ [] =
      ap (λ t. role_ids 0 t) (sym (append-nil u)) ∙ role_ids_spaces u [] after ∙ role_ids-nil in
    let parts : role_ids 0 (trim s ++ u) ≡ role_ids 0 (trim s) =
      role_ids-append 0 (trim s) u (Stops-spaces u after) (omega arith)
      ∙ rw none_after (append-nil (role_ids 0 (trim s))) in
    sym (ap (λ t. role_ids 0 t) e ∙ role_ids_spaces b (trim s ++ u) before ∙ parts)

units_zero : (n : ℕ) (o : Option Text) → units (suc n) o ≡ 0 → o ≡ none
units_zero n none h = refl
units_zero n (some id) h = absurd (omega arith)

role_after-none : (s : Text) → mention_after s ≡ 0 → role_after s ≡ none
unfolding mention_after role_after
role_after-none [] h = refl
role_after-none (c ∷ s) h = elim (Bool-cases (c == b'&')) [
  | inl e ↦ rw e (units_zero 3 (numeral s) (rw e at h))
  | inr e ↦ rw e refl
]

role_at-none : (s : Text) → mention_length s ≡ 0 → role_at s ≡ none
unfolding mention_length role_at
role_at-none s h = elim (Option-cases (after_open s)) [
  | inl e ↦ rw (e, role_at) refl
  | inr (t, e) ↦ rw (e, role_at) (role_after-none t (rw (e, mention_length) at h))
]

-- A text without a mention has no role.
pub role_ids-hits : (s : Text) → hits mention_length s ≡ false → role_ids 0 s ≡ []
unfolding role_ids hits
role_ids-hits [] h = refl
role_ids-hits (c ∷ s) h =
    let (first, rest) = or-eq-false (ltb 0 (mention_length (c ∷ s))) (hits mention_length s) h in
    rw (role_at-none (c ∷ s) (ground arith), role_ids) (role_ids-hits s rest)

-- The roles of a line are those of its parts.
pub role_ids-join :
    (ps : List Text) (id : Text)
    → In id (role_ids 0 (join_spaced ps)) ↔ ((p : Text) × In p ps × In id (role_ids 0 p))
unfolding join_spaced
role_ids-join [] id = (λ h. absurd (rw role_ids-nil at h), λ (p, m, n). absurd m)
role_ids-join (p ∷ []) id =
    (λ h. (p, inl refl, h), λ (q, m, n). elim m [ inl e ↦ rw (← e) n | inr x ↦ absurd x ])
role_ids-join (p ∷ q ∷ ps) id =
    let rest = join_spaced (q ∷ ps) in
    let split : role_ids 0 (p ++ 32 ∷ rest) ≡ role_ids 0 p ++ role_ids 0 rest =
      role_ids-append 0 p (32 ∷ rest) one_space (omega arith)
      ∙ ap (λ ids. role_ids 0 p ++ ids) (role_ids_spaces (32 ∷ []) rest (one_space, tt)) in
    let (f, g) = role_ids-join (q ∷ ps) id in
    (
      λ h. elim (In-append_cases id (role_ids 0 p) (role_ids 0 rest) (rw split at h)) [
        | inl n ↦ (p, inl refl, n)
        | inr n ↦ let (r, m, k) = f n in (r, inr m, k)
      ],
      λ (r, m, n). rw split (elim m [
        | inl e ↦ In-append_left id (role_ids 0 p) (role_ids 0 rest) (rw (← e) n)
        | inr k ↦ In-append_right id (role_ids 0 p) (role_ids 0 rest) (g (r, k, n))
      ]),
    )

role_ids_skip : (skip : ℕ) (s : Text) → length s ≤ skip → role_ids skip s ≡ []
unfolding role_ids
role_ids_skip zero [] h = refl
role_ids_skip (suc skip) [] h = refl
role_ids_skip zero (c ∷ s) h = absurd (omega arith)
role_ids_skip (suc skip) (c ∷ s) h = role_ids_skip skip s (omega arith)

-- A snowflake: digits, one at least.
abbrev pub IsNumeral : Text → Type 0
IsNumeral id = (is_blank id ≡ false) × All (λ c. is_digit c ≡ true) id

digit_close : (c : ℕ) → is_digit c ≡ true → (c == b'>') ≡ false
digit_close c h = ground arith

digits_close-append :
    (id : Text) → All (λ c. is_digit c ≡ true) id → digits_close (id ++ codes ">") ≡ some id
unfolding digits_close
digits_close-append [] h = refl
digits_close-append (c ∷ id) h = rw (digit_close c h.0, h.0, digits_close-append id h.1) refl

numeral-append : (id : Text) → IsNumeral id → numeral (id ++ codes ">") ≡ some id
unfolding numeral
numeral-append [] (h, k) = cc
numeral-append (c ∷ id) (h, k) = rw (digits_close-append (c ∷ id) k) refl

role_at-mention : (r : DiscordRole) → IsNumeral r.id → role_at (role_mention r) ≡ some r.id
unfolding role_at after_open role_after
role_at-mention r h = numeral-append r.id h

role_ids_found :
    (c : ℕ) (s id : Text)
    → role_at (c ∷ s) ≡ some id
    → role_ids 0 (c ∷ s) ≡ id ∷ role_ids (length id + 3) s
unfolding role_ids
role_ids_found c s id h = rw (h, role_ids) refl

pub role_ids-mention : (r : DiscordRole) → IsNumeral r.id → role_ids 0 (role_mention r) ≡ r.id ∷ []
role_ids-mention r h =
    let rest = codes "@&" ++ (r.id ++ codes ">") in
    role_ids_found b'<' rest r.id (role_at-mention r h)
    ∙ ap (λ ids. r.id ∷ ids)
        (role_ids_skip (length r.id + 3) rest (omega (arith, length-append r.id (codes ">"))))

-- ===== src/Identity/Starting.antt =====
-- requirePublisher and `register`: who is let in, and in which configurations the server starts.
use announcement_tool.Common.{
  ℕ, zero, suc, ◌≡◌, refl, sym, ap, subst, none-ne-some, ◌∙◌, ◌↔◌, ◌⊎◌, inl, inr, Bool, true, List,
  [], ◌∷◌, Option, none, some, Text, codes, includes, text_eq, text_eq_iff, to_lower_case, In,
  some_of, some_inj, Result, ok, err, ◌>>=◌, ◌>>◌, Bool-cases, Option-cases, false-ne-true,
}
use announcement_tool.Guard.{GuardEnv, Problem, is_text, checks_apply, guard_env_from_process}
use announcement_tool.Guard.Safe.{IsSafe, insecure_iff, check_environment_iff}
use announcement_tool.Identity.{Identity, Headers, resolve_identity, is_publisher}
use announcement_tool.Identity.Gate.{
  Reason, unreachable_codes, allowed, refused, list_publishers, gate_for, require_publisher, Race,
  answers, fails, budget, StartCheckResult, StartError, check_rows, check_race,
  assert_publishers_configured, refuse_on, register,
}

-- The table has the address, in some case of its letters.
abbrev pub Listed : List Text → Text → Type 0
Listed publishers email = (p : Text) × In p publishers × (to_lower_case p ≡ to_lower_case email)

some_of-Listed :
    (ps : List Text) (email : Text)
    → (some_of (λ q. text_eq (to_lower_case q) (to_lower_case email)) ps ≡ true) ↔ Listed ps email
some_of-Listed [] email = (λ h. cc, λ (p, m, e). absurd m)
some_of-Listed (p ∷ ps) email =
    let (f, g) = some_of-Listed ps email in
    let same = text_eq_iff (to_lower_case p) (to_lower_case email) in
    (
      λ h. elim (Bool-cases (text_eq (to_lower_case p) (to_lower_case email))) [
        | inl e ↦ (p, inl refl, same.0 e)
        | inr e ↦ let (q, m, k) = f (rw e at h) in (q, inr m, k)
      ],
      λ (q, m, k). elim m [
        | inl e ↦ rw (same.1 (rw e at k)) refl
        | inr n ↦ elim (Bool-cases (text_eq (to_lower_case p) (to_lower_case email))) [
          | inl e ↦ rw e refl
          | inr e ↦ rw e (g (q, n, k))
        ]
      ],
    )

is_publisher_iff :
    (publishers : List Text) (email : Text)
    → (is_publisher true publishers email ≡ true) ↔ Listed publishers email
unfolding is_publisher
is_publisher_iff [] email = (λ h. cc, λ (p, m, e). absurd m)
is_publisher_iff (p ∷ ps) email = some_of-Listed (p ∷ ps) email

allowed_inj : {i j : Identity} {ps qs : List Text} → allowed i ps ≡ allowed j qs → i ≡ j
allowed_inj h = cc

refused-ne-allowed : {r : Reason} {i : Identity} {ps : List Text} → refused r ≡ allowed i ps → ⊥
refused-ne-allowed h = cc

err-ne-ok : {A : Type 0} {e : StartError} {a : A} → err e ≡ ok a → ⊥
err-ne-ok h = cc

module _ (before : Text → Text → Bool) (publishers listed : List Text) (i : Identity) where
  gate_iff :
      (j : Identity)
      → (gate_for before true (some publishers) (some listed) j
          ≡ allowed i (list_publishers before listed))
        ↔ ((j ≡ i) × Listed publishers i.email)
  unfolding gate_for
  gate_iff j = elim (Bool-cases (is_publisher true publishers j.email)) [
    | inl p ↦ (
      λ h.
          let e : j ≡ i = allowed_inj (rw p at h) in
          (e, subst (λ k. Listed publishers k.email) e ((is_publisher_iff publishers j.email).0 p)),
      λ (e, l). rw p (ap (λ k. allowed k (list_publishers before listed)) e),
    )
    | inr p ↦ (
      λ h. absurd (refused-ne-allowed (rw p at h)),
      λ (e, l).
          let l' = subst (λ k. Listed publishers k.email) (sym e) l in
          absurd (false-ne-true (sym p ∙ (is_publisher_iff publishers j.email).1 l')),
    )
  ]

  -- On a deployed instance, where the checks apply, the admin pages are shown to exactly the
  -- identities that the request resolves to and whose address is in the table of publishers, in some
  -- case of its letters; an empty table admits nobody.
  pub require_publisher_iff :
      (env : GuardEnv) (is_vm : Bool) (dev_email : Option Text) (headers : Headers)
      → checks_apply env ≡ true
      → (require_publisher before env is_vm dev_email (some publishers) (some listed) headers
          ≡ allowed i (list_publishers before listed))
        ↔ ((resolve_identity is_vm dev_email headers ≡ some i) × Listed publishers i.email)
  unfolding require_publisher
  require_publisher_iff env is_vm dev_email headers on =
      elim (Option-cases (resolve_identity is_vm dev_email headers)) [
        | inl e ↦ (
          λ h. absurd (refused-ne-allowed (rw (e, require_publisher) at h)),
          λ (k, l). absurd (none-ne-some (sym e ∙ k)),
        )
        | inr (j, e) ↦
            let (f, g) = gate_iff j in
            (
              λ h. let (k, l) = f (rw (e, require_publisher, on) at h) in (e ∙ ap some k, l),
              λ (k, l). rw (e, require_publisher, on) (g (some_inj (sym e ∙ k), l)),
            )
      ]

check_rows_ok :
    (rows : List (Option ℕ)) (r : StartCheckResult)
    → check_rows rows ≡ ok r
    → (n : ℕ) × (rest : List (Option ℕ)) × (rows ≡ some (suc n) ∷ rest)
unfolding check_rows
check_rows_ok [] r h = absurd (err-ne-ok h)
check_rows_ok (none ∷ rows) r h = absurd (err-ne-ok h)
check_rows_ok (some zero ∷ rows) r h = absurd (err-ne-ok h)
check_rows_ok (some (suc n) ∷ rows) r h = (n, rows, refl)

includes-In : (xs : List Text) (t : Text) → includes xs t ≡ true → In t xs
unfolding includes
includes-In [] t h = cc
includes-In (x ∷ xs) t h = elim (Bool-cases (text_eq x t)) [
  | inl e ↦ inl (sym ((text_eq_iff x t).0 e))
  | inr e ↦ inr (includes-In xs t (rw e at h))
]

ok_inj : {A : Type 0} {a b : A} → ◌≡◌ {A = Result StartError A} (ok a) (ok b) → a ≡ b
ok_inj h = cc

insecure :
    (env : Text → Option Text)
    → (guard_env_from_process env).allow_insecure_dev ≡ some (codes "1")
    → env (codes "ANNOUNCE_ALLOW_INSECURE_DEV") ≡ some (codes "1")
unfolding guard_env_from_process
insecure env h = h

-- The query answered with a publisher or more, or the database could not be reached.
abbrev pub Staffed : Race → Type 0
Staffed race =
    ((n : ℕ) × (rest : List (Option ℕ)) × (race ≡ answers (some (suc n) ∷ rest)))
    ⊎ ((race ≡ budget) ⊎ ((code : Text) × (race ≡ fails (some code)) × In code unreachable_codes))

check_race-Staffed : (race : Race) (r : StartCheckResult) → check_race race ≡ ok r → Staffed race
unfolding check_race
check_race-Staffed (answers rows) r h =
    let (n, rest, e) = check_rows_ok rows r h in inl (n, rest, ap answers e)
check_race-Staffed budget r h = inr (inl refl)
check_race-Staffed (fails none) r h = absurd (err-ne-ok h)
check_race-Staffed (fails (some code)) r h = elim (Bool-cases (includes unreachable_codes code)) [
  | inl u ↦ inr (inr (code, refl, includes-In unreachable_codes code u))
  | inr u ↦ absurd (err-ne-ok (rw u at h))
]

started :
    (problems : List Problem) (m : Result StartError StartCheckResult) (r : StartCheckResult)
    → (refuse_on problems >> (m >>= λ s. ok (some s))) ≡ ok (some r)
    → (problems ≡ []) × (m ≡ ok r)
started [] (ok s) r h = (refl, cc)
started [] (err e) r h = absurd (err-ne-ok h)
started (p ∷ problems) m r h = absurd (err-ne-ok h)

-- A server that starts with its checks on has a safe configuration, and its table of publishers had
-- a row, unless the database could not be reached in time.
pub register-Safe :
    (env : Text → Option Text) (race : Race) (r : StartCheckResult)
    → register env race ≡ ok (some r)
    → (env (codes "ANNOUNCE_ALLOW_INSECURE_DEV") ≡ some (codes "1"))
      ⊎ (IsSafe (guard_env_from_process env) × Staffed race)
unfolding register assert_publishers_configured
register-Safe env race r h =
    elim (Bool-cases (is_text (codes "nodejs") (env (codes "NEXT_RUNTIME")))) [
      | inr off ↦ absurd (none-ne-some (ok_inj (rw off at h)))
      | inl on ↦
          let (clean, asserted) = started _ _ r (rw on at h) in
          elim ((check_environment_iff (guard_env_from_process env)).0 clean) [
            | inl dev ↦ inl (insecure env dev)
            | inr safe ↦ elim (Bool-cases (checks_apply (guard_env_from_process env))) [
              | inr skipped ↦
                  inl
                    (insecure env ((insecure_iff (guard_env_from_process env)).0 (rw skipped refl)))
              | inl applied ↦ inr (
                safe,
                check_race-Staffed race r (rw (applied, assert_publishers_configured) at asserted),
              )
            ]
          ]
    ]

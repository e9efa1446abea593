-- ===== src/Signin/Forwarded.antt =====
-- middleware.ts with resolveIdentity: whom a page takes a request to come from.
use announcement_tool.Common.{
  ◌≡◌, ◌∙◌, ℕ, inl, inr, false, Option, none, some, Text, codes, is_blank, trim, to_lower_case,
  if◌then◌else◌, Bool-cases, Option-cases, is_blank-trim_again, is_blank-trim_lower,
}
use announcement_tool.Identity.{Identity, auth0, given, normal, of_dev}
use announcement_tool.Signin.{
  Json, text, boolean, other, Claims, Jose, trimmed_text, email_from_claims, is_true,
  email_verified_claim, email_claim, auth0_config_from_env, verify_auth0_token, verify_session,
  subject_claim,
}
use announcement_tool.Signin.Middleware.{
  Request, bearer_token, session_cookie, bearer_identity, session_identity, signed_in,
  is_admin_path,
}

-- Something is left of the text when it is trimmed.
abbrev Filled : Option Text → Type 0
Filled none = Unit {0}
Filled (some s) = is_blank (trim s) ≡ false

trimmed_text-Filled : (j : Option Json) → Filled (trimmed_text j)
trimmed_text-Filled none = tt
trimmed_text-Filled (some (boolean b)) = tt
trimmed_text-Filled (some other) = tt
trimmed_text-Filled (some (text s)) = elim (Bool-cases (is_blank (trim s))) [
  | inl b ↦ rw b tt
  | inr b ↦ rw b (is_blank-trim_again s ∙ b)
]

lowered-Filled :
    (o : Option Text) → Filled o → Filled (elim o [ none ↦ none | some s ↦ some (to_lower_case s) ])
lowered-Filled none f = tt
lowered-Filled (some s) f = is_blank-trim_lower s ∙ f

email_from_claims-Filled : (p : Claims) → Filled (email_from_claims p)
unfolding email_from_claims
email_from_claims-Filled p = elim (Bool-cases (is_true (p email_verified_claim))) [
  | inl h ↦
      rw h (lowered-Filled (trimmed_text (p email_claim)) (trimmed_text-Filled (p email_claim)))
  | inr h ↦ rw h tt
]

module _ (jose : Jose) (now : ℕ) (env : Text → Option Text) where
  bearer_identity-Filled : (r : Request) → Filled (bearer_identity jose now env r)
  unfolding bearer_identity verify_auth0_token
  bearer_identity-Filled r =
      elim (Option-cases (bearer_token (r.headers (codes "authorization")))) [
        | inl e ↦ rw (e, bearer_identity) tt
        | inr (token, e) ↦ elim (Option-cases (auth0_config_from_env env)) [
          | inl k ↦ rw (e, bearer_identity, k) tt
          | inr (config, k) ↦ elim (Option-cases (jose.verify_rs256 now config token)) [
            | inl v ↦ rw (e, bearer_identity, k, v) tt
            | inr (p, v) ↦ rw (e, bearer_identity, k, v) (email_from_claims-Filled p)
          ]
        ]
      ]

  verify_session-Filled : (value secret : Text) → Filled (verify_session jose now value secret)
  unfolding verify_session
  verify_session-Filled value secret = elim (Option-cases (jose.verify_hs256 now value secret)) [
    | inl v ↦ rw (v, verify_session) tt
    | inr (p, v) ↦ rw (v, verify_session) (trimmed_text-Filled (p subject_claim))
  ]

  session_identity-Filled : (r : Request) → Filled (session_identity jose now env r)
  unfolding session_identity
  session_identity-Filled r = elim (Option-cases (given (env (codes "SESSION_SECRET")))) [
    | inl e ↦ rw (e, session_identity) tt
    | inr (secret, e) ↦ elim (Option-cases (given (r.cookies session_cookie))) [
      | inl k ↦ rw (e, session_identity, k) tt
      | inr (value, k) ↦ rw (e, session_identity, k) (verify_session-Filled value secret)
    ]
  ]

  pub signed_in-Filled : (r : Request) → Filled (signed_in jose now env r)
  unfolding signed_in
  signed_in-Filled r = elim (Option-cases (bearer_identity jose now env r)) [
    | inl e ↦ rw (e, signed_in) (session_identity-Filled r)
    | inr (email, e) ↦
        let f : Filled (some email) = rw e at (bearer_identity-Filled r) in rw (e, signed_in) f
  ]

-- The identity that is signed in on an admin path.
abbrev pub signed : Text → Identity
signed email = record { email = normal email; name = none; source = auth0 }

-- Whom a request comes from: on an admin path, whoever the bearer token or, where there is none, the
-- session cookie proves; else, and on every other path, the developer, if one is configured.
abbrev pub proven : Jose → ℕ → (Text → Option Text) → Option Text → Request → Option Identity
proven jose now env dev_email r =
    if is_admin_path r.pathname
    then elim (signed_in jose now env r) [
      | none ↦ of_dev dev_email
      | some email ↦ some (signed email)
    ]
    else of_dev dev_email

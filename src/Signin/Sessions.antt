-- ===== src/Signin/Sessions.antt =====
-- signSession and verifySession: what the cookie of a login proves, and for how long.
use announcement_tool.Common.{
  ◌≡◌, ◌≢◌, refl, ℕ, ◌+◌, ◌/◌, ◌≤◌, ◌<◌, [], ◌∷◌, none, some, Text, is_blank, trim, ok, err,
  throw_if, false,
}
use announcement_tool.Signin.{Jose, SessionClaims, blank_email, sign_session, verify_session}

-- What a page reads from the cookie at the time `later`, while it lasts and after.
abbrev pub Lasts : Jose → Text → Text → ℕ → Text → Type 0
Lasts jose secret value until email =
    ((later : ℕ) → later < until → verify_session jose later value secret ≡ some (trim email))
    × ((later : ℕ) → until ≤ later → verify_session jose later value secret ≡ none)

module _ (jose : Jose) (now_ms ttl_seconds : ℕ) (email secret : Text) where
  abbrev claims : SessionClaims
  claims = record {
    subject = email;
    issued_at = now_ms / 1000;
    expires_at = now_ms / 1000 + ttl_seconds;
  }

  lasts :
      is_blank (trim email) ≡ false
      → secret ≢ []
      → Lasts jose secret (jose.sign claims secret) (now_ms / 1000 + ttl_seconds) email
  unfolding verify_session
  lasts filled given = (
    λ later h.
        let (p, e, s) = jose.verify-sign later claims secret given h in
        rw (e, verify_session, s, filled) refl,
    λ later h. rw (jose.verify_expired later claims secret h, verify_session) refl,
  )

  -- A login with an address that is not blank is given a cookie; until the cookie's time is over it
  -- proves that address, trimmed, and from then on nothing. For a blank address none is signed.
  pub sign_session-Lasts :
      secret ≢ []
      → ((trim email ≡ []) → sign_session jose now_ms email secret ttl_seconds ≡ err blank_email)
        × ((trim email ≢ [])
            → (value : Text) × (sign_session jose now_ms email secret ttl_seconds ≡ ok value)
              × Lasts jose secret value (now_ms / 1000 + ttl_seconds) email)
  unfolding sign_session throw_if
  sign_session-Lasts given = (
    λ e. rw e refl,
    λ n. let f = filled (trim email) n in (jose.sign claims secret, rw f refl, lasts f given),
  )
    where
      filled : (s : Text) → s ≢ [] → is_blank s ≡ false
      filled [] n = absurd (n refl)
      filled (c ∷ s) n = refl

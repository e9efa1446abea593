-- ===== src/Signin.antt =====
-- src/core/auth0-claims.ts, src/core/auth0-verify.ts and src/core/session.ts: what a token or a
-- cookie proves. The library that signs and verifies tokens is the parameter `Jose`; a payload is a
-- function of the names of its claims. Seconds since the epoch are numbers.
pub mod Middleware
pub mod Sessions
pub mod Forwarded
use announcement_tool.Common.{
  ℕ, ◌+◌, ◌*◌, ◌/◌, ◌≤◌, ◌<◌, ◌≡◌, ◌≢◌, Bool, true, false, [], ◌∷◌, ◌++◌, Option, none, some, Text,
  codes, is_blank, trim, to_lower_case, if◌then◌else◌, Result, ok, err, ◌>>◌, throw_if, ends_with,
}
use announcement_tool.Guard.{or_else, issuer_of}

-- The values of claims that are told apart.
pub data Json : Type 0 where
  text : Text → Json
  boolean : Bool → Json
  other : Json

abbrev pub Claims : Type 0
Claims = Text → Option Json

-- new SignJWT({ sub }) with iat and exp
pub record SessionClaims : Type 0 where
  pub subject : Text
  pub issued_at : ℕ
  pub expires_at : ℕ

pub record Auth0Config : Type 0 where
  pub issuer : Text
  pub audience : Text

-- What the library documents: a token that was signed with a key verifies with it until it expires,
-- and its payload has the subject that was signed.
pub record Jose : Type 0 where
  pub sign : SessionClaims → Text → Text
  pub verify_hs256 : ℕ → Text → Text → Option Claims
  pub verify_rs256 : ℕ → Auth0Config → Text → Option Claims
  pub verify-sign :
      (now : ℕ) (c : SessionClaims) (key : Text)
      → key ≢ []
      → now < c.expires_at
      → (p : Claims) × (verify_hs256 now (sign c key) key ≡ some p)
        × (p (codes "sub") ≡ some (text c.subject))
  pub verify_expired :
      (now : ℕ) (c : SessionClaims) (key : Text)
      → c.expires_at ≤ now
      → verify_hs256 now (sign c key) key ≡ none

abbrev pub email_verified_claim : Text
email_verified_claim = codes "email_verified"

abbrev pub email_claim : Text
email_claim = codes "email"

abbrev pub subject_claim : Text
subject_claim = codes "sub"

-- payload[EMAIL_VERIFIED_CLAIM] === true
abbrev pub is_true : Option Json → Bool
is_true (some (boolean b)) = b
is_true _ = false

-- typeof claim === 'string' and not blank once trimmed
abbrev pub trimmed_text : Option Json → Option Text
trimmed_text (some (text s)) = if is_blank (trim s) then none else some (trim s)
trimmed_text _ = none

unfoldable pub email_from_claims : Claims → Option Text
email_from_claims payload =
    if is_true (payload email_verified_claim)
    then elim (trimmed_text (payload email_claim)) [ none ↦ none | some s ↦ some (to_lower_case s) ]
    else none

unfoldable pub normalize_issuer : Text → Text
normalize_issuer raw = if ends_with (codes "/") raw then raw else raw ++ b'/' ∷ []

abbrev pub config_of : Option Text → Option Text → Option Auth0Config
config_of none audience = none
config_of (some i) none = none
config_of (some i) (some a) =
    if is_blank i
    then none
    else if is_blank a
    then none
    else some (record { issuer = normalize_issuer i; audience = a })

unfoldable pub auth0_config_from_env : (Text → Option Text) → Option Auth0Config
auth0_config_from_env env =
    config_of (or_else (env (codes "AUTH0_ISSUER")) (issuer_of (env (codes "AUTH0_DOMAIN"))))
      (or_else (env (codes "AUTH0_AUDIENCE")) (env (codes "AUTH0_CLIENT_ID")))

-- 12 * 60 * 60
abbrev pub default_ttl_seconds : ℕ
default_ttl_seconds = 43_200

pub data SessionError : Type 0 where
  blank_email : SessionError

module _ (jose : Jose) where
  -- try { jwtVerify(…) } catch { return undefined; }: a rejection is `none` already.
  unfoldable pub verify_auth0_token : ℕ → Text → Auth0Config → Option Claims
  verify_auth0_token now token config = jose.verify_rs256 now config token

  -- `now_ms` is Date.now().
  unfoldable pub sign_session : ℕ → Text → Text → ℕ → Result SessionError Text
  sign_session now_ms email secret ttl_seconds = do
    throw_if (is_blank (trim email)) blank_email
    let now = now_ms / 1000
    let claims : SessionClaims = record {
      subject = email;
      issued_at = now;
      expires_at = now + ttl_seconds;
    }
    ok (jose.sign claims secret)

  unfoldable pub verify_session : ℕ → Text → Text → Option Text
  verify_session now value secret = elim (jose.verify_hs256 now value secret) [
    | none ↦ none
    | some payload ↦ trimmed_text (payload subject_claim)
  ]

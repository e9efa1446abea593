-- ===== src/Tests/Signing.antt =====
-- The theorems on sessions and on the middleware, with a library of tokens that are not secret: a
-- token is the time at which it expires, a dot, and the subject.
use announcement_tool.Common.{
  ℕ, ◌≤◌, ◌<◌, ◌≡◌, ◌≢◌, refl, ◌∙◌, true, false, List, [], ◌∷◌, ◌++◌, Option, none, some, Text,
  codes, text_eq, trim, All, arith, leb, ◌==◌, if◌then◌else◌, cut, cut_first, decimal, number,
  number-decimal, decimal_no_dot, le→leb, ok, err,
}
use announcement_tool.Identity.{Headers, auth0_identity_header, tailscale_login, given}
use announcement_tool.Signin.Sessions.{Lasts, sign_session-Lasts}
use announcement_tool.Signin.Middleware.{
  Request, session_identity, bearer_identity, signed_in, bearer_token, is_admin_path,
}
use announcement_tool.Signin.Forwarded.{proven, signed}
use announcement_tool.Admin.{Site, confirm_of}
use announcement_tool.Admin.Authorized.{Visit}
use announcement_tool.Tests.Scenario.{channels, noon, ann_text}
use announcement_tool.Signin.{
  text, Claims, SessionClaims, Jose, subject_claim, sign_session, verify_session, blank_email,
}

abbrev token : SessionClaims → Text → Text
token c key = decimal c.expires_at ++ (b'.' ∷ [] ++ c.subject)

abbrev payload_of : Text → Claims
payload_of subject name = if text_eq name subject_claim then some (text subject) else none

unfoldable pub read_token : ℕ → Text → Text → Option Claims
read_token now value key = elim (cut (b'.' ∷ []) value) [
  | none ↦ none
  | some k ↦ if leb (number k.before) now then none else some (payload_of k.after)
]

no_dot : (s : Text) → All (λ c. (c == b'.') ≡ false) s → All (λ c. (b'.' == c) ≡ false) s
no_dot [] a = tt
no_dot (c ∷ s) a = (ground arith, no_dot s a.1)

read_parts :
    (now : ℕ) (c : SessionClaims) (key : Text)
    → read_token now (token c key) key
      ≡ (if leb c.expires_at now then none else some (payload_of c.subject))
unfolding read_token
read_parts now c key =
    rw
      (
        cut_first b'.' [] (decimal c.expires_at) c.subject (no_dot _ (decimal_no_dot c.expires_at)),
        read_token,
        number-decimal c.expires_at,
      )
      refl

reads_subject : (subject : Text) → payload_of subject subject_claim ≡ some (text subject)
unfolding text_eq
reads_subject subject = refl

token_verifies :
    (now : ℕ) (c : SessionClaims) (key : Text)
    → key ≢ []
    → now < c.expires_at
    → (p : Claims) × (read_token now (token c key) key ≡ some p)
      × (p subject_claim ≡ some (text c.subject))
token_verifies now c key given h =
    let late : leb c.expires_at now ≡ false = ground arith in
    (payload_of c.subject, read_parts now c key ∙ rw late refl, reads_subject c.subject)

token_expires :
    (now : ℕ) (c : SessionClaims) (key : Text)
    → c.expires_at ≤ now
    → read_token now (token c key) key ≡ none
token_expires now c key h = read_parts now c key ∙ rw (le→leb c.expires_at now h) refl

abbrev open_tokens : Jose
open_tokens = record {
  sign = token;
  verify_hs256 = read_token;
  verify_rs256 = λ now config value. none;
  verify-sign = token_verifies;
  verify_expired = token_expires;
}

abbrev address : Text
address = codes "bob@example.org"

abbrev key : Text
key = codes "a secret of more than thirty-two units"

key-ne-nil : key ≢ []
key-ne-nil h = cc

sign_session-Lasts_example :
    ((trim address ≡ []) → sign_session open_tokens 5_000 address key 60 ≡ err blank_email)
    × ((trim address ≢ [])
        → (value : Text) × (sign_session open_tokens 5_000 address key 60 ≡ ok value)
          × Lasts open_tokens key value 65 address)
sign_session-Lasts_example = sign_session-Lasts open_tokens 5_000 60 address key key-ne-nil

-- A client that writes the headers of identities itself, and has the cookie of a login.
abbrev forged : Headers
forged name =
    if text_eq name auth0_identity_header
    then some (codes "eve@example.org")
    else if text_eq name tailscale_login
    then some (codes "eve@example.org")
    else none

abbrev cookie : SessionClaims
cookie = record { subject = address; issued_at = 5; expires_at = 65 }

abbrev review_page : Request
review_page = record {
  headers = forged;
  pathname = codes "/admin/review/ann-1";
  cookies = λ name. some (token cookie key);
}

abbrev env : Text → Option Text
env name = if text_eq name (codes "SESSION_SECRET") then some key else none

-- The page knows the owner of the cookie, not the name in the headers.
owner_known : proven open_tokens 10 env none review_page ≡ some (signed address)
unfolding trim signed_in bearer_identity bearer_token session_identity verify_session read_token cut
    text_eq is_admin_path decimal number
owner_known = refl

abbrev site : Site
site = record {
  is_vm = false;
  dev_email = none;
  checks_apply = true;
  publishers = address ∷ [];
  enabled = channels;
  accepts = λ _. true;
}

abbrev visits : List Visit
visits =
    record {
      now = 10;
      nonce = codes "nonce";
      request = review_page;
      action = confirm_of noon ann_text;
    }
    ∷ []

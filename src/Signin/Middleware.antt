-- ===== src/Signin/Middleware.antt =====
-- middleware.ts and src/web/csp.ts: which headers a request is forwarded with. A header is looked up
-- in any case of its letters; the environment is a function, and the nonce is drawn at random.
use announcement_tool.Common.{
  ℕ, Bool, ◌||◌, not, ◌++◌, Option, none, some, Text, codes, text_eq, is_blank, trim, to_lower_case,
  some_of, if◌then◌else◌, ◌==◌, starts_with, without,
}
use announcement_tool.Guard.{is_text}
use announcement_tool.Identity.{
  Headers, given, auth0_identity_header, tailscale_login, tailscale_name,
}
use announcement_tool.Signin.{
  Jose, verify_auth0_token, verify_session, email_from_claims, auth0_config_from_env,
}

unfoldable pub same_name : Text → Text → Bool
same_name a b = text_eq (to_lower_case a) (to_lower_case b)

-- headers.delete(name) and headers.set(name, value)
unfoldable pub delete_header : Text → Headers → Headers
unfolding same_name
delete_header name headers n = if same_name name n then none else headers n

unfoldable pub set_header : Text → Text → Headers → Headers
unfolding same_name
set_header name value headers n = if same_name name n then some value else headers n

unfoldable pub build_csp : Text → Text
build_csp nonce =
    codes "default-src 'self'; script-src 'self' 'nonce-"
    ++ (nonce
        ++ (codes "' 'strict-dynamic'; style-src 'self' 'unsafe-inline'; img-src 'self' data:; "
            ++ (codes "font-src 'self'; connect-src 'self'; object-src 'none'; base-uri 'self'; "
                ++ (codes "form-action 'self'; frame-ancestors 'none'; upgrade-insecure-requests; "
                    ++ codes "report-uri /api/csp-report"))))

abbrev pub csp_header : Text
csp_header = codes "Content-Security-Policy"

unfoldable pub csp_header_name : Option Text → Text
csp_header_name mode =
    if is_text (codes "enforce") mode then csp_header else csp_header ++ codes "-Report-Only"

pub record Request : Type 0 where
  pub headers : Headers
  pub pathname : Text
  pub cookies : Text → Option Text

-- What NextResponse.next forwards, and the header that it sets on the response.
pub record Response : Type 0 where
  pub forwarded : Headers
  pub csp_name : Text
  pub csp : Text

-- The units that `.` does not match.
abbrev pub ends_line : ℕ → Bool
ends_line c = (c == 10) || (c == 13) || (c == 0x2028) || (c == 0x2029)

-- /^Bearer (.+)$/i.exec(authorization.trim()), and its group trimmed
unfoldable pub bearer_token : Option Text → Option Text
bearer_token none = none
bearer_token (some authorization) =
    let s = trim authorization in
    let group = without (codes "bearer ") s in
    if is_blank authorization
    then none
    else if not (starts_with (codes "bearer ") (to_lower_case s))
    then none
    else if is_blank group || some_of ends_line group
    then none
    else given (some (trim group))

abbrev pub session_cookie : Text
session_cookie = codes "announce_session"

-- pathname === '/admin' || pathname.startsWith('/admin/')
unfoldable pub is_admin_path : Text → Bool
is_admin_path path = text_eq path (codes "/admin") || starts_with (codes "/admin/") path

unfoldable pub strip : Headers → Headers
unfolding delete_header
strip headers =
    delete_header tailscale_name
      (delete_header tailscale_login (delete_header auth0_identity_header headers))

-- The headers after the strip, with the nonce and the policy.
unfoldable pub with_csp : Text → Request → Headers
unfolding strip set_header
with_csp nonce request =
    set_header csp_header (build_csp nonce)
      (set_header (codes "x-nonce") nonce (strip request.headers))

abbrev pub respond : (Text → Option Text) → Text → Headers → Response
respond env nonce headers = record {
  forwarded = headers;
  csp_name = csp_header_name (env (codes "CSP_MODE"));
  csp = build_csp nonce;
}

module _ (jose : Jose) (now : ℕ) (env : Text → Option Text) where
  unfoldable pub bearer_identity : Request → Option Text
  unfolding bearer_token
  bearer_identity request = elim (bearer_token (request.headers (codes "authorization"))) [
    | none ↦ none
    | some token ↦ elim (auth0_config_from_env env) [
      | none ↦ none
      | some config ↦ elim (verify_auth0_token jose now token config) [
        | none ↦ none
        | some payload ↦ email_from_claims payload
      ]
    ]
  ]

  unfoldable pub session_identity : Request → Option Text
  session_identity request = elim (given (env (codes "SESSION_SECRET"))) [
    | none ↦ none
    | some secret ↦ elim (given (request.cookies session_cookie)) [
      | none ↦ none
      | some value ↦ verify_session jose now value secret
    ]
  ]

  -- (await bearerIdentity(request)) ?? (await sessionIdentity(request))
  unfoldable pub signed_in : Request → Option Text
  signed_in request = elim (bearer_identity request) [
    | some email ↦ some email
    | none ↦ session_identity request
  ]

  unfoldable pub middleware : Text → Request → Response
  unfolding with_csp signed_in
  middleware nonce request =
      if not (is_admin_path request.pathname)
      then respond env nonce (with_csp nonce request)
      else elim (given (signed_in request)) [
        | none ↦ respond env nonce (with_csp nonce request)
        | some email ↦
            respond env nonce (set_header auth0_identity_header email (with_csp nonce request))
      ]

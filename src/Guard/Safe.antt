-- ===== src/Guard/Safe.antt =====
-- checkEnvironment: that it finds no problem exactly in the configurations that are safe.
use announcement_tool.Common.{
  ◌≡◌, refl, sym, ◌∙◌, ◌↔◌, false-ne-true, ◌⊎◌, inl, inr, ◌≤◌, true, false, not, [], ◌++◌, Option,
  none, some, Text, codes, length, arith, Bool-cases, or-eq-false,
}
use announcement_tool.Types.{channel_has_eq}
use announcement_tool.Guard.{
  GuardEnv, is_text, push_if, checks_apply, check_netlify, check_target, check_environment,
}
use announcement_tool.Guard.Checks.{
  Given, WithoutSignal, cons-ne-nil, append-eq-nil, push_if_nil, is_text_iff, not_missing_iff,
  missing_iff, hostname_iff, secret_iff, base_url_iff, channels_iff,
}

pub record SafeVm (env : GuardEnv) : Type 0 where
  pub target : env.deploy_target ≡ some (codes "vm")
  pub bound : (env.hostname ≡ some (codes "127.0.0.1")) ⊎ (env.hostname ≡ some (codes "::1"))

pub record SafeNetlify (env : GuardEnv) : Type 0 where
  pub target : env.deploy_target ≡ some (codes "netlify")
  pub issuer : Given env.auth0_issuer
  pub audience : Given env.auth0_audience
  pub secret : (s : Text) × (env.session_secret ≡ some s) × (32 ≤ length s)
  pub client_secret : Given env.auth0_client_secret
  pub ssl_mode : env.database_ssl_mode ≡ some (codes "verify-full")
  pub channels : WithoutSignal env.enabled_channels

pub record IsSafe (env : GuardEnv) : Type 0 where
  pub no_admin_email : (env.admin_email ≡ none) ⊎ (env.admin_email ≡ some [])
  pub shape : SafeVm env ⊎ SafeNetlify env
  pub secure_links : (host : Text) × (env.public_base_url ≡ some (codes "https://" ++ host))

not_true_iff : (t : Text) (o : Option Text) → (not (is_text t o) ≡ false) ↔ (o ≡ some t)
not_true_iff t o = ground (arith, is_text_iff t o)

netlify_iff :
    (env : GuardEnv)
    → env.deploy_target ≡ some (codes "netlify")
    → (check_netlify env ≡ []) ↔ SafeNetlify env
unfolding check_netlify
netlify_iff env target = (
  λ h.
      let (auth, h1) = (append-eq-nil (push_if _ _) _).0 h in
      let (secret, h2) = (append-eq-nil (push_if _ _) _).0 h1 in
      let (client, h3) = (append-eq-nil (push_if _ _) _).0 h2 in
      let (ssl, chans) = (append-eq-nil (push_if _ _) _).0 h3 in
      let (issuer, audience) = or-eq-false _ _ ((push_if_nil _ _).0 auth) in
      record {
        target = target;
        issuer = (not_missing_iff env.auth0_issuer).0 issuer;
        audience = (not_missing_iff env.auth0_audience).0 audience;
        secret = (secret_iff env.session_secret).0 ((push_if_nil _ _).0 secret);
        client_secret = (not_missing_iff env.auth0_client_secret).0 ((push_if_nil _ _).0 client);
        ssl_mode = (not_true_iff _ env.database_ssl_mode).0 ((push_if_nil _ _).0 ssl);
        channels = (channels_iff env.enabled_channels).0 chans;
      },
  λ s.
      rw
        (
          (not_missing_iff env.auth0_issuer).1 s.issuer,
          (not_missing_iff env.auth0_audience).1 s.audience,
          (secret_iff env.session_secret).1 s.secret,
          (not_missing_iff env.auth0_client_secret).1 s.client_secret,
          (not_true_iff _ env.database_ssl_mode).1 s.ssl_mode,
          (channels_iff env.enabled_channels).1 s.channels,
        )
        refl,
)

two_shapes : some (codes "vm") ≡ some (codes "netlify") → ⊥
two_shapes h = cc

target_iff : (env : GuardEnv) → (check_target env ≡ []) ↔ (SafeVm env ⊎ SafeNetlify env)
unfolding check_target
target_iff env = elim (Bool-cases (is_text (codes "vm") env.deploy_target)) [
  | inl v ↦
      let vm = (is_text_iff (codes "vm") env.deploy_target).0 v in
      (
        λ h. inl (record { target = vm; bound = (hostname_iff env.hostname).0 (rw v at h) }),
        λ s. elim s [
          | inl m ↦ rw v ((hostname_iff env.hostname).1 m.bound)
          | inr m ↦ absurd (two_shapes (sym vm ∙ m.target))
        ],
      )
  | inr v ↦
      let not_vm : SafeVm env → ⊥ =
        λ m. false-ne-true (sym v ∙ (is_text_iff (codes "vm") env.deploy_target).1 m.target) in
      elim (Bool-cases (is_text (codes "netlify") env.deploy_target)) [
        | inl n ↦
            let netlify = (is_text_iff (codes "netlify") env.deploy_target).0 n in
            (
              λ h. inr ((netlify_iff env netlify).0 (rw (v, n) at h)),
              λ s. elim s [
                | inl m ↦ absurd (not_vm m)
                | inr m ↦ rw (v, n) ((netlify_iff env netlify).1 m)
              ],
            )
        | inr n ↦ (
          λ h. absurd (cons-ne-nil (rw (v, n) at h)),
          λ s. elim s [
            | inl m ↦ absurd (not_vm m)
            | inr m ↦ absurd (
                false-ne-true
                  (sym n ∙ (is_text_iff (codes "netlify") env.deploy_target).1 m.target))
          ],
        )
      ]
]

pub insecure_iff :
    (env : GuardEnv) → (not (checks_apply env) ≡ true) ↔ (env.allow_insecure_dev ≡ some (codes "1"))
unfolding checks_apply
insecure_iff env = ground (arith, is_text_iff (codes "1") env.allow_insecure_dev)

-- The guard finds no problem exactly where the checks are switched off by the one variable that
-- does it, or where the configuration is safe: no developer identity, links over https, and either
-- a VM that listens on loopback only, or a Netlify deployment with an Auth0 issuer, audience and
-- client secret, a session secret of 32 units at least, a verified database connection and known
-- channels without Signal.
pub check_environment_iff :
    (env : GuardEnv)
    → (check_environment env ≡ []) ↔ ((env.allow_insecure_dev ≡ some (codes "1")) ⊎ IsSafe env)
unfolding check_environment
check_environment_iff env = elim (Bool-cases (not (checks_apply env))) [
  | inl off ↦ (λ h. inl ((insecure_iff env).0 off), λ s. rw off refl)
  | inr on ↦ (
    λ h.
        let (admin, h1) = (append-eq-nil (push_if _ _) _).0 (rw on at h) in
        let (shape, links) = (append-eq-nil (check_target env) _).0 h1 in
        inr (record {
          no_admin_email = (missing_iff env.admin_email).0 ((push_if_nil _ _).0 admin);
          shape = (target_iff env).0 shape;
          secure_links = (base_url_iff env.public_base_url).0 links;
        }),
    λ s. elim s [
      | inl e ↦ absurd (false-ne-true (sym on ∙ (insecure_iff env).1 e))
      | inr m ↦
          rw
            (
              on,
              (missing_iff env.admin_email).1 m.no_admin_email,
              (target_iff env).1 m.shape,
              (base_url_iff env.public_base_url).1 m.secure_links,
            )
            refl
    ],
  )
]

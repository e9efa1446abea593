-- ===== src/Database/Tls.antt =====
-- buildConnectionOptions: what is known of a configuration that is accepted.
use announcement_tool.Common.{
  ◌≡◌, ◌≢◌, refl, sym, ap, subst, some_inj, none-ne-some, ◌∙◌, ◌⊎◌, inl, inr, Bool, ℕ, true, false,
  [], ◌∷◌, ◌++◌, Option, none, some, Text, codes, text_eq, text_eq_iff, to_lower_case, ok, throw_if,
  Contains, has_text_iff, Bool-cases, or-eq-false, Option-cases, false-ne-true, Fulfils,
  Fulfils-bind, Fulfils-throw_if, Fulfils-ok,
}
use announcement_tool.Database.{
  DbEnv, Ssl, ConnectionOptions, DbError, ssl_mode_name, root_cert_name, Query, has, text_sets,
  target_url, root_options, ssl_options, check_url, build_connection_options,
}

-- The text has the parameter after a `?` or an `&`, in some case of its letters.
abbrev pub Sets : Text → Text → Type 0
Sets name url =
    Contains (b'?' ∷ (name ++ b'=' ∷ [])) (to_lower_case url)
    ⊎ Contains (b'&' ∷ (name ++ b'=' ∷ [])) (to_lower_case url)

-- Neither the text of the URL nor its parsed query sets the parameter.
abbrev pub Unset : (Text → Option Query) → Text → Text → Type 0
Unset parse name url =
    (Sets name url → ⊥) × ((query : Query) → parse url ≡ some query → query name ≡ none)

-- No TLS where the mode is not given, else a verified certificate chain from the given root.
abbrev pub Verified : Option Text → Option Text → Option Ssl → Type 0
Verified mode root_cert ssl =
    (((mode ≡ none) ⊎ (mode ≡ some [])) × (ssl ≡ none))
    ⊎ ((mode ≡ some (codes "verify-full"))
        × ((cert : Text) × (root_cert ≡ some cert)
            × (cert ≢ [])
            × (ssl ≡ some (record { ca = cert; reject_unauthorized = true }))))

cons-ne-nil : {c : ℕ} {s : Text} → c ∷ s ≡ [] → ⊥
cons-ne-nil h = cc

text_sets_none : (name url : Text) → text_sets name url ≡ false → Sets name url → ⊥
unfolding text_sets
text_sets_none name url h s =
    let (question, ampersand) = or-eq-false _ _ h in
    elim s [
      | inl c ↦ absurd (
          false-ne-true
            (sym question ∙ (has_text_iff (b'?' ∷ (name ++ b'=' ∷ [])) (to_lower_case url)).1 c))
      | inr c ↦ absurd (
          false-ne-true
            (sym ampersand ∙ (has_text_iff (b'&' ∷ (name ++ b'=' ∷ [])) (to_lower_case url)).1 c))
    ]

has-none :
    (name : Text) (o : Option Query)
    → has name o ≡ false
    → (query : Query) → o ≡ some query
    → query name ≡ none
has-none name none h query e = absurd (none-ne-some e)
has-none name (some q) h query e =
    let n : q name ≡ none = elim (Option-cases (q name)) [
      | inl n ↦ n
      | inr (v, k) ↦ absurd (false-ne-true (sym h ∙ rw k refl))
    ] in
    subst (λ (r : Query). r name ≡ none) (some_inj e) n

root_options-Verified :
    (mode root_cert : Option Text)
    → mode ≡ some (codes "verify-full")
    → Fulfils (Verified mode root_cert) (root_options root_cert)
unfolding root_options
root_options-Verified mode none e = tt
root_options-Verified mode (some []) e = tt
root_options-Verified mode (some (c ∷ s)) e = inr (e, (c ∷ s, refl, λ n. cons-ne-nil n, refl))

ssl_options-Verified :
    (mode root_cert : Option Text) → Fulfils (Verified mode root_cert) (ssl_options mode root_cert)
unfolding ssl_options
ssl_options-Verified none root_cert = inl (inl refl, refl)
ssl_options-Verified (some []) root_cert = inl (inr refl, refl)
ssl_options-Verified (some (c ∷ s)) root_cert =
    elim (Bool-cases (text_eq (c ∷ s) (codes "require"))) [
      | inl r ↦ rw r tt
      | inr r ↦ elim (Bool-cases (text_eq (c ∷ s) (codes "verify-full"))) [
        | inl v ↦
            rw (r, v) (root_options-Verified _ root_cert (ap some ((text_eq_iff (c ∷ s) _).0 v)))
        | inr v ↦ rw (r, v) tt
      ]
    ]

Fulfils-last :
    (P : Unit {0} → Type 0) (b : Bool) (e : DbError) → (b ≡ false → P tt) → Fulfils P (throw_if b e)
unfolding throw_if
Fulfils-last P true e h = tt
Fulfils-last P false e h = h refl

check_url-Unset :
    (parse : Text → Option Query) (url : Text)
    → Fulfils
        (λ _. Unset parse ssl_mode_name url × Unset parse root_cert_name url)
        (check_url parse url)
unfolding check_url
check_url-Unset parse url =
    let P : Unit {0} → Type 0 =
      λ _. Unset parse ssl_mode_name url × Unset parse root_cert_name url in
    Fulfils-throw_if P _ _ _ (λ a. Fulfils-throw_if P _ _ _ (λ b. Fulfils-throw_if P _ _ _ (λ c.
      Fulfils-last P _ _ (λ d. (
        (text_sets_none ssl_mode_name url c, has-none ssl_mode_name (parse url) a),
        (text_sets_none root_cert_name url d, has-none root_cert_name (parse url) b),
      )))))

-- What an accepted environment was made into.
abbrev pub Accepted : (Text → Option Query) → DbEnv → ConnectionOptions → Type 0
Accepted parse env o =
    (o.url ≡ target_url env)
    × Unset parse ssl_mode_name (target_url env)
    × Unset parse root_cert_name (target_url env)
    × Verified env.ssl_mode env.ssl_root_cert o.ssl

-- A configuration is accepted only where the URL has neither the parameter `sslmode` nor
-- `sslrootcert`: not in its query, as the parser reads it, and not as its text writes it out after a
-- `?` or an `&`, in any case of the letters. Then the connection has no TLS if the mode of the
-- environment is unset or empty, or the mode is `verify-full` and the server must present a chain to
-- the given root certificate.
pub build_connection_options-Accepted :
    (parse : Text → Option Query) (env : DbEnv) (o : ConnectionOptions)
    → build_connection_options parse env ≡ ok o
    → Accepted parse env o
unfolding build_connection_options
build_connection_options-Accepted parse env o = Fulfils-ok (Accepted parse env) _ o (
    Fulfils-bind (Accepted parse env) (check_url parse (target_url env)) _ (λ u e.
      let (mode, root) =
        Fulfils-ok
          (λ _.
            Unset parse ssl_mode_name (target_url env)
            × Unset parse root_cert_name (target_url env))
          _ u (check_url-Unset parse (target_url env)) e in
      Fulfils-bind (Accepted parse env) (ssl_options env.ssl_mode env.ssl_root_cert) _ (λ ssl k. (
        refl,
        mode,
        root,
        Fulfils-ok (Verified env.ssl_mode env.ssl_root_cert) _ ssl
            (ssl_options-Verified env.ssl_mode env.ssl_root_cert) k,
      ))))

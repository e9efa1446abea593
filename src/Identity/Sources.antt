-- ===== src/Identity/Sources.antt =====
-- resolveIdentity: which headers are trusted, and in what form an identity comes.
use announcement_tool.Common.{
  ◌≡◌, refl, sym, [], ◌∷◌, ◌∙◌, inl, inr, Bool, true, false, Option, none, some, Text, is_blank,
  trim, to_lower_case, to_lower_case_idem, Bool-cases, Option-cases,
}
use announcement_tool.Identity.{
  Identity, Headers, auth0_identity_header, tailscale_login, given, normal, of_dev, without_auth0,
  resolve_identity,
}

-- The identity, if there is one, is in lowercase.
abbrev pub InLowercase : Option Identity → Type 0
InLowercase none = Unit {0}
InLowercase (some i) = to_lower_case i.email ≡ i.email

of_dev-InLowercase : (dev_email : Option Text) → InLowercase (of_dev dev_email)
of_dev-InLowercase none = tt
of_dev-InLowercase (some []) = tt
of_dev-InLowercase (some (c ∷ s)) = to_lower_case_idem (trim (c ∷ s))

without_auth0-InLowercase :
    (is_vm : Bool) (dev_email : Option Text) (headers : Headers)
    → InLowercase (without_auth0 is_vm dev_email headers)
unfolding without_auth0
without_auth0-InLowercase false dev_email headers = of_dev-InLowercase dev_email
without_auth0-InLowercase true dev_email headers =
    elim (Option-cases (given (headers tailscale_login))) [
      | inl e ↦ rw (e, without_auth0) (of_dev-InLowercase dev_email)
      | inr (user, e) ↦ rw (e, without_auth0) (to_lower_case_idem (trim user))
    ]

-- Every identity is in lowercase, whichever source it comes from, so that one person has one name
-- wherever it is compared.
pub resolve_identity-InLowercase :
    (is_vm : Bool) (dev_email : Option Text) (headers : Headers)
    → InLowercase (resolve_identity is_vm dev_email headers)
unfolding resolve_identity
resolve_identity-InLowercase is_vm dev_email headers =
    elim (Option-cases (given (headers auth0_identity_header))) [
      | inl e ↦ rw (e, resolve_identity) (without_auth0-InLowercase is_vm dev_email headers)
      | inr (s, e) ↦
          rw (e, resolve_identity)
            (elim (Bool-cases (is_blank (normal s))) [
              | inl b ↦ rw b (without_auth0-InLowercase is_vm dev_email headers)
              | inr b ↦ rw b (to_lower_case_idem (trim s))
            ])
    ]

-- Outside the VM, two requests without the header that the middleware sets are the same identity,
-- that of the developer or none, whatever their other headers say.
pub resolve_identity_untrusted :
    (dev_email : Option Text) (headers headers' : Headers)
    → headers auth0_identity_header ≡ none
    → headers' auth0_identity_header ≡ none
    → (resolve_identity false dev_email headers ≡ of_dev dev_email)
      × (resolve_identity false dev_email headers' ≡ resolve_identity false dev_email headers)
unfolding resolve_identity without_auth0
resolve_identity_untrusted dev_email headers headers' h h' =
    let one : resolve_identity false dev_email headers ≡ of_dev dev_email =
      rw (h, resolve_identity) refl in
    let other : resolve_identity false dev_email headers' ≡ of_dev dev_email =
      rw (h', resolve_identity) refl in
    (one, other ∙ sym one)

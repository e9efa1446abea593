-- ===== src/SafeUrl/Vetted.antt =====
-- resolveDeliverableUrl: what is known of a destination that is not refused.
use announcement_tool.Common.{
  ◌≡◌, refl, inl, inr, Bool, false, not, List, [], ◌∷◌, Option, none, some, Text, codes, text_eq,
  text_eq_iff, arith, In, some_of, Bool-cases, Option-cases, ok, Fulfils, Fulfils-ok,
  Fulfils-throw_if, ◌≢◌,
}
use announcement_tool.SafeUrl.Deliverable.{
  IsIp, Url, is_forbidden_address, is_forbidden_hostname, vet_addresses, resolve_deliverable_url,
}

module _ (is_ip : IsIp) (parse : Text → Option Url) (lookup : Text → Option (List Text)) where
  -- What was checked of a destination `u` and the addresses that a connection is pinned to.
  pub record Vetted (url : Text) (u : Url) (addresses : List Text) : Type 0 where
    pub parsed : parse url ≡ some u
    pub secure : u.protocol ≡ codes "https:"
    pub host : is_forbidden_hostname is_ip u.hostname ≡ false
    pub resolved : lookup u.hostname ≡ some addresses
    pub some_address : addresses ≢ []
    pub allowed : (a : Text) → In a addresses → is_forbidden_address is_ip a ≡ false

  some_of-false :
      (p : Text → Bool) (xs : List Text) (a : Text) → some_of p xs ≡ false → In a xs → p a ≡ false
  some_of-false p [] a h m = absurd m
  some_of-false p (x ∷ xs) a h (inl e) = rw e (ground arith)
  some_of-false p (x ∷ xs) a h (inr m) = some_of-false p xs a (ground arith) m

  VettedPair : Text → Url × List Text → Type 0
  VettedPair url (u, addresses) = Vetted url u addresses

  vet_addresses-Vetted :
      (url : Text) (u : Url) (answer : Option (List Text))
      → parse url ≡ some u
      → not (text_eq u.protocol (codes "https:")) ≡ false
      → is_forbidden_hostname is_ip u.hostname ≡ false
      → lookup u.hostname ≡ answer
      → Fulfils (VettedPair url) (vet_addresses is_ip parse lookup u answer)
  unfolding vet_addresses VettedPair
  vet_addresses-Vetted url u none p s h r = tt
  vet_addresses-Vetted url u (some []) p s h r = tt
  vet_addresses-Vetted url u (some (a ∷ more)) p s h r =
      elim (Bool-cases (some_of (is_forbidden_address is_ip) (a ∷ more))) [
        | inl bad ↦ rw (bad, vet_addresses) tt
        | inr good ↦
            rw (good, vet_addresses)
              (record {
                parsed = p;
                secure = (text_eq_iff u.protocol (codes "https:")).0 (ground arith);
                host = h;
                resolved = r;
                some_address = λ e. cc;
                allowed = λ x m. some_of-false (is_forbidden_address is_ip) (a ∷ more) x good m;
              })
      ]

  resolve-VettedPair :
      (url : Text) → Fulfils (VettedPair url) (resolve_deliverable_url is_ip parse lookup false url)
  unfolding resolve_deliverable_url
  resolve-VettedPair url = elim (Option-cases (parse url)) [
    | inl e ↦ rw (e, resolve_deliverable_url) tt
    | inr (u, e) ↦
        rw (e, resolve_deliverable_url)
          (Fulfils-throw_if (VettedPair url) (not (text_eq u.protocol (codes "https:"))) _ _ λ s.
            Fulfils-throw_if (VettedPair url) (is_forbidden_hostname is_ip u.hostname) _ _
              λ h. vet_addresses-Vetted url u (lookup u.hostname) e s h refl)
  ]

  -- Outside tests, a destination that is not refused is an https URL whose host name is not
  -- forbidden, and the addresses that the connection is pinned to are all those that the name
  -- resolved to: there is one at least, and none is forbidden.
  pub resolve_deliverable_url-Vetted :
      (url : Text) (u : Url) (addresses : List Text)
      → resolve_deliverable_url is_ip parse lookup false url ≡ ok (u, addresses)
      → Vetted url u addresses
  unfolding VettedPair
  resolve_deliverable_url-Vetted url u addresses e =
      Fulfils-ok (VettedPair url) (resolve_deliverable_url is_ip parse lookup false url)
        (u, addresses) (resolve-VettedPair url) e

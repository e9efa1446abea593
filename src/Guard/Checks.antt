-- ===== src/Guard/Checks.antt =====
-- The checks of checkEnvironment one by one: when each of them finds no problem.
use announcement_tool.Common.{
  ◌≡◌, refl, ap, sym, some_inj, ◌↔◌, ◌||◌, ◌⊎◌, inl, inr, ◌≢◌, ◌≤◌, Bool, true, false, not, List,
  [], ◌∷◌, ◌++◌, Option, none, some, Text, codes, text_eq, text_eq_iff, is_blank, trim, includes,
  length, In, arith, ok, contains, starts_with, starts_with-append, starts_with_prefix, Bool-cases,
  Result-cases,
}
use announcement_tool.Types.{ChannelName, webhook, discord, telegram, email, signal, channel_has_eq}
use announcement_tool.EnabledChannels.{parse_enabled_channels}
use announcement_tool.Guard.{
  Problem, loopback, is_missing, is_text, push_if, check_hostname, secret_short, check_channels,
  check_base_url,
}

-- The variable has a value that is not the empty text.
abbrev pub Given : Option Text → Type 0
Given o = (s : Text) × (o ≡ some s) × (s ≢ [])

-- The channels that the variable names are known, and Signal is not among them.
abbrev pub WithoutSignal : Option Text → Type 0
WithoutSignal o =
    (s : Text) × (cs : List ChannelName) × (o ≡ some s)
    × (trim s ≢ [])
    × (parse_enabled_channels o ≡ ok cs)
    × (In signal cs → ⊥)

pub cons-ne-nil : {A : Type 0} {x : A} {xs : List A} → x ∷ xs ≡ [] → ⊥
cons-ne-nil h = cc

pub append-eq-nil : {A : Type 0} (xs ys : List A) → ((xs ++ ys) ≡ []) ↔ ((xs ≡ []) × (ys ≡ []))
append-eq-nil [] ys = ground arith
append-eq-nil (x ∷ xs) ys = ground arith

pub push_if_nil : (b : Bool) (p : Problem) → (push_if b p ≡ []) ↔ (b ≡ false)
push_if_nil true p = ground arith
push_if_nil false p = ground arith

pub is_text_iff : (t : Text) (o : Option Text) → (is_text t o ≡ true) ↔ (o ≡ some t)
is_text_iff t none = ground arith
is_text_iff t (some s) = ground (arith, text_eq_iff s t)

pub not_missing_iff : (o : Option Text) → (is_missing o ≡ false) ↔ Given o
not_missing_iff none = (λ h. cc, λ (s, e, n). cc)
not_missing_iff (some []) = (λ h. cc, λ (s, e, n). absurd (n (cc)))
not_missing_iff (some (c ∷ s)) = (λ h. (c ∷ s, refl, λ e. cc), λ g. refl)

pub missing_iff : (o : Option Text) → (not (is_missing o) ≡ false) ↔ ((o ≡ none) ⊎ (o ≡ some []))
missing_iff none = (λ h. inl refl, λ h. refl)
missing_iff (some []) = (λ h. inr refl, λ h. refl)
missing_iff (some (c ∷ s)) = (λ h. cc, λ h. elim h [ inl e ↦ cc | inr e ↦ cc ])

refused :
    (h : Text)
    → text_eq (codes "127.0.0.1") h ≡ false
    → text_eq (codes "::1") h ≡ false
    → (is_blank h || not (includes loopback h)) ≡ false
    → ⊥
unfolding includes
refused h a b e = let t : (is_blank h || true) ≡ false = rw (a, b) at e in ground arith

bound_first : check_hostname (some (codes "127.0.0.1")) ≡ []
unfolding check_hostname includes text_eq
bound_first = refl

bound_second : check_hostname (some (codes "::1")) ≡ []
unfolding check_hostname includes text_eq
bound_second = refl

pub hostname_iff :
    (o : Option Text)
    → (check_hostname o ≡ []) ↔ ((o ≡ some (codes "127.0.0.1")) ⊎ (o ≡ some (codes "::1")))
unfolding check_hostname includes
hostname_iff none = (λ h. cc, λ h. elim h [ inl e ↦ cc | inr e ↦ cc ])
hostname_iff (some h) = (
  λ e. elim (Bool-cases (text_eq (codes "127.0.0.1") h)) [
    | inl a ↦ inl (ap some (sym ((text_eq_iff _ h).0 a)))
    | inr a ↦ elim (Bool-cases (text_eq (codes "::1") h)) [
      | inl b ↦ inr (ap some (sym ((text_eq_iff _ h).0 b)))
      | inr b ↦ absurd (refused h a b ((push_if_nil _ _).0 e))
    ]
  ],
  λ e. elim e [ inl a ↦ rw (some_inj a) (bound_first) | inr b ↦ rw (some_inj b) (bound_second) ],
)

pub secret_iff :
    (o : Option Text) → (secret_short o ≡ false) ↔ ((s : Text) × (o ≡ some s) × (32 ≤ length s))
unfolding secret_short
secret_iff none = (λ h. cc, λ (s, e, n). cc)
secret_iff (some []) = (λ h. cc, λ (s, e, n). absurd (ground (arith, some_inj e)))
secret_iff (some (c ∷ s)) = (λ h. (c ∷ s, refl, ground arith), λ (t, e, n). ground arith)

pub base_url_iff :
    (o : Option Text)
    → (check_base_url o ≡ []) ↔ ((host : Text) × (o ≡ some (codes "https://" ++ host)))
unfolding check_base_url
base_url_iff none = (λ h. cc, λ (s, e). cc)
base_url_iff (some []) = (λ h. cc, λ (s, e). cc)
base_url_iff (some (c ∷ s)) = (
  λ h. elim (Bool-cases (starts_with (codes "https://") (c ∷ s))) [
    | inl t ↦ let (host, e) = starts_with_prefix (codes "https://") (c ∷ s) t in (host, ap some e)
    | inr f ↦ absurd (cons-ne-nil (rw f at h))
  ],
  λ (host, e). rw (some_inj e, starts_with-append (codes "https://") host),
)

-- A channel that is not Signal adds nothing.
not_head :
    (c : ChannelName) (cs : List ChannelName)
    → (signal ≡ c → ⊥)
    → (contains cs signal ≡ false) ↔ (In signal cs → ⊥)
    → (contains cs signal ≡ false) ↔ (In signal (c ∷ cs) → ⊥)
not_head c cs other (f, g) =
    (λ h m. elim m [ inl e ↦ other e | inr n ↦ f h n ], λ h. g (λ n. h (inr n)))

pub contains_signal : (cs : List ChannelName) → (contains cs signal ≡ false) ↔ (In signal cs → ⊥)
contains_signal [] = (λ h m. m, λ h. refl)
contains_signal (signal ∷ cs) = (λ h. cc, λ h. absurd (h (inl refl)))
contains_signal (webhook ∷ cs) = not_head webhook cs (λ e. cc) (contains_signal cs)
contains_signal (discord ∷ cs) = not_head discord cs (λ e. cc) (contains_signal cs)
contains_signal (telegram ∷ cs) = not_head telegram cs (λ e. cc) (contains_signal cs)
contains_signal (email ∷ cs) = not_head email cs (λ e. cc) (contains_signal cs)

pub blank_iff : (s : Text) → (is_blank s ≡ false) ↔ (s ≢ [])
blank_iff [] = (λ h. cc, λ h. absurd (h refl))
blank_iff (c ∷ s) = (λ h e. cc, λ h. refl)

trim_nil : trim [] ≡ []
unfolding trim
trim_nil = refl

pub channels_iff : (o : Option Text) → (check_channels o ≡ []) ↔ WithoutSignal o
unfolding check_channels
channels_iff none = (λ h. cc, λ (s, cs, e, n, k, m). cc)
channels_iff (some []) = (λ h. cc, λ (s, cs, e, n, k, m). absurd (n (rw (← some_inj e) trim_nil)))
channels_iff (some (c ∷ raw)) = (
  λ h. elim (Bool-cases (is_blank (trim (c ∷ raw)))) [
    | inl b ↦ absurd (cons-ne-nil (rw b at h))
    | inr b ↦ elim (Result-cases (parse_enabled_channels (some (c ∷ raw)))) [
      | inl (e, k) ↦ absurd (cons-ne-nil (rw (b, k) at h))
      | inr (cs, k) ↦ (
        c ∷ raw,
        cs,
        refl,
        (blank_iff (trim (c ∷ raw))).0 b,
        k,
        (contains_signal cs).0 ((push_if_nil _ _).0 (rw (b, k) at h)),
      )
    ]
  ],
  λ (s, cs, e, n, k, m).
      let n' : trim (c ∷ raw) ≢ [] = rw (some_inj e) n in
      rw ((blank_iff (trim (c ∷ raw))).1 n', k, (contains_signal cs).1 m) refl,
)

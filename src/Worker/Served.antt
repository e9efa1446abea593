-- ===== src/Worker/Served.antt =====
-- The request of tick-background.ts: when a pass runs, and that nothing changes where it does not.
use announcement_tool.Common.{
  ◌≡◌, refl, sym, ◌∙◌, ◌≢◌, ◌⊎◌, inl, inr, true, false, List, [], Option, none, some, Text, codes,
  text_eq_iff, is_blank, contains, Result, ok, err, Bool-cases, List-cases, Result-cases, arith,
}
use announcement_tool.Types.{ChannelName, signal, channel_has_eq}
use announcement_tool.EnabledChannels.{parse_enabled_channels}
use announcement_tool.Guard.{check_environment, guard_env_from_process}
use announcement_tool.Guard.Checks.{blank_iff, contains_signal}
use announcement_tool.Guard.Safe.{IsSafe, SafeNetlify, check_environment_iff}
use announcement_tool.Identity.Gate.{assert_publishers_configured}
use announcement_tool.Database.{connect}
use announcement_tool.Worker.{TickResult, TickState, Moment, run_tick, build_adapters}
use announcement_tool.Worker.Channels.{build_adapters-Added}
use announcement_tool.Worker.Request.{
  Host, Sender, Thrown, TickAnswer, ran, netlify_env, db_env_from_process_env, sender_from_env,
  tick_secret_matches, tick_with_sender, tick_when_safe, tick_background,
}

-- Both texts are given, not empty and equal.
pub data SameSecret : Option Text → Option Text → Type 0 where
  same_secret : (secret : Text) → secret ≢ [] → SameSecret (some secret) (some secret)

tick_secret_matches-SameSecret :
    (configured presented : Option Text)
    → tick_secret_matches configured presented ≡ true
    → SameSecret configured presented
unfolding tick_secret_matches
tick_secret_matches-SameSecret none presented h = cc
tick_secret_matches-SameSecret (some c) none h = cc
tick_secret_matches-SameSecret (some c) (some p) h =
    let e : c ≡ p = ground (arith, text_eq_iff c p) in
    let n : is_blank c ≡ false = ground arith in rw (← e) (same_secret c ((blank_iff c).0 n))

abbrev pub NoPass : TickAnswer → Type 0
NoPass a = (result : TickResult) → a ≢ ran result

module _ {W : Type 0} (host : Host W) (m : Moment) where
  -- A pass that ran, on the channels that the variable names.
  pub record Passes (s : TickState W) (a : TickAnswer) (t : TickState W) : Type 0 where
    pub sender : Sender
    pub channels : List ChannelName
    pub parsed : parse_enabled_channels (host.env (codes "ENABLED_CHANNELS")) ≡ ok channels
    pub result : a ≡ ran (run_tick m channels (build_adapters (host.make sender) channels) s).0
    pub state : t ≡ (run_tick m channels (build_adapters (host.make sender) channels) s).1

  abbrev Answered : TickState W → TickAnswer × TickState W → Type 0
  Answered s (a, t) = (NoPass a × (t ≡ s)) ⊎ Passes s a t

  tick_with_sender-Answered :
      (sender : Result Thrown Sender) (s : TickState W)
      → Answered s (tick_with_sender host m sender s)
  unfolding tick_with_sender
  tick_with_sender-Answered (err e) s = inl (λ r h. cc, refl)
  tick_with_sender-Answered (ok sender) s =
      elim (Result-cases (parse_enabled_channels (host.env (codes "ENABLED_CHANNELS")))) [
        | inl (x, e) ↦ rw (e, tick_with_sender) (inl (λ r h. cc, refl))
        | inr (cs, e) ↦
            rw (e, tick_with_sender)
              (inr (record {
                sender = sender;
                channels = cs;
                parsed = e;
                result = refl;
                state = refl;
              }))
      ]

  tick_when_safe-Answered : (s : TickState W) → Answered s (tick_when_safe host m s)
  unfolding tick_when_safe
  tick_when_safe-Answered s =
      elim (Result-cases
        (connect host.x509 host.read_file host.parse_url (db_env_from_process_env host.env))) [
          | inl (x, e) ↦ rw (e, tick_when_safe) (inl (λ r h. cc, refl))
          | inr (options, e) ↦
              elim (Result-cases (assert_publishers_configured (netlify_env host.env) host.race)) [
                | inl (x, f) ↦ rw (e, f, tick_when_safe) (inl (λ r h. cc, refl))
                | inr (started, f) ↦
                    rw (e, f, tick_when_safe)
                      (tick_with_sender-Answered (sender_from_env host.env) s)
              ]
        ]

-- What a request that ran a pass shows of the process.
pub record Served {W : Type 0} (host : Host W) (m : Moment) (presented : Option Text)
    (s : TickState W) (a : TickAnswer) (t : TickState W) : Type 0 where
  pub secret : SameSecret (host.env (codes "TICK_SECRET")) presented
  pub passes : Passes host m s a t
  pub safe :
      (host.env (codes "ANNOUNCE_ALLOW_INSECURE_DEV") ≡ some (codes "1"))
      ⊎ (IsSafe (netlify_env host.env)
          × ((build_adapters (host.make passes.sender) passes.channels).at signal ≡ none))

vm-ne-netlify : ◌≡◌ {A = Option Text} (some (codes "netlify")) (some (codes "vm")) → ⊥
vm-ne-netlify h = cc

ok_inj : {E A : Type 0} {a b : A} → ◌≡◌ {A = Result E A} (ok a) (ok b) → a ≡ b
ok_inj h = cc

module _ {W : Type 0} (host : Host W) where
  netlify-SafeNetlify : IsSafe (netlify_env host.env) → SafeNetlify (netlify_env host.env)
  netlify-SafeNetlify safe = elim safe.shape [ inr n ↦ n | inl v ↦ absurd (vm-ne-netlify v.target) ]

  no_signal :
      (sender : Sender) (channels : List ChannelName)
      → IsSafe (netlify_env host.env)
      → parse_enabled_channels (host.env (codes "ENABLED_CHANNELS")) ≡ ok channels
      → (build_adapters (host.make sender) channels).at signal ≡ none
  unfolding guard_env_from_process
  no_signal sender channels safe e =
      let (raw, cs, given, inked, parsed, without) = (netlify-SafeNetlify safe).channels in
      let same : cs ≡ channels = ok_inj (sym parsed ∙ e) in
      let absent : contains channels signal ≡ false =
        (contains_signal channels).1 (λ n. without (rw same n)) in
      (build_adapters-Added (host.make sender) channels signal).1 ∙ rw absent refl

  tick_when_safe-Served :
      (m : Moment) (presented : Option Text) (s : TickState W)
      → SameSecret (host.env (codes "TICK_SECRET")) presented
      → check_environment (netlify_env host.env) ≡ []
      → (NoPass (tick_when_safe host m s).0 × ((tick_when_safe host m s).1 ≡ s))
        ⊎ Served host m presented s (tick_when_safe host m s).0 (tick_when_safe host m s).1
  unfolding guard_env_from_process
  tick_when_safe-Served m presented s secret e = elim (tick_when_safe-Answered host m s) [
    | inl refused ↦ inl refused
    | inr passes ↦ inr (record {
      secret = secret;
      passes = passes;
      safe = elim ((check_environment_iff (netlify_env host.env)).0 e) [
        | inl insecure ↦ inl insecure
        | inr safe ↦ inr (safe, no_signal passes.sender passes.channels safe passes.parsed)
      ];
    })
  ]

  -- A request to the function runs a pass of the worker only if it shows the secret of the process,
  -- which is not empty, and only if the checks are switched off or the configuration is safe, and then
  -- the pass has no adapter for Signal. The pass is on exactly the channels that the variable names.
  -- Every other request leaves the database, the alerts and the world as they were.
  pub tick_background-Served :
      (m : Moment) (presented : Option Text) (s : TickState W)
      → (NoPass (tick_background host m presented s).0
          × ((tick_background host m presented s).1 ≡ s))
        ⊎ Served host m presented s
            (tick_background host m presented s).0
            (tick_background host m presented s).1
  unfolding tick_background
  tick_background-Served m presented s =
      elim (Bool-cases (tick_secret_matches (host.env (codes "TICK_SECRET")) presented)) [
        | inr e ↦ rw (e, tick_background) (inl (λ r h. cc, refl))
        | inl e ↦ elim (List-cases (check_environment (netlify_env host.env))) [
          | inl f ↦
              rw (e, f, tick_background)
                (tick_when_safe-Served m presented s
                  (tick_secret_matches-SameSecret (host.env (codes "TICK_SECRET")) presented e) f)
          | inr (p, ps, f) ↦ rw (e, f, tick_background) (inl (λ r h. cc, refl))
        ]
      ]

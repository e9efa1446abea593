-- ===== src/Worker/Channels.antt =====
-- buildAdapters: which channels have an adapter.
use announcement_tool.Common.{
  ◌≡◌, refl, ◌∙◌, Bool, true, false, ◌||◌, List, [], ◌∷◌, ◌++◌, none, some, contains, if◌then◌else◌,
  arith, inl, inr, Bool-cases,
}
use announcement_tool.Types.{ChannelName, channel_eq, channel_eq_iff, channel_has_eq}
use announcement_tool.Fanout.{Adapter, Adapters}
use announcement_tool.Worker.{add_adapter, add_adapters, build_adapters}

contains-append :
    (cs ds : List ChannelName) (c : ChannelName)
    → contains (cs ++ ds) c ≡ (contains cs c || contains ds c)
contains-append [] ds c = refl
contains-append (d ∷ cs) ds c = elim (Bool-cases (channel_eq d c)) [
  | inl e ↦ rw e refl
  | inr e ↦ rw e (contains-append cs ds c)
]

or_swap : (a b : Bool) → (a || (b || false)) ≡ (b || a)
or_swap a b = ground arith

or_move : (a b c : Bool) → (a || (b || c)) ≡ ((b || a) || c)
or_move a b c = ground arith

if-or :
    {A : Type 0} (a b : Bool) (x y : A)
    → (if a then x else (if b then x else y)) ≡ (if b || a then x else y)
if-or true true x y = refl
if-or true false x y = refl
if-or false true x y = refl
if-or false false x y = refl

module _ {W : Type 0} (make : ChannelName → Adapter W) where
  -- The adapters after those of `channels` are added to `adapters`.
  record Added (channels : List ChannelName) (adapters after : Adapters W) : Type 0 where
    pub known :
        (c : ChannelName)
        → contains after.known c ≡ (contains channels c || contains adapters.known c)
    pub at :
        (c : ChannelName)
        → after.at c ≡ (if contains channels c then some (make c) else adapters.at c)

  add_adapter-known :
      (c d : ChannelName) (adapters : Adapters W)
      → contains (add_adapter make c adapters).known d
        ≡ (channel_eq c d || contains adapters.known d)
  unfolding add_adapter
  add_adapter-known c d adapters = elim (Bool-cases (contains adapters.known c)) [
    | inl e ↦ elim (Bool-cases (channel_eq c d)) [
      | inl h ↦ rw (e, h) (rw ((channel_eq_iff c d).0 h) at e)
      | inr h ↦ rw (e, h) refl
    ]
    | inr e ↦ rw (e, contains-append) (or_swap (contains adapters.known d) (channel_eq c d))
  ]

  add_adapter-at :
      (c d : ChannelName) (adapters : Adapters W)
      → (add_adapter make c adapters).at d
        ≡ (if channel_eq c d then some (make d) else adapters.at d)
  unfolding add_adapter
  add_adapter-at c d adapters = elim (Bool-cases (channel_eq c d)) [
    | inl h ↦ rw (h, (channel_eq_iff c d).0 h) refl
    | inr h ↦ rw h refl
  ]

  add_adapters-Added :
      (channels : List ChannelName) (adapters : Adapters W)
      → Added channels adapters (add_adapters make channels adapters)
  unfolding add_adapters
  add_adapters-Added [] adapters = record { known = λ c. refl; at = λ c. refl }
  add_adapters-Added (c ∷ channels) adapters =
      let more = add_adapters-Added channels (add_adapter make c adapters) in
      record {
        known = λ d.
            more.known d
            ∙ rw (add_adapter-known c d adapters)
                (or_move (contains channels d) (channel_eq c d) _);
        at = λ d.
            more.at d
            ∙ rw (add_adapter-at c d adapters) (if-or (contains channels d) (channel_eq c d) _ _);
      }

  -- The worker has an adapter for exactly the channels that it is asked to build, each made for its
  -- own channel, and `known` names exactly those.
  pub build_adapters-Added :
      (channels : List ChannelName) (c : ChannelName)
      → (contains (build_adapters make channels).known c ≡ contains channels c)
        × ((build_adapters make channels).at c
            ≡ (if contains channels c then some (make c) else none))
  unfolding build_adapters
  build_adapters-Added channels c =
      let added = add_adapters-Added channels (record { known = []; at = λ d. none }) in
      (ground (arith, added.known c), added.at c)

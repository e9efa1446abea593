-- ===== src/Outbox/Targets.antt =====
-- countFanoutTargets: exactly which destinations an announcement has.
use announcement_tool.Common.{
  In-map, map-In, subst, ◌≡◌, ◌↔◌, ap, ◌∙◌, inl, inr, true, List, ◌++◌, map, In, In-append_left,
  In-append_right, In-append_cases, In-keep, keep-In,
}
use announcement_tool.Types.{Announcement, ChannelName, DeliveryTarget}
use announcement_tool.Store.{SettingRow, SubscriptionRow, Db}
use announcement_tool.Subscriptions.{Subscription, row_to_sub}
use announcement_tool.EnabledChannels.{is_channel_enabled}
use announcement_tool.Outbox.{
  ChannelSetting, row_to_setting, setting_matches, setting_target, broadcast_targets_for,
  sub_matches, sub_target, subscription_targets, count_fanout_targets,
}

-- A channel of the deployment that carries the announcement's type on one of its networks, or a
-- verified subscription whose filters let it through.
pub data Reaches (a : Announcement) (db : Db) (t : DeliveryTarget) : Type 0 where
  by_setting :
      (r : SettingRow)
      → In r db.channel_settings
      → setting_matches a (row_to_setting r) ≡ true
      → t ≡ setting_target (row_to_setting r)
      → Reaches a db t
  by_subscription :
      (r : SubscriptionRow)
      → In r db.subscriptions
      → r.verified ≡ true
      → sub_matches a (row_to_sub r) ≡ true
      → t ≡ sub_target (row_to_sub r)
      → Reaches a db t

from_settings :
    (a : Announcement) (db : Db) (t : DeliveryTarget)
    → In t (broadcast_targets_for a (map row_to_setting db.channel_settings))
    → Reaches a db t
unfolding broadcast_targets_for
from_settings a db t m =
    let (cs, n, e) = In-map setting_target t _ m in
    let (n', matches) = In-keep (setting_matches a) cs _ n in
    let (r, o, k) = In-map row_to_setting cs db.channel_settings n' in
    by_setting r o (subst (λ (x : ChannelSetting). setting_matches a x ≡ true) k matches)
      (e ∙ ap setting_target k)

from_subscriptions :
    (a : Announcement) (db : Db) (t : DeliveryTarget)
    → In t (subscription_targets a db.subscriptions)
    → Reaches a db t
unfolding subscription_targets
from_subscriptions a db t m =
    let (s, n, e) = In-map sub_target t _ m in
    let (n', matches) = In-keep (sub_matches a) s _ n in
    let (r, o, k) = In-map row_to_sub s _ n' in
    let (o', verified) = In-keep (λ (x : SubscriptionRow). x.verified) r db.subscriptions o in
    by_subscription r o' verified (subst (λ (x : Subscription). sub_matches a x ≡ true) k matches)
      (e ∙ ap sub_target k)

setting_listed :
    (a : Announcement) (db : Db) (r : SettingRow)
    → In r db.channel_settings
    → setting_matches a (row_to_setting r) ≡ true
    → In
        (setting_target (row_to_setting r))
        (broadcast_targets_for a (map row_to_setting db.channel_settings))
unfolding broadcast_targets_for
setting_listed a db r m matches = map-In setting_target (row_to_setting r) _ (
    keep-In (setting_matches a) (row_to_setting r) _ (map-In row_to_setting r db.channel_settings m)
      matches)

subscription_listed :
    (a : Announcement) (db : Db) (r : SubscriptionRow)
    → In r db.subscriptions
    → r.verified ≡ true
    → sub_matches a (row_to_sub r) ≡ true
    → In (sub_target (row_to_sub r)) (subscription_targets a db.subscriptions)
unfolding subscription_targets
subscription_listed a db r m verified matches = map-In sub_target (row_to_sub r) _ (
    keep-In (sub_matches a) (row_to_sub r) _
      (map-In row_to_sub r _
        (keep-In (λ (x : SubscriptionRow). x.verified) r db.subscriptions m verified))
      matches)

to_targets :
    (a : Announcement) (db : Db) (t : DeliveryTarget)
    → Reaches a db t
    → In t (
        broadcast_targets_for a (map row_to_setting db.channel_settings)
        ++ subscription_targets a db.subscriptions)
to_targets a db t (by_setting r m matches e) =
    In-append_left t (broadcast_targets_for a (map row_to_setting db.channel_settings))
      (subscription_targets a db.subscriptions) (rw e (setting_listed a db r m matches))
to_targets a db t (by_subscription r m verified matches e) =
    In-append_right t (broadcast_targets_for a (map row_to_setting db.channel_settings))
      (subscription_targets a db.subscriptions)
      (rw e (subscription_listed a db r m verified matches))

-- A destination is a target exactly when its channel is enabled and the announcement reaches it by
-- a matching channel setting or by a verified, matching subscription.
pub count_fanout_targets_iff :
    (enabled : List ChannelName) (db : Db) (a : Announcement) (t : DeliveryTarget)
    → In t (count_fanout_targets enabled db a)
      ↔ ((is_channel_enabled enabled t.channel ≡ true) × Reaches a db t)
unfolding count_fanout_targets
count_fanout_targets_iff enabled db a t = (
  λ m.
      let (n, on) = In-keep (λ (x : DeliveryTarget). is_channel_enabled enabled x.channel) t _ m in
      (
        on,
        elim (In-append_cases t _ _ n) [
          | inl s ↦ from_settings a db t s
          | inr s ↦ from_subscriptions a db t s
        ],
      ),
  λ (on, reaches).
      keep-In (λ x. is_channel_enabled enabled x.channel) t _ (to_targets a db t reaches) on,
)

-- ===== src/Worker.antt =====
-- src/worker/tick.ts and src/worker/adapters.ts: one pass of the worker and the adapters that it is
-- given. What the clock, the locks and the mail service give to a pass is a record; the log on the
-- console is left out.
pub mod Request
pub mod Channels
pub mod Ticks
pub mod Served
use announcement_tool.Common.{
  ℕ, ◌+◌, Bool, true, false, ◌&&◌, not, List, [], ◌∷◌, ◌++◌, Option, none, some, Text, codes,
  text_eq, is_blank, length, contains, map, min, if◌then◌else◌, Result, ok, err,
}
use announcement_tool.Types.{Announcement, ChannelName, channel_eq, channel_has_eq}
use announcement_tool.Store.{Row, LedgerRow, Db}
use announcement_tool.Announcements.Error.{ApiError}
use announcement_tool.Announcements.Publish.{publish_due_scheduled}
use announcement_tool.Fanout.{Adapter, Adapters, Pass, run_fanout_once}
use announcement_tool.Health.{HealthIssue}
use announcement_tool.Alerts.{AlertRow, dispatch_health_alerts}

pub record Published : Type 0 where
  pub id : Text
  pub slug : Text

pub record TickResult : Type 0 where
  pub published : List Published
  pub delivered : ℕ
  pub failed : ℕ
  pub alerted : ℕ

-- The database, the rows of `alert_state`, and the world of the adapters.
pub record TickState (W : Type 0) : Type 0 where
  pub db : Db
  pub alerts : List AlertRow
  pub world : W

-- The times of the three parts, the rows that other workers hold, which mail is accepted, and which of
-- the parts meet a database that is down, so that they throw and their changes of it are rolled back.
-- The fan-out may have called the adapters of some rows by then: it throws after `rounds_made` rounds.
pub record Moment : Type 0 where
  pub scheduled_at : ℕ
  pub delivered_at : ℕ
  pub alerted_at : ℕ
  pub locked_row : Row → Bool
  pub locked_delivery : LedgerRow → Bool
  pub locked_alert : AlertRow → Bool
  pub has_note : Bool
  pub alert_email_to : Option Text
  pub sends : List Text → List HealthIssue → Bool
  pub scheduler_fails : Bool
  pub fanout_fails : Bool
  pub rounds_made : ℕ
  pub alerts_fail : Bool

-- The default of `batch` in both parts, and of `sinceHours`.
abbrev pub default_batch : ℕ
default_batch = 20

abbrev pub default_since_hours : ℕ
default_since_hours = 24

abbrev pub published_of : Announcement → Published
published_of a = record { id = a.id; slug = a.slug }

-- alerts.length, and the 0 that `alerted` keeps where the dispatch throws
abbrev pub count_alerts : Option (List HealthIssue) → ℕ
count_alerts none = 0
count_alerts (some issues) = length issues

abbrev pub keep_published :
    {W : Type 0}
    → TickState W
    → Result ApiError (List Announcement × Db)
    → List Published × TickState W
keep_published s (ok (due, db)) = (map published_of due, record s { db = db })
keep_published s (err e) = ([], s)

module _ {W : Type 0} (m : Moment) where
  -- The health alerts after a fan-out that did not throw.
  unfoldable pub alert_part : TickState W → ℕ × TickState W
  alert_part s =
      if m.alerts_fail
      then (0, s)
      else let (issues, alerts) =
          dispatch_health_alerts m.alerted_at m.locked_alert m.sends m.alert_email_to
            default_since_hours m.has_note s.db s.alerts in
        (count_alerts issues, record s { alerts = alerts })

  -- The second try { … } catch { … }.
  unfoldable pub fanout_part : Adapters W → List Published → TickState W → TickResult × TickState W
  unfolding alert_part
  fanout_part adapters published s =
      if m.fanout_fails
      then (
        record { published = published; delivered = 0; failed = 0; alerted = 0 },
        record s {
          world =
              (run_fanout_once m.delivered_at m.has_note adapters m.locked_delivery
                (min m.rounds_made default_batch) s.db s.world).world;
        },
      )
      else let res =
          run_fanout_once m.delivered_at m.has_note adapters m.locked_delivery default_batch s.db
            s.world in
        let (alerted, t) = alert_part (record s { db = res.db; world = res.world }) in
        (
          record {
            published = published;
            delivered = res.delivered;
            failed = res.failed;
            alerted = alerted;
          },
          t,
        )

module _ {W : Type 0} (m : Moment) (enabled : List ChannelName) where
  -- The first try { … } catch { … }.
  unfoldable pub schedule_part : TickState W → List Published × TickState W
  schedule_part s =
      if m.scheduler_fails
      then ([], s)
      else keep_published s
          (publish_due_scheduled m.scheduled_at enabled m.locked_row default_batch s.db)

  unfoldable pub run_tick : Adapters W → TickState W → TickResult × TickState W
  unfolding schedule_part fanout_part
  run_tick adapters s = let (published, t) = schedule_part s in fanout_part m adapters published t

module _ {W : Type 0} (make : ChannelName → Adapter W) where
  -- adapters[channel] = make…(sql)
  unfoldable pub add_adapter : ChannelName → Adapters W → Adapters W
  add_adapter c adapters = record {
    known = if contains adapters.known c then adapters.known else adapters.known ++ c ∷ [];
    at = λ d. if channel_eq c d then some (make c) else adapters.at d;
  }

  unfoldable pub add_adapters : List ChannelName → Adapters W → Adapters W
  unfolding add_adapter
  add_adapters [] adapters = adapters
  add_adapters (c ∷ channels) adapters = add_adapters channels (add_adapter c adapters)

  unfoldable pub build_adapters : List ChannelName → Adapters W
  unfolding add_adapters
  build_adapters channels = add_adapters channels (record { known = []; at = λ d. none })

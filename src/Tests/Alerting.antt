-- ===== src/Tests/Alerting.antt =====
-- The theorem on alerts, applied to two problems that are found one after the other.
use announcement_tool.Common.{
  ◌≡◌, refl, inl, true, false, [], ◌∷◌, In, codes, text_eq, update_where, decimal,
}
use announcement_tool.Types.{discord, telegram}
use announcement_tool.EnabledChannels.{channel_text}
use announcement_tool.Health.{HealthIssue, of_exhaustion}
use announcement_tool.Alerts.{
  alert_key, dispatch_issues, insert_keys, claim, by_key, put_issue, issue_at, send_claimed,
  set_notified, kind_text,
}
use announcement_tool.Alerts.History.{Dispatch, run_dispatches, dispatch, mailed, dispatch_once}
use announcement_tool.Tests.Scenario.{noon}

abbrev first_issue : HealthIssue
first_issue = record {
  kind = of_exhaustion;
  channel = discord;
  target = codes "main";
  announcement_id = codes "ann-1";
  revision = 1;
  detail = [];
}

abbrev second_issue : HealthIssue
second_issue = record first_issue { channel = telegram }

abbrev first_call : Dispatch
first_call = record {
  now = noon;
  locked = λ _. false;
  sends = λ _. true;
  issues = first_issue ∷ [];
}

abbrev second_call : Dispatch
second_call = record first_call { issues = first_issue ∷ second_issue ∷ [] }

first_mailed : In first_issue (run_dispatches (first_call ∷ []) []).0
unfolding run_dispatches dispatch dispatch_issues send_claimed insert_keys claim by_key put_issue
    issue_at alert_key kind_text channel_text text_eq decimal
first_mailed = inl refl

second_mailed :
    In second_issue (mailed (dispatch second_call (run_dispatches (first_call ∷ []) []).1).0)
unfolding run_dispatches dispatch dispatch_issues send_claimed insert_keys claim by_key put_issue
    issue_at alert_key kind_text channel_text text_eq set_notified update_where decimal
second_mailed = inl refl

dispatch_once_example : text_eq (alert_key second_issue) (alert_key first_issue) ≡ false
dispatch_once_example =
    dispatch_once (first_call ∷ []) second_call [] second_issue first_issue first_mailed
      second_mailed

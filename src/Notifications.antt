-- ===== src/Notifications.antt =====
-- backend/app/services/notifications.py: the capture channel, an optional webhook, and the service
-- that fans an alert out. What the webhook's POST answers is a parameter: `true` for a status below
-- 400, `false` for another status or for an `HTTPError`.
use sentinelai_splunk.Prelude.{
  ℕ, ◌+◌, String, Bool, Option, none, some, List, [], ◌∷◌, ◌++◌, if◌then◌else◌, concat, decimal_ℤ,
}
use sentinelai_splunk.Prelude.Int.{ℤ, ltb_ℤ}

pub record Notification : Type 0 where
  pub event : String
  pub title : String
  pub severity : String
  pub body : String
  pub tenant_id : String
  pub created_at : ℕ

-- A `NotificationChannel`; the list that a `CaptureChannel` keeps is the state below.
pub data Channel : Type 0 where
  capture : Channel
  webhook : (Notification → Bool) → Channel

-- `channel.send(notification)`
send : Channel → Notification → List Notification → Bool × List Notification
send capture n sent = (Bool.true, sent ++ n ∷ [])
send (webhook post) n sent = (post n, sent)

-- `NotificationService.notify`: how many channels took it, and what was captured
unfoldable pub notify : List Channel → Notification → List Notification → ℕ × List Notification
unfolding send
notify [] n sent = (0, sent)
notify (c ∷ cs) n sent =
    let (taken, sent') = send c n sent in
    let (delivered, sent'') = notify cs n sent' in
    (if taken then delivered + 1 else delivered, sent'')

-- `_build_notifier` of backend/app/api/deps.py
unfoldable pub build_notifier : Option (Notification → Bool) → List Channel
build_notifier none = capture ∷ []
build_notifier (some post) = capture ∷ webhook post ∷ []

-- `maybe_alert_high_risk`
unfoldable pub maybe_alert_high_risk :
    List Channel → ℤ → ℕ → String → String → String → ℤ → List Notification → ℕ × List Notification
maybe_alert_high_risk channels threshold now tenant_id title severity risk_score sent =
    if ltb_ℤ risk_score threshold
    then (0, sent)
    else notify channels
        (record {
          event = "investigation.high_risk";
          title = title;
          severity = severity;
          body = concat (
              "High-risk investigation (risk "
              ∷ decimal_ℤ risk_score
              ∷ ") requires attention."
              ∷ []);
          tenant_id = tenant_id;
          created_at = now;
        })
        sent

-- `alert_action_executed`
unfoldable pub alert_action_executed :
    List Channel → ℕ → String → String → String → String → List Notification → ℕ × List Notification
alert_action_executed channels now tenant_id action_type target status sent =
    notify channels
      (record {
        event = "action.executed";
        title = concat ("Response action " ∷ action_type ∷ []);
        severity = "high";
        body = concat (action_type ∷ " on " ∷ target ∷ " -> " ∷ status ∷ []);
        tenant_id = tenant_id;
        created_at = now;
      })
      sent

-- ===== src/Alerts/Sweep.antt =====
-- packages/server/src/alerts.ts: the transitions of the alert rules. A tick reads the rules with their
-- states, measures each rule, notifies its channels and stores its state; what the channels answer and
-- whether the database stores are parameters of the tick.
pub mod Ticks
pub mod Alternation
pub mod Paging
use memoturn.Prelude.{
  ℕ, ◌+◌, Bool, true, false, ◌&&◌, not, List, [], ◌∷◌, Option, none, some, String, is_empty, any,
  append_text, if◌then◌else◌,
}
use memoturn.Alerts.{
  Measures, NotifyChannel, parse_channels, Severity, critical, info, concat_text, AlertRule,
}

pub data AlertStatus : Type 0 where
  ok firing resolved : AlertStatus

abbrev pub is_firing : AlertStatus → Bool
is_firing ok = false
is_firing firing = true
is_firing resolved = false

module _ (ms : Measures) where
  open ms use {Num, rounded_text, text}

  -- A row of the table of alert states; a time is in milliseconds.
  pub record AlertState : Type 0 where
    pub status : AlertStatus
    pub last_value : Option Num
    pub last_fired_at : Option ℕ
    pub last_resolved_at : Option ℕ

  pub record WebhookBody : Type 0 where
    pub alert : String
    pub project_id : String
    pub metric : String
    pub comparator : String
    pub threshold : Num
    pub value : Num
    pub status : AlertStatus

  pub record ChannelMessage : Type 0 where
    pub slack_text : String
    pub webhook_body : WebhookBody
    pub summary : String
    pub body : String
    pub severity : Severity
    pub dedup_key : String
    pub is_resolved : Bool

  -- What both texts say of the rule and the value.
  abbrev pub condition_text : AlertRule ms → Num → List String → List String
  condition_text rule value rest =
      rule.metric
      ∷ " "
      ∷ rule.comparator
      ∷ " "
      ∷ text rule.threshold
      ∷ " (now "
      ∷ rounded_text value
      ∷ rest

  unfoldable pub alert_slack_text : AlertRule ms → Num → Bool → String
  alert_slack_text rule value fires = concat_text (
      "*memoturn alert* "
      ∷ (if fires then ":rotating_light: FIRING" else ":white_check_mark: RESOLVED")
      ∷ " — `"
      ∷ rule.name
      ∷ "` · "
      ∷ condition_text rule value (") · project: " ∷ rule.project_id ∷ []))

  unfoldable pub alert_message : AlertRule ms → Num → Bool → ChannelMessage
  alert_message rule value fires =
      let summary = concat_text (
        "memoturn alert "
        ∷ (if fires then "FIRING" else "RESOLVED")
        ∷ " — "
        ∷ rule.name
        ∷ ": "
        ∷ condition_text rule value (") · project " ∷ rule.project_id ∷ [])) in
      record {
        slack_text = alert_slack_text rule value fires;
        webhook_body = record {
          alert = rule.name;
          project_id = rule.project_id;
          metric = rule.metric;
          comparator = rule.comparator;
          threshold = rule.threshold;
          value = value;
          status = if fires then firing else resolved;
        };
        summary = summary;
        body = summary;
        severity = if fires then critical else info;
        dedup_key = append_text "memoturn-alert-" rule.id;
        is_resolved = not fires;
      }

  -- What the world does in one evaluation of a rule: each channel's answer to a message, whether the
  -- database stores the state, and the clock.
  pub record World : Type 0 where
    pub deliver : NotifyChannel → ChannelMessage → Bool
    pub stores : Bool
    pub now : ℕ

  unfoldable pub notify : World → List NotifyChannel → ChannelMessage → Bool
  notify w channels message =
      if is_empty channels then true else any (λ channel. w.deliver channel message) channels

  abbrev pub status_of : Option AlertState → AlertStatus
  status_of none = ok
  status_of (some s) = s.status

  -- The upsert of the state: a row takes what the update names, and a new one has the rest null.
  unfoldable pub put_status : Option AlertState → AlertStatus → Num → ℕ → AlertState
  put_status none status value now = record {
    status = status;
    last_value = some value;
    last_fired_at = if is_firing status then some now else none;
    last_resolved_at = if is_firing status then none else some now;
  }
  put_status (some s) status value now = record {
    status = status;
    last_value = some value;
    last_fired_at = if is_firing status then some now else s.last_fired_at;
    last_resolved_at = if is_firing status then s.last_resolved_at else some now;
  }

  unfoldable pub put_value : Option AlertState → Num → AlertState
  put_value none value = record {
    status = ok;
    last_value = some value;
    last_fired_at = none;
    last_resolved_at = none;
  }
  put_value (some s) value = record s { last_value = some value }

  -- What one evaluation leaves: the stored state, the message that was sent to the channels, if the rule
  -- has any, with whether one accepted it, and whether the rule counts as fired.
  pub record Outcome : Type 0 where
    pub state : Option AlertState
    pub sent : Option (ChannelMessage × Bool)
    pub fired : Bool

  -- A write that fails ends the evaluation of the rule and leaves the row as it was.
  abbrev pub stored : World → Option AlertState → AlertState → Option AlertState
  stored w before after = if w.stores then some after else before

  -- A transition: notify first, and change the status only when a channel accepted the message or there
  -- is none.
  unfoldable pub transition : World → AlertRule ms → Option AlertState → Num → Bool → Outcome
  unfolding notify put_status put_value
  transition w rule before value fires =
      let message = alert_message rule value fires in
      let channels = parse_channels rule.channels in
      let delivered = notify w channels message in
      record {
        state = stored w before (
            if delivered
            then put_status before (if fires then firing else resolved) value w.now
            else put_value before value);
        sent = if is_empty channels then none else some (message, delivered);
        fired = fires && delivered && w.stores;
      }

  unfoldable pub evaluate_rule :
      World → AlertRule ms → Option AlertState → Option (Num × Bool) → Outcome
  unfolding transition put_value
  evaluate_rule w rule before none = record { state = before; sent = none; fired = false }
  evaluate_rule w rule before (some (value, breached)) =
      let status = status_of before in
      if breached && not (is_firing status)
      then transition w rule before value true
      else if not breached && is_firing status
      then transition w rule before value false
      else record { state = stored w before (put_value before value); sent = none; fired = false }

  -- The sweep over the rules with their states, each rule in its own world.
  unfoldable pub evaluate_all_alerts :
      (AlertRule ms → Option (Num × Bool))
      → (AlertRule ms → World)
      → List (AlertRule ms × Option AlertState)
      → List Outcome × ℕ × ℕ
  unfolding evaluate_rule
  evaluate_all_alerts measured world [] = ([], 0, 0)
  evaluate_all_alerts measured world ((rule, before) ∷ rules) =
      let outcome = evaluate_rule (world rule) rule before (measured rule) in
      let later = evaluate_all_alerts measured world rules in
      (outcome ∷ later.0, 1 + later.1, if outcome.fired then 1 + later.2 else later.2)

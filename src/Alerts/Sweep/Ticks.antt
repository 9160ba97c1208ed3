-- ===== src/Alerts/Sweep/Ticks.antt =====
-- packages/server/src/alerts.ts: the ticks of the worker for one rule.
use memoturn.Prelude.{◌≡◌, refl, ℕ, Bool, List, [], ◌∷◌, ◌++◌, Option, none, some, false, is_empty}
use memoturn.Alerts.{Measures, AlertRule, parse_channels}
use memoturn.Alerts.Sweep.{
  AlertStatus, AlertState, ChannelMessage, World, status_of, put_status, put_value, evaluate_rule,
}

module _ (ms : Measures) where
  open ms use {Num}

  -- The rule names a Slack or webhook target.
  abbrev pub HasChannel : AlertRule ms → Type 0
  HasChannel rule = is_empty (parse_channels rule.channels) ≡ false

  -- A tick of one rule: the world, and what the tick measures.
  abbrev pub Tick : Type 0
  Tick = World ms × Option (Num × Bool)

  abbrev pub log : Option (ChannelMessage ms × Bool) → List (ChannelMessage ms × Bool)
  log none = []
  log (some m) = m ∷ []

  -- The ticks of one rule, one after another: all messages sent, with whether a channel accepted each,
  -- and the state at the end.
  unfoldable pub run_ticks :
      AlertRule ms
      → List Tick
      → Option (AlertState ms)
      → List (ChannelMessage ms × Bool) × Option (AlertState ms)
  run_ticks rule [] before = ([], before)
  run_ticks rule ((w, measured) ∷ ticks) before =
      let outcome = evaluate_rule ms w rule before measured in
      let later = run_ticks rule ticks outcome.state in (log outcome.sent ++ later.0, later.1)

  pub put_value-status :
      (before : Option (AlertState ms)) (value : Num)
      → (put_value ms before value).status ≡ status_of ms before
  unfolding put_value
  put_value-status none value = refl
  put_value-status (some s) value = refl

  pub put_status-status :
      (before : Option (AlertState ms)) (status : AlertStatus) (value : Num) (now : ℕ)
      → (put_status ms before status value now).status ≡ status
  unfolding put_status
  put_status-status none status value now = refl
  put_status-status (some s) status value now = refl

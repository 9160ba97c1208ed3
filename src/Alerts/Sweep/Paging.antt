-- ===== src/Alerts/Sweep/Paging.antt =====
-- packages/server/src/alerts.ts: the pages that a rule in breach sends until a channel takes one.
use memoturn.Prelude.{
  ◌≡◌, refl, ap, ap₂, ◌∙◌, Bool, true, false, List, [], ◌∷◌, ◌++◌, map, Option, none, some, All,
  Bool-cases, inl, inr,
}
use memoturn.Alerts.{Measures, AlertRule, parse_channels}
use memoturn.Alerts.Sweep.{
  firing, is_firing, AlertState, ChannelMessage, World, alert_message, notify, status_of, put_value,
  transition, stored, evaluate_rule,
}
use memoturn.Alerts.Sweep.Ticks.{
  Tick, HasChannel, log, run_ticks, put_value-status, put_status-status,
}

module _ (ms : Measures) where
  open ms use {Num}

  -- A tick that measures a breach of the rule, and its page.
  abbrev pub breaching : World ms × Num → Tick ms
  breaching (w, value) = (w, some (value, true))

  abbrev pub page : AlertRule ms → World ms × Num → ChannelMessage ms
  page rule (w, value) = alert_message ms rule value true

  -- No channel accepts the page of the tick.
  abbrev pub Refuses : AlertRule ms → World ms × Num → Type 0
  Refuses rule t = notify ms t.0 (parse_channels rule.channels) (page rule t) ≡ false

  put_value-firing :
      (w : World ms) (before : Option (AlertState ms)) (value : Num) (b : Bool)
      → is_firing (status_of ms before) ≡ b
      → is_firing (status_of ms (stored ms w before (put_value ms before value))) ≡ b
  put_value-firing w before value b e = elim (Bool-cases w.stores) [
    | inl stores ↦ rw stores (ap is_firing (put_value-status ms before value) ∙ e)
    | inr fails ↦ rw fails e
  ]

  firing_tick :
      (rule : AlertRule ms) (t : World ms × Num) (before : Option (AlertState ms))
      → is_firing (status_of ms before) ≡ true
      → let outcome = evaluate_rule ms t.0 rule before (breaching t).1 in
        (outcome.sent ≡ none) × (is_firing (status_of ms outcome.state) ≡ true)
  unfolding evaluate_rule
  firing_tick rule (w, value) before e = rw e (refl, put_value-firing w before value true e)

  refused_tick :
      (rule : AlertRule ms) (t : World ms × Num) (before : Option (AlertState ms))
      → HasChannel ms rule
      → is_firing (status_of ms before) ≡ false
      → Refuses rule t
      → let outcome = evaluate_rule ms t.0 rule before (breaching t).1 in
        (outcome.sent ≡ some (page rule t, false))
        × (is_firing (status_of ms outcome.state) ≡ false)
  unfolding evaluate_rule transition
  refused_tick rule (w, value) before listens e lost =
      rw e (rw (lost, listens) (refl, put_value-firing w before value false e))

  accepted_tick :
      (rule : AlertRule ms) (t : World ms × Num) (before : Option (AlertState ms))
      → HasChannel ms rule
      → is_firing (status_of ms before) ≡ false
      → notify ms t.0 (parse_channels rule.channels) (page rule t) ≡ true
      → t.0.stores ≡ true
      → let outcome = evaluate_rule ms t.0 rule before (breaching t).1 in
        (outcome.sent ≡ some (page rule t, true)) × (is_firing (status_of ms outcome.state) ≡ true)
  unfolding evaluate_rule transition
  accepted_tick rule (w, value) before listens e taken stores = rw e (
      rw (taken, stores, listens)
        (refl, ap is_firing (put_status-status ms before firing value w.now)))

  run_step :
      (rule : AlertRule ms) (t : Tick ms) (ticks : List (Tick ms)) (before : Option (AlertState ms))
      (m : Option (ChannelMessage ms × Bool)) (rest : List (ChannelMessage ms × Bool))
      → let outcome = evaluate_rule ms t.0 rule before t.1 in
        outcome.sent ≡ m
        → (run_ticks ms rule ticks outcome.state).0 ≡ rest
        → (run_ticks ms rule (t ∷ ticks) before).0 ≡ log ms m ++ rest
  unfolding run_ticks
  run_step rule t ticks before m rest sent later = ap₂ (λ x y. log ms x ++ y) sent later

  silent_while_firing :
      (rule : AlertRule ms) (later : List (World ms × Num)) (before : Option (AlertState ms))
      → is_firing (status_of ms before) ≡ true
      → (run_ticks ms rule (map breaching later) before).0 ≡ []
  unfolding run_ticks
  silent_while_firing rule [] before e = refl
  silent_while_firing rule (t ∷ later) before e =
      let (sent, on) = firing_tick rule t before e in
      run_step rule (breaching t) (map breaching later) before none [] sent
        (silent_while_firing rule later _ on)

  -- While a rule that has a channel and is not firing at first stays in breach, every tick sends the page
  -- again until a channel accepts it, and after that, if the database stored the status of that
  -- tick, no tick sends anything: the messages are one refused page for each tick before, and the
  -- accepted one.
  pub run_ticks-page :
      (rule : AlertRule ms) (refused : List (World ms × Num)) (t : World ms × Num)
      (later : List (World ms × Num)) (before : Option (AlertState ms))
      → HasChannel ms rule
      → is_firing (status_of ms before) ≡ false
      → All (Refuses rule) refused
      → notify ms t.0 (parse_channels rule.channels) (page rule t) ≡ true
      → t.0.stores ≡ true
      → (run_ticks ms rule (map breaching (refused ++ t ∷ later)) before).0
        ≡ map (λ u. (page rule u, false)) refused ++ (page rule t, true) ∷ []
  run_ticks-page rule [] t later before listens e all_refuse taken stores =
      let (sent, on) = accepted_tick rule t before listens e taken stores in
      run_step rule (breaching t) (map breaching later) before (some (page rule t, true)) [] sent
        (silent_while_firing rule later _ on)
  run_ticks-page rule (u ∷ refused) t later before listens e (lost, all_refuse) taken stores =
      let (sent, off) = refused_tick rule u before listens e lost in
      run_step rule (breaching u) (map breaching (refused ++ t ∷ later)) before
        (some (page rule u, false)) _ sent
        (run_ticks-page rule refused t later _ listens off all_refuse taken stores)

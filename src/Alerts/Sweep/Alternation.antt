-- ===== src/Alerts/Sweep/Alternation.antt =====
-- packages/server/src/alerts.ts: the messages of a rule change by turns.
use memoturn.Prelude.{
  ◌≡◌, refl, ap, ◌∙◌, subst, Bool, true, false, not, List, [], ◌∷◌, ◌++◌, Option, none, some, All,
  Bool-cases, inl, inr,
}
use memoturn.Alerts.{Measures, AlertRule, parse_channels}
use memoturn.Alerts.Sweep.{
  firing, resolved, is_firing, AlertState, ChannelMessage, World, Outcome, alert_message, notify,
  status_of, put_value, transition, stored, evaluate_rule,
}
use memoturn.Alerts.Sweep.Ticks.{
  Tick, HasChannel, log, run_ticks, put_value-status, put_status-status,
}

-- Whether the messages, one `true` for each FIRING and one `false` for each RESOLVED, change by turns
-- from a status, and the status that the last of them names.
abbrev pub Alternates : Bool → List Bool → Type 0
Alternates b [] = Unit
Alternates b (m ∷ ms) = (m ≡ not b) × Alternates m ms

abbrev pub last_of : Bool → List Bool → Bool
last_of b [] = b
last_of b (m ∷ ms) = last_of m ms

module _ (ms : Measures) where
  open ms use {Num}

  -- The kinds of the messages that a channel accepted.
  abbrev pub accepted : List (ChannelMessage ms × Bool) → List Bool
  accepted [] = []
  accepted ((m, true) ∷ rest) = not m.is_resolved ∷ accepted rest
  accepted ((m, false) ∷ rest) = accepted rest

  abbrev pub Stores : Tick ms → Type 0
  Stores (w, measured) = w.stores ≡ true

  -- What one evaluation does to the status, where the database stores.
  data Evaluated (before : Bool) (outcome : Outcome ms) : Type 0 where
    silent :
        accepted (log ms outcome.sent) ≡ []
        → is_firing (status_of ms outcome.state) ≡ before
        → Evaluated before outcome
    turned :
        accepted (log ms outcome.sent) ≡ not before ∷ []
        → is_firing (status_of ms outcome.state) ≡ not before
        → Evaluated before outcome

  module _ (w : World ms) (rule : AlertRule ms) (before : Option (AlertState ms)) (value : Num)
      (listens : HasChannel ms rule) where
    transition-Evaluated :
        (fires : Bool)
        → w.stores ≡ true
        → is_firing (status_of ms before) ≡ not fires
        → Evaluated (not fires) (transition ms w rule before value fires)
    unfolding transition alert_message
    transition-Evaluated true stores e =
        elim (Bool-cases
          (notify ms w (parse_channels rule.channels) (alert_message ms rule value true))) [
            | inl taken ↦
                rw (stores, taken, listens)
                  (turned refl (ap is_firing (put_status-status ms before firing value w.now)))
            | inr lost ↦
                rw (stores, lost, listens)
                  (silent refl (ap is_firing (put_value-status ms before value) ∙ e))
          ]
    transition-Evaluated false stores e =
        elim (Bool-cases
          (notify ms w (parse_channels rule.channels) (alert_message ms rule value false))) [
            | inl taken ↦
                rw (stores, taken, listens)
                  (turned refl (ap is_firing (put_status-status ms before resolved value w.now)))
            | inr lost ↦
                rw (stores, lost, listens)
                  (silent refl (ap is_firing (put_value-status ms before value) ∙ e))
          ]

    value-Evaluated :
        (b : Bool)
        → w.stores ≡ true
        → is_firing (status_of ms before) ≡ b
        → Evaluated b (record {
          state = stored ms w before (put_value ms before value);
          sent = none;
          fired = false;
        })
    value-Evaluated b stores e =
        rw stores (silent refl (ap is_firing (put_value-status ms before value) ∙ e))

    breach-Evaluated :
        (breached : Bool)
        → w.stores ≡ true
        → Evaluated
            (is_firing (status_of ms before))
            (evaluate_rule ms w rule before (some (value, breached)))
    unfolding evaluate_rule
    breach-Evaluated true stores = elim (Bool-cases (is_firing (status_of ms before))) [
      | inl on ↦ rw on (value-Evaluated true stores on)
      | inr off ↦ rw off (transition-Evaluated true stores off)
    ]
    breach-Evaluated false stores = elim (Bool-cases (is_firing (status_of ms before))) [
      | inl on ↦ rw on (transition-Evaluated false stores on)
      | inr off ↦ rw off (value-Evaluated false stores off)
    ]

  evaluate_rule-Evaluated :
      (t : Tick ms) (rule : AlertRule ms) (before : Option (AlertState ms))
      → HasChannel ms rule
      → Stores t
      → Evaluated (is_firing (status_of ms before)) (evaluate_rule ms t.0 rule before t.1)
  unfolding evaluate_rule
  evaluate_rule-Evaluated (w, none) rule before listens stores = silent refl refl
  evaluate_rule-Evaluated (w, some (value, breached)) rule before listens stores =
      breach-Evaluated w rule before value listens breached stores

  accepted-append :
      (xs ys : List (ChannelMessage ms × Bool)) → accepted (xs ++ ys) ≡ accepted xs ++ accepted ys
  accepted-append [] ys = refl
  accepted-append ((m, true) ∷ xs) ys = ap (◌∷◌ (not m.is_resolved)) (accepted-append xs ys)
  accepted-append ((m, false) ∷ xs) ys = accepted-append xs ys

  Alternates-Evaluated :
      {b : Bool} {outcome : Outcome ms}
      → Evaluated b outcome
      → (later : List Bool) (final : Bool)
      → Alternates (is_firing (status_of ms outcome.state)) later
        × (final ≡ last_of (is_firing (status_of ms outcome.state)) later)
      → Alternates b (accepted (log ms outcome.sent) ++ later)
        × (final ≡ last_of b (accepted (log ms outcome.sent) ++ later))
  Alternates-Evaluated (silent e f) later final h =
      rw e (subst (λ s. Alternates s later × (final ≡ last_of s later)) f h)
  Alternates-Evaluated (turned e f) later final h =
      let h' = subst (λ s. Alternates s later × (final ≡ last_of s later)) f h in
      rw e ((refl, h'.0), h'.1)

  -- While the database stores, and for a rule with a channel, the messages that a channel accepts change by turns, whatever the
  -- ticks measure and the channels answer: the first is a FIRING unless the rule was firing, no FIRING
  -- follows a FIRING and no RESOLVED a RESOLVED; and at the end the rule is firing just when the last
  -- accepted message, or the first status where there is none, says so.
  pub run_ticks-Alternates :
      (rule : AlertRule ms) (ticks : List (Tick ms)) (before : Option (AlertState ms))
      → HasChannel ms rule
      → All Stores ticks
      → let run = run_ticks ms rule ticks before in
        let start = is_firing (status_of ms before) in
        Alternates start (accepted run.0)
        × (is_firing (status_of ms run.1) ≡ last_of start (accepted run.0))
  unfolding run_ticks
  run_ticks-Alternates rule [] before listens stores = (tt, refl)
  run_ticks-Alternates rule (t ∷ ticks) before listens (s, stores) =
      let outcome = evaluate_rule ms t.0 rule before t.1 in
      rw (accepted-append (log ms outcome.sent)) (
        Alternates-Evaluated (evaluate_rule-Evaluated t rule before listens s) _ _
          (run_ticks-Alternates rule ticks outcome.state listens stores))

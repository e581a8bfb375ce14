-- ===== src/Alerting/Cooldown.antt =====
-- When a rule notifies, and how long it stays silent afterwards.
use n2api.Base.{
  ◌<◌, ◌≡◌, ◌≢◌, true, false, none, some, List, [], ◌∷◌, arith, nat_eq, string_eq, All, int_eq,
}
use n2api.Go.{Stdlib}
use n2api.Alerting.Model.{
  Time, Event, EventRules, firing, Decision, notify, Rule, RuleState, validate,
  is_alert_delivery_internal_action,
}
use n2api.Alerting.Evaluate.{
  says, trigger_filters, matches_trigger, matches_recovery, evaluate_recovery, cooling,
  evaluate_match, evaluate, add_seconds,
}

matches_trigger_says_true :
    (go : Stdlib) (ev : EventRules) (rule : Rule) (event : Event)
    → matches_trigger go ev rule event ≡ says true
    → (validate go ev rule ≡ none)
      × (rule.enabled ≡ true)
      × (trigger_filters rule event ≡ true)
      × (is_alert_delivery_internal_action event.action ≡ false)
unfolding matches_trigger
matches_trigger_says_true go ev rule event h = ground arith

evaluate_match-notify :
    (rule : Rule) (s : RuleState) (now : Time)
    → (evaluate_match rule s now).decision ≡ notify
    → ((s.phase ≡ firing) → cooling s now ≡ false)
      × ((evaluate_match rule s now).state.phase ≡ firing)
      × ((evaluate_match rule s now).state.cooldown_until
          ≡ some (add_seconds now rule.cooldown_seconds))
unfolding evaluate_match
evaluate_match-notify rule s now h = (ground arith, ground arith, ground arith)

evaluate_recovery-ne-notify :
    (rule : Rule) (s : RuleState) (now : Time) → (evaluate_recovery rule s now).decision ≢ notify
unfolding evaluate_recovery
evaluate_recovery-ne-notify rule s now = ground arith

pub notify_justified :
    (go : Stdlib) (ev : EventRules) (rule : Rule) (s : RuleState) (event : Event) (now : Time)
    → (evaluate go ev rule s event now).decision ≡ notify
    → (validate go ev rule ≡ none)
      × (rule.enabled ≡ true)
      × (trigger_filters rule event ≡ true)
      × (is_alert_delivery_internal_action event.action ≡ false)
      × (s.phase ≡ firing → cooling s now ≡ false)
      × ((evaluate go ev rule s event now).state.phase ≡ firing)
      × ((evaluate go ev rule s event now).state.cooldown_until
          ≡ some (add_seconds now rule.cooldown_seconds))
unfolding evaluate
notify_justified go ev rule s event now h = ground (
  arith,
  matches_trigger_says_true go ev rule event,
  evaluate_match-notify rule s now,
  evaluate_recovery-ne-notify rule s now,
)

-- Evaluate on one event after the other, each with its time: the decisions in their order.
unfoldable pub decisions :
    Stdlib → EventRules → Rule → RuleState → List (Event × Time) → List Decision
decisions go ev rule s [] = []
decisions go ev rule s ((event, now) ∷ rest) =
    let r = evaluate go ev rule s event now in r.decision ∷ decisions go ev rule r.state rest

module _ (go : Stdlib) (ev : EventRules) (rule : Rule) (until : Time) where
  abbrev pub IsDuring : Event × Time → Type 0
  IsDuring (event, now) = (now < until) × (matches_recovery go ev rule event ≢ says true)

  cooldown_step :
      (s : RuleState) (event : Event) (now : Time)
      → s.phase ≡ firing
      → s.cooldown_until ≡ some until
      → IsDuring (event, now)
      → ((evaluate go ev rule s event now).decision ≢ notify)
        × ((evaluate go ev rule s event now).state.phase ≡ firing)
        × ((evaluate go ev rule s event now).state.cooldown_until ≡ some until)
  unfolding evaluate evaluate_match
  cooldown_step s event now f c d = (ground arith, ground arith, ground arith)

  -- While the cooldown of a firing rule runs, no sequence of events makes it notify, as long as
  -- none of them is a recovery of the rule.
  pub cooldown_silent :
      (s : RuleState) (events : List (Event × Time))
      → s.phase ≡ firing
      → s.cooldown_until ≡ some until
      → All IsDuring events
      → All (λ d. d ≢ notify) (decisions go ev rule s events)
  unfolding decisions
  cooldown_silent s [] f c d = tt
  cooldown_silent s ((event, now) ∷ rest) f c d =
      let (quiet, f', c') = cooldown_step s event now f c d.0 in
      (quiet, cooldown_silent (evaluate go ev rule s event now).state rest f' c' d.1)

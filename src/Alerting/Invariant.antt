-- ===== src/Alerting/Invariant.antt =====
-- What Evaluate keeps of a rule's state, whatever events arrive.
use n2api.Base.{
  ◌<◌, true, false, is_some, pos, pos_part, ltb_ℤ, int_eq, nat_eq, string_eq, ltb, ◌≡◌, ◌⊎◌, arith,
}
use n2api.Go.{Stdlib}
use n2api.Alerting.Model.{
  Time, Event, EventRules, idle, firing, Rule, RuleState, validate, invalid_numbers,
}
use n2api.Alerting.Evaluate.{evaluate_recovery, evaluate_match, evaluate}

-- A state that a run of Evaluate can be in: an idle rule has seen fewer matches than it
-- aggregates, a firing one has no open window, and a window is open exactly while it has matches.
pub record IsCoherent (rule : Rule) (s : RuleState) : Type 0 where
  pub idle_below : s.phase ≡ idle → ltb_ℤ (pos s.window_match_count) rule.aggregation_count ≡ true
  pub firing_closed : s.phase ≡ firing → s.window_match_count ≡ 0
  pub window_counts : is_some s.window_started_at ≡ ltb 0 s.window_match_count
  pub firing_cools : s.phase ≡ firing → is_some s.cooldown_until ≡ true
  pub phase_known : (s.phase ≡ idle) ⊎ (s.phase ≡ firing)

valid_numbers :
    (go : Stdlib) (ev : EventRules) (rule : Rule)
    → is_some (validate go ev rule) ≡ false
    → invalid_numbers rule ≡ false
unfolding validate
valid_numbers go ev rule h = ground arith

counts_aggregate :
    (rule : Rule) → invalid_numbers rule ≡ false → 0 < pos_part rule.aggregation_count
unfolding invalid_numbers
counts_aggregate rule h = ground arith

evaluate_recovery-IsCoherent :
    (rule : Rule) (s : RuleState) (now : Time)
    → 0 < pos_part rule.aggregation_count
    → IsCoherent rule s
    → IsCoherent rule (evaluate_recovery rule s now).state
unfolding evaluate_recovery
evaluate_recovery-IsCoherent rule s now a v = ground arith

evaluate_match-IsCoherent :
    (rule : Rule) (s : RuleState) (now : Time)
    → IsCoherent rule s
    → IsCoherent rule (evaluate_match rule s now).state
unfolding evaluate_match
evaluate_match-IsCoherent rule s now v = ground arith

-- Whatever rule, event and clock Evaluate is called with, it keeps a coherent state coherent.
pub evaluate-IsCoherent :
    (go : Stdlib) (ev : EventRules) (rule : Rule) (s : RuleState) (event : Event) (now : Time)
    → IsCoherent rule s
    → IsCoherent rule (evaluate go ev rule s event now).state
unfolding evaluate
evaluate-IsCoherent go ev rule s event now v = ground (
  arith,
  valid_numbers go ev rule,
  counts_aggregate rule,
  evaluate_recovery-IsCoherent rule s now,
  evaluate_match-IsCoherent rule s now v,
)

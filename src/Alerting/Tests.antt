-- ===== src/Alerting/Tests.antt =====
-- Runs of an alert rule: two matches within a minute notify, then five minutes of silence.
use n2api.Base.{
  ◌+◌, ◌*◌, String, ◌≡◌, refl, ◌≢◌, inl, true, none, some, [], ◌∷◌, arith, nat_eq, string_eq, All,
  pos, int_eq,
}
use n2api.Samples.{plain_go}
use n2api.Alerting.Model.{
  Event, EventRules, idle, notify, suppress, recover, Rule, RuleState, validate, invalid_filters,
  invalid_numbers,
}
use n2api.Alerting.Evaluate.{
  trigger_filters, state_belongs, evaluate_match, evaluate_recovery, evaluate, second,
  deduplication_key_hash, matches_trigger, matches_recovery,
}
use n2api.Alerting.Invariant.{IsCoherent, evaluate-IsCoherent}
use n2api.Alerting.Cooldown.{decisions, notify_justified, cooldown_silent}
use n2api.Alerting.Aggregation.{aggregation_exact}

-- What a run of Evaluate computes with.
runs : Unit {0}
unfolding decisions evaluate deduplication_key_hash validate invalid_filters invalid_numbers
    state_belongs trigger_filters evaluate_match evaluate_recovery matches_trigger matches_recovery
runs = tt

abbrev all_known : EventRules
all_known = record {
  is_valid_category = λ c. true;
  is_valid_severity = λ c. true;
  is_known_action = λ c. true;
  validate_event = λ e. true;
}

abbrev login_rule : Rule
login_rule = record {
  id = pos 7;
  name = "logins";
  action_id = pos 3;
  enabled = true;
  category = "security";
  severity = "";
  event_action = "auth.login.failed";
  recovery_action = "auth.login.succeeded";
  aggregation_count = pos 2;
  aggregation_window_seconds = pos 60;
  cooldown_seconds = pos 300;
  deduplication_scope = "rule";
  notify_recovery = true;
}

abbrev failed_login : Event
failed_login = record {
  category = "security";
  severity = "warning";
  action = "auth.login.failed";
  target = record { kind = "user"; id = "1" };
}

abbrev good_login : Event
good_login = record {
  category = "security";
  severity = "info";
  action = "auth.login.succeeded";
  target = record { kind = "user"; id = "1" };
}

abbrev login_key : String
login_key = deduplication_key_hash plain_go login_rule failed_login

abbrev once : RuleState
once = record {
  rule_id = pos 7;
  deduplication_key_hash = login_key;
  phase = idle;
  window_started_at = some 10;
  window_match_count = 1;
  cooldown_until = none;
  last_matched_at = some 10;
  last_notified_at = none;
  last_recovered_at = none;
  updated_at = 10;
}

abbrev alarmed : RuleState
alarmed = (evaluate plain_go all_known login_rule once failed_login 20).state

once-IsCoherent : IsCoherent login_rule once
once-IsCoherent = record {
  idle_below = λ e. refl;
  firing_closed = λ e. cc;
  window_counts = refl;
  firing_cools = λ e. cc;
  phase_known = inl refl;
}

-- The second match notifies, the third is suppressed, a recovery is reported.
rule_life :
    decisions plain_go all_known login_rule once
      ((failed_login, 20) ∷ (failed_login, 30) ∷ (good_login, 40) ∷ [])
    ≡ notify ∷ suppress ∷ recover ∷ []
unfolding runs
rule_life = refl

evaluate-IsCoherent_example :
    IsCoherent login_rule (evaluate plain_go all_known login_rule once failed_login 20).state
evaluate-IsCoherent_example =
    evaluate-IsCoherent plain_go all_known login_rule once failed_login 20 once-IsCoherent

notifies_at_20 : (evaluate plain_go all_known login_rule once failed_login 20).decision ≡ notify
unfolding runs
notifies_at_20 = refl

notify_justified_example : trigger_filters login_rule failed_login ≡ true
notify_justified_example =
    (notify_justified plain_go all_known login_rule once failed_login 20 notifies_at_20).2

cooldown_silent_example :
    All
      (λ d. d ≢ notify)
      (decisions plain_go all_known login_rule alarmed
        ((failed_login, 30) ∷ (failed_login, 300 * second) ∷ []))
unfolding runs
cooldown_silent_example =
    cooldown_silent plain_go all_known login_rule (300 * second + 20) alarmed
      ((failed_login, 30) ∷ (failed_login, 300 * second) ∷ []) refl refl
      ((omega arith, λ e. cc), ((omega arith, λ e. cc), tt))

aggregation_exact_example :
    decisions plain_go all_known login_rule once ((failed_login, 20) ∷ []) ≡ notify ∷ []
unfolding runs
aggregation_exact_example =
    aggregation_exact plain_go all_known login_rule login_key 10 1 0 once ((failed_login, 20) ∷ [])
      (refl, refl)
      (record { of_rule = refl; of_key = refl; waiting = refl; opened = refl; counted = refl }) refl
      refl
      (
        record {
          triggers = refl;
          recovers_not = refl;
          same_key = refl;
          clock_set = omega arith;
          in_time = omega arith;
        },
        tt,
      )

-- ===== src/Alerting/Evaluate.antt =====
-- alerting/matcher.go: which events match a rule, and the step of a rule's state at an event.
use Prim.Native.String.{len, ◌++◌ as str_append}
use n2api.Base.{
  ℕ, ◌+◌, ◌*◌, String, Bool, true, false, not, ◌&&◌, ◌||◌, Option, none, some, is_some, List, [],
  ◌∷◌, ℤ, pos, pos_part, leb_ℤ, ltb_ℤ, int_eq, nat_eq, string_eq, ◌==◌, ltb, if◌then◌else◌,
}
use n2api.Go.{Stdlib}
use n2api.Alerting.Model.{
  Time, Event, EventRules, idle, firing, unknown, Decision, decide_none, notify, suppress, recover,
  Error, invalid_input, Rule, RuleState, is_alert_delivery_internal_action, validate,
}

-- A Go call that returns a Boolean and an error.
pub data Answer : Type 0 where
  fails : Error → Answer
  says : Bool → Answer

-- The guards that MatchesTrigger and MatchesRecovery share: errors, internal actions, disabled.
unfoldable pub guarded : Stdlib → EventRules → Rule → Event → Bool → Answer
guarded go ev rule event answer =
    if is_some (validate go ev rule)
    then fails invalid_input
    else if not (ev.validate_event event)
    then fails invalid_input
    else if is_alert_delivery_internal_action event.action
    then says false
    else if not rule.enabled
    then says false
    else says answer

unfoldable pub trigger_filters : Rule → Event → Bool
trigger_filters rule event =
    (rule.category == "" || rule.category == event.category)
    && (rule.severity == "" || rule.severity == event.severity)
    && (rule.event_action == "" || rule.event_action == event.action)

unfoldable pub matches_trigger : Stdlib → EventRules → Rule → Event → Answer
unfolding guarded
matches_trigger go ev rule event = guarded go ev rule event (trigger_filters rule event)

unfoldable pub matches_recovery : Stdlib → EventRules → Rule → Event → Answer
unfolding guarded
matches_recovery go ev rule event =
    guarded go ev rule event
      (not (rule.recovery_action == "") && rule.recovery_action == event.action)

-- Each component goes into the digest behind its length in eight bytes.
write_components : Stdlib → List String → String
write_components go [] = ""
write_components go (value ∷ rest) =
    str_append (str_append (go.uint64_be (len value)) value) (write_components go rest)

unfoldable pub deduplication_key_hash : Stdlib → Rule → Event → String
unfolding write_components
deduplication_key_hash go rule event = go.sha256_hex (
    write_components go (
      "n2api-alert-deduplication-v1"
      ∷ go.format_int rule.id
      ∷ rule.deduplication_scope
      ∷ (if rule.deduplication_scope == "target"
          then event.target.kind ∷ event.target.id ∷ []
          else [])))

abbrev pub second : ℕ
second = 1_000_000_000

-- Time.Add of a number of seconds that validate keeps from being negative.
abbrev pub add_seconds : Time → ℤ → Time
add_seconds t s = t + pos_part s * second

unfoldable pub aggregation_window_expired : RuleState → Rule → Time → Bool
aggregation_window_expired state rule now = elim state.window_started_at [
  | none ↦ true
  | some started ↦
      if rule.aggregation_window_seconds == pos 0
      then false
      else ltb (add_seconds started rule.aggregation_window_seconds) now
]

unfoldable pub mark_notified : RuleState → Time → ℤ → RuleState
mark_notified state now cooldown_seconds = record state {
  last_notified_at = some now;
  cooldown_until = some (add_seconds now cooldown_seconds);
  updated_at = now;
}

pub record Evaluated : Type 0 where
  pub state : RuleState
  pub decision : Decision
  pub error : Option Error

abbrev rejected : RuleState → Evaluated
rejected state = record { state = state; decision = decide_none; error = some invalid_input }

abbrev decided : RuleState → Decision → Evaluated
decided state decision = record { state = state; decision = decision; error = none }

-- The branch for a recovery event.
unfoldable pub evaluate_recovery : Rule → RuleState → Time → Evaluated
evaluate_recovery rule state now = elim state.phase [
  | firing ↦
      decided
        (record state {
          phase = idle;
          window_started_at = none;
          window_match_count = 0;
          cooldown_until = none;
          last_recovered_at = some now;
          updated_at = now;
        })
        (if rule.notify_recovery then recover else decide_none)
  | _ ↦ decided state decide_none
]

-- Whether the clock still stands before the end of the cooldown.
unfoldable pub cooling : RuleState → Time → Bool
cooling state now = elim state.cooldown_until [ none ↦ false | some until ↦ ltb now until ]

-- The window after one more match: a new one, or the running one with a higher count.
unfoldable pub count_match : Rule → RuleState → Time → RuleState
unfolding aggregation_window_expired
count_match rule state now =
    if not (is_some state.window_started_at) || aggregation_window_expired state rule now
    then record state { window_started_at = some now; window_match_count = 1 }
    else record state { window_match_count = state.window_match_count + 1 }

-- The end of Evaluate: a full window notifies and makes the rule fire.
unfoldable pub close_window : Rule → RuleState → Time → Evaluated
unfolding mark_notified
close_window rule state now =
    if ltb_ℤ (pos state.window_match_count) rule.aggregation_count
    then decided state decide_none
    else decided
        (mark_notified
          (record state { phase = firing; window_started_at = none; window_match_count = 0 }) now
          rule.cooldown_seconds)
        notify

-- The branch for an event that matched, from the two stamps onward.
unfoldable pub evaluate_match : Rule → RuleState → Time → Evaluated
unfolding cooling count_match close_window mark_notified
evaluate_match rule state now =
    let stamped : RuleState = record state { last_matched_at = some now; updated_at = now } in
    elim state.phase [
      | firing ↦
          if cooling stamped now
          then decided stamped suppress
          else decided (mark_notified stamped now rule.cooldown_seconds) notify
      | _ ↦ close_window rule (count_match rule stamped now) now
    ]

-- The check of Evaluate that the state belongs to the rule and the event.
unfoldable pub state_belongs : Stdlib → Rule → RuleState → Event → Bool
state_belongs go rule state event =
    state.rule_id == rule.id
    && state.deduplication_key_hash == deduplication_key_hash go rule event
    && elim state.phase [ unknown _ ↦ false | _ ↦ true ]

unfoldable pub evaluate : Stdlib → EventRules → Rule → RuleState → Event → Time → Evaluated
unfolding matches_recovery matches_trigger
evaluate go ev rule state event now =
    if is_some (validate go ev rule) || leb_ℤ rule.id (pos 0) || now == 0
    then rejected state
    else if not (state_belongs go rule state event)
    then rejected state
    else elim (matches_recovery go ev rule event) [
      | fails _ ↦ rejected state
      | says true ↦ evaluate_recovery rule state now
      | says false ↦ elim (matches_trigger go ev rule event) [
        | fails _ ↦ rejected state
        | says true ↦ evaluate_match rule state now
        | says false ↦ decided state decide_none
      ]
    ]

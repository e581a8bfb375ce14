-- ===== src/Alerting/Model.antt =====
-- alerting/model.go: rules, their state, and the validation of a rule.
-- Times are nanoseconds since Go's zero time, so 0 is the time for which IsZero holds.
use Prim.Native.String.{len}
use n2api.Base.{
  ℕ, String, Bool, true, not, ◌&&◌, ◌||◌, Option, none, some, ℤ, pos, ltb_ℤ, leb_ℤ, int_eq,
  string_eq, ◌==◌, ltb, if◌then◌else◌,
}
use n2api.Go.{Stdlib}

abbrev pub Time : Type 0
Time = ℕ

pub record Target : Type 0 where
  pub kind : String  -- Type
  pub id : String

-- The fields of systemevent.Event that alerting reads.
pub record Event : Type 0 where
  pub category : String
  pub severity : String
  pub action : String
  pub target : Target

-- What alerting asks of systemevent: its tables of names, and ValidateEvent.
pub record EventRules : Type 0 where
  pub is_valid_category : String → Bool
  pub is_valid_severity : String → Bool
  pub is_known_action : String → Bool
  pub validate_event : Event → Bool

abbrev pub max_rule_name_length : ℕ
max_rule_name_length = 128

abbrev pub max_aggregation_count : ℤ
max_aggregation_count = pos 1024

abbrev pub max_aggregation_window_seconds : ℤ
max_aggregation_window_seconds = pos 86400

abbrev pub max_cooldown_seconds : ℤ
max_cooldown_seconds = pos 604800

pub data StatePhase : Type 0 where
  idle firing : StatePhase
  -- any other text
  unknown : String → StatePhase

pub data Decision : Type 0 where
  decide_none notify suppress recover : Decision

pub data Error : Type 0 where
  invalid_input : Error

pub record Rule : Type 0 where
  pub id : ℤ
  pub name : String
  pub action_id : ℤ
  pub enabled : Bool
  pub category : String
  pub severity : String
  pub event_action : String
  pub recovery_action : String
  pub aggregation_count : ℤ
  pub aggregation_window_seconds : ℤ
  pub cooldown_seconds : ℤ
  pub deduplication_scope : String
  pub notify_recovery : Bool

pub record RuleState : Type 0 where
  pub rule_id : ℤ
  pub deduplication_key_hash : String
  pub phase : StatePhase
  pub window_started_at : Option Time
  pub window_match_count : ℕ
  pub cooldown_until : Option Time
  pub last_matched_at : Option Time
  pub last_notified_at : Option Time
  pub last_recovered_at : Option Time
  pub updated_at : Time

-- IsAlertDeliveryInternalAction of systemevent/event.go.
unfoldable pub is_alert_delivery_internal_action : String → Bool
is_alert_delivery_internal_action action =
    action == "alert_delivery.tested"
    || action == "alert_delivery.failed"
    || action == "alert_delivery.queue_overflow"

unfoldable pub invalid_name : Stdlib → String → ℕ → Bool
invalid_name go value max_length =
    if go.trim_space value == "" || ltb max_length (len value) then true else go.has_control value

-- The checks of Rule.validate up to the actions, and those on the numbers.
unfoldable pub invalid_filters : Stdlib → EventRules → Rule → Bool
unfolding is_alert_delivery_internal_action invalid_name
invalid_filters go ev rule =
    (invalid_name go rule.name max_rule_name_length || leb_ℤ rule.action_id (pos 0))
    || (rule.category == "" && rule.severity == "" && rule.event_action == "")
    || (not (rule.category == "") && not (ev.is_valid_category rule.category))
    || (not (rule.severity == "") && not (ev.is_valid_severity rule.severity))
    || (not (rule.event_action == "") && not (ev.is_known_action rule.event_action))
    || (not (rule.recovery_action == "") && not (ev.is_known_action rule.recovery_action))
    || (is_alert_delivery_internal_action rule.event_action
        || is_alert_delivery_internal_action rule.recovery_action)
    || (not (rule.event_action == "") && rule.recovery_action == rule.event_action)
    || (rule.notify_recovery && rule.recovery_action == "")

unfoldable pub invalid_numbers : Rule → Bool
invalid_numbers rule =
    (ltb_ℤ rule.aggregation_count (pos 1) || ltb_ℤ max_aggregation_count rule.aggregation_count)
    || (ltb_ℤ rule.aggregation_window_seconds (pos 0)
        || ltb_ℤ max_aggregation_window_seconds rule.aggregation_window_seconds)
    || (ltb_ℤ (pos 1) rule.aggregation_count && rule.aggregation_window_seconds == pos 0)
    || (ltb_ℤ rule.cooldown_seconds (pos 0) || ltb_ℤ max_cooldown_seconds rule.cooldown_seconds)

unfoldable pub validate : Stdlib → EventRules → Rule → Option Error
validate go ev rule =
    if invalid_filters go ev rule
    then some invalid_input
    else if invalid_numbers rule
    then some invalid_input
    else if not (rule.deduplication_scope == "rule") && not (rule.deduplication_scope == "target")
    then some invalid_input
    else none

-- ===== src/Admin/Settings/Runtime.antt =====
-- admin/gateway_settings_runtime.go, and normalizeGatewaySettings of admin/service.go. Times are
-- nanoseconds since Go's zero time.
use n2api.Base.{
  ℕ, ◌+◌, String, Bool, true, false, not, ◌&&◌, ◌||◌, Option, none, some, ltb, nat_beq,
  if◌then◌else◌, ◌==◌, nat_eq, string_eq, get_or, ℤ, pos, negsuc, ltb_ℤ, int_eq, bool_eq,
}

pub record GatewaySettings : Type 0 where
  pub max_concurrent_gateway_requests : ℤ
  pub max_concurrent_requests_per_account : ℤ
  pub max_concurrent_requests_per_key : ℤ
  pub requests_per_minute_per_key : ℤ
  pub tokens_per_minute_per_key : ℤ
  pub provider_account_auto_test_enabled : Bool
  pub provider_account_auto_test_interval_seconds : ℤ
  pub request_log_retention_days : ℤ

abbrev pub is_negative : ℤ → Bool
is_negative (pos n) = false
is_negative (negsuc n) = true

abbrev pub any_negative : GatewaySettings → Bool
any_negative s =
    is_negative s.max_concurrent_gateway_requests
    || is_negative s.max_concurrent_requests_per_account
    || is_negative s.max_concurrent_requests_per_key
    || is_negative s.requests_per_minute_per_key
    || is_negative s.tokens_per_minute_per_key
    || is_negative s.provider_account_auto_test_interval_seconds
    || is_negative s.request_log_retention_days

abbrev pub with_interval : GatewaySettings → GatewaySettings
with_interval s =
    if s.provider_account_auto_test_interval_seconds == pos 0
    then record s { provider_account_auto_test_interval_seconds = pos 300 }
    else s

-- normalizeGatewaySettings; none is ErrInvalidInput.
unfoldable pub normalize_gateway_settings : GatewaySettings → Option GatewaySettings
normalize_gateway_settings s =
    let t = with_interval s in
    if any_negative s
    then none
    else if t.provider_account_auto_test_enabled
        && ltb_ℤ t.provider_account_auto_test_interval_seconds (pos 60)
    then none
    else some t

abbrev pub same_settings : GatewaySettings → GatewaySettings → Bool
same_settings a b =
    a.max_concurrent_gateway_requests == b.max_concurrent_gateway_requests
    && a.max_concurrent_requests_per_account == b.max_concurrent_requests_per_account
    && a.max_concurrent_requests_per_key == b.max_concurrent_requests_per_key
    && a.requests_per_minute_per_key == b.requests_per_minute_per_key
    && a.tokens_per_minute_per_key == b.tokens_per_minute_per_key
    && bool_eq a.provider_account_auto_test_enabled b.provider_account_auto_test_enabled
    && a.provider_account_auto_test_interval_seconds
      == b.provider_account_auto_test_interval_seconds
    && a.request_log_retention_days == b.request_log_retention_days

pub record SettingsRecord : Type 0 where
  pub settings : GatewaySettings
  pub updated_at : ℕ

pub record Snapshot : Type 0 where
  pub settings : GatewaySettings
  pub version : Option ℕ
  pub loaded_at : Option ℕ
  pub last_refresh_attempt_at : Option ℕ
  pub last_refresh_succeeded_at : Option ℕ
  pub last_refresh_failed_at : Option ℕ
  pub last_error_code : String
  pub consecutive_failures : ℕ
  pub refresh_successes : ℕ
  pub refresh_failures : ℕ
  pub source : String
  pub valid : Bool
  pub stale : Bool
  pub persisted_loaded : Bool

-- GatewaySettingsSnapshot{}
abbrev pub empty_snapshot : Snapshot
empty_snapshot = record {
  settings = record {
    max_concurrent_gateway_requests = pos 0;
    max_concurrent_requests_per_account = pos 0;
    max_concurrent_requests_per_key = pos 0;
    requests_per_minute_per_key = pos 0;
    tokens_per_minute_per_key = pos 0;
    provider_account_auto_test_enabled = false;
    provider_account_auto_test_interval_seconds = pos 0;
    request_log_retention_days = pos 0;
  };
  version = none;
  loaded_at = none;
  last_refresh_attempt_at = none;
  last_refresh_succeeded_at = none;
  last_refresh_failed_at = none;
  last_error_code = "";
  consecutive_failures = 0;
  refresh_successes = 0;
  refresh_failures = 0;
  source = "";
  valid = false;
  stale = false;
  persisted_loaded = false;
}

-- The fields of GatewaySettingsRuntime that change, and the defaults. `refresh_due` says whether
-- the channel refreshTrigger holds a value.
pub record Runtime : Type 0 where
  pub defaults : GatewaySettings
  pub snapshot : Option Snapshot
  pub refresh_due : Bool

pub data SettingsError : Type 0 where
  settings_unavailable settings_invalid cancelled : SettingsError

-- The four ends of LoadGatewaySettings.
pub data Loaded : Type 0 where
  loaded : SettingsRecord → Loaded
  not_found load_invalid load_failed : Loaded

-- cloneGatewaySettingsSnapshot
abbrev pub clone_snapshot : Option Snapshot → Snapshot
clone_snapshot current = get_or current empty_snapshot

abbrev pub store_snapshot : Runtime → Snapshot → Runtime
store_snapshot r next = record r { snapshot = some next }

unfoldable pub publish_committed : Runtime → SettingsRecord → ℕ → Runtime
publish_committed r rec now = store_snapshot r (record (clone_snapshot r.snapshot) {
  settings = rec.settings;
  version = some rec.updated_at;
  loaded_at = some now;
  last_error_code = "";
  consecutive_failures = 0;
  source = "persisted";
  valid = true;
  stale = false;
  persisted_loaded = true;
})

-- The start of publishDefaultSuccess: the defaults where there are no valid settings.
abbrev pub or_defaults : Runtime → Snapshot → ℕ → Snapshot
or_defaults r s now =
    if not s.valid then record s { settings = r.defaults; loaded_at = some now } else s

unfoldable pub publish_default_success : Runtime → ℕ → Runtime
publish_default_success r now =
    let next = or_defaults r (clone_snapshot r.snapshot) now in
    store_snapshot r (record next {
      last_refresh_attempt_at = some now;
      last_refresh_succeeded_at = some now;
      last_error_code = "";
      consecutive_failures = 0;
      refresh_successes = next.refresh_successes + 1;
      source = "startup-default";
      valid = true;
      stale = false;
    })

unfoldable pub publish_success : Runtime → SettingsRecord → String → Bool → ℕ → Runtime
publish_success r rec source persisted now =
    let next = clone_snapshot r.snapshot in
    store_snapshot r (record next {
      settings = rec.settings;
      version = some rec.updated_at;
      loaded_at = some now;
      last_refresh_attempt_at = some now;
      last_refresh_succeeded_at = some now;
      last_error_code = "";
      consecutive_failures = 0;
      refresh_successes = next.refresh_successes + 1;
      source = source;
      valid = true;
      stale = false;
      persisted_loaded = next.persisted_loaded || persisted;
    })

unfoldable pub publish_failure : Runtime → String → ℕ → Runtime
publish_failure r error_code now =
    let next = clone_snapshot r.snapshot in
    store_snapshot r (record next {
      last_refresh_attempt_at = some now;
      last_refresh_failed_at = some now;
      last_error_code = error_code;
      consecutive_failures = next.consecutive_failures + 1;
      refresh_failures = next.refresh_failures + 1;
      stale = next.valid;
      source = if next.valid then "last-known-good" else next.source;
    })

unfoldable pub publish_version_conflict : Runtime → Runtime
publish_version_conflict r =
    let next = clone_snapshot r.snapshot in
    store_snapshot r (record next {
      last_error_code = "gateway_settings_version_conflict";
      stale = next.valid;
      source = if next.valid then "last-known-good" else next.source;
    })

abbrev pub schedule_refresh : Runtime → Runtime
schedule_refresh r = record r { refresh_due = true }

-- `record.UpdatedAt.Before(*current.Version)`, and Equal, where there is a version
abbrev pub before_version : ℕ → Option Snapshot → Bool
before_version at current = elim (clone_snapshot current).version [
  | none ↦ false
  | some v ↦ ltb at v
]

abbrev pub at_version : ℕ → Option Snapshot → Bool
at_version at current = elim (clone_snapshot current).version [
  | none ↦ false
  | some v ↦ nat_beq at v
]

-- PublishPersisted
unfoldable pub publish_persisted : Runtime → SettingsRecord → ℕ → Runtime × Option SettingsError
unfolding publish_committed publish_version_conflict
publish_persisted r rec now = elim (normalize_gateway_settings rec.settings) [
  | none ↦ (r, some settings_invalid)
  | some settings ↦
      if nat_beq rec.updated_at 0
      then (r, some settings_invalid)
      else if before_version rec.updated_at r.snapshot
      then (r, none)
      else if at_version rec.updated_at r.snapshot
          && not (same_settings settings (clone_snapshot r.snapshot).settings)
      then (schedule_refresh (publish_version_conflict r), some settings_invalid)
      else (publish_committed r (record rec { settings = settings }) now, none)
]

-- GetGatewaySettings
unfoldable pub get_gateway_settings : Runtime → Option GatewaySettings
get_gateway_settings r = elim r.snapshot [
  | none ↦ none
  | some s ↦ if s.valid then some s.settings else none
]

-- The end of refresh, for a record that was loaded.
unfoldable pub refresh_loaded : Runtime → Bool → SettingsRecord → ℕ → Runtime × Option SettingsError
unfolding publish_failure publish_success
refresh_loaded r initial rec now = elim (normalize_gateway_settings rec.settings) [
  | none ↦ (publish_failure r "gateway_settings_invalid" now, some settings_invalid)
  | some settings ↦
      if nat_beq rec.updated_at 0
      then (publish_failure r "gateway_settings_invalid" now, some settings_invalid)
      else if not initial && before_version rec.updated_at r.snapshot
      then (publish_failure r "gateway_settings_version_conflict" now, some settings_invalid)
      else (publish_success r (record rec { settings = settings }) "persisted" true now, none)
]

-- refresh, once LoadGatewaySettings has returned; `done` says whether the context has ended.
unfoldable pub refresh : Runtime → Bool → Bool → Loaded → ℕ → Runtime × Option SettingsError
unfolding publish_failure publish_default_success refresh_loaded
refresh r initial done result now = if done then (r, some cancelled) else elim result [
  | not_found ↦
      if (clone_snapshot r.snapshot).persisted_loaded
      then (publish_failure r "gateway_settings_missing" now, some settings_unavailable)
      else (publish_default_success r now, none)
  | load_invalid ↦ (publish_failure r "gateway_settings_invalid" now, some settings_invalid)
  | load_failed ↦ (publish_failure r "gateway_settings_load_failed" now, some settings_unavailable)
  | loaded rec ↦ refresh_loaded r initial rec now
]

-- NewGatewaySettingsRuntime, once it has a loader.
unfoldable pub new_runtime : GatewaySettings → Option Runtime
new_runtime defaults = elim (normalize_gateway_settings defaults) [
  | none ↦ none
  | some settings ↦ some (record { defaults = settings; snapshot = none; refresh_due = false })
]

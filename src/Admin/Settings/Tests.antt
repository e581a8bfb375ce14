-- ===== src/Admin/Settings/Tests.antt =====
-- Runs of the gateway's settings at run time.
use n2api.Base.{
  ℕ, ◌≤◌, ◌≡◌, refl, true, false, none, some, List, [], ◌∷◌, arith, nat_eq, string_eq, is_some, pos,
  int_eq,
}
use n2api.Admin.Settings.Runtime.{
  GatewaySettings, normalize_gateway_settings, SettingsRecord, Runtime, settings_invalid, loaded,
  load_failed, publish_committed, publish_success, publish_failure, publish_persisted,
  get_gateway_settings, refresh_loaded, refresh, new_runtime,
}
use n2api.Admin.Settings.Sound.{IsSound, Normal}
use n2api.Admin.Settings.Version.{
  Operation, publish, reload, operate_all, version_of, version_never_back, served-Normal,
  failed_refresh_keeps, published_in_force,
}

-- Settings that differ in the number of requests a minute.
abbrev per_minute : ℕ → GatewaySettings
per_minute n = record {
  max_concurrent_gateway_requests = pos 8;
  max_concurrent_requests_per_account = pos 2;
  max_concurrent_requests_per_key = pos 2;
  requests_per_minute_per_key = pos n;
  tokens_per_minute_per_key = pos 0;
  provider_account_auto_test_enabled = true;
  provider_account_auto_test_interval_seconds = pos 300;
  request_log_retention_days = pos 30;
}

abbrev saved : ℕ → ℕ → SettingsRecord
saved n at = record { settings = per_minute n; updated_at = at }

abbrev fresh : Runtime
fresh = record { defaults = per_minute 10; snapshot = none; refresh_due = false }

-- The settings that were saved at time 100, in force.
abbrev running : Runtime
running = (refresh fresh true false (loaded (saved 20 100)) 110).0

-- A newer record is published, the database fails, and an older record is loaded.
abbrev history : List Operation
history =
    publish (saved 30 200) 210
    ∷ reload load_failed false 220
    ∷ reload (loaded (saved 20 100)) false 230
    ∷ []

newest_served : get_gateway_settings (operate_all running history) ≡ some (per_minute 30)
unfolding get_gateway_settings refresh refresh_loaded publish_success publish_failure
    publish_persisted publish_committed normalize_gateway_settings
newest_served = refl

made : new_runtime (per_minute 10) ≡ some fresh
unfolding new_runtime normalize_gateway_settings
made = refl

fresh-IsSound : IsSound fresh
unfolding normalize_gateway_settings
fresh-IsSound = ground arith

version_never_back_example : version_of running ≤ version_of (operate_all running history)
version_never_back_example = version_never_back running history

served-Normal_example : Normal (per_minute 30)
served-Normal_example =
    served-Normal (per_minute 10) fresh false (loaded (saved 20 100)) 110 history (per_minute 30)
      made newest_served

old_refused : (refresh running false false (loaded (saved 15 90)) 300).1 ≡ some settings_invalid
unfolding refresh refresh_loaded publish_success normalize_gateway_settings
old_refused = refl

failed_refresh_keeps_example :
    (get_gateway_settings (refresh running false false (loaded (saved 15 90)) 300).0
      ≡ get_gateway_settings running)
    × (version_of (refresh running false false (loaded (saved 15 90)) 300).0 ≡ version_of running)
failed_refresh_keeps_example =
    failed_refresh_keeps running false false (loaded (saved 15 90)) 300 settings_invalid old_refused

new_normal : normalize_gateway_settings (per_minute 30) ≡ some (per_minute 30)
unfolding normalize_gateway_settings
new_normal = refl

new_taken : (publish_persisted running (saved 30 200) 210).1 ≡ none
unfolding publish_persisted publish_committed refresh refresh_loaded publish_success
    normalize_gateway_settings
new_taken = refl

new_newer : version_of running ≤ 200
unfolding refresh refresh_loaded publish_success normalize_gateway_settings
new_newer = omega arith

published_in_force_example :
    (get_gateway_settings (publish_persisted running (saved 30 200) 210).0 ≡ some (per_minute 30))
    × (version_of (publish_persisted running (saved 30 200) 210).0 ≡ 200)
published_in_force_example =
    published_in_force running (saved 30 200) 210 (per_minute 30) new_normal new_taken new_newer

running_serves : is_some (get_gateway_settings running) ≡ true
unfolding get_gateway_settings refresh refresh_loaded publish_success normalize_gateway_settings
running_serves = refl

-- ===== src/Admin/Settings/Sound.antt =====
-- What holds of the settings in force after any operation of admin/gateway_settings_runtime.go.
use n2api.Base.{
  ℕ, String, ◌≡◌, inl, inr, Bool, true, some, arith, nat_eq, string_eq, Option-cases, is_some,
  int_eq,
}
use n2api.Admin.Settings.Runtime.{
  GatewaySettings, normalize_gateway_settings, SettingsRecord, Runtime, Loaded, loaded, not_found,
  load_invalid, load_failed, clone_snapshot, publish_committed, publish_default_success,
  publish_success, publish_failure, publish_version_conflict, publish_persisted, refresh_loaded,
  refresh,
}
use n2api.Admin.Settings.Normal.{normalize_gateway_settings-again}

abbrev pub Normal : GatewaySettings → Type 0
Normal s = normalize_gateway_settings s ≡ some s

-- The settings that are valid are normal ones; persisted settings stay valid and have a version;
-- only valid settings are stale.
pub record IsSound (r : Runtime) : Type 0 where
  pub defaults_normal : Normal r.defaults
  pub settings_normal :
      (clone_snapshot r.snapshot).valid ≡ true → Normal (clone_snapshot r.snapshot).settings
  pub persisted_valid :
      (clone_snapshot r.snapshot).persisted_loaded ≡ true → (clone_snapshot r.snapshot).valid ≡ true
  pub persisted_versioned :
      (clone_snapshot r.snapshot).persisted_loaded ≡ true
      → is_some (clone_snapshot r.snapshot).version ≡ true
  pub stale_valid :
      (clone_snapshot r.snapshot).stale ≡ true → (clone_snapshot r.snapshot).valid ≡ true

publish_failure-IsSound :
    (r : Runtime) (code : String) (now : ℕ) → IsSound r → IsSound (publish_failure r code now)
unfolding publish_failure
publish_failure-IsSound r code now h = ground arith

publish_default_success-IsSound :
    (r : Runtime) (now : ℕ) → IsSound r → IsSound (publish_default_success r now)
unfolding publish_default_success
publish_default_success-IsSound r now h = ground arith

refresh_loaded-IsSound :
    (r : Runtime) (initial : Bool) (rec : SettingsRecord) (now : ℕ)
    → IsSound r
    → IsSound (refresh_loaded r initial rec now).0
unfolding refresh_loaded publish_success
refresh_loaded-IsSound r initial rec now h =
    elim (Option-cases (normalize_gateway_settings rec.settings)) [
      | inl e ↦ ground (arith, e, publish_failure-IsSound r "gateway_settings_invalid" now h)
      | inr (t, e) ↦ ground (
        arith,
        e,
        normalize_gateway_settings-again rec.settings t e,
        publish_failure-IsSound r "gateway_settings_invalid" now h,
        publish_failure-IsSound r "gateway_settings_version_conflict" now h,
      )
    ]

-- Whatever LoadGatewaySettings returns, refresh keeps the settings sound.
pub refresh-IsSound :
    (r : Runtime) (initial done : Bool) (result : Loaded) (now : ℕ)
    → IsSound r
    → IsSound (refresh r initial done result now).0
unfolding refresh
refresh-IsSound r initial done (loaded rec) now h =
    ground (arith, refresh_loaded-IsSound r initial rec now h)
refresh-IsSound r initial done not_found now h = ground (
  arith,
  publish_failure-IsSound r "gateway_settings_missing" now h,
  publish_default_success-IsSound r now h,
)
refresh-IsSound r initial done load_invalid now h =
    ground (arith, publish_failure-IsSound r "gateway_settings_invalid" now h)
refresh-IsSound r initial done load_failed now h =
    ground (arith, publish_failure-IsSound r "gateway_settings_load_failed" now h)

-- PublishPersisted keeps the settings sound on every branch.
pub publish_persisted-IsSound :
    (r : Runtime) (rec : SettingsRecord) (now : ℕ)
    → IsSound r
    → IsSound (publish_persisted r rec now).0
unfolding publish_persisted publish_committed publish_version_conflict
publish_persisted-IsSound r rec now h =
    elim (Option-cases (normalize_gateway_settings rec.settings)) [
      | inl e ↦ ground (arith, e)
      | inr (t, e) ↦ ground (arith, e, normalize_gateway_settings-again rec.settings t e)
    ]

-- ===== src/Admin/Settings/Version.antt =====
-- How the settings in force of admin/gateway_settings_runtime.go change along its operations.
use n2api.Base.{
  ℕ, ◌≤◌, ◌≡◌, inl, inr, Bool, true, false, Option, none, some, List, [], ◌∷◌, arith, nat_eq,
  string_eq, Option-cases, is_some, get_or, int_eq,
}
use n2api.Admin.Settings.Runtime.{
  GatewaySettings, normalize_gateway_settings, SettingsRecord, Snapshot, Runtime, SettingsError,
  Loaded, loaded, not_found, load_invalid, load_failed, clone_snapshot, publish_committed,
  publish_default_success, publish_success, publish_failure, publish_version_conflict,
  publish_persisted, get_gateway_settings, refresh_loaded, refresh, new_runtime, before_version,
}
use n2api.Admin.Settings.Normal.{normalize_gateway_settings-again}
use n2api.Admin.Settings.Sound.{IsSound, Normal, refresh-IsSound, publish_persisted-IsSound}

-- The operations on a running gateway: PublishPersisted, and a Refresh once its load has returned.
pub data Operation : Type 0 where
  publish : SettingsRecord → ℕ → Operation
  reload : Loaded → Bool → ℕ → Operation

abbrev pub operate : Runtime → Operation → Runtime
operate r (publish rec now) = (publish_persisted r rec now).0
operate r (reload result done now) = (refresh r false done result now).0

abbrev pub operate_all : Runtime → List Operation → Runtime
operate_all r [] = r
operate_all r (o ∷ os) = operate_all (operate r o) os

-- The version of the settings in force, and 0 without one.
abbrev pub version_of : Runtime → ℕ
version_of r = get_or (clone_snapshot r.snapshot).version 0

before-lt :
    (at : ℕ) (current : Option Snapshot)
    → before_version at current ≡ false
    → get_or (clone_snapshot current).version 0 ≤ at
before-lt at current h = ground arith

operate-le : (r : Runtime) (o : Operation) → version_of r ≤ version_of (operate r o)
unfolding publish_persisted publish_committed publish_version_conflict refresh refresh_loaded
    publish_success publish_failure publish_default_success
operate-le r (publish rec now) = ground (arith, before-lt rec.updated_at r.snapshot)
operate-le r (reload (loaded rec) done now) = ground (arith, before-lt rec.updated_at r.snapshot)
operate-le r (reload not_found done now) = ground arith
operate-le r (reload load_invalid done now) = ground arith
operate-le r (reload load_failed done now) = ground arith

-- Along any operations on a running gateway, the version of the settings in force never goes back.
pub version_never_back :
    (r : Runtime) (os : List Operation) → version_of r ≤ version_of (operate_all r os)
version_never_back r [] = omega arith
version_never_back r (o ∷ os) = omega (arith, operate-le r o, version_never_back (operate r o) os)

operate-IsSound : (r : Runtime) (o : Operation) → IsSound r → IsSound (operate r o)
operate-IsSound r (publish rec now) h = publish_persisted-IsSound r rec now h
operate-IsSound r (reload result done now) h = refresh-IsSound r false done result now h

operate_all-IsSound : (r : Runtime) (os : List Operation) → IsSound r → IsSound (operate_all r os)
operate_all-IsSound r [] h = h
operate_all-IsSound r (o ∷ os) h = operate_all-IsSound (operate r o) os (operate-IsSound r o h)

new_runtime-IsSound :
    (defaults : GatewaySettings) (r : Runtime) → new_runtime defaults ≡ some r → IsSound r
unfolding new_runtime
new_runtime-IsSound defaults r h = elim (Option-cases (normalize_gateway_settings defaults)) [
  | inl e ↦ ground (arith, e)
  | inr (t, e) ↦ ground (arith, e, normalize_gateway_settings-again defaults t e)
]

get-Normal :
    (r : Runtime) (served : GatewaySettings)
    → IsSound r
    → get_gateway_settings r ≡ some served
    → Normal served
unfolding get_gateway_settings
get-Normal r served h g = ground arith

-- A gateway made by NewGatewaySettingsRuntime and loaded by LoadInitial serves, after any
-- operations, only settings that normalizeGatewaySettings lets pass unchanged.
pub served-Normal :
    (defaults : GatewaySettings) (r : Runtime) (done : Bool) (first : Loaded) (now : ℕ)
    (os : List Operation) (served : GatewaySettings)
    → new_runtime defaults ≡ some r
    → get_gateway_settings (operate_all (refresh r true done first now).0 os) ≡ some served
    → Normal served
served-Normal defaults r done first now os served h g =
    get-Normal (operate_all (refresh r true done first now).0 os) served
      (operate_all-IsSound (refresh r true done first now).0 os
        (refresh-IsSound r true done first now (new_runtime-IsSound defaults r h)))
      g

-- A refresh that returns an error leaves the settings that are served, and their version, as they
-- were.
pub failed_refresh_keeps :
    (r : Runtime) (initial done : Bool) (result : Loaded) (now : ℕ) (e : SettingsError)
    → (refresh r initial done result now).1 ≡ some e
    → (get_gateway_settings (refresh r initial done result now).0 ≡ get_gateway_settings r)
      × (version_of (refresh r initial done result now).0 ≡ version_of r)
unfolding refresh refresh_loaded publish_success publish_failure publish_default_success
    get_gateway_settings
failed_refresh_keeps r initial done (loaded rec) now e h = ground arith
failed_refresh_keeps r initial done not_found now e h = ground arith
failed_refresh_keeps r initial done load_invalid now e h = ground arith
failed_refresh_keeps r initial done load_failed now e h = ground arith

-- PublishPersisted of a record that is not older than the settings in force, with no error, puts
-- the record's normal settings in force, under the record's version.
pub published_in_force :
    (r : Runtime) (rec : SettingsRecord) (now : ℕ) (settings : GatewaySettings)
    → normalize_gateway_settings rec.settings ≡ some settings
    → (publish_persisted r rec now).1 ≡ none
    → version_of r ≤ rec.updated_at
    → (get_gateway_settings (publish_persisted r rec now).0 ≡ some settings)
      × (version_of (publish_persisted r rec now).0 ≡ rec.updated_at)
unfolding publish_persisted publish_committed publish_version_conflict get_gateway_settings
published_in_force r rec now settings h e v = ground (arith, h)

operate-served :
    (r : Runtime) (o : Operation)
    → is_some (get_gateway_settings r) ≡ true
    → is_some (get_gateway_settings (operate r o)) ≡ true
unfolding publish_persisted publish_committed publish_version_conflict refresh refresh_loaded
    publish_success publish_failure publish_default_success get_gateway_settings
operate-served r (publish rec now) h = ground arith
operate-served r (reload (loaded rec) done now) h = ground arith
operate-served r (reload not_found done now) h = ground arith
operate-served r (reload load_invalid done now) h = ground arith
operate-served r (reload load_failed done now) h = ground arith

-- Once settings are served, some are served after any operations.
pub always_served :
    (r : Runtime) (os : List Operation)
    → is_some (get_gateway_settings r) ≡ true
    → is_some (get_gateway_settings (operate_all r os)) ≡ true
always_served r [] h = h
always_served r (o ∷ os) h = always_served (operate r o) os (operate-served r o h)

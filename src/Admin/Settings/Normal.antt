-- ===== src/Admin/Settings/Normal.antt =====
-- normalizeGatewaySettings of admin/service.go.
use n2api.Base.{◌≡◌, some, arith, nat_eq, string_eq, int_eq}
use n2api.Admin.Settings.Runtime.{GatewaySettings, normalize_gateway_settings}

-- What normalizeGatewaySettings makes of settings it lets pass unchanged.
pub normalize_gateway_settings-again :
    (s t : GatewaySettings)
    → normalize_gateway_settings s ≡ some t
    → normalize_gateway_settings t ≡ some t
unfolding normalize_gateway_settings
normalize_gateway_settings-again s t h = ground arith

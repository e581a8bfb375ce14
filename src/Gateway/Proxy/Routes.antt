-- ===== src/Gateway/Proxy/Routes.antt =====
-- gateway/proxy.go: what the proxy reads off a request, its key and the rules of the errors.
use n2api.Base.{
  ℕ, String, Bool, true, false, not, ◌&&◌, ◌||◌, Option, none, some, List, [], ◌∷◌, if◌then◌else◌,
  ◌==◌, nat_eq, string_eq, ℤ, pos, int_eq,
}
use n2api.Go.{Stdlib}

-- The fields of http.Request that decide on the route, with two of its headers.
pub record HttpRequest : Type 0 where
  pub method : String
  pub path : String
  pub authorization : String
  pub session_headers : String × String
  pub has_body : Bool
  pub content_length : ℤ

-- The fields of admin.APIKey that the proxy reads.
pub record ApiKey : Type 0 where
  pub id : ℤ
  pub requests_per_minute : ℤ
  pub tokens_per_minute : ℤ
  pub routing_pool_id : Option ℤ
  pub model_policy : String
  pub allowed_models : List String

unfoldable pub is_responses_subroute : Stdlib → String → Bool
is_responses_subroute go path =
    if not (go.has_prefix path "/v1/responses/")
    then false
    else let rest = go.trim_prefix path "/v1/responses/" in
      if rest == "" || go.contains_text rest "//" then false else elim (go.split rest "/") [
        | [] ↦ false
        | x ∷ [] ↦ true
        | x ∷ y ∷ [] ↦ y == "input_items"
        | x ∷ y ∷ z ∷ more ↦ false
      ]

unfoldable pub is_supported_route : Stdlib → HttpRequest → Bool
is_supported_route go r =
    (r.method == "GET" && r.path == "/v1/models")
    || (r.method == "POST" && r.path == "/v1/chat/completions")
    || (r.method == "POST" && r.path == "/v1/responses")
    || (r.method == "GET" && is_responses_subroute go r.path)

unfoldable pub endpoint_for_request : Stdlib → HttpRequest → String
endpoint_for_request go r =
    if not (r.method == "POST")
    then (if r.method == "GET" && is_responses_subroute go r.path then "responses" else "")
    else if r.path == "/v1/chat/completions"
    then "chat_completions"
    else if r.path == "/v1/responses"
    then "responses"
    else ""

abbrev pub route_requires_model : HttpRequest → Bool
route_requires_model r =
    r.method == "POST" && (r.path == "/v1/chat/completions" || r.path == "/v1/responses")

abbrev pub response_id_for_affinity_lookup : Stdlib → HttpRequest → String → String
response_id_for_affinity_lookup go r previous_response_id =
    if r.method == "POST" && r.path == "/v1/responses"
    then go.trim_space previous_response_id
    else if not (r.method == "GET") || not (is_responses_subroute go r.path)
    then ""
    else go.trim_space (go.cut (go.trim_prefix r.path "/v1/responses/") "/").0

abbrev pub bearer_token : Stdlib → String → Option String
bearer_token go header =
    let (scheme, token, found) = go.cut (go.trim_space header) " " in
    if not found || not (go.equal_fold scheme "Bearer") || go.trim_space token == ""
    then none
    else some (go.trim_space token)

abbrev pub sticky_session_id_from_header : Stdlib → HttpRequest → String
sticky_session_id_from_header go r =
    let session = go.trim_space r.session_headers.0 in
    if not (session == "") then session else go.trim_space r.session_headers.1

abbrev pub is_allowed : String → List String → Bool
is_allowed model [] = false
is_allowed model (allowed ∷ more) = if model == allowed then true else is_allowed model more

unfoldable pub api_key_allows_model : Stdlib → ApiKey → String → Bool
api_key_allows_model go key model =
    if key.model_policy == "" || key.model_policy == "all"
    then true
    else if key.model_policy == "selected"
    then is_allowed (go.trim_space model) key.allowed_models
    else false

unfoldable pub is_hop_by_hop_header : Stdlib → String → Bool
is_hop_by_hop_header go key =
    let k = go.to_lower key in
    k == "connection"
    || k == "keep-alive"
    || k == "proxy-authenticate"
    || k == "proxy-authorization"
    || k == "te"
    || k == "trailer"
    || k == "transfer-encoding"
    || k == "upgrade"

-- The fields of admin.ErrorPassthroughRule that are read.
pub record ErrorPassthroughRule : Type 0 where
  pub pattern : String
  pub match_type : String
  pub enabled : Bool

-- One rule against the status, the code and the message of an error.
abbrev pub rule_matches : Stdlib → ErrorPassthroughRule → ℕ → String → String → Bool
rule_matches go rule status code message =
    let pattern = go.trim_space rule.pattern in
    if not rule.enabled
    then false
    else if pattern == ""
    then false
    else if rule.match_type == "status_code"
    then pattern == go.format_int (pos status)
    else if rule.match_type == "error_code"
    then go.equal_fold pattern (go.trim_space code)
    else if rule.match_type == "error_message"
    then go.contains_text (go.to_lower message) (go.to_lower pattern)
    else false

abbrev pub any_rule_matches : Stdlib → List ErrorPassthroughRule → ℕ → String → String → Bool
any_rule_matches go [] status code message = false
any_rule_matches go (rule ∷ rules) status code message =
    if rule_matches go rule status code message
    then true
    else any_rule_matches go rules status code message

-- The rules are none where there is no repository of them or it fails; the code and the message
-- are those of upstreamErrorFields.
unfoldable pub should_pass_through_upstream_error :
    Stdlib → Option (List ErrorPassthroughRule) → ℕ → String → String → String → Bool
should_pass_through_upstream_error go none status code message failure_body = false
should_pass_through_upstream_error go (some rules) status code message failure_body =
    any_rule_matches go rules status code
      (if go.trim_space message == "" then failure_body else message)

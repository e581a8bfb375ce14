-- ===== src/Gateway/Proxy/Codes.antt =====
-- The status codes and error codes of gateway/proxy.go. A status of HTTP is not negative.
use n2api.Base.{
  ℕ, String, Bool, true, false, ◌||◌, leb, nat_beq, if◌then◌else◌, ◌==◌, nat_eq, string_eq, int_eq,
}
use n2api.Go.{Stdlib}
use n2api.Provider.Chain.{
  SelectionError, accounts_disabled, accounts_unavailable, model_unavailable, endpoint_unavailable,
  routing_pool_not_found, routing_pool_empty, routing_pool_cycle, routing_pool_exhausted,
}

unfoldable pub retryable_upstream_status : ℕ → Bool
retryable_upstream_status status =
    nat_beq status 401 || nat_beq status 403 || nat_beq status 429 || leb 500 status

unfoldable pub authorization_failure_status : ℕ → Bool
authorization_failure_status status = nat_beq status 401 || nat_beq status 403

abbrev pub upstream_status_error_code : ℕ → String
upstream_status_error_code status =
    if nat_beq status 401
    then "upstream_unauthorized"
    else if nat_beq status 403
    then "upstream_forbidden"
    else if nat_beq status 429
    then "upstream_rate_limited"
    else if leb 500 status
    then "upstream_unavailable"
    else "upstream_error"

-- The errors of the transport are told apart by whether they are time-outs.
abbrev pub upstream_request_error_code : Bool → String
upstream_request_error_code is_timeout =
    if is_timeout then "upstream_timeout" else "upstream_unavailable"

abbrev pub upstream_request_error_message : String → String
upstream_request_error_message code =
    if code == "upstream_timeout" then "upstream request timed out" else "upstream request failed"

-- The errors of the selection of an account that the proxy tells apart.
pub data SelectFailure : Type 0 where
  response_affinity_unknown response_affinity_account_unavailable : SelectFailure
  not_connected not_configured : SelectFailure
  of_selection : SelectionError → SelectFailure

abbrev pub is_accounts_unavailable : SelectFailure → Bool
is_accounts_unavailable (of_selection accounts_unavailable) = true
is_accounts_unavailable _ = false

abbrev pub provider_error_code : SelectFailure → String
provider_error_code not_connected = "provider_not_connected"
provider_error_code not_configured = "provider_not_configured"
provider_error_code (of_selection accounts_disabled) = "provider_accounts_disabled"
provider_error_code (of_selection routing_pool_cycle) = "routing_pool_cycle"
provider_error_code (of_selection routing_pool_not_found) = "routing_pool_unavailable"
provider_error_code (of_selection routing_pool_empty) = "routing_pool_empty"
provider_error_code (of_selection routing_pool_exhausted) = "routing_pool_exhausted"
provider_error_code (of_selection accounts_unavailable) = "provider_accounts_unavailable"
provider_error_code (of_selection model_unavailable) = "model_unavailable"
provider_error_code (of_selection endpoint_unavailable) = "endpoint_unavailable"
provider_error_code _ = "upstream_token_error"

abbrev pub provider_error_code_for_selection : Stdlib → SelectFailure → String → String
provider_error_code_for_selection go (of_selection accounts_disabled) pool_error =
    if go.trim_space pool_error == "routing_pool_disabled"
    then "routing_pool_disabled"
    else "provider_accounts_disabled"
provider_error_code_for_selection go (of_selection model_unavailable) pool_error =
    if go.trim_space pool_error == "routing_pool_exhausted"
    then "routing_pool_exhausted"
    else "model_unavailable"
provider_error_code_for_selection go failure pool_error = provider_error_code failure

abbrev pub provider_error_message : String → String
provider_error_message code =
    if code == "provider_not_connected"
    then "provider account is not connected"
    else if code == "provider_not_configured"
    then "provider account is not configured"
    else if code == "provider_accounts_disabled"
    then "provider accounts are disabled"
    else if code == "routing_pool_cycle"
    then "routing pool fallback chain contains a cycle"
    else if code == "routing_pool_unavailable"
    then "routing pool is unavailable"
    else if code == "routing_pool_empty"
    then "routing pool has no eligible accounts"
    else if code == "routing_pool_disabled"
    then "routing pool is disabled"
    else if code == "routing_pool_exhausted"
    then "routing pool fallback chain is exhausted"
    else if code == "provider_accounts_unavailable"
    then "provider accounts are unavailable"
    else if code == "model_unavailable"
    then "requested model is not available"
    else if code == "endpoint_unavailable"
    then "requested model is not supported by any eligible account for this endpoint"
    else "provider token lookup failed"

-- The errors of reading the body of a request.
pub data BodyError : Type 0 where
  body_timeout body_deadline body_too_large invalid_json_body : BodyError
  model_not_found invalid_model_input other_body_error : BodyError

abbrev pub request_body_error_code : BodyError → String
request_body_error_code body_timeout = "request_body_timeout"
request_body_error_code body_deadline = "request_body_deadline_error"
request_body_error_code body_too_large = "request_too_large"
request_body_error_code invalid_json_body = "invalid_request"
request_body_error_code model_not_found = "model_not_found"
request_body_error_code invalid_model_input = "model_not_found"
request_body_error_code other_body_error = "upstream_request_error"

abbrev pub request_body_error_status : BodyError → ℕ
request_body_error_status body_timeout = 408
request_body_error_status body_deadline = 500
request_body_error_status body_too_large = 413
request_body_error_status invalid_json_body = 400
request_body_error_status model_not_found = 400
request_body_error_status invalid_model_input = 400
request_body_error_status other_body_error = 502

abbrev pub request_body_error_message : BodyError → String
request_body_error_message body_timeout = "request body read timed out"
request_body_error_message body_deadline = "could not clear request body deadline"
request_body_error_message body_too_large = "request body is too large"
request_body_error_message invalid_json_body = "request body must be valid JSON"
request_body_error_message model_not_found = "requested model is not available"
request_body_error_message invalid_model_input = "requested model is not available"
request_body_error_message other_body_error = "could not read upstream request"

-- ===== src/Gateway/Proxy/Handler.antt =====
-- gateway/proxy.go: ServeHTTP around its loop: the authentication, the limits of the key and of the
-- gateway, the body, and what is recorded when it returns. Metrics, the log and the correlation
-- identifier are left out; a limiter that is nil limits nothing, and NewProxy makes them all.
use n2api.Base.{
  ℕ, ◌+◌, String, ◌⊎◌, inl, inr, Bool, false, not, ◌&&◌, ◌||◌, none, some, ltb, if◌then◌else◌, ◌==◌,
  nat_eq, string_eq, get_or, pos, pos_part, ltb_ℤ, is_pos, int_eq,
}
use n2api.Go.{Stdlib}
use n2api.Gateway.Limits.Concurrency.{
  refused, uncounted, held, gateway_acquire, gateway_release, api_key_acquire, api_key_release,
  effective_limit,
}
use n2api.Gateway.Limits.Rate.{rate_allow, token_allow, token_record}
use n2api.Gateway.Proxy.Codes.{
  BodyError, body_deadline, body_too_large, request_body_error_code, request_body_error_status,
  request_body_error_message,
}
use n2api.Gateway.Proxy.Serving.{Gateway}
use n2api.Gateway.Proxy.Failover.{serve}
use n2api.Gateway.Proxy.Routes.{
  HttpRequest, ApiKey, is_supported_route, endpoint_for_request, route_requires_model, bearer_token,
  sticky_session_id_from_header, api_key_allows_model,
}
use n2api.Gateway.Proxy.Routing.{
  Accounts, is_enabled, response_affinity_selection, select_account_for_request,
}
use n2api.Gateway.Proxy.Environment.{
  Limits, Authenticated, key_of, unauthorized, authentication_unavailable, authentication_failed,
  ModelBody, RequestBody, Environment, Proxy, Answer, refused_with, limited, models_written, gone,
  outcome_of, Ending, max_replayable_attempts,
}

module _ {S : Type 0} (go : Stdlib) (env : Environment S) where
  abbrev pub in_world : Proxy S → S → Proxy S
  in_world p w = record p { world = w }

  -- A return before the loop.
  abbrev pub stop : Proxy S → Answer → Ending S
  stop p answer = record {
    proxy = p;
    answer = answer;
    admission_id = "";
    usage = record { total_tokens = pos 0; is_known = false };
    admissions = 0;
  }

  unfoldable pub request_body_factory : S → HttpRequest → S × (BodyError ⊎ RequestBody)
  request_body_factory w r =
      let header_session = sticky_session_id_from_header go r in
      let plain : ModelBody = record {
        model = "";
        session_id = header_session;
        previous_response_id = "";
      } in
      if not (r.method == "POST") || not r.has_body
      then (w, inr (record { max_attempts = max_replayable_attempts; content = plain }))
      else if ltb_ℤ (pos env.max_accepted_body) r.content_length
      then (w, inl body_too_large)
      else let (w₁, read) = env.read_body w (env.max_accepted_body + 1) in
        elim read [
          | inl e ↦ (w₁, inl e)
          | inr bytes ↦
              let max_attempts =
                if ltb env.max_replay_body bytes then 1 else max_replayable_attempts in
              if ltb env.max_accepted_body bytes
              then (w₁, inl body_too_large)
              else if not (route_requires_model r)
              then (w₁, inr (record { max_attempts = max_attempts; content = plain }))
              else (let (w₂, normalized) = env.normalize_body w₁ in
                  elim normalized [
                    | inl e ↦ (w₂, inl e)
                    | inr body ↦
                        let session =
                          if body.session_id == "" then header_session else body.session_id in
                        (
                          w₂,
                          inr (record {
                            max_attempts = max_attempts;
                            content = record body { session_id = session };
                          }),
                        )
                  ])
        ]

  -- From the body on: the loop, with the selection for this request.
  unfoldable pub run_loop :
      Proxy S → HttpRequest → ApiKey → Limits → Accounts S → RequestBody → Ending S
  run_loop p r key limits accounts body =
      let content = body.content in
      if not (content.model == "") && not (api_key_allows_model go key content.model)
      then stop p
          (refused_with 404 "model_not_found" "requested model is not available" "model_not_found")
      else elim (response_affinity_selection go (env.find_response_affinity p.world) r
          content.previous_response_id (get_or key.routing_pool_id (pos 0))) [
            | none ↦ stop p (
                refused_with 500 "response_affinity_lookup_failed"
                  "could not resolve response account affinity" "response_affinity_lookup_failed")
            | some affinity ↦
                let gateway : Gateway S = record (env.gateway) {
                  select_account = λ w failed.
                      select_account_for_request go accounts w key content.model
                        (endpoint_for_request go r) content.session_id affinity failed;
                } in
                let (st, outcome) =
                  serve go gateway limits.max_concurrent_requests_per_account
                    (if is_enabled affinity then 1 else body.max_attempts) p.world in
                record {
                  proxy = in_world p st.world;
                  answer = outcome_of outcome;
                  admission_id = st.admission_id;
                  usage = st.observed_usage;
                  admissions = st.admissions;
                }
          ]

  abbrev pub body_refusal : BodyError → Answer
  body_refusal e =
      let code = request_body_error_code e in
      refused_with (request_body_error_status e) code (request_body_error_message e) code

  -- The body was read, or not; `armed` is whether there is a deadline.
  unfoldable pub after_body :
      Proxy S
      → HttpRequest
      → ApiKey
      → Limits
      → Accounts S
      → Bool
      → (BodyError ⊎ RequestBody)
      → Ending S
  unfolding run_loop
  after_body p r key limits accounts armed (inl e) =
      let timed_out =
        armed
        && request_body_error_code e == "request_body_timeout"
        && env.deadline_passed p.world in
      if env.gateway.is_canceled p.world && not timed_out
      then stop p gone
      else stop p (body_refusal e)
  after_body p r key limits accounts armed (inr body) =
      if env.gateway.is_canceled p.world
      then stop p gone
      else if armed && not (env.clears_deadline p.world)
      then stop p (body_refusal body_deadline)
      else run_loop p r key limits accounts body

  -- With a slot of the key.
  unfoldable pub with_slots : Proxy S → HttpRequest → ApiKey → Limits → Accounts S → Ending S
  unfolding after_body
  with_slots p r key limits accounts =
      let (w, deadline) = env.arm_deadline p.world r in
      elim deadline [
        | none ↦ stop (in_world p w) (
            refused_with 500 "request_body_deadline_error" "could not set request body deadline"
              "request_body_deadline_error")
        | some armed ↦
            let (w₁, body) = request_body_factory w r in
            after_body (in_world p w₁) r key limits accounts armed body
      ]

  -- `defer releaseKey()`
  abbrev pub release_key : Ending S → ApiKey → Ending S
  release_key e key = record e {
    proxy = record (e.proxy) { key_slots = api_key_release e.proxy.key_slots key.id };
  }

  -- `defer release()`
  abbrev pub release_gateway : Ending S → Ending S
  release_gateway e = record e {
    proxy = record (e.proxy) { in_flight = gateway_release e.proxy.in_flight };
  }

  -- With a slot of the gateway.
  unfoldable pub with_gateway_slot : Proxy S → HttpRequest → ApiKey → Limits → Accounts S → Ending S
  unfolding with_slots
  with_gateway_slot p r key limits accounts =
      elim (api_key_acquire p.key_slots key.id limits.max_concurrent_requests_per_key) [
        | refused ↦ stop p (
            refused_with 429 "rate_limit_exceeded" "api key concurrency limit exceeded"
              "api_key_concurrency_limited")
        | uncounted ↦ with_slots p r key limits accounts
        | held slots ↦
            release_key (with_slots (record p { key_slots = slots }) r key limits accounts) key
      ]

  unfoldable pub within_limits : Proxy S → HttpRequest → ApiKey → Limits → Accounts S → Ending S
  unfolding with_gateway_slot
  within_limits p r key limits accounts =
      elim (gateway_acquire p.in_flight limits.max_concurrent_gateway_requests) [
        | refused ↦ stop p (
            refused_with 429 "rate_limit_exceeded" "gateway concurrency limit exceeded"
              "gateway_concurrency_limited")
        | uncounted ↦ with_gateway_slot p r key limits accounts
        | held n ↦
            release_gateway (with_gateway_slot (record p { in_flight = n }) r key limits accounts)
      ]

  -- From the limit of the tokens on.
  unfoldable pub within_tokens : Proxy S → HttpRequest → ApiKey → Limits → Accounts S → Ending S
  unfolding within_limits
  within_tokens p r key limits accounts =
      let tokens =
        token_allow p.tokens key.id
          (effective_limit key.tokens_per_minute limits.tokens_per_minute_per_key)
          (env.now p.world) in
      let p₁ : Proxy S = record p { tokens = tokens.limiter } in
      if not tokens.allowed
      then stop p₁ (limited tokens.retry_after "api_key_token_rate_limited")
      else within_limits p₁ r key limits accounts

  -- From the check of the routing pool on.
  unfoldable pub to_accounts : Proxy S → HttpRequest → ApiKey → Limits → Ending S
  unfolding within_tokens
  to_accounts p r key limits =
      if not (is_pos (get_or key.routing_pool_id (pos 0)))
      then stop p (
          refused_with 503 "routing_pool_required" "api key must be bound to a routing pool"
            "routing_pool_required")
      else elim env.accounts [
        | none ↦ stop p (
            refused_with 503 "service_unavailable" "gateway service unavailable"
              "service_unavailable")
        | some accounts ↦ within_tokens p r key limits accounts
      ]

  -- From the limit of the requests on.
  unfoldable pub dispatch : Proxy S → HttpRequest → ApiKey → Limits → Ending S
  unfolding to_accounts
  dispatch p r key limits =
      let rate =
        rate_allow p.rates key.id
          (effective_limit key.requests_per_minute limits.requests_per_minute_per_key)
          (env.now p.world) in
      let p₁ : Proxy S = record p { rates = rate.limiter } in
      if not rate.allowed
      then stop p₁ (limited rate.retry_after "api_key_request_rate_limited")
      else if r.method == "GET" && r.path == "/v1/models"
      then (let (w, written) = env.write_local_models p.world key in
          stop (in_world p₁ w) (
            if written
            then models_written
            else refused_with 500 "internal_error" "could not list models" "internal_error"))
      else to_accounts p₁ r key limits

  -- The deferred function: the tokens go on record, and the admission is settled.
  unfoldable pub finish : ApiKey → Limits → Ending S → Proxy S × Answer
  finish key limits e =
      let p = e.proxy in
      let now = env.now p.world in
      let limit = effective_limit key.tokens_per_minute limits.tokens_per_minute_per_key in
      let counted : Proxy S = record p {
        tokens =
            if is_pos e.usage.total_tokens
            then token_record p.tokens key.id e.usage.total_tokens limit now
            else p.tokens;
      } in
      let cost = env.estimate_cost p.world e.usage in
      if not (e.admission_id == "") && env.gateway.has_budgets
      then (let (w, is_settled) =
            env.settle_budget p.world e.admission_id (pos (pos_part e.usage.total_tokens))
              (pos (pos_part cost)) e.usage.is_known now in
          (record counted { world = if is_settled then w else env.warn_unsettled w }, e.answer))
      else (counted, e.answer)

  abbrev pub error_for : ℕ → String → String → Answer
  error_for status code message = refused_with status code message code

  -- What AuthenticateAPIKey returned.
  unfoldable pub after_authentication : Proxy S → HttpRequest → Authenticated → Proxy S × Answer
  unfolding dispatch finish
  after_authentication p r unauthorized = (p, error_for 401 "unauthorized" "invalid bearer token")
  after_authentication p r authentication_unavailable =
      (p, error_for 503 "authentication_unavailable" "api key authentication unavailable")
  after_authentication p r authentication_failed =
      (p, error_for 500 "internal_error" "api key authentication failed")
  after_authentication p r (key_of key) =
      let limits = env.gateway_settings p.world in finish key limits (dispatch p r key limits)

  unfoldable pub serve_http : Proxy S → HttpRequest → Proxy S × Answer
  unfolding after_authentication
  serve_http p r =
      if not (is_supported_route go r)
      then (p, error_for 404 "unsupported_route" "unsupported route")
      else if not env.has_auth
      then (p, error_for 503 "service_unavailable" "gateway service unavailable")
      else elim (bearer_token go r.authorization) [
        | none ↦ (p, error_for 401 "unauthorized" "missing bearer token")
        | some token ↦
            let (w, authenticated) = env.authenticate p.world token in
            after_authentication (in_world p w) r authenticated
      ]

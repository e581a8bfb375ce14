-- ===== src/Gateway/Proxy/Given.antt =====
-- gateway/proxy.go: what ServeHTTP takes and gives back around its loop.
use n2api.Base.{
  ◌<◌, ◌≡◌, refl, ap, ◌∙◌, ◌⊎◌, inl, inr, Bool, true, not, ◌&&◌, arith, if◌then◌else◌, ◌==◌, nat_eq,
  string_eq, Bool-cases, Option-cases, get_or, ℤ, pos, is_pos, int_eq,
}
use n2api.Go.{Stdlib}
use n2api.Gateway.Limits.Concurrency.{
  in_flight, gateway_acquire, gateway_release, api_key_acquire, effective_limit,
}
use n2api.Gateway.Limits.Rate.{rate_allow, token_allow}
use n2api.Gateway.Proxy.Codes.{BodyError, body_deadline, request_body_error_code}
use n2api.Gateway.Proxy.Serving.{Gateway}
use n2api.Gateway.Proxy.Answers.{is_reply, serve-is_reply}
use n2api.Gateway.Proxy.Routes.{HttpRequest, ApiKey, endpoint_for_request, api_key_allows_model}
use n2api.Gateway.Proxy.Routing.{
  Accounts, is_enabled, response_affinity_selection, select_account_for_request,
}
use n2api.Gateway.Proxy.Environment.{
  Limits, RequestBody, Environment, Proxy, Answer, refused_with, limited, models_written, gone,
  outcome_of, Ending,
}
use n2api.Gateway.Proxy.Handler.{
  in_world, stop, request_body_factory, run_loop, after_body, with_slots, with_gateway_slot,
  within_limits, within_tokens, to_accounts, dispatch, body_refusal,
}
use n2api.Gateway.Proxy.Released.{
  if-both, api_key_release-acquire, gateway_release-acquire, Acquired-cases,
}

abbrev pub is_answer : Answer → Bool
is_answer (outcome_of outcome) = is_reply outcome
is_answer _ = true

module _ {S : Type 0} (go : Stdlib) (env : Environment S) where
  -- The limiters of requests at once are as they were, and there is an answer.
  pub record Returned (p : Proxy S) (e : Ending S) : Type 0 where
    pub same_in_flight : e.proxy.in_flight ≡ p.in_flight
    pub same_key_slots : (id : ℤ) → in_flight id e.proxy.key_slots ≡ in_flight id p.key_slots
    pub answered : is_answer e.answer ≡ true

  stop-Returned :
      (p : Proxy S) (w : S) (answer : Answer)
      → is_answer answer ≡ true
      → Returned p (stop go env (in_world go env p w) answer)
  stop-Returned p w answer h = record {
    same_in_flight = refl;
    same_key_slots = λ id. refl;
    answered = h;
  }

  request_body_factory-attempts :
      (w : S) (r : HttpRequest) (body : RequestBody)
      → (request_body_factory go env w r).1 ≡ inr body
      → 0 < body.max_attempts
  unfolding request_body_factory
  request_body_factory-attempts w r body h = ground arith

  run_loop-Returned :
      (p : Proxy S) (r : HttpRequest) (key : ApiKey) (limits : Limits) (accounts : Accounts S)
      (body : RequestBody)
      → 0 < body.max_attempts
      → Returned p (run_loop go env p r key limits accounts body)
  unfolding run_loop
  run_loop-Returned p r key limits accounts body h =
      let content = body.content in
      elim (Bool-cases
        (not (content.model == "") && not (api_key_allows_model go key content.model))) [
          | inl e ↦
              rw (e, run_loop)
                (stop-Returned p p.world
                  (refused_with 404 "model_not_found" "requested model is not available"
                    "model_not_found")
                  refl)
          | inr e ↦
              elim (Option-cases (
                response_affinity_selection go (env.find_response_affinity p.world) r
                  content.previous_response_id (get_or key.routing_pool_id (pos 0)))) [
                    | inl a ↦
                        rw (e, a, run_loop)
                          (stop-Returned p p.world
                            (refused_with 500 "response_affinity_lookup_failed"
                              "could not resolve response account affinity"
                              "response_affinity_lookup_failed")
                            refl)
                    | inr (affinity, a) ↦
                        let gateway : Gateway S = record (env.gateway) {
                          select_account = λ w failed.
                              select_account_for_request go accounts w key content.model
                                (endpoint_for_request go r) content.session_id affinity failed;
                        } in
                        rw (e, a, run_loop)
                          (record {
                            same_in_flight = refl;
                            same_key_slots = λ id. refl;
                            answered =
                                serve-is_reply go gateway limits.max_concurrent_requests_per_account
                                  (if is_enabled affinity then 1 else body.max_attempts) p.world
                                  (ground (arith, h));
                          })
                  ]
        ]

  after_body-Returned :
      (p : Proxy S) (w : S) (r : HttpRequest) (key : ApiKey) (limits : Limits)
      (accounts : Accounts S) (armed : Bool) (body : BodyError ⊎ RequestBody)
      → ((b : RequestBody) → body ≡ inr b → 0 < b.max_attempts)
      → Returned p (after_body go env (in_world go env p w) r key limits accounts armed body)
  unfolding after_body
  after_body-Returned p w r key limits accounts armed (inl e) h =
      let timed_out =
        armed && request_body_error_code e == "request_body_timeout" && env.deadline_passed w in
      if-both (Returned p) (env.gateway.is_canceled w && not timed_out)
        (stop go env (in_world go env p w) gone)
        (stop go env (in_world go env p w) (body_refusal go env e)) (stop-Returned p w gone refl)
        (stop-Returned p w (body_refusal go env e) refl)
  after_body-Returned p w r key limits accounts armed (inr body) h =
      let p₁ = in_world go env p w in
      let refusal = stop go env p₁ (body_refusal go env body_deadline) in
      let loop = run_loop go env p₁ r key limits accounts body in
      let run = run_loop-Returned p₁ r key limits accounts body (h body refl) in
      let ran : Returned p loop = record {
        same_in_flight = run.same_in_flight;
        same_key_slots = run.same_key_slots;
        answered = run.answered;
      } in
      if-both (Returned p) (env.gateway.is_canceled w) (stop go env p₁ gone)
        (if armed && not (env.clears_deadline w) then refusal else loop)
        (stop-Returned p w gone refl)
        (if-both (Returned p) (armed && not (env.clears_deadline w)) refusal loop
          (stop-Returned p w (body_refusal go env body_deadline) refl) ran)

  with_slots-Returned :
      (p : Proxy S) (r : HttpRequest) (key : ApiKey) (limits : Limits) (accounts : Accounts S)
      → Returned p (with_slots go env p r key limits accounts)
  unfolding with_slots
  with_slots-Returned p r key limits accounts =
      let (w, deadline) = env.arm_deadline p.world r in
      elim (Option-cases deadline) [
        | inl e ↦
            rw (e, with_slots)
              (stop-Returned p w
                (refused_with 500 "request_body_deadline_error"
                  "could not set request body deadline" "request_body_deadline_error")
                refl)
        | inr (armed, e) ↦
            let (w₁, body) = request_body_factory go env w r in
            rw (e, with_slots)
              (after_body-Returned p w₁ r key limits accounts armed body
                (request_body_factory-attempts w r))
      ]

  with_gateway_slot-Returned :
      (p : Proxy S) (r : HttpRequest) (key : ApiKey) (limits : Limits) (accounts : Accounts S)
      → Returned p (with_gateway_slot go env p r key limits accounts)
  unfolding with_gateway_slot
  with_gateway_slot-Returned p r key limits accounts =
      let limit = limits.max_concurrent_requests_per_key in
      elim (Acquired-cases (api_key_acquire p.key_slots key.id limit)) [
        | inl e ↦
            rw (e, with_gateway_slot)
              (stop-Returned p p.world
                (refused_with 429 "rate_limit_exceeded" "api key concurrency limit exceeded"
                  "api_key_concurrency_limited")
                refl)
        | inr (inl e) ↦ rw (e, with_gateway_slot) (with_slots-Returned p r key limits accounts)
        | inr (inr (slots, e)) ↦
            let inner =
              with_slots-Returned (record p { key_slots = slots }) r key limits accounts in
            rw (e, with_gateway_slot)
              (record {
                same_in_flight = inner.same_in_flight;
                same_key_slots = λ j.
                    api_key_release-acquire p.key_slots slots key.id limit j e
                      (with_slots go env (record p { key_slots = slots }) r key limits
                        accounts).proxy.key_slots
                      inner.same_key_slots;
                answered = inner.answered;
              })
      ]

  within_limits-Returned :
      (p : Proxy S) (r : HttpRequest) (key : ApiKey) (limits : Limits) (accounts : Accounts S)
      → Returned p (within_limits go env p r key limits accounts)
  unfolding within_limits
  within_limits-Returned p r key limits accounts =
      let limit = limits.max_concurrent_gateway_requests in
      elim (Acquired-cases (gateway_acquire p.in_flight limit)) [
        | inl e ↦
            rw (e, within_limits)
              (stop-Returned p p.world
                (refused_with 429 "rate_limit_exceeded" "gateway concurrency limit exceeded"
                  "gateway_concurrency_limited")
                refl)
        | inr (inl e) ↦ rw (e, within_limits) (with_gateway_slot-Returned p r key limits accounts)
        | inr (inr (n, e)) ↦
            let inner =
              with_gateway_slot-Returned (record p { in_flight = n }) r key limits accounts in
            rw (e, within_limits)
              (record {
                same_in_flight =
                    ap gateway_release inner.same_in_flight
                    ∙ gateway_release-acquire p.in_flight n limit e;
                same_key_slots = inner.same_key_slots;
                answered = inner.answered;
              })
      ]

  -- Other fields of a proxy may differ.
  Returned-shift :
      (p p' : Proxy S) (e : Ending S)
      → p'.in_flight ≡ p.in_flight
      → p'.key_slots ≡ p.key_slots
      → Returned p' e
      → Returned p e
  Returned-shift p p' e n k h = record {
    same_in_flight = h.same_in_flight ∙ n;
    same_key_slots = λ id. h.same_key_slots id ∙ ap (in_flight id) k;
    answered = h.answered;
  }

  within_tokens-Returned :
      (p : Proxy S) (r : HttpRequest) (key : ApiKey) (limits : Limits) (accounts : Accounts S)
      → Returned p (within_tokens go env p r key limits accounts)
  unfolding within_tokens
  within_tokens-Returned p r key limits accounts =
      let tokens =
        token_allow p.tokens key.id
          (effective_limit key.tokens_per_minute limits.tokens_per_minute_per_key)
          (env.now p.world) in
      let p₁ : Proxy S = record p { tokens = tokens.limiter } in
      let answer = limited tokens.retry_after "api_key_token_rate_limited" in
      Returned-shift p p₁ (within_tokens go env p r key limits accounts) refl refl (
        if-both (Returned p₁) (not tokens.allowed) (stop go env p₁ answer)
          (within_limits go env p₁ r key limits accounts) (stop-Returned p₁ p.world answer refl)
          (within_limits-Returned p₁ r key limits accounts))

  to_accounts-Returned :
      (p : Proxy S) (r : HttpRequest) (key : ApiKey) (limits : Limits)
      → Returned p (to_accounts go env p r key limits)
  unfolding to_accounts
  to_accounts-Returned p r key limits =
      elim (Bool-cases (not (is_pos (get_or key.routing_pool_id (pos 0))))) [
        | inl e ↦
            rw (e, to_accounts)
              (stop-Returned p p.world
                (refused_with 503 "routing_pool_required" "api key must be bound to a routing pool"
                  "routing_pool_required")
                refl)
        | inr e ↦ elim (Option-cases env.accounts) [
          | inl a ↦
              simp (e, a, to_accounts)
                (stop-Returned p p.world
                  (refused_with 503 "service_unavailable" "gateway service unavailable"
                    "service_unavailable")
                  refl)
          | inr (accounts, a) ↦
              simp (e, a, to_accounts) (within_tokens-Returned p r key limits accounts)
        ]
      ]

  pub dispatch-Returned :
      (p : Proxy S) (r : HttpRequest) (key : ApiKey) (limits : Limits)
      → Returned p (dispatch go env p r key limits)
  unfolding dispatch
  dispatch-Returned p r key limits =
      let rate =
        rate_allow p.rates key.id
          (effective_limit key.requests_per_minute limits.requests_per_minute_per_key)
          (env.now p.world) in
      let p₁ : Proxy S = record p { rates = rate.limiter } in
      let answer = limited rate.retry_after "api_key_request_rate_limited" in
      let is_list = r.method == "GET" && r.path == "/v1/models" in
      let (w, written) = env.write_local_models p.world key in
      let listed =
        if written
        then models_written
        else refused_with 500 "internal_error" "could not list models" "internal_error" in
      let models = stop go env (in_world go env p₁ w) listed in
      let rest = to_accounts go env p₁ r key limits in
      Returned-shift p p₁ (dispatch go env p r key limits) refl refl (
        if-both (Returned p₁) (not rate.allowed) (stop go env p₁ answer)
          (if is_list then models else rest) (stop-Returned p₁ p.world answer refl)
          (if-both (Returned p₁) is_list models rest (stop-Returned p₁ w listed (ground arith))
            (to_accounts-Returned p₁ r key limits)))

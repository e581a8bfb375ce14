-- ===== src/Gateway/Proxy/Settled.antt =====
-- gateway/proxy.go: ServeHTTP settles the admission that it was granted.
use n2api.Base.{
  String, ◌≡◌, refl, ◌⊎◌, inl, inr, Bool, true, false, not, ◌&&◌, arith, if◌then◌else◌, ◌==◌,
  nat_eq, string_eq, Bool-cases, Option-cases, get_or, pos, pos_part, is_pos, int_eq,
}
use n2api.Go.{Stdlib}
use n2api.Gateway.Limits.Concurrency.{gateway_acquire, api_key_acquire, effective_limit}
use n2api.Gateway.Limits.Rate.{rate_allow, token_allow}
use n2api.Gateway.Proxy.Codes.{BodyError, body_deadline, request_body_error_code}
use n2api.Gateway.Proxy.Serving.{Gateway, Usage}
use n2api.Gateway.Proxy.Budgets.{serve-Paid}
use n2api.Gateway.Proxy.Routes.{HttpRequest, ApiKey, endpoint_for_request, api_key_allows_model}
use n2api.Gateway.Proxy.Routing.{
  Accounts, is_enabled, response_affinity_selection, select_account_for_request,
}
use n2api.Gateway.Proxy.Environment.{
  Limits, RequestBody, Environment, Proxy, refused_with, limited, models_written, gone, Ending,
  Answer,
}
use n2api.Gateway.Proxy.Handler.{
  in_world, stop, request_body_factory, run_loop, after_body, with_slots, with_gateway_slot,
  within_limits, within_tokens, to_accounts, dispatch, finish, body_refusal,
}
use n2api.Gateway.Proxy.Released.{Acquired-cases, if-both}
use n2api.Gateway.Proxy.Granted.{IsGranted, serve-IsGranted}

-- A settlement of an admission after a request with some usage, and the warning where it fails.
abbrev pub settlement : {S : Type 0} → Environment S → S → String → Usage → S
settlement env w id usage =
    let (w₁, is_settled) =
      env.settle_budget w id (pos (pos_part usage.total_tokens))
        (pos (pos_part (env.estimate_cost w usage))) usage.is_known (env.now w) in
    if is_settled then w₁ else env.warn_unsettled w₁

module _ {S : Type 0} (go : Stdlib) (env : Environment S)
    (named : (w : S) (id : String)
      → (env.gateway.admit_budget w).1 ≡ inl id
      → (id == "") ≡ false) where
  -- An ending names an admission that was granted, and there was one at most.
  abbrev IsCounted : Ending S → Type 0
  IsCounted e =
      (e.admissions ≡ (if e.admission_id == "" then 0 else 1))
      × IsGranted env.gateway e.admission_id

  stop-IsCounted : (p : Proxy S) (answer : Answer) → IsCounted (stop go env p answer)
  stop-IsCounted p answer = (refl, inl refl)

  run_loop-IsCounted :
      (p : Proxy S) (r : HttpRequest) (key : ApiKey) (limits : Limits) (accounts : Accounts S)
      (body : RequestBody)
      → IsCounted (run_loop go env p r key limits accounts body)
  unfolding run_loop
  run_loop-IsCounted p r key limits accounts body =
      let content = body.content in
      elim (Bool-cases
        (not (content.model == "") && not (api_key_allows_model go key content.model))) [
          | inl e ↦ rw (e, run_loop) (refl, inl refl)
          | inr e ↦
              elim (Option-cases (
                response_affinity_selection go (env.find_response_affinity p.world) r
                  content.previous_response_id (get_or key.routing_pool_id (pos 0)))) [
                    | inl a ↦ rw (e, a, run_loop) (refl, inl refl)
                    | inr (affinity, a) ↦
                        let gateway : Gateway S = record (env.gateway) {
                          select_account = λ w failed.
                              select_account_for_request go accounts w key content.model
                                (endpoint_for_request go r) content.session_id affinity failed;
                        } in
                        let paid =
                          serve-Paid go gateway limits.max_concurrent_requests_per_account
                            (if is_enabled affinity then 1 else body.max_attempts) p.world named in
                        rw (e, a, run_loop)
                          (
                            paid.admitted_once,
                            serve-IsGranted go gateway limits.max_concurrent_requests_per_account
                                (if is_enabled affinity then 1 else body.max_attempts) p.world,
                          )
                  ]
        ]

  after_body-IsCounted :
      (p : Proxy S) (r : HttpRequest) (key : ApiKey) (limits : Limits) (accounts : Accounts S)
      (armed : Bool) (body : BodyError ⊎ RequestBody)
      → IsCounted (after_body go env p r key limits accounts armed body)
  unfolding after_body
  after_body-IsCounted p r key limits accounts armed (inl e) =
      let timed_out =
        armed
        && request_body_error_code e == "request_body_timeout"
        && env.deadline_passed p.world in
      if-both IsCounted (env.gateway.is_canceled p.world && not timed_out) (stop go env p gone)
        (stop go env p (body_refusal go env e)) (refl, inl refl) (refl, inl refl)
  after_body-IsCounted p r key limits accounts armed (inr body) =
      let loop = run_loop go env p r key limits accounts body in
      let refusal = stop go env p (body_refusal go env body_deadline) in
      let unclear = armed && not (env.clears_deadline p.world) in
      if-both IsCounted (env.gateway.is_canceled p.world) (stop go env p gone)
        (if unclear then refusal else loop) (refl, inl refl)
        (if-both IsCounted unclear refusal loop (refl, inl refl)
          (run_loop-IsCounted p r key limits accounts body))

  with_slots-IsCounted :
      (p : Proxy S) (r : HttpRequest) (key : ApiKey) (limits : Limits) (accounts : Accounts S)
      → IsCounted (with_slots go env p r key limits accounts)
  unfolding with_slots
  with_slots-IsCounted p r key limits accounts =
      let (w, deadline) = env.arm_deadline p.world r in
      elim (Option-cases deadline) [
        | inl e ↦ rw (e, with_slots) (refl, inl refl)
        | inr (armed, e) ↦
            let (w₁, body) = request_body_factory go env w r in
            rw (e, with_slots)
              (after_body-IsCounted (in_world go env p w₁) r key limits accounts armed body)
      ]

  with_gateway_slot-IsCounted :
      (p : Proxy S) (r : HttpRequest) (key : ApiKey) (limits : Limits) (accounts : Accounts S)
      → IsCounted (with_gateway_slot go env p r key limits accounts)
  unfolding with_gateway_slot
  with_gateway_slot-IsCounted p r key limits accounts =
      let limit = limits.max_concurrent_requests_per_key in
      elim (Acquired-cases (api_key_acquire p.key_slots key.id limit)) [
        | inl e ↦ rw (e, with_gateway_slot) (refl, inl refl)
        | inr (inl e) ↦ rw (e, with_gateway_slot) (with_slots-IsCounted p r key limits accounts)
        | inr (inr (slots, e)) ↦
            rw (e, with_gateway_slot)
              (with_slots-IsCounted (record p { key_slots = slots }) r key limits accounts)
      ]

  within_limits-IsCounted :
      (p : Proxy S) (r : HttpRequest) (key : ApiKey) (limits : Limits) (accounts : Accounts S)
      → IsCounted (within_limits go env p r key limits accounts)
  unfolding within_limits
  within_limits-IsCounted p r key limits accounts =
      elim (Acquired-cases (gateway_acquire p.in_flight limits.max_concurrent_gateway_requests)) [
        | inl e ↦ rw (e, within_limits) (refl, inl refl)
        | inr (inl e) ↦ rw (e, within_limits) (with_gateway_slot-IsCounted p r key limits accounts)
        | inr (inr (n, e)) ↦
            rw (e, within_limits)
              (with_gateway_slot-IsCounted (record p { in_flight = n }) r key limits accounts)
      ]

  within_tokens-IsCounted :
      (p : Proxy S) (r : HttpRequest) (key : ApiKey) (limits : Limits) (accounts : Accounts S)
      → IsCounted (within_tokens go env p r key limits accounts)
  unfolding within_tokens
  within_tokens-IsCounted p r key limits accounts =
      let tokens =
        token_allow p.tokens key.id
          (effective_limit key.tokens_per_minute limits.tokens_per_minute_per_key)
          (env.now p.world) in
      let p₁ : Proxy S = record p { tokens = tokens.limiter } in
      if-both IsCounted (not tokens.allowed)
        (stop go env p₁ (limited tokens.retry_after "api_key_token_rate_limited"))
        (within_limits go env p₁ r key limits accounts) (refl, inl refl)
        (within_limits-IsCounted p₁ r key limits accounts)

  to_accounts-IsCounted :
      (p : Proxy S) (r : HttpRequest) (key : ApiKey) (limits : Limits)
      → IsCounted (to_accounts go env p r key limits)
  unfolding to_accounts
  to_accounts-IsCounted p r key limits =
      elim (Bool-cases (not (is_pos (get_or key.routing_pool_id (pos 0))))) [
        | inl e ↦ rw (e, to_accounts) (refl, inl refl)
        | inr e ↦ elim (Option-cases env.accounts) [
          | inl a ↦ simp (e, a, to_accounts) (refl, inl refl)
          | inr (accounts, a) ↦
              simp (e, a, to_accounts) (within_tokens-IsCounted p r key limits accounts)
        ]
      ]

  dispatch-IsCounted :
      (p : Proxy S) (r : HttpRequest) (key : ApiKey) (limits : Limits)
      → IsCounted (dispatch go env p r key limits)
  unfolding dispatch
  dispatch-IsCounted p r key limits =
      let rate =
        rate_allow p.rates key.id
          (effective_limit key.requests_per_minute limits.requests_per_minute_per_key)
          (env.now p.world) in
      let p₁ : Proxy S = record p { rates = rate.limiter } in
      let is_list = r.method == "GET" && r.path == "/v1/models" in
      let (w, written) = env.write_local_models p.world key in
      let listed =
        if written
        then models_written
        else refused_with 500 "internal_error" "could not list models" "internal_error" in
      let models = stop go env (in_world go env p₁ w) listed in
      let rest = to_accounts go env p₁ r key limits in
      if-both IsCounted (not rate.allowed)
        (stop go env p₁ (limited rate.retry_after "api_key_request_rate_limited"))
        (if is_list then models else rest) (refl, inl refl)
        (if-both IsCounted is_list models rest (refl, inl refl)
          (to_accounts-IsCounted p₁ r key limits))

  pub finish-settles :
      (p : Proxy S) (r : HttpRequest) (key : ApiKey) (limits : Limits)
      → env.gateway.has_budgets ≡ true
      → let e = dispatch go env p r key limits in
        let w' = (finish go env key limits e).0.world in
        ((e.admissions ≡ 0) × (w' ≡ e.proxy.world))
        ⊎ ((e.admissions ≡ 1)
            × ((w : S) × (id : String) × ((env.gateway.admit_budget w).1 ≡ inl id)
                × (w' ≡ settlement env e.proxy.world id e.usage)))
  unfolding finish
  finish-settles p r key limits b =
      let e = dispatch go env p r key limits in
      let (counted, granted) = dispatch-IsCounted p r key limits in
      elim (Bool-cases (e.admission_id == "")) [
        | inl none_granted ↦
            inl (ground (arith, counted, none_granted), simp (none_granted, finish) refl)
        | inr some_granted ↦ inr (
          ground (arith, counted, some_granted),
          elim granted [
            | inl blank ↦ let f = (string_eq.beq_iff e.admission_id "").1 blank in cc
            | inr (w, given) ↦ (w, e.admission_id, given, simp (some_granted, b, finish) refl)
          ],
        )
      ]

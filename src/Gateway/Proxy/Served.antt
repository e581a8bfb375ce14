-- ===== src/Gateway/Proxy/Served.antt =====
-- gateway/proxy.go: what ServeHTTP has given back when it returns.
use n2api.Base.{
  ◌≡◌, refl, inl, inr, true, not, ◌&&◌, ◌==◌, nat_eq, string_eq, Bool-cases, Option-cases, ℤ,
  int_eq,
}
use n2api.Go.{Stdlib}
use n2api.Gateway.Limits.Concurrency.{in_flight}
use n2api.Gateway.Proxy.Routes.{HttpRequest, ApiKey, is_supported_route, bearer_token}
use n2api.Gateway.Proxy.Environment.{
  Limits, Authenticated, key_of, unauthorized, authentication_unavailable, authentication_failed,
  Environment, Proxy, Answer, Ending,
}
use n2api.Gateway.Proxy.Handler.{
  in_world, dispatch, finish, error_for, after_authentication, serve_http,
}
use n2api.Gateway.Proxy.Given.{Returned, dispatch-Returned, is_answer}

module _ {S : Type 0} (go : Stdlib) (env : Environment S) where
  -- After ServeHTTP: the slots are as they were, and there is an answer.
  record Served (p : Proxy S) (r : Proxy S × Answer) : Type 0 where
    in_flight_back : r.0.in_flight ≡ p.in_flight
    key_slots_back : (id : ℤ) → in_flight id r.0.key_slots ≡ in_flight id p.key_slots
    is_answered : is_answer r.1 ≡ true

  refusal-Served :
      (p : Proxy S) (w : S) (answer : Answer)
      → is_answer answer ≡ true
      → Served p (in_world go env p w, answer)
  refusal-Served p w answer h = record {
    in_flight_back = refl;
    key_slots_back = λ id. refl;
    is_answered = h;
  }

  finish-Served :
      (p : Proxy S) (key : ApiKey) (limits : Limits) (e : Ending S)
      → Returned go env p e
      → Served p (finish go env key limits e)
  unfolding finish
  finish-Served p key limits e h =
      elim (Bool-cases (not (e.admission_id == "") && env.gateway.has_budgets)) [
        | inl b ↦
            simp (b, finish)
              (record {
                in_flight_back = h.same_in_flight;
                key_slots_back = h.same_key_slots;
                is_answered = h.answered;
              })
        | inr b ↦
            simp (b, finish)
              (record {
                in_flight_back = h.same_in_flight;
                key_slots_back = h.same_key_slots;
                is_answered = h.answered;
              })
      ]

  after_authentication-Served :
      (p : Proxy S) (r : HttpRequest) (a : Authenticated)
      → Served p (after_authentication go env p r a)
  unfolding after_authentication
  after_authentication-Served p r unauthorized =
      refusal-Served p p.world (error_for go env 401 "unauthorized" "invalid bearer token") refl
  after_authentication-Served p r authentication_unavailable =
      refusal-Served p p.world
        (error_for go env 503 "authentication_unavailable" "api key authentication unavailable")
        refl
  after_authentication-Served p r authentication_failed =
      refusal-Served p p.world
        (error_for go env 500 "internal_error" "api key authentication failed") refl
  after_authentication-Served p r (key_of key) =
      let limits = env.gateway_settings p.world in
      finish-Served p key limits (dispatch go env p r key limits)
        (dispatch-Returned go env p r key limits)

  serve_http-Served : (p : Proxy S) (r : HttpRequest) → Served p (serve_http go env p r)
  unfolding serve_http
  serve_http-Served p r = elim (Bool-cases (not (is_supported_route go r))) [
    | inl e ↦
        rw (e, serve_http)
          (refusal-Served p p.world (error_for go env 404 "unsupported_route" "unsupported route")
            refl)
    | inr e ↦ elim (Bool-cases (not env.has_auth)) [
      | inl a ↦
          simp (e, a, serve_http)
            (refusal-Served p p.world
              (error_for go env 503 "service_unavailable" "gateway service unavailable") refl)
      | inr a ↦ elim (Option-cases (bearer_token go r.authorization)) [
        | inl b ↦
            simp (e, a, b, serve_http)
              (refusal-Served p p.world (error_for go env 401 "unauthorized" "missing bearer token")
                refl)
        | inr (token, b) ↦
            let (w, authenticated) = env.authenticate p.world token in
            let served = after_authentication-Served (in_world go env p w) r authenticated in
            simp (e, a, b, serve_http)
              (record {
                in_flight_back = served.in_flight_back;
                key_slots_back = served.key_slots_back;
                is_answered = served.is_answered;
              })
      ]
    ]
  ]

  -- When ServeHTTP returns, each slot of the gateway and of the key that it took is given back, and
  -- the client has its answer: its loop neither ends without one nor runs on.
  pub serve_http-gives_back :
      (p : Proxy S) (r : HttpRequest) (id : ℤ)
      → let (p', answer) = serve_http go env p r in
        (p'.in_flight ≡ p.in_flight)
        × (in_flight id p'.key_slots ≡ in_flight id p.key_slots)
        × (is_answer answer ≡ true)
  serve_http-gives_back p r id =
      let served = serve_http-Served p r in
      (served.in_flight_back, served.key_slots_back id, served.is_answered)

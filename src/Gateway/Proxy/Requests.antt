-- ===== src/Gateway/Proxy/Requests.antt =====
-- Runs of ServeHTTP, and the theorems about it at a proxy with one account.
use n2api.Base.{
  ℕ, ◌+◌, String, ◌≡◌, refl, ◌⊎◌, subst, inl, inr, true, false, none, some, [], ◌∷◌, ◌==◌, nat_eq,
  string_eq, pos, int_eq,
}
use n2api.Samples.{plain_go}
use n2api.Gateway.Limits.Concurrency.{
  in_flight, effective_limit, gateway_acquire, gateway_release, api_key_acquire, api_key_release,
}
use n2api.Gateway.Limits.Rate.{rate_allow, token_allow, token_record}
use n2api.Gateway.Proxy.Codes.{authorization_failure_status, retryable_upstream_status}
use n2api.Gateway.Proxy.Serving.{SelectedAccount, Response, answered, Gateway, relayed}
use n2api.Gateway.Proxy.Routes.{
  HttpRequest, ApiKey, is_supported_route, is_responses_subroute, endpoint_for_request,
  api_key_allows_model,
}
use n2api.Gateway.Proxy.Routing.{Accounts, select_account_for_request, response_affinity_selection}
use n2api.Gateway.Proxy.Failover.{serve}
use n2api.Gateway.Proxy.Environment.{Limits, key_of, Environment, Proxy, outcome_of}
use n2api.Gateway.Proxy.Handler.{request_body_factory, dispatch, finish, serve_http}
use n2api.Gateway.Proxy.Given.{is_answer}
use n2api.Gateway.Proxy.Served.{serve_http-gives_back}
use n2api.Gateway.Proxy.Settled.{settlement, finish-settles}

abbrev account : SelectedAccount
account = record {
  account_id = pos 1;
  account_type = "api";
  authorization_token = "t";
  max_concurrent_requests = pos 1;
  routing_pool_error = "";
}

abbrev ok_answer : Response
ok_answer = record { status = 200; retry_after = ""; message = ""; failure_body = "" }

-- The state counts the settlements.
abbrev gateway : Gateway ℕ
gateway = record {
  select_account = λ w failed. (w, account, none);
  acquire_account = λ w id limit. (w, true);
  release_account = λ w id. w;
  has_budgets = true;
  admit_budget = λ w. (w, inl "a");
  record_account_used = λ w id. (w, true);
  creates_request = λ w a. true;
  client_error = λ w a. none;
  send = λ w a. (w, answered ok_answer);
  passes_through = λ w status body. false;
  has_refresher = false;
  refresh_authorization = λ w id token status message.
      (w, record { token = ""; retry = false; failure_recorded = false; failed = false });
  record_failure = λ w id status retry message. w;
  record_recovered = λ w id. w;
  is_canceled = λ w. false;
  write_response = λ w a resp. (w, "", record { total_tokens = pos 7; is_known = true });
}

abbrev accounts : Accounts ℕ
accounts = record {
  pools =
      record {
        for_model = λ w pool model endpoint excluded. (w, account, none);
        for_session = λ w pool model endpoint session excluded. (w, account, none);
      }
      ∷ [];
  sticky = [];
  any_account = λ w model endpoint excluded. (w, account, none);
  by_id = none;
  single = λ w pool model endpoint. ((w, account, none), true);
}

abbrev key_one : ApiKey
key_one = record {
  id = pos 1;
  requests_per_minute = pos 60;
  tokens_per_minute = pos 1000;
  routing_pool_id = some (pos 3);
  model_policy = "selected";
  allowed_models = "gpt" ∷ [];
}

abbrev limits : Limits
limits = record {
  requests_per_minute_per_key = pos 0;
  tokens_per_minute_per_key = pos 0;
  max_concurrent_gateway_requests = pos 2;
  max_concurrent_requests_per_key = pos 1;
  max_concurrent_requests_per_account = pos 1;
}

abbrev environment : Environment ℕ
environment = record {
  now = λ w. 60_000_000_000;
  has_auth = true;
  authenticate = λ w token. (w, key_of key_one);
  gateway_settings = λ w. limits;
  write_local_models = λ w key. (w, true);
  max_accepted_body = 100;
  max_replay_body = 50;
  arm_deadline = λ w r. (w, some true);
  deadline_passed = λ w. false;
  clears_deadline = λ w. true;
  read_body = λ w n. (w, inr 20);
  normalize_body =
      λ w. (w, inr (record { model = "gpt"; session_id = "s"; previous_response_id = "" }));
  accounts = some accounts;
  find_response_affinity = λ w. none;
  estimate_cost = λ w usage. pos 3;
  settle_budget = λ w id tokens cost known at. (w + 1, true);
  warn_unsettled = λ w. w;
  gateway = gateway;
}

-- Another request is being served.
abbrev proxy : Proxy ℕ
proxy = record {
  world = 0;
  in_flight = pos 1;
  key_slots = (pos 2, 1) ∷ [];
  rates = record { default_limit = pos 0; keys = [] };
  tokens = record { default_limit = pos 0; keys = [] };
}

abbrev request : HttpRequest
request = record {
  method = "POST";
  path = "/v1/chat/completions";
  authorization = "t";
  session_headers = ("", "");
  has_body = true;
  content_length = pos 20;
}

is_served : (serve_http plain_go environment proxy request).1 ≡ outcome_of (relayed ok_answer "")
unfolding serve_http serve is_supported_route is_responses_subroute rate_allow token_allow
    gateway_acquire api_key_acquire request_body_factory response_affinity_selection
    api_key_allows_model retryable_upstream_status authorization_failure_status effective_limit
    endpoint_for_request select_account_for_request
is_served = refl

settles_once : (serve_http plain_go environment proxy request).0.world ≡ 1
unfolding serve_http serve is_supported_route is_responses_subroute rate_allow token_allow
    gateway_acquire api_key_acquire request_body_factory response_affinity_selection
    api_key_allows_model retryable_upstream_status authorization_failure_status effective_limit
    endpoint_for_request select_account_for_request gateway_release api_key_release token_record
settles_once = refl

serve_http-gives_back_example :
    let (p', answer) = serve_http plain_go environment proxy request in
    (p'.in_flight ≡ pos 1) × (in_flight (pos 1) p'.key_slots ≡ 0) × (is_answer answer ≡ true)
serve_http-gives_back_example = serve_http-gives_back plain_go environment proxy request (pos 1)

a_is_no_blank : (w : ℕ) (id : String) → (gateway.admit_budget w).1 ≡ inl id → (id == "") ≡ false
a_is_no_blank w id e =
    let same : "a" ≡ id = cc in subst (λ (t : String). (t == "") ≡ false) same refl

finish-settles_example :
    let e = dispatch plain_go environment proxy request key_one limits in
    let w' = (finish plain_go environment key_one limits e).0.world in
    ((e.admissions ≡ 0) × (w' ≡ e.proxy.world))
    ⊎ ((e.admissions ≡ 1)
        × ((w : ℕ) × (id : String) × ((gateway.admit_budget w).1 ≡ inl id)
            × (w' ≡ settlement environment e.proxy.world id e.usage)))
finish-settles_example =
    finish-settles plain_go environment a_is_no_blank proxy request key_one limits refl

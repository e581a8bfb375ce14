-- ===== src/Gateway/Proxy/Environment.antt =====
-- gateway/proxy.go: what ServeHTTP asks of the rest of the program, the state of the proxy, and how a
-- request ends.
use n2api.Base.{ℕ, String, ◌⊎◌, Bool, Option, nat_eq, string_eq, ℤ, int_eq}
use n2api.Gateway.Limits.Concurrency.{InFlight}
use n2api.Gateway.Limits.Rate.{Limiter}
use n2api.Gateway.Proxy.Codes.{BodyError}
use n2api.Gateway.Proxy.Serving.{Usage, Gateway, Outcome}
use n2api.Gateway.Proxy.Routes.{HttpRequest, ApiKey}
use n2api.Gateway.Proxy.Routing.{Accounts, Affinity}

-- The fields of admin.GatewaySettings that limit a request.
pub record Limits : Type 0 where
  pub requests_per_minute_per_key : ℤ
  pub tokens_per_minute_per_key : ℤ
  pub max_concurrent_gateway_requests : ℤ
  pub max_concurrent_requests_per_key : ℤ
  pub max_concurrent_requests_per_account : ℤ

-- What AuthenticateAPIKey returns.
pub data Authenticated : Type 0 where
  key_of : ApiKey → Authenticated
  unauthorized authentication_unavailable authentication_failed : Authenticated

-- What is read out of a body: the session in it, the identifier of a previous response.
pub record ModelBody : Type 0 where
  pub model : String
  pub session_id : String
  pub previous_response_id : String

-- The results of requestBodyFactoryWithOptions that the loop depends on.
pub record RequestBody : Type 0 where
  pub max_attempts : ℕ
  pub content : ModelBody

-- The rest of the program, and the options of the proxy.
pub record Environment (S : Type 0) : Type 0 where
  -- time.Now()
  pub now : S → ℕ
  pub has_auth : Bool
  pub authenticate : S → String → S × Authenticated
  pub gateway_settings : S → Limits
  -- whether writeLocalModels succeeds
  pub write_local_models : S → ApiKey → S × Bool
  pub max_accepted_body : ℕ
  pub max_replay_body : ℕ
  -- armRequestBodyDeadline: none is an error, else whether the deadline is armed; whether it passed,
  -- and whether it can be cleared
  pub arm_deadline : S → HttpRequest → S × Option Bool
  pub deadline_passed : S → Bool
  pub clears_deadline : S → Bool
  -- at most so many bytes of the body: an error, or how many were read
  pub read_body : S → ℕ → S × (BodyError ⊎ ℕ)
  -- normalizeModelRequestBodyWithStream on those bytes
  pub normalize_body : S → S × (BodyError ⊎ ModelBody)
  -- the accounts, where there are any, and FindResponseAffinity, where there is a repository
  pub accounts : Option (Accounts S)
  pub find_response_affinity : S → Option (String → ℤ → Affinity)
  -- the cost of an estimate, and SettleAPIKeyBudgetUsage
  pub estimate_cost : S → Usage → ℤ
  pub settle_budget : S → String → ℤ → ℤ → Bool → ℕ → S × Bool
  -- the warning in the log where the settlement fails
  pub warn_unsettled : S → S
  -- what the loop over the accounts asks for, but for the selection
  pub gateway : Gateway S

-- The state of a Proxy: its limiters, and the rest of the program.
pub record Proxy (S : Type 0) : Type 0 where
  pub world : S
  pub in_flight : ℤ
  pub key_slots : InFlight
  pub rates : Limiter
  pub tokens : Limiter

-- What the client is told: an error, after so many seconds where it may try again, the models, or
-- the end of the loop.
pub data Answer : Type 0 where
  refused_with : ℕ → String → String → String → Answer
  limited : ℕ → String → Answer
  models_written gone : Answer
  outcome_of : Outcome → Answer

-- What is left to the deferred function: budgetAdmission.ID and observedUsage; with the number of
-- admissions.
pub record Ending (S : Type 0) : Type 0 where
  pub proxy : Proxy S
  pub answer : Answer
  pub admission_id : String
  pub usage : Usage
  pub admissions : ℕ

abbrev pub max_replayable_attempts : ℕ
max_replayable_attempts = 5

-- ===== src/Gateway/Proxy/Routing.antt =====
-- gateway/proxy.go: which selection of the provider a request takes, by its key, its session and the
-- response that it continues.
use n2api.Base.{
  String, Bool, true, false, not, ◌&&◌, ◌||◌, Option, none, some, List, [], ◌∷◌, if◌then◌else◌,
  ◌==◌, nat_eq, string_eq, is_some, ℤ, pos, is_pos, int_eq,
}
use n2api.Go.{Stdlib}
use n2api.Provider.Chain.{accounts_unavailable}
use n2api.Gateway.Proxy.Codes.{
  SelectFailure, response_affinity_unknown, response_affinity_account_unavailable, of_selection,
}
use n2api.Gateway.Proxy.Serving.{SelectedAccount}
use n2api.Gateway.Proxy.Routes.{HttpRequest, ApiKey, response_id_for_affinity_lookup}

-- A method of the accounts that returns a selected account and an error, or none.
abbrev pub Choice : Type 0 → Type 0
Choice S = S × SelectedAccount × Option SelectFailure

-- SelectedAccount{}
abbrev pub nobody : SelectedAccount
nobody = record {
  account_id = pos 0;
  account_type = "";
  authorization_token = "";
  max_concurrent_requests = pos 0;
  routing_pool_error = "";
}

-- The methods for one pool, with a session or without: the pool, the model, the endpoint, the
-- session, the accounts to leave out. An implementation without endpoints ignores them.
pub record PoolMethods (S : Type 0) : Type 0 where
  pub for_model : S → ℤ → String → String → List ℤ → Choice S
  pub for_session : S → ℤ → String → String → String → List ℤ → Choice S

-- AccountProvider, and which of the other interfaces it implements.
pub record Accounts (S : Type 0) : Type 0 where
  -- EndpointAwareRoutingPoolChainAccountProvider, RoutingPoolChainAccountProvider,
  -- EndpointAwareRoutingPoolAccountProvider and RoutingPoolAccountProvider, in this order
  pub pools : List (PoolMethods S)
  -- EndpointAwareStickyAccountProvider and StickyAccountProvider, in this order
  pub sticky : List (S → String → String → String → List ℤ → Choice S)
  -- EndpointAwareAccountProvider, or the method of AccountProvider itself
  pub any_account : S → String → String → List ℤ → Choice S
  -- ResponseAffinityAccountProvider with its endpoint-aware version, where there is one: the
  -- selection by identifier, and the single account with whether it is the only one
  pub by_id : Option (S → ℤ → ℤ → String → String → Choice S)
  pub single : S → ℤ → String → String → Choice S × Bool

-- What FindResponseAffinity returns.
pub data Affinity : Type 0 where
  affinity_failed no_affinity : Affinity
  affinity_of : ℤ → Affinity

pub record ResponseAffinityRoute : Type 0 where
  pub account_id : ℤ
  pub require_single : Bool

abbrev pub is_enabled : ResponseAffinityRoute → Bool
is_enabled r = is_pos r.account_id || r.require_single

abbrev pub no_route : ResponseAffinityRoute
no_route = record { account_id = pos 0; require_single = false }

-- none is an error; the lookup is none where there is no repository of affinities.
unfoldable pub response_affinity_selection :
    Stdlib
    → Option (String → ℤ → Affinity)
    → HttpRequest
    → String
    → ℤ
    → Option ResponseAffinityRoute
response_affinity_selection go none r previous pool = some no_route
response_affinity_selection go (some find) r previous pool =
    let response_id = response_id_for_affinity_lookup go r previous in
    if response_id == "" then some no_route else elim (find response_id pool) [
      | affinity_failed ↦ none
      | no_affinity ↦ some (record { account_id = pos 0; require_single = true })
      | affinity_of id ↦
          if is_pos id then some (record { account_id = id; require_single = false }) else none
    ]

-- The pool that a key is bound to, or 0.
abbrev pub api_key_routing_pool : ApiKey → ℤ
api_key_routing_pool key = elim key.routing_pool_id [
  | none ↦ pos 0
  | some id ↦ if is_pos id then id else pos 0
]

module _ {S : Type 0} (go : Stdlib) (accounts : Accounts S) where
  abbrev pub select_global_account : S → String → String → String → List ℤ → Choice S
  select_global_account w model endpoint session excluded =
      if not (session == "")
      then elim accounts.sticky [
        | [] ↦ accounts.any_account w model endpoint excluded
        | select ∷ more ↦ select w model endpoint session excluded
      ]
      else accounts.any_account w model endpoint excluded

  unfoldable pub select_account_for_key : S → ApiKey → String → String → String → List ℤ → Choice S
  select_account_for_key w key model endpoint session excluded =
      let pool = api_key_routing_pool key in
      if not (is_pos pool)
      then select_global_account w model endpoint session excluded
      else elim accounts.pools [
        | [] ↦ (w, nobody, some (of_selection accounts_unavailable))
        | methods ∷ more ↦
            if not (go.trim_space session == "")
            then methods.for_session w pool model endpoint session excluded
            else methods.for_model w pool model endpoint excluded
      ]

  -- An error of a selection that a response demands is one for the client.
  abbrev unavailable_on_error : Choice S → Choice S
  unavailable_on_error (w, selected, none) = (w, selected, none)
  unavailable_on_error (w, selected, some failure) =
      (w, selected, some response_affinity_account_unavailable)

  unfoldable pub select_account_for_request :
      S → ApiKey → String → String → String → ResponseAffinityRoute → List ℤ → Choice S
  unfolding select_account_for_key
  select_account_for_request w key model endpoint session affinity excluded =
      if not (is_enabled affinity)
      then select_account_for_key w key model endpoint session excluded
      else elim accounts.by_id [
        | none ↦ (w, nobody, some response_affinity_account_unavailable)
        | some by_id ↦
            let pool = api_key_routing_pool key in
            if is_pos affinity.account_id
            then unavailable_on_error (by_id w pool affinity.account_id model endpoint)
            else (let ((w₁, selected, failure), unique) = accounts.single w pool model endpoint in
                if not (is_some failure) && not unique
                then (w₁, nobody, some response_affinity_unknown)
                else unavailable_on_error (w₁, selected, failure))
      ]

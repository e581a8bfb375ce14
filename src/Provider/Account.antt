-- ===== src/Provider/Account.antt =====
-- provider/service.go, provider/scheduling.go and provider/endpoint.go: which accounts may serve a
-- request, and why others may not. Times are nanoseconds since Go's zero time.
use n2api.Base.{
  ℕ, String, Bool, true, false, not, ◌&&◌, ◌||◌, Option, none, some, List, [], ◌∷◌, ltb,
  if◌then◌else◌, ◌==◌, nat_eq, string_eq, get_or, keep, lookup, ℤ, pos, is_pos, int_eq,
}
use Prim.Native.String.{◌++◌ as str_append}
use n2api.Go.{Stdlib}

-- The fields of Account that scheduling reads.
pub record Account : Type 0 where
  pub id : ℤ
  pub enabled : Bool
  pub status : String
  pub priority : ℤ
  pub global_priority : ℤ
  pub routing_pool_priority : Option ℤ
  pub load_factor : ℤ
  pub last_error_at : Option ℕ
  pub rate_limited_until : Option ℕ
  pub circuit_open_until : Option ℕ

pub record AccountModel : Type 0 where
  pub model : String
  pub enabled : Bool
  pub metadata : List (String × String)

-- The texts that say why an account may not be used; `usable` is the empty text.
pub data Reason : Type 0 where
  usable account_excluded account_disabled account_rate_limited account_circuit_open : Reason
  account_expired model_not_configured model_disabled endpoint_unsupported : Reason
  status_is : String → Reason

-- `until == nil || until.After(now)` and `until != nil && until.After(now)`
abbrev pub unset_or_after : Option ℕ → ℕ → Bool
unset_or_after none now = true
unset_or_after (some until) now = ltb now until

abbrev pub set_and_after : Option ℕ → ℕ → Bool
set_and_after none now = false
set_and_after (some until) now = ltb now until

-- The two checks behind the switch of AccountSchedulable.
unfoldable pub timers_passed : Account → ℕ → Bool
timers_passed a now =
    if set_and_after a.rate_limited_until now
    then false
    else if set_and_after a.circuit_open_until now
    then false
    else true

unfoldable pub account_schedulable : Account → ℕ → Bool
unfolding timers_passed
account_schedulable a now =
    if not a.enabled
    then false
    else if a.status == "" || a.status == "active"
    then timers_passed a now
    else if a.status == "rate_limited"
    then (if unset_or_after a.rate_limited_until now then false else timers_passed a now)
    else if a.status == "circuit_open"
    then (if unset_or_after a.circuit_open_until now then false else timers_passed a now)
    else false

unfoldable pub timers_reason : Account → ℕ → Reason
timers_reason a now =
    if set_and_after a.rate_limited_until now
    then account_rate_limited
    else if set_and_after a.circuit_open_until now
    then account_circuit_open
    else usable

unfoldable pub account_unschedulable_reason : Account → ℕ → Reason
unfolding timers_reason
account_unschedulable_reason a now =
    if not a.enabled
    then account_disabled
    else if a.status == "" || a.status == "active"
    then timers_reason a now
    else if a.status == "rate_limited"
    then (if unset_or_after a.rate_limited_until now
        then account_rate_limited
        else timers_reason a now)
    else if a.status == "circuit_open"
    then (if unset_or_after a.circuit_open_until now
        then account_circuit_open
        else timers_reason a now)
    else if a.status == "disabled"
    then account_disabled
    else if a.status == "expired"
    then account_expired
    else status_is a.status

-- NormalizeEndpoint; none is ErrInvalidInput.
unfoldable pub normalize_endpoint : Stdlib → String → Option String
normalize_endpoint go endpoint =
    let e = go.to_lower (go.trim_space endpoint) in
    if e == ""
    then some ""
    else if e == "chat_completions" || e == "chat" || e == "/v1/chat/completions"
    then some "chat_completions"
    else if e == "responses" || e == "/v1/responses"
    then some "responses"
    else none

pub data Capability : Type 0 where
  supported unsupported unknown : Capability

unfoldable pub normalize_endpoint_capability : Stdlib → String → Capability
normalize_endpoint_capability go capability =
    let c = go.to_lower (go.trim_space capability) in
    if c == "supported" then supported else if c == "unsupported" then unsupported else unknown

-- The loop of EndpointCapability over its two keys; a missing key reads as the empty text.
unfoldable pub capability_of_keys : Stdlib → List (String × String) → List String → Capability
unfolding normalize_endpoint_capability
capability_of_keys go metadata [] = unknown
capability_of_keys go metadata (key ∷ keys) =
    let text = get_or (lookup key metadata) "" in
    elim (normalize_endpoint_capability go text) [
      | unknown ↦
          if not (go.trim_space text == "") then unknown else capability_of_keys go metadata keys
      | c ↦ c
    ]

unfoldable pub endpoint_capability : Stdlib → List (String × String) → String → Capability
endpoint_capability go metadata endpoint = elim (normalize_endpoint go endpoint) [
  | none ↦ unknown
  | some e ↦
      if e == ""
      then unknown
      else capability_of_keys go metadata (str_append "endpoint." e ∷ e ∷ [])
]

unfoldable pub endpoint_capability_unsupported : Stdlib → List (String × String) → String → Bool
endpoint_capability_unsupported go metadata endpoint =
    elim (endpoint_capability go metadata endpoint) [ unsupported ↦ true | _ ↦ false ]

-- The loop of selectionUnschedulableReasonForEndpoint over the models of an account.
unfoldable pub model_reason : Stdlib → String → String → Bool → List AccountModel → Reason
model_reason go model endpoint has_model [] =
    if has_model then model_disabled else model_not_configured
model_reason go model endpoint has_model (item ∷ items) =
    let skip = model_reason go model endpoint has_model items in
    let next = model_reason go model endpoint true items in
    if not (item.model == model)
    then skip
    else if endpoint_capability_unsupported go item.metadata endpoint
    then endpoint_unsupported
    else if item.enabled
    then usable
    else next

abbrev pub contains : ℤ → List ℤ → Bool
contains x [] = false
contains x (y ∷ ys) = y == x || contains x ys

unfoldable pub selection_unschedulable_reason :
    Stdlib → Account → String → String → List ℤ → ℕ → List AccountModel → Bool → Reason
selection_unschedulable_reason go a model endpoint excluded now models models_available =
    if contains a.id excluded
    then account_excluded
    else if not a.enabled
    then account_disabled
    else elim (account_unschedulable_reason a now) [
      | usable ↦
          if go.trim_space model == ""
          then usable
          else if not models_available
          then model_not_configured
          else model_reason go model endpoint false models
      | r ↦ r
    ]

abbrev pub normalized_load_factor : ℤ → ℤ
normalized_load_factor value = if is_pos value then value else pos 1

abbrev pub selection_priority : Account → ℤ
selection_priority a = elim a.routing_pool_priority [ some p ↦ p | none ↦ a.priority ]

abbrev pub global_account_priority : Account → ℤ
global_account_priority a = elim a.routing_pool_priority [
  | some _ ↦ a.global_priority
  | none ↦ a.priority
]

-- The loop of selectionCandidatesForEndpoint for requests without a model, over the excluded IDs
-- that it collected.
unfoldable pub schedulable_loop : List ℤ → ℕ → List Account → List Account × Bool
schedulable_loop excluded now [] = ([], false)
schedulable_loop excluded now (a ∷ rest) =
    let (candidates, has_enabled) = schedulable_loop excluded now rest in
    if not a.enabled
    then (candidates, has_enabled)
    else if contains a.id excluded
    then (candidates, true)
    else if not (account_schedulable a now)
    then (candidates, true)
    else (a ∷ candidates, true)

-- Only positive IDs are collected.
unfoldable pub schedulable_accounts : List ℤ → ℕ → List Account → List Account × Bool
unfolding schedulable_loop
schedulable_accounts excluded now accounts = schedulable_loop (keep is_pos excluded) now accounts

-- filterAccountsByEndpoint, once the models of the accounts are known.
unfoldable pub endpoint_blocked : Stdlib → String → String → List AccountModel → Bool
endpoint_blocked go model endpoint [] = false
endpoint_blocked go model endpoint (item ∷ items) =
    (item.model == model
      && item.enabled
      && endpoint_capability_unsupported go item.metadata endpoint)
    || endpoint_blocked go model endpoint items

unfoldable pub filter_accounts_by_endpoint :
    Stdlib → String → String → (ℤ → List AccountModel) → List Account → List Account
filter_accounts_by_endpoint go model endpoint models accounts =
    if go.trim_space model == "" || go.trim_space endpoint == ""
    then accounts
    else keep (λ a. not (endpoint_blocked go model endpoint (models a.id))) accounts

-- ===== src/Gateway/Proxy/Failover.antt =====
-- gateway/proxy.go: the loop of ServeHTTP over the accounts, from one account to the next where
-- it fails.
use n2api.Base.{
  ℕ, zero, suc, ◌+◌, String, ◌≡◌, refl, ◌⊎◌, inl, inr, Bool, true, false, not, ◌&&◌, ◌||◌, none,
  some, List, [], ◌∷◌, ◌++◌, ltb, leb, nat_beq, if◌then◌else◌, ◌==◌, nat_eq, string_eq, ℤ, pos,
  is_pos, int_eq,
}
use n2api.Go.{Stdlib}
use n2api.Store.Budget.Tables.{
  BudgetError, budget_initializing, request_budget_exceeded, token_budget_exceeded,
  cost_budget_exceeded,
}
use n2api.Gateway.Limits.Concurrency.{effective_limit}
use n2api.Gateway.Proxy.Codes.{
  retryable_upstream_status, upstream_status_error_code, upstream_request_error_code,
  upstream_request_error_message, SelectFailure, response_affinity_unknown,
  response_affinity_account_unavailable, is_accounts_unavailable, provider_error_code_for_selection,
  provider_error_message,
}
use n2api.Gateway.Proxy.Serving.{
  SelectedAccount, Response, Gateway, Serving, Outcome, error_reply, relayed, canceled,
  nothing_written, out_of_fuel, with_world, release, close_body, close_last_retryable,
}
use n2api.Gateway.Proxy.Upstream.{
  UpstreamEnd, no_request, no_answer, answer, endless, upstream_loop,
}
use n2api.Provider.Account.{contains}

unfoldable pub append_unique_int64 : List ℤ → ℤ → List ℤ
append_unique_int64 values value =
    if value == pos 0 || contains value values then values else values ++ (value ∷ [])

-- A pass of the loop: it returns, or goes on with the next attempt.
pub data Attempt : Type 0 where
  returns : Outcome → Attempt
  continues : Attempt

pub Attempt-cases : (a : Attempt) → ((outcome : Outcome) × (a ≡ returns outcome)) ⊎ (a ≡ continues)
Attempt-cases (returns outcome) = inl (outcome, refl)
Attempt-cases continues = inr refl

abbrev pub account_limited : Outcome
account_limited =
    error_reply 429 "rate_limit_exceeded" "provider account concurrency limit exceeded"
      "provider_account_concurrency_limited"

abbrev pub selection_reply : Stdlib → SelectedAccount → SelectFailure → Outcome
selection_reply go selected response_affinity_unknown =
    error_reply 409 "response_affinity_unknown"
      "response account affinity is unknown in this routing scope" "response_affinity_unknown"
selection_reply go selected response_affinity_account_unavailable =
    error_reply 503 "response_affinity_account_unavailable" "response account is unavailable"
      "response_affinity_account_unavailable"
selection_reply go selected failure =
    let code = provider_error_code_for_selection go failure selected.routing_pool_error in
    error_reply 503 code (provider_error_message code) code

abbrev pub budget_reply : BudgetError → Outcome
budget_reply request_budget_exceeded =
    error_reply 429 "rate_limit_exceeded" "api key budget exceeded"
      "api_key_request_budget_exceeded"
budget_reply token_budget_exceeded =
    error_reply 429 "rate_limit_exceeded" "api key budget exceeded" "api_key_token_budget_exceeded"
budget_reply cost_budget_exceeded =
    error_reply 429 "rate_limit_exceeded" "api key budget exceeded" "api_key_cost_budget_exceeded"
budget_reply budget_initializing =
    error_reply 503 "budget_initializing" "api key budget is initializing" "budget_initializing"
budget_reply _ = error_reply 500 "internal_error" "could not admit api key budget" "internal_error"

module _ {S : Type 0} (go : Stdlib) (g : Gateway S) where
  abbrev pub with_failed : Serving S → ℤ → Serving S
  with_failed st id = record st {
    failed_account_ids = append_unique_int64 st.failed_account_ids id;
  }

  abbrev pub with_fallback : Serving S → Serving S
  with_fallback st = record st { fallback_count = st.fallback_count + 1 }

  -- The response is relayed; the two deferred calls run when it returns.
  unfoldable pub relay : Serving S → SelectedAccount → Response → String → Serving S × Attempt
  relay st selected resp code =
      let (w, written, usage) = g.write_response st.world selected resp in
      let st₁ : Serving S = record st { world = w; observed_usage = usage } in
      (
        release g (close_body st₁) selected.account_id,
        returns (relayed resp (if written == "" then code else written)),
      )

  -- recordAccountRecovered
  abbrev pub record_account_recovered : Serving S → ℤ → Serving S
  record_account_recovered st id =
      if is_pos id then with_world st (g.record_recovered st.world id) else st

  abbrev pub record_account_failure : Serving S → ℤ → ℕ → String → String → Serving S
  record_account_failure st id status retry_after message =
      if is_pos id
      then with_world st (g.record_failure st.world id status retry_after message)
      else st

  abbrev pub with_failed_response : Serving S → SelectedAccount → Response → Bool → Serving S
  with_failed_response st selected resp failure_recorded =
      with_failed
        (if failure_recorded
          then st
          else record_account_failure st selected.account_id resp.status resp.retry_after
              resp.message)
        selected.account_id

  -- The end of a pass whose answer is not a failure of the account, or is the last one.
  unfoldable pub relay_answer :
      Serving S → SelectedAccount → Response → String → Serving S × Attempt
  unfolding relay
  relay_answer st selected resp code =
      if leb 200 resp.status && ltb resp.status 300
      then relay (record_account_recovered st selected.account_id) selected resp code
      else relay st selected resp code

  unfoldable pub after_response :
      ℕ → Serving S → SelectedAccount → Response → Bool → Serving S × Attempt
  unfolding relay relay_answer
  after_response left st selected resp failure_recorded =
      let code = upstream_status_error_code resp.status in
      if not (retryable_upstream_status resp.status)
      then relay_answer st selected resp ""
      else if g.passes_through st.world resp.status resp.failure_body
      then relay st selected resp code
      else let st₁ = with_failed_response st selected resp failure_recorded in
        if ltb 0 left
        then (
          record (with_fallback (release g st₁ selected.account_id)) { has_last_retryable = true },
          continues,
        )
        else relay_answer st₁ selected resp code

  unfoldable pub after_upstream :
      ℕ → Serving S → SelectedAccount → UpstreamEnd → Serving S × Attempt
  unfolding after_response
  after_upstream left st selected no_request = (
    release g st selected.account_id,
    returns (
        error_reply 502 "upstream_request_error" "could not create upstream request"
          "upstream_request_error"),
  )
  after_upstream left st selected (no_answer is_timeout) =
      let st₁ = release g st selected.account_id in
      if g.is_canceled st₁.world
      then (st₁, returns canceled)
      else let code = upstream_request_error_code is_timeout in
        let message = upstream_request_error_message code in
        let st₂ =
          with_failed (record_account_failure st₁ selected.account_id 502 "" message)
            selected.account_id in
        if ltb 0 left
        then (with_fallback st₂, continues)
        else (st₂, returns (error_reply 502 code message code))
  after_upstream left st selected (answer resp failure_recorded) =
      after_response left st selected resp failure_recorded
  after_upstream left st selected endless = (st, returns out_of_fuel)

  unfoldable pub use_account : Bool → ℕ → Serving S → SelectedAccount → Serving S × Attempt
  unfolding after_upstream upstream_loop
  use_account single left st selected =
      let (w, recorded) = g.record_account_used st.world selected.account_id in
      if not recorded
      then (
        release g (with_world st w) selected.account_id,
        returns (
            error_reply 500 "internal_error" "could not record provider account use"
              "internal_error"),
      )
      else let (st₁, end) =
          upstream_loop go g 2 single false
            (record st { world = w; used = selected.account_id ∷ st.used }) selected in
        after_upstream left st₁ selected end

  -- What AdmitAPIKeyBudget returned.
  unfoldable pub after_admission :
      Bool → ℕ → Serving S → SelectedAccount → (String ⊎ BudgetError) → Serving S × Attempt
  unfolding use_account
  after_admission single left st selected (inr e) =
      (release g st selected.account_id, returns (budget_reply e))
  after_admission single left st selected (inl id) =
      use_account single left (record st { admission_id = id; admissions = st.admissions + 1 })
        selected

  unfoldable pub admit_and_use : Bool → ℕ → Serving S → SelectedAccount → Serving S × Attempt
  unfolding after_admission
  admit_and_use single left st selected =
      if st.admission_id == "" && g.has_budgets
      then (let (w, admitted) = g.admit_budget st.world in
          after_admission single left (with_world st w) selected admitted)
      else use_account single left st selected

  -- From the selection of an account that did not fail before.
  unfoldable pub try_account : ℤ → Bool → ℕ → Serving S → SelectedAccount → Serving S × Attempt
  unfolding admit_and_use append_unique_int64
  try_account default_limit single left st selected =
      let limit = effective_limit selected.max_concurrent_requests default_limit in
      let (w, granted) = g.acquire_account st.world selected.account_id limit in
      if not granted
      then (let st₁ : Serving S =
            with_failed (record st { world = w; account_concurrency_limited = true })
              selected.account_id in
          if ltb 0 left then (with_fallback st₁, continues) else (st₁, returns account_limited))
      else admit_and_use single left (record st { world = w; held = selected.account_id ∷ st.held })
          selected

  -- From an account that was selected.
  unfoldable pub after_selection : ℤ → Bool → ℕ → Serving S → SelectedAccount → Serving S × Attempt
  unfolding try_account
  after_selection default_limit single left st selected =
      if not (selected.account_id == pos 0) && contains selected.account_id st.failed_account_ids
      then (
        st,
        returns (
            error_reply 502 "upstream_unavailable" "upstream request failed"
              "upstream_unavailable"),
      )
      else try_account default_limit single left st selected

  unfoldable pub attempt : ℤ → Bool → ℕ → Serving S → Serving S × Attempt
  unfolding after_selection
  attempt default_limit single left st =
      let (w, selected, error) = g.select_account st.world st.failed_account_ids in
      let st₁ = close_last_retryable (with_world st w) in
      elim error [
        | some failure ↦ (
          st₁,
          returns (
              if st.account_concurrency_limited && is_accounts_unavailable failure
              then account_limited
              else selection_reply go selected failure),
        )
        | none ↦
            after_selection default_limit single left
              (record st₁ { attempt_count = st.attempt_count + 1 }) selected
      ]

  -- The loop, by the number of attempts that are left; `single` is `maxAttempts == 1`.
  unfoldable pub serve_attempts : ℤ → Bool → ℕ → Serving S → Serving S × Outcome
  unfolding attempt
  serve_attempts default_limit single zero st = (st, nothing_written)
  serve_attempts default_limit single (suc left) st =
      let (st₁, turn) = attempt default_limit single left st in
      elim turn [
        | returns outcome ↦ (st₁, outcome)
        | continues ↦ serve_attempts default_limit single left st₁
      ]

  abbrev pub start : S → Serving S
  start w = record {
    world = w;
    failed_account_ids = [];
    account_concurrency_limited = false;
    has_last_retryable = false;
    admission_id = "";
    observed_usage = record { total_tokens = pos 0; is_known = false };
    attempt_count = 0;
    fallback_count = 0;
    held = [];
    open_bodies = 0;
    used = [];
    asked = [];
    admissions = 0;
  }

  unfoldable pub serve : ℤ → ℕ → S → Serving S × Outcome
  unfolding serve_attempts
  serve default_limit max_attempts w =
      serve_attempts default_limit (nat_beq max_attempts 1) max_attempts (start w)

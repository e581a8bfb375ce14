-- ===== src/Gateway/Proxy/Answers.antt =====
-- gateway/proxy.go: the loop of ServeHTTP always comes to a reply.
use n2api.Base.{
  ℕ, zero, suc, ◌+◌, ◌<◌, String, ◌≡◌, refl, ◌⊎◌, inl, inr, Bool, true, false, ◌∷◌, arith, ltb,
  nat_beq, ltb→lt, nat_eq, string_eq, Option-cases, ℤ, int_eq,
}
use n2api.Go.{Stdlib}
use n2api.Gateway.Proxy.Serving.{
  SelectedAccount, Response, Gateway, Serving, Outcome, with_world, close_last_retryable,
  nothing_written, out_of_fuel,
}
use n2api.Gateway.Proxy.Upstream.{
  UpstreamEnd, no_request, no_answer, answer, endless, upstream_loop,
}
use n2api.Gateway.Proxy.Failover.{
  selection_reply, budget_reply, Attempt, Attempt-cases, returns, continues, relay, relay_answer,
  after_response, after_upstream, use_account, admit_and_use, try_account, attempt, serve_attempts,
  start, serve, with_failed_response, after_admission, after_selection,
}
use n2api.Gateway.Proxy.Codes.{
  SelectFailure, response_affinity_unknown, response_affinity_account_unavailable, not_connected,
  not_configured, of_selection, upstream_status_error_code,
}
use n2api.Gateway.Limits.Concurrency.{effective_limit}
use n2api.Gateway.Proxy.Passes.{is_endless, upstream_loop-ends}
use n2api.Store.Budget.Tables.{
  BudgetError, invalid_input, not_found, budget_initializing, request_budget_exceeded,
  token_budget_exceeded, cost_budget_exceeded, database_error,
}

abbrev pub is_reply : Outcome → Bool
is_reply nothing_written = false
is_reply out_of_fuel = false
is_reply _ = true

-- An attempt returns with a reply, or goes on while attempts are left.
abbrev pub is_settled : ℕ → Attempt → Bool
is_settled left (returns outcome) = is_reply outcome
is_settled left continues = ltb 0 left

selection_reply-is_reply :
    (go : Stdlib) (selected : SelectedAccount) (failure : SelectFailure)
    → is_reply (selection_reply go selected failure) ≡ true
selection_reply-is_reply go selected response_affinity_unknown = refl
selection_reply-is_reply go selected response_affinity_account_unavailable = refl
selection_reply-is_reply go selected not_connected = refl
selection_reply-is_reply go selected not_configured = refl
selection_reply-is_reply go selected (of_selection e) = refl

budget_reply-is_reply : (e : BudgetError) → is_reply (budget_reply e) ≡ true
budget_reply-is_reply request_budget_exceeded = refl
budget_reply-is_reply token_budget_exceeded = refl
budget_reply-is_reply cost_budget_exceeded = refl
budget_reply-is_reply budget_initializing = refl
budget_reply-is_reply invalid_input = refl
budget_reply-is_reply not_found = refl
budget_reply-is_reply database_error = refl

module _ {S : Type 0} (go : Stdlib) (g : Gateway S) where
  relay-settled :
      (left : ℕ) (st : Serving S) (selected : SelectedAccount) (resp : Response) (code : String)
      → is_settled left (relay go g st selected resp code).1 ≡ true
  unfolding relay
  relay-settled left st selected resp code = refl

  pub relay_answer-settled :
      (left : ℕ) (st : Serving S) (selected : SelectedAccount) (resp : Response) (code : String)
      → is_settled left (relay_answer go g st selected resp code).1 ≡ true
  unfolding relay_answer relay
  relay_answer-settled left st selected resp code = ground arith

  after_response-settled :
      (left : ℕ) (st : Serving S) (selected : SelectedAccount) (resp : Response) (recorded : Bool)
      → is_settled left (after_response go g left st selected resp recorded).1 ≡ true
  unfolding after_response
  after_response-settled left st selected resp recorded =
      let code = upstream_status_error_code resp.status in
      let failed = with_failed_response go g st selected resp recorded in
      ground (
        arith,
        relay_answer-settled left st selected resp "",
        relay-settled left st selected resp code,
        relay_answer-settled left failed selected resp code,
      )

  after_upstream-settled :
      (left : ℕ) (st : Serving S) (selected : SelectedAccount) (end : UpstreamEnd)
      → is_endless end ≡ false
      → is_settled left (after_upstream go g left st selected end).1 ≡ true
  unfolding after_upstream
  after_upstream-settled left st selected no_request n = refl
  after_upstream-settled left st selected (no_answer is_timeout) n = ground arith
  after_upstream-settled left st selected (answer resp recorded) n =
      after_response-settled left st selected resp recorded
  after_upstream-settled left st selected endless n = cc

  use_account-settled :
      (single : Bool) (left : ℕ) (st : Serving S) (selected : SelectedAccount)
      → is_settled left (use_account go g single left st selected).1 ≡ true
  unfolding use_account
  use_account-settled single left st selected =
      let st₁ : Serving S = record st {
        world = (g.record_account_used st.world selected.account_id).0;
        used = selected.account_id ∷ st.used;
      } in
      let (st₂, end) = upstream_loop go g 2 single false st₁ selected in
      let (ended, asked) = upstream_loop-ends go g 2 single false st₁ selected (ground arith) in
      ground (arith, after_upstream-settled left st₂ selected end ended)

  after_admission-settled :
      (single : Bool) (left : ℕ) (st : Serving S) (selected : SelectedAccount)
      (admitted : String ⊎ BudgetError)
      → is_settled left (after_admission go g single left st selected admitted).1 ≡ true
  unfolding after_admission
  after_admission-settled single left st selected (inl id) =
      use_account-settled single left
        (record st { admission_id = id; admissions = st.admissions + 1 }) selected
  after_admission-settled single left st selected (inr e) = budget_reply-is_reply e

  admit_and_use-settled :
      (single : Bool) (left : ℕ) (st : Serving S) (selected : SelectedAccount)
      → is_settled left (admit_and_use go g single left st selected).1 ≡ true
  unfolding admit_and_use
  admit_and_use-settled single left st selected =
      let (w, admitted) = g.admit_budget st.world in
      ground (
        arith,
        after_admission-settled single left (with_world st w) selected admitted,
        use_account-settled single left st selected,
      )

  after_selection-settled :
      (limit : ℤ) (single : Bool) (left : ℕ) (st : Serving S) (selected : SelectedAccount)
      → is_settled left (after_selection go g limit single left st selected).1 ≡ true
  unfolding after_selection try_account
  after_selection-settled limit single left st selected =
      let (w, granted) =
        g.acquire_account st.world selected.account_id
          (effective_limit selected.max_concurrent_requests limit) in
      let held : Serving S = record st { world = w; held = selected.account_id ∷ st.held } in
      ground (arith, admit_and_use-settled single left held selected)

  pub attempt-settled :
      (limit : ℤ) (single : Bool) (left : ℕ) (st : Serving S)
      → is_settled left (attempt go g limit single left st).1 ≡ true
  unfolding attempt
  attempt-settled limit single left st =
      let (w, selected, error) = g.select_account st.world st.failed_account_ids in
      let closed = close_last_retryable (with_world st w) in
      let counted : Serving S = record closed { attempt_count = st.attempt_count + 1 } in
      elim (Option-cases error) [
        | inl e ↦ rw (e, attempt) (after_selection-settled limit single left counted selected)
        | inr (failure, e) ↦
            rw (e, attempt) (ground (arith, selection_reply-is_reply go selected failure))
      ]

  pub serve_attempts-is_reply :
      (limit : ℤ) (single : Bool) (left : ℕ) (st : Serving S)
      → 0 < left
      → is_reply (serve_attempts go g limit single left st).1 ≡ true
  unfolding serve_attempts
  serve_attempts-is_reply limit single zero st p = absurd (omega (arith, p))
  serve_attempts-is_reply limit single (suc left) st p =
      let (st₁, turn) = attempt go g limit single left st in
      let settled = attempt-settled limit single left st in
      elim (Attempt-cases turn) [
        | inl (outcome, e) ↦ rw (e, serve_attempts) (rw e at settled)
        | inr e ↦
            let some_left = rw e at settled in
            rw (e, serve_attempts)
              (serve_attempts-is_reply limit single left st₁ (ltb→lt 0 left some_left))
      ]

  -- Where the request has an attempt, the loop comes to a reply: an error, the answer of an upstream,
  -- or nothing for a client that is gone. It neither falls through nor asks one account for ever.
  pub serve-is_reply :
      (limit : ℤ) (max_attempts : ℕ) (w : S)
      → 0 < max_attempts
      → is_reply (serve go g limit max_attempts w).1 ≡ true
  unfolding serve
  serve-is_reply limit max_attempts w p =
      serve_attempts-is_reply limit (nat_beq max_attempts 1) max_attempts (start go g w) p

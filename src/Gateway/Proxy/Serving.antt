-- ===== src/Gateway/Proxy/Serving.antt =====
-- What gateway/proxy.go keeps while it serves one request, and what its loop over the accounts asks
-- of the rest of the program. Metrics and the spans of the diagnostics are left out.
use n2api.Base.{
  ℕ, ◌-◌, String, ◌⊎◌, Bool, false, Option, List, [], ◌∷◌, if◌then◌else◌, ◌==◌, nat_eq, string_eq,
  ℤ, int_eq,
}
use n2api.Store.Budget.Tables.{BudgetError}
use n2api.Gateway.Proxy.Codes.{SelectFailure}

-- The fields of SelectedAccount that the loop reads.
pub record SelectedAccount : Type 0 where
  pub account_id : ℤ
  pub account_type : String
  pub authorization_token : String
  pub max_concurrent_requests : ℤ
  pub routing_pool_error : String

-- An answer of the upstream, with what captureFailure reads out of its body.
pub record Response : Type 0 where
  pub status : ℕ
  pub retry_after : String
  pub message : String
  pub failure_body : String

-- The fields of Usage that are settled: the tokens, and whether the source is not "missing".
pub record Usage : Type 0 where
  pub total_tokens : ℤ
  pub is_known : Bool

-- What client.Do returns: an answer, or an error that is a time-out or not.
pub data Sent : Type 0 where
  answered : Response → Sent
  unanswered : Bool → Sent

-- What RefreshAccountAuthorization returns; the error only by whether there is one.
pub record Refreshed : Type 0 where
  pub token : String
  pub retry : Bool
  pub failure_recorded : Bool
  pub failed : Bool

-- Methods on a state; those that write return the new state. Each may answer as it likes, since
-- other requests are served meanwhile.
pub record Gateway (S : Type 0) : Type 0 where
  -- selectAccountForRequest, given the accounts to leave out; an error comes with an account too
  pub select_account : S → List ℤ → S × SelectedAccount × Option SelectFailure
  -- tryAcquireAccountSlot, and the function that it returns
  pub acquire_account : S → ℤ → ℤ → S × Bool
  pub release_account : S → ℤ → S
  -- whether the proxy has budgets, and AdmitAPIKeyBudget
  pub has_budgets : Bool
  pub admit_budget : S → S × (String ⊎ BudgetError)
  -- whether recordAccountUsed succeeds
  pub record_account_used : S → ℤ → S × Bool
  -- whether newUpstreamRequest succeeds
  pub creates_request : S → SelectedAccount → Bool
  -- clientForSelectedAccount: none, or an error that is a time-out or not
  pub client_error : S → SelectedAccount → Option Bool
  pub send : S → SelectedAccount → S × Sent
  -- shouldPassThroughUpstreamError
  pub passes_through : S → ℕ → String → Bool
  -- whether the accounts implement AccountAuthorizationRefresher, and its method
  pub has_refresher : Bool
  pub refresh_authorization : S → ℤ → String → ℕ → String → S × Refreshed
  -- RecordAccountFailure and RecordAccountRecovered
  pub record_failure : S → ℤ → ℕ → String → String → S
  pub record_recovered : S → ℤ → S
  -- whether the context of the request is done
  pub is_canceled : S → Bool
  -- the response is written to the client and observed; the text is responseErrorCode
  pub write_response : S → SelectedAccount → Response → S × String × Usage

-- The variables of ServeHTTP. The last five are not in the code: the accounts whose release function
-- has not been called, the number of bodies not closed, the accounts that were not skipped and those
-- that were asked, the latest first, and the number of admissions.
pub record Serving (S : Type 0) : Type 0 where
  pub world : S
  pub failed_account_ids : List ℤ
  pub account_concurrency_limited : Bool
  pub has_last_retryable : Bool
  pub admission_id : String
  pub observed_usage : Usage
  pub attempt_count : ℕ
  pub fallback_count : ℕ
  pub held : List ℤ
  pub open_bodies : ℕ
  pub used : List ℤ
  pub asked : List ℤ
  pub admissions : ℕ

-- How ServeHTTP ends: an error with its status, its code and its message, the answer of the upstream,
-- or nothing, for a client that is gone. The last text is the code in the log. The last two are for
-- a loop that runs no attempt, and for one that is cut short here.
pub data Outcome : Type 0 where
  error_reply : ℕ → String → String → String → Outcome
  relayed : Response → String → Outcome
  canceled nothing_written out_of_fuel : Outcome

abbrev pub remove_first : ℤ → List ℤ → List ℤ
remove_first x [] = []
remove_first x (y ∷ ys) = if y == x then ys else y ∷ remove_first x ys

module _ {S : Type 0} where
  abbrev pub with_world : Serving S → S → Serving S
  with_world st w = record st { world = w }

  abbrev pub release : Gateway S → Serving S → ℤ → Serving S
  release g st id = record st {
    world = g.release_account st.world id;
    held = remove_first id st.held;
  }

  abbrev pub close_body : Serving S → Serving S
  close_body st = record st { open_bodies = st.open_bodies - 1 }

  -- `if lastRetryableResp != nil`
  abbrev pub close_last_retryable : Serving S → Serving S
  close_last_retryable st = record st {
    has_last_retryable = false;
    open_bodies = if st.has_last_retryable then st.open_bodies - 1 else st.open_bodies;
  }

-- ===== src/Gateway/Proxy/Moves.antt =====
-- gateway/proxy.go: what one attempt does to the accounts that failed and that were asked.
use n2api.Base.{
  ℕ, ◌+◌, ◌≤◌, String, ◌≡◌, ◌⊎◌, inl, inr, Bool, false, ◌∷◌, arith, nat_eq, string_eq, length, ℤ,
  int_eq,
}
use n2api.Go.{Stdlib}
use n2api.Gateway.Proxy.Serving.{SelectedAccount, Response, Gateway, Serving, with_world}
use n2api.Gateway.Proxy.Upstream.{
  UpstreamEnd, no_request, no_answer, answer, endless, upstream_loop,
}
use n2api.Gateway.Proxy.Failover.{
  append_unique_int64, Attempt, continues, relay, relay_answer, after_response, after_upstream,
  use_account, admit_and_use, try_account, with_failed_response, after_admission,
}
use n2api.Gateway.Proxy.Codes.{upstream_status_error_code}
use n2api.Gateway.Limits.Concurrency.{effective_limit}
use n2api.Gateway.Proxy.Passes.{passes, upstream_loop-ends}
use n2api.Store.Budget.Tables.{BudgetError}
use n2api.Gateway.Proxy.Answers.{relay_answer-settled}
use n2api.Gateway.Proxy.Tidy.{upstream_loop-Kept}

module _ {S : Type 0} (go : Stdlib) (g : Gateway S) where
  -- After the requests to an account: only the accounts that failed may have grown, by that account,
  -- and they have where the loop goes on.
  pub record Decided (id : ℤ) (st : Serving S) (r : Serving S × Attempt) : Type 0 where
    pub same_used : r.0.used ≡ st.used
    pub same_asked : r.0.asked ≡ st.asked
    pub same_admission : r.0.admission_id ≡ st.admission_id
    pub same_admissions : r.0.admissions ≡ st.admissions
    pub failed_on :
        r.1 ≡ continues → r.0.failed_account_ids ≡ append_unique_int64 st.failed_account_ids id

  relay-Decided :
      (id : ℤ) (st : Serving S) (selected : SelectedAccount) (resp : Response) (code : String)
      → Decided id st (relay go g st selected resp code)
  unfolding relay
  relay-Decided id st selected resp code = ground arith

  relay_answer-Decided :
      (id : ℤ) (st : Serving S) (selected : SelectedAccount) (resp : Response) (code : String)
      → Decided id st (relay_answer go g st selected resp code)
  unfolding relay_answer relay
  relay_answer-Decided id st selected resp code = ground arith

  after_response-Decided :
      (left : ℕ) (st : Serving S) (selected : SelectedAccount) (resp : Response) (recorded : Bool)
      → Decided selected.account_id st (after_response go g left st selected resp recorded)
  unfolding after_response
  after_response-Decided left st selected resp recorded =
      let code = upstream_status_error_code resp.status in
      let id = selected.account_id in
      let failed = with_failed_response go g st selected resp recorded in
      let last = relay_answer-Decided id failed selected resp code in
      let turn = relay_answer-settled go g 0 failed selected resp code in
      ground (
        arith,
        relay_answer-Decided id st selected resp "",
        relay-Decided id st selected resp code,
        last,
        turn,
      )

  pub after_upstream-Decided :
      (left : ℕ) (st : Serving S) (selected : SelectedAccount) (end : UpstreamEnd)
      → Decided selected.account_id st (after_upstream go g left st selected end)
  unfolding after_upstream
  after_upstream-Decided left st selected no_request = ground arith
  after_upstream-Decided left st selected (no_answer is_timeout) = ground arith
  after_upstream-Decided left st selected (answer resp recorded) =
      after_response-Decided left st selected resp recorded
  after_upstream-Decided left st selected endless = ground arith

  -- After an attempt with an account: it may be among the used accounts, once more than before, it
  -- is among the failed ones where the loop goes on, and it was asked at most as often as it may be.
  pub record Moved (id : ℤ) (single : Bool) (st : Serving S) (r : Serving S × Attempt)
      : Type 0 where
    pub used_step : (r.0.used ≡ st.used) ⊎ (r.0.used ≡ id ∷ st.used)
    pub asked_step : length r.0.asked ≤ length st.asked + passes single false
    pub failed_on :
        r.1 ≡ continues → r.0.failed_account_ids ≡ append_unique_int64 st.failed_account_ids id

  use_account-Moved :
      (single : Bool) (left : ℕ) (st : Serving S) (selected : SelectedAccount)
      → Moved selected.account_id single st (use_account go g single left st selected)
  unfolding use_account
  use_account-Moved single left st selected =
      let st₁ : Serving S = record st {
        world = (g.record_account_used st.world selected.account_id).0;
        used = selected.account_id ∷ st.used;
      } in
      let (st₂, end) = upstream_loop go g 2 single false st₁ selected in
      let kept = upstream_loop-Kept go g 2 single false st₁ selected in
      let (ended, asked) = upstream_loop-ends go g 2 single false st₁ selected (ground arith) in
      let decided = after_upstream-Decided left st₂ selected end in
      ground (arith, kept, asked, decided)

  after_admission-Moved :
      (single : Bool) (left : ℕ) (st : Serving S) (selected : SelectedAccount)
      (admitted : String ⊎ BudgetError)
      → Moved selected.account_id single st (after_admission go g single left st selected admitted)
  unfolding after_admission
  after_admission-Moved single left st selected (inl id) =
      let admitted : Serving S = record st { admission_id = id; admissions = st.admissions + 1 } in
      ground (arith, use_account-Moved single left admitted selected)
  after_admission-Moved single left st selected (inr e) = ground arith

  admit_and_use-Moved :
      (single : Bool) (left : ℕ) (st : Serving S) (selected : SelectedAccount)
      → Moved selected.account_id single st (admit_and_use go g single left st selected)
  unfolding admit_and_use
  admit_and_use-Moved single left st selected =
      let (w, admitted) = g.admit_budget st.world in
      ground (
        arith,
        after_admission-Moved single left (with_world st w) selected admitted,
        use_account-Moved single left st selected,
      )

  pub try_account-Moved :
      (limit : ℤ) (single : Bool) (left : ℕ) (st : Serving S) (selected : SelectedAccount)
      → Moved selected.account_id single st (try_account go g limit single left st selected)
  unfolding try_account
  try_account-Moved limit single left st selected =
      let (w, granted) =
        g.acquire_account st.world selected.account_id
          (effective_limit selected.max_concurrent_requests limit) in
      let held : Serving S = record st { world = w; held = selected.account_id ∷ st.held } in
      ground (arith, admit_and_use-Moved single left held selected)

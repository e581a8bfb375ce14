-- ===== src/Gateway/Proxy/Returns.antt =====
-- gateway/proxy.go: what the loop of ServeHTTP holds, it gives back.
use n2api.Base.{
  ℕ, zero, suc, ◌+◌, ◌<◌, String, ◌≡◌, refl, ◌⊎◌, inl, inr, Bool, false, [], ◌∷◌, arith, nat_beq,
  if◌then◌else◌, ltb→lt, nat_eq, string_eq, ℤ, int_eq,
}
use n2api.Go.{Stdlib}
use n2api.Gateway.Proxy.Serving.{
  SelectedAccount, Response, Gateway, Serving, with_world, close_last_retryable, remove_first,
}
use n2api.Gateway.Proxy.Upstream.{
  UpstreamEnd, no_request, no_answer, answer, endless, upstream_loop,
}
use n2api.Gateway.Proxy.Failover.{
  Attempt, Attempt-cases, returns, continues, relay, relay_answer, after_response, after_upstream,
  use_account, admit_and_use, try_account, attempt, serve_attempts, start, serve,
  with_failed_response, after_admission, after_selection,
}
use n2api.Gateway.Proxy.Codes.{upstream_status_error_code}
use n2api.Gateway.Limits.Concurrency.{effective_limit}
use n2api.Gateway.Proxy.Passes.{is_endless, upstream_loop-ends}
use n2api.Store.Budget.Tables.{BudgetError}
use n2api.Gateway.Proxy.Answers.{attempt-settled}
use n2api.Gateway.Proxy.Tidy.{bodies_of, upstream_loop-Kept, upstream_loop-bodies}

module _ {S : Type 0} (go : Stdlib) (g : Gateway S) where
  -- The body of the last retryable response, where the loop goes on.
  abbrev bodies_left : Attempt → Serving S → ℕ
  bodies_left (returns outcome) st = 0
  bodies_left continues st = if st.has_last_retryable then 1 else 0

  -- After an attempt: no slot is held, and no body is open but the last retryable response's.
  record Closed (r : Serving S × Attempt) : Type 0 where
    none_held : r.0.held ≡ []
    none_open : r.0.open_bodies ≡ bodies_left r.1 r.0

  -- In an attempt that holds the slot of an account, with n bodies open.
  record Holding (id : ℤ) (n : ℕ) (st : Serving S) : Type 0 where
    one_held : st.held ≡ id ∷ []
    no_last : st.has_last_retryable ≡ false
    open_now : st.open_bodies ≡ n

  remove_first-head : (id : ℤ) → remove_first id (id ∷ []) ≡ []
  remove_first-head id = rw ((int_eq.beq_iff id id).1 refl) refl

  relay-Closed :
      (st : Serving S) (selected : SelectedAccount) (resp : Response) (code : String)
      → Holding selected.account_id 1 st
      → Closed (relay go g st selected resp code)
  unfolding relay
  relay-Closed st selected resp code h = ground (arith, remove_first-head selected.account_id)

  relay_answer-Closed :
      (st : Serving S) (selected : SelectedAccount) (resp : Response) (code : String)
      → Holding selected.account_id 1 st
      → Closed (relay_answer go g st selected resp code)
  unfolding relay_answer
  relay_answer-Closed st selected resp code h = ground (
    arith,
    relay-Closed st selected resp code h,
    relay-Closed (record st { world = g.record_recovered st.world selected.account_id }) selected
        resp code,
  )

  with_failed_response-Holding :
      (st : Serving S) (selected : SelectedAccount) (resp : Response) (recorded : Bool)
      → Holding selected.account_id 1 st
      → Holding selected.account_id 1 (with_failed_response go g st selected resp recorded)
  with_failed_response-Holding st selected resp recorded h = ground arith

  after_response-Closed :
      (left : ℕ) (st : Serving S) (selected : SelectedAccount) (resp : Response) (recorded : Bool)
      → Holding selected.account_id 1 st
      → Closed (after_response go g left st selected resp recorded)
  unfolding after_response
  after_response-Closed left st selected resp recorded h =
      let code = upstream_status_error_code resp.status in
      let st₁ = with_failed_response go g st selected resp recorded in
      let h₁ = with_failed_response-Holding st selected resp recorded h in
      ground (
        arith,
        remove_first-head selected.account_id,
        h₁,
        relay_answer-Closed st selected resp "" h,
        relay-Closed st selected resp code h,
        relay_answer-Closed st₁ selected resp code h₁,
      )

  after_upstream-Closed :
      (left : ℕ) (st : Serving S) (selected : SelectedAccount) (end : UpstreamEnd)
      → Holding selected.account_id (bodies_of end) st
      → is_endless end ≡ false
      → Closed (after_upstream go g left st selected end)
  unfolding after_upstream
  after_upstream-Closed left st selected no_request h n =
      ground (arith, remove_first-head selected.account_id)
  after_upstream-Closed left st selected (no_answer is_timeout) h n =
      ground (arith, remove_first-head selected.account_id)
  after_upstream-Closed left st selected (answer resp recorded) h n =
      after_response-Closed left st selected resp recorded h
  after_upstream-Closed left st selected endless h n = cc

  use_account-Closed :
      (single : Bool) (left : ℕ) (st : Serving S) (selected : SelectedAccount)
      → Holding selected.account_id 0 st
      → Closed (use_account go g single left st selected)
  unfolding use_account
  use_account-Closed single left st selected h =
      let st₁ : Serving S = record st {
        world = (g.record_account_used st.world selected.account_id).0;
        used = selected.account_id ∷ st.used;
      } in
      let (st₂, end) = upstream_loop go g 2 single false st₁ selected in
      let kept = upstream_loop-Kept go g 2 single false st₁ selected in
      let opened = upstream_loop-bodies go g 2 single false st₁ selected in
      let (ended, asked) = upstream_loop-ends go g 2 single false st₁ selected (ground arith) in
      let held : Holding selected.account_id (bodies_of end) st₂ = ground (arith, kept, opened) in
      ground (
        arith,
        remove_first-head selected.account_id,
        after_upstream-Closed left st₂ selected end held ended,
      )

  after_admission-Closed :
      (single : Bool) (left : ℕ) (st : Serving S) (selected : SelectedAccount)
      (admitted : String ⊎ BudgetError)
      → Holding selected.account_id 0 st
      → Closed (after_admission go g single left st selected admitted)
  unfolding after_admission
  after_admission-Closed single left st selected (inl id) h =
      let admitted : Serving S = record st { admission_id = id; admissions = st.admissions + 1 } in
      use_account-Closed single left admitted selected (ground arith)
  after_admission-Closed single left st selected (inr e) h =
      ground (arith, remove_first-head selected.account_id)

  admit_and_use-Closed :
      (single : Bool) (left : ℕ) (st : Serving S) (selected : SelectedAccount)
      → Holding selected.account_id 0 st
      → Closed (admit_and_use go g single left st selected)
  unfolding admit_and_use
  admit_and_use-Closed single left st selected h =
      let (w, admitted) = g.admit_budget st.world in
      ground (
        arith,
        after_admission-Closed single left (with_world st w) selected admitted (ground arith),
        use_account-Closed single left st selected h,
      )

  -- Between two attempts, once the body of the last retryable response is closed.
  record Free (st : Serving S) : Type 0 where
    none_held : st.held ≡ []
    no_last : st.has_last_retryable ≡ false
    none_open : st.open_bodies ≡ 0

  try_account-Closed :
      (limit : ℤ) (single : Bool) (left : ℕ) (st : Serving S) (selected : SelectedAccount)
      → Free st
      → Closed (try_account go g limit single left st selected)
  unfolding try_account
  try_account-Closed limit single left st selected h =
      let (w, granted) =
        g.acquire_account st.world selected.account_id
          (effective_limit selected.max_concurrent_requests limit) in
      let held : Serving S = record st { world = w; held = selected.account_id ∷ st.held } in
      ground (arith, admit_and_use-Closed single left held selected (ground arith))

  after_selection-Closed :
      (limit : ℤ) (single : Bool) (left : ℕ) (st : Serving S) (selected : SelectedAccount)
      → Free st
      → Closed (after_selection go g limit single left st selected)
  unfolding after_selection
  after_selection-Closed limit single left st selected h =
      ground (arith, try_account-Closed limit single left st selected h)

  attempt-Closed :
      (limit : ℤ) (single : Bool) (left : ℕ) (st : Serving S)
      → Closed (st, continues)
      → Closed (attempt go g limit single left st)
  unfolding attempt
  attempt-Closed limit single left st h =
      let (w, selected, error) = g.select_account st.world st.failed_account_ids in
      let closed = close_last_retryable (with_world st w) in
      let counted : Serving S = record closed { attempt_count = st.attempt_count + 1 } in
      let free : Free counted = ground arith in
      ground (arith, free, after_selection-Closed limit single left counted selected free)

  serve_attempts-Closed :
      (limit : ℤ) (single : Bool) (left : ℕ) (st : Serving S)
      → Closed (st, continues)
      → (0 < left)
      → let (st', outcome) = serve_attempts go g limit single left st in
        Closed (st', returns outcome)
  unfolding serve_attempts
  serve_attempts-Closed limit single zero st h p = absurd (omega (arith, p))
  serve_attempts-Closed limit single (suc left) st h p =
      let (st₁, turn) = attempt go g limit single left st in
      let closed = attempt-Closed limit single left st h in
      let settled = attempt-settled go g limit single left st in
      elim (Attempt-cases turn) [
        | inl (outcome, e) ↦ rw (e, serve_attempts) (ground (arith, closed))
        | inr e ↦
            let some_left = rw e at settled in
            rw (e, serve_attempts)
              (serve_attempts-Closed limit single left st₁ (ground (arith, closed))
                (ltb→lt 0 left some_left))
      ]

  -- When ServeHTTP returns from its loop, each slot that it acquired for an account is released, and
  -- the body of each answer of an upstream is closed.
  pub serve-gives_back :
      (limit : ℤ) (max_attempts : ℕ) (w : S)
      → let st = (serve go g limit max_attempts w).0 in (st.held ≡ []) × (st.open_bodies ≡ 0)
  unfolding serve serve_attempts
  serve-gives_back limit zero w = (refl, refl)
  serve-gives_back limit (suc n) w =
      let closed =
        serve_attempts-Closed limit (nat_beq (suc n) 1) (suc n) (start go g w) (ground arith)
          (omega arith) in
      (closed.none_held, closed.none_open)

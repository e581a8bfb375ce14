-- ===== src/Gateway/Proxy/Tests.antt =====
-- Runs of the loop of ServeHTTP, and the theorems about it at a gateway with two accounts.
use n2api.Base.{
  ℕ, ◌≤◌, String, ◌≡◌, refl, subst, ◌⊎◌, inl, true, false, none, some, [], ◌∷◌, arith, nat_beq,
  if◌then◌else◌, ◌==◌, nat_eq, string_eq, length, ℤ, pos, int_eq,
}
use n2api.Samples.{plain_go}
use n2api.Gateway.Limits.Concurrency.{
  InFlight, refused, uncounted, held, account_acquire, account_release, effective_limit,
}
use n2api.Gateway.Proxy.Codes.{
  of_selection, authorization_failure_status, retryable_upstream_status,
}
use n2api.Provider.Chain.{accounts_unavailable}
use n2api.Provider.Account.{contains}
use n2api.Gateway.Proxy.Serving.{SelectedAccount, Response, answered, Gateway, relayed}
use n2api.Gateway.Proxy.Failover.{serve}
use n2api.Gateway.Proxy.Answers.{is_reply, serve-is_reply}
use n2api.Gateway.Proxy.Returns.{serve-gives_back}
use n2api.Gateway.Proxy.Accounts.{IsOnce, requests_in, serve-Fair}
use n2api.Gateway.Proxy.Budgets.{serve-admitted}

abbrev account : ℤ → String → SelectedAccount
account id token = record {
  account_id = id;
  account_type = "codex_oauth";
  authorization_token = token;
  max_concurrent_requests = pos 1;
  routing_pool_error = "";
}

abbrev answer_with : ℕ → Response
answer_with status = record { status = status; retry_after = ""; message = ""; failure_body = "" }

-- Account 1 always refuses the authorization, also after a refresh; account 2 answers. The state is
-- the limiter of the accounts.
abbrev two_accounts : Gateway InFlight
two_accounts = record {
  select_account = λ w failed.
      if contains (pos 1) failed
      then (if contains (pos 2) failed
          then (w, account (pos 0) "", some (of_selection accounts_unavailable))
          else (w, account (pos 2) "t", none))
      else (w, account (pos 1) "t", none);
  acquire_account = λ w id limit. elim (account_acquire w id limit) [
    | refused ↦ (w, false)
    | uncounted ↦ (w, true)
    | held l ↦ (l, true)
  ];
  release_account = λ w id. account_release w id;
  has_budgets = true;
  admit_budget = λ w. (w, inl "a");
  record_account_used = λ w id. (w, true);
  creates_request = λ w a. true;
  client_error = λ w a. none;
  send = λ w a. (w, answered (answer_with (if a.account_id == pos 1 then 401 else 200)));
  passes_through = λ w status body. false;
  has_refresher = true;
  refresh_authorization = λ w id token status message.
      (w, record { token = "u"; retry = true; failure_recorded = false; failed = false });
  record_failure = λ w id status retry message. w;
  record_recovered = λ w id. w;
  is_canceled = λ w. false;
  write_response = λ w a resp. (w, "", record { total_tokens = pos 7; is_known = true });
}

fails_over : (serve plain_go two_accounts (pos 5) 2 []).1 ≡ relayed (answer_with 200) ""
unfolding serve account_acquire account_release effective_limit authorization_failure_status
    retryable_upstream_status
fails_over = refl

asks_the_first_twice :
    (serve plain_go two_accounts (pos 5) 2 []).0.asked ≡ pos 2 ∷ pos 1 ∷ pos 1 ∷ []
unfolding serve account_acquire account_release effective_limit authorization_failure_status
    retryable_upstream_status
asks_the_first_twice = refl

-- The limiter of the accounts is empty again.
leaves_the_limiter : (serve plain_go two_accounts (pos 5) 2 []).0.world ≡ []
unfolding serve account_acquire account_release effective_limit authorization_failure_status
    retryable_upstream_status
leaves_the_limiter = refl

serve-gives_back_example :
    let st = (serve plain_go two_accounts (pos 5) 2 []).0 in (st.held ≡ []) × (st.open_bodies ≡ 0)
serve-gives_back_example = serve-gives_back plain_go two_accounts (pos 5) 2 []

serve-is_reply_example : is_reply (serve plain_go two_accounts (pos 5) 2 []).1 ≡ true
serve-is_reply_example = serve-is_reply plain_go two_accounts (pos 5) 2 [] (omega arith)

serve-Fair_example :
    let st = (serve plain_go two_accounts (pos 5) 2 []).0 in
    IsOnce st.used × (length st.used ≤ 2) × (length st.asked ≤ requests_in (nat_beq 2 1) 2)
serve-Fair_example = serve-Fair plain_go two_accounts (pos 5) 2 []

a_is_no_blank :
    (w : InFlight) (id : String) → (two_accounts.admit_budget w).1 ≡ inl id → (id == "") ≡ false
a_is_no_blank w id e =
    let same : "a" ≡ id = cc in subst (λ (t : String). (t == "") ≡ false) same refl

serve-admitted_example :
    let st = (serve plain_go two_accounts (pos 5) 2 []).0 in
    (st.admissions ≡ 1) ⊎ ((st.admissions ≡ 0) × (length st.asked ≡ 0))
serve-admitted_example = serve-admitted plain_go two_accounts (pos 5) 2 [] a_is_no_blank refl

-- ===== src/Gateway/Proxy/Upstream.antt =====
-- gateway/proxy.go: the requests to one account, with the second one after its authorization was
-- refreshed.
use n2api.Base.{
  ℕ, zero, suc, ◌+◌, ◌-◌, String, Bool, true, false, not, ◌||◌, none, some, ◌∷◌, if◌then◌else◌,
  ◌==◌, nat_eq, string_eq, is_pos, int_eq,
}
use n2api.Go.{Stdlib}
use n2api.Gateway.Proxy.Codes.{authorization_failure_status}
use n2api.Gateway.Proxy.Serving.{
  SelectedAccount, Response, Sent, answered, unanswered, Refreshed, Gateway, Serving, with_world,
}

-- How the loop of requests ends: no request could be made, there was no answer (with whether that
-- was a time-out), or an answer, with authorizationRefreshFailureRecorded.
pub data UpstreamEnd : Type 0 where
  no_request : UpstreamEnd
  no_answer : Bool → UpstreamEnd
  answer : Response → Bool → UpstreamEnd
  endless : UpstreamEnd

-- One pass of the loop: it breaks or returns, or goes on with a new token.
pub data Pass : Type 0 where
  breaks : UpstreamEnd → Pass
  again : String → Pass

module _ {S : Type 0} (go : Stdlib) (g : Gateway S) where
  unfoldable pub refresh_account_authorization : S → SelectedAccount → ℕ → String → S × Refreshed
  refresh_account_authorization w selected status message =
      if not (is_pos selected.account_id)
        || not (selected.account_type == "codex_oauth")
        || not g.has_refresher
      then (w, record { token = ""; retry = false; failure_recorded = false; failed = false })
      else g.refresh_authorization w selected.account_id selected.authorization_token status message

  -- From the refresh on.
  unfoldable pub after_refresh : Serving S → Response → Refreshed → Serving S × Pass
  after_refresh st resp r =
      if not r.retry
      then (st, breaks (answer resp false))
      else if r.failed || go.trim_space r.token == ""
      then (st, breaks (answer resp r.failure_recorded))
      else (
        record st { open_bodies = st.open_bodies - 1; attempt_count = st.attempt_count + 1 },
        again r.token,
      )

  unfoldable pub after_answer :
      Bool → Bool → Serving S → SelectedAccount → Response → Serving S × Pass
  unfolding after_refresh refresh_account_authorization
  after_answer single retried st selected resp =
      if retried || single || not (authorization_failure_status resp.status)
      then (st, breaks (answer resp false))
      else if g.passes_through st.world resp.status resp.failure_body
      then (st, breaks (answer resp false))
      else let (w, r) = refresh_account_authorization st.world selected resp.status resp.message in
        after_refresh (with_world st w) resp r

  -- What client.Do returned.
  unfoldable pub after_send : Bool → Bool → Serving S → SelectedAccount → Sent → Serving S × Pass
  unfolding after_answer
  after_send single retried st selected (unanswered is_timeout) =
      (st, breaks (no_answer is_timeout))
  after_send single retried st selected (answered resp) =
      after_answer single retried (record st { open_bodies = st.open_bodies + 1 }) selected resp

  unfoldable pub upstream_pass : Bool → Bool → Serving S → SelectedAccount → Serving S × Pass
  unfolding after_send
  upstream_pass single retried st selected =
      if not (g.creates_request st.world selected)
      then (st, breaks no_request)
      else elim (g.client_error st.world selected) [
        | some is_timeout ↦ (st, breaks (no_answer is_timeout))
        | none ↦
            let (w, sent) = g.send st.world selected in
            after_send single retried
              (record st { world = w; asked = selected.account_id ∷ st.asked }) selected sent
      ]

  -- `for { … }`; the flag is authorizationRetried, and `single` is `maxAttempts == 1`.
  unfoldable pub upstream_loop :
      ℕ → Bool → Bool → Serving S → SelectedAccount → Serving S × UpstreamEnd
  unfolding upstream_pass
  upstream_loop zero single retried st selected = (st, endless)
  upstream_loop (suc fuel) single retried st selected =
      let (st₁, pass) = upstream_pass single retried st selected in
      elim pass [
        | breaks end ↦ (st₁, end)
        | again token ↦
            upstream_loop fuel single true st₁ (record selected { authorization_token = token })
      ]

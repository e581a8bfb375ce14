-- ===== src/Gateway/Proxy/Passes.antt =====
-- gateway/proxy.go: an account is asked at most twice in a row, and once where the request has a
-- single attempt.
use n2api.Base.{
  ℕ, zero, suc, ◌+◌, ◌≤◌, ◌≡◌, refl, inl, inr, Bool, true, false, not, ◌||◌, ◌∷◌, arith,
  if◌then◌else◌, nat_eq, string_eq, length, int_eq,
}
use n2api.Go.{Stdlib}
use n2api.Gateway.Proxy.Serving.{
  SelectedAccount, Response, Sent, answered, unanswered, Refreshed, Gateway, Serving, with_world,
}
use n2api.Gateway.Proxy.Upstream.{
  UpstreamEnd, endless, Pass, breaks, again, refresh_account_authorization, after_refresh,
  after_answer, after_send, upstream_pass, upstream_loop,
}
use n2api.Gateway.Proxy.Tidy.{Pass-cases}

abbrev pub is_endless : UpstreamEnd → Bool
is_endless endless = true
is_endless _ = false

abbrev ends_or_again : Pass → Bool
ends_or_again (breaks end) = not (is_endless end)
ends_or_again (again token) = true

abbrev goes_again : Pass → Bool
goes_again (breaks end) = false
goes_again (again token) = true

-- The passes that a loop of requests can still make.
abbrev pub passes : Bool → Bool → ℕ
passes single retried = if retried || single then 1 else 2

module _ {S : Type 0} (go : Stdlib) (g : Gateway S) where
  after_refresh-ends :
      (st : Serving S) (resp : Response) (r : Refreshed)
      → ends_or_again (after_refresh go g st resp r).1 ≡ true
  unfolding after_refresh
  after_refresh-ends st resp r = ground arith

  after_answer-ends :
      (single retried : Bool) (st : Serving S) (selected : SelectedAccount) (resp : Response)
      → (ends_or_again (after_answer go g single retried st selected resp).1 ≡ true)
        × (retried || single ≡ true
            → goes_again (after_answer go g single retried st selected resp).1 ≡ false)
  unfolding after_answer
  after_answer-ends single retried st selected resp =
      let (w, r) = refresh_account_authorization go g st.world selected resp.status resp.message in
      ground (arith, after_refresh-ends (with_world st w) resp r)

  after_send-ends :
      (single retried : Bool) (st : Serving S) (selected : SelectedAccount) (sent : Sent)
      → (ends_or_again (after_send go g single retried st selected sent).1 ≡ true)
        × (retried || single ≡ true
            → goes_again (after_send go g single retried st selected sent).1 ≡ false)
  unfolding after_send
  after_send-ends single retried st selected (unanswered is_timeout) = ground arith
  after_send-ends single retried st selected (answered resp) =
      after_answer-ends single retried (record st { open_bodies = st.open_bodies + 1 }) selected
        resp

  after_answer-asked :
      (single retried : Bool) (st : Serving S) (selected : SelectedAccount) (resp : Response)
      → (after_answer go g single retried st selected resp).0.asked ≡ st.asked
  unfolding after_answer after_refresh
  after_answer-asked single retried st selected resp = ground arith

  after_send-asked :
      (single retried : Bool) (st : Serving S) (selected : SelectedAccount) (sent : Sent)
      → (after_send go g single retried st selected sent).0.asked ≡ st.asked
  unfolding after_send
  after_send-asked single retried st selected (unanswered is_timeout) = refl
  after_send-asked single retried st selected (answered resp) =
      after_answer-asked single retried (record st { open_bodies = st.open_bodies + 1 }) selected
        resp

  abbrev sent_state : Serving S → SelectedAccount → Serving S
  sent_state st selected = record st {
    world = (g.send st.world selected).0;
    asked = selected.account_id ∷ st.asked;
  }

  upstream_pass-ends :
      (single retried : Bool) (st : Serving S) (selected : SelectedAccount)
      → (ends_or_again (upstream_pass go g single retried st selected).1 ≡ true)
        × (retried || single ≡ true
            → goes_again (upstream_pass go g single retried st selected).1 ≡ false)
  unfolding upstream_pass
  upstream_pass-ends single retried st selected =
      let (w, sent) = g.send st.world selected in
      let (a, b) = after_send-ends single retried (sent_state st selected) selected sent in
      ground (arith, a, b)

  upstream_pass-asked :
      (single retried : Bool) (st : Serving S) (selected : SelectedAccount)
      → length (upstream_pass go g single retried st selected).0.asked ≤ length st.asked + 1
  unfolding upstream_pass
  upstream_pass-asked single retried st selected =
      let (w, sent) = g.send st.world selected in
      ground (arith, after_send-asked single retried (sent_state st selected) selected sent)

  -- With fuel for its passes the loop ends, and it asks the upstream at most that often.
  pub upstream_loop-ends :
      (fuel : ℕ) (single retried : Bool) (st : Serving S) (selected : SelectedAccount)
      → passes single retried ≤ fuel
      → (is_endless (upstream_loop go g fuel single retried st selected).1 ≡ false)
        × (length (upstream_loop go g fuel single retried st selected).0.asked
            ≤ length st.asked + passes single retried)
  unfolding upstream_loop
  upstream_loop-ends zero single retried st selected h = absurd (ground arith)
  upstream_loop-ends (suc fuel) single retried st selected h =
      let (st₁, pass) = upstream_pass go g single retried st selected in
      let (well, last) = upstream_pass-ends single retried st selected in
      let asked = upstream_pass-asked single retried st selected in
      elim (Pass-cases pass) [
        | inl (end, e) ↦
            let well' = rw e at well in rw (e, upstream_loop) (ground (arith, well', asked))
        | inr (token, e) ↦
            let last' : (retried || single ≡ true → true ≡ false) = rw e at last in
            let (well'', asked') =
              upstream_loop-ends fuel single true st₁
                (record selected { authorization_token = token }) (ground (arith, last', h)) in
            rw (e, upstream_loop) (well'', ground (arith, last', asked, asked'))
      ]

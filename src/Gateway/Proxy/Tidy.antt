-- ===== src/Gateway/Proxy/Tidy.antt =====
-- gateway/proxy.go: what the loop of ServeHTTP holds, it gives back.
use n2api.Base.{
  ℕ, zero, suc, ◌+◌, String, ◌≡◌, refl, ◌⊎◌, inl, inr, Bool, true, ◌∷◌, arith, nat_eq, string_eq,
  int_eq,
}
use n2api.Go.{Stdlib}
use n2api.Gateway.Proxy.Serving.{
  SelectedAccount, Response, Sent, answered, unanswered, Refreshed, Gateway, Serving, with_world,
}
use n2api.Gateway.Proxy.Upstream.{
  UpstreamEnd, answer, Pass, breaks, again, refresh_account_authorization, after_refresh,
  after_answer, after_send, upstream_pass, upstream_loop,
}

-- The bodies of answers that are open when the loop of requests ends.
abbrev pub bodies_of : UpstreamEnd → ℕ
bodies_of (answer resp recorded) = 1
bodies_of _ = 0

abbrev bodies_after : Pass → ℕ
bodies_after (breaks end) = bodies_of end
bodies_after (again token) = 0

pub Pass-cases :
    (p : Pass) → ((end : UpstreamEnd) × (p ≡ breaks end)) ⊎ ((token : String) × (p ≡ again token))
Pass-cases (breaks end) = inl (end, refl)
Pass-cases (again token) = inr (token, refl)

module _ {S : Type 0} (go : Stdlib) (g : Gateway S) where
  -- What the requests to one account leave as it was.
  pub record Kept (before after : Serving S) : Type 0 where
    pub same_held : after.held ≡ before.held
    pub same_last : after.has_last_retryable ≡ before.has_last_retryable
    pub same_failed : after.failed_account_ids ≡ before.failed_account_ids
    pub same_used : after.used ≡ before.used
    pub same_admission : after.admission_id ≡ before.admission_id
    pub same_admissions : after.admissions ≡ before.admissions

  Kept-refl : (st : Serving S) → Kept st st
  Kept-refl st = ground arith

  after_refresh-Kept :
      (st : Serving S) (resp : Response) (r : Refreshed) → Kept st (after_refresh go g st resp r).0
  unfolding after_refresh
  after_refresh-Kept st resp r = ground arith

  after_refresh-bodies :
      (st : Serving S) (resp : Response) (r : Refreshed) (n : ℕ)
      → st.open_bodies ≡ n + 1
      → (after_refresh go g st resp r).0.open_bodies
        ≡ n + bodies_after (after_refresh go g st resp r).1
  unfolding after_refresh
  after_refresh-bodies st resp r n e = ground arith

  after_answer-Kept :
      (single retried : Bool) (st : Serving S) (selected : SelectedAccount) (resp : Response)
      → Kept st (after_answer go g single retried st selected resp).0
  unfolding after_answer
  after_answer-Kept single retried st selected resp =
      let (w, r) = refresh_account_authorization go g st.world selected resp.status resp.message in
      ground (arith, after_refresh-Kept (with_world st w) resp r)

  after_answer-bodies :
      (single retried : Bool) (st : Serving S) (selected : SelectedAccount) (resp : Response)
      (n : ℕ)
      → st.open_bodies ≡ n + 1
      → (after_answer go g single retried st selected resp).0.open_bodies
        ≡ n + bodies_after (after_answer go g single retried st selected resp).1
  unfolding after_answer
  after_answer-bodies single retried st selected resp n e =
      let (w, r) = refresh_account_authorization go g st.world selected resp.status resp.message in
      ground (arith, after_refresh-bodies (with_world st w) resp r n e)

  after_send-Kept :
      (single retried : Bool) (st : Serving S) (selected : SelectedAccount) (sent : Sent)
      → Kept st (after_send go g single retried st selected sent).0
  unfolding after_send
  after_send-Kept single retried st selected (unanswered is_timeout) = Kept-refl st
  after_send-Kept single retried st selected (answered resp) =
      let opened : Serving S = record st { open_bodies = st.open_bodies + 1 } in
      ground (arith, after_answer-Kept single retried opened selected resp)

  after_send-bodies :
      (single retried : Bool) (st : Serving S) (selected : SelectedAccount) (sent : Sent)
      → (after_send go g single retried st selected sent).0.open_bodies
        ≡ st.open_bodies + bodies_after (after_send go g single retried st selected sent).1
  unfolding after_send
  after_send-bodies single retried st selected (unanswered is_timeout) = ground arith
  after_send-bodies single retried st selected (answered resp) =
      after_answer-bodies single retried (record st { open_bodies = st.open_bodies + 1 }) selected
        resp st.open_bodies (omega arith)

  abbrev sent_state : Serving S → SelectedAccount → Serving S
  sent_state st selected = record st {
    world = (g.send st.world selected).0;
    asked = selected.account_id ∷ st.asked;
  }

  upstream_pass-Kept :
      (single retried : Bool) (st : Serving S) (selected : SelectedAccount)
      → Kept st (upstream_pass go g single retried st selected).0
  unfolding upstream_pass
  upstream_pass-Kept single retried st selected =
      let (w, sent) = g.send st.world selected in
      ground (arith, after_send-Kept single retried (sent_state st selected) selected sent)

  upstream_pass-bodies :
      (single retried : Bool) (st : Serving S) (selected : SelectedAccount)
      → (upstream_pass go g single retried st selected).0.open_bodies
        ≡ st.open_bodies + bodies_after (upstream_pass go g single retried st selected).1
  unfolding upstream_pass
  upstream_pass-bodies single retried st selected =
      let (w, sent) = g.send st.world selected in
      ground (arith, after_send-bodies single retried (sent_state st selected) selected sent)

  pub upstream_loop-Kept :
      (fuel : ℕ) (single retried : Bool) (st : Serving S) (selected : SelectedAccount)
      → Kept st (upstream_loop go g fuel single retried st selected).0
  unfolding upstream_loop
  upstream_loop-Kept zero single retried st selected = Kept-refl st
  upstream_loop-Kept (suc fuel) single retried st selected =
      let (st₁, pass) = upstream_pass go g single retried st selected in
      let kept = upstream_pass-Kept single retried st selected in
      elim (Pass-cases pass) [
        | inl (end, e) ↦ rw (e, upstream_loop) kept
        | inr (token, e) ↦
            let later =
              upstream_loop-Kept fuel single true st₁
                (record selected { authorization_token = token }) in
            rw (e, upstream_loop) (ground arith)
      ]

  pub upstream_loop-bodies :
      (fuel : ℕ) (single retried : Bool) (st : Serving S) (selected : SelectedAccount)
      → (upstream_loop go g fuel single retried st selected).0.open_bodies
        ≡ st.open_bodies + bodies_of (upstream_loop go g fuel single retried st selected).1
  unfolding upstream_loop
  upstream_loop-bodies zero single retried st selected = ground arith
  upstream_loop-bodies (suc fuel) single retried st selected =
      let (st₁, pass) = upstream_pass go g single retried st selected in
      let opened = upstream_pass-bodies single retried st selected in
      elim (Pass-cases pass) [
        | inl (end, e) ↦ rw (e, upstream_loop) (rw e at opened)
        | inr (token, e) ↦
            let later =
              upstream_loop-bodies fuel single true st₁
                (record selected { authorization_token = token }) in
            rw (e, upstream_loop) (let opened' = rw e at opened in omega (arith, later, opened'))
      ]

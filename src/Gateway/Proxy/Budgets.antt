-- ===== src/Gateway/Proxy/Budgets.antt =====
-- gateway/proxy.go: the budget of the API key is asked once for a request, before an upstream is.
use n2api.Base.{
  ℕ, zero, suc, ◌+◌, String, ◌≡◌, refl, ◌⊎◌, inl, inr, Bool, true, false, ◌&&◌, ◌∷◌, arith, nat_beq,
  if◌then◌else◌, ◌==◌, nat_eq, string_eq, Bool-cases, length, ℤ, int_eq,
}
use n2api.Go.{Stdlib}
use n2api.Gateway.Proxy.Serving.{
  SelectedAccount, Gateway, Serving, with_world, close_last_retryable,
}
use n2api.Gateway.Proxy.Upstream.{UpstreamEnd, upstream_loop}
use n2api.Gateway.Proxy.Failover.{
  Attempt-cases, after_upstream, use_account, admit_and_use, try_account, attempt, serve_attempts,
  start, serve, after_admission, after_selection,
}
use n2api.Gateway.Limits.Concurrency.{effective_limit}
use n2api.Store.Budget.Tables.{BudgetError}
use n2api.Gateway.Proxy.Moves.{after_upstream-Decided}
use n2api.Gateway.Proxy.Tidy.{upstream_loop-Kept}

module _ {S : Type 0} (go : Stdlib) (g : Gateway S) where
  -- One admission was granted, or none and no upstream was asked.
  pub record Paid (st : Serving S) : Type 0 where
    pub admitted_once : st.admissions ≡ (if st.admission_id == "" then 0 else 1)
    pub admitted_first : g.has_budgets ≡ true → (st.admission_id == "") ≡ true → length st.asked ≡ 0

  after_upstream-Paid :
      (left : ℕ) (st : Serving S) (selected : SelectedAccount) (end : UpstreamEnd)
      → Paid st
      → Paid (after_upstream go g left st selected end).0
  after_upstream-Paid left st selected end h =
      let decided = after_upstream-Decided go g left st selected end in ground (arith, decided, h)

  use_account-Paid :
      (single : Bool) (left : ℕ) (st : Serving S) (selected : SelectedAccount)
      → Paid st
      → (st.admission_id == "" && g.has_budgets) ≡ false
      → Paid (use_account go g single left st selected).0
  unfolding use_account
  use_account-Paid single left st selected h p =
      let st₁ : Serving S = record st {
        world = (g.record_account_used st.world selected.account_id).0;
        used = selected.account_id ∷ st.used;
      } in
      let (st₂, end) = upstream_loop go g 2 single false st₁ selected in
      let kept = upstream_loop-Kept go g 2 single false st₁ selected in
      ground (arith, h, p, after_upstream-Paid left st₂ selected end (ground (arith, kept, h, p)))

  after_admission-Paid :
      (single : Bool) (left : ℕ) (st : Serving S) (selected : SelectedAccount)
      (admitted : String ⊎ BudgetError)
      → Paid st
      → (st.admission_id == "") ≡ true
      → ((id : String) → admitted ≡ inl id → (id == "") ≡ false)
      → Paid (after_admission go g single left st selected admitted).0
  unfolding after_admission
  after_admission-Paid single left st selected (inl id) h p named =
      let admitted : Serving S = record st { admission_id = id; admissions = st.admissions + 1 } in
      let n = named id refl in
      use_account-Paid single left admitted selected (ground (arith, h, p, n)) (ground (arith, n))
  after_admission-Paid single left st selected (inr e) h p named = ground (arith, h)

  admit_and_use-Paid :
      (single : Bool) (left : ℕ) (st : Serving S) (selected : SelectedAccount)
      → ((w : S) (id : String) → (g.admit_budget w).1 ≡ inl id → (id == "") ≡ false)
      → Paid st
      → Paid (admit_and_use go g single left st selected).0
  unfolding admit_and_use
  admit_and_use-Paid single left st selected named h =
      let (w, admitted) = g.admit_budget st.world in
      elim (Bool-cases (st.admission_id == "" && g.has_budgets)) [
        | inl e ↦
            rw (e, admit_and_use)
              (after_admission-Paid single left (with_world st w) selected admitted
                (ground (arith, h)) (ground arith) (named st.world))
        | inr e ↦ rw (e, admit_and_use) (use_account-Paid single left st selected h e)
      ]

  after_selection-Paid :
      (limit : ℤ) (single : Bool) (left : ℕ) (st : Serving S) (selected : SelectedAccount)
      → ((w : S) (id : String) → (g.admit_budget w).1 ≡ inl id → (id == "") ≡ false)
      → Paid st
      → Paid (after_selection go g limit single left st selected).0
  unfolding after_selection try_account
  after_selection-Paid limit single left st selected named h =
      let (w, granted) =
        g.acquire_account st.world selected.account_id
          (effective_limit selected.max_concurrent_requests limit) in
      let held : Serving S = record st { world = w; held = selected.account_id ∷ st.held } in
      ground (arith, h, admit_and_use-Paid single left held selected named (ground (arith, h)))

  attempt-Paid :
      (limit : ℤ) (single : Bool) (left : ℕ) (st : Serving S)
      → ((w : S) (id : String) → (g.admit_budget w).1 ≡ inl id → (id == "") ≡ false)
      → Paid st
      → Paid (attempt go g limit single left st).0
  unfolding attempt
  attempt-Paid limit single left st named h =
      let (w, selected, error) = g.select_account st.world st.failed_account_ids in
      let closed = close_last_retryable (with_world st w) in
      let counted : Serving S = record closed { attempt_count = st.attempt_count + 1 } in
      ground (
        arith,
        h,
        after_selection-Paid limit single left counted selected named (ground (arith, h)),
      )

  serve_attempts-Paid :
      (limit : ℤ) (single : Bool) (left : ℕ) (st : Serving S)
      → ((w : S) (id : String) → (g.admit_budget w).1 ≡ inl id → (id == "") ≡ false)
      → Paid st
      → Paid (serve_attempts go g limit single left st).0
  unfolding serve_attempts
  serve_attempts-Paid limit single zero st named h = h
  serve_attempts-Paid limit single (suc left) st named h =
      let (st₁, turn) = attempt go g limit single left st in
      let paid = attempt-Paid limit single left st named h in
      elim (Attempt-cases turn) [
        | inl (outcome, e) ↦ rw (e, serve_attempts) paid
        | inr e ↦ rw (e, serve_attempts) (serve_attempts-Paid limit single left st₁ named paid)
      ]

  pub serve-Paid :
      (limit : ℤ) (max_attempts : ℕ) (w : S)
      → ((w : S) (id : String) → (g.admit_budget w).1 ≡ inl id → (id == "") ≡ false)
      → Paid (serve go g limit max_attempts w).0
  unfolding serve
  serve-Paid limit max_attempts w named =
      serve_attempts-Paid limit (nat_beq max_attempts 1) max_attempts (start go g w) named
        (ground arith)

  -- Where the proxy has budgets and each admission that is granted has an identifier, a request takes
  -- one admission of the budget of its key, or it takes none and no upstream is asked.
  pub serve-admitted :
      (limit : ℤ) (max_attempts : ℕ) (w : S)
      → ((w : S) (id : String) → (g.admit_budget w).1 ≡ inl id → (id == "") ≡ false)
      → g.has_budgets ≡ true
      → let st = (serve go g limit max_attempts w).0 in
        (st.admissions ≡ 1) ⊎ ((st.admissions ≡ 0) × (length st.asked ≡ 0))
  serve-admitted limit max_attempts w named b =
      let paid = serve-Paid limit max_attempts w named in ground (arith, paid, b)

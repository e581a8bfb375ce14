-- ===== src/Gateway/Proxy/Granted.antt =====
-- gateway/proxy.go: the admission that a request ends with is one that AdmitAPIKeyBudget granted.
use n2api.Base.{
  ℕ, zero, suc, not, pos, ltb, ◌+◌, String, ◌≡◌, refl, sym, subst, Option-cases, ◌⊎◌, inl, inr,
  Bool, true, false, ◌&&◌, ◌∷◌, arith, nat_beq, if◌then◌else◌, ◌==◌, nat_eq, string_eq, Bool-cases,
  ℤ, int_eq,
}
use n2api.Go.{Stdlib}
use n2api.Gateway.Proxy.Serving.{
  SelectedAccount, Gateway, Serving, with_world, close_last_retryable,
}
use n2api.Gateway.Proxy.Upstream.{upstream_loop}
use n2api.Gateway.Proxy.Failover.{
  Attempt, Attempt-cases, returns, continues, account_limited, with_failed, with_fallback,
  use_account, admit_and_use, try_account, attempt, serve_attempts, start, serve, after_admission,
  after_selection,
}
use n2api.Gateway.Limits.Concurrency.{effective_limit}
use n2api.Gateway.Proxy.Released.{if-both}
use n2api.Provider.Account.{contains}
use n2api.Store.Budget.Tables.{BudgetError}
use n2api.Gateway.Proxy.Moves.{after_upstream-Decided}
use n2api.Gateway.Proxy.Tidy.{upstream_loop-Kept}

-- No admission, or the identifier of one that was granted in some state.
abbrev pub IsGranted : {S : Type 0} → Gateway S → String → Type 0
IsGranted {S} g id = (id ≡ "") ⊎ ((w : S) × ((g.admit_budget w).1 ≡ inl id))

module _ {S : Type 0} (go : Stdlib) (g : Gateway S) where
  use_account-same_admission :
      (single : Bool) (left : ℕ) (st : Serving S) (selected : SelectedAccount)
      → (use_account go g single left st selected).0.admission_id ≡ st.admission_id
  unfolding use_account
  use_account-same_admission single left st selected =
      let st₁ : Serving S = record st {
        world = (g.record_account_used st.world selected.account_id).0;
        used = selected.account_id ∷ st.used;
      } in
      let (st₂, end) = upstream_loop go g 2 single false st₁ selected in
      let kept = upstream_loop-Kept go g 2 single false st₁ selected in
      let decided = after_upstream-Decided go g left st₂ selected end in
      ground (arith, kept, decided)

  after_admission-IsGranted :
      (single : Bool) (left : ℕ) (st : Serving S) (selected : SelectedAccount) (w : S)
      (admitted : String ⊎ BudgetError)
      → (g.admit_budget w).1 ≡ admitted
      → IsGranted g st.admission_id
      → IsGranted g (after_admission go g single left st selected admitted).0.admission_id
  unfolding after_admission
  after_admission-IsGranted single left st selected w (inl id) e h =
      let admitted : Serving S = record st { admission_id = id; admissions = st.admissions + 1 } in
      subst (λ (i : String). IsGranted g i)
        (sym (use_account-same_admission single left admitted selected)) (inr (w, e))
  after_admission-IsGranted single left st selected w (inr refusal) e h = h

  admit_and_use-IsGranted :
      (single : Bool) (left : ℕ) (st : Serving S) (selected : SelectedAccount)
      → IsGranted g st.admission_id
      → IsGranted g (admit_and_use go g single left st selected).0.admission_id
  unfolding admit_and_use
  admit_and_use-IsGranted single left st selected h =
      let (w, admitted) = g.admit_budget st.world in
      elim (Bool-cases (st.admission_id == "" && g.has_budgets)) [
        | inl e ↦
            rw (e, admit_and_use)
              (after_admission-IsGranted single left (with_world st w) selected st.world admitted
                refl h)
        | inr e ↦
            rw (e, admit_and_use)
              (subst (λ (i : String). IsGranted g i)
                (sym (use_account-same_admission single left st selected)) h)
      ]

  abbrev Grants : Serving S × Attempt → Type 0
  Grants r = IsGranted g r.0.admission_id

  try_account-IsGranted :
      (limit : ℤ) (single : Bool) (left : ℕ) (st : Serving S) (selected : SelectedAccount)
      → IsGranted g st.admission_id
      → IsGranted g (try_account go g limit single left st selected).0.admission_id
  unfolding try_account
  try_account-IsGranted limit single left st selected h =
      let (w, granted) =
        g.acquire_account st.world selected.account_id
          (effective_limit selected.max_concurrent_requests limit) in
      let held : Serving S = record st { world = w; held = selected.account_id ∷ st.held } in
      let failed : Serving S =
        with_failed go g (record st { world = w; account_concurrency_limited = true })
          selected.account_id in
      if-both Grants (not granted)
        (if ltb 0 left
          then (with_fallback go g failed, continues)
          else (failed, returns account_limited))
        (admit_and_use go g single left held selected)
        (if-both Grants (ltb 0 left) (with_fallback go g failed, continues)
          (failed, returns account_limited) h h)
        (admit_and_use-IsGranted single left held selected h)

  after_selection-IsGranted :
      (limit : ℤ) (single : Bool) (left : ℕ) (st : Serving S) (selected : SelectedAccount)
      → IsGranted g st.admission_id
      → IsGranted g (after_selection go g limit single left st selected).0.admission_id
  unfolding after_selection
  after_selection-IsGranted limit single left st selected h =
      let id = selected.account_id in
      elim (Bool-cases (not (id == pos 0) && contains id st.failed_account_ids)) [
        | inl e ↦ rw (e, after_selection) h
        | inr e ↦ rw (e, after_selection) (try_account-IsGranted limit single left st selected h)
      ]

  attempt-IsGranted :
      (limit : ℤ) (single : Bool) (left : ℕ) (st : Serving S)
      → IsGranted g st.admission_id
      → IsGranted g (attempt go g limit single left st).0.admission_id
  unfolding attempt
  attempt-IsGranted limit single left st h =
      let (w, selected, error) = g.select_account st.world st.failed_account_ids in
      let closed = close_last_retryable (with_world st w) in
      let counted : Serving S = record closed { attempt_count = st.attempt_count + 1 } in
      elim (Option-cases error) [
        | inl e ↦ rw (e, attempt) (after_selection-IsGranted limit single left counted selected h)
        | inr (failure, e) ↦ rw (e, attempt) h
      ]

  serve_attempts-IsGranted :
      (limit : ℤ) (single : Bool) (left : ℕ) (st : Serving S)
      → IsGranted g st.admission_id
      → IsGranted g (serve_attempts go g limit single left st).0.admission_id
  unfolding serve_attempts
  serve_attempts-IsGranted limit single zero st h = h
  serve_attempts-IsGranted limit single (suc left) st h =
      let (st₁, turn) = attempt go g limit single left st in
      let granted = attempt-IsGranted limit single left st h in
      elim (Attempt-cases turn) [
        | inl (outcome, e) ↦ rw (e, serve_attempts) granted
        | inr e ↦ rw (e, serve_attempts) (serve_attempts-IsGranted limit single left st₁ granted)
      ]

  pub serve-IsGranted :
      (limit : ℤ) (max_attempts : ℕ) (w : S)
      → IsGranted g (serve go g limit max_attempts w).0.admission_id
  unfolding serve
  serve-IsGranted limit max_attempts w =
      serve_attempts-IsGranted limit (nat_beq max_attempts 1) max_attempts (start go g w) (inl refl)

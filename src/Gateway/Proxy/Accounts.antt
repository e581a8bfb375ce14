-- ===== src/Gateway/Proxy/Accounts.antt =====
-- gateway/proxy.go: no account is used twice for a request, and none is asked too often.
use n2api.Base.{
  ℕ, zero, suc, ◌+◌, ◌≤◌, ◌≡◌, refl, sym, subst, inl, inr, Bool, true, false, not, ◌&&◌, ◌||◌, List,
  [], ◌∷◌, ◌++◌, arith, nat_beq, if◌then◌else◌, ◌==◌, nat_eq, string_eq, Bool-cases, Option-cases,
  length, All, ℤ, pos, int_eq,
}
use n2api.Go.{Stdlib}
use n2api.Gateway.Proxy.Serving.{
  SelectedAccount, Gateway, Serving, with_world, close_last_retryable,
}
use n2api.Gateway.Proxy.Failover.{
  append_unique_int64, Attempt, Attempt-cases, continues, try_account, attempt, serve_attempts,
  start, serve, after_selection,
}
use n2api.Gateway.Proxy.Moves.{Moved, try_account-Moved}
use n2api.Provider.Account.{contains}

-- The accounts that are named are named once.
abbrev pub IsOnce : List ℤ → Type 0
IsOnce [] = Unit
IsOnce (id ∷ ids) = ((id == pos 0 || not (contains id ids)) ≡ true) × IsOnce ids

abbrev IsExcluded : List ℤ → ℤ → Type 0
IsExcluded failed id = (id == pos 0 || contains id failed) ≡ true

contains-append :
    (id : ℤ) (xs : List ℤ) (y : ℤ) → contains id (xs ++ (y ∷ [])) ≡ (contains id xs || y == id)
contains-append id [] y = ground arith
contains-append id (x ∷ xs) y = ground (arith, contains-append id xs y)

-- The account that failed is excluded, and so is every other one that was.
append_unique_self : (failed : List ℤ) (id : ℤ) → IsExcluded (append_unique_int64 failed id) id
unfolding append_unique_int64
append_unique_self failed id =
    ground (arith, contains-append id failed id, (int_eq.beq_iff id id).1 refl)

append_unique-IsExcluded :
    (failed : List ℤ) (id other : ℤ)
    → IsExcluded failed other
    → IsExcluded (append_unique_int64 failed id) other
unfolding append_unique_int64
append_unique-IsExcluded failed id other h = ground (arith, contains-append other failed id)

append_unique-All :
    (failed : List ℤ) (id : ℤ) (ids : List ℤ)
    → All (IsExcluded failed) ids
    → All (IsExcluded (append_unique_int64 failed id)) ids
append_unique-All failed id [] h = tt
append_unique-All failed id (x ∷ ids) h =
    (append_unique-IsExcluded failed id x h.0, append_unique-All failed id ids h.1)

-- An account that did not fail was not used, where all that were used did fail.
unused_lem :
    (failed : List ℤ) (id : ℤ) (ids : List ℤ)
    → All (IsExcluded failed) ids
    → (not (id == pos 0) && contains id failed) ≡ false
    → (id == pos 0 || not (contains id ids)) ≡ true
unused_lem failed id [] h p = ground arith
unused_lem failed id (x ∷ ids) h p = ground (
  arith,
  (int_eq.beq_iff x id).0,
  (int_eq.beq_iff id (pos 0)).1,
  (int_eq.beq_iff x (pos 0)).0,
  h.0,
  unused_lem failed id ids h.1 p,
)

-- The requests to the upstream in a number of attempts.
abbrev pub requests_in : Bool → ℕ → ℕ
requests_in single attempts = if single then attempts else attempts + attempts

module _ {S : Type 0} (go : Stdlib) (g : Gateway S) where
  -- After a number of attempts.
  pub record Fair (single : Bool) (attempts : ℕ) (st : Serving S) : Type 0 where
    pub used_once : IsOnce st.used
    pub few_used : length st.used ≤ attempts
    pub few_asked : length st.asked ≤ requests_in single attempts

  Fair-weaken :
      (single : Bool) (n m : ℕ) (st : Serving S) → Fair single n st → n ≤ m → Fair single m st
  Fair-weaken single n m st fair le = record {
    used_once = fair.used_once;
    few_used = ground (arith, fair);
    few_asked = ground (arith, fair);
  }

  -- Between two attempts, each account that was used failed.
  abbrev Between : Bool → ℕ → Serving S → Type 0
  Between single attempts st =
      Fair single attempts st × All (IsExcluded st.failed_account_ids) st.used

  abbrev After : Bool → ℕ → Serving S × Attempt → Type 0
  After single attempts r =
      Fair single attempts r.0
      × (r.1 ≡ continues → All (IsExcluded r.0.failed_account_ids) r.0.used)

  Moved-After :
      (single : Bool) (n : ℕ) (st : Serving S) (id : ℤ) (r : Serving S × Attempt)
      → Between single n st
      → (not (id == pos 0) && contains id st.failed_account_ids) ≡ false
      → Moved go g id single st r
      → After single (n + 1) r
  Moved-After single n st id r (fair, excluded) p m = (
    record {
      used_once = elim m.used_step [
        | inl e ↦ subst IsOnce (sym e) fair.used_once
        | inr e ↦
            subst IsOnce (sym e)
              (unused_lem st.failed_account_ids id st.used excluded p, fair.used_once)
      ];
      few_used = ground (arith, fair, m);
      few_asked = ground (arith, fair, m);
    },
    λ c.
        let Excluded = λ (ids : List ℤ). All (IsExcluded r.0.failed_account_ids) ids in
        let before : Excluded st.used =
          subst (λ (failed : List ℤ). All (IsExcluded failed) st.used) (sym (m.failed_on c))
            (append_unique-All st.failed_account_ids id st.used excluded) in
        let self : IsExcluded r.0.failed_account_ids id =
          subst (λ (failed : List ℤ). IsExcluded failed id) (sym (m.failed_on c))
            (append_unique_self st.failed_account_ids id) in
        elim m.used_step [
          | inl e ↦ subst Excluded (sym e) before
          | inr e ↦ subst Excluded (sym e) (self, before)
        ],
  )

  after_selection-After :
      (limit : ℤ) (single : Bool) (left n : ℕ) (st : Serving S) (selected : SelectedAccount)
      → Between single n st
      → After single (n + 1) (after_selection go g limit single left st selected)
  unfolding after_selection
  after_selection-After limit single left n st selected (fair, excluded) =
      let id = selected.account_id in
      elim (Bool-cases (not (id == pos 0) && contains id st.failed_account_ids)) [
        | inl e ↦
            rw (e, after_selection)
              (Fair-weaken single n (n + 1) st fair (omega arith), λ c. excluded)
        | inr e ↦
            rw (e, after_selection)
              (Moved-After single n st id (try_account go g limit single left st selected)
                (fair, excluded) e (try_account-Moved go g limit single left st selected))
      ]

  attempt-After :
      (limit : ℤ) (single : Bool) (left n : ℕ) (st : Serving S)
      → Between single n st
      → After single (n + 1) (attempt go g limit single left st)
  unfolding attempt
  attempt-After limit single left n st (fair, excluded) =
      let (w, selected, error) = g.select_account st.world st.failed_account_ids in
      let closed = close_last_retryable (with_world st w) in
      let counted : Serving S = record closed { attempt_count = st.attempt_count + 1 } in
      let same : Fair single n counted = record {
        used_once = fair.used_once;
        few_used = fair.few_used;
        few_asked = fair.few_asked;
      } in
      let unused : Fair single n closed = record {
        used_once = fair.used_once;
        few_used = fair.few_used;
        few_asked = fair.few_asked;
      } in
      elim (Option-cases error) [
        | inl e ↦
            rw (e, attempt)
              (after_selection-After limit single left n counted selected (same, excluded))
        | inr (failure, e) ↦
            rw (e, attempt)
              (Fair-weaken single n (n + 1) closed unused (omega arith), λ c. excluded)
      ]

  serve_attempts-Fair :
      (limit : ℤ) (single : Bool) (left n : ℕ) (st : Serving S)
      → Between single n st
      → Fair single (n + left) (serve_attempts go g limit single left st).0
  unfolding serve_attempts
  serve_attempts-Fair limit single zero n st (fair, excluded) =
      Fair-weaken single n (n + zero) st fair (omega arith)
  serve_attempts-Fair limit single (suc left) n st between =
      let (st₁, turn) = attempt go g limit single left st in
      let (fair, excluded) = attempt-After limit single left n st between in
      elim (Attempt-cases turn) [
        | inl (outcome, e) ↦
            rw (e, serve_attempts)
              (Fair-weaken single (n + 1) (n + suc left) st₁ fair (omega arith))
        | inr e ↦
            let later = serve_attempts-Fair limit single left (n + 1) st₁ (fair, excluded e) in
            rw (e, serve_attempts)
              (Fair-weaken single (n + 1 + left) (n + suc left)
                (serve_attempts go g limit single left st₁).0 later (omega arith))
      ]

  -- For one request no account is used twice (but for an account without an identifier), at most
  -- `max_attempts` accounts are used, and the upstream is asked at most twice for each attempt, and
  -- once where there is a single attempt.
  pub serve-Fair :
      (limit : ℤ) (max_attempts : ℕ) (w : S)
      → let st = (serve go g limit max_attempts w).0 in
        IsOnce st.used
        × (length st.used ≤ max_attempts)
        × (length st.asked ≤ requests_in (nat_beq max_attempts 1) max_attempts)
  unfolding serve
  serve-Fair limit max_attempts w =
      let fair =
        serve_attempts-Fair limit (nat_beq max_attempts 1) max_attempts 0 (start go g w)
          (ground arith) in
      (fair.used_once, ground (arith, fair), ground (arith, fair))

-- ===== src/Provider/Offered.antt =====
-- provider/scheduling.go and provider/service.go: where the candidates of a routing pool come from.
use n2api.Base.{
  ℕ, String, ◌≡◌, refl, sym, ap, ◌∙◌, subst, ◌⊎◌, inl, inr, Bool, true, false, not, ◌&&◌, ◌||◌,
  List, [], ◌∷◌, arith, ◌==◌, nat_eq, string_eq, Bool-cases, keep, ℤ, int_eq, map,
}
use n2api.Go.{Stdlib}
use n2api.Provider.Account.{Account, AccountModel, filter_accounts_by_endpoint, endpoint_blocked}
use n2api.Provider.Chain.{
  is_pool_not_found, RoutingPool, PoolLookup, found, refused, SelectionError, Result, ok, err,
}
use n2api.Provider.Repository.{Repository}
use n2api.Provider.Select.{
  is_empty, filter_listed, list_accounts, why_empty, pool_candidates,
  normalized_excluded_account_ids,
}

pub result-cases :
    {A : Type 0} (r : Result A) → ((a : A) × (r ≡ ok a)) ⊎ ((e : SelectionError) × (r ≡ err e))
result-cases (ok a) = inl (a, refl)
result-cases (err e) = inr (e, refl)

lookup-cases :
    (l : PoolLookup)
    → ((pool : RoutingPool) × (l ≡ found pool)) ⊎ ((e : SelectionError) × (l ≡ refused e))
lookup-cases (found pool) = inl (pool, refl)
lookup-cases (refused e) = inr (e, refl)

keep_all : (xs : List Account) → keep (λ _. true) xs ≡ xs
keep_all [] = refl
keep_all (x ∷ xs) = ap (λ l. x ∷ l) (keep_all xs)

-- Some of the accounts of a list, in their order.
abbrev pub IsSomeOf : List Account → List Account → Type 0
IsSomeOf xs all = (p : (Account → Bool)) × (xs ≡ keep p all)

filter_accounts-IsSomeOf :
    (go : Stdlib) (model endpoint : String) (models : ℤ → List AccountModel)
    (accounts : List Account)
    → IsSomeOf (filter_accounts_by_endpoint go model endpoint models accounts) accounts
unfolding filter_accounts_by_endpoint
filter_accounts-IsSomeOf go model endpoint models accounts =
    elim (Bool-cases (go.trim_space model == "" || go.trim_space endpoint == "")) [
      | inl e ↦ rw (e, filter_accounts_by_endpoint) (λ _. true, sym (keep_all accounts))
      | inr e ↦
          rw (e, filter_accounts_by_endpoint)
            (λ a. not (endpoint_blocked go model endpoint (models a.id)), refl)
    ]

module _ {S : Type 0} (go : Stdlib) (repo : Repository S) where
  -- What the repository lists for a pool, on one of its two methods.
  abbrev pub IsListed : ℕ → S → ℤ → String → String → List ℤ → List Account → Type 0
  IsListed now s pool_id model endpoint excluded listed =
      (repo.list_accounts_for_routing_pool_and_endpoint s pool_id model endpoint excluded now
        ≡ ok listed)
      ⊎ (repo.list_accounts_for_routing_pool s pool_id model excluded now ≡ ok listed)

  filter_listed-IsSomeOf :
      (s : S) (model endpoint : String) (accounts result : List Account)
      → filter_listed go repo s model endpoint accounts ≡ ok result
      → IsSomeOf result accounts
  unfolding filter_listed
  filter_listed-IsSomeOf s model endpoint accounts result h =
      let all : accounts ≡ result → IsSomeOf result accounts =
        λ e. (λ _. true, sym e ∙ sym (keep_all accounts)) in
      elim (Bool-cases (go.trim_space model == "")) [
        | inl m ↦ all (ground (arith, m, h))
        | inr m ↦ elim (Bool-cases (go.trim_space endpoint == "")) [
          | inl e ↦ all (ground (arith, e, h))
          | inr e ↦ elim (Bool-cases (is_empty accounts)) [
            | inl f ↦ all (ground (arith, f, h))
            | inr f ↦
                elim (result-cases (
                  repo.list_account_models_for_accounts s (map (λ (a : Account). a.id) accounts))) [
                    | inr (w, r) ↦
                        let t : ◌≡◌ {A = Result (List Account)} (err w) (ok result) =
                          rw (m, e, f, r, filter_listed) at h in
                        cc
                    | inl (models, r) ↦
                        let kept = filter_accounts_by_endpoint go model endpoint models accounts in
                        let t : ◌≡◌ {A = Result (List Account)} (ok kept) (ok result) =
                          rw (m, e, f, r, filter_listed) at h in
                        let u : kept ≡ result = cc in
                        subst (λ (l : List Account). IsSomeOf l accounts) u
                          (filter_accounts-IsSomeOf go model endpoint models accounts)
                  ]
          ]
        ]
      ]

  list_accounts-IsListed :
      (now : ℕ) (s : S) (pool_id : ℤ) (model endpoint : String) (excluded : List ℤ)
      (accounts : List Account)
      → list_accounts go repo now s pool_id model endpoint excluded ≡ ok accounts
      → (listed : List Account) × IsListed now s pool_id model endpoint excluded listed
        × IsSomeOf accounts listed
  unfolding list_accounts
  list_accounts-IsListed now s pool_id model endpoint excluded accounts h =
      let use_endpoint = not (endpoint == "") && repo.endpoint_aware in
      elim (Bool-cases use_endpoint) [
        | inl e ↦
            elim (result-cases (
              repo.list_accounts_for_routing_pool_and_endpoint s pool_id model endpoint excluded
                now)) [
                  | inl (listed, r) ↦ (
                    listed,
                    inl r,
                    filter_listed-IsSomeOf s model endpoint listed accounts
                        (rw (e, r, list_accounts) at h),
                  )
                  | inr (w, r) ↦
                      let t : ◌≡◌ {A = Result (List Account)} (err w) (ok accounts) =
                        rw (e, r, list_accounts) at h in
                      cc
                ]
        | inr e ↦
            elim (result-cases (repo.list_accounts_for_routing_pool s pool_id model excluded now)) [
              | inl (listed, r) ↦ (
                listed,
                inr r,
                filter_listed-IsSomeOf s model endpoint listed accounts
                    (rw (e, r, list_accounts) at h),
              )
              | inr (w, r) ↦
                  let t : ◌≡◌ {A = Result (List Account)} (err w) (ok accounts) =
                    rw (e, r, list_accounts) at h in
                  cc
            ]
      ]

  why_empty-empty :
      (now : ℕ) (s : S) (pool_id : ℤ) (model endpoint : String)
      → is_empty (why_empty go repo now s pool_id model endpoint).accounts ≡ true
  unfolding why_empty
  why_empty-empty now s pool_id model endpoint = ground arith

  -- Candidates are offered only out of what the repository lists for a pool that it finds enabled.
  pub pool_candidates-IsListed :
      (now : ℕ) (s : S) (pool_id : ℤ) (model endpoint : String) (excluded : List ℤ)
      → let c = pool_candidates go repo now s pool_id model endpoint excluded in
        is_empty c.accounts ≡ false
        → (listed : List Account) × IsListed now s pool_id
            (go.trim_space model)
            endpoint
            (normalized_excluded_account_ids excluded)
            listed
          × IsSomeOf c.accounts listed
  unfolding pool_candidates
  pool_candidates-IsListed now s pool_id model_text endpoint excluded h =
      let model = go.trim_space model_text in
      let positive = normalized_excluded_account_ids excluded in
      elim (lookup-cases (repo.find_routing_pool s pool_id)) [
        | inr (w, l) ↦ elim (Bool-cases (is_pool_not_found w)) [
          | inl n ↦ let f : true ≡ false = simp (l, n, pool_candidates) at h in cc
          | inr n ↦ let f : true ≡ false = simp (l, n, pool_candidates) at h in cc
        ]
        | inl (pool, l) ↦ elim (Bool-cases pool.enabled) [
          | inr d ↦ let f : true ≡ false = simp (l, d, pool_candidates) at h in cc
          | inl d ↦
              elim (result-cases (list_accounts go repo now s pool_id model endpoint positive)) [
                | inr (w, r) ↦ let f : true ≡ false = simp (l, d, r, pool_candidates) at h in cc
                | inl ([], r) ↦
                    elim (result-cases (list_accounts go repo now s pool_id model endpoint [])) [
                      | inr (w, q) ↦
                          let f : true ≡ false = simp (l, d, r, q, pool_candidates) at h in cc
                      | inl (a ∷ rest, q) ↦
                          let f : true ≡ false = simp (l, d, r, q, pool_candidates) at h in cc
                      | inl ([], q) ↦
                          let f : is_empty (why_empty go repo now s pool_id model endpoint).accounts
                              ≡ false =
                            simp (l, d, r, q, pool_candidates) at h in
                          let t = why_empty-empty now s pool_id model endpoint in cc
                    ]
                | inl (a ∷ rest, r) ↦
                    let listing =
                      list_accounts-IsListed now s pool_id model endpoint positive (a ∷ rest) r in
                    simp (l, d, r, pool_candidates) listing
              ]
        ]
      ]

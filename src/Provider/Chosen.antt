-- ===== src/Provider/Chosen.antt =====
-- provider/scheduling.go: the account that a turn of selectAccountForRoutingPoolChain selects in its
-- pool.
use n2api.Base.{
  ℕ, ◌≡◌, ◌==◌, refl, sym, ap, subst, ◌⊎◌, inl, inr, Bool, true, false, Option, none, some, List,
  [], arith, nat_eq, string_eq, Bool-cases, Option-cases, int_eq,
}
use mathlib.Core.List.{Perm}
use mathlib.Core.List.Perm
use n2api.Go.{Stdlib}
use n2api.Provider.Order.{sticky_session_candidates-Perm}
use n2api.Provider.Offered.{result-cases, IsSomeOf, IsListed, pool_candidates-IsListed}
use n2api.Provider.Account.{Account}
use n2api.Provider.Chain.{RoutingPool, SelectionError, more_specific_selection_error}
use n2api.Provider.Sticky.{sticky_session_candidates}
use n2api.Provider.Repository.{SelectedAccount, no_account, Repository}
use n2api.Provider.Select.{
  Candidates, is_empty, normalized_excluded_account_ids, pool_candidates, select_from_candidates,
}
use n2api.Provider.Choice.{
  Request, placed, refused_in_pool, Turn, returned, continued, bind_session, try_accounts,
  try_candidates, try_pool,
}
use n2api.Provider.Usable.{none_skipped, FirstUsable, FirstUsable-from}

-- What the chain writes into an account that it selects in a pool.
pub record Placed (q : Request) (pool : RoutingPool) (depth : ℕ) (selected : SelectedAccount)
    : Type 0 where
  pub in_enabled : pool.enabled ≡ true
  pub of_pool : selected.routing_pool_id ≡ pool.id
  pub named : selected.routing_pool_name ≡ pool.name
  pub at_depth : selected.routing_pool_fallback_depth ≡ depth
  pub labelled : selected.routing_pool_fallback_chain ≡ q.chain_label

module _ {S : Type 0} (go : Stdlib) (repo : Repository S) where
  -- The session is bound to the account, where there is one.
  abbrev IsBound : Request → RoutingPool → S → SelectedAccount → S → Type 0
  IsBound q pool s selected s' =
      (((q.session == "") ≡ true) × (s' ≡ s))
      ⊎ (repo.upsert_session_binding_in_routing_pool s pool.id q.model q.session selected.account_id
          ≡ (s', none))

  -- The account is the first usable one of some accounts in turn.
  abbrev ChosenOf : Request → RoutingPool → S → List Account → S → SelectedAccount → Type 0
  ChosenOf q pool s order s' selected =
      (chosen : SelectedAccount) × (s₁ : S) × FirstUsable go repo q.now s order s₁ chosen
      × (selected.account_id ≡ chosen.account_id)
      × (selected.authorization_token ≡ chosen.authorization_token)
      × IsBound q pool s₁ selected s'

  -- It was chosen in a pool: the accounts in turn are some of those that the repository lists for
  -- this pool, in any order.
  abbrev pub ChosenIn : Request → RoutingPool → S → SelectedAccount → Type 0
  ChosenIn q pool s' selected =
      (s : S) × (listed candidates order : List Account) × IsListed go repo q.now s pool.id
        (go.trim_space q.model) q.endpoint (normalized_excluded_account_ids q.excluded) listed
      × IsSomeOf candidates listed
      × Perm order candidates
      × ChosenOf q pool s order s' selected

  bind_session-IsBound :
      (q : Request) (pool : RoutingPool) (depth : ℕ) (s : S) (account : SelectedAccount) (s' : S)
      (selected : SelectedAccount)
      → pool.enabled ≡ true
      → bind_session go repo q pool depth s account ≡ (s', selected, none)
      → Placed q pool depth selected
        × (selected.account_id ≡ account.account_id)
        × (selected.authorization_token ≡ account.authorization_token)
        × IsBound q pool s selected s'
  unfolding bind_session
  bind_session-IsBound q pool depth s account s' selected e h =
      let Result_of = S × SelectedAccount × Option SelectionError in
      let (s₁, failed) =
        repo.upsert_session_binding_in_routing_pool s pool.id q.model q.session
          account.account_id in
      elim (Bool-cases (q.session == "")) [
        | inl b ↦
            let t : ◌≡◌ {A = Result_of} (s, placed q pool depth account, none)
                (s', selected, none) =
              rw (b, bind_session) at h in
            let u : placed q pool depth account ≡ selected = ap (λ (r : Result_of). r.1) t in
            let v : s ≡ s' = ap (λ (r : Result_of). r.0) t in
            (ground (arith, e, u), ground (arith, u), ground (arith, u), inl (b, sym v))
        | inr b ↦ elim (Option-cases failed) [
          | inr (w, f) ↦
              let t : ◌≡◌ {A = Result_of} (s₁, no_account, some w) (s', selected, none) =
                rw (b, f, bind_session) at h in
              let u : some w ≡ none = ap (λ (r : Result_of). r.2) t in cc
          | inl f ↦
              let t : ◌≡◌ {A = Result_of} (s₁, placed q pool depth account, none)
                  (s', selected, none) =
                rw (b, f, bind_session) at h in
              let u : placed q pool depth account ≡ selected = ap (λ (r : Result_of). r.1) t in
              let v : s₁ ≡ s' = ap (λ (r : Result_of). r.0) t in
              let bound_to : repo.upsert_session_binding_in_routing_pool s pool.id q.model q.session
                    account.account_id
                  ≡ (s', none) =
                λ i. (v i, f i) in
              (
                ground (arith, e, u),
                ground (arith, u),
                ground (arith, u),
                inr (
                    subst
                      (λ (a : SelectedAccount).
                        repo.upsert_session_binding_in_routing_pool s pool.id q.model q.session
                          a.account_id
                        ≡ (s', none))
                      u bound_to),
              )
        ]
      ]

  try_accounts-ChosenOf :
      (q : Request) (pool : RoutingPool) (depth : ℕ) (s : S) (final : SelectionError)
      (c : Candidates) (accounts : List Account) (s' : S) (selected : SelectedAccount)
      → pool.enabled ≡ true
      → try_accounts go repo q pool depth s final c accounts ≡ returned (s', selected, none)
      → Placed q pool depth selected × ChosenOf q pool s accounts s' selected
  unfolding try_accounts
  try_accounts-ChosenOf q pool depth s final c accounts s' selected e h =
      let (s₁, chosen, failed) =
        select_from_candidates go repo q.now s accounts c.has_enabled c.not_found in
      elim (Option-cases failed) [
        | inr (w, f) ↦
            let t : ◌≡◌ {A = Turn S} (continued s₁ (more_specific_selection_error final w) true)
                (returned (s', selected, none)) =
              rw (f, try_accounts) at h in
            cc
        | inl f ↦
            let t : ◌≡◌ {A = Turn S} (returned (bind_session go repo q pool depth s₁ chosen))
                (returned (s', selected, none)) =
              rw (f, try_accounts) at h in
            let u : bind_session go repo q pool depth s₁ chosen ≡ (s', selected, none) = cc in
            let (placed_there, same_id, same_token, is_bound) =
              bind_session-IsBound q pool depth s₁ chosen s' selected e u in
            let first =
              FirstUsable-from go repo q.now s accounts [] accounts s c.has_enabled c.not_found s₁
                chosen none_skipped refl (λ i. (s₁, chosen, f i)) in
            (placed_there, (chosen, s₁, first, same_id, same_token, is_bound))
      ]

  -- The order in which the candidates are tried is one of themselves.
  try_candidates-ChosenOf :
      (q : Request) (pool : RoutingPool) (depth : ℕ) (s : S) (current : SelectionError)
      (c : Candidates) (s' : S) (selected : SelectedAccount)
      → pool.enabled ≡ true
      → try_candidates go repo q pool depth s current c ≡ returned (s', selected, none)
      → (is_empty c.accounts ≡ false)
        × Placed q pool depth selected
        × ((order : List Account) × Perm order c.accounts × ChosenOf q pool s order s' selected)
  unfolding try_candidates
  try_candidates-ChosenOf q pool depth s current c s' selected e h =
      let final = more_specific_selection_error current c.not_found in
      let binding = repo.find_session_binding_in_routing_pool s pool.id q.model q.session in
      elim (Bool-cases (is_empty c.accounts)) [
        | inl n ↦ let f : true ≡ false = ground (arith, h, n) in cc
        | inr n ↦ elim (Bool-cases (q.session == "")) [
          | inl b ↦
              let (placed_there, chosen) =
                try_accounts-ChosenOf q pool depth s final c c.accounts s' selected e
                  (rw (n, b, try_candidates) at h) in
              (n, placed_there, (c.accounts, Perm.refl _, chosen))
          | inr b ↦
              elim (result-cases (sticky_session_candidates go binding c.accounts q.session)) [
                | inr (w, p) ↦
                    let t : ◌≡◌ {A = Turn S} (returned (s, no_account, some w))
                        (returned (s', selected, none)) =
                      rw (n, b, p, try_candidates) at h in
                    ground arith
                | inl ((order, id), p) ↦
                    let (placed_there, chosen) =
                      try_accounts-ChosenOf q pool depth s final c order s' selected e
                        (rw (n, b, p, try_candidates) at h) in
                    (
                      n,
                      placed_there,
                      (
                        order,
                        sticky_session_candidates-Perm go binding c.accounts q.session order id p,
                        chosen,
                      ),
                    )
              ]
        ]
      ]

  pub try_pool-ChosenIn :
      (q : Request) (pool : RoutingPool) (depth : ℕ) (s : S) (final : SelectionError) (b : Bool)
      (s' : S) (selected : SelectedAccount)
      → try_pool go repo q pool depth s final b ≡ returned (s', selected, none)
      → Placed q pool depth selected × ChosenIn q pool s' selected
  unfolding try_pool
  try_pool-ChosenIn q pool depth s final b s' selected h =
      let c = pool_candidates go repo q.now s pool.id q.model q.endpoint q.excluded in
      elim (Bool-cases pool.enabled) [
        | inr e ↦ let f : true ≡ false = ground (arith, e, h) in cc
        | inl e ↦ elim (Option-cases c.failure) [
          | inr (w, f) ↦
              let t : ◌≡◌ {A = Turn S}
                  (returned (s, refused_in_pool q pool depth (repo.error_text w), some w))
                  (returned (s', selected, none)) =
                rw (e, f, try_pool) at h in
              ground arith
          | inl f ↦
              let (some_left, placed_there, (order, perm, chosen)) =
                try_candidates-ChosenOf q pool depth s final c s' selected e
                  (rw (e, f, try_pool) at h) in
              let (listed, is_listed, is_some_of) =
                pool_candidates-IsListed go repo q.now s pool.id q.model q.endpoint q.excluded
                  some_left in
              (placed_there, (s, listed, c.accounts, order, is_listed, is_some_of, perm, chosen))
        ]
      ]

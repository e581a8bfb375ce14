-- ===== src/Provider/Selection.antt =====
-- What an account selected by provider/scheduling.go is.
use n2api.Base.{
  ℕ, suc, ◌+◌, ◌<◌, String, ◌≡◌, refl, ap, ◌∙◌, subst, ◌⊎◌, inl, inr, Bool, true, false, Option,
  none, some, List, [], ◌∷◌, ◌++◌, arith, nat_eq, string_eq, Option-cases, is_some, length, ℤ,
  int_eq,
}
use n2api.Go.{Stdlib}
use n2api.Provider.Account.{Account}
use n2api.Provider.Chain.{
  RoutingPool, SelectionError, Chain, routing_pool_chain, accounts_unavailable,
  routing_pool_diagnostic_error,
}
use n2api.Provider.Links.{FoundIn, routing_pool_chain-total}
use n2api.Provider.Repository.{SelectedAccount, Repository}
use n2api.Provider.Select.{select_from_candidates}
use n2api.Provider.Choice.{
  Request, refused_by_chain, Turn, returned, continued, try_pool, pools_loop,
  select_account_for_routing_pool_chain,
}
use n2api.Provider.Usable.{none_skipped, FirstUsable, FirstUsable-from}
use n2api.Provider.Chosen.{Placed, ChosenIn, try_pool-ChosenIn}

-- The texts of a request trimmed, with the label of its chain.
abbrev pub request_in_chain : Stdlib → ℕ → String → String → String → List ℤ → String → Request
request_in_chain go now model session endpoint excluded label = record {
  now = now;
  model = go.trim_space model;
  session = go.trim_space session;
  endpoint = endpoint;
  excluded = excluded;
  chain_label = label;
}

module _ {S : Type 0} (go : Stdlib) (repo : Repository S) where
  -- Where selectFromCandidates returns no error, it returns the first account whose credentials can
  -- be used: every candidate before it failed, with its failure on record, in this order.
  pub select_from_candidates-FirstUsable :
      (now : ℕ) (s : S) (accounts : List Account) (has_enabled : Bool) (not_found : SelectionError)
      (s' : S) (selected : SelectedAccount)
      → select_from_candidates go repo now s accounts has_enabled not_found ≡ (s', selected, none)
      → FirstUsable go repo now s accounts s' selected
  select_from_candidates-FirstUsable now s accounts has_enabled not_found s' selected h =
      FirstUsable-from go repo now s accounts [] accounts s has_enabled not_found s' selected
        none_skipped refl h

  abbrev pub PlacedIn : Request → List RoutingPool → ℕ → S → SelectedAccount → Type 0
  PlacedIn q pools depth s' selected =
      (before after : List RoutingPool) × (pool : RoutingPool) × (pools ≡ before ++ (pool ∷ after))
      × Placed q pool (depth + length before) selected
      × ChosenIn go repo q pool s' selected

  turn-cases :
      (t : Turn S)
      → ((r : S × SelectedAccount × Option SelectionError) × (t ≡ returned r))
        ⊎ ((s : S) × (e : SelectionError) × (b : Bool) × (t ≡ continued s e b))
  turn-cases (returned r) = inl (r, refl)
  turn-cases (continued s e b) = inr (s, e, b, refl)

  pools_loop-PlacedIn :
      (q : Request) (pools : List RoutingPool) (depth : ℕ) (s : S) (final : SelectionError)
      (b : Bool) (s' : S) (selected : SelectedAccount)
      → pools_loop go repo q pools depth s final b ≡ (s', selected, none)
      → PlacedIn q pools depth s' selected
  unfolding pools_loop
  pools_loop-PlacedIn q [] depth s final b s' selected h = ground arith
  pools_loop-PlacedIn q (pool ∷ pools) depth s final b s' selected h =
      elim (turn-cases (try_pool go repo q pool depth s final b)) [
        | inl (r, p) ↦
            let t : r ≡ (s', selected, none) = rw (p, pools_loop) at h in
            let (placed_here, chosen_here) =
              try_pool-ChosenIn go repo q pool depth s final b s' selected (p ∙ ap returned t) in
            (
              [],
              pools,
              pool,
              refl,
              subst (λ (d : ℕ). Placed q pool d selected) (omega arith) placed_here,
              chosen_here,
            )
        | inr (s₁, final₁, b₁, p) ↦
            let t : pools_loop go repo q pools (suc depth) s₁ final₁ b₁ ≡ (s', selected, none) =
              rw (p, pools_loop) at h in
            let (before, after, found_pool, e, placed_there, chosen_there) =
              pools_loop-PlacedIn q pools (suc depth) s₁ final₁ b₁ s' selected t in
            (
              pool ∷ before,
              after,
              found_pool,
              ap (λ l. pool ∷ l) e,
              subst (λ (d : ℕ). Placed q found_pool d selected) (omega arith) placed_there,
              chosen_there,
            )
      ]

  -- An account that selectAccountForRoutingPoolChain returns without an error was selected in an
  -- enabled pool of the chain that routingPoolChain returns from the primary pool without an error:
  -- it is the first one with usable credentials, in some order, of some of the accounts that the
  -- repository lists for this pool, the model, the endpoint and the positive excluded IDs, the
  -- failures before it are on record, and the session, where there is one, is bound to it in this
  -- pool. It carries the ID and the name of the pool, the number of pools before it as its fallback
  -- depth, and the label of the chain.
  pub select_account_for_routing_pool_chain-Placed :
      (fuel now : ℕ) (s : S) (primary : ℤ) (model session endpoint : String) (excluded : List ℤ)
      (s' : S) (selected : SelectedAccount)
      → select_account_for_routing_pool_chain go repo fuel now s primary model session endpoint
          excluded
        ≡ some (s', selected, none)
      → (chain : Chain) × (routing_pool_chain go (repo.find_routing_pool s) fuel primary
          ≡ some chain)
        × (chain.failure ≡ none)
        × PlacedIn
            (request_in_chain go now model session endpoint excluded chain.label)
            chain.pools
            0
            s'
            selected
  unfolding select_account_for_routing_pool_chain
  select_account_for_routing_pool_chain-Placed fuel now s primary model session endpoint excluded s'
        selected h =
      elim (Option-cases (routing_pool_chain go (repo.find_routing_pool s) fuel primary)) [
        | inl n ↦
            let t : ◌≡◌ {A = Option (S × SelectedAccount × Option SelectionError)} none
                (some (s', selected, none)) =
              rw (n, select_account_for_routing_pool_chain) at h in
            cc
        | inr (chain, e) ↦ elim (Option-cases chain.failure) [
          | inl f ↦
              let q = request_in_chain go now model session endpoint excluded chain.label in
              let t : some (pools_loop go repo q chain.pools 0 s accounts_unavailable false)
                  ≡ some (s', selected, none) =
                rw (e, f, select_account_for_routing_pool_chain) at h in
              let u : pools_loop go repo q chain.pools 0 s accounts_unavailable false
                  ≡ (s', selected, none) =
                cc in
              (
                chain,
                e,
                f,
                pools_loop-PlacedIn q chain.pools 0 s accounts_unavailable false s' selected u,
              )
          | inr (w, f) ↦
              let t : ◌≡◌ {A = Option (S × SelectedAccount × Option SelectionError)}
                  (some (
                    s,
                    refused_by_chain chain.label
                        (routing_pool_diagnostic_error go w repo.error_text),
                    some w,
                  ))
                  (some (s', selected, none)) =
                rw (e, f, select_account_for_routing_pool_chain) at h in
              ground arith
        ]
      ]

  -- With more fuel than there are pools to find, selectAccountForRoutingPoolChain returns.
  pub select_account_for_routing_pool_chain-total :
      (fuel now : ℕ) (s : S) (primary : ℤ) (model session endpoint : String)
      (excluded known : List ℤ)
      → FoundIn (repo.find_routing_pool s) known
      → length known < fuel
      → is_some (
          select_account_for_routing_pool_chain go repo fuel now s primary model session endpoint
            excluded)
        ≡ true
  unfolding select_account_for_routing_pool_chain
  select_account_for_routing_pool_chain-total fuel now s primary model session endpoint excluded
        known inside h =
      elim (Option-cases (routing_pool_chain go (repo.find_routing_pool s) fuel primary)) [
        | inl n ↦
            let t : is_some (routing_pool_chain go (repo.find_routing_pool s) fuel primary) ≡ true =
              routing_pool_chain-total go (repo.find_routing_pool s) known inside fuel primary h in
            cc
        | inr (chain, e) ↦ rw (e, select_account_for_routing_pool_chain) refl
      ]

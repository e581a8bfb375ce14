-- ===== src/Provider/Choice.antt =====
-- provider/scheduling.go: selectAccountForRoutingPoolChain.
use n2api.Base.{
  ℕ, suc, String, Bool, true, false, not, ◌&&◌, Option, none, some, List, [], ◌∷◌, nat_beq,
  if◌then◌else◌, ◌==◌, nat_eq, string_eq, ℤ, pos, int_eq,
}
use n2api.Go.{Stdlib}
use n2api.Provider.Account.{Account}
use n2api.Provider.Chain.{
  RoutingPool, SelectionError, ok, err, routing_pool_chain, accounts_unavailable, accounts_disabled,
  routing_pool_empty, more_specific_selection_error, routing_pool_diagnostic_error,
}
use n2api.Provider.Sticky.{sticky_session_candidates}
use n2api.Provider.Repository.{SelectedAccount, no_account, Repository}
use n2api.Provider.Select.{
  Candidates, pool_candidates, select_from_candidates, is_empty, is_routing_pool_empty,
}

-- What stays the same along a call: the moment, the texts of the request once trimmed, the
-- excluded accounts, and the label of the chain.
pub record Request : Type 0 where
  pub now : ℕ
  pub model : String
  pub session : String
  pub endpoint : String
  pub excluded : List ℤ
  pub chain_label : String

-- A turn of the loop returns, or goes on with the error so far and whether a pool was enabled.
pub data Turn (S : Type 0) : Type 0 where
  returned : S × SelectedAccount × Option SelectionError → Turn S
  continued : S → SelectionError → Bool → Turn S

-- The SelectedAccount that goes with an error in a pool.
abbrev pub refused_in_pool : Request → RoutingPool → ℕ → String → SelectedAccount
refused_in_pool q pool depth text = record {
  account_id = pos 0;
  authorization_token = "";
  routing_pool_id = pool.id;
  routing_pool_name = pool.name;
  routing_pool_fallback_depth = depth;
  routing_pool_fallback_chain = q.chain_label;
  routing_pool_error = text;
}

abbrev pub refused_by_chain : String → String → SelectedAccount
refused_by_chain label text = record {
  account_id = pos 0;
  authorization_token = "";
  routing_pool_id = pos 0;
  routing_pool_name = "";
  routing_pool_fallback_depth = 0;
  routing_pool_fallback_chain = label;
  routing_pool_error = text;
}

abbrev pub placed : Request → RoutingPool → ℕ → SelectedAccount → SelectedAccount
placed q pool depth selected = record {
  account_id = selected.account_id;
  authorization_token = selected.authorization_token;
  routing_pool_id = pool.id;
  routing_pool_name = pool.name;
  routing_pool_fallback_depth = depth;
  routing_pool_fallback_chain = q.chain_label;
  routing_pool_error = selected.routing_pool_error;
}

module _ {S : Type 0} (go : Stdlib) (repo : Repository S) where
  -- A turn once an account is selected: the session is bound to it.
  unfoldable pub bind_session :
      Request → RoutingPool → ℕ → S → SelectedAccount → S × SelectedAccount × Option SelectionError
  bind_session q pool depth s selected =
      if q.session == ""
      then (s, placed q pool depth selected, none)
      else let (s₁, failed) =
          repo.upsert_session_binding_in_routing_pool s pool.id q.model q.session
            selected.account_id in
        elim failed [
          | none ↦ (s₁, placed q pool depth selected, none)
          | some e ↦ (s₁, no_account, some e)
        ]

  -- A turn once the order of the candidates is fixed.
  unfoldable pub try_accounts :
      Request → RoutingPool → ℕ → S → SelectionError → Candidates → List Account → Turn S
  unfolding bind_session
  try_accounts q pool depth s final c accounts =
      let (s₁, selected, failed) =
        select_from_candidates go repo q.now s accounts c.has_enabled c.not_found in
      elim failed [
        | some e ↦ continued s₁ (more_specific_selection_error final e) true
        | none ↦ returned (bind_session q pool depth s₁ selected)
      ]

  -- A turn once the candidates of the pool are known.
  unfoldable pub try_candidates :
      Request → RoutingPool → ℕ → S → SelectionError → Candidates → Turn S
  unfolding try_accounts
  try_candidates q pool depth s current c =
      let final = more_specific_selection_error current c.not_found in
      if is_empty c.accounts
      then (if is_routing_pool_empty c.not_found && nat_beq depth 0
          then returned
              (s, refused_in_pool q pool depth "routing_pool_empty", some routing_pool_empty)
          else continued s final true)
      else if q.session == ""
      then try_accounts q pool depth s final c c.accounts
      else elim (sticky_session_candidates go
          (repo.find_session_binding_in_routing_pool s pool.id q.model q.session) c.accounts
          q.session) [
            | err e ↦ returned (s, no_account, some e)
            | ok (accounts, _) ↦ try_accounts q pool depth s final c accounts
          ]

  unfoldable pub try_pool : Request → RoutingPool → ℕ → S → SelectionError → Bool → Turn S
  unfolding try_candidates
  try_pool q pool depth s current has_enabled =
      let c = pool_candidates go repo q.now s pool.id q.model q.endpoint q.excluded in
      if not pool.enabled
      then (if nat_beq depth 0
          then returned
              (s, refused_in_pool q pool depth "routing_pool_disabled", some accounts_disabled)
          else continued s current has_enabled)
      else elim c.failure [
        | some e ↦ returned (s, refused_in_pool q pool depth (repo.error_text e), some e)
        | none ↦ try_candidates q pool depth s current c
      ]

  unfoldable pub pools_loop :
      Request
      → List RoutingPool
      → ℕ
      → S
      → SelectionError
      → Bool
      → S × SelectedAccount × Option SelectionError
  unfolding try_pool
  pools_loop q [] depth s final has_enabled = (
    s,
    refused_by_chain q.chain_label "routing_pool_exhausted",
    some (if has_enabled then final else accounts_disabled),
  )
  pools_loop q (pool ∷ pools) depth s final has_enabled =
      elim (try_pool q pool depth s final has_enabled) [
        | returned r ↦ r
        | continued s₁ final₁ has_enabled₁ ↦ pools_loop q pools (suc depth) s₁ final₁ has_enabled₁
      ]

  -- selectAccountForRoutingPoolChain, on the fuel of its routingPoolChain.
  unfoldable pub select_account_for_routing_pool_chain :
      ℕ
      → ℕ
      → S
      → ℤ
      → String
      → String
      → String
      → List ℤ
      → Option (S × SelectedAccount × Option SelectionError)
  unfolding pools_loop
  select_account_for_routing_pool_chain fuel now s primary model session endpoint excluded =
      elim (routing_pool_chain go (repo.find_routing_pool s) fuel primary) [
        | none ↦ none
        | some chain ↦ some (elim chain.failure [
          | some e ↦ (
            s,
            refused_by_chain chain.label (routing_pool_diagnostic_error go e repo.error_text),
            some e,
          )
          | none ↦
              pools_loop
                (record {
                  now = now;
                  model = go.trim_space model;
                  session = go.trim_space session;
                  endpoint = endpoint;
                  excluded = excluded;
                  chain_label = chain.label;
                })
                chain.pools 0 s accounts_unavailable false
        ])
      ]

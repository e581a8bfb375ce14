-- ===== src/Provider/Tests.antt =====
-- Runs of the selection, and the theorems about it at concrete accounts and pools.
use n2api.Base.{
  ℕ, suc, ◌≡◌, refl, true, not, ◌&&◌, Option, none, some, [], ◌∷◌, arith, if◌then◌else◌, ◌==◌,
  nat_eq, string_eq, is_some, keep, ℤ, pos, int_eq,
}
use mathlib.Core.List.{Perm}
use n2api.Samples.{plain_go}
use n2api.Provider.Account.{
  Account, account_schedulable, account_unschedulable_reason, account_rate_limited,
  schedulable_accounts, selection_unschedulable_reason, set_and_after, timers_reason,
}
use n2api.Provider.Schedulable.{
  account_schedulable_lem, candidates_match_reasons, is_usable, status_fits,
}
use n2api.Provider.Chain.{
  RoutingPool, Chain, PoolLookup, found, refused, routing_pool_not_found, routing_pool_cycle,
  Result, ok, err, other_error, routing_pool_chain, chain_loop, chain_complete,
  routing_pool_chain_label, more_specific_selection_error,
}
use n2api.Provider.Sticky.{
  bound, unbound, sticky_session_hash_candidates, sticky_session_candidates, split_tier, same_tier,
  insert_by_id, sort_by_id, rotate_group, sticky_account_index, bound_first,
}
use n2api.Provider.Order.{
  ReordersFirstTier, sticky_session_hash_candidates_lem, sticky_session_candidates-Perm,
  bound_account_first,
}
use n2api.Provider.Links.{
  FoundIn, Explained, routing_pool_chain-total, routing_pool_chain-Explained,
}
use n2api.Provider.Repository.{Repository, SelectedAccount}
use n2api.Provider.Select.{
  select_from_candidates, record_selection_failure, pool_candidates, list_accounts, filter_listed,
}
use n2api.Provider.Choice.{
  select_account_for_routing_pool_chain, pools_loop, try_pool, try_candidates, try_accounts,
  bind_session,
}
use n2api.Provider.Usable.{FirstUsable}
use n2api.Provider.Selection.{
  PlacedIn, request_in_chain, select_from_candidates-FirstUsable,
  select_account_for_routing_pool_chain-Placed,
}

-- An account that is rate limited until a moment.
abbrev limited : ℕ → ℕ → Account
limited id until = record {
  id = pos id;
  enabled = true;
  status = "rate_limited";
  priority = pos 1;
  global_priority = pos 1;
  routing_pool_priority = none;
  load_factor = pos 1;
  last_error_at = none;
  rate_limited_until = some until;
  circuit_open_until = none;
}

still_limited : account_unschedulable_reason (limited 1 50) 20 ≡ account_rate_limited
unfolding account_unschedulable_reason timers_reason
still_limited = refl

account_schedulable_lem_example : account_schedulable (limited 1 50) 60 ≡ (
    true
    && not (set_and_after (some 50) 60)
    && not (set_and_after none 60)
    && status_fits (limited 1 50))
account_schedulable_lem_example = account_schedulable_lem (limited 1 50) 60

candidates_match_reasons_example :
    schedulable_accounts (pos 2 ∷ []) 60 (limited 1 50 ∷ limited 2 50 ∷ limited 3 70 ∷ []) ≡ (
      keep
          (λ a.
            is_usable
              (selection_unschedulable_reason plain_go a "" "responses" (pos 2 ∷ []) 60 [] true))
          (limited 1 50 ∷ limited 2 50 ∷ limited 3 70 ∷ []),
      true,
    )
candidates_match_reasons_example =
    candidates_match_reasons plain_go "responses" (pos 2 ∷ []) 60 (λ _. []) true
      (limited 1 50 ∷ limited 2 50 ∷ limited 3 70 ∷ []) refl

-- Three equal accounts and a session text of four bytes: the list starts at index 4 % 3.
rotated :
    sticky_session_hash_candidates plain_go (limited 3 0 ∷ limited 1 0 ∷ limited 2 0 ∷ []) "abcd"
    ≡ (limited 2 0 ∷ limited 3 0 ∷ limited 1 0 ∷ [])
unfolding sticky_session_hash_candidates split_tier same_tier rotate_group sort_by_id insert_by_id
    sticky_account_index
rotated = refl

sticky_session_hash_candidates_example :
    ReordersFirstTier (limited 3 0) (limited 3 0 ∷ limited 1 0 ∷ limited 2 0 ∷ []) (
      sticky_session_hash_candidates plain_go (limited 3 0 ∷ limited 1 0 ∷ limited 2 0 ∷ []) "abcd")
sticky_session_hash_candidates_example =
    sticky_session_hash_candidates_lem plain_go (limited 3 0) (limited 1 0 ∷ limited 2 0 ∷ [])
      "abcd"

bound_second :
    sticky_session_candidates plain_go (bound (pos 1)) (limited 3 0 ∷ limited 1 0 ∷ []) "abcd"
    ≡ ok (limited 1 0 ∷ limited 3 0 ∷ [], pos 1)
unfolding sticky_session_candidates bound_first
bound_second = refl

bound_account_first_example :
    sticky_session_candidates plain_go (bound (pos 1)) (limited 3 0 ∷ limited 1 0 ∷ []) "abcd"
    ≡ ok (limited 1 0 ∷ limited 3 0 ∷ [], pos 1)
bound_account_first_example =
    bound_account_first plain_go "abcd" (limited 1 0) (limited 3 0 ∷ []) [] (refl, tt)

sticky_session_candidates-Perm_example :
    Perm (limited 1 0 ∷ limited 3 0 ∷ []) (limited 3 0 ∷ limited 1 0 ∷ [])
sticky_session_candidates-Perm_example =
    sticky_session_candidates-Perm plain_go (bound (pos 1)) (limited 3 0 ∷ limited 1 0 ∷ []) "abcd"
      (limited 1 0 ∷ limited 3 0 ∷ []) (pos 1) bound_second

-- Two pools, each the fallback of the other.
abbrev pool_at : ℕ → Option ℤ → RoutingPool
pool_at id next = record { id = pos id; name = "pool"; enabled = true; fallback_pool_id = next }

abbrev looped : ℤ → PoolLookup
looped id =
    if pos 1 == id
    then found (pool_at 1 (some (pos 2)))
    else if pos 2 == id
    then found (pool_at 2 (some (pos 1)))
    else refused routing_pool_not_found

looped-FoundIn : FoundIn looped (pos 1 ∷ pos 2 ∷ [])
looped-FoundIn id pool h = ground arith

routing_pool_chain-total_example : is_some (routing_pool_chain plain_go looped 3 (pos 1)) ≡ true
routing_pool_chain-total_example =
    routing_pool_chain-total plain_go looped (pos 1 ∷ pos 2 ∷ []) looped-FoundIn 3 (pos 1)
      (omega arith)

abbrev cycle_found : Chain
cycle_found = record { pools = []; label = ""; failure = some routing_pool_cycle }

cycle_run : routing_pool_chain plain_go looped 3 (pos 1) ≡ some cycle_found
unfolding routing_pool_chain chain_loop
cycle_run = refl

routing_pool_chain-Explained_example : Explained plain_go looped (pos 1) cycle_found
routing_pool_chain-Explained_example =
    routing_pool_chain-Explained plain_go looped 3 (pos 1) cycle_found cycle_run

-- Pool 1, disabled accounts aside, holds the accounts 3 and 1; the credentials of account 3 fail.
-- The state counts the failures on record and the bindings of sessions.
abbrev single : ℤ → PoolLookup
single id = if pos 1 == id then found (pool_at 1 none) else refused routing_pool_not_found

abbrev credentials : ℕ → Account → ℕ × Result SelectedAccount
credentials s a = if a.id == pos 3 then (s, err (other_error "expired")) else (
  s,
  ok (record {
    account_id = a.id;
    authorization_token = "token";
    routing_pool_id = pos 0;
    routing_pool_name = "";
    routing_pool_fallback_depth = 0;
    routing_pool_fallback_chain = "";
    routing_pool_error = "";
  }),
)

abbrev counting : Repository ℕ
counting = record {
  find_routing_pool = λ s id. single id;
  endpoint_aware = true;
  list_accounts_for_routing_pool_and_endpoint =
      λ s id m e x now. ok (limited 3 0 ∷ limited 1 0 ∷ []);
  list_accounts_for_routing_pool = λ s id m x now. ok (limited 3 0 ∷ limited 1 0 ∷ []);
  list_account_models_for_accounts = λ s ids. ok (λ id. []);
  routing_pool_has_accounts = λ s id. ok true;
  find_session_binding_in_routing_pool = λ s id m t. unbound;
  upsert_session_binding_in_routing_pool = λ s id m t a. (suc s, none);
  record_account_status = λ s a status reason now until open_until. (suc s, none);
  mark_account_error = λ s a reason now. (suc s, none);
  selected_account = credentials;
  error_text = λ e. "text";
}

abbrev chosen : SelectedAccount
chosen = record {
  account_id = pos 1;
  authorization_token = "token";
  routing_pool_id = pos 0;
  routing_pool_name = "";
  routing_pool_fallback_depth = 0;
  routing_pool_fallback_chain = "";
  routing_pool_error = "";
}

second_usable :
    select_from_candidates plain_go counting 60 0
      (limited 3 0 ∷ limited 1 0 ∷ [])
      true
      (other_error "x")
    ≡ (1, chosen, none)
unfolding select_from_candidates record_selection_failure
second_usable = refl

select_from_candidates-FirstUsable_example :
    FirstUsable plain_go counting 60 0 (limited 3 0 ∷ limited 1 0 ∷ []) 1 chosen
select_from_candidates-FirstUsable_example =
    select_from_candidates-FirstUsable plain_go counting 60 0 (limited 3 0 ∷ limited 1 0 ∷ []) true
      (other_error "x") 1 chosen second_usable

abbrev chosen_in_pool : SelectedAccount
chosen_in_pool = record {
  account_id = pos 1;
  authorization_token = "token";
  routing_pool_id = pos 1;
  routing_pool_name = "pool";
  routing_pool_fallback_depth = 0;
  routing_pool_fallback_chain = "pool";
  routing_pool_error = "";
}

chain_choice :
    select_account_for_routing_pool_chain plain_go counting 2 60 0 (pos 1) "" "" "" []
    ≡ some (1, chosen_in_pool, none)
unfolding select_account_for_routing_pool_chain routing_pool_chain chain_loop chain_complete
    routing_pool_chain_label pools_loop try_pool pool_candidates list_accounts filter_listed
    try_candidates try_accounts bind_session select_from_candidates record_selection_failure
    more_specific_selection_error
chain_choice = refl

select_account_for_routing_pool_chain-Placed_example :
    (chain : Chain) × (routing_pool_chain plain_go single 2 (pos 1) ≡ some chain)
    × (chain.failure ≡ none)
    × PlacedIn plain_go counting
        (request_in_chain plain_go 60 "" "" "" [] chain.label)
        chain.pools
        0
        1
        chosen_in_pool
select_account_for_routing_pool_chain-Placed_example =
    select_account_for_routing_pool_chain-Placed plain_go counting 2 60 0 (pos 1) "" "" "" [] 1
      chosen_in_pool chain_choice

single-FoundIn : FoundIn single (pos 1 ∷ [])
single-FoundIn id pool h = ground arith

-- ===== src/Provider/Chain.antt =====
-- provider/scheduling.go: the fallback chain of routing pools, and the errors of the selection.
use n2api.Base.{
  ℕ, zero, suc, String, Bool, true, false, not, Option, none, some, List, [], ◌∷◌, ◌++◌, map,
  if◌then◌else◌, ◌==◌, nat_eq, string_eq, ℤ, is_pos, int_eq,
}
use Prim.Native.String.{◌++◌ as str_append}
use n2api.Go.{Stdlib}
use n2api.Provider.Account.{contains}

-- The fields of RoutingPool that the selection reads.
pub record RoutingPool : Type 0 where
  pub id : ℤ
  pub name : String
  pub enabled : Bool
  pub fallback_pool_id : Option ℤ

-- The errors of the package that the selection tells apart, and the others by their text.
pub data SelectionError : Type 0 where
  invalid_input accounts_disabled accounts_unavailable model_unavailable : SelectionError
  endpoint_unavailable routing_pool_not_found routing_pool_empty : SelectionError
  routing_pool_cycle routing_pool_exhausted : SelectionError
  other_error : String → SelectionError

-- A value and a nil error, or an error.
pub data Result (A : Type 0) : Type 0 where
  ok : A → Result A
  err : SelectionError → Result A

-- The pool that FindRoutingPool returns, or its error.
pub data PoolLookup : Type 0 where
  found : RoutingPool → PoolLookup
  refused : SelectionError → PoolLookup

abbrev pub is_pool_not_found : SelectionError → Bool
is_pool_not_found routing_pool_not_found = true
is_pool_not_found _ = false

-- The three results of routingPoolChain.
pub record Chain : Type 0 where
  pub pools : List RoutingPool
  pub label : String
  pub failure : Option SelectionError

abbrev pub pool_label : Stdlib → RoutingPool → String
pool_label go pool =
    let name = go.trim_space pool.name in
    if name == "" then str_append "pool " (go.format_int pool.id) else name

abbrev pub join_labels : String → List String → String
join_labels separator [] = ""
join_labels separator (x ∷ []) = x
join_labels separator (x ∷ y ∷ rest) =
    str_append x (str_append separator (join_labels separator (y ∷ rest)))

unfoldable pub routing_pool_chain_label : Stdlib → List RoutingPool → String
routing_pool_chain_label go pools = join_labels " -> " (map (pool_label go) pools)

-- What routingPoolChain returns at the end of its loop, and on an error of FindRoutingPool.
unfoldable pub chain_complete : Stdlib → List RoutingPool → Chain
chain_complete go pools = record {
  pools = pools;
  label = routing_pool_chain_label go pools;
  failure = none;
}

unfoldable pub chain_refused : Stdlib → SelectionError → List RoutingPool → Chain
chain_refused go e [] = record { pools = []; label = ""; failure = some e }
chain_refused go e (p ∷ ps) =
    if is_pool_not_found e
    then record {
      pools = p ∷ ps;
      label = routing_pool_chain_label go (p ∷ ps);
      failure = some routing_pool_exhausted;
    }
    else record { pools = []; label = ""; failure = some e }

-- The next pool of a chain; none where the loop breaks.
abbrev pub fallback : RoutingPool → Option ℤ
fallback pool = elim pool.fallback_pool_id [
  | none ↦ none
  | some id ↦ if is_pos id then some id else none
]

-- The loop of routingPoolChain, on fuel: the pools so far and the IDs visited.
unfoldable pub chain_loop :
    Stdlib → (ℤ → PoolLookup) → ℕ → ℤ → List ℤ → List RoutingPool → Option Chain
unfolding chain_complete chain_refused
chain_loop go find zero id visited pools = none
chain_loop go find (suc fuel) id visited pools = elim (not (is_pos id)) [
  | true ↦ some (chain_complete go pools)
  | false ↦ elim (contains id visited) [
    | true ↦ some (record { pools = []; label = ""; failure = some routing_pool_cycle })
    | false ↦ elim (find id) [
      | refused e ↦ some (chain_refused go e pools)
      | found pool ↦ elim (fallback pool) [
        | none ↦ some (chain_complete go (pools ++ (pool ∷ [])))
        | some next ↦ chain_loop go find fuel next (id ∷ visited) (pools ++ (pool ∷ []))
      ]
    ]
  ]
]

unfoldable pub routing_pool_chain : Stdlib → (ℤ → PoolLookup) → ℕ → ℤ → Option Chain
routing_pool_chain go find fuel primary = chain_loop go find fuel primary [] []

-- moreSpecificSelectionError; neither error that selectAccountForRoutingPoolChain passes is nil.
unfoldable pub more_specific_selection_error : SelectionError → SelectionError → SelectionError
more_specific_selection_error accounts_unavailable next = next
more_specific_selection_error current model_unavailable = model_unavailable
more_specific_selection_error current endpoint_unavailable = endpoint_unavailable
more_specific_selection_error current next = current

unfoldable pub routing_pool_diagnostic_error :
    Stdlib → SelectionError → (SelectionError → String) → String
routing_pool_diagnostic_error go accounts_disabled text = "routing_pool_disabled"
routing_pool_diagnostic_error go routing_pool_cycle text = "routing_pool_cycle"
routing_pool_diagnostic_error go routing_pool_not_found text = "routing_pool_unavailable"
routing_pool_diagnostic_error go routing_pool_exhausted text = "routing_pool_exhausted"
routing_pool_diagnostic_error go e text = go.trim_space (text e)

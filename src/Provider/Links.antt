-- ===== src/Provider/Links.antt =====
-- What routingPoolChain of provider/scheduling.go returns.
use n2api.Base.{
  ℕ, zero, suc, ◌≤◌, ◌<◌, ◌≡◌, refl, sym, ap, subst, ◌⊎◌, inl, inr, true, false, not, Option, none,
  some, List, [], ◌∷◌, ◌++◌, arith, nat_eq, string_eq, Bool-cases, Option-cases, is_some, length,
  keep, length-keep, ℤ, is_pos, int_beq, int_beq_iff, int_eq,
}
use n2api.Go.{Stdlib}
use n2api.Provider.Account.{contains}
use n2api.Provider.Chain.{
  RoutingPool, SelectionError, PoolLookup, found, refused, Chain, chain_complete, chain_refused,
  fallback, chain_loop, routing_pool_chain, routing_pool_cycle,
}

lookup-cases :
    (l : PoolLookup)
    → ((e : SelectionError) × (l ≡ refused e)) ⊎ ((pool : RoutingPool) × (l ≡ found pool))
lookup-cases (refused e) = inl (e, refl)
lookup-cases (found pool) = inr (pool, refl)

-- The IDs among `known` that have not been visited.
abbrev pub unvisited : List ℤ → List ℤ → List ℤ
unvisited visited known = keep (λ k. not (contains k visited)) known

unvisited-le :
    (id : ℤ) (visited known : List ℤ)
    → length (unvisited (id ∷ visited) known) ≤ length (unvisited visited known)
unvisited-le id visited [] = omega arith
unvisited-le id visited (k ∷ known) = ground (arith, unvisited-le id visited known)

unvisited-lt :
    (id : ℤ) (visited known : List ℤ)
    → contains id visited ≡ false
    → contains id known ≡ true
    → length (unvisited (id ∷ visited) known) < length (unvisited visited known)
unvisited-lt id visited [] h k = cc
unvisited-lt id visited (j ∷ known) h k = elim (Bool-cases (int_beq j id)) [
  | inl e ↦
      let p : j ≡ id = (int_beq_iff j id).0 e in
      let q : int_beq id j ≡ true = (int_beq_iff id j).1 (sym p) in
      let r : contains j visited ≡ false = subst (λ x. contains x visited ≡ false) (sym p) h in
      rw (q, r) (omega (arith, unvisited-le id visited known))
  | inr e ↦
      let k' : contains id known ≡ true = rw e at k in
      ground (arith, unvisited-lt id visited known h k')
]

-- Every pool that can be found has its ID in the list `known`.
abbrev pub FoundIn : (ℤ → PoolLookup) → List ℤ → Type 0
FoundIn find known = (id : ℤ) (pool : RoutingPool) → find id ≡ found pool → contains id known ≡ true

chain_loop-total :
    (go : Stdlib) (find : ℤ → PoolLookup) (known : List ℤ) (inside : FoundIn find known) (fuel : ℕ)
    (id : ℤ) (visited : List ℤ) (pools : List RoutingPool)
    → length (unvisited visited known) < fuel
    → is_some (chain_loop go find fuel id visited pools) ≡ true
unfolding chain_loop
chain_loop-total go find known inside zero id visited pools h = ground arith
chain_loop-total go find known inside (suc fuel) id visited pools h =
    elim (Bool-cases (is_pos id)) [
      | inr e ↦ rw (e, chain_loop) refl
      | inl e ↦ elim (Bool-cases (contains id visited)) [
        | inl f ↦ rw (e, f, chain_loop) refl
        | inr f ↦ elim (lookup-cases (find id)) [
          | inl (w, g) ↦ rw (e, f, g, chain_loop) refl
          | inr (pool, g) ↦ elim (Option-cases (fallback pool)) [
            | inl n ↦ rw (e, f, g, n, chain_loop) refl
            | inr (next, n) ↦
                rw (e, f, g, n, chain_loop)
                  (chain_loop-total go find known inside fuel next (id ∷ visited)
                    (pools ++ (pool ∷ []))
                    (omega (arith, unvisited-lt id visited known f (inside id pool g))))
          ]
        ]
      ]
    ]

-- With more fuel than there are pools to find, routingPoolChain returns, whatever cycles the
-- fallbacks of the pools form.
pub routing_pool_chain-total :
    (go : Stdlib) (find : ℤ → PoolLookup) (known : List ℤ) (inside : FoundIn find known) (fuel : ℕ)
    (primary : ℤ)
    → length known < fuel
    → is_some (routing_pool_chain go find fuel primary) ≡ true
unfolding routing_pool_chain
routing_pool_chain-total go find known inside fuel primary h =
    chain_loop-total go find known inside fuel primary [] []
      (omega (arith, length-keep (λ k. not (contains k [])) known))

-- Following the fallbacks from `start`: the IDs visited, the latest first, the pools found there in
-- their order, and the ID that comes next.
pub data Reaches (find : ℤ → PoolLookup) (start : ℤ) : List ℤ → List RoutingPool → ℤ → Type 0 where
  here : Reaches find start [] [] start
  follow :
      {visited : List ℤ} {pools : List RoutingPool} {id next : ℤ} {pool : RoutingPool}
      → Reaches find start visited pools id
      → is_pos id ≡ true
      → contains id visited ≡ false
      → find id ≡ found pool
      → fallback pool ≡ some next
      → Reaches find start (id ∷ visited) (pools ++ (pool ∷ [])) next

-- What a chain must be where the walk stands before an ID.
pub data Ends (go : Stdlib) (find : ℤ → PoolLookup) (visited : List ℤ) (pools : List RoutingPool)
    (id : ℤ) (c : Chain) : Type 0 where
  nothing_asked : is_pos id ≡ false → c ≡ chain_complete go pools → Ends go find visited pools id c
  cycle :
      contains id visited ≡ true
      → c.pools ≡ []
      → c.failure ≡ some routing_pool_cycle
      → Ends go find visited pools id c
  missing :
      {e : SelectionError}
      → find id ≡ refused e
      → c ≡ chain_refused go e pools
      → Ends go find visited pools id c
  last :
      {pool : RoutingPool}
      → contains id visited ≡ false
      → find id ≡ found pool
      → fallback pool ≡ none
      → c ≡ chain_complete go (pools ++ (pool ∷ []))
      → Ends go find visited pools id c

abbrev pub Explained : Stdlib → (ℤ → PoolLookup) → ℤ → Chain → Type 0
Explained go find start c =
    (visited : List ℤ) × (pools : List RoutingPool) × (id : ℤ) × Reaches find start visited pools id
    × Ends go find visited pools id c

chain_loop-Explained :
    (go : Stdlib) (find : ℤ → PoolLookup) (start : ℤ) (fuel : ℕ) (id : ℤ) (visited : List ℤ)
    (pools : List RoutingPool) (c : Chain)
    → Reaches find start visited pools id
    → chain_loop go find fuel id visited pools ≡ some c
    → Explained go find start c
unfolding chain_loop
chain_loop-Explained go find start zero id visited pools c r h = cc
chain_loop-Explained go find start (suc fuel) id visited pools c r h =
    elim (Bool-cases (is_pos id)) [
      | inr e ↦
          let p : some (chain_complete go pools) ≡ some c = rw (e, chain_loop) at h in
          (visited, pools, id, r, nothing_asked e cc)
      | inl e ↦ elim (Bool-cases (contains id visited)) [
        | inl f ↦
            let p : ◌≡◌ {A = Option Chain}
                (some (record { pools = []; label = ""; failure = some routing_pool_cycle }))
                (some c) =
              rw (e, f, chain_loop) at h in
            let q : record { pools = []; label = ""; failure = some routing_pool_cycle } ≡ c = cc in
            (
              visited,
              pools,
              id,
              r,
              cycle f (sym (ap (λ (x : Chain). x.pools) q)) (sym (ap (λ (x : Chain). x.failure) q)),
            )
        | inr f ↦ elim (lookup-cases (find id)) [
          | inl (w, g) ↦
              let p : some (chain_refused go w pools) ≡ some c = rw (e, f, g, chain_loop) at h in
              (visited, pools, id, r, missing g cc)
          | inr (pool, g) ↦ elim (Option-cases (fallback pool)) [
            | inl n ↦
                let p : some (chain_complete go (pools ++ (pool ∷ []))) ≡ some c =
                  rw (e, f, g, n, chain_loop) at h in
                (visited, pools, id, r, last f g n cc)
            | inr (next, n) ↦
                chain_loop-Explained go find start fuel next (id ∷ visited) (pools ++ (pool ∷ [])) c
                  (follow r e f g n) (rw (e, f, g, n, chain_loop) at h)
          ]
        ]
      ]
    ]

-- Whatever routingPoolChain returns comes from following the fallbacks from the primary pool over
-- IDs each visited once, to one of four ends: no positive ID was asked for, the next ID was visited
-- already (a cycle, with no pools), FindRoutingPool refused it, or its pool has no fallback.
pub routing_pool_chain-Explained :
    (go : Stdlib) (find : ℤ → PoolLookup) (fuel : ℕ) (primary : ℤ) (c : Chain)
    → routing_pool_chain go find fuel primary ≡ some c
    → Explained go find primary c
unfolding routing_pool_chain
routing_pool_chain-Explained go find fuel primary c h =
    chain_loop-Explained go find primary fuel primary [] [] c here h

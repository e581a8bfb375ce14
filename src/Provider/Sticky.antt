-- ===== src/Provider/Sticky.antt =====
-- provider/scheduling.go: the order in which the candidates of a session are tried.
use n2api.Base.{
  take, drop, ℕ, ◌%◌, String, Bool, ◌&&◌, Option, none, some, List, [], ◌∷◌, ◌++◌, leb,
  if◌then◌else◌, ◌==◌, nat_eq, string_eq, is_some, length, ℤ, pos, ltb_ℤ, int_eq, bool_eq,
}
use n2api.Go.{Stdlib}
use n2api.Provider.Chain.{SelectionError, Result, ok, err}
use n2api.Provider.Account.{
  Account, normalized_load_factor, selection_priority, global_account_priority,
}

-- Whether an account lies in the same scheduling tier as the first candidate.
unfoldable pub same_tier : Account → Account → Bool
same_tier first a =
    selection_priority a == selection_priority first
    && global_account_priority a == global_account_priority first
    && normalized_load_factor a.load_factor == normalized_load_factor first.load_factor
    && bool_eq (is_some a.last_error_at) (is_some first.last_error_at)

-- The loop that finds groupEnd: the leading accounts of the first one's tier, and the others.
unfoldable pub split_tier : Account → List Account → List Account × List Account
split_tier first [] = ([], [])
split_tier first (a ∷ rest) =
    let (group, others) = split_tier first rest in
    if same_tier first a then (a ∷ group, others) else ([], a ∷ rest)

-- sort.SliceStable by ID: an account goes before the later ones whose ID is not smaller.
unfoldable pub insert_by_id : Account → List Account → List Account
insert_by_id x [] = x ∷ []
insert_by_id x (y ∷ ys) =
    let rest = insert_by_id x ys in if ltb_ℤ y.id x.id then y ∷ rest else x ∷ y ∷ ys

unfoldable pub sort_by_id : List Account → List Account
unfolding insert_by_id
sort_by_id [] = []
sort_by_id (x ∷ xs) = insert_by_id x (sort_by_id xs)

unfoldable pub sticky_account_index : Stdlib → String → ℕ → ℕ
sticky_account_index go session count = if leb count 1 then 0 else go.fnv64a session % count

unfoldable pub rotate_group : Stdlib → String → List Account → List Account
rotate_group go session group =
    let sorted = sort_by_id group in
    let start = sticky_account_index go session (length sorted) in
    drop start sorted ++ take start sorted

-- stickySessionHashCandidates
unfoldable pub sticky_session_hash_candidates : Stdlib → List Account → String → List Account
sticky_session_hash_candidates go [] session = []
sticky_session_hash_candidates go (first ∷ rest) session =
    let (group, others) = split_tier first (first ∷ rest) in
    if leb (length (first ∷ rest)) 1
    then first ∷ rest
    else if leb (length group) 1
    then first ∷ rest
    else rotate_group go session group ++ others

-- The loop of stickySessionCandidates: the first account with the bound ID, moved to the front.
unfoldable pub bound_first : ℤ → List Account → Option (Account × List Account)
bound_first id [] = none
bound_first id (a ∷ rest) =
    let later = bound_first id rest in
    if a.id == id
    then some (a, rest)
    else elim later [ none ↦ none | some (b, others) ↦ some (b, a ∷ others) ]

-- FindSessionBinding: the bound account, ErrSessionBindingNotFound, or another error.
pub data Binding : Type 0 where
  bound : ℤ → Binding
  unbound : Binding
  broken : SelectionError → Binding

-- stickySessionCandidates and stickySessionCandidatesInRoutingPool, once the binding is read: the
-- candidates in their order and the bound account, or the error.
unfoldable pub sticky_session_candidates :
    Stdlib → Binding → List Account → String → Result (List Account × ℤ)
sticky_session_candidates go binding [] session = ok ([], pos 0)
sticky_session_candidates go binding (a ∷ rest) session = elim binding [
  | broken e ↦ err e
  | unbound ↦ ok (sticky_session_hash_candidates go (a ∷ rest) session, pos 0)
  | bound id ↦ elim (bound_first id (a ∷ rest)) [
    | some (b, others) ↦ ok (b ∷ others, id)
    | none ↦ ok (sticky_session_hash_candidates go (a ∷ rest) session, pos 0)
  ]
]

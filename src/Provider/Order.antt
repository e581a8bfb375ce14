-- ===== src/Provider/Order.antt =====
-- What the order of provider/scheduling.go does to the candidates of a session.
use n2api.Base.{
  take, drop, ℕ, zero, suc, String, ◌≡◌, refl, sym, ap, subst, inl, inr, Bool, true, false, Option,
  some, List, [], ◌∷◌, ◌++◌, leb, ◌==◌, nat_eq, string_eq, Bool-cases, Option-cases, length, All, ℤ,
  pos, ltb_ℤ, int_beq, int_beq_iff, int_eq,
}
use mathlib.Core.List.{Perm, perm_append_comm, perm_middle}
use mathlib.Core.List.Perm
use n2api.Go.{Stdlib}
use n2api.Provider.Account.{Account}
use n2api.Provider.Chain.{Result, ok}
use n2api.Provider.Sticky.{
  same_tier, split_tier, insert_by_id, sort_by_id, sticky_account_index, rotate_group,
  sticky_session_hash_candidates, bound_first, Binding, bound, unbound, broken,
  sticky_session_candidates,
}

insert_by_id-Perm : (x : Account) (ys : List Account) → Perm (insert_by_id x ys) (x ∷ ys)
unfolding insert_by_id
insert_by_id-Perm x [] = Perm.refl _
insert_by_id-Perm x (y ∷ ys) = elim (Bool-cases (ltb_ℤ y.id x.id)) [
  | inl e ↦ rw e (Perm.trans (Perm.cons y (insert_by_id-Perm x ys)) (Perm.swap x y ys))
  | inr e ↦ rw e (Perm.refl _)
]

pub sort_by_id-Perm : (xs : List Account) → Perm (sort_by_id xs) xs
unfolding sort_by_id
sort_by_id-Perm [] = Perm.refl _
sort_by_id-Perm (x ∷ xs) =
    Perm.trans (insert_by_id-Perm x (sort_by_id xs)) (Perm.cons x (sort_by_id-Perm xs))

take-drop {ℓ} : {A : Type ℓ} (n : ℕ) (xs : List A) → take n xs ++ drop n xs ≡ xs
take-drop zero xs = refl
take-drop (suc n) [] = refl
take-drop (suc n) (x ∷ xs) = ap (λ ys. x ∷ ys) (take-drop n xs)

rotate_group-Perm :
    (go : Stdlib) (session : String) (g : List Account) → Perm (rotate_group go session g) g
unfolding rotate_group
rotate_group-Perm go session g =
    let sorted = sort_by_id g in
    let n = sticky_account_index go session (length sorted) in
    Perm.trans (perm_append_comm (drop n sorted) (take n sorted))
      (subst (λ l. Perm l g) (sym (take-drop n sorted)) (sort_by_id-Perm g))

-- The list falls into a group of leading accounts of the first one's tier, and the others, the
-- next of which lies in another tier.
abbrev pub Starts : (Account → Bool) → List Account → Type 0
Starts p [] = Unit
Starts p (a ∷ rest) = p a ≡ false

split_tier-parts :
    (first : Account) (cs : List Account)
    → ((split_tier first cs).0 ++ (split_tier first cs).1 ≡ cs)
      × All (λ a. same_tier first a ≡ true) (split_tier first cs).0
      × Starts (same_tier first) (split_tier first cs).1
unfolding split_tier
split_tier-parts first [] = (refl, tt, tt)
split_tier-parts first (a ∷ rest) =
    let (p, q, r) = split_tier-parts first rest in
    elim (Bool-cases (same_tier first a)) [
      | inl e ↦ rw e (ap (λ l. a ∷ l) p, (e, q), r)
      | inr e ↦ rw e (refl, tt, e)
    ]

-- What an order of the candidates must keep: it permutes a leading group whose members all lie in
-- the first one's tier, and leaves the others, which start outside this tier, in their places.
abbrev pub ReordersFirstTier : Account → List Account → List Account → Type 0
ReordersFirstTier first cs result =
    (group others moved : List Account) × (cs ≡ group ++ others)
    × (result ≡ moved ++ others)
    × Perm moved group
    × All (λ a. same_tier first a ≡ true) group
    × Starts (same_tier first) others

pub sticky_session_hash_candidates_lem :
    (go : Stdlib) (first : Account) (rest : List Account) (session : String)
    → ReordersFirstTier first
        (first ∷ rest)
        (sticky_session_hash_candidates go (first ∷ rest) session)
unfolding sticky_session_hash_candidates
sticky_session_hash_candidates_lem go first rest session =
    let cs = first ∷ rest in
    let (p, q, r) = split_tier-parts first cs in
    let group = (split_tier first cs).0 in
    let others = (split_tier first cs).1 in
    elim (Bool-cases (leb (length cs) 1)) [
      | inl e ↦ rw e (group, others, group, sym p, sym p, Perm.refl group, q, r)
      | inr e ↦ elim (Bool-cases (leb (length group) 1)) [
        | inl f ↦ rw (e, f) (group, others, group, sym p, sym p, Perm.refl group, q, r)
        | inr f ↦
            rw (e, f)
              (
                group,
                others,
                rotate_group go session group,
                sym p,
                refl,
                rotate_group-Perm go session group,
                q,
                r,
              )
      ]
    ]

bound_first-lem :
    (id : ℤ) (cs : List Account) (b : Account) (others : List Account)
    → bound_first id cs ≡ some (b, others)
    → (before after : List Account) × (cs ≡ before ++ (b ∷ after))
      × (others ≡ before ++ after)
      × ((b.id == id) ≡ true)
      × All (λ a. (a.id == id) ≡ false) before
unfolding bound_first
bound_first-lem id [] b others h = cc
bound_first-lem id (a ∷ rest) b others h = elim (Bool-cases (a.id == id)) [
  | inl e ↦
      let p : ◌≡◌ {A = Option (Account × List Account)} (some (a, rest)) (some (b, others)) =
        rw e at h in
      let q : a ≡ b = cc in
      let r : rest ≡ others = cc in ([], rest, cc, cc, subst (λ c. (c.id == id) ≡ true) q e, tt)
  | inr e ↦ elim (Option-cases (bound_first id rest)) [
    | inl f ↦ cc
    | inr ((c, os), f) ↦
        let (before, after, p, q, r, s) = bound_first-lem id rest c os f in
        let g : ◌≡◌ {A = Option (Account × List Account)} (some (c, a ∷ os)) (some (b, others)) =
          rw (e, f) at h in
        let gb : c ≡ b = cc in
        (a ∷ before, after, cc, cc, subst (λ d. (d.id == id) ≡ true) gb r, (e, s))
  ]
]

hash_candidates-Perm :
    (go : Stdlib) (cs : List Account) (session : String)
    → Perm (sticky_session_hash_candidates go cs session) cs
hash_candidates-Perm go [] session = unfold sticky_session_hash_candidates in Perm.refl []
hash_candidates-Perm go (first ∷ rest) session =
    let (group, others, moved, p, q, r, _, _) =
      sticky_session_hash_candidates_lem go first rest session in
    subst (λ l. Perm l (first ∷ rest)) (sym q)
      (subst (λ c. Perm (moved ++ others) c) (sym p) (Perm.append_right others r))

-- Whatever the binding of a session is, stickySessionCandidates loses no candidate and invents
-- none: where it returns an order, that is a permutation of the candidates.
pub sticky_session_candidates-Perm :
    (go : Stdlib) (binding : Binding) (cs : List Account) (session : String) (result : List Account)
    (id : ℤ)
    → sticky_session_candidates go binding cs session ≡ ok (result, id)
    → Perm result cs
unfolding sticky_session_candidates
sticky_session_candidates-Perm go binding [] session result id h =
    let p : result ≡ [] = cc in rw p (Perm.refl _)
sticky_session_candidates-Perm go (broken _) (a ∷ rest) session result id h = cc
sticky_session_candidates-Perm go unbound (a ∷ rest) session result id h =
    let p : result ≡ sticky_session_hash_candidates go (a ∷ rest) session = cc in
    rw p (hash_candidates-Perm go (a ∷ rest) session)
sticky_session_candidates-Perm go (bound k) (a ∷ rest) session result id h =
    elim (Option-cases (bound_first k (a ∷ rest))) [
      | inl e ↦
          let g : ◌≡◌ {A = Result (List Account × ℤ)}
              (ok (sticky_session_hash_candidates go (a ∷ rest) session, pos 0)) (ok (result, id)) =
            rw (e, sticky_session_candidates) at h in
          let p : sticky_session_hash_candidates go (a ∷ rest) session ≡ result = cc in
          subst (λ l. Perm l (a ∷ rest)) p (hash_candidates-Perm go (a ∷ rest) session)
      | inr ((b, others), e) ↦
          let g : ◌≡◌ {A = Result (List Account × ℤ)} (ok (b ∷ others, k)) (ok (result, id)) =
            rw (e, sticky_session_candidates) at h in
          let q : b ∷ others ≡ result = cc in
          let (before, after, c, o, _, _) = bound_first-lem k (a ∷ rest) b others e in
          subst (λ l. Perm l (a ∷ rest)) q
            (subst (λ l. Perm (b ∷ others) l) (sym c)
              (subst (λ l. Perm (b ∷ l) (before ++ (b ∷ after))) (sym o)
                (Perm.symm (perm_middle before after))))
    ]

bound_first_here :
    (b : Account) (before after : List Account)
    → All (λ a. (a.id == b.id) ≡ false) before
    → bound_first b.id (before ++ (b ∷ after)) ≡ some (b, before ++ after)
unfolding bound_first
bound_first_here b [] after h =
    let e : int_beq b.id b.id ≡ true = (int_beq_iff b.id b.id).1 refl in rw e refl
bound_first_here b (a ∷ before) after h = rw (h.0, bound_first_here b before after h.1) refl

-- The candidate to which the session is bound is tried first, and the others keep their order; it
-- is the first candidate with the bound ID.
pub bound_account_first :
    (go : Stdlib) (session : String) (b : Account) (before after : List Account)
    → All (λ a. (a.id == b.id) ≡ false) before
    → sticky_session_candidates go (bound b.id) (before ++ (b ∷ after)) session
      ≡ ok (b ∷ (before ++ after), b.id)
unfolding sticky_session_candidates
bound_account_first go session b [] after h =
    rw (bound_first_here b [] after h, sticky_session_candidates) refl
bound_account_first go session b (a ∷ before) after h =
    rw (bound_first_here b (a ∷ before) after h, sticky_session_candidates) refl

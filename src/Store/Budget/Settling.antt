-- ===== src/Store/Budget/Settling.antt =====
-- Settlement keeps the ledger of store/api_key_budget_ledger.go sound, and is done once.
use n2api.Base.{
  ℕ, zero, suc, ◌+◌, String, ◌≡◌, refl, sym, subst, inl, inr, Bool, true, false, not, ◌&&◌, Option,
  none, some, List, [], ◌∷◌, arith, nat_eq, string_eq, Bool-cases, Option-cases, keep, All, ℤ,
  pos_part, int_eq, update_where, sort_by, All-keep, All-sort_by, IsUnique, Holds-self, All-kept,
  All-both, row_with-found,
}
use n2api.Go.{Stdlib}
use n2api.Store.Budget.Tables.{Admission, Database, is_admitted, is_pending, charge, of_key}
use n2api.Store.Budget.Settle.{
  SettlementRequest, with_admission_id, update_admission, queue_settlement, enqueue_settlement,
  usage_amounts, close_settlement, apply_locked, apply_settlement, settle_usage, next_pending,
  updated_before, head_of, settlement_loop, run_settlement_cycle,
}
use n2api.Store.Budget.Balance.{
  Counter, requests_per_day, requests_per_month, tokens_per_day, tokens_per_month, cost_per_day,
  cost_per_month, amount_of, weight, IsSound, charge-IsBalanced, KeepsIds, update_row-Grows,
  update_row-IsSound, grown_by_none, zero_amounts,
}

queue_settlement-KeepsIds : (q : SettlementRequest) → KeepsIds (queue_settlement q)
queue_settlement-KeepsIds q = record {
  keeps_id = λ a. refl;
  keeps_admission_id = λ a. refl;
  keeps_key = λ a. refl;
}

close_settlement-KeepsIds : (at : ℕ) → KeepsIds (close_settlement at)
close_settlement-KeepsIds at = record {
  keeps_id = λ a. refl;
  keeps_admission_id = λ a. refl;
  keeps_key = λ a. refl;
}

-- A queued settlement weighs what the admission did: nothing is charged yet.
weight-queue_settlement :
    (q : SettlementRequest) (a : Admission)
    → is_admitted a.status ≡ true
    → (c : Counter) → weight c (queue_settlement q a) ≡ weight c a + amount_of c zero_amounts
weight-queue_settlement q a h requests_per_day = ground arith
weight-queue_settlement q a h requests_per_month = ground arith
weight-queue_settlement q a h tokens_per_day = ground arith
weight-queue_settlement q a h tokens_per_month = ground arith
weight-queue_settlement q a h cost_per_day = ground arith
weight-queue_settlement q a h cost_per_month = ground arith

weight-close_settlement :
    (at : ℕ) (a : Admission) (settled_at : ℕ)
    → is_pending a.status ≡ true
    → a.settled_at ≡ some settled_at
    → (c : Counter)
    → weight c (close_settlement at a) ≡ weight c a + amount_of c (usage_amounts a settled_at)
weight-close_settlement at a settled_at h s requests_per_day = ground arith
weight-close_settlement at a settled_at h s requests_per_month = ground arith
weight-close_settlement at a settled_at h s tokens_per_day = ground arith
weight-close_settlement at a settled_at h s tokens_per_month = ground arith
weight-close_settlement at a settled_at h s cost_per_day = ground arith
weight-close_settlement at a settled_at h s cost_per_month = ground arith

pub enqueue_settlement-IsSound :
    (db : Database) (q : SettlementRequest) → IsSound db → IsSound (enqueue_settlement db q).0
unfolding enqueue_settlement
enqueue_settlement-IsSound db q h =
    elim (Option-cases (with_admission_id q.admission_id db.admissions)) [
      | inl e ↦ rw (e, enqueue_settlement) h
      | inr (a, e) ↦ elim (Bool-cases (is_admitted a.status)) [
        | inr s ↦ rw (e, s, enqueue_settlement) h
        | inl s ↦
            rw (e, s, enqueue_settlement)
              (let column = λ (b : Admission). b.admission_id in
                let keeps = queue_settlement-KeepsIds q in
                update_row-IsSound column (queue_settlement q) keeps db q.admission_id db.states h (
                  grown_by_none db.admissions
                    (update_admission q.admission_id (queue_settlement q) db.admissions)
                    a.client_key_id db.states
                    (update_row-Grows column (queue_settlement q) keeps q.admission_id db.admissions
                      a zero_amounts e (weight-queue_settlement q a s))
                    h.balanced))
      ]
    ]

pub apply_locked-IsSound :
    (db : Database) (a : Admission) (at : ℕ) (db' : Database)
    → IsSound db
    → with_admission_id a.admission_id db.admissions ≡ some a
    → is_pending a.status ≡ true
    → apply_locked db a at ≡ some db'
    → IsSound db'
unfolding apply_locked
apply_locked-IsSound db a at db' h e p r = elim (Option-cases a.settled_at) [
  | inl s ↦ let t : ◌≡◌ {A = Option Database} none (some db') = rw (s, apply_locked) at r in cc
  | inr (settled_at, s) ↦
      let admissions = update_admission a.admission_id (close_settlement at) db.admissions in
      let amounts = usage_amounts a settled_at in
      let states = update_where (of_key a.client_key_id) (charge amounts at) db.states in
      let t : ◌≡◌ {A = Option Database}
          (some (record db { states = states; admissions = admissions })) (some db') =
        rw (s, apply_locked) at r in
      let u : record db { states = states; admissions = admissions } ≡ db' = cc in
      subst IsSound u (
        update_row-IsSound (λ (b : Admission). b.admission_id) (close_settlement at)
          (close_settlement-KeepsIds at) db a.admission_id states h
          (charge-IsBalanced db.admissions admissions a.client_key_id amounts at db.states
            (update_row-Grows (λ (b : Admission). b.admission_id) (close_settlement at)
              (close_settlement-KeepsIds at) a.admission_id db.admissions a amounts e
              (weight-close_settlement at a settled_at p s))
            h.balanced))
]

pub apply_settlement-IsSound :
    (db : Database) (id : String) (at : ℕ) (already : Bool)
    → IsSound db
    → IsSound (apply_settlement db id at already).0
unfolding apply_settlement
apply_settlement-IsSound db id at already h =
    elim (Option-cases (with_admission_id id db.admissions)) [
      | inl e ↦ rw (e, apply_settlement) h
      | inr (a, e) ↦ elim (Bool-cases (is_pending a.status)) [
        | inr p ↦ rw (e, p, apply_settlement) h
        | inl p ↦ elim (Option-cases (apply_locked db a at)) [
          | inl r ↦ rw (e, p, r, apply_settlement) h
          | inr (db', r) ↦
              let same : a.admission_id ≡ id =
                row_with-found (λ (b : Admission). b.admission_id) id db.admissions a e in
              let e' : with_admission_id a.admission_id db.admissions ≡ some a =
                subst (λ k. with_admission_id k db.admissions ≡ some a) (sym same) e in
              rw (e, p, r, apply_settlement) (apply_locked-IsSound db a at db' h e' p r)
        ]
      ]
    ]

-- SettleAPIKeyBudgetUsage keeps the ledger sound on every branch.
pub settle_usage-IsSound :
    (go : Stdlib) (db : Database) (q : SettlementRequest)
    → IsSound db
    → IsSound (settle_usage go db q).0
unfolding settle_usage
settle_usage-IsSound go db q h =
    let q' : SettlementRequest = record q { admission_id = go.trim_space q.admission_id } in
    let db₁ = (enqueue_settlement db q').0 in
    let sound = enqueue_settlement-IsSound db q' h in
    ground (
      arith,
      sound,
      apply_settlement-IsSound db₁ q'.admission_id q.settled_at true sound,
      apply_settlement-IsSound db₁ q'.admission_id q.settled_at false sound,
    )

head_of-All :
    (P : Admission → Type 0) (xs : List Admission) (a : Admission)
    → All P xs
    → head_of xs ≡ some a
    → P a
head_of-All P [] a h e = cc
head_of-All P (x ∷ xs) a h e = let p : x ≡ a = cc in subst P p h.0

next_pending_lem :
    (locked : ℕ → Bool) (admissions : List Admission) (a : Admission)
    → IsUnique (λ (b : Admission). b.admission_id) admissions
    → next_pending locked admissions ≡ some a
    → (with_admission_id a.admission_id admissions ≡ some a) × (is_pending a.status ≡ true)
unfolding next_pending
next_pending_lem locked admissions a u e =
    let p = λ (b : Admission). is_pending b.status && not (locked b.id) in
    let Good =
      λ (b : Admission). (with_admission_id b.admission_id admissions ≡ some b) × (p b ≡ true) in
    let held =
      All-keep (λ (b : Admission). with_admission_id b.admission_id admissions ≡ some b) p
        admissions (Holds-self (λ (b : Admission). b.admission_id) admissions u) in
    let good =
      head_of-All Good (sort_by updated_before (keep p admissions)) a
        (All-sort_by Good updated_before (keep p admissions) (
          All-both (λ (b : Admission). with_admission_id b.admission_id admissions ≡ some b)
            (λ (b : Admission). p b ≡ true) (keep p admissions) held (All-kept p admissions)))
        e in
    let pa = good.1 in (good.0, ground arith)

settlement_loop-IsSound :
    (locked : ℕ → ℕ → Bool) (db : Database) (at left : ℕ)
    → IsSound db
    → IsSound (settlement_loop locked db at left).0
unfolding settlement_loop
settlement_loop-IsSound locked db at zero h = h
settlement_loop-IsSound locked db at (suc left) h =
    elim (Option-cases (next_pending (locked left) db.admissions)) [
      | inl e ↦ rw (e, settlement_loop) h
      | inr (a, e) ↦ elim (Option-cases (apply_locked db a at)) [
        | inl r ↦ rw (e, r, settlement_loop) h
        | inr (db₁, r) ↦
            let (held, p) =
              next_pending_lem (locked left) db.admissions a h.unique_admission_ids e in
            rw (e, r, settlement_loop)
              (settlement_loop-IsSound locked db₁ at left
                (apply_locked-IsSound db a at db₁ h held p r))
      ]
    ]

pub run_settlement_cycle-IsSound :
    (locked : ℕ → ℕ → Bool) (db : Database) (now : ℕ) (batch_size : ℤ)
    → IsSound db
    → IsSound (run_settlement_cycle locked db now batch_size).0
unfolding run_settlement_cycle
run_settlement_cycle-IsSound locked db now batch_size h =
    ground (arith, h, settlement_loop-IsSound locked db now (pos_part batch_size) h)

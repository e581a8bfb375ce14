-- ===== src/Store/Budget/Once.antt =====
-- A settlement of store/api_key_budget_ledger.go is charged once.
use n2api.Base.{
  ℕ, String, ◌≡◌, refl, sym, subst, inl, inr, Bool, true, false, not, ◌||◌, some, arith, ltb,
  nat_beq, ◌==◌, nat_eq, string_eq, Bool-cases, Option-cases, int_eq, row_with-found,
  row_with-update_row_self,
}
use n2api.Go.{Stdlib}
use n2api.Store.Budget.Tables.{
  Admission, Database, invalid_input, not_found, database_error, granted, denied, is_admitted,
  is_pending,
}
use n2api.Store.Budget.Settle.{
  SettlementRequest, BudgetSettlement, with_admission_id, update_admission, queue_settlement,
  enqueue_settlement, close_settlement, apply_locked, apply_settlement, settle_usage,
  is_negative_amount, budget_settlement_from_record,
}

-- The admission is there and no longer waits for its settlement.
abbrev pub IsFinal : String → Database → Type 0
IsFinal id db =
    (a : Admission) × (with_admission_id id db.admissions ≡ some a)
    × (is_admitted a.status ≡ false)
    × (is_pending a.status ≡ false)

settle_usage-final :
    (go : Stdlib) (db : Database) (q : SettlementRequest)
    → IsFinal (go.trim_space q.admission_id) db
    → (settle_usage go db q).0 ≡ db
unfolding settle_usage
settle_usage-final go db q (a, e, n, p) = ground (arith, e, n, p)

apply_settlement-IsFinal :
    (db : Database) (id : String) (at : ℕ) (already : Bool) (a : Admission) (s : BudgetSettlement)
    → with_admission_id id db.admissions ≡ some a
    → is_admitted a.status ≡ false
    → (apply_settlement db id at already).1 ≡ granted s
    → IsFinal id (apply_settlement db id at already).0
unfolding apply_settlement apply_locked
apply_settlement-IsFinal db id at already a s e n g = elim (Bool-cases (is_pending a.status)) [
  | inr p ↦ rw (e, p, apply_settlement) (a, e, n, p)
  | inl p ↦ elim (Option-cases a.settled_at) [
    | inl t ↦
        let f : denied database_error ≡ granted s =
          rw (e, p, t, apply_settlement, apply_locked) at g in
        cc
    | inr (t, r) ↦
        let column = λ (b : Admission). b.admission_id in
        let same : a.admission_id ≡ id = row_with-found column id db.admissions a e in
        let written : with_admission_id id (update_admission id (close_settlement at) db.admissions)
            ≡ some (close_settlement at a) =
          row_with-update_row_self column (close_settlement at) (λ b. refl) id db.admissions a e in
        rw (e, p, r, apply_settlement, apply_locked)
          (
            close_settlement at a,
            subst
                (λ k.
                  with_admission_id id (update_admission k (close_settlement at) db.admissions)
                  ≡ some (close_settlement at a))
                (sym same) written,
            refl,
            refl,
          )
  ]
]

-- The first transaction, for an admission under the trimmed ID.
enqueue_settlement-queues :
    (db : Database) (q : SettlementRequest) (a : Admission)
    → with_admission_id q.admission_id db.admissions ≡ some a
    → (b : Admission) × (already : Bool) × (with_admission_id q.admission_id
          (enqueue_settlement db q).0.admissions
        ≡ some b)
      × (is_admitted b.status ≡ false)
      × ((enqueue_settlement db q).1
          ≡ granted (budget_settlement_from_record b already, not (is_pending b.status)))
unfolding enqueue_settlement
enqueue_settlement-queues db q a e = elim (Bool-cases (is_admitted a.status)) [
  | inr n ↦ (a, true, rw (e, n, enqueue_settlement) e, n, rw (e, n, enqueue_settlement) refl)
  | inl n ↦ (
    queue_settlement q a,
    false,
    rw (e, n, enqueue_settlement)
        (row_with-update_row_self (λ (b : Admission). b.admission_id) (queue_settlement q)
          (λ b. refl) q.admission_id db.admissions a e),
    refl,
    rw (e, n, enqueue_settlement) refl,
  )
]

abbrev invalid_request : Stdlib → SettlementRequest → Bool
invalid_request go q =
    q.admission_id == ""
    || ltb 128 (go.byte_length q.admission_id)
    || is_negative_amount q.observed_tokens
    || is_negative_amount q.observed_cost
    || nat_beq q.settled_at 0

settle_usage-IsFinal :
    (go : Stdlib) (db : Database) (request : SettlementRequest) (s : BudgetSettlement)
    → (settle_usage go db request).1 ≡ granted s
    → IsFinal (go.trim_space request.admission_id) (settle_usage go db request).0
unfolding settle_usage
settle_usage-IsFinal go db request s g =
    let q : SettlementRequest = record request {
      admission_id = go.trim_space request.admission_id;
    } in
    elim (Bool-cases (invalid_request go q)) [
      | inl i ↦ let f : denied invalid_input ≡ granted s = rw (i, settle_usage) at g in cc
      | inr i ↦ elim (Option-cases (with_admission_id q.admission_id db.admissions)) [
        | inl e ↦
            let f : denied not_found ≡ granted s =
              unfold enqueue_settlement in rw (i, e, settle_usage, enqueue_settlement) at g in
            cc
        | inr (a, e) ↦
            let (b, already, l, n, r) = enqueue_settlement-queues db q a e in
            elim (Bool-cases (is_pending b.status)) [
              | inr p ↦ rw (i, r, p, settle_usage) (b, l, n, p)
              | inl p ↦
                  rw (i, r, p, settle_usage)
                    (apply_settlement-IsFinal (enqueue_settlement db q).0 q.admission_id
                      q.settled_at already b s l n (rw (i, r, p, settle_usage) at g))
            ]
      ]
    ]

-- Once SettleAPIKeyBudgetUsage has settled an admission, settling it again, with whatever usage,
-- changes nothing in the database.
pub settled_once :
    (go : Stdlib) (db : Database) (first again : SettlementRequest) (s : BudgetSettlement)
    → (settle_usage go db first).1 ≡ granted s
    → go.trim_space again.admission_id ≡ go.trim_space first.admission_id
    → (settle_usage go (settle_usage go db first).0 again).0 ≡ (settle_usage go db first).0
settled_once go db first again s g same = settle_usage-final go (settle_usage go db first).0 again (
    subst (λ id. IsFinal id (settle_usage go db first).0) (sym same)
      (settle_usage-IsFinal go db first s g))

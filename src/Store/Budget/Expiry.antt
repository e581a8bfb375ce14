-- ===== src/Store/Budget/Expiry.antt =====
-- Expiry and the giving up of old admissions keep the ledger of store/api_key_budget_ledger.go
-- sound.
use n2api.Base.{
  ℕ, ◌+◌, ◌≡◌, refl, Bool, true, not, ◌&&◌, some, List, [], ◌∷◌, arith, leb, nat_eq, string_eq,
  keep, All, ℤ, pos_part, int_eq, update_where, sort_by, All-keep, All-take, All-sort_by, row_with,
  update_row, IsUnique, Holds, Holds-self, IsUnique-keep, IsUnique-take, IsUnique-sort_by,
  Holds-update_row, All-kept, All-map,
}
use n2api.Store.Budget.Tables.{Admission, Database, is_admitted, discharge, of_key}
use n2api.Store.Budget.Maintain.{
  expiry_candidate, is_due, ends_before, due_admissions, expiry_amounts, mark_expired, expire_one,
  expire_all, run_expiry_cycle, admitted_before, abandon, abandon_all, stale_admissions,
  run_abandoned_cycle,
}
use n2api.Store.Budget.Balance.{
  Counter, requests_per_day, requests_per_month, tokens_per_day, tokens_per_month, cost_per_day,
  cost_per_month, amount_of, weight, IsSound, discharge-IsBalanced, KeepsIds, update_row-Grows,
  update_row-Shrinks, update_row-IsSound, grown_by_none, zero_amounts,
}

mark_expired-KeepsIds : (x y : Bool) (now : ℕ) → KeepsIds (mark_expired x y now)
mark_expired-KeepsIds x y now = record {
  keeps_id = λ a. refl;
  keeps_admission_id = λ a. refl;
  keeps_key = λ a. refl;
}

abandon-KeepsIds : (now : ℕ) → KeepsIds (abandon now)
abandon-KeepsIds now = record {
  keeps_id = λ a. refl;
  keeps_admission_id = λ a. refl;
  keeps_key = λ a. refl;
}

-- The weights that a marked admission loses are what the cycle takes off the counters.
weight-mark_expired :
    (now : ℕ) (a : Admission) (c : Counter)
    → weight c (
          mark_expired
            (expiry_candidate now a).expire_24h
            (expiry_candidate now a).expire_30d
            now
            a)
        + amount_of c (expiry_amounts (expiry_candidate now a))
      ≡ weight c a
weight-mark_expired now a requests_per_day = ground arith
weight-mark_expired now a requests_per_month = ground arith
weight-mark_expired now a tokens_per_day = ground arith
weight-mark_expired now a tokens_per_month = ground arith
weight-mark_expired now a cost_per_day = ground arith
weight-mark_expired now a cost_per_month = ground arith

expire_one-IsSound :
    (now : ℕ) (db : Database) (a : Admission)
    → row_with (λ (b : Admission). b.id) a.id db.admissions ≡ some a
    → IsSound db
    → IsSound (expire_one now db (expiry_candidate now a))
unfolding expire_one
expire_one-IsSound now db a e h =
    let c = expiry_candidate now a in
    let f = mark_expired c.expire_24h c.expire_30d now in
    let keeps = mark_expired-KeepsIds c.expire_24h c.expire_30d now in
    let column = λ (b : Admission). b.id in
    update_row-IsSound column f keeps db a.id
      (update_where (of_key a.client_key_id) (discharge (expiry_amounts c) now) db.states) h
      (discharge-IsBalanced db.admissions (update_row column a.id f db.admissions) a.client_key_id
        (expiry_amounts c) now db.states
        (update_row-Shrinks column f keeps a.id db.admissions a (expiry_amounts c) e
          (weight-mark_expired now a))
        h.balanced)

expire_all-IsSound :
    (now : ℕ) (db : Database) (due : List Admission)
    → Holds (λ (b : Admission). b.id) db.admissions due
    → IsUnique (λ (b : Admission). b.id) due
    → IsSound db
    → IsSound (expire_all now db due)
unfolding expire_all expire_one
expire_all-IsSound now db [] e u h = h
expire_all-IsSound now db (a ∷ rest) e u h =
    let c = expiry_candidate now a in
    expire_all-IsSound now (expire_one now db c) rest
      (Holds-update_row (λ (b : Admission). b.id) (mark_expired c.expire_24h c.expire_30d now)
        (λ b. refl) a.id db.admissions rest e.1 u.0)
      u.1 (expire_one-IsSound now db a e.0 h)

due_admissions-Holds :
    (locked : ℕ → Bool) (now n : ℕ) (admissions : List Admission)
    → IsUnique (λ (b : Admission). b.id) admissions
    → Holds (λ (b : Admission). b.id) admissions (due_admissions locked now n admissions)
unfolding due_admissions
due_admissions-Holds locked now n admissions u =
    let column = λ (b : Admission). b.id in
    let P = λ (b : Admission). row_with column b.id admissions ≡ some b in
    let p = λ (b : Admission). is_due now b && not (locked b.id) in
    All-take P n (sort_by ends_before (keep p admissions)) (
      All-sort_by P ends_before (keep p admissions)
        (All-keep P p admissions (Holds-self column admissions u)))

due_admissions-IsUnique :
    (locked : ℕ → Bool) (now n : ℕ) (admissions : List Admission)
    → IsUnique (λ (b : Admission). b.id) admissions
    → IsUnique (λ (b : Admission). b.id) (due_admissions locked now n admissions)
unfolding due_admissions
due_admissions-IsUnique locked now n admissions u =
    let column = λ (b : Admission). b.id in
    let p = λ (b : Admission). is_due now b && not (locked b.id) in
    IsUnique-take column n (sort_by ends_before (keep p admissions)) (
      IsUnique-sort_by column ends_before (keep p admissions) (IsUnique-keep column p admissions u))

-- The expiry cycle keeps the ledger sound, whatever rows are locked: it takes off each counter what
-- the expired admissions had put there, once.
pub run_expiry_cycle-IsSound :
    (locked : ℕ → Bool) (db : Database) (now : ℕ) (batch_size : ℤ)
    → IsSound db
    → IsSound (run_expiry_cycle locked db now batch_size).0
unfolding run_expiry_cycle
run_expiry_cycle-IsSound locked db now batch_size h =
    let n = pos_part batch_size in
    let due = due_admissions locked now n db.admissions in
    ground (
      arith,
      h,
      expire_all-IsSound now db due (due_admissions-Holds locked now n db.admissions h.unique_ids)
          (due_admissions-IsUnique locked now n db.admissions h.unique_ids) h,
    )

weight-abandon :
    (now : ℕ) (a : Admission)
    → is_admitted a.status ≡ true
    → (c : Counter) → weight c (abandon now a) ≡ weight c a + amount_of c zero_amounts
weight-abandon now a h requests_per_day = ground arith
weight-abandon now a h requests_per_month = ground arith
weight-abandon now a h tokens_per_day = ground arith
weight-abandon now a h tokens_per_month = ground arith
weight-abandon now a h cost_per_day = ground arith
weight-abandon now a h cost_per_month = ground arith

abandon_all-IsSound :
    (now : ℕ) (db : Database) (admissions stale : List Admission)
    → Holds (λ (b : Admission). b.id) admissions stale
    → IsUnique (λ (b : Admission). b.id) stale
    → All (λ (b : Admission). is_admitted b.status ≡ true) stale
    → IsSound (record db { admissions = admissions })
    → IsSound (record db { admissions = abandon_all now admissions stale })
unfolding abandon_all
abandon_all-IsSound now db admissions [] e u s h = h
abandon_all-IsSound now db admissions (a ∷ rest) e u s h =
    let column = λ (b : Admission). b.id in
    let after = update_row column a.id (abandon now) admissions in
    abandon_all-IsSound now db after rest
      (Holds-update_row column (abandon now) (λ b. refl) a.id admissions rest e.1 u.0) u.1 s.1
      (update_row-IsSound column (abandon now) (abandon-KeepsIds now)
        (record db { admissions = admissions }) a.id db.states h
        (grown_by_none admissions after a.client_key_id db.states
          (update_row-Grows column (abandon now) (abandon-KeepsIds now) a.id admissions a
            zero_amounts e.0 (weight-abandon now a s.0))
          h.balanced))

pub run_abandoned_cycle-IsSound :
    (locked : ℕ → Bool) (db : Database) (cutoff now : ℕ) (batch_size : ℤ)
    → IsSound db
    → IsSound (run_abandoned_cycle locked db cutoff now batch_size).0
unfolding run_abandoned_cycle stale_admissions
run_abandoned_cycle-IsSound locked db cutoff now batch_size h =
    let column = λ (b : Admission). b.id in
    let p =
      λ (b : Admission). is_admitted b.status && leb b.admitted_at cutoff && not (locked b.id) in
    let n = pos_part batch_size in
    let kept = keep p db.admissions in
    let Row = λ (b : Admission). row_with column b.id db.admissions ≡ some b in
    let Open = λ (b : Admission). is_admitted b.status ≡ true in
    let rows = All-take Row n (sort_by admitted_before kept) (
      All-sort_by Row admitted_before kept
        (All-keep Row p db.admissions (Holds-self column db.admissions h.unique_ids))) in
    let unique = IsUnique-take column n (sort_by admitted_before kept) (
      IsUnique-sort_by column admitted_before kept
        (IsUnique-keep column p db.admissions h.unique_ids)) in
    let opened = All-take Open n (sort_by admitted_before kept) (
      All-sort_by Open admitted_before kept (
        All-map (λ (b : Admission). p b ≡ true) Open kept (All-kept p db.admissions)
          (λ b q. ground arith))) in
    let sound =
      abandon_all-IsSound now db db.admissions (stale_admissions locked cutoff n db.admissions) rows
        unique opened h in
    ground (arith, h, sound)

-- ===== src/Store/Budget/Backfill.antt =====
-- The initialization from the request logs keeps the ledger of store/api_key_budget_ledger.go
-- sound.
use n2api.Base.{
  ℕ, suc, ◌+◌, ◌<◌, ◌≡◌, refl, inl, inr, Bool, Option, List, [], ◌∷◌, arith, leb, if◌then◌else◌,
  ◌==◌, nat_eq, string_eq, Option-cases, length, All, ℤ, pos_part, int_eq, take, row_with, IsUnique,
}
use n2api.Go.{Stdlib}
use n2api.Store.Budget.Tables.{Admission, BudgetState, RequestLog, Database, Amounts}
use n2api.Store.Budget.Initialize.{
  least_pending, legacy_logs, legacy_admission, add_amounts, insert_logs, no_amounts, cursor_after,
  initialize_state, window_of, initialize_key, run_initialization_cycle,
}
use n2api.Store.Budget.Admission.{fresh_ids, fresh_admission_ids, issued_later}
use n2api.Store.Budget.Balance.{
  Counter, requests_per_day, requests_per_month, tokens_per_day, tokens_per_month, cost_per_day,
  cost_per_month, counter_of, amount_of, weight, owed, IsSound, update_where-IsBalanced,
}

-- The amounts grow by the weight of the admission that was inserted.
amount_of-add_amounts :
    (go : Stdlib) (id : ℕ) (key : ℤ) (now : ℕ) (log : RequestLog) (t : Amounts) (c : Counter)
    → amount_of c (add_amounts (legacy_admission go id key now log) t)
      ≡ amount_of c t + weight c (legacy_admission go id key now log)
amount_of-add_amounts go id key now log t requests_per_day = ground arith
amount_of-add_amounts go id key now log t requests_per_month = ground arith
amount_of-add_amounts go id key now log t tokens_per_day = ground arith
amount_of-add_amounts go id key now log t tokens_per_month = ground arith
amount_of-add_amounts go id key now log t cost_per_day = ground arith
amount_of-add_amounts go id key now log t cost_per_month = ground arith

-- What the loop over the logs keeps: the columns of the table, and the sums.
record IsFilling (admissions after : List Admission) (next : ℕ) (key : ℤ) (t t' : Amounts)
    : Type 0 where
  unique_ids : IsUnique (λ (a : Admission). a.id) after
  unique_admission_ids : IsUnique (λ (a : Admission). a.admission_id) after
  issued : All (λ (a : Admission). a.id < next) after
  grown :
      (c : Counter) (k : ℤ)
      → owed after k c + (if k == key then amount_of c t else 0)
        ≡ owed admissions k c + (if k == key then amount_of c t' else 0)

insert_logs-IsFilling :
    (go : Stdlib) (key : ℤ) (now : ℕ) (logs : List RequestLog) (start admissions : List Admission)
    (next : ℕ) (t₀ t : Amounts)
    → IsFilling start admissions next key t₀ t
    → IsFilling start
        (insert_logs go key now logs admissions next t).0
        (insert_logs go key now logs admissions next t).1
        key
        t₀
        (insert_logs go key now logs admissions next t).2
unfolding insert_logs
insert_logs-IsFilling go key now [] start admissions next t₀ t h = h
insert_logs-IsFilling go key now (log ∷ logs) start admissions next t₀ t h =
    let a = legacy_admission go next key now log in
    elim (Option-cases (row_with (λ (b : Admission). b.admission_id) a.admission_id admissions)) [
      | inr (b, e) ↦
          rw (e, insert_logs)
            (insert_logs-IsFilling go key now logs start admissions (suc next) t₀ t (record {
              unique_ids = h.unique_ids;
              unique_admission_ids = h.unique_admission_ids;
              issued = issued_later next admissions h.issued;
              grown = h.grown;
            }))
      | inl e ↦
          rw (e, insert_logs)
            (insert_logs-IsFilling go key now logs start (a ∷ admissions) (suc next) t₀
              (add_amounts a t)
              (record {
                unique_ids = (fresh_ids next admissions h.issued, h.unique_ids);
                unique_admission_ids =
                    (fresh_admission_ids a.admission_id admissions e, h.unique_admission_ids);
                issued = (omega arith, issued_later next admissions h.issued);
                grown = λ c k.
                    ground (arith, h.grown c k, amount_of-add_amounts go next key now log t c);
              }))
    ]

initialize_key-IsSound :
    (go : Stdlib) (db : Database) (st : BudgetState) (now n : ℕ)
    → IsSound db
    → IsSound (initialize_key go db st now n).0
unfolding initialize_key
initialize_key-IsSound go db st now n h =
    let (start, end) = window_of st now in
    let found = legacy_logs go db st.client_key_id start end st.log_cursor (suc n) in
    let ready = leb (length found) n in
    let logs = take n found in
    let key = st.client_key_id in
    let filled = insert_logs go key now logs db.admissions db.next_id no_amounts in
    let f : IsFilling db.admissions filled.0 filled.1 key no_amounts filled.2 =
      insert_logs-IsFilling go key now logs db.admissions db.admissions db.next_id no_amounts
        no_amounts
        (record {
          unique_ids = h.unique_ids;
          unique_admission_ids = h.unique_admission_ids;
          issued = h.issued;
          grown = λ c k. refl;
        }) in
    record {
      balanced =
          update_where-IsBalanced db.admissions filled.0 key filled.2
            (initialize_state filled.2 ready start end (cursor_after st.log_cursor logs) now)
            db.states (λ c k. ground (arith, f.grown c k, amount_of-none c)) (λ s. refl)
            (λ c s.
              counter_of-initialize c filled.2 ready start end (cursor_after st.log_cursor logs) now
                s)
            h.balanced;
      unique_ids = f.unique_ids;
      unique_admission_ids = f.unique_admission_ids;
      issued = f.issued;
    }
  where
    amount_of-none : (c : Counter) → amount_of c no_amounts ≡ 0
    amount_of-none requests_per_day = refl
    amount_of-none requests_per_month = refl
    amount_of-none tokens_per_day = refl
    amount_of-none tokens_per_month = refl
    amount_of-none cost_per_day = refl
    amount_of-none cost_per_month = refl

    counter_of-initialize :
        (c : Counter) (t : Amounts) (ready : Bool) (start end : ℕ) (cursor : Option (ℕ × ℕ))
        (now : ℕ) (s : BudgetState)
        → counter_of c (initialize_state t ready start end cursor now s)
          ≡ counter_of c s + amount_of c t
    counter_of-initialize requests_per_day t ready start end cursor now s = refl
    counter_of-initialize requests_per_month t ready start end cursor now s = refl
    counter_of-initialize tokens_per_day t ready start end cursor now s = refl
    counter_of-initialize tokens_per_month t ready start end cursor now s = refl
    counter_of-initialize cost_per_day t ready start end cursor now s = refl
    counter_of-initialize cost_per_month t ready start end cursor now s = refl

pub run_initialization_cycle-IsSound :
    (go : Stdlib) (db : Database) (now : ℕ) (batch_size : ℤ)
    → IsSound db
    → IsSound (run_initialization_cycle go db now batch_size).0
unfolding run_initialization_cycle
run_initialization_cycle-IsSound go db now batch_size h =
    elim (Option-cases (least_pending db.states)) [
      | inl e ↦ ground (arith, e, h)
      | inr (st, e) ↦
          ground (arith, e, h, initialize_key-IsSound go db st now (pos_part batch_size) h)
    ]

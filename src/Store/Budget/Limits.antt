-- ===== src/Store/Budget/Limits.antt =====
-- What the limits of a key mean for AdmitAPIKeyBudget of store/api_key_budget_ledger.go.
use n2api.Base.{
  ℕ, String, ◌≡◌, subst, inl, inr, false, ◌||◌, none, some, List, [], ◌∷◌, arith, ◌==◌, nat_eq,
  string_eq, Bool-cases, Option-cases, All, ℤ, int_beq_iff, int_eq, row_with,
}
use n2api.Go.{Stdlib}
use n2api.Store.Budget.Tables.{BudgetLimits, ClientKey, Admission, BudgetState, Database, granted}
use n2api.Store.Budget.Admit.{BudgetAdmission, refusal, admit_api_key_budget, budget_limit_reached}
use n2api.Store.Budget.Balance.{
  Counter, requests_per_day, requests_per_month, tokens_per_day, tokens_per_month, cost_per_day,
  cost_per_month, counter_of, owed, IsBalanced, IsSound,
}

abbrev pub limit_of : Counter → BudgetLimits → ℤ
limit_of requests_per_day l = l.request_24h
limit_of requests_per_month l = l.request_30d
limit_of tokens_per_day l = l.token_24h
limit_of tokens_per_month l = l.token_30d
limit_of cost_per_day l = l.cost_24h
limit_of cost_per_month l = l.cost_30d

-- The checks let an admission pass only below every limit that is set.
refusal-none :
    (l : BudgetLimits) (st : BudgetState) (c : Counter)
    → refusal l st ≡ none
    → budget_limit_reached (limit_of c l) (counter_of c st) ≡ false
unfolding refusal
refusal-none l st requests_per_day h = ground arith
refusal-none l st requests_per_month h = ground arith
refusal-none l st tokens_per_day h = ground arith
refusal-none l st tokens_per_month h = ground arith
refusal-none l st cost_per_day h = ground arith
refusal-none l st cost_per_month h = ground arith

balanced_row :
    (admissions : List Admission) (key : ℤ) (states : List BudgetState) (st : BudgetState)
    → All (IsBalanced admissions) states
    → row_with (λ (s : BudgetState). s.client_key_id) key states ≡ some st
    → (c : Counter) → counter_of c st ≡ owed admissions key c
balanced_row admissions key [] st h e c = cc
balanced_row admissions key (s ∷ states) st h e c = elim (Bool-cases (s.client_key_id == key)) [
  | inl p ↦
      let q : some s ≡ some st = rw p at e in
      let same : s ≡ st = cc in
      let k : s.client_key_id ≡ key = (int_beq_iff s.client_key_id key).0 p in
      subst (λ j. counter_of c st ≡ owed admissions j c) k
        (subst (λ t. counter_of c t ≡ owed admissions s.client_key_id c) same (h.0 c))
  | inr p ↦ balanced_row admissions key states st h.1 (rw p at e) c
]

admitted_row :
    (go : Stdlib) (db : Database) (key : ℤ) (id : String) (at : ℕ) (reply : BudgetAdmission)
    → row_with (λ (a : Admission). a.admission_id) id db.admissions ≡ none
    → (admit_api_key_budget go db key id at).1 ≡ granted reply
    → (k : ClientKey) × (st : BudgetState) × (row_with (λ (j : ClientKey). j.id) key db.keys
        ≡ some k)
      × ((k.revoked || k.disabled) ≡ false)
      × (row_with (λ (s : BudgetState). s.client_key_id) key db.states ≡ some st)
      × (refusal k.limits st ≡ none)
unfolding admit_api_key_budget
admitted_row go db key id at reply e h =
    elim (Option-cases (row_with (λ (j : ClientKey). j.id) key db.keys)) [
      | inl n ↦ ground (arith, e, n)
      | inr (k, p) ↦
          elim (Option-cases (row_with (λ (s : BudgetState). s.client_key_id) key db.states)) [
            | inl n ↦ ground (arith, e, p, n)
            | inr (st, q) ↦ elim (Option-cases (refusal k.limits st)) [
              | inr (w, r) ↦ ground (arith, e, p, q, r)
              | inl r ↦ elim (Bool-cases (k.revoked || k.disabled)) [
                | inl b ↦ ground (arith, e, p, q, b)
                | inr b ↦ (k, st, p, b, q, r)
              ]
            ]
          ]
    ]

pub admit_below_limits :
    (go : Stdlib) (db : Database) (key : ℤ) (id : String) (at : ℕ) (reply : BudgetAdmission)
    → IsSound db
    → row_with (λ (a : Admission). a.admission_id) id db.admissions ≡ none
    → (admit_api_key_budget go db key id at).1 ≡ granted reply
    → (k : ClientKey) × (row_with (λ (j : ClientKey). j.id) key db.keys ≡ some k)
      × ((k.revoked || k.disabled) ≡ false)
      × ((c : Counter)
          → budget_limit_reached (limit_of c k.limits) (owed db.admissions key c) ≡ false)
admit_below_limits go db key id at reply h e g =
    let (k, st, p, b, q, r) = admitted_row go db key id at reply e g in
    (
      k,
      p,
      b,
      λ c.
          subst (λ n. budget_limit_reached (limit_of c k.limits) n ≡ false)
            (balanced_row db.admissions key db.states st h.balanced q c)
            (refusal-none k.limits st c r),
    )

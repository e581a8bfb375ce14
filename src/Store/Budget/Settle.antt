-- ===== src/Store/Budget/Settle.antt =====
-- store/api_key_budget_ledger.go: SettleAPIKeyBudgetUsage and RunAPIKeyBudgetSettlementCycle.
use n2api.Base.{
  ℕ, zero, suc, String, Bool, true, false, not, ◌&&◌, ◌||◌, Option, none, some, List, [], ◌∷◌, ltb,
  leb, nat_beq, if◌then◌else◌, ◌==◌, nat_eq, string_eq, keep, ℤ, pos, pos_part, ltb_ℤ, int_eq,
  update_where, sort_by, row_with, update_row,
}
use n2api.Go.{Stdlib}
use n2api.Store.Budget.Tables.{
  BudgetState, settlement_pending, settled, Settlement, observed, missing, Admission, Database,
  BudgetError, invalid_input, not_found, database_error, Reply, granted, denied, is_admitted,
  is_pending, Amounts, charge, of_key, valid_batch_size,
}

pub record SettlementRequest : Type 0 where
  pub admission_id : String
  pub observed_tokens : ℤ
  pub observed_cost : ℤ
  pub usage_known : Bool
  pub settled_at : ℕ

pub record BudgetSettlement : Type 0 where
  pub admission_id : String
  pub already_settled : Bool
  pub outcome : Settlement
  pub observed_tokens : ℕ
  pub observed_cost : ℕ

abbrev pub budget_settlement_from_record : Admission → Bool → BudgetSettlement
budget_settlement_from_record a already = record {
  admission_id = a.admission_id;
  already_settled = already;
  outcome = a.settlement_outcome;
  observed_tokens = a.observed_tokens;
  observed_cost = a.observed_cost;
}

abbrev pub with_admission_id : String → List Admission → Option Admission
with_admission_id = row_with (λ (a : Admission). a.admission_id)

abbrev pub update_admission : String → (Admission → Admission) → List Admission → List Admission
update_admission = update_row (λ (a : Admission). a.admission_id)

-- The UPDATE of enqueueAPIKeyBudgetSettlement; unknown usage counts as none.
abbrev pub queue_settlement : SettlementRequest → Admission → Admission
queue_settlement q a = record a {
  status = settlement_pending;
  settlement_outcome = if q.usage_known then observed else missing;
  usage_known = q.usage_known;
  observed_tokens = if q.usage_known then pos_part q.observed_tokens else 0;
  observed_cost = if q.usage_known then pos_part q.observed_cost else 0;
  settled_at = some q.settled_at;
  updated_at = q.settled_at;
}

-- enqueueAPIKeyBudgetSettlement: the settlement, and whether it is final.
unfoldable pub enqueue_settlement :
    Database → SettlementRequest → Database × Reply (BudgetSettlement × Bool)
enqueue_settlement db q = elim (with_admission_id q.admission_id db.admissions) [
  | none ↦ (db, denied not_found)
  | some a ↦
      if not (is_admitted a.status)
      then (db, granted (budget_settlement_from_record a true, not (is_pending a.status)))
      else (
        record db {
          admissions = update_admission q.admission_id (queue_settlement q) db.admissions;
        },
        granted (budget_settlement_from_record (queue_settlement q a) false, false),
      )
]

-- `expires.After(settledAt)` for an admission that has not expired
abbrev pub still_charged : Bool → ℕ → ℕ → Bool
still_charged expired expires settled_at = not expired && ltb settled_at expires

-- What a settlement adds to the counters.
abbrev pub usage_amounts : Admission → ℕ → Amounts
usage_amounts a settled_at = record {
  requests_24h = 0;
  requests_30d = 0;
  tokens_24h =
      if still_charged a.expired_24h a.expires_24h settled_at then a.observed_tokens else 0;
  tokens_30d =
      if still_charged a.expired_30d a.expires_30d settled_at then a.observed_tokens else 0;
  cost_24h = if still_charged a.expired_24h a.expires_24h settled_at then a.observed_cost else 0;
  cost_30d = if still_charged a.expired_30d a.expires_30d settled_at then a.observed_cost else 0;
}

abbrev pub close_settlement : ℕ → Admission → Admission
close_settlement at a = record a { status = settled; updated_at = at }

-- applyLockedAPIKeyBudgetSettlement, of the admission that was read and locked; none is an error.
unfoldable pub apply_locked : Database → Admission → ℕ → Option Database
apply_locked db a at = elim a.settled_at [
  | none ↦ none
  | some settled_at ↦ some (record db {
    states =
        update_where (of_key a.client_key_id) (charge (usage_amounts a settled_at) at) db.states;
    admissions = update_admission a.admission_id (close_settlement at) db.admissions;
  })
]

-- applyAPIKeyBudgetSettlement
unfoldable pub apply_settlement : Database → String → ℕ → Bool → Database × Reply BudgetSettlement
unfolding apply_locked
apply_settlement db admission_id at already_queued =
    elim (with_admission_id admission_id db.admissions) [
      | none ↦ (db, denied not_found)
      | some a ↦
          if not (is_pending a.status)
          then (db, granted (budget_settlement_from_record a true))
          else elim (apply_locked db a at) [
            | none ↦ (db, denied database_error)
            | some db₁ ↦ (db₁, granted (budget_settlement_from_record a already_queued))
          ]
    ]

abbrev pub is_negative_amount : ℤ → Bool
is_negative_amount n = ltb_ℤ n (pos 0)

-- SettleAPIKeyBudgetUsage: two transactions.
unfoldable pub settle_usage :
    Stdlib → Database → SettlementRequest → Database × Reply BudgetSettlement
unfolding enqueue_settlement apply_settlement
settle_usage go db request =
    let q : SettlementRequest = record request {
      admission_id = go.trim_space request.admission_id;
    } in
    if q.admission_id == ""
      || ltb 128 (go.byte_length q.admission_id)
      || is_negative_amount q.observed_tokens
      || is_negative_amount q.observed_cost
      || nat_beq q.settled_at 0
    then (db, denied invalid_input)
    else let (db₁, queued) = enqueue_settlement db q in
      elim queued [
        | denied e ↦ (db₁, denied e)
        | granted (s, final) ↦
            if final
            then (db₁, granted s)
            else apply_settlement db₁ q.admission_id q.settled_at s.already_settled
      ]

-- ORDER BY updated_at ASC, id ASC
abbrev pub updated_before : Admission → Admission → Bool
updated_before a b =
    ltb a.updated_at b.updated_at || (nat_beq a.updated_at b.updated_at && leb a.id b.id)

abbrev pub head_of : List Admission → Option Admission
head_of [] = none
head_of (a ∷ _) = some a

-- The next pending settlement that no other transaction has locked.
unfoldable pub next_pending : (ℕ → Bool) → List Admission → Option Admission
next_pending locked admissions =
    head_of
      (sort_by updated_before (keep (λ a. is_pending a.status && not (locked a.id)) admissions))

-- The loop of RunAPIKeyBudgetSettlementCycle with applyNextAPIKeyBudgetSettlement: the database,
-- the number processed and the error. `locked` says what others hold at each turn.
unfoldable pub settlement_loop :
    (ℕ → ℕ → Bool) → Database → ℕ → ℕ → Database × ℕ × Option BudgetError
unfolding apply_locked
settlement_loop locked db at zero = (db, 0, none)
settlement_loop locked db at (suc left) = elim (next_pending (locked left) db.admissions) [
  | none ↦ (db, 0, none)
  | some a ↦ elim (apply_locked db a at) [
    | none ↦ (db, 0, some database_error)
    | some db₁ ↦ let (db₂, n, e) = settlement_loop locked db₁ at left in (db₂, suc n, e)
  ]
]

unfoldable pub run_settlement_cycle :
    (ℕ → ℕ → Bool) → Database → ℕ → ℤ → Database × ℕ × Option BudgetError
unfolding settlement_loop
run_settlement_cycle locked db now batch_size =
    if nat_beq now 0 || not (valid_batch_size batch_size)
    then (db, 0, some invalid_input)
    else settlement_loop locked db now (pos_part batch_size)

-- SettleAPIKeyBudget, for usage that was observed.
unfoldable pub settle_api_key_budget :
    Stdlib → Database → String → ℤ → ℤ → ℕ → Database × Reply BudgetSettlement
settle_api_key_budget go db admission_id observed_tokens observed_cost settled_at =
    settle_usage go db (record {
      admission_id = admission_id;
      observed_tokens = observed_tokens;
      observed_cost = observed_cost;
      usage_known = true;
      settled_at = settled_at;
    })

-- GetAPIKeyBudgetState
unfoldable pub get_api_key_budget_state : Database → ℤ → Reply BudgetState
get_api_key_budget_state db key =
    if ltb_ℤ key (pos 1)
    then denied invalid_input
    else elim (row_with (λ (s : BudgetState). s.client_key_id) key db.states) [
      | none ↦ denied not_found
      | some st ↦ granted st
    ]

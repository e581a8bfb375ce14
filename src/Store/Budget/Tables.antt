-- ===== src/Store/Budget/Tables.antt =====
-- The tables behind store/api_key_budget_ledger.go. Times are nanoseconds, and a key's session
-- runs in UTC, so that a day has 24 hours. Amounts that the database checks to be at least zero are
-- natural numbers.
use n2api.Base.{
  ℕ, ◌+◌, ◌-◌, String, Bool, true, false, ◌&&◌, Option, some, List, ◌==◌, nat_eq, string_eq, ℤ, pos,
  leb_ℤ, is_pos, int_eq,
}

pub record BudgetLimits : Type 0 where
  pub request_24h : ℤ
  pub token_24h : ℤ
  pub cost_24h : ℤ
  pub request_30d : ℤ
  pub token_30d : ℤ
  pub cost_30d : ℤ

-- The columns of client_api_keys that the ledger reads.
pub record ClientKey : Type 0 where
  pub id : ℤ
  pub revoked : Bool
  pub disabled : Bool
  pub limits : BudgetLimits

pub data Source : Type 0 where
  live legacy : Source

pub data Status : Type 0 where
  admitted settlement_pending settled abandoned : Status

-- The column settlement_outcome.
pub data Settlement : Type 0 where
  undecided observed missing given_up : Settlement

-- A row of api_key_budget_admissions.
pub record Admission : Type 0 where
  pub id : ℕ
  pub admission_id : String
  pub client_key_id : ℤ
  pub source : Source
  pub status : Status
  pub settlement_outcome : Settlement
  pub usage_known : Bool
  pub observed_tokens : ℕ
  pub observed_cost : ℕ
  pub admitted_at : ℕ
  pub settled_at : Option ℕ
  pub expires_24h : ℕ
  pub expires_30d : ℕ
  pub expired_24h : Bool
  pub expired_30d : Bool
  pub updated_at : ℕ

-- A row of api_key_budget_states.
pub record BudgetState : Type 0 where
  pub client_key_id : ℤ
  pub ready : Bool
  pub window_start : Option ℕ
  pub window_end : Option ℕ
  pub log_cursor : Option (ℕ × ℕ)
  pub initialization_attempts : ℕ
  pub initialized_at : Option ℕ
  pub requests_24h : ℕ
  pub requests_30d : ℕ
  pub tokens_24h : ℕ
  pub tokens_30d : ℕ
  pub cost_24h : ℕ
  pub cost_30d : ℕ
  pub last_maintenance_at : Option ℕ
  pub version : ℕ
  pub state_updated_at : ℕ

-- The columns of request_logs that the initialization reads, the amounts not below zero.
pub record RequestLog : Type 0 where
  pub id : ℕ
  pub client_key_id : ℤ
  pub created_at : ℕ
  pub total_tokens : ℕ
  pub estimated_cost : ℕ
  pub usage_known : Bool
  pub backfill_eligible : Bool

-- `next_id` is the sequence behind the IDs of the admissions.
pub record Database : Type 0 where
  pub keys : List ClientKey
  pub states : List BudgetState
  pub admissions : List Admission
  pub request_logs : List RequestLog
  pub next_id : ℕ

-- The errors of the ledger; database_error stands for a statement that the database refuses.
pub data BudgetError : Type 0 where
  invalid_input not_found budget_initializing : BudgetError
  request_budget_exceeded token_budget_exceeded cost_budget_exceeded : BudgetError
  database_error : BudgetError

pub data Reply (A : Type 0) : Type 0 where
  granted : A → Reply A
  denied : BudgetError → Reply A

abbrev pub is_live : Source → Bool
is_live live = true
is_live legacy = false

abbrev pub is_admitted : Status → Bool
is_admitted admitted = true
is_admitted _ = false

abbrev pub is_pending : Status → Bool
is_pending settlement_pending = true
is_pending _ = false

abbrev pub is_settled : Status → Bool
is_settled settled = true
is_settled _ = false

-- INTERVAL '24 hours' and INTERVAL '30 days'
abbrev pub day : ℕ
day = 86400000000000

abbrev pub thirty_days : ℕ
thirty_days = 2592000000000000

-- What an UPDATE of api_key_budget_states adds to the six counters.
pub record Amounts : Type 0 where
  pub requests_24h : ℕ
  pub requests_30d : ℕ
  pub tokens_24h : ℕ
  pub tokens_30d : ℕ
  pub cost_24h : ℕ
  pub cost_30d : ℕ

abbrev pub charge : Amounts → ℕ → BudgetState → BudgetState
charge a at st = record st {
  requests_24h = st.requests_24h + a.requests_24h;
  requests_30d = st.requests_30d + a.requests_30d;
  tokens_24h = st.tokens_24h + a.tokens_24h;
  tokens_30d = st.tokens_30d + a.tokens_30d;
  cost_24h = st.cost_24h + a.cost_24h;
  cost_30d = st.cost_30d + a.cost_30d;
  version = st.version + 1;
  state_updated_at = at;
}

-- GREATEST(0, used - amount) for each counter: subtraction stops at 0.
abbrev pub discharge : Amounts → ℕ → BudgetState → BudgetState
discharge a at st = record st {
  requests_24h = st.requests_24h - a.requests_24h;
  requests_30d = st.requests_30d - a.requests_30d;
  tokens_24h = st.tokens_24h - a.tokens_24h;
  tokens_30d = st.tokens_30d - a.tokens_30d;
  cost_24h = st.cost_24h - a.cost_24h;
  cost_30d = st.cost_30d - a.cost_30d;
  last_maintenance_at = some at;
  version = st.version + 1;
  state_updated_at = at;
}

abbrev pub of_key : ℤ → BudgetState → Bool
of_key key st = st.client_key_id == key

-- validAPIKeyBudgetBatchSize
abbrev pub valid_batch_size : ℤ → Bool
valid_batch_size n = is_pos n && leb_ℤ n (pos 1000)

-- ===== src/Store/Budget/Tests.antt =====
-- Runs of the budget ledger, and the theorems about it at a key with limits.
use n2api.Base.{
  ℕ, ◌+◌, String, ◌≡◌, refl, Bool, true, false, ◌||◌, none, some, [], ◌∷◌, map, nat_eq, string_eq,
  All, pos, int_eq, row_with,
}
use n2api.Samples.{plain_go}
use n2api.Store.Budget.Tables.{ClientKey, observed, BudgetState, Database, granted, day}
use n2api.Store.Budget.Admit.{
  BudgetAdmission, admit_api_key_budget, valid_live_budget_admission_id, budget_limit_reached,
}
use n2api.Store.Budget.Settle.{SettlementRequest, BudgetSettlement, settle_usage}
use n2api.Store.Budget.Maintain.{run_expiry_cycle}
use n2api.Store.Budget.Reachable.{here, next, admit, settle, expire, counters_exact}
use n2api.Store.Budget.Limits.{limit_of, admit_below_limits}
use n2api.Store.Budget.Once.{settled_once}
use n2api.Store.Budget.Balance.{
  Counter, requests_per_day, requests_per_month, tokens_per_day, tokens_per_month, cost_per_day,
  cost_per_month, owed, IsBalanced, IsSound,
}

-- Key 1 may have two requests and a thousand tokens a day.
abbrev key_one : ClientKey
key_one = record {
  id = pos 1;
  revoked = false;
  disabled = false;
  limits = record {
    request_24h = pos 2;
    token_24h = pos 1000;
    cost_24h = pos 0;
    request_30d = pos 0;
    token_30d = pos 0;
    cost_30d = pos 0;
  };
}

abbrev unused : BudgetState
unused = record {
  client_key_id = pos 1;
  ready = true;
  window_start = none;
  window_end = none;
  log_cursor = none;
  initialization_attempts = 0;
  initialized_at = some 1;
  requests_24h = 0;
  requests_30d = 0;
  tokens_24h = 0;
  tokens_30d = 0;
  cost_24h = 0;
  cost_30d = 0;
  last_maintenance_at = none;
  version = 1;
  state_updated_at = 1;
}

abbrev fresh : Database
fresh = record {
  keys = key_one ∷ [];
  states = unused ∷ [];
  admissions = [];
  request_logs = [];
  next_id = 1;
}

abbrev first_id : String
first_id = "0123456789abcdef0123456789abcdef"

abbrev usage : SettlementRequest
usage = record {
  admission_id = first_id;
  observed_tokens = pos 70;
  observed_cost = pos 5;
  usage_known = true;
  settled_at = 20;
}

abbrev entered : Database
entered = (admit_api_key_budget plain_go fresh (pos 1) first_id 10).0

abbrev charged : Database
charged = (settle_usage plain_go entered usage).0

tokens_charged :
    map {B = ℕ × ℕ × ℕ}
      (λ (s : BudgetState). (s.requests_24h, s.tokens_24h, s.cost_30d))
      charged.states
    ≡ (1, 70, 5) ∷ []
unfolding admit_api_key_budget valid_live_budget_admission_id settle_usage
tokens_charged = refl

-- A day later the admission no longer counts.
abbrev nobody : ℕ → Bool
nobody id = false

abbrev next_day : Database
next_day = (run_expiry_cycle nobody charged (day + 10) (pos 100)).0

tokens_discharged :
    map {B = ℕ × ℕ × ℕ}
      (λ (s : BudgetState). (s.requests_24h, s.tokens_24h, s.tokens_30d))
      next_day.states
    ≡ (0, 0, 70) ∷ []
unfolding admit_api_key_budget valid_live_budget_admission_id settle_usage run_expiry_cycle
tokens_discharged = refl

fresh-IsSound : IsSound fresh
fresh-IsSound = record {
  balanced = (counted, tt);
  unique_ids = tt;
  unique_admission_ids = tt;
  issued = tt;
}
  where
    counted : IsBalanced [] unused
    counted requests_per_day = refl
    counted requests_per_month = refl
    counted tokens_per_day = refl
    counted tokens_per_month = refl
    counted cost_per_day = refl
    counted cost_per_month = refl

counters_exact_example : All (IsBalanced next_day.admissions) next_day.states
counters_exact_example = counters_exact {go = plain_go} fresh-IsSound (
    next (next (next here (admit (pos 1) first_id 10)) (settle usage))
      (expire nobody (day + 10) (pos 100)))

abbrev entry : BudgetAdmission
entry = record { id = first_id; key_id = pos 1; admitted_at = 10 }

first_granted : (admit_api_key_budget plain_go fresh (pos 1) first_id 10).1 ≡ granted entry
unfolding admit_api_key_budget valid_live_budget_admission_id
first_granted = refl

admit_below_limits_example :
    (k : ClientKey) × (row_with (λ (j : ClientKey). j.id) (pos 1) (key_one ∷ []) ≡ some k)
    × ((k.revoked || k.disabled) ≡ false)
    × ((c : Counter) → budget_limit_reached (limit_of c k.limits) (owed [] (pos 1) c) ≡ false)
admit_below_limits_example =
    admit_below_limits plain_go fresh (pos 1) first_id 10 entry fresh-IsSound refl first_granted

abbrev receipt : BudgetSettlement
receipt = record {
  admission_id = first_id;
  already_settled = false;
  outcome = observed;
  observed_tokens = 70;
  observed_cost = 5;
}

usage_granted : (settle_usage plain_go entered usage).1 ≡ granted receipt
unfolding admit_api_key_budget valid_live_budget_admission_id settle_usage
usage_granted = refl

settled_once_example :
    (settle_usage plain_go charged (record usage { observed_tokens = pos 900 })).0 ≡ charged
settled_once_example =
    settled_once plain_go entered usage (record usage { observed_tokens = pos 900 }) receipt
      usage_granted refl

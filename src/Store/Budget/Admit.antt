-- ===== src/Store/Budget/Admit.antt =====
-- store/api_key_budget_ledger.go: AdmitAPIKeyBudget. A transaction is one step; where it is rolled
-- back, the database is what it was.
use n2api.Base.{
  ℕ, suc, ◌+◌, String, Bool, false, not, ◌&&◌, ◌||◌, Option, none, some, ◌∷◌, nat_beq,
  if◌then◌else◌, ◌==◌, nat_eq, string_eq, ℤ, pos, ltb_ℤ, leb_ℤ, is_pos, int_eq, update_where,
  row_with,
}
use n2api.Go.{Stdlib}
use n2api.Store.Budget.Tables.{
  BudgetLimits, ClientKey, live, admitted, undecided, Admission, BudgetState, Database, BudgetError,
  invalid_input, not_found, budget_initializing, request_budget_exceeded, token_budget_exceeded,
  cost_budget_exceeded, database_error, Reply, granted, denied, is_live, day, thirty_days, Amounts,
  charge, of_key,
}

pub record BudgetAdmission : Type 0 where
  pub id : String
  pub key_id : ℤ
  pub admitted_at : ℕ

unfoldable pub valid_live_budget_admission_id : Stdlib → String → Bool
valid_live_budget_admission_id go value =
    if not (nat_beq (go.byte_length value) 32) || not (go.to_lower value == value)
    then false
    else elim (go.hex_decoded_length value) [ none ↦ false | some n ↦ nat_beq n 16 ]

abbrev pub budget_limits_disabled : BudgetLimits → Bool
budget_limits_disabled l =
    leb_ℤ l.request_24h (pos 0)
    && leb_ℤ l.token_24h (pos 0)
    && leb_ℤ l.cost_24h (pos 0)
    && leb_ℤ l.request_30d (pos 0)
    && leb_ℤ l.token_30d (pos 0)
    && leb_ℤ l.cost_30d (pos 0)

abbrev pub budget_limit_reached : ℤ → ℕ → Bool
budget_limit_reached limit used = is_pos limit && leb_ℤ limit (pos used)

-- The checks of a new admission against the limits of its key; none lets it pass.
unfoldable pub refusal : BudgetLimits → BudgetState → Option BudgetError
refusal l st =
    if not (budget_limits_disabled l) && not st.ready
    then some budget_initializing
    else if budget_limit_reached l.request_24h st.requests_24h
        || budget_limit_reached l.request_30d st.requests_30d
    then some request_budget_exceeded
    else if budget_limit_reached l.token_24h st.tokens_24h
        || budget_limit_reached l.token_30d st.tokens_30d
    then some token_budget_exceeded
    else if budget_limit_reached l.cost_24h st.cost_24h
        || budget_limit_reached l.cost_30d st.cost_30d
    then some cost_budget_exceeded
    else none

abbrev pub new_admission : ℕ → ℤ → String → ℕ → Admission
new_admission id key_id admission_id at = record {
  id = id;
  admission_id = admission_id;
  client_key_id = key_id;
  source = live;
  status = admitted;
  settlement_outcome = undecided;
  usage_known = false;
  observed_tokens = 0;
  observed_cost = 0;
  admitted_at = at;
  settled_at = none;
  expires_24h = at + day;
  expires_30d = at + thirty_days;
  expired_24h = false;
  expired_30d = false;
  updated_at = at;
}

abbrev pub one_request : Amounts
one_request = record {
  requests_24h = 1;
  requests_30d = 1;
  tokens_24h = 0;
  tokens_30d = 0;
  cost_24h = 0;
  cost_30d = 0;
}

-- The two statements that write, unless the admission's ID is taken already.
unfoldable pub insert_admission : Database → ℤ → String → ℕ → Database × Reply BudgetAdmission
insert_admission db key_id admission_id at =
    elim (row_with (λ (a : Admission). a.admission_id) admission_id db.admissions) [
      | some _ ↦ (db, denied database_error)
      | none ↦ (
        record db {
          admissions = new_admission db.next_id key_id admission_id at ∷ db.admissions;
          states = update_where (of_key key_id) (charge one_request at) db.states;
          next_id = suc db.next_id;
        },
        granted (record { id = admission_id; key_id = key_id; admitted_at = at }),
      )
    ]

-- After the three reads: an admission under this ID is returned again, and a new one is checked.
unfoldable pub admit_known :
    Database → ℤ → String → ℕ → BudgetLimits → BudgetState → Database × Reply BudgetAdmission
unfolding refusal insert_admission
admit_known db key_id admission_id at limits st =
    let known = row_with (λ (a : Admission). a.admission_id) admission_id db.admissions in
    let fresh : Database × Reply BudgetAdmission = elim (refusal limits st) [
      | some e ↦ (db, denied e)
      | none ↦ insert_admission db key_id admission_id at
    ] in
    elim known [
      | none ↦ fresh
      | some a ↦
          if not (is_live a.source)
          then fresh
          else if not (a.client_key_id == key_id)
          then (db, denied invalid_input)
          else (
            db,
            granted (record { id = admission_id; key_id = key_id; admitted_at = a.admitted_at }),
          )
    ]

abbrev pub usable_key : Option ClientKey → Option ClientKey
usable_key none = none
usable_key (some k) = if k.revoked || k.disabled then none else some k

unfoldable pub admit_api_key_budget :
    Stdlib → Database → ℤ → String → ℕ → Database × Reply BudgetAdmission
unfolding admit_known
admit_api_key_budget go db key_id admission_id at =
    if ltb_ℤ key_id (pos 1) || nat_beq at 0 || not (valid_live_budget_admission_id go admission_id)
    then (db, denied invalid_input)
    else elim (usable_key (row_with (λ (k : ClientKey). k.id) key_id db.keys)) [
      | none ↦ (db, denied not_found)
      | some k ↦ elim (row_with (λ (s : BudgetState). s.client_key_id) key_id db.states) [
        | none ↦ (db, denied not_found)
        | some st ↦ admit_known db key_id admission_id at k.limits st
      ]
    ]

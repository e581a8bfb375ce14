-- ===== src/Store/Budget/Maintain.antt =====
-- store/api_key_budget_ledger.go: RunAPIKeyBudgetExpiryCycle and RunAPIKeyBudgetAbandonedCycle.
-- SKIP LOCKED leaves out the rows that other transactions hold, which an argument says.
use n2api.Base.{
  ℕ, min, Bool, true, false, not, ◌&&◌, ◌||◌, Option, none, some, List, [], ◌∷◌, ltb, leb, nat_beq,
  if◌then◌else◌, nat_eq, string_eq, is_some, length, keep, ℤ, pos_part, int_eq, take, update_where,
  sort_by, row_with, update_row,
}
use n2api.Store.Budget.Tables.{
  abandoned, given_up, Admission, BudgetState, Database, invalid_input, database_error, Reply,
  granted, denied, is_admitted, is_settled, Amounts, discharge, of_key, valid_batch_size,
}

-- NOT request_24h_expired AND request_24h_expires_at <= now, and so for the other window
abbrev pub expires_by : ℕ → Bool → ℕ → Bool
expires_by now expired expires = not expired && leb expires now

-- status = 'settled' AND settled_at < request_24h_expires_at
abbrev pub usage_charged : Admission → ℕ → Bool
usage_charged a expires =
    is_settled a.status && elim a.settled_at [ none ↦ false | some at ↦ ltb at expires ]

-- A selected row with its four computed columns.
pub record ExpiryCandidate : Type 0 where
  pub row : Admission
  pub usage_charged_24h : Bool
  pub usage_charged_30d : Bool
  pub expire_24h : Bool
  pub expire_30d : Bool

abbrev pub expiry_candidate : ℕ → Admission → ExpiryCandidate
expiry_candidate now a = record {
  row = a;
  usage_charged_24h = usage_charged a a.expires_24h;
  usage_charged_30d = usage_charged a a.expires_30d;
  expire_24h = expires_by now a.expired_24h a.expires_24h;
  expire_30d = expires_by now a.expired_30d a.expires_30d;
}

abbrev pub is_due : ℕ → Admission → Bool
is_due now a =
    expires_by now a.expired_24h a.expires_24h || expires_by now a.expired_30d a.expires_30d

-- LEAST of the two ends, where an end that has passed counts as infinity (none).
abbrev pub next_end : Admission → Option ℕ
next_end a =
    if a.expired_24h
    then (if a.expired_30d then none else some a.expires_30d)
    else some (if a.expired_30d then a.expires_24h else min a.expires_24h a.expires_30d)

abbrev pub ends_before : Admission → Admission → Bool
ends_before a b = elim (next_end a) [
  | none ↦ not (is_some (next_end b)) && leb a.id b.id
  | some x ↦ elim (next_end b) [ none ↦ true | some y ↦ ltb x y || (nat_beq x y && leb a.id b.id) ]
]

unfoldable pub due_admissions : (ℕ → Bool) → ℕ → ℕ → List Admission → List Admission
due_admissions locked now batch_size admissions =
    take batch_size (sort_by ends_before (keep (λ a. is_due now a && not (locked a.id)) admissions))

-- What the loop of the expiry cycle takes off the counters for a candidate.
abbrev pub expiry_amounts : ExpiryCandidate → Amounts
expiry_amounts c = record {
  requests_24h = if c.expire_24h then 1 else 0;
  requests_30d = if c.expire_30d then 1 else 0;
  tokens_24h = if c.expire_24h && c.usage_charged_24h then c.row.observed_tokens else 0;
  tokens_30d = if c.expire_30d && c.usage_charged_30d then c.row.observed_tokens else 0;
  cost_24h = if c.expire_24h && c.usage_charged_24h then c.row.observed_cost else 0;
  cost_30d = if c.expire_30d && c.usage_charged_30d then c.row.observed_cost else 0;
}

abbrev pub mark_expired : Bool → Bool → ℕ → Admission → Admission
mark_expired expire_24h expire_30d now a = record a {
  expired_24h = a.expired_24h || expire_24h;
  expired_30d = a.expired_30d || expire_30d;
  updated_at = now;
}

unfoldable pub expire_one : ℕ → Database → ExpiryCandidate → Database
expire_one now db c = record db {
  states = update_where (of_key c.row.client_key_id) (discharge (expiry_amounts c) now) db.states;
  admissions =
      update_row (λ (a : Admission). a.id) c.row.id (mark_expired c.expire_24h c.expire_30d now)
        db.admissions;
}

unfoldable pub expire_all : ℕ → Database → List Admission → Database
unfolding expire_one
expire_all now db [] = db
expire_all now db (a ∷ rest) = expire_all now (expire_one now db (expiry_candidate now a)) rest

-- lockAPIKeyBudgetStateRows fails where a candidate's key has no state.
abbrev pub all_have_states : List BudgetState → List Admission → Bool
all_have_states states [] = true
all_have_states states (a ∷ rest) =
    is_some (row_with (λ (s : BudgetState). s.client_key_id) a.client_key_id states)
    && all_have_states states rest

pub record ExpiryResult : Type 0 where
  pub processed : ℕ
  pub expired_24h : ℕ
  pub expired_30d : ℕ
  pub last_maintenance_at : Option ℕ

unfoldable pub run_expiry_cycle : (ℕ → Bool) → Database → ℕ → ℤ → Database × Reply ExpiryResult
unfolding due_admissions expire_all
run_expiry_cycle locked db now batch_size =
    let due = due_admissions locked now (pos_part batch_size) db.admissions in
    if nat_beq now 0 || not (valid_batch_size batch_size)
    then (db, denied invalid_input)
    else if not (all_have_states db.states due)
    then (db, denied database_error)
    else (
      expire_all now db due,
      granted (record {
        processed = length due;
        expired_24h =
            length (keep (λ (a : Admission). expires_by now a.expired_24h a.expires_24h) due);
        expired_30d =
            length (keep (λ (a : Admission). expires_by now a.expired_30d a.expires_30d) due);
        last_maintenance_at = if leb (length due) 0 then none else some now;
      }),
    )

-- ORDER BY admitted_at ASC, id ASC
abbrev pub admitted_before : Admission → Admission → Bool
admitted_before a b =
    ltb a.admitted_at b.admitted_at || (nat_beq a.admitted_at b.admitted_at && leb a.id b.id)

abbrev pub abandon : ℕ → Admission → Admission
abandon now a = record a {
  status = abandoned;
  settlement_outcome = given_up;
  settled_at = some now;
  updated_at = now;
}

unfoldable pub abandon_all : ℕ → List Admission → List Admission → List Admission
abandon_all now admissions [] = admissions
abandon_all now admissions (a ∷ rest) =
    abandon_all now (update_row (λ (b : Admission). b.id) a.id (abandon now) admissions) rest

unfoldable pub stale_admissions : (ℕ → Bool) → ℕ → ℕ → List Admission → List Admission
stale_admissions locked cutoff batch_size admissions = take batch_size (
    sort_by admitted_before (
      keep (λ a. is_admitted a.status && leb a.admitted_at cutoff && not (locked a.id)) admissions))

unfoldable pub run_abandoned_cycle : (ℕ → Bool) → Database → ℕ → ℕ → ℤ → Database × Reply ℕ
unfolding stale_admissions abandon_all
run_abandoned_cycle locked db cutoff now batch_size =
    let stale = stale_admissions locked cutoff (pos_part batch_size) db.admissions in
    if nat_beq cutoff 0 || nat_beq now 0 || ltb now cutoff || not (valid_batch_size batch_size)
    then (db, denied invalid_input)
    else (record db { admissions = abandon_all now db.admissions stale }, granted (length stale))

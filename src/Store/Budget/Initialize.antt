-- ===== src/Store/Budget/Initialize.antt =====
-- store/api_key_budget_ledger.go: RunAPIKeyBudgetInitializationCycle, which takes the request logs
-- from before the ledger into it, batch by batch. PostgreSQL prints an ID as FormatInt does.
use n2api.Base.{
  ℕ, suc, ◌+◌, ◌-◌, String, Bool, true, false, not, ◌&&◌, ◌||◌, Option, none, some, List, [], ◌∷◌,
  ltb, leb, nat_beq, if◌then◌else◌, ◌==◌, nat_eq, string_eq, is_some, length, keep, ℤ, pos,
  pos_part, ltb_ℤ, int_eq, take, update_where, sort_by, row_with,
}
use Prim.Native.String.{◌++◌ as str_append}
use n2api.Go.{Stdlib}
use n2api.Store.Budget.Tables.{
  ClientKey, legacy, settled, observed, missing, Admission, BudgetState, RequestLog, Database,
  invalid_input, Reply, granted, denied, day, thirty_days, Amounts, charge, of_key,
  valid_batch_size,
}

-- The pending state with the least key: ORDER BY client_key_id ASC LIMIT 1.
abbrev pub least_pending : List BudgetState → Option BudgetState
least_pending [] = none
least_pending (s ∷ rest) =
    let other = least_pending rest in
    if s.ready then other else elim other [
      | none ↦ some s
      | some t ↦ if ltb_ℤ t.client_key_id s.client_key_id then some t else some s
    ]

abbrev pub legacy_id : Stdlib → ℕ → String
legacy_id go id = str_append "legacy:" (go.format_int (pos id))

abbrev pub after_cursor : Option (ℕ × ℕ) → RequestLog → Bool
after_cursor none log = true
after_cursor (some (at, id)) log =
    ltb at log.created_at || (nat_beq at log.created_at && ltb id log.id)

abbrev pub created_before : RequestLog → RequestLog → Bool
created_before a b =
    ltb a.created_at b.created_at || (nat_beq a.created_at b.created_at && leb a.id b.id)

-- The logs of the key inside the window that are not in the ledger, from the cursor on.
unfoldable pub legacy_logs : Stdlib → Database → ℤ → ℕ → ℕ → Option (ℕ × ℕ) → ℕ → List RequestLog
legacy_logs go db key start end cursor limit = take limit (
    sort_by created_before (
      keep
        (λ (log : RequestLog).
          log.client_key_id == key
          && leb start log.created_at
          && leb log.created_at end
          && log.backfill_eligible
          && not (
              is_some
                (row_with (λ (a : Admission). a.admission_id) (legacy_id go log.id) db.admissions))
          && after_cursor cursor log)
        db.request_logs))

abbrev pub legacy_admission : Stdlib → ℕ → ℤ → ℕ → RequestLog → Admission
legacy_admission go next_id key now log = record {
  id = next_id;
  admission_id = legacy_id go log.id;
  client_key_id = key;
  source = legacy;
  status = settled;
  settlement_outcome = if log.usage_known then observed else missing;
  usage_known = log.usage_known;
  observed_tokens = if log.usage_known then log.total_tokens else 0;
  observed_cost = if log.usage_known then log.estimated_cost else 0;
  admitted_at = log.created_at;
  settled_at = some log.created_at;
  expires_24h = log.created_at + day;
  expires_30d = log.created_at + thirty_days;
  expired_24h = leb (log.created_at + day) now;
  expired_30d = leb (log.created_at + thirty_days) now;
  updated_at = now;
}

-- What the loop adds to its sums for an admission that it inserted.
abbrev pub add_amounts : Admission → Amounts → Amounts
add_amounts a t = record {
  requests_24h = t.requests_24h + (if a.expired_24h then 0 else 1);
  requests_30d = t.requests_30d + (if a.expired_30d then 0 else 1);
  tokens_24h = t.tokens_24h + (if a.expired_24h then 0 else a.observed_tokens);
  tokens_30d = t.tokens_30d + (if a.expired_30d then 0 else a.observed_tokens);
  cost_24h = t.cost_24h + (if a.expired_24h then 0 else a.observed_cost);
  cost_30d = t.cost_30d + (if a.expired_30d then 0 else a.observed_cost);
}

-- The loop over the logs; ON CONFLICT DO NOTHING skips an ID that is taken.
unfoldable pub insert_logs :
    Stdlib → ℤ → ℕ → List RequestLog → List Admission → ℕ → Amounts → List Admission × ℕ × Amounts
insert_logs go key now [] admissions next_id t = (admissions, next_id, t)
insert_logs go key now (log ∷ logs) admissions next_id t =
    let a = legacy_admission go next_id key now log in
    let taken = is_some (row_with (λ (b : Admission). b.admission_id) a.admission_id admissions) in
    insert_logs go key now logs (if taken then admissions else a ∷ admissions) (suc next_id)
      (if taken then t else add_amounts a t)

abbrev pub no_amounts : Amounts
no_amounts = record {
  requests_24h = 0;
  requests_30d = 0;
  tokens_24h = 0;
  tokens_30d = 0;
  cost_24h = 0;
  cost_30d = 0;
}

abbrev pub cursor_after : Option (ℕ × ℕ) → List RequestLog → Option (ℕ × ℕ)
cursor_after cursor [] = cursor
cursor_after cursor (log ∷ logs) = cursor_after (some (log.created_at, log.id)) logs

-- The final UPDATE of the state.
abbrev pub initialize_state :
    Amounts → Bool → ℕ → ℕ → Option (ℕ × ℕ) → ℕ → BudgetState → BudgetState
initialize_state t ready start end cursor now st = record (charge t now st) {
  ready = ready;
  window_start = some start;
  window_end = some end;
  log_cursor = cursor;
  initialization_attempts = st.initialization_attempts + 1;
  initialized_at = if ready then some now else none;
  last_maintenance_at = some now;
}

abbrev pub any_pending : List BudgetState → Bool
any_pending [] = false
any_pending (s ∷ rest) = not s.ready || any_pending rest

pub record InitializationResult : Type 0 where
  pub client_key_id : ℤ
  pub processed : ℕ
  pub ready : Bool
  pub has_pending : Bool

abbrev pub nothing_done : InitializationResult
nothing_done = record { client_key_id = pos 0; processed = 0; ready = false; has_pending = false }

-- The window of a key: the one that is set, or the thirty days before now.
abbrev pub window_of : BudgetState → ℕ → ℕ × ℕ
window_of st now = elim st.window_start [
  | none ↦ (now - thirty_days, now)
  | some start ↦ elim st.window_end [ none ↦ (now - thirty_days, now) | some end ↦ (start, end) ]
]

-- The cycle for the pending state of a key, which the transaction holds.
unfoldable pub initialize_key :
    Stdlib → Database → BudgetState → ℕ → ℕ → Database × Reply InitializationResult
unfolding legacy_logs insert_logs
initialize_key go db st now batch_size =
    let (start, end) = window_of st now in
    let found = legacy_logs go db st.client_key_id start end st.log_cursor (suc batch_size) in
    let ready = leb (length found) batch_size in
    let logs = take batch_size found in
    let (admissions, next_id, t) =
      insert_logs go st.client_key_id now logs db.admissions db.next_id no_amounts in
    let states =
      update_where (of_key st.client_key_id)
        (initialize_state t ready start end (cursor_after st.log_cursor logs) now) db.states in
    (
      record db { admissions = admissions; next_id = next_id; states = states },
      granted (record {
        client_key_id = st.client_key_id;
        processed = length logs;
        ready = ready;
        has_pending = any_pending states;
      }),
    )

unfoldable pub run_initialization_cycle :
    Stdlib → Database → ℕ → ℤ → Database × Reply InitializationResult
unfolding initialize_key
run_initialization_cycle go db now batch_size =
    if nat_beq now 0 || not (valid_batch_size batch_size)
    then (db, denied invalid_input)
    else elim (least_pending db.states) [
      | none ↦ (db, granted nothing_done)
      | some st ↦ elim (row_with (λ (k : ClientKey). k.id) st.client_key_id db.keys) [
        | none ↦ (db, granted nothing_done)
        | some _ ↦ initialize_key go db st now (pos_part batch_size)
      ]
    ]

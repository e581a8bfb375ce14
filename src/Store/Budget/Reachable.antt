-- ===== src/Store/Budget/Reachable.antt =====
-- The ledger of store/api_key_budget_ledger.go along any sequence of its operations.
use n2api.Base.{ℕ, String, Bool, nat_eq, string_eq, All, ℤ, int_eq}
use n2api.Go.{Stdlib}
use n2api.Store.Budget.Tables.{Database}
use n2api.Store.Budget.Admit.{admit_api_key_budget}
use n2api.Store.Budget.Settle.{
  SettlementRequest, settle_usage, enqueue_settlement, apply_settlement, run_settlement_cycle,
}
use n2api.Store.Budget.Maintain.{run_expiry_cycle, run_abandoned_cycle}
use n2api.Store.Budget.Initialize.{run_initialization_cycle}
use n2api.Store.Budget.Admission.{admit-IsSound}
use n2api.Store.Budget.Settling.{
  enqueue_settlement-IsSound, apply_settlement-IsSound, settle_usage-IsSound,
  run_settlement_cycle-IsSound,
}
use n2api.Store.Budget.Expiry.{run_expiry_cycle-IsSound, run_abandoned_cycle-IsSound}
use n2api.Store.Budget.Backfill.{run_initialization_cycle-IsSound}
use n2api.Store.Budget.Balance.{IsBalanced, IsSound}

-- A call of the ledger, with the moment it carries and the rows that others hold meanwhile.
pub data Call : Type 0 where
  admits : ℤ → String → ℕ → Call
  settles : SettlementRequest → Call
  queues : SettlementRequest → Call
  applies : String → ℕ → Bool → Call
  settles_pending : (ℕ → ℕ → Bool) → ℕ → ℤ → Call
  expires : (ℕ → Bool) → ℕ → ℤ → Call
  abandons : (ℕ → Bool) → ℕ → ℕ → ℤ → Call
  initializes : ℕ → ℤ → Call

-- The steps of the database; what a call replies is left out.
pub data Step (go : Stdlib) (db : Database) : Call → Database → Type 0 where
  admit :
      (key : ℤ) (id : String) (at : ℕ)
      → Step go db (admits key id at) (admit_api_key_budget go db key id at).0
  settle : (q : SettlementRequest) → Step go db (settles q) (settle_usage go db q).0
  -- the two transactions of SettleAPIKeyBudgetUsage, between which others may run
  queue : (q : SettlementRequest) → Step go db (queues q) (enqueue_settlement db q).0
  apply :
      (id : String) (at : ℕ) (already : Bool)
      → Step go db (applies id at already) (apply_settlement db id at already).0
  settle_pending :
      (locked : ℕ → ℕ → Bool) (now : ℕ) (n : ℤ)
      → Step go db (settles_pending locked now n) (run_settlement_cycle locked db now n).0
  expire :
      (locked : ℕ → Bool) (now : ℕ) (n : ℤ)
      → Step go db (expires locked now n) (run_expiry_cycle locked db now n).0
  give_up :
      (locked : ℕ → Bool) (cutoff now : ℕ) (n : ℤ)
      → Step go db (abandons locked cutoff now n) (run_abandoned_cycle locked db cutoff now n).0
  initialize :
      (now : ℕ) (n : ℤ) → Step go db (initializes now n) (run_initialization_cycle go db now n).0

pub data Reach (go : Stdlib) (start : Database) : Database → Type 0 where
  here : Reach go start start
  next :
      {db db' : Database} {call : Call}
      → Reach go start db
      → Step go db call db'
      → Reach go start db'

Step-IsSound :
    {go : Stdlib} {db db' : Database} {call : Call} → Step go db call db' → IsSound db → IsSound db'
Step-IsSound {go} {db} (admit key id at) h = admit-IsSound go db key id at h
Step-IsSound {go} {db} (settle q) h = settle_usage-IsSound go db q h
Step-IsSound {go} {db} (queue q) h = enqueue_settlement-IsSound db q h
Step-IsSound {go} {db} (apply id at already) h = apply_settlement-IsSound db id at already h
Step-IsSound {go} {db} (settle_pending locked now n) h =
    run_settlement_cycle-IsSound locked db now n h
Step-IsSound {go} {db} (expire locked now n) h = run_expiry_cycle-IsSound locked db now n h
Step-IsSound {go} {db} (give_up locked cutoff now n) h =
    run_abandoned_cycle-IsSound locked db cutoff now n h
Step-IsSound {go} {db} (initialize now n) h = run_initialization_cycle-IsSound go db now n h

pub Reach-IsSound :
    {go : Stdlib} {start db : Database} → IsSound start → Reach go start db → IsSound db
Reach-IsSound h here = h
Reach-IsSound h (next r s) = Step-IsSound s (Reach-IsSound h r)

-- From a sound ledger on, whatever calls follow each other, the two transactions of a settlement
-- also apart, with whatever rows locked by others, each of the six counters of each key is the sum
-- over the admissions of the key: one for each request still in the window, and the observed usage
-- of those that were settled within it.
pub counters_exact :
    {go : Stdlib} {start db : Database}
    → IsSound start
    → Reach go start db
    → All (IsBalanced db.admissions) db.states
counters_exact h r = (Reach-IsSound h r).balanced

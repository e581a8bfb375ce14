-- ===== src/Provider/Outcomes.antt =====
-- Runs of RecordAccountFailure, and the theorems about it at an account in use.
use n2api.Base.{
  ℕ, ◌+◌, ◌*◌, ◌≡◌, refl, true, false, none, some, arith, ltb, nat_eq, string_eq, pos, int_eq,
}
use n2api.Samples.{plain_go}
use n2api.Provider.Account.{Account, account_schedulable}
use n2api.Provider.Failure.{
  retry_after_time, add_seconds, record_account_status, record_account_failure,
}
use n2api.Provider.Pauses.{serves_after, record_account_failure-pauses, retry_after_time-waits}

abbrev in_use : Account
in_use = record {
  id = pos 1;
  enabled = true;
  status = "active";
  priority = pos 0;
  global_priority = pos 0;
  routing_pool_priority = none;
  load_factor = pos 1;
  last_error_at = none;
  rate_limited_until = none;
  circuit_open_until = none;
}

abbrev limited_until : ℕ → Account
limited_until until = record_account_status in_use "rate_limited" 500 (some until) none

half_a_minute :
    record_account_failure plain_go 500 in_use 429 "30" "slow down"
    ≡ some (limited_until 30_000_000_500)
unfolding record_account_failure retry_after_time add_seconds
half_a_minute = refl

record_account_failure-pauses_example :
    account_schedulable (limited_until 30_000_000_500) 30_000_000_499
    ≡ serves_after plain_go 500 in_use 429 "30" "slow down" 30_000_000_499
record_account_failure-pauses_example =
    record_account_failure-pauses plain_go 500 in_use (limited_until 30_000_000_500) 429 "30"
      "slow down" 30_000_000_499 half_a_minute

is_paused : serves_after plain_go 500 in_use 429 "30" "slow down" 30_000_000_499 ≡ false
unfolding serves_after retry_after_time add_seconds
is_paused = refl

retry_after_time-waits_example :
    retry_after_time plain_go "30" 500 60_000_000_000 ≡ 500 + 30 * 1_000_000_000
retry_after_time-waits_example =
    retry_after_time-waits plain_go "30" 500 60_000_000_000 30 refl refl (omega arith)

-- One second more than fits in 64 bits lies in the past.
overflows :
    ltb (add_seconds 60_000_000_000_000_000_000 9_223_372_037) 60_000_000_000_000_000_000 ≡ true
unfolding add_seconds
overflows = refl

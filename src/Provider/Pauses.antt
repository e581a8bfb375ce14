-- ===== src/Provider/Pauses.antt =====
-- What a failure on record means for the selection of its account (provider/service.go).
use n2api.Base.{
  ℕ, ◌+◌, ◌*◌, ◌≤◌, String, ◌≡◌, refl, subst, Bool, false, not, ◌&&◌, ◌||◌, none, some, arith, leb,
  nat_beq, if◌then◌else◌, ◌==◌, nat_eq, string_eq, pos, int_eq,
}
use n2api.Go.{Stdlib}
use n2api.Provider.Account.{Account, account_schedulable, timers_passed}
use n2api.Provider.Select.{default_circuit_open}
use n2api.Provider.Failure.{
  retry_after_time, is_endpoint_permission_error, record_account_failure, add_seconds,
  after_failure, failure_reason, record_account_status, mark_account_error,
}

-- Whether an account may serve at a time after a failure with a status: not before the wait is over
-- that the status calls for, never after its authorization was refused, and as before otherwise.
unfoldable pub serves_after : Stdlib → ℕ → Account → ℕ → String → String → ℕ → Bool
serves_after go now a status retry_after reason at =
    if nat_beq status 429
    then a.enabled && leb (retry_after_time go retry_after now 60_000_000_000) at
    else if nat_beq status 401
        || (nat_beq status 403 && not (is_endpoint_permission_error go reason))
    then false
    else if leb 500 status
    then a.enabled && leb (now + default_circuit_open) at
    else account_schedulable a at

account_schedulable-limited :
    (a : Account) (now until at : ℕ)
    → account_schedulable (record_account_status a "rate_limited" now (some until) none) at
      ≡ (a.enabled && leb until at)
unfolding account_schedulable timers_passed
account_schedulable-limited a now until at = ground arith

account_schedulable-opened :
    (a : Account) (now until at : ℕ)
    → account_schedulable (record_account_status a "circuit_open" now none (some until)) at
      ≡ (a.enabled && leb until at)
unfolding account_schedulable timers_passed
account_schedulable-opened a now until at = ground arith

account_schedulable-expired :
    (a : Account) (now at : ℕ)
    → account_schedulable (record_account_status a "expired" now none none) at ≡ false
unfolding account_schedulable
account_schedulable-expired a now at = ground arith

account_schedulable-marked :
    (a : Account) (now at : ℕ)
    → account_schedulable (mark_account_error a now) at ≡ account_schedulable a at
unfolding account_schedulable timers_passed
account_schedulable-marked a now at = refl

after_failure-serves :
    (go : Stdlib) (now : ℕ) (a : Account) (status : ℕ) (retry_after reason : String) (at : ℕ)
    → account_schedulable (after_failure go now a status retry_after reason) at
      ≡ serves_after go now a status retry_after reason at
unfolding after_failure serves_after
after_failure-serves go now a status retry_after reason at = ground (
  arith,
  account_schedulable-limited a now (retry_after_time go retry_after now 60_000_000_000) at,
  account_schedulable-opened a now (now + default_circuit_open) at,
  account_schedulable-expired a now at,
  account_schedulable-marked a now at,
)

pub record_account_failure-pauses :
    (go : Stdlib) (now : ℕ) (a a' : Account) (status : ℕ) (retry_after message : String) (at : ℕ)
    → record_account_failure go now a status retry_after message ≡ some a'
    → account_schedulable a' at
      ≡ serves_after go now a status retry_after (failure_reason go status message) at
unfolding record_account_failure
record_account_failure-pauses go now a a' status retry_after message at h =
    let reason = failure_reason go status message in
    let written : after_failure go now a status retry_after reason ≡ a' = ground (arith, h) in
    subst
      (λ (b : Account).
        account_schedulable b at ≡ serves_after go now a status retry_after reason at)
      written (after_failure-serves go now a status retry_after reason at)

-- A Retry-After of a number of seconds whose nanoseconds fit in 64 bits is a wait of exactly that
-- long.
pub retry_after_time-waits :
    (go : Stdlib) (value : String) (now fallback seconds : ℕ)
    → (go.trim_space value == "") ≡ false
    → go.atoi (go.trim_space value) ≡ some (pos seconds)
    → seconds ≤ 9_223_372_036
    → retry_after_time go value now fallback ≡ now + seconds * 1_000_000_000
unfolding retry_after_time add_seconds
retry_after_time-waits go value now fallback seconds v e h = ground arith

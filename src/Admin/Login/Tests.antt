-- ===== src/Admin/Login/Tests.antt =====
-- Runs of the login throttle.
use n2api.Base.{
  String, ◌≡◌, refl, true, false, List, [], ◌∷◌, arith, nat_eq, string_eq, pos, int_eq,
}
use n2api.Admin.Login.Throttle.{
  delay_loop, Config, Entry, Throttle, enabled, find, without, touch, purge_loop, purge_expired,
  ensure_capacity, should_report_event, judge, check_keys, missing, reserve, begin_allowed,
  begin_keys, fail_key, fail_keys, record_failure, finish_attempt, failure_delay,
}
use n2api.Admin.Login.Delay.{failure_delay_lem}
use n2api.Admin.Login.Entries.{flying}
use n2api.Admin.Login.Invariant.{IsWellFormed, begin_keys-IsWellFormed}
use n2api.Admin.Login.Reservation.{begin_keys-reserves, given_back, ends_once}

-- Two failures are free, then 10, 20, 35 units of delay.
abbrev strict : Config
strict = record {
  failure_threshold = pos 3;
  base_delay = pos 10;
  max_delay = pos 35;
  entry_ttl = pos 100;
  event_window = pos 60;
  max_entries = pos 8;
}

failure_delay_example : failure_delay strict 5 ≡ 35
failure_delay_example = failure_delay_lem strict 3 9 5 refl refl

abbrev seen : Entry
seen = record { key = "ip:9.9.9.9"; failures = 2; in_flight = 0; blocked_until = 0; last_seen = 40 }

abbrev guard : Throttle
guard = record { address = 1; config = strict; entries = seen ∷ []; last_event = 0 }

guard-IsWellFormed : IsWellFormed guard
unfolding find
guard-IsWellFormed = record {
  table = record { distinct = (refl, tt); busy = (omega arith, tt) };
  bounded = omega arith;
}

abbrev keys : List String
keys = "ip:9.9.9.9" ∷ "username:bob" ∷ []

abbrev held : Throttle
held = (begin_keys guard keys 50).throttle

held-IsWellFormed : IsWellFormed held
held-IsWellFormed = begin_keys-IsWellFormed guard keys 50 guard-IsWellFormed

begin_keys-reserves_example : flying "username:bob" held.entries ≡ 1
unfolding begin_keys begin_allowed flying purge_expired purge_loop check_keys find touch without
    judge enabled ensure_capacity missing reserve
begin_keys-reserves_example = begin_keys-reserves guard keys 50 "username:bob" guard-IsWellFormed

ends_once_example :
    given_back held (finish_attempt held (begin_keys guard keys 50).attempt true 51).0 ≡ []
ends_once_example = (ends_once held (begin_keys guard keys 50).attempt true 51 "ip:9.9.9.9").3

-- The third failure blocks the key for the base delay.
third_failure :
    (record_failure held (begin_keys guard keys 50).attempt 51).decision
    ≡ record { allowed = false; retry_after = 10; report_event = true }
unfolding begin_keys begin_allowed purge_expired purge_loop check_keys find touch without judge
    enabled ensure_capacity missing reserve record_failure fail_keys fail_key failure_delay
    delay_loop should_report_event
third_failure = refl

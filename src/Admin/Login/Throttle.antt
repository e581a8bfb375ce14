-- ===== src/Admin/Login/Throttle.antt =====
-- LoginThrottle. `entries` and `lru` always hold the same entries, since each is added to both and
-- removed from both: they are one list here, least recently used first. Times are nanoseconds
-- since Go's zero time, durations are nanoseconds.
use n2api.Base.{
  ℕ, zero, suc, ◌+◌, ◌-◌, ◌*◌, ◌/◌, max, String, Bool, true, false, not, ◌&&◌, ◌||◌, Option, none,
  some, List, [], ◌∷◌, ◌++◌, ltb, leb, if◌then◌else◌, ◌==◌, nat_eq, string_eq, is_some, get_or,
  length, ℤ, pos, pos_part, neg_part, ltb_ℤ, leb_ℤ, is_pos, int_eq,
}
use Prim.Native.String.{◌++◌ as str_append}
use n2api.Go.{Stdlib}

pub record Config : Type 0 where
  pub failure_threshold : ℤ
  pub base_delay : ℤ
  pub max_delay : ℤ
  pub entry_ttl : ℤ
  pub event_window : ℤ
  pub max_entries : ℤ

pub record Decision : Type 0 where
  pub allowed : Bool
  pub retry_after : ℕ
  pub report_event : Bool

pub record Entry : Type 0 where
  pub key : String
  pub failures : ℕ
  pub in_flight : ℕ
  pub blocked_until : ℕ
  pub last_seen : ℕ

pub record Throttle : Type 0 where
  -- the address of the object, which an attempt refers to
  pub address : ℕ
  pub config : Config
  pub entries : List Entry
  pub last_event : ℕ

pub record Attempt : Type 0 where
  pub throttle : ℕ
  pub keys : List String
  pub active : Bool

abbrev pub second : ℕ
second = 1_000_000_000

abbrev pub allowed_decision : Decision
allowed_decision = record { allowed = true; retry_after = 0; report_event = false }

unfoldable pub enabled : Throttle → Bool
enabled t = is_pos t.config.failure_threshold && is_pos t.config.max_entries

unfoldable pub normalize_login_throttle_ip : Stdlib → String → String
normalize_login_throttle_ip go raw =
    let trimmed = go.trim_space raw in
    elim (go.unzoned_addr trimmed) [ some addr ↦ addr | none ↦ trimmed ]

unfoldable pub login_throttle_keys : Stdlib → String → String → List String
unfolding normalize_login_throttle_ip
login_throttle_keys go ip username =
    let normalized = normalize_login_throttle_ip go ip in
    let user : List String =
      str_append "username:" (go.sha256_hex (go.to_lower (go.trim_space username))) ∷ [] in
    if normalized == "" then user else str_append "ip:" normalized ∷ user

-- t.entries[key]
unfoldable pub find : String → List Entry → Option Entry
find k [] = none
find k (e ∷ es) = if e.key == k then some e else find k es

unfoldable pub without : String → List Entry → List Entry
without k [] = []
without k (e ∷ es) = if e.key == k then without k es else e ∷ without k es

-- An entry after a change of its fields and a `touch`: at the back of the list, seen now.
unfoldable pub touch : Entry → ℕ → List Entry → List Entry
touch e now es = without e.key es ++ record e { last_seen = now } ∷ []

unfoldable pub purge_loop : ℤ → ℕ → List Entry → List Entry
purge_loop ttl now [] = []
purge_loop ttl now (e ∷ es) =
    let rest = purge_loop ttl now es in
    if ltb 0 e.in_flight || ltb now e.blocked_until || ltb now (e.last_seen + pos_part ttl)
    then e ∷ es
    else rest

unfoldable pub purge_expired : Throttle → ℕ → Throttle
purge_expired t now =
    if not (is_pos t.config.entry_ttl)
    then t
    else record t { entries = purge_loop t.config.entry_ttl now t.entries }

-- The loop of ensureCapacity: whether there is room for `required` entries, and what is left.
unfoldable pub ensure_capacity : ℤ → ℕ → ℕ → List Entry → Bool × List Entry
ensure_capacity max_entries required now [] = (not (ltb_ℤ max_entries (pos required)), [])
ensure_capacity max_entries required now (e ∷ es) =
    let rest = ensure_capacity max_entries required now es in
    if not (ltb_ℤ max_entries (pos (length (e ∷ es) + required)))
    then (true, e ∷ es)
    else if ltb 0 e.in_flight || ltb 0 e.failures || ltb now e.blocked_until
    then (false, e ∷ es)
    else rest

-- shouldReportEvent
unfoldable pub should_report_event : Throttle → ℕ → Bool × Throttle
should_report_event t now =
    if not (t.last_event == 0)
      && is_pos t.config.event_window
      && ltb now (t.last_event + pos_part t.config.event_window)
    then (false, t)
    else (true, record t { last_event = now })

unfoldable pub delay_loop : ℕ → ℕ → ℕ → ℕ
delay_loop zero maximum delay = if ltb maximum delay then maximum else delay
delay_loop (suc steps) maximum delay =
    let rest = delay_loop steps maximum (delay * 2) in
    if leb maximum delay || ltb (maximum / 2) delay then maximum else rest

unfoldable pub failure_delay : Config → ℕ → ℕ
failure_delay c failures =
    let base = pos_part c.base_delay in
    let maximum = if is_pos c.max_delay then pos_part c.max_delay else base in
    if ltb_ℤ (pos failures) c.failure_threshold || not (is_pos c.base_delay)
    then 0
    else if leb maximum base
    then maximum
    else delay_loop (failures + neg_part c.failure_threshold - pos_part c.failure_threshold) maximum
        base

-- What one existing entry adds to the decision of BeginAttempt.
unfoldable pub judge : Config → ℕ → Entry → Decision → Decision
judge c now e d =
    let remaining = e.blocked_until - now in
    let d1 : Decision =
      if ltb 0 remaining
      then record d { allowed = false; retry_after = max d.retry_after remaining }
      else d in
    if ltb 0 e.in_flight && leb_ℤ c.failure_threshold (pos (e.failures + e.in_flight))
    then record d1 { allowed = false; retry_after = max d1.retry_after (pos_part c.base_delay) }
    else d1

unfoldable pub check_keys : Config → ℕ → List String → List Entry → Decision → Decision × List Entry
check_keys c now [] es d = (d, es)
check_keys c now (k ∷ ks) es d = elim (find k es) [
  | none ↦ check_keys c now ks es d
  | some e ↦ check_keys c now ks (touch e now es) (judge c now e d)
]

unfoldable pub missing : List String → List Entry → ℕ
missing [] es = 0
missing (k ∷ ks) es = (if is_some (find k es) then 0 else 1) + missing ks es

abbrev pub new_entry : String → ℕ → Entry
new_entry k now = record {
  key = k;
  failures = 0;
  in_flight = 0;
  blocked_until = 0;
  last_seen = now;
}

unfoldable pub reserve : ℕ → List String → List Entry → List Entry
reserve now [] es = es
reserve now (k ∷ ks) es =
    let e = get_or (find k es) (new_entry k now) in
    reserve now ks (touch (record e { in_flight = e.in_flight + 1 }) now es)

pub record Begun : Type 0 where
  pub attempt : Attempt
  pub decision : Decision
  pub throttle : Throttle

-- The end of BeginAttempt, once both identities are allowed.
unfoldable pub begin_allowed : Throttle → List String → Decision → ℕ → Begun
begin_allowed t keys d now =
    let idle_attempt : Attempt = record { throttle = t.address; keys = []; active = false } in
    let (room, es) = ensure_capacity t.config.max_entries (missing keys t.entries) now t.entries in
    if room
    then record {
      attempt = record { throttle = t.address; keys = keys; active = true };
      decision = d;
      throttle = record t { entries = reserve now keys es };
    }
    else let (report, t') = should_report_event (record t { entries = es }) now in
      record {
        attempt = idle_attempt;
        decision = record {
          allowed = false;
          retry_after = max (pos_part t.config.base_delay) second;
          report_event = report;
        };
        throttle = t';
      }

unfoldable pub begin_keys : Throttle → List String → ℕ → Begun
begin_keys t keys now =
    let idle_attempt : Attempt = record { throttle = t.address; keys = []; active = false } in
    if not (enabled t)
    then record { attempt = idle_attempt; decision = allowed_decision; throttle = t }
    else let t1 = purge_expired t now in
      let (d, es) = check_keys t1.config now keys t1.entries allowed_decision in
      let t2 : Throttle = record t1 { entries = es } in
      if not d.allowed
      then (let (report, t3) = should_report_event t2 now in
          record {
            attempt = idle_attempt;
            decision = record d { report_event = report };
            throttle = t3;
          })
      else begin_allowed t2 keys d now

unfoldable pub begin_attempt : Stdlib → Throttle → String → String → ℕ → Begun
begin_attempt go t ip username now = begin_keys t (login_throttle_keys go ip username) now

-- One key of RecordFailure.
unfoldable pub fail_key : Config → ℕ → String → List Entry → Decision → Decision × List Entry
fail_key c now k es d = elim (find k es) [
  | none ↦ (d, es)
  | some e ↦
      if leb e.in_flight 0
      then (d, es)
      else let delay = failure_delay c (e.failures + 1) in
        let e1 : Entry = record e { in_flight = e.in_flight - 1; failures = e.failures + 1 } in
        if ltb 0 delay
        then (
          record d { allowed = false; retry_after = max d.retry_after delay },
          touch (record e1 { blocked_until = now + delay }) now es,
        )
        else (d, touch e1 now es)
]

unfoldable pub fail_keys : Config → ℕ → List String → List Entry → Decision → Decision × List Entry
fail_keys c now [] es d = (d, es)
fail_keys c now (k ∷ ks) es d = let (d', es') = fail_key c now k es d in fail_keys c now ks es' d'

unfoldable pub record_failure : Throttle → Attempt → ℕ → Begun
record_failure t attempt now =
    if not (enabled t) || not (attempt.throttle == t.address) || not attempt.active
    then record { attempt = attempt; decision = allowed_decision; throttle = t }
    else let (d, es) = fail_keys t.config now attempt.keys t.entries allowed_decision in
      let (report, t') = should_report_event (record t { entries = es }) now in
      record {
        attempt = record attempt { active = false };
        decision = record d { report_event = report };
        throttle = t';
      }

-- One key of finishAttempt.
unfoldable pub finish_key : Bool → ℕ → String → List Entry → List Entry
finish_key success now k es = elim (find k es) [
  | none ↦ es
  | some e ↦
      if leb e.in_flight 0
      then es
      else let e1 : Entry = record e { in_flight = e.in_flight - 1 } in
        let e2 : Entry = if success then record e1 { failures = 0; blocked_until = 0 } else e1 in
        if e2.in_flight == 0 && e2.failures == 0 then without e2.key es else touch e2 now es
]

unfoldable pub finish_keys : Bool → ℕ → List String → List Entry → List Entry
finish_keys success now [] es = es
finish_keys success now (k ∷ ks) es = finish_keys success now ks (finish_key success now k es)

unfoldable pub finish_attempt : Throttle → Attempt → Bool → ℕ → Attempt × Throttle
finish_attempt t attempt success now =
    if not (enabled t) || not (attempt.throttle == t.address) || not attempt.active
    then (attempt, t)
    else (
      record attempt { active = false },
      record t { entries = finish_keys success now attempt.keys t.entries },
    )

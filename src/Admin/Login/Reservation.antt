-- ===== src/Admin/Login/Reservation.antt =====
-- The running verifications of each key: reserved by BeginAttempt, given back once.
use n2api.Base.{
  ℕ, ◌+◌, ◌-◌, String, ◌≡◌, refl, ◌∙◌, inl, inr, Bool, ◌&&◌, none, some, List, [], ◌∷◌, arith,
  if◌then◌else◌, ◌==◌, nat_eq, string_eq, Option-cases, ℤ, int_eq,
}
use n2api.Admin.Login.Throttle.{
  Config, Decision, Entry, Throttle, Attempt, allowed_decision, enabled, find, touch, purge_loop,
  purge_expired, should_report_event, judge, check_keys, missing, new_entry, reserve, begin_allowed,
  begin_keys, fail_key, fail_keys, record_failure, finish_key, finish_keys, finish_attempt,
  failure_delay,
}
use n2api.Admin.Login.Entries.{
  find_key, flying, flying-touch, flying-without, flying-drop, Distinct,
}
use n2api.Admin.Login.Invariant.{
  IsTable, IsWellFormed, ensure_capacity-Busy, check_keys-keeps, purge_expired-keeps,
}

abbrev pub occurrences : String → List String → ℕ
occurrences j [] = 0
occurrences j (k ∷ ks) = (if k == j then 1 else 0) + occurrences j ks

flying-purge_loop :
    (ttl : ℤ) (now : ℕ) (j : String) (es : List Entry)
    → Distinct es
    → flying j (purge_loop ttl now es) ≡ flying j es
unfolding purge_loop
flying-purge_loop ttl now j [] d = refl
flying-purge_loop ttl now j (e ∷ es) d =
    ground (arith, flying-purge_loop ttl now j es d.1, flying-drop e es j d)

flying-purge_expired :
    (t : Throttle) (now : ℕ) (j : String)
    → Distinct t.entries
    → flying j (purge_expired t now).entries ≡ flying j t.entries
unfolding purge_expired
flying-purge_expired t now j d =
    ground (arith, flying-purge_loop t.config.entry_ttl now j t.entries d)

flying-found :
    (k : String) (es : List Entry) {e : Entry} → find k es ≡ some e → flying k es ≡ e.in_flight
unfolding flying
flying-found k es h = rw (h, flying)

flying-missing : (k : String) (es : List Entry) → find k es ≡ none → flying k es ≡ 0
unfolding flying
flying-missing k es h = rw (h, flying)

flying-check_keys :
    (c : Config) (now : ℕ) (ks : List String) (es : List Entry) (d : Decision) (j : String)
    → flying j (check_keys c now ks es d).1 ≡ flying j es
unfolding check_keys
flying-check_keys c now [] es d j = refl
flying-check_keys c now (k ∷ ks) es d j = elim (Option-cases (find k es)) [
  | inl e ↦ rw (e, check_keys) (flying-check_keys c now ks es d j)
  | inr (x, e) ↦
      rw (e, check_keys)
        (flying-check_keys c now ks (touch x now es) (judge c now x d) j
          ∙ ground (
            arith,
            flying-touch x now j es,
            find_key k es {e = x} e,
            string_eq.beq_iff x.key j,
            flying-found k es {e = x} e,
            string_eq.beq_iff k j,
          ))
]

flying-reserve :
    (now : ℕ) (ks : List String) (es : List Entry) (j : String)
    → flying j (reserve now ks es) ≡ flying j es + occurrences j ks
unfolding reserve
flying-reserve now [] es j = omega arith
flying-reserve now (k ∷ ks) es j = elim (Option-cases (find k es)) [
  | inl e ↦
      rw (e, reserve)
        (ground (
          arith,
          flying-reserve now ks (touch (record (new_entry k now) { in_flight = 0 + 1 }) now es) j,
          flying-touch (record (new_entry k now) { in_flight = 0 + 1 }) now j es,
          flying-missing k es e,
          string_eq.beq_iff k j,
        ))
  | inr (x, e) ↦
      rw (e, reserve)
        (ground (
          arith,
          flying-reserve now ks (touch (record x { in_flight = x.in_flight + 1 }) now es) j,
          flying-touch (record x { in_flight = x.in_flight + 1 }) now j es,
          find_key k es {e = x} e,
          flying-found k es {e = x} e,
          string_eq.beq_iff k j,
        ))
]

begin_allowed-reserves :
    (t : Throttle) (keys : List String) (d : Decision) (now : ℕ) (j : String)
    → IsTable t.entries
    → flying j (begin_allowed t keys d now).throttle.entries
      ≡ flying j t.entries
        + (if (begin_allowed t keys d now).attempt.active then occurrences j keys else 0)
unfolding begin_allowed should_report_event
begin_allowed-reserves t keys d now j v = ground (
  arith,
  ensure_capacity-Busy t.config.max_entries (missing keys t.entries) now t.entries v.busy,
  flying-reserve now keys t.entries j,
)

-- BeginAttempt reserves one verification for each of the attempt's keys if the attempt is active
-- afterwards, and none otherwise; no other key's running verifications change, although expired
-- entries are dropped on the way.
pub begin_keys-reserves :
    (t : Throttle) (keys : List String) (now : ℕ) (j : String)
    → IsWellFormed t
    → flying j (begin_keys t keys now).throttle.entries
      ≡ flying j t.entries
        + (if (begin_keys t keys now).attempt.active then occurrences j keys else 0)
unfolding begin_keys should_report_event
begin_keys-reserves t keys now j v =
    let p = purge_expired t now in
    let (v1, same) = purge_expired-keeps t now v in
    let checked = check_keys p.config now keys p.entries allowed_decision in
    ground (
      arith,
      flying-purge_expired t now j v.table.distinct,
      flying-check_keys p.config now keys p.entries allowed_decision j,
      begin_allowed-reserves (record p { entries = checked.1 }) keys checked.0 now j
          (check_keys-keeps p.config now keys p.entries allowed_decision v1.table).0,
    )

fail_key-returns :
    (c : Config) (now : ℕ) (k : String) (es : List Entry) (d : Decision) (j : String)
    → flying j (fail_key c now k es d).1 ≡ flying j es - (if k == j then 1 else 0)
unfolding fail_key
fail_key-returns c now k es d j = elim (Option-cases (find k es)) [
  | inl e ↦ rw (e, fail_key) (ground (arith, flying-missing k es e, string_eq.beq_iff k j))
  | inr (x, e) ↦
      let f : Entry = record x { in_flight = x.in_flight - 1; failures = x.failures + 1 } in
      let g : Entry = record f { blocked_until = now + failure_delay c (x.failures + 1) } in
      rw (e, fail_key)
        (ground (
          arith,
          find_key k es {e = x} e,
          flying-found k es {e = x} e,
          string_eq.beq_iff k j,
          flying-touch f now j es,
          flying-touch g now j es,
        ))
]

fail_keys-returns :
    (c : Config) (now : ℕ) (ks : List String) (es : List Entry) (d : Decision) (j : String)
    → flying j (fail_keys c now ks es d).1 ≡ flying j es - occurrences j ks
unfolding fail_keys
fail_keys-returns c now [] es d j = omega arith
fail_keys-returns c now (k ∷ ks) es d j =
    let r = fail_key c now k es d in
    omega (arith, fail_keys-returns c now ks r.1 r.0 j, fail_key-returns c now k es d j)

finish_key-returns :
    (success : Bool) (now : ℕ) (k : String) (es : List Entry) (j : String)
    → flying j (finish_key success now k es) ≡ flying j es - (if k == j then 1 else 0)
unfolding finish_key
finish_key-returns success now k es j = elim (Option-cases (find k es)) [
  | inl e ↦ rw (e, finish_key) (ground (arith, flying-missing k es e, string_eq.beq_iff k j))
  | inr (x, e) ↦
      let f : Entry = record x { in_flight = x.in_flight - 1 } in
      let g : Entry = record f { failures = 0; blocked_until = 0 } in
      rw (e, finish_key)
        (ground (
          arith,
          find_key k es {e = x} e,
          flying-found k es {e = x} e,
          string_eq.beq_iff k j,
          flying-touch f now j es,
          flying-touch g now j es,
          flying-without x.key j es,
        ))
]

finish_keys-returns :
    (success : Bool) (now : ℕ) (ks : List String) (es : List Entry) (j : String)
    → flying j (finish_keys success now ks es) ≡ flying j es - occurrences j ks
unfolding finish_keys
finish_keys-returns success now [] es j = omega arith
finish_keys-returns success now (k ∷ ks) es j = omega (
  arith,
  finish_keys-returns success now ks (finish_key success now k es) j,
  finish_key-returns success now k es j,
)

-- The keys that an operation gives back: those of an active attempt of this throttle.
abbrev pub given_back : Throttle → Attempt → List String
given_back t a = if enabled t && (a.throttle == t.address) && a.active then a.keys else []

-- RecordFailure, RecordSuccess and CancelAttempt give back exactly the verifications that the
-- attempt reserved, for an active attempt of this throttle, and none otherwise; all of them leave
-- such an attempt inactive, so a second call gives back nothing.
pub ends_once :
    (t : Throttle) (a : Attempt) (success : Bool) (now : ℕ) (j : String)
    → (flying j (record_failure t a now).throttle.entries
        ≡ flying j t.entries - occurrences j (given_back t a))
      × (flying j (finish_attempt t a success now).1.entries
          ≡ flying j t.entries - occurrences j (given_back t a))
      × (given_back t (record_failure t a now).attempt ≡ [])
      × (given_back t (finish_attempt t a success now).0 ≡ [])
unfolding record_failure finish_attempt should_report_event
ends_once t a success now j = (
  ground (arith, fail_keys-returns t.config now a.keys t.entries allowed_decision j),
  ground (arith, finish_keys-returns success now a.keys t.entries j),
  ground arith,
  ground arith,
)

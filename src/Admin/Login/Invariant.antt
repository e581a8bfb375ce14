-- ===== src/Admin/Login/Invariant.antt =====
-- Every operation keeps the table of entries a map of bounded size.
use n2api.Base.{
  ℕ, ◌+◌, ◌-◌, ◌≤◌, ◌<◌, String, ◌≡◌, inl, inr, Bool, not, List, [], ◌∷◌, arith, nat_eq, string_eq,
  Option-cases, get_or, length, ℤ, pos, pos_part, ltb_ℤ, int_eq,
}
use n2api.Admin.Login.Throttle.{
  Config, Decision, Entry, Throttle, Attempt, allowed_decision, find, without, touch, purge_loop,
  purge_expired, ensure_capacity, should_report_event, judge, check_keys, missing, new_entry,
  reserve, begin_allowed, begin_keys, fail_key, fail_keys, record_failure, finish_key, finish_keys,
  finish_attempt, failure_delay,
}
use n2api.Admin.Login.Entries.{
  find_key, find-touch, Distinct, Distinct-without, Distinct-touch, length-without-le, length-touch,
  Busy, Busy-without, Busy-touch, Busy-find,
}

-- A table of entries that stands for a map: no key twice, and no entry that counts nothing.
pub record IsTable (es : List Entry) : Type 0 where
  pub distinct : Distinct es
  pub busy : Busy es

-- The entries are a table, and there are at most MaxEntries of them.
pub record IsWellFormed (t : Throttle) : Type 0 where
  pub table : IsTable t.entries
  pub bounded : length t.entries ≤ pos_part t.config.max_entries

touch-IsTable :
    (e : Entry) (now : ℕ) (es : List Entry)
    → IsTable es
    → 0 < e.in_flight + e.failures
    → IsTable (touch e now es)
touch-IsTable e now es v h = record {
  distinct = Distinct-touch e now es v.distinct;
  busy = Busy-touch e now es v.busy h;
}

without-IsTable : (k : String) (es : List Entry) → IsTable es → IsTable (without k es)
without-IsTable k es v = record {
  distinct = Distinct-without k es v.distinct;
  busy = Busy-without k es v.busy;
}

tail-IsTable : (e : Entry) (es : List Entry) → IsTable (e ∷ es) → IsTable es
tail-IsTable e es v = record { distinct = v.distinct.1; busy = v.busy.1 }

purge_loop-keeps :
    (ttl : ℤ) (now : ℕ) (es : List Entry)
    → IsTable es
    → IsTable (purge_loop ttl now es) × (length (purge_loop ttl now es) ≤ length es)
unfolding purge_loop
purge_loop-keeps ttl now [] v = (v, omega arith)
purge_loop-keeps ttl now (e ∷ es) v =
    ground (arith, purge_loop-keeps ttl now es (tail-IsTable e es v))

pub check_keys-keeps :
    (c : Config) (now : ℕ) (ks : List String) (es : List Entry) (d : Decision)
    → IsTable es
    → IsTable (check_keys c now ks es d).1 × (length (check_keys c now ks es d).1 ≤ length es)
unfolding check_keys
check_keys-keeps c now [] es d v = (v, omega arith)
check_keys-keeps c now (k ∷ ks) es d v = elim (Option-cases (find k es)) [
  | inl e ↦ rw (e, check_keys) (check_keys-keeps c now ks es d v)
  | inr (x, e) ↦
      rw (e, check_keys)
        (let ih =
            check_keys-keeps c now ks (touch x now es) (judge c now x d)
              (touch-IsTable x now es v (Busy-find k es v.busy e)) in
          (ih.0, ground (arith, ih.1, length-touch x now es, find_key k es {e = x} e)))
]

-- Since every entry counts something, ensureCapacity drops none: it only answers whether there is
-- room.
pub ensure_capacity-Busy :
    (m : ℤ) (r now : ℕ) (es : List Entry)
    → Busy es
    → ensure_capacity m r now es ≡ (not (ltb_ℤ m (pos (length es + r))), es)
unfolding ensure_capacity
ensure_capacity-Busy m r now [] b = ground arith
ensure_capacity-Busy m r now (e ∷ es) b = ground arith

missing-touch :
    (e : Entry) (now : ℕ) (ks : List String) (es : List Entry)
    → missing ks (touch e now es) ≤ missing ks es
unfolding missing
missing-touch e now [] es = omega arith
missing-touch e now (k ∷ ks) es = ground (arith, missing-touch e now ks es, find-touch e now k es)

reserve-keeps :
    (now : ℕ) (ks : List String) (es : List Entry)
    → IsTable es
    → IsTable (reserve now ks es) × (length (reserve now ks es) ≤ length es + missing ks es)
unfolding reserve missing
reserve-keeps now [] es v = (v, omega arith)
reserve-keeps now (k ∷ ks) es v =
    let e = get_or (find k es) (new_entry k now) in
    let e' : Entry = record e { in_flight = e.in_flight + 1 } in
    let ih = reserve-keeps now ks (touch e' now es) (touch-IsTable e' now es v (omega arith)) in
    (
      ih.0,
      ground
          (arith, ih.1, length-touch e' now es, missing-touch e' now ks es, find_key k es {e = e}),
    )

begin_allowed-IsWellFormed :
    (t : Throttle) (keys : List String) (d : Decision) (now : ℕ)
    → IsWellFormed t
    → IsWellFormed (begin_allowed t keys d now).throttle
unfolding begin_allowed should_report_event
begin_allowed-IsWellFormed t keys d now v = ground (
  arith,
  ensure_capacity-Busy t.config.max_entries (missing keys t.entries) now t.entries v.table.busy,
  reserve-keeps now keys t.entries v.table,
)

pub purge_expired-keeps :
    (t : Throttle) (now : ℕ)
    → IsWellFormed t
    → IsWellFormed (purge_expired t now) × ((purge_expired t now).config ≡ t.config)
unfolding purge_expired
purge_expired-keeps t now v =
    (ground (arith, purge_loop-keeps t.config.entry_ttl now t.entries v.table), ground arith)

checked-IsWellFormed :
    (t : Throttle) (keys : List String) (now : ℕ)
    → IsWellFormed t
    → IsWellFormed
        (record t { entries = (check_keys t.config now keys t.entries allowed_decision).1 })
checked-IsWellFormed t keys now v =
    let (table, shorter) = check_keys-keeps t.config now keys t.entries allowed_decision v.table in
    record { table = table; bounded = omega (arith, v.bounded, shorter) }

-- BeginAttempt keeps the throttle well formed, whatever keys it is asked for: no key has two
-- entries, each entry counts a failure or a running verification, and MaxEntries is not passed.
pub begin_keys-IsWellFormed :
    (t : Throttle) (keys : List String) (now : ℕ)
    → IsWellFormed t
    → IsWellFormed (begin_keys t keys now).throttle
unfolding begin_keys should_report_event
begin_keys-IsWellFormed t keys now v =
    let (v1, same) = purge_expired-keeps t now v in
    let v2 = checked-IsWellFormed (purge_expired t now) keys now v1 in
    ground (
      arith,
      v,
      v2,
      begin_allowed-IsWellFormed
          (record (purge_expired t now) {
            entries =
                (check_keys (purge_expired t now).config now keys (purge_expired t now).entries
                  allowed_decision).1;
          })
          keys
          (check_keys (purge_expired t now).config now keys (purge_expired t now).entries
            allowed_decision).0
          now v2,
    )

fail_key-keeps :
    (c : Config) (now : ℕ) (k : String) (es : List Entry) (d : Decision)
    → IsTable es
    → IsTable (fail_key c now k es d).1 × (length (fail_key c now k es d).1 ≤ length es)
unfolding fail_key
fail_key-keeps c now k es d v = elim (Option-cases (find k es)) [
  | inl e ↦ rw (e, fail_key) (v, omega arith)
  | inr (x, e) ↦
      let f : Entry = record x { in_flight = x.in_flight - 1; failures = x.failures + 1 } in
      let g : Entry = record f { blocked_until = now + failure_delay c (x.failures + 1) } in
      let key = find_key k es {e = x} e in
      rw (e, fail_key)
        (ground (
          arith,
          v,
          e,
          key,
          touch-IsTable f now es v (omega arith),
          touch-IsTable g now es v (omega arith),
          length-touch f now es,
          length-touch g now es,
        ))
]

fail_keys-keeps :
    (c : Config) (now : ℕ) (ks : List String) (es : List Entry) (d : Decision)
    → IsTable es
    → IsTable (fail_keys c now ks es d).1 × (length (fail_keys c now ks es d).1 ≤ length es)
unfolding fail_keys
fail_keys-keeps c now [] es d v = (v, omega arith)
fail_keys-keeps c now (k ∷ ks) es d v =
    let (v1, l1) = fail_key-keeps c now k es d v in
    let (v2, l2) =
      fail_keys-keeps c now ks (fail_key c now k es d).1 (fail_key c now k es d).0 v1 in
    (v2, omega (arith, l1, l2))

-- RecordFailure keeps the throttle well formed.
pub record_failure-IsWellFormed :
    (t : Throttle) (attempt : Attempt) (now : ℕ)
    → IsWellFormed t
    → IsWellFormed (record_failure t attempt now).throttle
unfolding record_failure should_report_event
record_failure-IsWellFormed t attempt now v =
    ground (arith, v, fail_keys-keeps t.config now attempt.keys t.entries allowed_decision v.table)

finish_key-keeps :
    (success : Bool) (now : ℕ) (k : String) (es : List Entry)
    → IsTable es
    → IsTable (finish_key success now k es) × (length (finish_key success now k es) ≤ length es)
unfolding finish_key
finish_key-keeps success now k es v = elim (Option-cases (find k es)) [
  | inl e ↦ rw (e, finish_key) (v, omega arith)
  | inr (x, e) ↦
      let f : Entry = record x { in_flight = x.in_flight - 1 } in
      let g : Entry = record f { failures = 0; blocked_until = 0 } in
      let key = find_key k es {e = x} e in
      rw (e, finish_key)
        (ground (
          arith,
          v,
          e,
          key,
          without-IsTable x.key es v,
          length-without-le x.key es,
          touch-IsTable f now es v,
          touch-IsTable g now es v,
          length-touch f now es,
          length-touch g now es,
        ))
]

finish_keys-keeps :
    (success : Bool) (now : ℕ) (ks : List String) (es : List Entry)
    → IsTable es
    → IsTable (finish_keys success now ks es) × (length (finish_keys success now ks es) ≤ length es)
unfolding finish_keys
finish_keys-keeps success now [] es v = (v, omega arith)
finish_keys-keeps success now (k ∷ ks) es v =
    let (v1, l1) = finish_key-keeps success now k es v in
    let (v2, l2) = finish_keys-keeps success now ks (finish_key success now k es) v1 in
    (v2, omega (arith, l1, l2))

-- RecordSuccess and CancelAttempt keep the throttle well formed.
pub finish_attempt-IsWellFormed :
    (t : Throttle) (attempt : Attempt) (success : Bool) (now : ℕ)
    → IsWellFormed t
    → IsWellFormed (finish_attempt t attempt success now).1
unfolding finish_attempt
finish_attempt-IsWellFormed t attempt success now v =
    ground (arith, v, finish_keys-keeps success now attempt.keys t.entries v.table)

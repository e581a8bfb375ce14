-- ===== src/Gateway/Limits/Rate.antt =====
-- The limiters per minute of gateway/proxy.go. Times are nanoseconds since Go's zero time; a limit
-- of zero or below means that there is none.
use n2api.Base.{
  ℕ, ◌+◌, ◌-◌, ◌/◌, ◌%◌, Bool, true, false, not, ◌&&◌, ◌||◌, List, [], ◌∷◌, ltb, if◌then◌else◌,
  ◌==◌, nat_eq, string_eq, get_or, lookup, insert, ℤ, pos, pos_part, leb_ℤ, is_pos, int_eq,
}

abbrev pub minute : ℕ
minute = 60_000_000_000

abbrev pub second : ℕ
second = 1_000_000_000

-- now.Truncate(time.Minute)
abbrev pub window_start : ℕ → ℕ
window_start now = now - now % minute

-- apiKeyRateWindow and apiKeyTokenWindow: requests or tokens since the start of a minute.
pub record Window : Type 0 where
  pub start : ℕ
  pub amount : ℕ

abbrev pub no_window : Window
no_window = record { start = 0; amount = 0 }

abbrev pub Windows : Type 0
Windows = List (ℤ × Window)

pub record Limiter : Type 0 where
  pub default_limit : ℤ
  pub keys : Windows

unfoldable pub effective_limit : Limiter → ℤ → ℤ
effective_limit l limit = if is_pos limit then limit else l.default_limit

unfoldable pub seconds_until_next_minute : ℕ → ℕ
seconds_until_next_minute now =
    let seconds = (window_start now + minute - now) / second in if ltb seconds 1 then 1 else seconds

-- Whether the window is none of the minute that `now` lies in.
unfoldable pub is_stale : Window → ℕ → Bool
is_stale window now = window.start == 0 || not (window.start == window_start now)

-- What Allow answers: the seconds to wait, whether the request may pass, the limiter afterwards.
pub record Allowed : Type 0 where
  pub retry_after : ℕ
  pub allowed : Bool
  pub limiter : Limiter

-- apiKeyRateLimiter.Allow
unfoldable pub rate_allow : Limiter → ℤ → ℤ → ℕ → Allowed
unfolding effective_limit is_stale
rate_allow l key limit now =
    let effective = effective_limit l limit in
    let window = get_or (lookup key l.keys) no_window in
    if not (is_pos effective)
    then record { retry_after = 0; allowed = true; limiter = l }
    else if is_stale window now
    then record {
      retry_after = 0;
      allowed = true;
      limiter = record l {
        keys = insert key (record { start = window_start now; amount = 1 }) l.keys;
      };
    }
    else if leb_ℤ effective (pos window.amount)
    then record { retry_after = seconds_until_next_minute now; allowed = false; limiter = l }
    else record {
      retry_after = 0;
      allowed = true;
      limiter = record l {
        keys = insert key (record window { amount = window.amount + 1 }) l.keys;
      };
    }

-- apiKeyTokenLimiter.Allow
unfoldable pub token_allow : Limiter → ℤ → ℤ → ℕ → Allowed
unfolding effective_limit is_stale
token_allow l key limit now =
    let effective = effective_limit l limit in
    let window = get_or (lookup key l.keys) no_window in
    if not (is_pos effective)
    then record { retry_after = 0; allowed = true; limiter = l }
    else if is_stale window now
    then record { retry_after = 0; allowed = true; limiter = l }
    else if leb_ℤ effective (pos window.amount)
    then record { retry_after = seconds_until_next_minute now; allowed = false; limiter = l }
    else record { retry_after = 0; allowed = true; limiter = l }

-- apiKeyTokenLimiter.Record
unfoldable pub token_record : Limiter → ℤ → ℤ → ℤ → ℕ → Limiter
unfolding effective_limit is_stale
token_record l key tokens limit now =
    let window = get_or (lookup key l.keys) no_window in
    if not (is_pos (effective_limit l limit)) || not (is_pos tokens)
    then l
    else if is_stale window now
    then record l {
      keys = insert key (record { start = window_start now; amount = pos_part tokens }) l.keys;
    }
    else record l {
      keys = insert key (record window { amount = window.amount + pos_part tokens }) l.keys;
    }

-- Snapshot of both limiters: the positive amounts of the minute that `now` lies in.
snapshot_windows : Windows → ℕ → List (ℤ × ℕ)
snapshot_windows [] now = []
snapshot_windows ((key, window) ∷ rest) now =
    if window.start == window_start now && ltb 0 window.amount
    then insert key window.amount (snapshot_windows rest now)
    else snapshot_windows rest now

unfoldable pub snapshot : Limiter → ℕ → List (ℤ × ℕ)
unfolding snapshot_windows
snapshot l now = snapshot_windows l.keys now

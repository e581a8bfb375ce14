-- ===== src/Gateway/Limits/Concurrency.antt =====
-- The concurrency limiters of gateway/proxy.go. A granted call hands out a release function;
-- `release` is what that function does. Counts of requests in flight do not overflow an int.
use n2api.Base.{
  ℕ, ◌+◌, ◌-◌, not, ◌||◌, List, [], ◌∷◌, ltb, leb, if◌then◌else◌, nat_eq, string_eq, get_or, lookup,
  insert, delete, ℤ, pos, leb_ℤ, is_pos, int_eq, suc_ℤ, pred_ℤ,
}

-- What Acquire answers: no slot, a grant that counts nothing, or a grant that holds a slot.
pub data Acquired (L : Type 0) : Type 0 where
  refused : Acquired L
  uncounted : Acquired L
  held : L → Acquired L

-- gatewayConcurrencyLimiter: one counter.
unfoldable pub gateway_acquire : ℤ → ℤ → Acquired ℤ
gateway_acquire in_flight limit =
    if not (is_pos limit)
    then uncounted
    else if leb_ℤ limit in_flight
    then refused
    else held (suc_ℤ in_flight)

unfoldable pub gateway_release : ℤ → ℤ
gateway_release in_flight = pred_ℤ in_flight

-- accountConcurrencyLimiter and apiKeyConcurrencyLimiter: a counter for each identifier. Only
-- identifiers with a positive count are in the map.
abbrev pub InFlight : Type 0
InFlight = List (ℤ × ℕ)

abbrev pub in_flight : ℤ → InFlight → ℕ
in_flight id l = get_or (lookup id l) 0

unfoldable pub account_acquire : InFlight → ℤ → ℤ → Acquired InFlight
account_acquire l id limit =
    if not (is_pos limit) || not (is_pos id)
    then uncounted
    else if leb_ℤ limit (pos (in_flight id l))
    then refused
    else held (insert id (in_flight id l + 1) l)

-- The decrement stops at 0 here; the code deletes the entry at 0 and below.
unfoldable pub account_release : InFlight → ℤ → InFlight
account_release l id =
    let rest = in_flight id l - 1 in if leb rest 0 then delete id l else insert id rest l

unfoldable pub account_snapshot : InFlight → InFlight
account_snapshot [] = []
account_snapshot ((id, count) ∷ l) =
    if ltb 0 count then insert id count (account_snapshot l) else account_snapshot l

unfoldable pub api_key_acquire : InFlight → ℤ → ℤ → Acquired InFlight
api_key_acquire l id limit =
    if not (is_pos limit) || not (is_pos id)
    then uncounted
    else if leb_ℤ limit (pos (in_flight id l))
    then refused
    else held (insert id (in_flight id l + 1) l)

unfoldable pub api_key_release : InFlight → ℤ → InFlight
api_key_release l id =
    let rest = in_flight id l - 1 in if leb rest 0 then delete id l else insert id rest l

unfoldable pub effective_limit : ℤ → ℤ → ℤ
effective_limit own default = if is_pos own then own else default

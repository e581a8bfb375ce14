-- ===== src/Gateway/Limits/Minute.antt =====
-- What the request limiter admits in one minute, and the wait that it asks for.
use n2api.Base.{
  ℕ, suc, ◌+◌, ◌-◌, ◌*◌, ◌≤◌, ◌<◌, min, ◌≡◌, ◌&&◌, List, [], ◌∷◌, arith, ltb, if◌then◌else◌, ◌==◌,
  nat_eq, string_eq, get_or, All, lookup, lookup-insert, ℤ, pos, int_beq_iff, int_eq,
}
use n2api.Gateway.Limits.Rate.{
  minute, second, window_start, no_window, Limiter, effective_limit, seconds_until_next_minute,
  rate_allow,
}

-- The wait is from one second to a minute, and it ends less than a second before or after the next
-- minute begins.
pub seconds_bounds :
    (now : ℕ)
    → (1 ≤ seconds_until_next_minute now)
      × (seconds_until_next_minute now ≤ 60)
      × (window_start now + minute < now + seconds_until_next_minute now * second + second)
      × (now + seconds_until_next_minute now * second < window_start now + minute + second)
unfolding seconds_until_next_minute
seconds_bounds now = ground arith

-- The requests of one minute in the order in which they come: the key and the time of each.
pub record Request : Type 0 where
  pub key : ℤ
  pub at : ℕ

unfoldable pub rate_run : Limiter → ℤ → List Request → Limiter
rate_run l limit [] = l
rate_run l limit (r ∷ rs) = rate_run (rate_allow l r.key limit r.at).limiter limit rs

-- How many of the requests of one key are let through.
unfoldable pub passed : Limiter → ℤ → ℤ → List Request → ℕ
passed l limit key [] = 0
passed l limit key (r ∷ rs) =
    let rest = passed (rate_allow l r.key limit r.at).limiter limit key rs in
    if r.key == key && (rate_allow l r.key limit r.at).allowed then suc rest else rest

abbrev pub asked : ℤ → List Request → ℕ
asked key [] = 0
asked key (r ∷ rs) = if r.key == key then suc (asked key rs) else asked key rs

-- The amount that the limiter has on record for the minute that starts at `start`.
unfoldable pub used : Limiter → ℤ → ℕ → ℕ
used l key start =
    let window = get_or (lookup key l.keys) no_window in
    if window.start == start then window.amount else 0

module _ (start bound : ℕ) where
  abbrev pub IsIn : Request → Type 0
  IsIn r = window_start r.at ≡ start

  rate_step :
      (l : Limiter) (limit key : ℤ) (r : Request)
      → 0 < start
      → 0 < bound
      → effective_limit l limit ≡ pos bound
      → IsIn r
      → (effective_limit (rate_allow l r.key limit r.at).limiter limit ≡ pos bound)
        × ((rate_allow l r.key limit r.at).allowed ≡ ltb (used l r.key start) bound)
        × (used (rate_allow l r.key limit r.at).limiter key start
            ≡ used l key start + (if r.key == key && ltb (used l r.key start) bound then 1 else 0))
  unfolding rate_allow used
  rate_step l limit key r s b e i = (
    ground arith,
    ground arith,
    ground (
      arith,
      lookup-insert r.key key (record { start = window_start r.at; amount = 1 }) l.keys,
      lookup-insert r.key key
          (record {
            start = (get_or (lookup r.key l.keys) no_window).start;
            amount = (get_or (lookup r.key l.keys) no_window).amount + 1;
          })
          l.keys,
      int_beq_iff r.key key,
    ),
  )

  -- Of the requests that one key sends within a minute, exactly as many pass as are left of its
  -- limit, in whatever order they and those of other keys come.
  pub rate_exact :
      (l : Limiter) (limit key : ℤ) (rs : List Request)
      → 0 < start
      → 0 < bound
      → effective_limit l limit ≡ pos bound
      → All IsIn rs
      → passed l limit key rs ≡ min (asked key rs) (bound - used l key start)
  unfolding passed
  rate_exact l limit key [] s b e i = omega arith
  rate_exact l limit key (r ∷ rs) s b e i =
      let (e', a, u) = rate_step l limit key r s b e i.0 in
      ground (
        arith,
        a,
        u,
        int_beq_iff r.key key,
        rate_exact (rate_allow l r.key limit r.at).limiter limit key rs s b e' i.1,
      )

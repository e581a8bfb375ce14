-- ===== src/Gateway/Limits/Tests.antt =====
-- Runs of the limiters.
use n2api.Base.{
  ◌+◌, ◌<◌, ◌*◌, ◌≤◌, ◌≡◌, refl, List, [], ◌∷◌, arith, nat_eq, string_eq, pos, negsuc, int_eq,
}
use n2api.Gateway.Limits.Concurrency.{in_flight}
use n2api.Gateway.Limits.Slots.{
  begin, finish, Call, step, run, at_rest, count, slots_exact, slots_bounded,
}
use n2api.Gateway.Limits.Rate.{
  minute, second, Limiter, effective_limit, window_start, seconds_until_next_minute,
}
use n2api.Gateway.Limits.Minute.{Request, passed, used, rate_exact, seconds_bounds}
use n2api.Gateway.Limits.Tokens.{Usage, record_run, tokens_exact}

abbrev calls : List Call
calls =
    begin (pos 4) (pos 2)
    ∷ begin (pos 4) (pos 2)
    ∷ begin (pos 4) (pos 2)
    ∷ finish (pos 4)
    ∷ begin (pos 9) (pos 1)
    ∷ []

-- The third request is refused, and the first gives its slot back.
third_refused : (run at_rest calls).running ≡ pos 9 ∷ pos 4 ∷ []
unfolding run step
third_refused = refl

slots_exact_example :
    in_flight (pos 4) (run at_rest calls).limiter ≡ count (pos 4) (run at_rest calls).running
slots_exact_example = slots_exact calls (pos 4)

slots_bounded_example : count (pos 4) (run at_rest calls).running ≤ 2
slots_bounded_example =
    slots_bounded calls (pos 4) 2
      ((λ e. refl), ((λ e. refl), ((λ e. refl), (tt, ((λ e. refl), tt)))))

abbrev fresh : Limiter
fresh = record { default_limit = pos 2; keys = [] }

abbrev requests : List Request
requests =
    record { key = pos 1; at = 61 * second }
    ∷ record { key = pos 1; at = 62 * second }
    ∷ record { key = pos 8; at = 63 * second }
    ∷ record { key = pos 1; at = 64 * second }
    ∷ []

rate_exact_example : passed fresh (pos 0) (pos 1) requests ≡ 2
unfolding used effective_limit
rate_exact_example =
    rate_exact minute 2 fresh (pos 0) (pos 1) requests (omega arith) (omega arith) refl
      (refl, (refl, (refl, (refl, tt))))

seconds_bounds_example :
    let now = 61 * second in
    (1 ≤ seconds_until_next_minute now)
    × (seconds_until_next_minute now ≤ 60)
    × (window_start now + minute < now + seconds_until_next_minute now * second + second)
    × (now + seconds_until_next_minute now * second < window_start now + minute + second)
seconds_bounds_example = seconds_bounds (61 * second)

-- Key 8 has a limit of its own, and the limiter has one by default.
abbrev usages : List Usage
usages =
    record { key = pos 1; limit = pos 0; tokens = pos 30; at = 61 * second }
    ∷ record { key = pos 8; limit = pos 900; tokens = pos 50; at = 61 * second }
    ∷ record { key = pos 1; limit = pos 0; tokens = negsuc 3; at = 62 * second }
    ∷ []

tokens_exact_example : used (record_run fresh usages) (pos 1) minute ≡ 30
unfolding used
tokens_exact_example =
    tokens_exact minute fresh (pos 1) usages (omega arith) (refl, (refl, (refl, tt)))

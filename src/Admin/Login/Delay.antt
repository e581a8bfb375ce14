-- ===== src/Admin/Login/Delay.antt =====
-- How long a key is blocked after its failures.
use n2api.Base.{
  ℕ, zero, suc, ◌-◌, ◌*◌, ◌/◌, ◌^◌, ◌≤◌, ◌<◌, min, ◌≡◌, ◌||◌, arith, ltb, leb, if◌then◌else◌,
  nat_eq, string_eq, pos, pos_part, is_pos, int_eq,
}
use native.Mathlib.Nat.{pow-succ'}
use n2api.Admin.Login.Throttle.{Config, delay_loop, failure_delay}

two_pow_pos : (n : ℕ) → 0 < 2 ^ n
two_pow_pos zero = omega arith
two_pow_pos (suc n) = omega (arith, pow-succ' 2 n, two_pow_pos n)

le-mul : (d p : ℕ) → 0 < p → d ≤ d * p
le-mul d p h = grind arith

-- One turn of the loop, with the rest of the loop already known.
turn :
    (m d p : ℕ)
    → 0 < p
    → (if leb m d || ltb (m / 2) d then m else min m (d * 2 * p)) ≡ min m (d * (2 * p))
turn m d p h = ground (arith, le-mul d p h)

delay_loop_lem :
    (steps maximum delay : ℕ) → delay_loop steps maximum delay ≡ min maximum (delay * 2 ^ steps)
unfolding delay_loop
delay_loop_lem zero maximum delay = ground arith
delay_loop_lem (suc steps) maximum delay =
    rw (delay_loop_lem steps maximum (delay * 2), pow-succ' 2 steps)
      (turn maximum delay (2 ^ steps) (two_pow_pos steps))

abbrev pub maximum_of : Config → ℕ
maximum_of c = if is_pos c.max_delay then pos_part c.max_delay else pos_part c.base_delay

-- Below the threshold of failures there is no delay. From it on, with a base delay set, the delay
-- is the base doubled once for each further failure, cut at the maximum (which is the base itself
-- where no maximum is set): the loop that doubles and stops early computes exactly that.
pub failure_delay_lem :
    (c : Config) (threshold base failures : ℕ)
    → c.failure_threshold ≡ pos threshold
    → c.base_delay ≡ pos (suc base)
    → failure_delay c failures ≡ (
        if ltb failures threshold
        then 0
        else min (maximum_of c) (suc base * 2 ^ (failures - threshold)))
unfolding failure_delay
failure_delay_lem c threshold base failures ht hb = ground (
  arith,
  delay_loop_lem (failures - threshold) (maximum_of c) (suc base),
  le-mul (suc base) (2 ^ (failures - threshold)),
  two_pow_pos (failures - threshold),
)

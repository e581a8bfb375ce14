-- ===== src/Gateway/Limits/Slots.antt =====
-- The slots of the concurrency limiters over every interleaving of requests.
use n2api.Base.{
  ℕ, suc, ◌+◌, ◌-◌, ◌≤◌, ◌<◌, ◌≡◌, refl, true, List, [], ◌∷◌, arith, ltb, if◌then◌else◌, ◌==◌,
  nat_eq, string_eq, All, lookup-insert, lookup-delete, ℤ, pos, leb_ℤ, int_beq_iff, int_eq,
}
use n2api.Gateway.Limits.Concurrency.{held, InFlight, in_flight, account_acquire, account_release}

-- One step of the gateway for one account: a request asks for a slot under a limit, or a request
-- that holds a slot ends and gives it back.
pub data Call : Type 0 where
  begin : ℤ → ℤ → Call
  finish : ℤ → Call

pub record System : Type 0 where
  pub limiter : InFlight
  -- the identifiers of the running requests that hold a slot
  pub running : List ℤ

abbrev pub count : ℤ → List ℤ → ℕ
count id [] = 0
count id (x ∷ xs) = if x == id then suc (count id xs) else count id xs

abbrev pub remove_one : ℤ → List ℤ → List ℤ
remove_one id [] = []
remove_one id (x ∷ xs) = if x == id then xs else x ∷ remove_one id xs

unfoldable pub step : System → Call → System
unfolding account_acquire account_release
step s (begin id limit) = elim (account_acquire s.limiter id limit) [
  | held l ↦ record { limiter = l; running = id ∷ s.running }
  | _ ↦ s
]
step s (finish id) =
    if ltb 0 (count id s.running)
    then record { limiter = account_release s.limiter id; running = remove_one id s.running }
    else s

unfoldable pub run : System → List Call → System
run s [] = s
run s (c ∷ cs) = run (step s c) cs

abbrev pub at_rest : System
at_rest = record { limiter = []; running = [] }

count-remove_one :
    (id j : ℤ) (xs : List ℤ)
    → 0 < count id xs
    → count j (remove_one id xs) + (if id == j then 1 else 0) ≡ count j xs
count-remove_one id j [] h = absurd (omega arith)
count-remove_one id j (x ∷ xs) h =
    ground (arith, count-remove_one id j xs, int_beq_iff id j, int_beq_iff x id, int_beq_iff x j)

abbrev pub IsExact : System → Type 0
IsExact s = (j : ℤ) → in_flight j s.limiter ≡ count j s.running

step-IsExact : (s : System) (c : Call) → IsExact s → IsExact (step s c)
unfolding step
step-IsExact s (begin id limit) e j =
    ground (
      arith,
      e j,
      e id,
      lookup-insert id j (in_flight id s.limiter + 1) s.limiter,
      int_beq_iff id j,
    )
step-IsExact s (finish id) e j = ground (
  arith,
  e j,
  e id,
  lookup-insert id j (in_flight id s.limiter - 1) s.limiter,
  lookup-delete id j s.limiter,
  count-remove_one id j s.running,
  int_beq_iff id j,
)

pub run-IsExact : (s : System) (cs : List Call) → IsExact s → IsExact (run s cs)
unfolding run
run-IsExact s [] e = e
run-IsExact s (c ∷ cs) e = run-IsExact (step s c) cs (step-IsExact s c e)

-- In every interleaving of requests from an empty limiter, the counter of an account equals the
-- number of its running requests that hold a slot.
pub slots_exact :
    (cs : List Call) (id : ℤ)
    → in_flight id (run at_rest cs).limiter ≡ count id (run at_rest cs).running
slots_exact cs id = run-IsExact at_rest cs (λ j. refl) id

-- The limits that the calls for one account carry.
abbrev pub Within : ℤ → ℕ → Call → Type 0
Within id bound (begin j limit) = j ≡ id → leb_ℤ limit (pos bound) ≡ true
Within id bound (finish j) = Unit

step-bound :
    (s : System) (c : Call) (id : ℤ) (bound : ℕ)
    → IsExact s
    → Within id bound c
    → count id s.running ≤ bound
    → count id (step s c).running ≤ bound
unfolding step
step-bound s (begin j limit) id bound e w h = ground (arith, e j, int_beq_iff j id)
step-bound s (finish j) id bound e w h = ground (arith, count-remove_one j id s.running)

run-bound :
    (s : System) (cs : List Call) (id : ℤ) (bound : ℕ)
    → IsExact s
    → All (Within id bound) cs
    → count id s.running ≤ bound
    → count id (run s cs).running ≤ bound
unfolding run
run-bound s [] id bound e w h = h
run-bound s (c ∷ cs) id bound e w h =
    run-bound (step s c) cs id bound (step-IsExact s c e) w.1 (step-bound s c id bound e w.0 h)

-- If every call for an account carries a limit of at most `bound`, never more than `bound` of its
-- requests hold a slot at once.
pub slots_bounded :
    (cs : List Call) (id : ℤ) (bound : ℕ)
    → All (Within id bound) cs
    → count id (run at_rest cs).running ≤ bound
slots_bounded cs id bound w = run-bound at_rest cs id bound (λ j. refl) w (omega arith)

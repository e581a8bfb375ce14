-- ===== src/Lifecycle/Phases.antt =====
-- How the phases of lifecycle/readiness.go follow each other, whoever calls its methods.
use n2api.Base.{
  ℕ, ◌+◌, ◌≤◌, ◌<◌, String, ◌≡◌, ◌⊎◌, inl, inr, Bool, true, false, ◌||◌, List, [], ◌∷◌, arith,
  if◌then◌else◌, nat_eq, string_eq, int_eq,
}
use n2api.Lifecycle.Readiness.{
  Phase, starting, ready, draining, failed, ReadinessSnapshot, serves, mark_ready, begin_drain,
  mark_failed, is_draining, is_failed,
}

-- A call of one of the three methods that change the snapshot.
pub data Call : Type 0 where
  readies : Call
  drains : String → Call
  fails : String → Call

abbrev pub answer : ReadinessSnapshot → Call → ReadinessSnapshot × Bool
answer s readies = mark_ready s
answer s (drains reason) = begin_drain s reason
answer s (fails reason) = mark_failed s reason

-- The snapshot after calls in turn.
abbrev pub after : ReadinessSnapshot → List Call → ReadinessSnapshot
after s [] = s
after s (c ∷ cs) = after (answer s c).0 cs

-- How many of the calls return true.
abbrev pub count_changed : ReadinessSnapshot → List Call → ℕ
count_changed s [] = 0
count_changed s (c ∷ cs) = (if (answer s c).1 then 1 else 0) + count_changed (answer s c).0 cs

-- How far a phase is from its start.
abbrev pub rank : Phase → ℕ
rank starting = 0
rank ready = 1
rank draining = 2
rank failed = 3

-- A call that returns true moves to a later phase, and one that returns false changes nothing.
answer-rank :
    (s : ReadinessSnapshot) (c : Call)
    → (((answer s c).1 ≡ true) × (rank s.phase < rank (answer s c).0.phase))
      ⊎ (((answer s c).1 ≡ false) × ((answer s c).0 ≡ s))
unfolding mark_ready begin_drain mark_failed
answer-rank s readies = ground arith
answer-rank s (drains reason) = ground arith
answer-rank s (fails reason) = ground arith

-- Along any calls, each call that returns true moves the phase at least one step on towards
-- failed, so at most three of them do, and the phase never goes back.
pub phases_advance :
    (s : ReadinessSnapshot) (cs : List Call)
    → (rank s.phase + count_changed s cs ≤ rank (after s cs).phase) × (rank (after s cs).phase ≤ 3)
phases_advance s [] = ground arith
phases_advance s (c ∷ cs) = elim (answer-rank s c) [
  | inl (p, q) ↦ ground (arith, phases_advance (answer s c).0 cs)
  | inr (p, q) ↦ ground (arith, phases_advance (answer s c).0 cs)
]

-- A process that has begun to drain or has failed never takes requests again.
pub never_ready_again :
    (s : ReadinessSnapshot) (cs : List Call)
    → (is_draining s.phase || is_failed s.phase) ≡ true
    → serves (after s cs) ≡ false
never_ready_again s cs h = ground (arith, phases_advance s cs)

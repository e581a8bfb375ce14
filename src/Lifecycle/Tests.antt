-- ===== src/Lifecycle/Tests.antt =====
-- Runs of the phases of the process.
use n2api.Base.{◌+◌, ◌≤◌, ◌≡◌, refl, List, [], ◌∷◌, nat_eq, string_eq, int_eq}
use n2api.Lifecycle.Readiness.{new_readiness, mark_ready, begin_drain, mark_failed}
use n2api.Lifecycle.Phases.{
  Call, readies, drains, fails, after, count_changed, rank, phases_advance,
}

-- A start, a shutdown, a late start and a failure.
abbrev life : List Call
life = readies ∷ drains "signal" ∷ readies ∷ fails "worker" ∷ []

three_changed : count_changed new_readiness life ≡ 3
unfolding mark_ready begin_drain mark_failed
three_changed = refl

phases_advance_example :
    (rank new_readiness.phase + count_changed new_readiness life
      ≤ rank (after new_readiness life).phase)
    × (rank (after new_readiness life).phase ≤ 3)
phases_advance_example = phases_advance new_readiness life

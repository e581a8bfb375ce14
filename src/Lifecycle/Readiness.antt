-- ===== src/Lifecycle/Readiness.antt =====
-- lifecycle/readiness.go: the phases of the process.
use n2api.Base.{String, Bool, true, false, not, ◌||◌, if◌then◌else◌, nat_eq, string_eq, int_eq}

pub data Phase : Type 0 where
  starting ready draining failed : Phase

pub record ReadinessSnapshot : Type 0 where
  pub phase : Phase
  pub reason : String

abbrev pub is_starting : Phase → Bool
is_starting starting = true
is_starting _ = false

abbrev pub is_ready : Phase → Bool
is_ready ready = true
is_ready _ = false

abbrev pub is_failed : Phase → Bool
is_failed failed = true
is_failed _ = false

abbrev pub is_draining : Phase → Bool
is_draining draining = true
is_draining _ = false

-- ReadinessSnapshot.Ready
abbrev pub serves : ReadinessSnapshot → Bool
serves s = is_ready s.phase

-- NewReadiness
abbrev pub new_readiness : ReadinessSnapshot
new_readiness = record { phase = starting; reason = "" }

unfoldable pub mark_ready : ReadinessSnapshot → ReadinessSnapshot × Bool
mark_ready s =
    if not (is_starting s.phase) then (s, false) else (record { phase = ready; reason = "" }, true)

unfoldable pub begin_drain : ReadinessSnapshot → String → ReadinessSnapshot × Bool
begin_drain s reason =
    if is_draining s.phase || is_failed s.phase
    then (s, false)
    else (record { phase = draining; reason = reason }, true)

unfoldable pub mark_failed : ReadinessSnapshot → String → ReadinessSnapshot × Bool
mark_failed s reason =
    if is_failed s.phase then (s, false) else (record { phase = failed; reason = reason }, true)

-- ===== src/Alerting/Aggregation.antt =====
-- How many matches a rule aggregates before it notifies, and what errors and recoveries do.
use n2api.Base.{
  ℕ, zero, suc, ◌+◌, ◌≤◌, String, ◌≡◌, ap, ◌≢◌, true, false, none, some, List, [], ◌∷◌, ◌++◌, arith,
  nat_eq, string_eq, length, All, pos, ltb_ℤ, leb_ℤ, int_beq_iff, int_eq,
}
use n2api.Go.{Stdlib}
use n2api.Alerting.Model.{
  Time, Event, EventRules, idle, decide_none, notify, Error, Rule, RuleState, validate,
}
use n2api.Alerting.Evaluate.{
  says, matches_trigger, matches_recovery, evaluate_recovery, evaluate_match, state_belongs,
  evaluate, add_seconds, deduplication_key_hash,
}
use n2api.Alerting.Cooldown.{decisions}

abbrev pub repeat {ℓ} : {A : Type ℓ} → ℕ → A → List A
repeat zero a = []
repeat (suc n) a = a ∷ repeat n a

module _ (go : Stdlib) (ev : EventRules) (rule : Rule) (key : String) (start : Time) where
  -- An event that counts towards the window opened at `start`.
  pub record Counts (event : Event) (now : Time) : Type 0 where
    pub triggers : matches_trigger go ev rule event ≡ says true
    pub recovers_not : matches_recovery go ev rule event ≡ says false
    pub same_key : deduplication_key_hash go rule event ≡ key
    pub clock_set : now ≢ 0
    pub in_time : now ≤ add_seconds start rule.aggregation_window_seconds

  abbrev pub CountsAt : Event × Time → Type 0
  CountsAt (event, now) = Counts event now

  -- The state of a rule that has counted `c` matches since `start`.
  pub record Counting (c : ℕ) (s : RuleState) : Type 0 where
    pub of_rule : s.rule_id ≡ rule.id
    pub of_key : s.deduplication_key_hash ≡ key
    pub waiting : s.phase ≡ idle
    pub opened : s.window_started_at ≡ some start
    pub counted : s.window_match_count ≡ c

  abbrev pub IsUsable : Type 0
  IsUsable = (validate go ev rule ≡ none) × (leb_ℤ rule.id (pos 0) ≡ false)

  belongs :
      (c : ℕ) (s : RuleState) (event : Event) (now : Time)
      → Counting c s
      → Counts event now
      → state_belongs go rule s event ≡ true
  unfolding state_belongs
  belongs c s event now k h = ground (
    arith,
    string_eq.beq_iff s.deduplication_key_hash (deduplication_key_hash go rule event),
    int_beq_iff s.rule_id rule.id,
  )

  evaluate-trigger :
      (c : ℕ) (s : RuleState) (event : Event) (now : Time)
      → IsUsable
      → Counting c s
      → Counts event now
      → evaluate go ev rule s event now ≡ evaluate_match rule s now
  unfolding evaluate
  evaluate-trigger c s event now u k h = ground (arith, belongs c s event now k h)

  count_step :
      (c : ℕ) (s : RuleState) (now : Time)
      → Counting c s
      → now ≤ add_seconds start rule.aggregation_window_seconds
      → ltb_ℤ (pos (c + 1)) rule.aggregation_count ≡ true
      → ((evaluate_match rule s now).decision ≡ decide_none)
        × Counting (c + 1) (evaluate_match rule s now).state
  unfolding evaluate_match
  count_step c s now k h below = (ground arith, ground arith)

  count_last :
      (c : ℕ) (s : RuleState) (now : Time)
      → Counting c s
      → now ≤ add_seconds start rule.aggregation_window_seconds
      → ltb_ℤ (pos (c + 1)) rule.aggregation_count ≡ false
      → (evaluate_match rule s now).decision ≡ notify
  unfolding evaluate_match
  count_last c s now k h full = ground arith

  -- A rule that still needs n + 1 matches in its window answers n matching events in a row with no
  -- decision and notifies at the next one, provided that all of them arrive before the window
  -- ends, carry its deduplication key and are no recovery.
  pub aggregation_exact :
      (c n : ℕ) (s : RuleState) (events : List (Event × Time))
      → IsUsable
      → Counting c s
      → rule.aggregation_count ≡ pos (c + suc n)
      → length events ≡ suc n
      → All CountsAt events
      → decisions go ev rule s events ≡ repeat n decide_none ++ notify ∷ []
  unfolding decisions
  aggregation_exact c n s [] u k a l h = absurd (omega arith)
  aggregation_exact c zero s ((event, now) ∷ []) u k a l h =
      rw (evaluate-trigger c s event now u k h.0)
        (rw (count_last c s now k h.0.in_time (rw a (ground arith))))
  aggregation_exact c zero s (x ∷ y ∷ rest) u k a l h = absurd (omega arith)
  aggregation_exact c (suc n) s ((event, now) ∷ rest) u k a l h =
      let (d, k') = count_step c s now k h.0.in_time (rw a (ground arith)) in
      rw (evaluate-trigger c s event now u k h.0) (
        cc (
          d,
          aggregation_exact (c + 1) n (evaluate_match rule s now).state rest u k'
              (rw a (ap pos (omega arith))) (omega arith) h.1,
        ))

-- A call that returns an error gives back the state as it was, and no decision.
pub evaluate_error_unchanged :
    (go : Stdlib) (ev : EventRules) (rule : Rule) (s : RuleState) (event : Event) (now : Time)
    {e : Error}
    → (evaluate go ev rule s event now).error ≡ some e
    → ((evaluate go ev rule s event now).state ≡ s)
      × ((evaluate go ev rule s event now).decision ≡ decide_none)
unfolding evaluate evaluate_recovery evaluate_match
evaluate_error_unchanged go ev rule s event now h = (ground arith, ground arith)

-- ===== src/Provider/Schedulable.antt =====
-- The two descriptions of a usable account agree.
use n2api.Base.{
  ℕ, String, ◌≡◌, refl, ◌↔◌, Bool, true, false, not, ◌&&◌, ◌||◌, List, [], ◌∷◌, arith, ◌==◌, nat_eq,
  string_eq, is_some, keep, ℤ, int_eq, is_pos,
}
use n2api.Go.{Stdlib}
use n2api.Provider.Account.{
  Account, AccountModel, Reason, usable, account_schedulable, account_unschedulable_reason,
  contains, selection_unschedulable_reason, schedulable_accounts, schedulable_loop, set_and_after,
}

-- accountUnschedulableReason gives no reason exactly for the accounts that AccountSchedulable
-- takes.
pub schedulable_iff :
    (a : Account) (now : ℕ)
    → (account_schedulable a now ≡ true) ↔ (account_unschedulable_reason a now ≡ usable)
unfolding account_schedulable account_unschedulable_reason
schedulable_iff a now = (ground arith, ground arith)

-- What AccountSchedulable asks of a status, without its ladder of cases.
abbrev pub status_fits : Account → Bool
status_fits a =
    (a.status == "" || a.status == "active")
    || (a.status == "rate_limited" && is_some a.rate_limited_until)
    || (a.status == "circuit_open" && is_some a.circuit_open_until)

limited_not_open : (s : String) → (s == "rate_limited") ≡ true → (s == "circuit_open") ≡ false
limited_not_open s h = rw ((string_eq.beq_iff s "rate_limited").0 h)

-- AccountSchedulable takes exactly the enabled accounts whose rate limit and open circuit, where
-- they have an end, do not last past now, and whose status is unset or active, or rate limited or
-- circuit open with such an end set.
pub account_schedulable_lem :
    (a : Account) (now : ℕ)
    → account_schedulable a now ≡ (
        a.enabled
        && not (set_and_after a.rate_limited_until now)
        && not (set_and_after a.circuit_open_until now)
        && status_fits a)
unfolding account_schedulable
account_schedulable_lem a now = ground (arith, limited_not_open a.status)

abbrev pub is_usable : Reason → Bool
is_usable usable = true
is_usable _ = false

abbrev pub any_enabled : List Account → Bool
any_enabled [] = false
any_enabled (a ∷ rest) = a.enabled || any_enabled rest

offered :
    (go : Stdlib) (a : Account) (endpoint : String) (excluded : List ℤ) (now : ℕ)
    (models : List AccountModel) (m : Bool)
    → (go.trim_space "" == "") ≡ true
    → is_usable (selection_unschedulable_reason go a "" endpoint excluded now models m)
      ≡ (a.enabled && not (contains a.id excluded) && account_schedulable a now)
unfolding selection_unschedulable_reason
offered go a endpoint excluded now models m t = ground (arith, schedulable_iff a now, t)

schedulable_loop-matches :
    (go : Stdlib) (endpoint : String) (excluded : List ℤ) (now : ℕ) (models : ℤ → List AccountModel)
    (m : Bool) (accounts : List Account)
    → (go.trim_space "" == "") ≡ true
    → schedulable_loop excluded now accounts ≡ (
      keep
          (λ a.
            is_usable
              (selection_unschedulable_reason go a "" endpoint excluded now (models a.id) m))
          accounts,
      any_enabled accounts,
    )
unfolding schedulable_loop
schedulable_loop-matches go endpoint excluded now models m [] t = refl
schedulable_loop-matches go endpoint excluded now models m (a ∷ rest) t = ground (
  arith,
  schedulable_loop-matches go endpoint excluded now models m rest t,
  offered go a endpoint excluded now (models a.id) m t,
)

-- For a request without a model, the candidates of the selection are exactly the accounts for
-- which the preview has no reason against, in their order, and the flag says whether any account
-- is enabled. Both look at the positive excluded IDs. Trimming the empty text gives the empty text.
pub candidates_match_reasons :
    (go : Stdlib) (endpoint : String) (excluded : List ℤ) (now : ℕ) (models : ℤ → List AccountModel)
    (m : Bool) (accounts : List Account)
    → (go.trim_space "" == "") ≡ true
    → schedulable_accounts excluded now accounts ≡ (
      keep
          (λ a. is_usable (
            selection_unschedulable_reason go a "" endpoint
              (keep is_pos excluded)
              now
              (models a.id)
              m))
          accounts,
      any_enabled accounts,
    )
unfolding schedulable_accounts
candidates_match_reasons go endpoint excluded now models m accounts t =
    schedulable_loop-matches go endpoint (keep is_pos excluded) now models m accounts t

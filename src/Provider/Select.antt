-- ===== src/Provider/Select.antt =====
-- provider/scheduling.go and provider/service.go: the choice of an account along a chain of
-- routing pools. Wrapping an error with %w changes its text and not what errors.Is tells of it: a
-- wrapped error is the error. The moment of a call, time.Now(), is an argument.
use n2api.Base.{
  ℕ, ◌+◌, String, Bool, true, false, not, ◌&&◌, ◌||◌, Option, none, some, List, [], ◌∷◌, map,
  if◌then◌else◌, ◌==◌, nat_eq, string_eq, keep, ℤ, is_pos, int_eq,
}
use n2api.Go.{Stdlib}
use n2api.Provider.Account.{Account, filter_accounts_by_endpoint}
use n2api.Provider.Chain.{
  SelectionError, found, refused, Result, ok, err, routing_pool_not_found, accounts_unavailable,
  accounts_disabled, invalid_input, routing_pool_empty, endpoint_unavailable, model_unavailable,
  is_pool_not_found,
}
use n2api.Provider.Repository.{SelectedAccount, no_account, Repository}

-- The four results of selectionCandidatesForRoutingPoolForEndpoint.
pub record Candidates : Type 0 where
  pub accounts : List Account
  pub has_enabled : Bool
  pub not_found : SelectionError
  pub failure : Option SelectionError

abbrev pub offer : List Account → Bool → SelectionError → Candidates
offer accounts has_enabled e = record {
  accounts = accounts;
  has_enabled = has_enabled;
  not_found = e;
  failure = none;
}

abbrev pub no_offer : SelectionError → Candidates
no_offer e = record {
  accounts = [];
  has_enabled = false;
  not_found = accounts_unavailable;
  failure = some e;
}

-- defaultCircuitOpen, five minutes
abbrev pub default_circuit_open : ℕ
default_circuit_open = 300000000000

abbrev pub normalized_excluded_account_ids : List ℤ → List ℤ
normalized_excluded_account_ids ids = keep is_pos ids

abbrev pub is_empty {ℓ} : {A : Type ℓ} → List A → Bool
is_empty [] = true
is_empty (_ ∷ _) = false

abbrev pub is_invalid_input : SelectionError → Bool
is_invalid_input invalid_input = true
is_invalid_input _ = false

abbrev pub is_routing_pool_empty : SelectionError → Bool
is_routing_pool_empty routing_pool_empty = true
is_routing_pool_empty _ = false

module _ {S : Type 0} (go : Stdlib) (repo : Repository S) where
  -- recordSelectionFailure
  unfoldable pub record_selection_failure : ℕ → S → ℤ → SelectionError → S × Option SelectionError
  record_selection_failure now s account_id e =
      let text = go.trim_space (repo.error_text e) in
      let reason = if text == "" then "provider account selection failed" else text in
      if is_invalid_input e
      then repo.record_account_status s account_id "circuit_open" reason now none
          (some (now + default_circuit_open))
      else repo.mark_account_error s account_id reason now

  -- selectFromCandidates, after its loop
  abbrev pub nobody_selected :
      S → Bool → SelectionError → S × SelectedAccount × Option SelectionError
  nobody_selected s has_enabled not_found =
      (s, no_account, some (if has_enabled then not_found else accounts_disabled))

  unfoldable pub select_from_candidates :
      ℕ → S → List Account → Bool → SelectionError → S × SelectedAccount × Option SelectionError
  unfolding record_selection_failure
  select_from_candidates now s [] has_enabled not_found = nobody_selected s has_enabled not_found
  select_from_candidates now s (a ∷ rest) has_enabled not_found =
      let (s₁, selected) = repo.selected_account s a in
      elim selected [
        | ok account ↦ (s₁, account, none)
        | err e ↦
            let (s₂, mark) = record_selection_failure now s₁ a.id e in
            elim mark [
              | some m ↦ (s₂, no_account, some m)
              | none ↦ select_from_candidates now s₂ rest has_enabled not_found
            ]
      ]

  -- filterAccountsByEndpoint with its call of ListAccountModelsForAccounts
  unfoldable pub filter_listed : S → String → String → List Account → Result (List Account)
  filter_listed s model endpoint accounts =
      if go.trim_space model == "" || go.trim_space endpoint == "" || is_empty accounts
      then ok accounts
      else elim (repo.list_account_models_for_accounts s (map (λ (a : Account). a.id) accounts)) [
        | err e ↦ err e
        | ok models ↦ ok (filter_accounts_by_endpoint go model endpoint models accounts)
      ]

  -- listAccountsForRoutingPoolAndEndpoint
  unfoldable pub list_accounts : ℕ → S → ℤ → String → String → List ℤ → Result (List Account)
  unfolding filter_listed
  list_accounts now s pool_id model endpoint excluded =
      let listed =
        if not (endpoint == "") && repo.endpoint_aware
        then repo.list_accounts_for_routing_pool_and_endpoint s pool_id model endpoint excluded now
        else repo.list_accounts_for_routing_pool s pool_id model excluded now in
      elim listed [ err e ↦ err e | ok accounts ↦ filter_listed s model endpoint accounts ]

  -- selectionCandidatesForRoutingPoolForEndpoint, where every account is gone without exclusions
  unfoldable pub why_empty : ℕ → S → ℤ → String → String → Candidates
  why_empty now s pool_id model endpoint = elim (repo.routing_pool_has_accounts s pool_id) [
    | err e ↦ no_offer e
    | ok has_accounts ↦
        if not has_accounts
        then offer [] true routing_pool_empty
        else if model == ""
        then offer [] true routing_pool_empty
        else elim (repo.list_accounts_for_routing_pool s pool_id model [] now) [
          | err e ↦ no_offer e
          | ok base ↦ offer [] true (
              if not (endpoint == "") && not (is_empty base)
              then endpoint_unavailable
              else model_unavailable)
        ]
  ]

  -- selectionCandidatesForRoutingPoolForEndpoint
  unfoldable pub pool_candidates : ℕ → S → ℤ → String → String → List ℤ → Candidates
  unfolding list_accounts why_empty
  pool_candidates now s pool_id model_text endpoint excluded =
      let model = go.trim_space model_text in
      elim (repo.find_routing_pool s pool_id) [
        | refused e ↦
            if is_pool_not_found e then offer [] true routing_pool_not_found else no_offer e
        | found pool ↦
            if not pool.enabled
            then offer [] false accounts_disabled
            else elim (list_accounts now s pool_id model endpoint
                (normalized_excluded_account_ids excluded)) [
                  | err e ↦ no_offer e
                  | ok (a ∷ rest) ↦ offer (a ∷ rest) true accounts_unavailable
                  | ok [] ↦ elim (list_accounts now s pool_id model endpoint []) [
                    | err e ↦ no_offer e
                    | ok (_ ∷ _) ↦ offer [] true accounts_unavailable
                    | ok [] ↦ why_empty now s pool_id model endpoint
                  ]
                ]
      ]

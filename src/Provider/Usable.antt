-- ===== src/Provider/Usable.antt =====
-- provider/scheduling.go: the accounts that selectFromCandidates tries, up to the first usable one.
use n2api.Base.{
  ℕ, ◌≡◌, sym, ap, ◌∙◌, inl, inr, Bool, Option, none, some, List, [], ◌∷◌, ◌++◌, nat_eq, string_eq,
  Option-cases, int_eq,
}
use mathlib.Core.List.{append_assoc}
use n2api.Go.{Stdlib}
use n2api.Provider.Offered.{result-cases}
use n2api.Provider.Account.{Account}
use n2api.Provider.Chain.{SelectionError, ok, err}
use n2api.Provider.Repository.{SelectedAccount, no_account, Repository}
use n2api.Provider.Select.{record_selection_failure, select_from_candidates}

module _ {S : Type 0} (go : Stdlib) (repo : Repository S) where
  -- Accounts tried in turn, none of which has usable credentials; each failure is put on record.
  pub data Skipped (now : ℕ) (s : S) : List Account → S → Type 0 where
    none_skipped : Skipped now s [] s
    skip :
        {skipped : List Account} {s₀ s₁ s₂ : S} {a : Account} {e : SelectionError}
        → Skipped now s skipped s₀
        → repo.selected_account s₀ a ≡ (s₁, err e)
        → record_selection_failure go repo now s₁ a.id e ≡ (s₂, none)
        → Skipped now s (skipped ++ (a ∷ [])) s₂

  -- The result of a selection from the accounts `all`: the first one with usable credentials.
  abbrev pub FirstUsable : ℕ → S → List Account → S → SelectedAccount → Type 0
  FirstUsable now s accounts s' selected =
      (before after : List Account) × (a : Account) × (s₀ : S) × (accounts ≡ before ++ (a ∷ after))
      × Skipped now s before s₀
      × (repo.selected_account s₀ a ≡ (s', ok selected))

  pub FirstUsable-from :
      (now : ℕ) (start : S) (accounts : List Account) (skipped rest : List Account) (s : S)
      (h : Bool) (n : SelectionError) (s' : S) (selected : SelectedAccount)
      → Skipped now start skipped s
      → accounts ≡ skipped ++ rest
      → select_from_candidates go repo now s rest h n ≡ (s', selected, none)
      → FirstUsable now start accounts s' selected
  unfolding select_from_candidates
  FirstUsable-from now start accounts skipped [] s h n s' selected sk e r = cc
  FirstUsable-from now start accounts skipped (a ∷ rest) s h n s' selected sk e r =
      let s₁ = (repo.selected_account s a).0 in
      elim (result-cases (repo.selected_account s a).1) [
        | inl (x, p) ↦
            let t : ◌≡◌ {A = S × SelectedAccount × Option SelectionError} (s₁, x, none)
                (s', selected, none) =
              rw (p, select_from_candidates) at r in
            (
              skipped,
              rest,
              a,
              s,
              e,
              sk,
              λ i. (
                (t i).0,
                (p ∙ ap (λ (y : S × SelectedAccount × Option SelectionError). ok y.1) t) i,
              ),
            )
        | inr (w, p) ↦
            let s₂ = (record_selection_failure go repo now s₁ a.id w).0 in
            elim (Option-cases (record_selection_failure go repo now s₁ a.id w).1) [
              | inl q ↦
                  FirstUsable-from now start accounts (skipped ++ (a ∷ [])) rest s₂ h n s' selected
                    (skip sk (λ i. (s₁, p i)) (λ i. (s₂, q i)))
                    (e ∙ sym (append_assoc skipped (a ∷ []) rest))
                    (rw (p, q, select_from_candidates) at r)
              | inr (m, q) ↦
                  let t : ◌≡◌ {A = S × SelectedAccount × Option SelectionError}
                      (s₂, no_account, some m) (s', selected, none) =
                    rw (p, q, select_from_candidates) at r in
                  let u : some m ≡ none =
                    ap (λ (y : S × SelectedAccount × Option SelectionError). y.2) t in
                  cc
            ]
      ]

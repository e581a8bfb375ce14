-- ===== src/Store/Budget/Admission.antt =====
-- Admission keeps the ledger of store/api_key_budget_ledger.go sound.
use n2api.Base.{
  ℕ, suc, ◌<◌, String, ◌≡◌, sym, subst, ◌⊎◌, inl, inr, false, none, some, List, [], ◌∷◌, arith,
  ◌==◌, nat_eq, string_eq, Bool-cases, Option-cases, All, ℤ, int_eq, row_with,
}
use n2api.Go.{Stdlib}
use n2api.Store.Budget.Tables.{Admission, Database, Reply}
use n2api.Store.Budget.Admit.{
  BudgetAdmission, new_admission, one_request, insert_admission, admit_api_key_budget,
}
use n2api.Store.Budget.Balance.{
  requests_per_day, requests_per_month, tokens_per_day, tokens_per_month, cost_per_day,
  cost_per_month, IsSound, Grows, charge-IsBalanced,
}

-- A new row: the ledger stays sound where the row's ID and admission ID are fresh.
pub fresh_ids :
    (next : ℕ) (admissions : List Admission)
    → All (λ (a : Admission). a.id < next) admissions
    → All (λ (a : Admission). (a.id == next) ≡ false) admissions
fresh_ids next [] h = tt
fresh_ids next (a ∷ rest) h = (ground (arith, h.0), fresh_ids next rest h.1)

pub fresh_admission_ids :
    (id : String) (admissions : List Admission)
    → row_with (λ (a : Admission). a.admission_id) id admissions ≡ none
    → All (λ (a : Admission). (a.admission_id == id) ≡ false) admissions
fresh_admission_ids id [] h = tt
fresh_admission_ids id (a ∷ rest) h = elim (Bool-cases (a.admission_id == id)) [
  | inl e ↦ let p : some a ≡ none = rw e at h in cc
  | inr e ↦ (e, fresh_admission_ids id rest (rw e at h))
]

pub issued_later :
    (next : ℕ) (admissions : List Admission)
    → All (λ (a : Admission). a.id < next) admissions
    → All (λ (a : Admission). a.id < suc next) admissions
issued_later next [] h = tt
issued_later next (a ∷ rest) h = (omega (arith, h.0), issued_later next rest h.1)

new_admission-Grows :
    (id : ℕ) (key : ℤ) (admission_id : String) (at : ℕ) (admissions : List Admission)
    → Grows admissions (new_admission id key admission_id at ∷ admissions) key one_request
new_admission-Grows id key admission_id at admissions requests_per_day k = ground arith
new_admission-Grows id key admission_id at admissions requests_per_month k = ground arith
new_admission-Grows id key admission_id at admissions tokens_per_day k = ground arith
new_admission-Grows id key admission_id at admissions tokens_per_month k = ground arith
new_admission-Grows id key admission_id at admissions cost_per_day k = ground arith
new_admission-Grows id key admission_id at admissions cost_per_month k = ground arith

insert_admission-IsSound :
    (db : Database) (key : ℤ) (admission_id : String) (at : ℕ)
    → IsSound db
    → IsSound (insert_admission db key admission_id at).0
unfolding insert_admission
insert_admission-IsSound db key admission_id at h =
    elim (Option-cases (row_with (λ (a : Admission). a.admission_id) admission_id db.admissions)) [
      | inr (a, e) ↦ rw (e, insert_admission) h
      | inl e ↦
          rw (e, insert_admission)
            (record {
              balanced =
                  charge-IsBalanced db.admissions
                    (new_admission db.next_id key admission_id at ∷ db.admissions) key one_request
                    at db.states (new_admission-Grows db.next_id key admission_id at db.admissions)
                    h.balanced;
              unique_ids = (fresh_ids db.next_id db.admissions h.issued, h.unique_ids);
              unique_admission_ids =
                  (fresh_admission_ids admission_id db.admissions e, h.unique_admission_ids);
              issued = (omega arith, issued_later db.next_id db.admissions h.issued);
            })
    ]

-- A reply leaves the database as it was, or comes from a new row.
admit-cases :
    (go : Stdlib) (db : Database) (key : ℤ) (admission_id : String) (at : ℕ)
    → ((admit_api_key_budget go db key admission_id at).0 ≡ db)
      ⊎ (admit_api_key_budget go db key admission_id at ≡ insert_admission db key admission_id at)
unfolding admit_api_key_budget
admit-cases go db key admission_id at = ground arith

pub admit-IsSound :
    (go : Stdlib) (db : Database) (key : ℤ) (admission_id : String) (at : ℕ)
    → IsSound db
    → IsSound (admit_api_key_budget go db key admission_id at).0
admit-IsSound go db key admission_id at h = elim (admit-cases go db key admission_id at) [
  | inl e ↦ subst IsSound (sym e) h
  | inr e ↦
      subst (λ (r : Database × Reply BudgetAdmission). IsSound r.0) (sym e)
        (insert_admission-IsSound db key admission_id at h)
]

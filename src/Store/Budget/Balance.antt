-- ===== src/Store/Budget/Balance.antt =====
-- What the counters of store/api_key_budget_ledger.go stand for: sums over the admissions.
use n2api.Base.{
  ℕ, ◌+◌, ◌-◌, ◌<◌, ◌≡◌, refl, sym, subst, not, ◌&&◌, some, List, arith, if◌then◌else◌, KeyEq, ◌==◌,
  nat_eq, string_eq, All, ℤ, int_eq, sum_of, update_where, All-update_where, row_with, update_row,
  IsUnique, sum_of-update_row, IsUnique-same_keys, map-update_row, All-update_row, All-map,
}
use n2api.Store.Budget.Tables.{Admission, BudgetState, Database, Amounts, charge, discharge, of_key}
use n2api.Store.Budget.Maintain.{usage_charged}

-- The six counters of a state.
pub data Counter : Type 0 where
  requests_per_day requests_per_month tokens_per_day tokens_per_month : Counter
  cost_per_day cost_per_month : Counter

abbrev pub counter_of : Counter → BudgetState → ℕ
counter_of requests_per_day st = st.requests_24h
counter_of requests_per_month st = st.requests_30d
counter_of tokens_per_day st = st.tokens_24h
counter_of tokens_per_month st = st.tokens_30d
counter_of cost_per_day st = st.cost_24h
counter_of cost_per_month st = st.cost_30d

abbrev pub amount_of : Counter → Amounts → ℕ
amount_of requests_per_day t = t.requests_24h
amount_of requests_per_month t = t.requests_30d
amount_of tokens_per_day t = t.tokens_24h
amount_of tokens_per_month t = t.tokens_30d
amount_of cost_per_day t = t.cost_24h
amount_of cost_per_month t = t.cost_30d

-- What an admission counts for: a request in each window it has not left, and its observed usage
-- there once it is settled, if it was settled before the window's end.
abbrev pub weight : Counter → Admission → ℕ
weight requests_per_day a = if a.expired_24h then 0 else 1
weight requests_per_month a = if a.expired_30d then 0 else 1
weight tokens_per_day a =
    if not a.expired_24h && usage_charged a a.expires_24h then a.observed_tokens else 0
weight tokens_per_month a =
    if not a.expired_30d && usage_charged a a.expires_30d then a.observed_tokens else 0
weight cost_per_day a =
    if not a.expired_24h && usage_charged a a.expires_24h then a.observed_cost else 0
weight cost_per_month a =
    if not a.expired_30d && usage_charged a a.expires_30d then a.observed_cost else 0

abbrev pub weight_for : ℤ → Counter → Admission → ℕ
weight_for key c a = if key == a.client_key_id then weight c a else 0

-- What a counter of a key must be.
abbrev pub owed : List Admission → ℤ → Counter → ℕ
owed admissions key c = sum_of (weight_for key c) admissions

abbrev pub IsBalanced : List Admission → BudgetState → Type 0
IsBalanced admissions st = (c : Counter) → counter_of c st ≡ owed admissions st.client_key_id c

-- The ledger is sound: every counter is what the admissions add up to, the IDs of the admissions
-- are unique, and the sequence is past them.
pub record IsSound (db : Database) : Type 0 where
  pub balanced : All (IsBalanced db.admissions) db.states
  pub unique_ids : IsUnique (λ (a : Admission). a.id) db.admissions
  pub unique_admission_ids : IsUnique (λ (a : Admission). a.admission_id) db.admissions
  pub issued : All (λ (a : Admission). a.id < db.next_id) db.admissions

-- The amounts for one key by which the admissions grow and shrink.
abbrev pub Grows : List Admission → List Admission → ℤ → Amounts → Type 0
Grows before after key t =
    (c : Counter) (k : ℤ)
    → owed after k c ≡ owed before k c + (if k == key then amount_of c t else 0)

abbrev pub Shrinks : List Admission → List Admission → ℤ → Amounts → Type 0
Shrinks before after key t =
    (c : Counter) (k : ℤ)
    → owed after k c + (if k == key then amount_of c t else 0) ≡ owed before k c

counter_of-charge :
    (c : Counter) (t : Amounts) (at : ℕ) (st : BudgetState)
    → counter_of c (charge t at st) ≡ counter_of c st + amount_of c t
counter_of-charge requests_per_day t at st = refl
counter_of-charge requests_per_month t at st = refl
counter_of-charge tokens_per_day t at st = refl
counter_of-charge tokens_per_month t at st = refl
counter_of-charge cost_per_day t at st = refl
counter_of-charge cost_per_month t at st = refl

counter_of-discharge :
    (c : Counter) (t : Amounts) (at : ℕ) (st : BudgetState)
    → counter_of c (discharge t at st) ≡ counter_of c st - amount_of c t
counter_of-discharge requests_per_day t at st = refl
counter_of-discharge requests_per_month t at st = refl
counter_of-discharge tokens_per_day t at st = refl
counter_of-discharge tokens_per_month t at st = refl
counter_of-discharge cost_per_day t at st = refl
counter_of-discharge cost_per_month t at st = refl

-- An UPDATE that writes the states of one key keeps all states balanced where it adds to their
-- counters what the admissions have grown by.
pub update_where-IsBalanced :
    (before after : List Admission) (key : ℤ) (t : Amounts) (f : BudgetState → BudgetState)
    (states : List BudgetState)
    → Grows before after key t
    → ((st : BudgetState) → (f st).client_key_id ≡ st.client_key_id)
    → ((c : Counter) (st : BudgetState) → counter_of c (f st) ≡ counter_of c st + amount_of c t)
    → All (IsBalanced before) states
    → All (IsBalanced after) (update_where (of_key key) f states)
update_where-IsBalanced before after key t f states g same adds h =
    All-update_where (IsBalanced before) (IsBalanced after) (of_key key) f states h
      (λ st b e c.
        let p : owed after st.client_key_id c ≡ owed before st.client_key_id c + amount_of c t =
          rw e at (g c st.client_key_id) in
        let q : counter_of c (f st) ≡ owed after st.client_key_id c =
          omega (arith, adds c st, b c, p) in
        subst (λ k. counter_of c (f st) ≡ owed after k c) (sym (same st)) q)
      (λ st b e c. rw (b c, g c st.client_key_id, e) (omega arith))

pub charge-IsBalanced :
    (before after : List Admission) (key : ℤ) (t : Amounts) (at : ℕ) (states : List BudgetState)
    → Grows before after key t
    → All (IsBalanced before) states
    → All (IsBalanced after) (update_where (of_key key) (charge t at) states)
charge-IsBalanced before after key t at states g h =
    update_where-IsBalanced before after key t (charge t at) states g (λ st. refl)
      (λ c st. counter_of-charge c t at st) h

pub discharge-IsBalanced :
    (before after : List Admission) (key : ℤ) (t : Amounts) (at : ℕ) (states : List BudgetState)
    → Shrinks before after key t
    → All (IsBalanced before) states
    → All (IsBalanced after) (update_where (of_key key) (discharge t at) states)
discharge-IsBalanced before after key t at states g h =
    All-update_where (IsBalanced before) (IsBalanced after) (of_key key) (discharge t at) states h
      (λ st b e c.
        let p : owed after st.client_key_id c + amount_of c t ≡ owed before st.client_key_id c =
          rw e at (g c st.client_key_id) in
        omega (arith, counter_of-discharge c t at st, b c, p))
      (λ st b e c.
        let p : owed after st.client_key_id c + 0 ≡ owed before st.client_key_id c =
          rw e at (g c st.client_key_id) in
        omega (arith, b c, p))

-- A function on admissions that leaves their IDs and their keys alone.
pub record KeepsIds (f : Admission → Admission) : Type 0 where
  pub keeps_id : (a : Admission) → (f a).id ≡ a.id
  pub keeps_admission_id : (a : Admission) → (f a).admission_id ≡ a.admission_id
  pub keeps_key : (a : Admission) → (f a).client_key_id ≡ a.client_key_id

module _ {K : Type 0} ⦃e : KeyEq K⦄ (column : Admission → K) (f : Admission → Admission)
    (keeps : KeepsIds f) where
  owed-update_row :
      (k : K) (admissions : List Admission) (r : Admission) (c : Counter) (key : ℤ)
      → row_with column k admissions ≡ some r
      → owed (update_row column k f admissions) key c
          + (if key == r.client_key_id then weight c r else 0)
        ≡ owed admissions key c + (if key == r.client_key_id then weight c (f r) else 0)
  owed-update_row k admissions r c key h =
      subst
        (λ j.
          owed (update_row column k f admissions) key c
            + (if key == r.client_key_id then weight c r else 0)
          ≡ owed admissions key c + (if key == j then weight c (f r) else 0))
        (keeps.keeps_key r) (sum_of-update_row column (weight_for key c) f k admissions r h)

  pub update_row-Grows :
      (k : K) (admissions : List Admission) (r : Admission) (t : Amounts)
      → row_with column k admissions ≡ some r
      → ((c : Counter) → weight c (f r) ≡ weight c r + amount_of c t)
      → Grows admissions (update_row column k f admissions) r.client_key_id t
  update_row-Grows k admissions r t h w c key =
      ground (arith, owed-update_row k admissions r c key h, w c)

  pub update_row-Shrinks :
      (k : K) (admissions : List Admission) (r : Admission) (t : Amounts)
      → row_with column k admissions ≡ some r
      → ((c : Counter) → weight c (f r) + amount_of c t ≡ weight c r)
      → Shrinks admissions (update_row column k f admissions) r.client_key_id t
  update_row-Shrinks k admissions r t h w c key =
      ground (arith, owed-update_row k admissions r c key h, w c)

  -- Writing one admission keeps the ledger sound where the states are balanced again.
  pub update_row-IsSound :
      (db : Database) (k : K) (states : List BudgetState)
      → IsSound db
      → All (IsBalanced (update_row column k f db.admissions)) states
      → IsSound (record db { admissions = update_row column k f db.admissions; states = states })
  update_row-IsSound db k states h b = record {
    balanced = b;
    unique_ids =
        IsUnique-same_keys (λ (a : Admission). a.id) db.admissions
          (update_row column k f db.admissions)
          (sym (map-update_row column (λ (a : Admission). a.id) f k db.admissions keeps.keeps_id))
          h.unique_ids;
    unique_admission_ids =
        IsUnique-same_keys (λ (a : Admission). a.admission_id) db.admissions
          (update_row column k f db.admissions)
          (sym (
            map-update_row column (λ (a : Admission). a.admission_id) f k db.admissions
              keeps.keeps_admission_id))
          h.unique_admission_ids;
    issued =
        All-update_row column (λ (a : Admission). a.id < db.next_id) f k db.admissions
          (λ a l. subst (λ i. i < db.next_id) (sym (keeps.keeps_id a)) l) h.issued;
  }

abbrev pub zero_amounts : Amounts
zero_amounts = record {
  requests_24h = 0;
  requests_30d = 0;
  tokens_24h = 0;
  tokens_30d = 0;
  cost_24h = 0;
  cost_30d = 0;
}

-- Where no weight changes, the states stay balanced.
pub grown_by_none :
    (before after : List Admission) (key : ℤ) (states : List BudgetState)
    → Grows before after key zero_amounts
    → All (IsBalanced before) states
    → All (IsBalanced after) states
grown_by_none before after key states g h =
    All-map (IsBalanced before) (IsBalanced after) states h
      (λ st b c. ground (arith, b c, g c st.client_key_id, amount_of-zero c))
  where
    amount_of-zero : (c : Counter) → amount_of c zero_amounts ≡ 0
    amount_of-zero requests_per_day = refl
    amount_of-zero requests_per_month = refl
    amount_of-zero tokens_per_day = refl
    amount_of-zero tokens_per_month = refl
    amount_of-zero cost_per_day = refl
    amount_of-zero cost_per_month = refl

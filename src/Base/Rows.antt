-- ===== src/Base/Rows.antt =====
-- Tables of a database as lists of rows, with a column whose values are unique: reading and
-- writing the row with a value, and sums over all rows.
use Prim.Native.Nat.{ℕ, zero, suc, ◌+◌}
use mathlib.Core.Path.{◌≡◌, refl, sym, ap, ◌∙◌, subst}
use mathlib.Core.Logic.{inl, inr}
use mathlib.Core.Bool.{Bool, true, false}
use mathlib.Core.Option.{Option, none, some}
use mathlib.Core.List.{List, [], ◌∷◌, ◌++◌, map}
use native.Mathlib.Omega.{arith}
use n2api.Base.Tests.{KeyEq, ◌==◌, if◌then◌else◌, Bool-cases}
use n2api.Base.Lists.{All, keep, take}

module _ {ℓ} {A : Type ℓ} where
  -- The sum of a measure over all rows.
  abbrev pub sum_of : (A → ℕ) → List A → ℕ
  sum_of m [] = 0
  sum_of m (x ∷ xs) = m x + sum_of m xs

  pub sum_of-append : (m : A → ℕ) (xs ys : List A) → sum_of m (xs ++ ys) ≡ sum_of m xs + sum_of m ys
  sum_of-append m [] ys = omega arith
  sum_of-append m (x ∷ xs) ys = omega (arith, sum_of-append m xs ys)

  -- UPDATE of all rows that pass a test.
  abbrev pub update_where : (A → Bool) → (A → A) → List A → List A
  update_where p f [] = []
  update_where p f (x ∷ xs) = (if p x then f x else x) ∷ update_where p f xs

  pub All-update_where {κ} :
      (P Q : A → Type κ) (p : A → Bool) (f : A → A) (xs : List A)
      → All P xs
      → ((x : A) → P x → p x ≡ true → Q (f x))
      → ((x : A) → P x → p x ≡ false → Q x)
      → All Q (update_where p f xs)
  All-update_where P Q p f [] h yes_case no_case = tt
  All-update_where P Q p f (x ∷ xs) h yes_case no_case = elim (Bool-cases (p x)) [
    | inl e ↦ rw e (yes_case x h.0 e, All-update_where P Q p f xs h.1 yes_case no_case)
    | inr e ↦ rw e (no_case x h.0 e, All-update_where P Q p f xs h.1 yes_case no_case)
  ]

  -- ORDER BY: a row goes before the later ones that it may precede.
  abbrev pub insert_by : (A → A → Bool) → A → List A → List A
  insert_by le x [] = x ∷ []
  insert_by le x (y ∷ ys) = if le x y then x ∷ y ∷ ys else y ∷ insert_by le x ys

  abbrev pub sort_by : (A → A → Bool) → List A → List A
  sort_by le [] = []
  sort_by le (x ∷ xs) = insert_by le x (sort_by le xs)

  pub All-keep {κ} : (P : A → Type κ) (p : A → Bool) (xs : List A) → All P xs → All P (keep p xs)
  All-keep P p [] h = tt
  All-keep P p (x ∷ xs) h = elim (Bool-cases (p x)) [
    | inl e ↦ rw e (h.0, All-keep P p xs h.1)
    | inr e ↦ rw e (All-keep P p xs h.1)
  ]

  pub All-kept : (p : A → Bool) (xs : List A) → All (λ x. p x ≡ true) (keep p xs)
  All-kept p [] = tt
  All-kept p (x ∷ xs) = elim (Bool-cases (p x)) [
    | inl e ↦ rw e (e, All-kept p xs)
    | inr e ↦ rw e (All-kept p xs)
  ]

  pub All-both {κ ι} :
      (P : A → Type κ) (Q : A → Type ι) (xs : List A)
      → All P xs
      → All Q xs
      → All (λ x. P x × Q x) xs
  All-both P Q [] h k = tt
  All-both P Q (x ∷ xs) h k = ((h.0, k.0), All-both P Q xs h.1 k.1)

  pub All-map {κ ι} :
      (P : A → Type κ) (Q : A → Type ι) (xs : List A) → All P xs → ((x : A) → P x → Q x) → All Q xs
  All-map P Q [] h f = tt
  All-map P Q (x ∷ xs) h f = (f x h.0, All-map P Q xs h.1 f)

  pub All-take {κ} : (P : A → Type κ) (n : ℕ) (xs : List A) → All P xs → All P (take n xs)
  All-take P zero xs h = tt
  All-take P (suc n) [] h = tt
  All-take P (suc n) (x ∷ xs) h = (h.0, All-take P n xs h.1)

  pub All-insert_by {κ} :
      (P : A → Type κ) (le : A → A → Bool) (x : A) (xs : List A)
      → P x
      → All P xs
      → All P (insert_by le x xs)
  All-insert_by P le x [] p h = (p, tt)
  All-insert_by P le x (y ∷ ys) p h = elim (Bool-cases (le x y)) [
    | inl e ↦ rw e (p, h)
    | inr e ↦ rw e (h.0, All-insert_by P le x ys p h.1)
  ]

  pub All-sort_by {κ} :
      (P : A → Type κ) (le : A → A → Bool) (xs : List A) → All P xs → All P (sort_by le xs)
  All-sort_by P le [] h = tt
  All-sort_by P le (x ∷ xs) h = All-insert_by P le x (sort_by le xs) h.0 (All-sort_by P le xs h.1)

module _ {ℓ κ} {A : Type ℓ} {K : Type κ} ⦃e : KeyEq K⦄ (key : A → K) where
  -- SELECT of the row with a value in the unique column.
  abbrev pub row_with : K → List A → Option A
  row_with k [] = none
  row_with k (x ∷ xs) = if key x == k then some x else row_with k xs

  -- UPDATE of the row with a value in the unique column.
  abbrev pub update_row : K → (A → A) → List A → List A
  update_row k f [] = []
  update_row k f (x ∷ xs) = if key x == k then f x ∷ xs else x ∷ update_row k f xs

  -- No value stands in the column twice.
  abbrev pub IsUnique : List A → Type 0
  IsUnique [] = Unit
  IsUnique (x ∷ xs) = All (λ y. (key y == key x) ≡ false) xs × IsUnique xs

  -- Each of these rows stands in the table as it is.
  abbrev pub Holds : List A → List A → Type ℓ
  Holds rows cs = All (λ c. row_with (key c) rows ≡ some c) cs

  pub sum_of-update_row :
      (m : A → ℕ) (f : A → A) (k : K) (xs : List A) (r : A)
      → row_with k xs ≡ some r
      → sum_of m (update_row k f xs) + m r ≡ sum_of m xs + m (f r)
  sum_of-update_row m f k [] r h = cc
  sum_of-update_row m f k (x ∷ xs) r h = elim (Bool-cases (key x == k)) [
    | inl p ↦ let q : some x ≡ some r = rw p at h in let s : x ≡ r = cc in rw (p, s) (omega arith)
    | inr p ↦
        let q : row_with k xs ≡ some r = rw p at h in
        rw p (omega (arith, sum_of-update_row m f k xs r q))
  ]

  key_sym : (a b : K) → (a == b) ≡ false → (b == a) ≡ false
  key_sym a b h = elim (Bool-cases (b == a)) [
    | inl p ↦
        let q : b ≡ a = (e.beq_iff b a).0 p in
        let s : (a == b) ≡ true = (e.beq_iff a b).1 (sym q) in cc
    | inr p ↦ p
  ]

  pub key_refl : (a : K) → (a == a) ≡ true
  key_refl a = (e.beq_iff a a).1 refl

  row_with-skip :
      (k : K) (x : A) (rows : List A) (r : A)
      → row_with k rows ≡ some r
      → (key x == k) ≡ false
      → row_with k (x ∷ rows) ≡ some r
  row_with-skip k x rows r h p = rw p h

  Holds-skip :
      (x : A) (rows cs : List A)
      → Holds rows cs
      → All (λ c. (key c == key x) ≡ false) cs
      → Holds (x ∷ rows) cs
  Holds-skip x rows [] h d = tt
  Holds-skip x rows (c ∷ cs) h d = (
    row_with-skip (key c) x rows c h.0 (key_sym (key c) (key x) d.0),
    Holds-skip x rows cs h.1 d.1,
  )

  pub Holds-self : (rows : List A) → IsUnique rows → Holds rows rows
  Holds-self [] u = tt
  Holds-self (x ∷ rows) u =
      (rw (key_refl (key x)) refl, Holds-skip x rows rows (Holds-self rows u.1) u.0)

  pub IsUnique-keep : (p : A → Bool) (xs : List A) → IsUnique xs → IsUnique (keep p xs)
  IsUnique-keep p [] u = tt
  IsUnique-keep p (x ∷ xs) u = elim (Bool-cases (p x)) [
    | inl h ↦ rw h (All-keep (λ y. (key y == key x) ≡ false) p xs u.0, IsUnique-keep p xs u.1)
    | inr h ↦ rw h (IsUnique-keep p xs u.1)
  ]

  pub IsUnique-take : (n : ℕ) (xs : List A) → IsUnique xs → IsUnique (take n xs)
  IsUnique-take zero xs u = tt
  IsUnique-take (suc n) [] u = tt
  IsUnique-take (suc n) (x ∷ xs) u =
      (All-take (λ y. (key y == key x) ≡ false) n xs u.0, IsUnique-take n xs u.1)

  IsUnique-insert_by :
      (le : A → A → Bool) (x : A) (xs : List A)
      → All (λ y. (key y == key x) ≡ false) xs
      → IsUnique xs
      → IsUnique (insert_by le x xs)
  IsUnique-insert_by le x [] d u = (tt, tt)
  IsUnique-insert_by le x (y ∷ ys) d u = elim (Bool-cases (le x y)) [
    | inl h ↦ rw h (d, u)
    | inr h ↦ rw h (
      All-insert_by (λ z. (key z == key y) ≡ false) le x ys (key_sym (key y) (key x) d.0) u.0,
      IsUnique-insert_by le x ys d.1 u.1,
    )
  ]

  pub IsUnique-sort_by : (le : A → A → Bool) (xs : List A) → IsUnique xs → IsUnique (sort_by le xs)
  IsUnique-sort_by le [] u = tt
  IsUnique-sort_by le (x ∷ xs) u =
      IsUnique-insert_by le x (sort_by le xs)
        (All-sort_by (λ y. (key y == key x) ≡ false) le xs u.0) (IsUnique-sort_by le xs u.1)

  All-same_keys :
      (k : K) (xs ys : List A)
      → map key xs ≡ map key ys
      → All (λ c. (key c == k) ≡ false) xs
      → All (λ c. (key c == k) ≡ false) ys
  All-same_keys k [] [] h d = tt
  All-same_keys k [] (y ∷ ys) h d = cc
  All-same_keys k (x ∷ xs) [] h d = cc
  All-same_keys k (x ∷ xs) (y ∷ ys) h d =
      let p : key x ≡ key y = cc in
      let q : map key xs ≡ map key ys = cc in
      (subst (λ a. (a == k) ≡ false) p d.0, All-same_keys k xs ys q d.1)

  -- Uniqueness is a matter of the column alone.
  pub IsUnique-same_keys : (xs ys : List A) → map key xs ≡ map key ys → IsUnique xs → IsUnique ys
  IsUnique-same_keys [] [] h u = tt
  IsUnique-same_keys [] (y ∷ ys) h u = cc
  IsUnique-same_keys (x ∷ xs) [] h u = cc
  IsUnique-same_keys (x ∷ xs) (y ∷ ys) h u =
      let p : key x ≡ key y = cc in
      let q : map key xs ≡ map key ys = cc in
      (
        All-same_keys (key y) xs ys q (subst (λ a. All (λ c. (key c == a) ≡ false) xs) p u.0),
        IsUnique-same_keys xs ys q u.1,
      )

  pub map-update_row {ι} :
      {B : Type ι} (g : A → B) (f : A → A) (k : K) (xs : List A)
      → ((x : A) → g (f x) ≡ g x)
      → map g (update_row k f xs) ≡ map g xs
  map-update_row g f k [] same = refl
  map-update_row g f k (x ∷ xs) same = elim (Bool-cases (key x == k)) [
    | inl p ↦ rw p (ap (λ b. b ∷ map g xs) (same x))
    | inr p ↦ rw p (ap (λ l. g x ∷ l) (map-update_row g f k xs same))
  ]

  pub All-update_row {ι} :
      (P : A → Type ι) (f : A → A) (k : K) (xs : List A)
      → ((x : A) → P x → P (f x))
      → All P xs
      → All P (update_row k f xs)
  All-update_row P f k [] keeps h = tt
  All-update_row P f k (x ∷ xs) keeps h = elim (Bool-cases (key x == k)) [
    | inl p ↦ rw p (keeps x h.0, h.1)
    | inr p ↦ rw p (h.0, All-update_row P f k xs keeps h.1)
  ]

  pub row_with-found : (k : K) (xs : List A) (r : A) → row_with k xs ≡ some r → key r ≡ k
  row_with-found k [] r h = cc
  row_with-found k (x ∷ xs) r h = elim (Bool-cases (key x == k)) [
    | inl p ↦
        let q : some x ≡ some r = rw p at h in
        let s : x ≡ r = cc in subst (λ y. key y ≡ k) s ((e.beq_iff (key x) k).0 p)
    | inr p ↦ row_with-found k xs r (rw p at h)
  ]

  module _ (f : A → A) (same : (x : A) → key (f x) ≡ key x) where
    -- Writing one row leaves the others as they are.
    pub row_with-update_row :
        (k j : K) (xs : List A) → (j == k) ≡ false → row_with j (update_row k f xs) ≡ row_with j xs
    row_with-update_row k j [] h = refl
    row_with-update_row k j (x ∷ xs) h = ground (
      arith,
      e.beq_iff (key x) k,
      e.beq_iff (key x) j,
      e.beq_iff j k,
      same x,
      row_with-update_row k j xs h,
    )

    pub Holds-update_row :
        (k : K) (xs cs : List A)
        → Holds xs cs
        → All (λ c. (key c == k) ≡ false) cs
        → Holds (update_row k f xs) cs
    Holds-update_row k xs [] h d = tt
    Holds-update_row k xs (c ∷ cs) h d =
        (row_with-update_row k (key c) xs d.0 ∙ h.0, Holds-update_row k xs cs h.1 d.1)

    -- The row that was written reads as it was written.
    pub row_with-update_row_self :
        (k : K) (xs : List A) (r : A)
        → row_with k xs ≡ some r
        → row_with k (update_row k f xs) ≡ some (f r)
    row_with-update_row_self k [] r h = cc
    row_with-update_row_self k (x ∷ xs) r h = elim (Bool-cases (key x == k)) [
      | inl p ↦
          let q : some x ≡ some r = rw p at h in
          let s : x ≡ r = cc in
          let t : (key (f x) == k) ≡ true = subst (λ j. (j == k) ≡ true) (sym (same x)) p in
          rw p (rw t (ap (λ y. some (f y)) s))
      | inr p ↦
          let t : row_with k (update_row k f xs) ≡ some (f r) =
            row_with-update_row_self k xs r (rw p at h) in
          rw p (rw p t)
    ]

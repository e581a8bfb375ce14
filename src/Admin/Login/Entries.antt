-- ===== src/Admin/Login/Entries.antt =====
-- The entries of the throttle as a map in the order of their use.
use n2api.Base.{
  ℕ, ◌+◌, ◌≤◌, ◌<◌, String, ◌≡◌, refl, true, none, some, List, [], ◌∷◌, ◌++◌, arith, if◌then◌else◌,
  ◌==◌, nat_eq, string_eq, is_some, length, length-append, All, All-append, int_eq,
}
use n2api.Admin.Login.Throttle.{Entry, find, without, touch}

pub find_key : (k : String) (es : List Entry) {e : Entry} → find k es ≡ some e → e.key ≡ k
unfolding find
find_key k [] h = cc
find_key k (x ∷ es) {e} h = ground (arith, string_eq.beq_iff x.key k, find_key k es {e = e})

pub find-without :
    (k j : String) (es : List Entry) → find j (without k es) ≡ (if k == j then none else find j es)
unfolding find without
find-without k j [] = ground arith
find-without k j (x ∷ es) = ground (
  arith,
  string_eq.beq_iff k j,
  string_eq.beq_iff x.key k,
  string_eq.beq_iff x.key j,
  find-without k j es,
)

find-snoc :
    (j : String) (es : List Entry) (e : Entry)
    → find j (es ++ e ∷ [])
      ≡ elim (find j es) [ some x ↦ some x | none ↦ if e.key == j then some e else none ]
unfolding find
find-snoc j [] e = refl
find-snoc j (x ∷ es) e = ground (arith, find-snoc j es e)

pub find-touch :
    (e : Entry) (now : ℕ) (j : String) (es : List Entry)
    → find j (touch e now es)
      ≡ (if e.key == j then some (record e { last_seen = now }) else find j es)
unfolding touch
find-touch e now j es =
    rw (find-snoc j (without e.key es) (record e { last_seen = now }), find-without e.key j es)
      (ground arith)

-- No key has two entries.
abbrev pub Distinct : List Entry → Type 0
Distinct [] = Unit
Distinct (e ∷ es) = (find e.key es ≡ none) × Distinct es

pub Distinct-without : (k : String) (es : List Entry) → Distinct es → Distinct (without k es)
unfolding without
Distinct-without k [] d = tt
Distinct-without k (x ∷ es) d = ground (arith, Distinct-without k es d.1, find-without k x.key es)

Distinct-snoc :
    (es : List Entry) (e : Entry) → Distinct es → find e.key es ≡ none → Distinct (es ++ e ∷ [])
unfolding find
Distinct-snoc [] e d h = (refl, tt)
Distinct-snoc (x ∷ es) e d h = (
  ground
      (arith, find-snoc x.key es e, string_eq.beq_iff x.key e.key, string_eq.beq_iff e.key x.key),
  Distinct-snoc es e d.1 (ground arith),
)

pub Distinct-touch :
    (e : Entry) (now : ℕ) (es : List Entry) → Distinct es → Distinct (touch e now es)
unfolding touch
Distinct-touch e now es d =
    Distinct-snoc (without e.key es) (record e { last_seen = now }) (Distinct-without e.key es d)
      (ground (arith, find-without e.key e.key es, string_eq.beq_iff e.key e.key))

pub length-without-le : (k : String) (es : List Entry) → length (without k es) ≤ length es
unfolding without
length-without-le k [] = omega arith
length-without-le k (x ∷ es) = ground (arith, length-without-le k es)

length-without-lt :
    (k : String) (es : List Entry) → is_some (find k es) ≡ true → length (without k es) < length es
unfolding find without
length-without-lt k [] h = cc
length-without-lt k (x ∷ es) h = ground (arith, length-without-lt k es, length-without-le k es)

-- Every entry counts a failure or a running verification.
abbrev pub Busy : List Entry → Type 0
Busy = All (λ e. 0 < e.in_flight + e.failures)

pub Busy-without : (k : String) (es : List Entry) → Busy es → Busy (without k es)
unfolding without
Busy-without k [] b = tt
Busy-without k (x ∷ es) b = ground (arith, Busy-without k es b.1)

pub Busy-touch :
    (e : Entry) (now : ℕ) (es : List Entry)
    → Busy es
    → 0 < e.in_flight + e.failures
    → Busy (touch e now es)
unfolding touch
Busy-touch e now es b h =
    All-append (λ e. 0 < e.in_flight + e.failures) (without e.key es) _ (Busy-without e.key es b)
      (h, tt)

pub Busy-find :
    (k : String) (es : List Entry) {e : Entry}
    → Busy es
    → find k es ≡ some e
    → 0 < e.in_flight + e.failures
unfolding find
Busy-find k [] b h = cc
Busy-find k (x ∷ es) {e} b h = ground (arith, Busy-find k es {e = e} b.1)

-- A touch adds an entry only for a key that has none.
pub length-touch :
    (e : Entry) (now : ℕ) (es : List Entry)
    → length (touch e now es) ≤ length es + (if is_some (find e.key es) then 0 else 1)
unfolding touch
length-touch e now es = ground (
  arith,
  length-append (without e.key es) (record e { last_seen = now } ∷ []),
  length-without-le e.key es,
  length-without-lt e.key es,
)

-- The verifications that run for a key.
unfoldable pub flying : String → List Entry → ℕ
flying k es = elim (find k es) [ none ↦ 0 | some e ↦ e.in_flight ]

pub flying-touch :
    (e : Entry) (now : ℕ) (j : String) (es : List Entry)
    → flying j (touch e now es) ≡ (if e.key == j then e.in_flight else flying j es)
unfolding flying
flying-touch e now j es = ground (arith, find-touch e now j es)

pub flying-without :
    (k j : String) (es : List Entry) → flying j (without k es) ≡ (if k == j then 0 else flying j es)
unfolding flying
flying-without k j es = ground (arith, find-without k j es)

-- An idle entry may be dropped: no key loses a running verification.
pub flying-drop :
    (e : Entry) (es : List Entry) (j : String)
    → Distinct (e ∷ es)
    → e.in_flight ≡ 0
    → flying j (e ∷ es) ≡ flying j es
unfolding flying find
flying-drop e es j d h = ground (arith, string_eq.beq_iff e.key j, d.0)

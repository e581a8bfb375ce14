-- ===== src/Gateway/Sse/RoundTrip.antt =====
-- A printed event is parsed back.
use n2api.Base.{
  ℕ, suc, ◌+◌, ◌≤◌, ◌≡◌, refl, sym, ◌∙◌, Bool, true, false, some, List, [], ◌∷◌, ◌++◌, arith,
  if◌then◌else◌, ◌==◌, nat_eq, string_eq, length, length-append, int_eq,
}
use native.Mathlib.Nat.{zero-add, suc-add}
use mathlib.Core.List.{append-nil, append_assoc}
use n2api.Gateway.Sse.Parser.{
  Bytes, Slice, ended, Parser, reset_event, read_line, trim_last, trim_line_ending, split_colon,
  split_field, event_name, data_name, append_data, goes_on, take_field, take_line, event_out, next,
  after_turn, after_read,
}

-- A line of the stream: a field's name, a colon, a space and its value.
abbrev field_line : Bytes → Bytes → Slice
field_line name value = ended (name ++ b':' ∷ b' ' ∷ value ++ 10 ∷ [])

-- The lines of an event: its name, its data line by line, and the blank line that ends it.
abbrev data_lines : List Bytes → List Slice → List Slice
data_lines [] rest = rest
data_lines (d ∷ ds) rest = field_line data_name d ∷ data_lines ds rest

abbrev pub print_event : Bytes → List Bytes → List Slice → List Slice
print_event name ds rest = field_line event_name name ∷ data_lines ds (ended (10 ∷ []) ∷ rest)

-- Data lines joined by line feeds.
abbrev following : List Bytes → Bytes
following [] = []
following (d ∷ ds) = 10 ∷ d ++ following ds

abbrev pub join : List Bytes → Bytes
join [] = []
join (d ∷ ds) = d ++ following ds

-- A value that the parser does not trim: it does not end in a carriage return.
abbrev pub ends_in : ℕ → Bytes → Bool
ends_in b [] = false
ends_in b (x ∷ []) = x == b
ends_in b (x ∷ y ∷ r) = ends_in b (y ∷ r)

trim_last-append : (b : ℕ) (xs : Bytes) → trim_last b (xs ++ b ∷ []) ≡ xs
unfolding trim_last
trim_last-append b [] = ground arith
trim_last-append b (x ∷ []) = ground arith
trim_last-append b (x ∷ y ∷ r) = rw (trim_last-append b (y ∷ r))

trim_last-keeps : (b : ℕ) (xs : Bytes) → ends_in b xs ≡ false → trim_last b xs ≡ xs
unfolding trim_last
trim_last-keeps b [] h = refl
trim_last-keeps b (x ∷ []) h = ground arith
trim_last-keeps b (x ∷ y ∷ r) h = rw (trim_last-keeps b (y ∷ r) h)

ends_in-space : (value : Bytes) → ends_in 13 value ≡ false → ends_in 13 (b' ' ∷ value) ≡ false
ends_in-space [] h = refl
ends_in-space (x ∷ xs) h = h

trim_event_line :
    (value : Bytes)
    → ends_in 13 value ≡ false
    → trim_line_ending (event_name ++ b':' ∷ b' ' ∷ value ++ 10 ∷ [])
      ≡ event_name ++ b':' ∷ b' ' ∷ value
unfolding trim_line_ending
trim_event_line value h =
    rw (trim_last-append 10 (event_name ++ b':' ∷ b' ' ∷ value))
      (trim_last-keeps 13 (event_name ++ b':' ∷ b' ' ∷ value) (ends_in-space value h))

trim_data_line :
    (value : Bytes)
    → ends_in 13 value ≡ false
    → trim_line_ending (data_name ++ b':' ∷ b' ' ∷ value ++ 10 ∷ [])
      ≡ data_name ++ b':' ∷ b' ' ∷ value
unfolding trim_line_ending
trim_data_line value h =
    rw (trim_last-append 10 (data_name ++ b':' ∷ b' ' ∷ value))
      (trim_last-keeps 13 (data_name ++ b':' ∷ b' ' ∷ value) (ends_in-space value h))

-- The parser after a line with a name, and after a line of data.
abbrev pub named : Parser → Bytes → Parser
named p v = record p { event = v; event_n = p.event_n + (7 + length v); has_field = true }

abbrev extended : Parser → Bytes → Parser
extended p d = record p {
  text = (if p.has_data then p.text ++ 10 ∷ [] else p.text) ++ d;
  data_n = p.data_n + ((if p.has_data then 1 else 0) + length d);
  event_n = p.event_n + (6 + length d);
  has_field = true;
  has_data = true;
}

take_event_line :
    (p : Parser) (v : Bytes)
    → p.event_n + (7 + length v) ≤ p.limits.max_event_bytes
    → take_line p (event_name ++ b':' ∷ b' ' ∷ v) ≡ goes_on (named p v)
unfolding take_line take_field split_field split_colon
take_event_line p v h = ground arith

take_data_line :
    (p : Parser) (d : Bytes)
    → p.event_n + (6 + length d) ≤ p.limits.max_event_bytes
    → p.data_n + 1 + length d ≤ p.limits.max_data_bytes
    → take_line p (data_name ++ b':' ∷ b' ' ∷ d) ≡ goes_on (extended p d)
unfolding take_line take_field split_field split_colon append_data
take_data_line p d h k = ground arith

next_line :
    (fuel : ℕ) (p q : Parser) (bytes line : Bytes) (rest : List Slice)
    → length bytes ≤ p.limits.max_line_bytes
    → trim_line_ending bytes ≡ line
    → take_line p line ≡ goes_on q
    → next (suc fuel) p (ended bytes ∷ rest) ≡ next fuel q rest
unfolding next read_line after_read after_turn
next_line fuel p q bytes line rest m t g = ground (arith, t, g)

-- Enough room for lines of data: for each line, for all lines, and for all data.
abbrev pub Room : Parser → List Bytes → Type 0
Room p [] = Unit
Room p (d ∷ ds) =
    (7 + length d ≤ p.limits.max_line_bytes)
    × (p.event_n + (6 + length d) ≤ p.limits.max_event_bytes)
    × (p.data_n + 1 + length d ≤ p.limits.max_data_bytes)
    × (ends_in 13 d ≡ false)
    × Room (extended p d) ds

abbrev absorbed : Parser → List Bytes → Parser
absorbed p [] = p
absorbed p (d ∷ ds) = absorbed (extended p d) ds

next_data :
    (fuel : ℕ) (p : Parser) (ds : List Bytes) (rest : List Slice)
    → Room p ds
    → next (length ds + fuel) p (data_lines ds rest) ≡ next fuel (absorbed p ds) rest
next_data fuel p [] rest r = rw zero-add
next_data fuel p (d ∷ ds) rest r = rw suc-add (
    next_line (length ds + fuel) p (extended p d) _ _ (data_lines ds rest)
      (omega (arith, length-append d (10 ∷ []), r.0)) (trim_data_line d r.3)
      (take_data_line p d r.1 r.2)
    ∙ next_data fuel (extended p d) ds rest r.4)

absorbed_fields :
    (p : Parser) (ds : List Bytes)
    → ((absorbed p ds).limits ≡ p.limits) × ((absorbed p ds).event ≡ p.event)
absorbed_fields p [] = (refl, refl)
absorbed_fields p (d ∷ ds) = absorbed_fields (extended p d) ds

absorbed_more :
    (p : Parser) (ds : List Bytes)
    → p.has_data ≡ true
    → ((absorbed p ds).text ≡ p.text ++ following ds) × ((absorbed p ds).has_data ≡ true)
absorbed_more p [] h = (sym (append-nil p.text), h)
absorbed_more p (d ∷ ds) h =
    let (t, f) = absorbed_more (extended p d) ds refl in (t ∙ simp (h, append_assoc), f)

abbrev is_cons : List Bytes → Bool
is_cons [] = false
is_cons (d ∷ ds) = true

absorbed_text :
    (p : Parser) (ds : List Bytes)
    → p.has_data ≡ false
    → p.text ≡ []
    → ((absorbed p ds).text ≡ join ds) × ((absorbed p ds).has_data ≡ is_cons ds)
absorbed_text p [] h e = (e, h)
absorbed_text p (d ∷ ds) h e =
    let (t, f) = absorbed_more (extended p d) ds refl in (t ∙ simp (h, e), f)

next_blank :
    (fuel : ℕ) (p : Parser) (rest : List Slice)
    → 1 ≤ p.limits.max_line_bytes
    → next (suc fuel) p (ended (10 ∷ []) ∷ rest)
      ≡ some (record {
        outcome = event_out (record { event = p.event; text = p.text; has_data = p.has_data });
        parser = reset_event p;
        rest = rest;
      })
unfolding next read_line after_read after_turn trim_line_ending trim_last take_line
next_blank fuel p rest h = ground arith

-- An event printed as its name, its data lines and a blank line is read back whole by a parser
-- that stands between two events: with that name, with the data lines joined by line feeds, and
-- with has_data set exactly if there is one. The parser is then between two events again, and the
-- rest of the stream is untouched. The lines keep to the limits, and no value ends in a carriage
-- return.
pub next-print_event :
    (k : ℕ) (q : Parser) (name : Bytes) (ds : List Bytes) (rest : List Slice)
    → 8 + length name ≤ q.limits.max_line_bytes
    → 7 + length name ≤ q.limits.max_event_bytes
    → ends_in 13 name ≡ false
    → Room (named (reset_event q) name) ds
    → next (suc (length ds + suc k)) (reset_event q) (print_event name ds rest)
      ≡ some (record {
        outcome = event_out (record { event = name; text = join ds; has_data = is_cons ds });
        parser = reset_event q;
        rest = rest;
      })
unfolding reset_event
next-print_event k q name ds rest hl he ht room =
    let p = named (reset_event q) name in
    let (l, e) = absorbed_fields p ds in
    let (t, f) = absorbed_text p ds refl refl in
    next_line (length ds + suc k) (reset_event q) p _ _ _
      (omega (arith, length-append name (10 ∷ []), hl)) (trim_event_line name ht)
      (take_event_line (reset_event q) name (omega arith))
    ∙ next_data (suc k) p ds _ room
    ∙ next_blank k (absorbed p ds) rest (rw l (omega arith))
    ∙ ground (arith, l, e, t, f)

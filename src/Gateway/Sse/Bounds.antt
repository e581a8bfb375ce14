-- ===== src/Gateway/Sse/Bounds.antt =====
-- The memory that the parser holds stays within its limits.
use n2api.Base.{
  ℕ, zero, suc, ◌+◌, ◌≤◌, ◌≡◌, refl, subst, inl, inr, true, false, Option, none, some, List, [],
  ◌∷◌, ◌++◌, arith, ltb, ◌==◌, nat_eq, string_eq, Bool-cases, length, length-append, ℤ, int_eq,
}
use n2api.Gateway.Sse.Parser.{
  Bytes, Slice, Limits, Event, Parser, new_parser, reset_event, LineRead, line_read, line_at_eof,
  line_failed, trim_line_ending, split_colon, split_field, append_data, Turn, dispatched, failed,
  goes_on, take_field, take_line, event_out, Next, next, after_turn, after_read,
}

-- The counters of the parser describe its buffers, and both are within the limits.
pub record IsBounded (p : Parser) : Type 0 where
  pub data_counted : p.data_n ≡ length p.text
  pub data_bounded : p.data_n ≤ p.limits.max_data_bytes
  pub event_bounded : p.event_n ≤ p.limits.max_event_bytes
  pub event_field : length p.event ≤ p.event_n
  pub no_data : p.has_data ≡ false → p.text ≡ []
  pub data_field : p.has_data ≡ true → p.has_field ≡ true

pub reset_event-IsBounded : (p : Parser) → IsBounded (reset_event p)
unfolding reset_event
reset_event-IsBounded p = ground arith

pub new_parser-IsBounded : (a b c : ℤ) → IsBounded (new_parser a b c)
unfolding new_parser
new_parser-IsBounded a b c = ground arith

abbrev Fits : Bytes → Option (Bytes × Bytes) → Type 0
Fits line none = Unit
Fits line (some (field, value)) = length field + length value + 1 ≡ length line

split_colon-Fits : (line : Bytes) → Fits line (split_colon line)
unfolding split_colon
split_colon-Fits [] = tt
split_colon-Fits (x ∷ xs) = ground (arith, split_colon-Fits xs)

length-split_field : (line : Bytes) → length (split_field line).1 ≤ length line
unfolding split_field
length-split_field line = ground (arith, split_colon-Fits line)

abbrev parser_after : Turn → Parser
parser_after (dispatched e q) = q
parser_after (failed e q) = q
parser_after (goes_on q) = q

-- A dispatched event is no larger than the limits allow.
abbrev EventFits : Limits → Turn → Type 0
EventFits l (dispatched e q) =
    (length e.event ≤ l.max_event_bytes) × (length e.text ≤ l.max_data_bytes)
EventFits l (failed e q) = Unit
EventFits l (goes_on q) = Unit

abbrev Keeps : Parser → Option Parser → Type 0
Keeps p none = Unit
Keeps p (some q) = IsBounded q × (q.limits ≡ p.limits)

append_data-Keeps :
    (p : Parser) (value : Bytes) → IsBounded p → p.has_field ≡ true → Keeps p (append_data p value)
unfolding append_data
append_data-Keeps p value b f = ground (
  arith,
  length-append (p.text ++ 10 ∷ []) value,
  length-append p.text (10 ∷ []),
  length-append p.text value,
)

-- What one turn of the loop keeps.
abbrev TurnKeeps : Parser → Turn → Type 0
TurnKeeps p t =
    IsBounded (parser_after t) × ((parser_after t).limits ≡ p.limits) × EventFits p.limits t

take_field-Keeps :
    (p : Parser) (field value : Bytes)
    → IsBounded p
    → p.has_field ≡ true
    → length value ≤ p.event_n
    → TurnKeeps p (take_field p field value)
unfolding take_field reset_event
take_field-Keeps p field value b f h = (
  ground (arith, append_data-Keeps p value b f),
  ground (arith, append_data-Keeps p value b f),
  ground arith,
)

-- The parser with a line on its account and marked as holding a field.
abbrev with_line : Parser → ℕ → Parser
with_line p n = record p { event_n = p.event_n + n; has_field = true }

with_line-IsBounded :
    (p : Parser) (n : ℕ)
    → IsBounded p
    → p.event_n + n ≤ p.limits.max_event_bytes
    → IsBounded (with_line p n)
with_line-IsBounded p n b h = ground arith

pub take_line-Keeps : (p : Parser) (line : Bytes) → IsBounded p → TurnKeeps p (take_line p line)
unfolding take_line reset_event
take_line-Keeps p [] b = (ground arith, ground arith, ground arith)
take_line-Keeps p (x ∷ xs) b =
    let n = length (x ∷ xs) in
    elim (Bool-cases (ltb p.limits.max_event_bytes (p.event_n + n))) [
      | inl over ↦ rw (over, take_line) (reset_event-IsBounded p, refl, tt)
      | inr fits ↦
          rw (fits, take_line)
            (elim (Bool-cases (x == b':')) [
              | inl comment ↦ rw (comment, take_line) (ground arith, refl, tt)
              | inr field ↦
                  let parts = split_field (x ∷ xs) in
                  rw (field, take_line)
                    (take_field-Keeps (with_line p n) parts.0 parts.1
                      (with_line-IsBounded p n b (ground arith)) refl
                      (omega (arith, length-split_field (x ∷ xs))))
            ])
    ]

abbrev pub ResultFits : Limits → Option Next → Type 0
ResultFits l none = Unit
ResultFits l (some r) =
    IsBounded r.parser
    × (r.parser.limits ≡ l)
    × ((e : Event)
        → r.outcome ≡ event_out e
        → (length e.event ≤ l.max_event_bytes) × (length e.text ≤ l.max_data_bytes))

abbrev LoopFits : (Parser → List Slice → Option Next) → Type 0
LoopFits loop = (p : Parser) (rest : List Slice) → IsBounded p → ResultFits p.limits (loop p rest)

after_turn-fits :
    (loop : Parser → List Slice → Option Next) (p : Parser) (t : Turn) (rest : List Slice)
    → LoopFits loop
    → TurnKeeps p t
    → ResultFits p.limits (after_turn loop t rest)
unfolding after_turn
after_turn-fits loop p (dispatched event q) rest h k = (k.0, k.1, λ e o. ground (arith, k.2, o))
after_turn-fits loop p (failed e q) rest h k = (k.0, k.1, λ e o. cc)
after_turn-fits loop p (goes_on q) rest h k =
    subst (λ l. ResultFits l (loop q rest)) k.1 (h q rest k.0)

after_read-fits :
    (loop : Parser → List Slice → Option Next) (p : Parser) (read : LineRead) (rest : List Slice)
    → LoopFits loop
    → IsBounded p
    → ResultFits p.limits (after_read loop p read rest)
unfolding after_read reset_event
after_read-fits loop p (line_failed e) rest h b = (b, refl, λ e o. cc)
after_read-fits loop p (line_at_eof []) rest h b = elim (Bool-cases p.has_field) [
  | inl pending ↦ simp (pending, after_read) (reset_event-IsBounded p, refl, λ e o. cc)
  | inr clean ↦ simp (clean, after_read) (b, refl, λ e o. cc)
]
after_read-fits loop p (line_at_eof (x ∷ xs)) rest h b = (reset_event-IsBounded p, refl, λ e o. cc)
after_read-fits loop p (line_read bytes) rest h b =
    after_turn-fits loop p _ rest h (take_line-Keeps p (trim_line_ending bytes) b)

-- Whatever bytes arrive, Next keeps the buffers within the limits that the parser was made with,
-- and each event that it returns is no longer than they allow.
pub next-IsBounded :
    (fuel : ℕ) (p : Parser) (slices : List Slice)
    → IsBounded p
    → ResultFits p.limits (next fuel p slices)
unfolding next
next-IsBounded zero p slices b = tt
next-IsBounded (suc fuel) p slices b = after_read-fits (next fuel) p _ _ (next-IsBounded fuel) b

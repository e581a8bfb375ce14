-- ===== src/Gateway/Sse/Parser.antt =====
-- The incremental parser. bufio.Reader is not in the repository: a stream is the list of what its
-- calls of ReadSlice('\n') return, which ends in an EOF without bytes for ever.
use n2api.Base.{
  ℕ, zero, suc, ◌+◌, ◌*◌, Bool, true, false, ◌&&◌, Option, none, some, List, [], ◌∷◌, ◌++◌, ltb,
  if◌then◌else◌, ◌==◌, nat_eq, string_eq, length, ℤ, pos_part, is_pos, int_eq,
}

abbrev pub Bytes : Type 0
Bytes = List ℕ

-- One call of ReadSlice: a chunk with a nil error, with ErrBufferFull, with io.EOF, or with any
-- other error.
pub data Slice : Type 0 where
  ended buffer_full at_eof broken : Bytes → Slice

pub data Error : Type 0 where
  eof unexpected_eof line_too_large event_too_large data_too_large read_failed : Error

pub record Limits : Type 0 where
  pub max_line_bytes : ℕ
  pub max_event_bytes : ℕ
  pub max_data_bytes : ℕ

pub record Event : Type 0 where
  pub event : Bytes
  pub text : Bytes  -- Data
  pub has_data : Bool

-- SSEParser, less its reader.
pub record Parser : Type 0 where
  pub limits : Limits
  pub event : Bytes
  pub text : Bytes
  pub event_n : ℕ
  pub data_n : ℕ
  pub has_field : Bool
  pub has_data : Bool

abbrev pub default_max_line_bytes : ℕ
default_max_line_bytes = 64 * 1024

abbrev pub default_max_event_bytes : ℕ
default_max_event_bytes = 1024 * 1024

abbrev pub default_max_data_bytes : ℕ
default_max_data_bytes = 8 * 1024 * 1024

abbrev default_if_not_positive : ℤ → ℕ → ℕ
default_if_not_positive limit default = if is_pos limit then pos_part limit else default

unfoldable pub new_parser : ℤ → ℤ → ℤ → Parser
new_parser line event text = record {
  limits = record {
    max_line_bytes = default_if_not_positive line default_max_line_bytes;
    max_event_bytes = default_if_not_positive event default_max_event_bytes;
    max_data_bytes = default_if_not_positive text default_max_data_bytes;
  };
  event = [];
  text = [];
  event_n = 0;
  data_n = 0;
  has_field = false;
  has_data = false;
}

unfoldable pub reset_event : Parser → Parser
reset_event p = record p {
  event = [];
  text = [];
  event_n = 0;
  data_n = 0;
  has_field = false;
  has_data = false;
}

-- What readLine returns: a line without an error, the bytes before EOF, or another error.
pub data LineRead : Type 0 where
  line_read line_at_eof : Bytes → LineRead
  line_failed : Error → LineRead

unfoldable pub read_line : ℕ → Bytes → List Slice → LineRead × List Slice
read_line max_line line [] = (line_at_eof line, [])
read_line max_line line (buffer_full chunk ∷ rest) =
    let more = read_line max_line (line ++ chunk) rest in
    if ltb 0 (length chunk) && ltb max_line (length line + length chunk)
    then (line_failed line_too_large, rest)
    else more
read_line max_line line (ended chunk ∷ rest) =
    if ltb 0 (length chunk) && ltb max_line (length line + length chunk)
    then (line_failed line_too_large, rest)
    else (line_read (line ++ chunk), rest)
read_line max_line line (at_eof chunk ∷ rest) =
    if ltb 0 (length chunk) && ltb max_line (length line + length chunk)
    then (line_failed line_too_large, rest)
    else (line_at_eof (line ++ chunk), rest)
read_line max_line line (broken chunk ∷ rest) =
    if ltb 0 (length chunk) && ltb max_line (length line + length chunk)
    then (line_failed line_too_large, rest)
    else (line_failed read_failed, rest)

-- Drops the last byte of a line if it is the given one.
unfoldable pub trim_last : ℕ → Bytes → Bytes
trim_last b [] = []
trim_last b (x ∷ []) = if x == b then [] else x ∷ []
trim_last b (x ∷ y ∷ r) = x ∷ trim_last b (y ∷ r)

unfoldable pub trim_line_ending : Bytes → Bytes
trim_line_ending line = trim_last 13 (trim_last 10 line)

-- bytes.IndexByte(line, ':') with the two parts of the line that it separates.
unfoldable pub split_colon : Bytes → Option (Bytes × Bytes)
split_colon [] = none
split_colon (x ∷ xs) =
    let rest = split_colon xs in
    if x == b':'
    then some ([], xs)
    else elim rest [ none ↦ none | some (before, after) ↦ some (x ∷ before, after) ]

abbrev drop_space : Bytes → Bytes
drop_space [] = []
drop_space (x ∷ xs) = if x == b' ' then xs else x ∷ xs

unfoldable pub split_field : Bytes → Bytes × Bytes
split_field line = elim (split_colon line) [
  | some (field, value) ↦ (field, drop_space value)
  | none ↦ (line, [])
]

abbrev pub bytes_eq : Bytes → Bytes → Bool
bytes_eq [] [] = true
bytes_eq [] (y ∷ ys) = false
bytes_eq (x ∷ xs) [] = false
bytes_eq (x ∷ xs) (y ∷ ys) = (x == y) && bytes_eq xs ys

abbrev pub event_name : Bytes
event_name = b'e' ∷ b'v' ∷ b'e' ∷ b'n' ∷ b't' ∷ []

abbrev pub data_name : Bytes
data_name = b'd' ∷ b'a' ∷ b't' ∷ b'a' ∷ []

-- accountEventLine: the parser with the line on its account, or none past the limit.
unfoldable pub account_event_line : Parser → ℕ → Option Parser
account_event_line p line_bytes =
    if ltb p.limits.max_event_bytes (p.event_n + line_bytes)
    then none
    else some (record p { event_n = p.event_n + line_bytes })

unfoldable pub append_data : Parser → Bytes → Option Parser
append_data p value =
    let separator : ℕ = if p.has_data then 1 else 0 in
    if ltb p.limits.max_data_bytes (p.data_n + separator + length value)
    then none
    else some (record p {
      text = (if p.has_data then p.text ++ 10 ∷ [] else p.text) ++ value;
      data_n = p.data_n + (separator + length value);
      has_data = true;
    })

unfoldable pub dispatch_event : Parser → Event × Parser
unfolding reset_event
dispatch_event p = (record { event = p.event; text = p.text; has_data = p.has_data }, reset_event p)

-- One turn of the loop of Next, after a line was read: an event, an error, or the next turn.
pub data Turn : Type 0 where
  dispatched : Event → Parser → Turn
  failed : Error → Parser → Turn
  goes_on : Parser → Turn

-- The switch on the field's name.
unfoldable pub take_field : Parser → Bytes → Bytes → Turn
take_field p field value =
    if bytes_eq field event_name
    then goes_on (record p { event = value })
    else if bytes_eq field data_name
    then elim (append_data p value) [
      | none ↦ failed data_too_large (reset_event p)
      | some q ↦ goes_on q
    ]
    else goes_on p

unfoldable pub take_line : Parser → Bytes → Turn
unfolding account_event_line dispatch_event
take_line p [] = let (event, q) = dispatch_event p in dispatched event q
take_line p (x ∷ xs) = elim (account_event_line p (length (x ∷ xs))) [
  | none ↦ failed event_too_large (reset_event p)
  | some q ↦
      if x == b':'
      then goes_on q
      else let (field, value) = split_field (x ∷ xs) in
        take_field (record q { has_field = true }) field value
]

pub data Outcome : Type 0 where
  event_out : Event → Outcome
  error_out : Error → Outcome

pub record Next : Type 0 where
  pub outcome : Outcome
  pub parser : Parser
  pub rest : List Slice

abbrev returns : Outcome → Parser → List Slice → Option Next
returns o p rest = some (record { outcome = o; parser = p; rest = rest })

-- The end of a turn of Next, with the loop that goes on as an argument.
unfoldable pub after_turn : (Parser → List Slice → Option Next) → Turn → List Slice → Option Next
after_turn loop (dispatched event q) rest = returns (event_out event) q rest
after_turn loop (failed e q) rest = returns (error_out e) q rest
after_turn loop (goes_on q) rest = loop q rest

unfoldable pub after_read :
    (Parser → List Slice → Option Next) → Parser → LineRead → List Slice → Option Next
after_read loop p (line_failed e) rest = returns (error_out e) p rest
after_read loop p (line_at_eof []) rest =
    if p.has_field
    then returns (error_out unexpected_eof) (reset_event p) rest
    else returns (error_out eof) p rest
after_read loop p (line_at_eof (_ ∷ _)) rest =
    returns (error_out unexpected_eof) (reset_event p) rest
after_read loop p (line_read bytes) rest =
    after_turn loop (take_line p (trim_line_ending bytes)) rest

-- Next, with fuel for the turns of its loop; none means that the fuel ran out.
unfoldable pub next : ℕ → Parser → List Slice → Option Next
next zero p slices = none
next (suc fuel) p slices =
    let (read, rest) = read_line p.limits.max_line_bytes [] slices in
    after_read (next fuel) p read rest

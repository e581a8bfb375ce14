-- ===== src/Gateway/Sse/Total.antt =====
-- Next ends: each turn of its loop takes at least one slice off the stream.
use n2api.Base.{
  ℕ, zero, suc, ◌<◌, ◌≡◌, refl, true, Option, List, [], ◌∷◌, ◌++◌, arith, nat_eq, string_eq,
  is_some, length, int_eq,
}
use n2api.Gateway.Sse.Parser.{
  Bytes, Slice, ended, buffer_full, at_eof, broken, Parser, LineRead, line_read, line_at_eof,
  line_failed, read_line, Turn, dispatched, failed, goes_on, Next, next, after_turn, after_read,
}

-- A read that gives a line took at least one slice off the stream.
read_line-shorter :
    (m : ℕ) (line : Bytes) (slices : List Slice) {bytes : Bytes}
    → (read_line m line slices).0 ≡ line_read bytes
    → length (read_line m line slices).1 < length slices
unfolding read_line
read_line-shorter m line [] h = cc
read_line-shorter m line (ended c ∷ rest) h = ground arith
read_line-shorter m line (buffer_full c ∷ rest) {bytes} h =
    ground (arith, read_line-shorter m (line ++ c) rest {bytes = bytes})
read_line-shorter m line (at_eof c ∷ rest) h = ground arith
read_line-shorter m line (broken c ∷ rest) h = ground arith

after_turn-total :
    (loop : Parser → List Slice → Option Next) (t : Turn) (rest : List Slice)
    → ((p : Parser) → is_some (loop p rest) ≡ true)
    → is_some (after_turn loop t rest) ≡ true
unfolding after_turn
after_turn-total loop (dispatched e q) rest h = refl
after_turn-total loop (failed e q) rest h = refl
after_turn-total loop (goes_on q) rest h = h q

after_read-total :
    (loop : Parser → List Slice → Option Next) (p : Parser) (read : LineRead) (rest : List Slice)
    → ((bytes : Bytes) → read ≡ line_read bytes → (q : Parser) → is_some (loop q rest) ≡ true)
    → is_some (after_read loop p read rest) ≡ true
unfolding after_read
after_read-total loop p (line_failed e) rest h = refl
after_read-total loop p (line_at_eof []) rest h = ground arith
after_read-total loop p (line_at_eof (x ∷ xs)) rest h = refl
after_read-total loop p (line_read bytes) rest h = after_turn-total loop _ rest (h bytes refl)

-- With more fuel than the stream has slices, Next returns an event or an error.
pub next_total :
    (fuel : ℕ) (p : Parser) (slices : List Slice)
    → length slices < fuel
    → is_some (next fuel p slices) ≡ true
unfolding next
next_total zero p slices h = absurd (omega arith)
next_total (suc fuel) p slices h = after_read-total (next fuel) p _ _ λ bytes e q.
    next_total fuel q _
      (omega (arith, read_line-shorter p.limits.max_line_bytes [] slices {bytes = bytes} e))

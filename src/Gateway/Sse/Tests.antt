-- ===== src/Gateway/Sse/Tests.antt =====
-- Runs of the event parser.
use n2api.Base.{
  ◌≡◌, refl, true, false, some, List, [], ◌∷◌, arith, nat_eq, string_eq, is_some, int_eq,
}
use n2api.Gateway.Sse.Parser.{
  Slice, ended, data_too_large, Parser, reset_event, read_line, trim_last, trim_line_ending,
  split_colon, split_field, append_data, take_field, take_line, event_out, error_out, next,
  after_turn, after_read,
}
use mathlib.Core.Option
use n2api.Gateway.Sse.Bounds.{IsBounded, next-IsBounded, ResultFits}
use n2api.Gateway.Sse.Total.{next_total}
use n2api.Gateway.Sse.RoundTrip.{print_event, next-print_event}

abbrev small : Parser
small = record {
  limits = record { max_line_bytes = 16; max_event_bytes = 32; max_data_bytes = 8 };
  event = [];
  text = [];
  event_n = 0;
  data_n = 0;
  has_field = false;
  has_data = false;
}

-- The name "ab" and two lines of data.
abbrev stream : List Slice
stream = print_event (97 ∷ 98 ∷ []) ((120 ∷ []) ∷ (121 ∷ 122 ∷ []) ∷ []) []

next-print_event_example :
    next 5 (reset_event small) stream
    ≡ some (record {
      outcome =
          event_out
            (record { event = 97 ∷ 98 ∷ []; text = 120 ∷ 10 ∷ 121 ∷ 122 ∷ []; has_data = true });
      parser = reset_event small;
      rest = [];
    })
unfolding reset_event
next-print_event_example =
    next-print_event 1 small (97 ∷ 98 ∷ []) ((120 ∷ []) ∷ (121 ∷ 122 ∷ []) ∷ []) [] (omega arith)
      (omega arith) refl
      (
        omega arith,
        omega arith,
        omega arith,
        refl,
        (omega arith, omega arith, omega arith, refl, tt),
      )

next_total_example : is_some (next 5 small stream) ≡ true
next_total_example = next_total 5 small stream (omega arith)

small-IsBounded : IsBounded small
small-IsBounded = ground arith

next-IsBounded_example : ResultFits small.limits (next 5 small stream)
next-IsBounded_example = next-IsBounded 5 small stream small-IsBounded

-- A data field of nine bytes passes the limit of eight.
too_much :
    Option.map
      (λ r. r.outcome)
      (next 3 small
        (ended (100 ∷ 97 ∷ 116 ∷ 97 ∷ 58 ∷ 1 ∷ 2 ∷ 3 ∷ 4 ∷ 5 ∷ 6 ∷ 7 ∷ 8 ∷ 9 ∷ 10 ∷ []) ∷ []))
    ≡ some (error_out data_too_large)
unfolding next read_line after_read after_turn trim_line_ending trim_last take_line take_field
    split_field split_colon append_data reset_event
too_much = refl

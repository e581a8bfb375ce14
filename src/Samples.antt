-- ===== src/Samples.antt =====
-- Concrete values for the parameters of the models, at which the tests run them.
use Prim.Native.String.{len}
use n2api.Base.{none, pos, ◌/◌, true, false, some, [], ◌∷◌, ◌==◌, string_eq, if◌then◌else◌}
use n2api.Go.{Stdlib}

-- A simple text library: nothing is trimmed, and a digest is the text itself.
abbrev pub plain_go : Stdlib
plain_go = record {
  trim_space = λ s. s;
  to_lower = λ s. s;
  has_control = λ s. false;
  sha256_hex = λ s. s;
  uint64_be = λ n. "8";
  format_int = λ n. "1";
  unzoned_addr = λ s. some s;
  fnv64a = λ s. len s;
  byte_length = λ s. len s;
  hex_decoded_length = λ s. some (len s / 2);
  has_prefix = λ s prefix. s == prefix;
  trim_prefix = λ s prefix. if s == prefix then "" else s;
  contains_text = λ s t. s == t;
  split = λ s separator. s ∷ [];
  cut = λ s separator. ("Bearer", s, true);
  equal_fold = λ s t. s == t;
  atoi = λ s. if s == "30" then some (pos 30) else none;
  parse_http_time = λ s. none;
  status_text = λ n. "status";
}

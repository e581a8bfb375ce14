-- ===== src/Go.antt =====
-- The functions of Go's standard library that the modelled code calls. None of them is in the
-- repository: a value of `Stdlib` is a parameter of every definition that uses one.
use n2api.Base.{ℕ, String, Bool, Option, List, ℤ}

pub record Stdlib : Type 0 where
  -- strings.TrimSpace and strings.ToLower
  pub trim_space : String → String
  pub to_lower : String → String
  -- whether a rune of the text passes unicode.IsControl
  pub has_control : String → Bool
  -- hex.EncodeToString of sha256.Sum256
  pub sha256_hex : String → String
  -- the eight bytes that binary.BigEndian.PutUint64 writes
  pub uint64_be : ℕ → String
  -- strconv.FormatInt(value, 10)
  pub format_int : ℤ → String
  -- netip.ParseAddr: none on an error and for an address with a zone, else Unmap().String()
  pub unzoned_addr : String → Option String
  -- Sum64 of fnv.New64a over the bytes of the text
  pub fnv64a : String → ℕ
  -- the number of bytes of a text, and of those that hex.DecodeString reads out of it
  pub byte_length : String → ℕ
  pub hex_decoded_length : String → Option ℕ
  -- strings.HasPrefix, strings.TrimPrefix and strings.Contains, the text first
  pub has_prefix : String → String → Bool
  pub trim_prefix : String → String → String
  pub contains_text : String → String → Bool
  -- strings.Split, strings.Cut and strings.EqualFold
  pub split : String → String → List String
  pub cut : String → String → String × String × Bool
  pub equal_fold : String → String → Bool
  -- strconv.Atoi without its error, http.ParseTime without its error, and http.StatusText
  pub atoi : String → Option ℤ
  pub parse_http_time : String → Option ℕ
  pub status_text : ℕ → String

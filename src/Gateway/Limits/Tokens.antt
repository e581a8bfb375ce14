-- ===== src/Gateway/Limits/Tokens.antt =====
-- What the token limiter has on record in one minute, and when it refuses.
use n2api.Base.{
  ℕ, ◌+◌, ◌<◌, ◌≡◌, false, not, ◌&&◌, ◌||◌, subst, List, [], ◌∷◌, arith, if◌then◌else◌, ◌==◌,
  nat_eq, string_eq, get_or, All, lookup, lookup-insert, ℤ, pos, pos_part, leb_ℤ, is_pos,
  int_beq_iff, int_eq,
}
use n2api.Gateway.Limits.Rate.{
  window_start, no_window, Limiter, effective_limit, seconds_until_next_minute, token_allow,
  token_record,
}
use n2api.Gateway.Limits.Minute.{used}

-- A response that was answered: the key and its limit, the tokens that it used, the time.
pub record Usage : Type 0 where
  pub key : ℤ
  pub limit : ℤ
  pub tokens : ℤ
  pub at : ℕ

unfoldable pub record_run : Limiter → List Usage → Limiter
record_run l [] = l
record_run l (u ∷ us) = record_run (token_record l u.key u.tokens u.limit u.at) us

-- The tokens of one response that count for a key: its own, where it has a limit of its own or by
-- default. A response with none or fewer counts as none.
abbrev pub tokens_of : ℤ → ℤ → Usage → ℕ
tokens_of default key u =
    if u.key == key && (is_pos u.limit || is_pos default) then pos_part u.tokens else 0

abbrev pub total : ℤ → ℤ → List Usage → ℕ
total default key [] = 0
total default key (u ∷ us) = tokens_of default key u + total default key us

module _ (start : ℕ) where
  record_step :
      (l : Limiter) (key : ℤ) (u : Usage)
      → 0 < start
      → window_start u.at ≡ start
      → ((token_record l u.key u.tokens u.limit u.at).default_limit ≡ l.default_limit)
        × (used (token_record l u.key u.tokens u.limit u.at) key start
            ≡ used l key start + tokens_of l.default_limit key u)
  unfolding token_record used
  record_step l key u s i = (
    ground arith,
    ground (
      arith,
      lookup-insert u.key key (record { start = window_start u.at; amount = pos_part u.tokens })
          l.keys,
      lookup-insert u.key key
          (record {
            start = (get_or (lookup u.key l.keys) no_window).start;
            amount = (get_or (lookup u.key l.keys) no_window).amount + pos_part u.tokens;
          })
          l.keys,
      int_beq_iff u.key key,
    ),
  )

  -- Over the responses of one minute but the zero time's, of any keys with limits of their own, the
  -- amount on record for a key grows by exactly the tokens of its own responses, where they carry a
  -- positive limit or the limiter has one by default; the others put nothing on record.
  pub tokens_exact :
      (l : Limiter) (key : ℤ) (us : List Usage)
      → 0 < start
      → All (λ u. window_start u.at ≡ start) us
      → used (record_run l us) key start ≡ used l key start + total l.default_limit key us
  unfolding record_run
  tokens_exact l key [] s i = omega arith
  tokens_exact l key (u ∷ us) s i =
      let next = token_record l u.key u.tokens u.limit u.at in
      let (same, grown) = record_step l key u s i.0 in
      let later : used (record_run next us) key start
          ≡ used next key start + total l.default_limit key us =
        subst
          (λ (d : ℤ). used (record_run next us) key start ≡ used next key start + total d key us)
          same (tokens_exact next key us s i.1) in
      omega (arith, grown, later)

-- The token limiter changes nothing when it is asked, and refuses exactly when a limit is set and
-- the tokens on record for the current minute have reached it, with a wait of 1 to 60 seconds.
pub token_allow_lem :
    (l : Limiter) (key limit : ℤ) (now : ℕ)
    → 0 < window_start now
    → ((token_allow l key limit now).limiter ≡ l)
      × ((token_allow l key limit now).allowed
          ≡ not (
              is_pos (effective_limit l limit)
              && leb_ℤ (effective_limit l limit) (pos (used l key (window_start now)))))
      × ((token_allow l key limit now).allowed ≡ false
          → (token_allow l key limit now).retry_after ≡ seconds_until_next_minute now)
unfolding token_allow used
token_allow_lem l key limit now s = (ground arith, ground arith, ground arith)

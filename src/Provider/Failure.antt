-- ===== src/Provider/Failure.antt =====
-- provider/service.go: RecordAccountFailure, with the columns that the two statements of
-- store/provider.go write. Times are nanoseconds since Go's zero time.
use n2api.Base.{
  ℕ, ◌+◌, ◌-◌, ◌*◌, ◌%◌, ◌^◌, String, Bool, false, not, ◌&&◌, ◌||◌, Option, none, some, ltb, leb,
  nat_beq, if◌then◌else◌, ◌==◌, nat_eq, string_eq, pos, pos_part, ltb_ℤ, is_pos, int_eq,
}
use n2api.Go.{Stdlib}
use n2api.Provider.Account.{Account}
use n2api.Provider.Select.{default_circuit_open}

-- now.Add of time.Duration(seconds) * time.Second: the product is one of 64 bits with a sign.
unfoldable pub add_seconds : ℕ → ℕ → ℕ
add_seconds now seconds =
    let product = (seconds * 1_000_000_000) % 2 ^ 64 in
    if ltb product (2 ^ 63) then now + product else now - (2 ^ 64 - product)

unfoldable pub retry_after_time : Stdlib → String → ℕ → ℕ → ℕ
retry_after_time go value now fallback =
    let v = go.trim_space value in
    let date : ℕ = elim (go.parse_http_time v) [
      | none ↦ now + fallback
      | some parsed ↦ if ltb now parsed then parsed else now + fallback
    ] in
    if v == "" then now + fallback else elim (go.atoi v) [
      | none ↦ date
      | some seconds ↦ if ltb_ℤ seconds (pos 0) then date else add_seconds now (pos_part seconds)
    ]

unfoldable pub is_endpoint_permission_error : Stdlib → String → Bool
is_endpoint_permission_error go message =
    let lower = go.to_lower (go.trim_space message) in
    if lower == ""
    then false
    else go.contains_text lower "missing scopes"
      || go.contains_text lower "api.responses.write"
      || (go.contains_text lower "insufficient permissions" && go.contains_text lower "scope")

-- The columns of the row that RecordAccountStatus and MarkAccountError write.
abbrev pub record_account_status : Account → String → ℕ → Option ℕ → Option ℕ → Account
record_account_status a status at limited_until open_until = record a {
  status = status;
  last_error_at = some at;
  rate_limited_until = limited_until;
  circuit_open_until = open_until;
}

abbrev pub mark_account_error : Account → ℕ → Account
mark_account_error a at = record a { last_error_at = some at }

abbrev pub failure_reason : Stdlib → ℕ → String → String
failure_reason go status message =
    let trimmed = go.trim_space message in if trimmed == "" then go.status_text status else trimmed

-- The switch over the status.
unfoldable pub after_failure : Stdlib → ℕ → Account → ℕ → String → String → Account
after_failure go now a status retry_after reason =
    if nat_beq status 429
    then record_account_status a "rate_limited" now
        (some (retry_after_time go retry_after now 60_000_000_000)) none
    else if nat_beq status 403 && is_endpoint_permission_error go reason
    then mark_account_error a now
    else if nat_beq status 401 || nat_beq status 403
    then record_account_status a "expired" now none none
    else if leb 500 status
    then record_account_status a "circuit_open" now none (some (now + default_circuit_open))
    else mark_account_error a now

-- none is ErrInvalidInput.
unfoldable pub record_account_failure : Stdlib → ℕ → Account → ℕ → String → String → Option Account
unfolding after_failure
record_account_failure go now a status retry_after message =
    if not (is_pos a.id)
    then none
    else some (after_failure go now a status retry_after (failure_reason go status message))

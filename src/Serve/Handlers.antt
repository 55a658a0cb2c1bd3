-- ===== src/Serve/Handlers.antt =====
-- cmd/gyzor/serve.go: `auth`, `readBody` and the handlers of check, report and revoke;
-- cmd/gyzor/main.go: `readCapped`; cmd/gyzor/metrics.go: the counters. What the client answers is an
-- argument.
use gyzor.Prelude.{
  ℕ, ◌+◌, ◌*◌, ◌%◌, ◌^◌, ◌⊎◌, inl, inr, Bool, true, false, not, List, [], ◌∷◌, Option, none, some,
  Bytes, bytes_eq, codes, drop, length, ltb, if◌then◌else◌,
}
use gyzor.Prelude.Int.{ℤ}
use gyzor.Go.Strings.{has_prefix}
use gyzor.Client.Server.{ServerResult}
use gyzor.Client.Verdict.{CheckResult, is_error, hit, all_ok}

-- The counters of `metrics`: 64 bits each.
pub record Metrics : Type 0 where
  pub check_total : ℕ
  pub report_total : ℕ
  pub revoke_total : ℕ
  pub error_total : ℕ
  pub reject : ℕ
  pub accept : ℕ
  pub unknown : ℕ

-- `inc`
unfoldable pub inc : ℕ → ℕ
inc n = (n + 1) % 2 ^ 64

-- `verdictInc`
unfoldable pub verdict_inc : Bytes → Metrics → Metrics
unfolding inc
verdict_inc action m =
    if bytes_eq action (codes "reject")
    then record m { reject = inc m.reject }
    else if bytes_eq action (codes "accept")
    then record m { accept = inc m.accept }
    else record m { unknown = inc m.unknown }

-- What a handler reads of a request; `body` is what its reader gives, if it gives no error.
pub record HttpRequest : Type 0 where
  pub method : Bytes
  pub gyzor_token : Bytes
  pub authorization : Bytes
  pub body : Option Bytes

-- `maxBody`
abbrev pub max_body : ℕ
max_body = 16 * 2 ^ 20

pub data Answer : Type 0 where
  refused : ℕ → Answer
  checked : ℕ → Bytes → Bool → CheckResult → Answer
  done : ℕ → Bool → Answer

-- `readCapped`, as `readBody` uses it: a message, or the status of the refusal.
unfoldable pub read_capped : Option Bytes → ℕ → Bytes ⊎ ℕ
read_capped none max = inr 400
read_capped (some b) max = if ltb max (length b) then inr 413 else inl b

-- `readBody`
unfoldable pub read_body : HttpRequest → Bytes ⊎ ℕ
read_body r = if bytes_eq r.method (codes "POST") then read_capped r.body max_body else inr 405

-- The errors that the loop of `checkHandler` counts.
unfoldable pub count_errors : List ServerResult → Metrics → Metrics
unfolding inc
count_errors [] m = m
count_errors (s ∷ srs) m =
    count_errors srs (if is_error s.err then record m { error_total = inc m.error_total } else m)

-- The rest of `checkHandler`, behind the loop.
unfoldable pub check_verdict : CheckResult → ℤ → ℤ → Metrics → Metrics × Answer
check_verdict res r_count wl_count m =
    if not (all_ok res)
    then (verdict_inc (codes "unknown") m, Answer.checked 502 (codes "unknown") false res)
    else let is_hit = hit res r_count wl_count in
      let action = if is_hit then codes "reject" else codes "accept" in
      (verdict_inc action m, Answer.checked 200 action is_hit res)

-- `checkHandler` on what `readBody` gives.
unfoldable pub check_read : (Bytes → CheckResult) → ℤ → ℤ → Metrics → Bytes ⊎ ℕ → Metrics × Answer
check_read check r_count wl_count m (inr status) = (m, Answer.refused status)
check_read check r_count wl_count m (inl msg) =
    check_verdict (check msg) r_count wl_count
      (count_errors (check msg).servers (record m { check_total = inc m.check_total }))

-- `checkHandler`
unfoldable pub check_handler :
    (Bytes → CheckResult) → ℤ → ℤ → Metrics → HttpRequest → Metrics × Answer
check_handler check r_count wl_count m r = check_read check r_count wl_count m (read_body r)

unfoldable pub answer_flag : Bool → Metrics → Metrics × Answer
unfolding inc
answer_flag true m = (m, Answer.done 200 true)
answer_flag false m = (record m { error_total = inc m.error_total }, Answer.done 502 false)

-- `reportHandler`
unfoldable pub report_handler : (Bytes → Bool) → Metrics → HttpRequest → Metrics × Answer
unfolding inc answer_flag
report_handler report m r = elim (read_body r) [
  | inr status ↦ (m, Answer.refused status)
  | inl msg ↦ answer_flag (report msg) (record m { report_total = inc m.report_total })
]

-- `revokeHandler`
unfoldable pub revoke_handler : (Bytes → Bool) → Metrics → HttpRequest → Metrics × Answer
unfolding inc answer_flag
revoke_handler revoke m r = elim (read_body r) [
  | inr status ↦ (m, Answer.refused status)
  | inl msg ↦ answer_flag (revoke msg) (record m { revoke_total = inc m.revoke_total })
]

-- The token that a request presents.
unfoldable pub presented : HttpRequest → Bytes
presented r =
    if bytes_eq r.gyzor_token []
    then (if has_prefix r.authorization (codes "Bearer ") then drop 7 r.authorization else [])
    else r.gyzor_token

-- `auth`, for handlers of any state.
unfoldable pub auth :
    {S : Type 0} → Bytes → (S → HttpRequest → S × Answer) → S → HttpRequest → S × Answer
auth token next m r =
    if bytes_eq token []
    then next m r
    else if bytes_eq (presented r) token
    then next m r
    else (m, Answer.refused 401)

-- ===== src/Tests/Api.antt =====
-- A check of one server, from the datagram that comes back to the verdict.
use gyzor.Prelude.{ℕ, ◌<◌, ◌≡◌, refl, true, [], bytes_eq, codes, arith}
use gyzor.Prelude.Int.{pos, ◌<ℤ◌, ◌≤ℤ◌}
use gyzor.Go.Maps.{lookup, insert}
use gyzor.Go.Numbers.{atoi}
use gyzor.Go.Strings.{is_cr, split, index_byte, trim_right, trim_space}
use gyzor.Message.Request.{generate_thread, op, new_request}
use gyzor.Message.Response.{
  parse_response, parse_lines, parse_line, code, require_keys, check_thread, first_error, validate,
  require_count, require_counts, int_field, field,
}
use gyzor.Client.Api.{Attempt, nth_server, outcome_of}
use gyzor.Client.Api.Confirmed.{IsConfirmed, check_outcome, hit-IsConfirmed}
use gyzor.Client.Fanout.{
  Fan, add, loop_end, send, go, store, release, done, wait, Run, start, next, collect,
}
use gyzor.Client.Query.{resolve, exchange, accept_reply, accept_counts, query, server_result}
use gyzor.Client.Verdict.{aggregate, tally, hit, hit_servers, scan_hit}
use gyzor.Tests.Client.{client, net}

abbrev pub attempts : ℕ → Attempt ℕ
attempts i = record { cache = []; net = net; drawn = 3218; seconds = pos 1_700_000_000; now = 0 }

abbrev checked :
    (f : Fan) × Run 1
      (nth_server (λ r. r) client)
      (check_outcome (λ r. r) client attempts (codes "abc123"))
      8
      f
checked = (
  _,
  next
      (next
        (next
          (next
            (next
              (next (next (next start (add 0 refl (omega arith))) (send 0 refl (omega arith)))
                (go 0 refl))
              (store 0 refl))
            (loop_end 1 refl (omega arith)))
          (release 0 refl (omega arith)))
        (done 0 refl))
      (wait refl refl),
)

checked_hit : hit (aggregate (collect 1 checked.0.results)) (pos 5) (pos 2) ≡ true
unfolding hit hit_servers scan_hit tally aggregate collect outcome_of query exchange resolve
    accept_reply accept_counts validate require_keys check_thread first_error require_counts
    require_count code op new_request parse_response parse_lines parse_line is_cr insert lookup
    split index_byte trim_right trim_space atoi bytes_eq server_result int_field field
    generate_thread
checked_hit = refl

hit-IsConfirmed_example :
    (IsConfirmed (generate_thread 3218) (check_outcome (λ r. r) client attempts (codes "abc123") 0)
      × ((server_result
            (nth_server (λ r. r) client 0)
            (check_outcome (λ r. r) client attempts (codes "abc123") 0)).wl_count
          ≤ℤ pos 2))
    × ((j : ℕ) × ((j < 1)
          × (pos 5
              <ℤ (server_result
                  (nth_server (λ r. r) client j)
                  (check_outcome (λ r. r) client attempts (codes "abc123") j)).count)))
hit-IsConfirmed_example =
    hit-IsConfirmed (λ r. r) client attempts (codes "abc123") (pos 5) (pos 2) 8 checked.0 0
      checked.1 refl checked_hit (omega arith)

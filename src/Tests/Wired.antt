-- ===== src/Tests/Wired.antt =====
-- A check on the command line, from stdin to the exit status.
use gyzor.Prelude.{◌≤◌, ◌≡◌, refl, true, [], ◌∷◌, none, some, Bytes, bytes_eq, codes, length, arith}
use gyzor.Prelude.Int.{pos}
use gyzor.Go.Maps.{lookup, insert}
use gyzor.Go.Numbers.{atoi}
use gyzor.Go.Strings.{is_cr, split, index_byte, trim_right, trim_space}
use gyzor.Message.Request.{generate_thread, op, new_request}
use gyzor.Message.Response.{
  parse_response, parse_lines, parse_line, code, require_keys, check_thread, first_error, validate,
  require_count, require_counts, int_field, field,
}
use gyzor.Client.Api.{outcome_of, query_all, check_digest, check}
use gyzor.Client.Api.Confirmed.{IsClear, IsReported}
use gyzor.Client.Fanout.{collect}
use gyzor.Client.Query.{resolve, exchange, accept_reply, accept_counts, query, server_result}
use gyzor.Client.Verdict.{aggregate, tally, hit, hit_servers, scan_hit}
use gyzor.Client.Verdict.Laws.{hit_iff}
use gyzor.Serve.Handlers.{max_body}
use gyzor.Cli.Options.{Options}
use gyzor.Cli.Run.{World, dispatch}
use gyzor.Cli.Status.{check-status}
use gyzor.Cli.Wired.{wired}
use gyzor.Cli.Wired.Rested.{status-IsClear}
use gyzor.Digest.Mime.{Mime, digest_of, digest_payloads, message_shape, walk_shape, compute}
use gyzor.Digest.Select.{digest_of_payloads}
use gyzor.Tests.Api.{attempts}
use gyzor.Tests.Cli.{world, options}
use gyzor.Tests.Client.{client}
use gyzor.Tests.Mime.{peeling}

-- No message is read as mail: each is its own payload.
abbrev raw_mime : Mime
raw_mime = record peeling { read_message = λ raw. none }

abbrev message : Bytes
message = codes "From: a@b.example\n\nhello\n"

message_digest : compute raw_mime message ≡ some (digest_of_payloads (message ∷ []))
unfolding compute digest_of digest_payloads message_shape walk_shape
message_digest = refl

always_hit : (d : Bytes) → hit (check_digest (λ r. r) client attempts d) (pos 5) (pos 2) ≡ true
unfolding check_digest query_all hit hit_servers scan_hit tally aggregate collect outcome_of query
    exchange resolve accept_reply accept_counts validate require_keys check_thread first_error
    require_counts require_count code op new_request parse_response parse_lines parse_line is_cr
    insert lookup split index_byte trim_right trim_space atoi bytes_eq server_result int_field field
    generate_thread
always_hit [] = refl
always_hit (c ∷ d) = refl

abbrev wired_world : World
wired_world = wired (λ r. r) raw_mime attempts world

abbrev low_options : Options
low_options = record options { r_count = pos 5; wl_count = pos 2 }

found : hit (wired_world.check client message) (pos 5) (pos 2) ≡ true
unfolding wired check
found = rw (message_digest) (always_hit (digest_of_payloads (message ∷ [])))

exits : (dispatch wired_world client low_options (codes "check")).status ≡ 0
unfolding wired
exits = (check-status wired_world client low_options).1 (
  message,
  (refl, (omega arith, (hit_iff (wired_world.check client message) (pos 5) (pos 2)).0 found)),
)

status-IsClear_example :
    (raw : Bytes) × (d : Bytes) × (world.stdin ≡ some raw)
    × (length raw ≤ max_body)
    × (compute raw_mime raw ≡ some d)
    × IsClear (λ r. r) client attempts d (pos 2) 0
    × IsReported (λ r. r) client attempts d (pos 5)
status-IsClear_example =
    status-IsClear (λ r. r) raw_mime attempts client world low_options 0 exits (omega arith)

-- ===== src/Tests/Client.antt =====
-- The client on concrete servers and replies.
use gyzor.Prelude.{
  ℕ, ◌+◌, ◌≤◌, ◌<◌, List, [], ◌∷◌, ◌≡◌, ◌≢◌, ◌↔◌, refl, true, ◌&&◌, not, none, some, Bytes,
  bytes_eq, codes,
}
use gyzor.Prelude.Int.{pos, ltb_ℤ}
use gyzor.Go.Maps.{lookup, insert}
use gyzor.Go.Numbers.{itoa, atoi}
use gyzor.Go.Strings.{is_cr, contains_byte, split, index_byte, trim_right, trim_space}
use gyzor.Message.Request.{Request, op, new_request}
use gyzor.Message.Response.{
  parse_response, parse_lines, parse_line, code, require_keys, check_thread, first_error, validate,
  require_count, require_counts,
}
use gyzor.Client.Query.Laws.{Trusted, IsSocketFailure, query-Trusted, resolve-resolve, query-cache}
use gyzor.Client.Query.{
  Client, Net, addr_ttl, cached, resolve, resolve_anew, exchange, accept_reply, accept_counts,
  query,
}
use gyzor.Client.Server.{Server, ServerResult, addr}
use gyzor.Client.Verdict.Laws.{IsHit, IsMax, hit_iff, aggregate-IsMax, hit-aggregate}
use gyzor.Client.Verdict.{hit, aggregate, all_ok}

ipv6_addr : addr (record { host = codes "::1"; port = pos 24441 }) ≡ codes "[::1]:24441"
unfolding addr contains_byte itoa
ipv6_addr = refl

abbrev pub local : Server
local = record { host = codes "127.0.0.1"; port = pos 24441 }

abbrev pub answer : ℕ → ℕ → ServerResult
answer count wl_count = record {
  server = local;
  code = pos 200;
  diag = codes "OK";
  count = pos count;
  wl_count = pos wl_count;
  err = none;
}

abbrev pub two_servers : List ServerResult
two_servers = answer 10 0 ∷ answer 3 1 ∷ []

hit_iff_example :
    (hit (aggregate two_servers) (pos 5) (pos 1) ≡ true)
    ↔ IsHit (pos 5) (pos 1) (aggregate two_servers).servers
hit_iff_example = hit_iff (aggregate two_servers) (pos 5) (pos 1)

aggregate-IsMax_example :
    IsMax (λ sr. sr.count) (pos 0) (aggregate two_servers).count two_servers
    × IsMax (λ sr. sr.wl_count) (pos 0) (aggregate two_servers).whitelist two_servers
aggregate-IsMax_example = aggregate-IsMax two_servers

hit-aggregate_example : hit (aggregate two_servers) (pos 5) (pos 1) ≡ (
    all_ok (aggregate two_servers)
    && ltb_ℤ (pos 5) (aggregate two_servers).count
    && not (ltb_ℤ (pos 1) (aggregate two_servers).whitelist))
hit-aggregate_example = hit-aggregate two_servers 5 1

abbrev pub client : Client
client = record {
  servers = local ∷ [];
  accounts = [];
  default_account = record { username = []; salt = []; key = [] };
  timeout = 5_000_000_000;
}

abbrev pub reply_text : Bytes
reply_text = codes "Code: 200\nDiag: OK\nPV: 2.1\nThread: 4242\nCount: 7\nWL-Count: 2\n"

-- A network on which every address is 0 and the server always gives the same answer.
abbrev pub net : Net ℕ
net = record {
  resolved = some 0;
  dialed = λ a. true;
  sent = λ a packet. true;
  reply = λ a packet. some reply_text;
}

abbrev check_request : Request
check_request = new_request (codes "check") (codes "abc123") true

query-Trusted_example : Trusted (op check_request) (pos 4242) (parse_response reply_text)
unfolding query exchange resolve accept_reply accept_counts validate require_keys check_thread
    first_error require_counts require_count code op new_request parse_response parse_lines
    parse_line is_cr insert lookup split index_byte trim_right trim_space atoi bytes_eq
query-Trusted_example =
    query-Trusted (λ r. r) client [] local check_request net (pos 4242) (pos 1700000000) 0
      (parse_response reply_text) refl

resolve-resolve_example :
    (let cache' = (resolve {Addr = ℕ} [] local 100 (some 7)).0 in
      ((200 < 100 + addr_ttl) → resolve cache' local 200 none ≡ (cache', some 7))
      × ((100 + addr_ttl ≤ 200)
          → resolve cache' local 200 none ≡ resolve_anew cache' (addr local) 200 none))
unfolding cached lookup
resolve-resolve_example = resolve-resolve [] local 100 200 7 none refl

query-cache_example :
    (let after = query (λ r. r) client [] local check_request net (pos 4242) (pos 1700000000) 0 in
      (IsSocketFailure after.1 → lookup (addr local) after.0 ≡ none)
      × ((key : Bytes) → addr local ≢ key → lookup key after.0 ≡ lookup key []))
query-cache_example =
    query-cache (λ r. r) client [] local check_request net (pos 4242) (pos 1700000000) 0

-- ===== src/Client/Api.antt =====
-- pyzor/client.go: `Check`, `Report`, `Whitelist`, `CheckDigest`, `ReportDigest`, `WhitelistDigest`,
-- `Ping` and `broadcast`, on what `queryAll` returns.
pub mod Confirmed
use gyzor.Prelude.{ℕ, Bool, true, false, List, [], Option, none, some, Bytes, codes, length, get_or}
use gyzor.Prelude.Int.{ℤ}
use gyzor.Message.Request.{Request, new_request, generate_thread}
use gyzor.Client.Fanout.{collect}
use gyzor.Client.Query.{Client, Net, Cache, Outcome, query, server_result}
use gyzor.Client.Server.{Server, ServerResult, default_server}
use gyzor.Client.Verdict.{CheckResult, aggregate, broadcast_ok}
use gyzor.Digest.Mime.{Mime, compute}
use mathlib.Core.Option

-- What the query of one server meets: the address cache when it is read, the network, what
-- `rand.Intn` draws, the time and the monotonic clock.
pub record Attempt (Addr : Type 0) : Type 0 where
  pub cache : Cache Addr
  pub net : Net Addr
  pub drawn : ℕ
  pub seconds : ℤ
  pub now : ℕ

module _ (lower : ℕ → ℕ) (c : Client) where
  -- `c.Servers[i]`
  unfoldable pub nth_server : ℕ → Server
  nth_server i = get_or c.servers i default_server

  module _ {Addr : Type 0} (attempts : ℕ → Attempt Addr) where
    -- What the query of the i-th server gives.
    unfoldable pub outcome_of : Request → ℕ → Outcome
    outcome_of req i =
        let a = attempts i in
        (query lower c a.cache (nth_server i) req a.net (generate_thread a.drawn) a.seconds a.now).1

    -- What `queryAll` returns.
    unfoldable pub query_all : Request → List ServerResult
    query_all req =
        collect (length c.servers) (λ i. server_result (nth_server i) (outcome_of req i))

    -- `CheckDigest`
    unfoldable pub check_digest : Bytes → CheckResult
    check_digest digest = aggregate (query_all (new_request (codes "check") digest false))

    -- `broadcast`
    unfoldable pub broadcast : Request → Bool
    broadcast req = broadcast_ok (query_all req)

    -- `ReportDigest`
    unfoldable pub report_digest : Bytes → Bool
    report_digest digest = broadcast (new_request (codes "report") digest true)

    -- `WhitelistDigest`
    unfoldable pub whitelist_digest : Bytes → Bool
    whitelist_digest digest = broadcast (new_request (codes "whitelist") digest true)

    -- `Ping`
    unfoldable pub ping : Bool
    ping = broadcast (new_request (codes "ping") [] false)

    -- `Check`; `none` only where the digest's fuel runs out.
    unfoldable pub check : Mime → Bytes → Option CheckResult
    check m raw = Option.map check_digest (compute m raw)

    -- `Report`
    unfoldable pub report : Mime → Bytes → Option Bool
    report m raw = Option.map report_digest (compute m raw)

    -- `Whitelist`
    unfoldable pub whitelist : Mime → Bytes → Option Bool
    whitelist m raw = Option.map whitelist_digest (compute m raw)

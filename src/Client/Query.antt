-- ===== src/Client/Query.antt =====
-- pyzor/client.go: `account`, `resolve`, `invalidateAddr` and `query`. What the network does in a
-- query is the record `Net`; the address cache is passed along.
pub mod Laws
use gyzor.Prelude.{
  ℕ, ◌+◌, Bool, true, false, ◌&&◌, not, List, [], ◌∷◌, Option, none, some, Bytes, bytes_eq, codes,
  ltb, if◌then◌else◌,
}
use gyzor.Prelude.Int.{ℤ, pos, eqb_ℤ}
use gyzor.Go.Maps.{lookup, insert, delete}
use gyzor.Account.Keys.{Account, anonymous}
use gyzor.Message.Request.{Request, op, serialize}
use gyzor.Message.Response.{
  Response, Invalid, parse_response, validate, require_counts, code, field, int_field,
}
use gyzor.Client.Server.{Server, addr, QueryError, ServerResult}

-- The fields of a `Client` that a query reads. Times and durations are nanoseconds.
pub record Client : Type 0 where
  pub servers : List Server
  pub accounts : List (Bytes × Account)
  pub default_account : Account
  pub timeout : ℕ

-- What the accounts file says of a server.
unfoldable pub on_file : Option Account → Account
on_file none = anonymous
on_file (some a) = a

-- `account`
unfoldable pub account : Client → Server → Account
unfolding on_file
account c s =
    if not (bytes_eq c.default_account.username [])
    then c.default_account
    else on_file (lookup (addr s) c.accounts)

module _ (Addr : Type 0) where
  -- `addrEntry`
  pub record AddrEntry : Type 0 where
    pub address : Addr
    pub expires : ℕ

  -- What the network gives a query: the resolver's answer, whether the socket opens and takes the
  -- packet, and the datagram that is read back, if one comes in time.
  pub record Net : Type 0 where
    pub resolved : Option Addr
    pub dialed : Addr → Bool
    pub sent : Addr → Bytes → Bool
    pub reply : Addr → Bytes → Option Bytes

abbrev pub Cache : Type 0 → Type 0
Cache Addr = List (Bytes × AddrEntry Addr)

-- `addrTTL`
abbrev pub addr_ttl : ℕ
addr_ttl = 30_000_000_000

module _ {Addr : Type 0} where
  -- The entry of the cache, if it has not expired.
  unfoldable pub cached : Cache Addr → Bytes → ℕ → Option Addr
  cached cache key now = elim (lookup key cache) [
    | none ↦ none
    | some e ↦ if ltb now e.expires then some e.address else none
  ]

  -- `resolve` behind the first unlock: a failure is not cached.
  unfoldable pub resolve_anew : Cache Addr → Bytes → ℕ → Option Addr → Cache Addr × Option Addr
  resolve_anew cache key now none = (cache, none)
  resolve_anew cache key now (some a) =
      (insert key (record { address = a; expires = now + addr_ttl }) cache, some a)

  -- `resolve`; the last argument is what `net.ResolveUDPAddr` would give.
  unfoldable pub resolve : Cache Addr → Server → ℕ → Option Addr → Cache Addr × Option Addr
  unfolding cached resolve_anew
  resolve cache s now answer = elim (cached cache (addr s) now) [
    | some a ↦ (cache, some a)
    | none ↦ resolve_anew cache (addr s) now answer
  ]

  -- `invalidateAddr`
  unfoldable pub invalidate_addr : Cache Addr → Server → Cache Addr
  invalidate_addr cache s = delete (addr s) cache

pub data Outcome : Type 0 where
  answered : Response → Outcome
  failed : QueryError → Outcome

-- The check of the counts of a successful answer to `check`.
unfoldable pub accept_counts : Bytes → Response → Outcome
accept_counts op_name r =
    if bytes_eq op_name (codes "check") && eqb_ℤ (code r) (pos 200)
    then elim (require_counts r) [
      | none ↦ Outcome.answered r
      | some e ↦ Outcome.failed (QueryError.invalid_reply e)
    ]
    else Outcome.answered r

-- `query` behind the read: the checks on the reply.
unfoldable pub accept_reply : Bytes → ℤ → Option Bytes → Outcome
accept_reply op_name thread none = Outcome.failed QueryError.read_failed
accept_reply op_name thread (some datagram) =
    let r = parse_response datagram in
    elim (validate thread r) [
      | some e ↦ Outcome.failed (QueryError.invalid_reply e)
      | none ↦ accept_counts op_name r
    ]

module _ {Addr : Type 0} where
  -- `query` behind the resolution of the address.
  unfoldable pub exchange :
      Cache Addr → Server → Bytes → ℤ → Bytes → Net Addr → Option Addr → Cache Addr × Outcome
  exchange cache s op_name thread packet net none =
      (cache, Outcome.failed QueryError.resolve_failed)
  exchange cache s op_name thread packet net (some a) =
      if not (net.dialed a)
      then (invalidate_addr cache s, Outcome.failed QueryError.dial_failed)
      else if not (net.sent a packet)
      then (invalidate_addr cache s, Outcome.failed QueryError.send_failed)
      else (cache, accept_reply op_name thread (net.reply a packet))

  -- `query`, at the time `now` with the `time.Now().Unix()` `seconds` and the drawn thread.
  unfoldable pub query :
      (ℕ → ℕ) → Client → Cache Addr → Server → Request → Net Addr → ℤ → ℤ → ℕ → Cache Addr × Outcome
  query lower c cache s req net thread seconds now =
      let packet = serialize lower (account c s) seconds thread req in
      let (cache', a) = resolve cache s now net.resolved in
      exchange cache' s (op req) thread packet net a

-- The result that `queryAll` stores for a server.
unfoldable pub server_result : Server → Outcome → ServerResult
server_result s (Outcome.failed e) = record {
  server = s;
  code = pos 0;
  diag = [];
  count = pos 0;
  wl_count = pos 0;
  err = some e;
}
server_result s (Outcome.answered r) = record {
  server = s;
  code = code r;
  diag = field (codes "Diag") r;
  count = int_field (codes "Count") r;
  wl_count = int_field (codes "WL-Count") r;
  err = none;
}

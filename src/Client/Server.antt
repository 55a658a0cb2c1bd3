-- ===== src/Client/Server.antt =====
-- pyzor/client.go: server addresses and the result of a query to one server.
use gyzor.Prelude.{Bytes, codes, [], ◌∷◌, ◌++◌, Option, if◌then◌else◌}
use gyzor.Prelude.Int.{ℤ, pos}
use gyzor.Go.Numbers.{itoa}
use gyzor.Go.Strings.{contains_byte}
use gyzor.Message.Response.{Invalid}

pub record Server : Type 0 where
  pub host : Bytes
  pub port : ℤ

-- `DefaultServer`
abbrev pub default_server : Server
default_server = record { host = codes "public.pyzor.org"; port = pos 24441 }

-- `addr`: `net.JoinHostPort` puts brackets round a host with a colon.
unfoldable pub addr : Server → Bytes
addr s =
    (if contains_byte s.host b':' then b'[' ∷ (s.host ++ b']' ∷ []) else s.host)
    ++ (b':' ∷ itoa s.port)

-- `String`
unfoldable pub to_string : Server → Bytes
to_string s = s.host ++ (b':' ∷ itoa s.port)

-- The errors of `query`, by the step that fails.
pub data QueryError : Type 0 where
  resolve_failed dial_failed send_failed read_failed : QueryError
  invalid_reply : Invalid → QueryError

pub record ServerResult : Type 0 where
  pub server : Server
  pub code : ℤ
  pub diag : Bytes
  pub count : ℤ
  pub wl_count : ℤ
  pub err : Option QueryError

-- ===== src/Client/Files.antt =====
-- pyzor/client.go: `LoadServers` and `LoadAccounts`. An argument `none` is a file that does not open.
pub mod Fields
pub mod RoundTrip
pub mod Lines
pub mod Saved
pub mod Again
use gyzor.Prelude.{
  ℕ, suc, Bool, true, false, ◌&&◌, ◌||◌, List, [], ◌∷◌, Option, none, some, Bytes, bytes_eq, codes,
  ◌==◌, leb, length, take, drop, if◌then◌else◌,
}
use gyzor.Go.Maps.{insert}
use gyzor.Go.Numbers.{Parsed, atoi}
use gyzor.Go.Scanner.{scan_lines}
use gyzor.Go.Strings.{split, trim_space, last_index_byte}
use gyzor.Account.File.{is_skipped}
use gyzor.Account.Keys.{Account, key_from_hex_str}
use gyzor.Client.Server.{Server, default_server, addr}

unfoldable pub is_digit : ℕ → Bool
is_digit c = leb b'0' c && leb c b'9'

unfoldable pub is_host_byte : ℕ → Bool
is_host_byte c =
    (leb b'a' c && leb c b'z')
    || (leb b'A' c && leb c b'Z')
    || (leb b'0' c && leb c b'9')
    || c == b'.'
    || c == b'-'

unfoldable pub starts_port : Bytes → Bool
unfolding is_digit
starts_port [] = false
starts_port (c ∷ s) = is_digit c

-- `serverLineRe`, from a place with host bytes in front of it (`begun`) or not.
unfoldable pub matches_server : Bool → Bytes → Bool
unfolding is_host_byte starts_port
matches_server begun [] = false
matches_server begun (c ∷ s) =
    let rest = matches_server true s in
    if is_host_byte c then rest else begun && c == b':' && starts_port s

unfoldable pub server_at : Bytes → Option ℕ → Option Server
server_at line none = none
server_at line (some i) = elim ((atoi (drop (suc i) line)).failed) [
  | some e ↦ none
  | none ↦ some (record { host = take i line; port = (atoi (drop (suc i) line)).value })
]

-- One round of the loop of `LoadServers`.
unfoldable pub server_of_line : Bytes → Option Server
unfolding matches_server server_at
server_of_line text =
    let line = trim_space text in
    if matches_server false line then server_at line (last_index_byte line b':') else none

unfoldable pub servers_of_lines : List Bytes → List Server
unfolding server_of_line
servers_of_lines [] = []
servers_of_lines (text ∷ rest) = elim (server_of_line text) [
  | none ↦ servers_of_lines rest
  | some s ↦ s ∷ servers_of_lines rest
]

unfoldable pub or_default : List Server → List Server
or_default [] = default_server ∷ []
or_default (s ∷ servers) = s ∷ servers

-- `LoadServers`
unfoldable pub load_servers : Option Bytes → List Server
unfolding servers_of_lines or_default
load_servers none = default_server ∷ []
load_servers (some b) = or_default (servers_of_lines (scan_lines b))

-- The entry of a line, on what `Atoi` gives for the port and `keyFromHexStr` for the keys.
unfoldable pub entry_at : Bytes → Parsed → Bytes → Option (Bytes × Bytes) → Option (Bytes × Account)
entry_at host p user none = none
entry_at host p user (some (salt, key)) = elim (p.failed) [
  | some e ↦ none
  | none ↦
      if bytes_eq salt [] && bytes_eq key []
      then none
      else some (
        addr (record { host = host; port = p.value }),
        record { username = user; salt = salt; key = key },
      )
]

unfoldable pub entry_of_parts : List Bytes → Option (Bytes × Account)
unfolding entry_at
entry_of_parts (host ∷ port ∷ user ∷ keys ∷ []) =
    entry_at (trim_space host) (atoi (trim_space port)) (trim_space user)
      (key_from_hex_str (trim_space keys))
entry_of_parts parts = none

-- One round of the loop of `LoadAccounts`.
unfoldable pub entry_of_line : Bytes → Option (Bytes × Account)
unfolding entry_of_parts is_skipped
entry_of_line text =
    let line = trim_space text in if is_skipped line then none else entry_of_parts (split line b':')

unfoldable pub add_entry :
    Option (Bytes × Account) → List (Bytes × Account) → List (Bytes × Account)
add_entry none accounts = accounts
add_entry (some (a, acc)) accounts = insert a acc accounts

unfoldable pub accounts_of_lines : List Bytes → List (Bytes × Account) → List (Bytes × Account)
unfolding entry_of_line add_entry
accounts_of_lines [] accounts = accounts
accounts_of_lines (text ∷ rest) accounts =
    accounts_of_lines rest (add_entry (entry_of_line text) accounts)

-- `LoadAccounts`
unfoldable pub load_accounts : Option Bytes → List (Bytes × Account)
unfolding accounts_of_lines
load_accounts none = []
load_accounts (some b) = accounts_of_lines (scan_lines b) []

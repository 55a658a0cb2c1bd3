-- ===== src/Account/File.antt =====
-- pyzor/account.go: `accountLine`, `accountAddrOfLine` and `SaveAccount`; pyzor/client.go:
-- `LoadAccounts`. A file is its bytes.
use gyzor.Prelude.{
  Bool, true, false, ◌||◌, List, [], ◌∷◌, ◌++◌, Option, none, some, Bytes, bytes_eq, codes, leb,
  length, if◌then◌else◌, map,
}
use gyzor.Go.Numbers.{Parsed, itoa, atoi}
use gyzor.Go.Strings.{is_cr, split, join, trim_right, trim_space, has_prefix}
use gyzor.Account.Keys.{Account}
use gyzor.Client.Server.{Server, addr}

-- `accountLine`
unfoldable pub account_line : Server → Account → Bytes
account_line s acc =
    s.host
    ++ (codes " : "
        ++ (itoa s.port
            ++ (codes " : " ++ (acc.username ++ (codes " : " ++ (acc.salt ++ (b',' ∷ acc.key)))))))

-- A line that both readers of the file skip.
unfoldable pub is_skipped : Bytes → Bool
is_skipped line = bytes_eq line [] || has_prefix line (codes "#")

-- The address, on what `Atoi` gives for the port.
unfoldable pub addr_at : Bytes → Parsed → Option Bytes
addr_at host p = elim (p.failed) [
  | some e ↦ none
  | none ↦ some (addr (record { host = host; port = p.value }))
]

-- `len(parts) != 4`, and what follows it.
unfoldable pub addr_of_parts : List Bytes → Option Bytes
unfolding addr_at
addr_of_parts (host ∷ port ∷ user ∷ keys ∷ []) = addr_at (trim_space host) (atoi (trim_space port))
addr_of_parts parts = none

-- `accountAddrOfLine`
unfoldable pub account_addr_of_line : Bytes → Option Bytes
unfolding is_cr is_skipped addr_of_parts
account_addr_of_line text =
    let line = trim_space (trim_right is_cr text) in
    if is_skipped line then none else addr_of_parts (split line b':')

pub data FileRead : Type 0 where
  missing unreadable : FileRead
  contents : Bytes → FileRead

pub data SaveError : Type 0 where
  empty_homedir no_servers empty_username mkdir_failed read_failed write_failed : SaveError

pub data Saved : Type 0 where
  failed : SaveError → Saved
  saved : Bytes → Saved

-- `replace[a]`
unfoldable pub replaced : List Server → Bytes → Bool
replaced [] a = false
replaced (s ∷ servers) a = bytes_eq (addr s) a || replaced servers a

unfoldable pub is_stale : List Server → Option Bytes → Bool
unfolding replaced
is_stale servers none = false
is_stale servers (some a) = replaced servers a

-- The loop over the lines of the old file.
unfoldable pub kept_lines : List Server → List Bytes → List Bytes
unfolding is_stale is_cr
kept_lines servers [] = []
kept_lines servers (line ∷ rest) =
    let kept = kept_lines servers rest in
    if is_stale servers (account_addr_of_line line)
    then kept
    else if bytes_eq (trim_right is_cr line) []
    then kept
    else trim_right is_cr line ∷ kept

-- The new file, of the lines that are kept and a line for each server.
unfoldable pub new_file : List Server → Account → List Bytes → Bytes
new_file servers acc kept =
    join (kept ++ map (λ s. account_line s acc) servers) b'\n' ++ (b'\n' ∷ [])

unfoldable pub kept_of : List Server → FileRead → Option (List Bytes)
unfolding kept_lines
kept_of servers FileRead.missing = some []
kept_of servers FileRead.unreadable = none
kept_of servers (FileRead.contents b) = some (kept_lines servers (split b b'\n'))

unfoldable pub write_file : Bool → Bytes → Saved
write_file true b = Saved.saved b
write_file false b = Saved.failed SaveError.write_failed

-- `SaveAccount`; `made` and `written` say whether `MkdirAll` and the write succeed, `old` is what is
-- read.
unfoldable pub save_account : Bytes → List Server → Account → Bool → FileRead → Bool → Saved
save_account homedir servers acc made old written =
    if bytes_eq homedir []
    then Saved.failed SaveError.empty_homedir
    else if leb (length servers) 0
    then Saved.failed SaveError.no_servers
    else if bytes_eq acc.username []
    then Saved.failed SaveError.empty_username
    else if made
    then elim (kept_of servers old) [
      | none ↦ Saved.failed SaveError.read_failed
      | some kept ↦ write_file written (new_file servers acc kept)
    ]
    else Saved.failed SaveError.mkdir_failed

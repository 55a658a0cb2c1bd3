-- ===== src/Tests/Files.antt =====
-- The files of servers and accounts on concrete values.
use gyzor.Prelude.{
  ◌≡◌, refl, [], ◌∷◌, List, none, some, Bytes, bytes_eq, codes, true, All, arith, if◌then◌else◌,
}
use gyzor.Prelude.Int.{pos}
use gyzor.Go.Maps.{lookup}
use gyzor.Go.Numbers.{itoa, atoi}
use gyzor.Go.Scanner.{scan_lines}
use gyzor.Go.Strings.{
  split, join, trim_space, trim_right, has_prefix, contains_byte, last_index_byte,
}
use gyzor.Account.Atomic.{Disk, DiskRun, begin, then_step, create, set_mode, write}
use gyzor.Account.Atomic.Committed.{is_committed, run-committed}
use gyzor.Account.Keys.{Account}
use gyzor.Account.File.{
  account_line, account_addr_of_line, FileRead, Saved, kept_of, new_file, save_account,
}
use gyzor.Client.Files.{load_servers, entry_of_line, load_accounts}
use gyzor.Client.Files.Fields.{IsStorable}
use gyzor.Client.Files.Lines.{IsShort}
use gyzor.Client.Files.Again.{save_account-again}
use gyzor.Client.Files.Saved.{save_account-load_accounts}
use gyzor.Client.Server.{default_server, addr}

abbrev pub alice : Account
alice = record { username = codes "alice"; salt = codes "11aa"; key = codes "22bb" }

pub alice-IsStorable : IsStorable default_server alice
unfolding bytes_eq
alice-IsStorable = record {
  host_field = record { graphic = omega arith; no_colon = omega arith };
  host_there = λ e. cc;
  no_comment = omega arith;
  port_range = omega arith;
  user_field = record { graphic = omega arith; no_colon = omega arith };
  salt_field = record { graphic = omega arith; no_colon = omega arith };
  no_comma = omega arith;
  key_field = record { graphic = omega arith; no_colon = omega arith };
  key_there = λ e. cc;
}

abbrev pub old_file : FileRead
old_file = FileRead.contents (codes "# mine\npublic.pyzor.org : 24441 : bob : 33,44\r\n")

abbrev pub kept_comment : List Bytes
kept_comment = codes "# mine" ∷ []

pub old_kept : kept_of (default_server ∷ []) old_file ≡ some kept_comment
unfolding kept_of account_addr_of_line split trim_space trim_right has_prefix atoi bytes_eq addr
    contains_byte itoa
old_kept = refl

pub new_file-IsShort : All IsShort (split (new_file (default_server ∷ []) alice kept_comment) b'\n')
unfolding new_file account_line join split itoa
new_file-IsShort = omega arith

save_account-load_accounts_example :
    (save_account (codes "/home/alice/.pyzor") (default_server ∷ []) alice true old_file true
      ≡ Saved.saved (new_file (default_server ∷ []) alice kept_comment))
    × All
        (λ t.
          lookup (addr t) (load_accounts (some (new_file (default_server ∷ []) alice kept_comment)))
          ≡ some alice)
        (default_server ∷ [])
save_account-load_accounts_example =
    save_account-load_accounts (codes "/home/alice/.pyzor") default_server [] alice old_file
      kept_comment (λ e. cc) (λ e. cc) old_kept (alice-IsStorable, tt) new_file-IsShort

save_account-again_example :
    save_account
      (codes "/home/alice/.pyzor")
      (default_server ∷ [])
      alice
      true
      (FileRead.contents (new_file (default_server ∷ []) alice kept_comment))
      true
    ≡ save_account (codes "/home/alice/.pyzor") (default_server ∷ []) alice true old_file true
save_account-again_example =
    save_account-again (codes "/home/alice/.pyzor") default_server [] alice true true old_file
      kept_comment (alice-IsStorable, tt) old_kept

-- A line for a host with colons is read by neither reader.
colon_host :
    (entry_of_line (account_line (record { host = codes "::1"; port = pos 24441 }) alice) ≡ none)
    × (account_addr_of_line (account_line (record { host = codes "::1"; port = pos 24441 }) alice)
        ≡ none)
unfolding entry_of_line account_addr_of_line account_line split trim_space trim_right has_prefix
    itoa bytes_eq
colon_host = (refl, refl)

some_servers :
    load_servers (some (codes "# none\n a.example:1234 \r\nb.example:x\n\nc-d.example:80"))
    ≡ record { host = codes "a.example"; port = pos 1234 }
      ∷ record { host = codes "c-d.example"; port = pos 80 }
      ∷ []
unfolding load_servers scan_lines split trim_space last_index_byte atoi
some_servers = refl

-- The file is written as far as its first byte.
abbrev half_written : (d : Disk) × DiskRun (some (codes "old\n")) (codes "new\n") d
half_written = (
  _,
  then_step (then_step (then_step begin (create refl)) (set_mode refl))
      (write 0 refl (omega arith)),
)

run-committed_example :
    half_written.0.file
    ≡ (if is_committed half_written.0.point then some (codes "new\n") else some (codes "old\n"))
run-committed_example =
    run-committed (some (codes "old\n")) (codes "new\n") half_written.0 half_written.1

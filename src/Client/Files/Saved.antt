-- ===== src/Client/Files/Saved.antt =====
-- A file that `SaveAccount` writes, read by `LoadAccounts`.
use gyzor.Prelude.{
  ◌≡◌, ◌≢◌, refl, sym, ap, ◌∙◌, true, false, List, [], ◌∷◌, ◌++◌, map, append_assoc, some, arith,
  Bytes, bytes_eq, bytes_eq_iff, All, Lacks,
}
use gyzor.Go.Maps.{lookup, insert, lookup-insert}
use mathlib.Core.Path.{subst}
use gyzor.Go.Scanner.{drop_cr, tokens, scan_lines}
use gyzor.Go.Strings.{split}
use gyzor.Account.Keys.{Account}
use gyzor.Account.File.{account_line, new_file, kept_of, write_file, FileRead, Saved, save_account}
use gyzor.Client.Files.{entry_of_line, add_entry, accounts_of_lines, load_accounts}
use gyzor.Go.Strings.Trim.{IsPlain}
use gyzor.Client.Files.Fields.{IsStorable}
use gyzor.Client.Files.RoundTrip.{account_line-IsPlain, entry_of_line-account_line}
use gyzor.Client.Server.{Server, addr}
use gyzor.Client.Files.Lines.{
  split-lines, file_of, split-file_of, IsShort, tokens-lines, drop_cr_id,
}

accounts-append :
    (xs ys : List Bytes) (m : List (Bytes × Account))
    → accounts_of_lines (xs ++ ys) m ≡ accounts_of_lines ys (accounts_of_lines xs m)
unfolding accounts_of_lines
accounts-append [] ys m = refl
accounts-append (x ∷ xs) ys m = accounts-append xs ys (add_entry (entry_of_line x) m)

map-append-cr : (xs ys : List Bytes) → map drop_cr (xs ++ ys) ≡ map drop_cr xs ++ map drop_cr ys
map-append-cr [] ys = refl
map-append-cr (x ∷ xs) ys = ap (◌∷◌ (drop_cr x)) (map-append-cr xs ys)

IsPlain-Lacks : (s : Bytes) → All IsPlain s → Lacks b'\n' s
IsPlain-Lacks [] h = tt
IsPlain-Lacks (c ∷ s) (hc, h) = (omega arith, IsPlain-Lacks s h)

module _ (acc : Account) where
  unfoldable pub lines_for : List Server → List Bytes
  lines_for servers = map (λ s. account_line s acc) servers

  abbrev pub Storable : List Server → Type 0
  Storable = All (λ s. IsStorable s acc)

  -- The map with an entry for each server.
  put_all : List Server → List (Bytes × Account) → List (Bytes × Account)
  put_all [] m = m
  put_all (s ∷ servers) m = put_all servers (insert (addr s) acc m)

  accounts-lines_for :
      (servers : List Server) (m : List (Bytes × Account))
      → Storable servers
      → accounts_of_lines (map drop_cr (lines_for servers)) m ≡ put_all servers m
  unfolding accounts_of_lines lines_for put_all add_entry
  accounts-lines_for [] m h = refl
  accounts-lines_for (s ∷ servers) m (hs, h) =
      rw
        (
          drop_cr_id (account_line s acc) (account_line-IsPlain s acc hs),
          entry_of_line-account_line s acc hs,
        )
        (accounts-lines_for servers (insert (addr s) acc m) h)

  lookup-put_all :
      (a : Bytes) (servers : List Server) (m : List (Bytes × Account))
      → lookup a m ≡ some acc
      → lookup a (put_all servers m) ≡ some acc
  unfolding put_all
  lookup-put_all a [] m h = h
  lookup-put_all a (s ∷ servers) m h =
      lookup-put_all a servers (insert (addr s) acc m)
        (ground (arith, lookup-insert (addr s) a acc m))

  All-put_all :
      (servers : List Server) (m : List (Bytes × Account))
      → All (λ s. lookup (addr s) (put_all servers m) ≡ some acc) servers
  unfolding put_all
  All-put_all [] m = tt
  All-put_all (s ∷ servers) m = (
    lookup-put_all (addr s) servers (insert (addr s) acc m)
        (ground (arith, lookup-insert (addr s) (addr s) acc m, bytes_eq_iff (addr s) (addr s))),
    All-put_all servers (insert (addr s) acc m),
  )

  pub lines_for-Lacks :
      (servers : List Server) → Storable servers → All (Lacks b'\n') (lines_for servers)
  unfolding lines_for
  lines_for-Lacks [] h = tt
  lines_for-Lacks (s ∷ servers) (hs, h) = (
    IsPlain-Lacks (account_line s acc) (account_line-IsPlain s acc hs),
    lines_for-Lacks servers h,
  )

  load-new_file :
      (s : Server) (servers : List Server) (kept : List Bytes)
      → Storable (s ∷ servers)
      → All IsShort (split (new_file (s ∷ servers) acc kept) b'\n')
      → All
          (λ t. lookup (addr t) (load_accounts (some (new_file (s ∷ servers) acc kept))) ≡ some acc)
          (s ∷ servers)
  unfolding load_accounts scan_lines new_file lines_for file_of
  load-new_file s servers kept h short =
      let lines = lines_for (s ∷ servers) in
      let (pre, e) = split-file_of kept lines (λ e. cc) in
      let cut : split (file_of (kept ++ lines)) b'\n' ≡ (pre ++ lines) ++ ([] ∷ []) =
        e
        ∙ ap (λ ls. pre ++ ls)
            (split-lines (account_line s acc) (lines_for servers) (lines_for-Lacks (s ∷ servers) h))
        ∙ sym (append_assoc pre lines ([] ∷ [])) in
      let start = accounts_of_lines (map drop_cr pre) [] in
      let read : accounts_of_lines (tokens (split (file_of (kept ++ lines)) b'\n')) []
          ≡ put_all (s ∷ servers) start =
        ap (λ ls. accounts_of_lines (tokens ls) []) cut
        ∙ ap (λ ls. accounts_of_lines ls [])
            (tokens-lines (pre ++ lines) (subst (All IsShort) cut short))
        ∙ ap (λ ls. accounts_of_lines ls []) (map-append-cr pre lines)
        ∙ accounts-append (map drop_cr pre) (map drop_cr lines) []
        ∙ accounts-lines_for (s ∷ servers) start h in
      subst (λ m. All (λ t. lookup (addr t) m ≡ some acc) (s ∷ servers)) (sym read)
        (All-put_all (s ∷ servers) start)

pub bytes_eq_ne : (a : Bytes) → a ≢ [] → bytes_eq a [] ≡ false
bytes_eq_ne a h = ground (arith, bytes_eq_iff a [])

saves :
    (homedir : Bytes) (s : Server) (servers : List Server) (acc : Account) (old : FileRead)
    (kept : List Bytes)
    → homedir ≢ []
    → acc.username ≢ []
    → kept_of (s ∷ servers) old ≡ some kept
    → save_account homedir (s ∷ servers) acc true old true
      ≡ Saved.saved (new_file (s ∷ servers) acc kept)
unfolding save_account write_file
saves homedir s servers acc old kept home user read =
    rw (bytes_eq_ne homedir home, bytes_eq_ne acc.username user, read) (ground arith)

-- Where the home directory and the user name are not empty, the directory can be made, the old file
-- is missing or can be read, the new one can be written, every server with the account can be
-- stored, and the lines of the new file are below 65536 bytes, SaveAccount writes a file from which
-- LoadAccounts reads the account for each of the servers, whatever the old file holds.
pub save_account-load_accounts :
    (homedir : Bytes) (s : Server) (servers : List Server) (acc : Account) (old : FileRead)
    (kept : List Bytes)
    → homedir ≢ []
    → acc.username ≢ []
    → kept_of (s ∷ servers) old ≡ some kept
    → All (λ t. IsStorable t acc) (s ∷ servers)
    → All IsShort (split (new_file (s ∷ servers) acc kept) b'\n')
    → (save_account homedir (s ∷ servers) acc true old true
        ≡ Saved.saved (new_file (s ∷ servers) acc kept))
      × All
          (λ t. lookup (addr t) (load_accounts (some (new_file (s ∷ servers) acc kept))) ≡ some acc)
          (s ∷ servers)
save_account-load_accounts homedir s servers acc old kept home user read storable short = (
  saves homedir s servers acc old kept home user read,
  load-new_file acc s servers kept storable short,
)

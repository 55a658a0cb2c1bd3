-- ===== src/Cli/Identity.antt =====
-- Which account signs the requests of a command.
use gyzor.Prelude.{
  ◌≡◌, ◌≢◌, sym, ◌↔◌, ◌⊎◌, refl, ap, ◌∙◌, true, List, [], ◌∷◌, Option, none, some, Bytes,
  bytes_eq_iff, codes, arith, All,
}
use mathlib.Core.Path.{subst}
use mathlib.Core.Option.{some-injective}
use gyzor.Go.Maps.{lookup}
use gyzor.Go.Strings.{split}
use gyzor.Account.Keys.{Account}
use gyzor.Account.File.{Saved, kept_of, new_file, save_account}
use gyzor.Client.Files.{load_accounts}
use gyzor.Client.Files.Fields.{IsStorable}
use gyzor.Client.Files.Lines.{IsShort}
use gyzor.Client.Files.Saved.{bytes_eq_ne, save_account-load_accounts}
use gyzor.Client.Query.{Client, account, on_file}
use gyzor.Client.Server.{Server, addr}
use gyzor.Cli.Options.{
  Options, HomeFiles, no_account, build_account, build_client, client_of, new_client, config_of,
  accounts_or,
}
use gyzor.Cli.Run.{World, run_register, register_with, registered}

-- For a command other than register, buildAccount fails just where one of the user name and the key
-- is given without the other.
pub build_account-none :
    (op user key salt : Bytes)
    → op ≢ codes "register"
    → (build_account op user key salt ≡ none)
      ↔ (((user ≡ []) × (key ≢ [])) ⊎ ((user ≢ []) × (key ≡ [])))
unfolding build_account
build_account-none op user key salt h =
    let eqs = bytes_eq_iff op (codes "register") in
    let us = bytes_eq_iff user [] in
    let ks = bytes_eq_iff key [] in (λ e. ground arith, λ e. ground arith)

client_default :
    (o : Options) (acc : Account) (files : HomeFiles) (servers : Option (List Server)) (c : Client)
    → client_of o acc files servers ≡ some c
    → (c.default_account ≡ acc) × (c.accounts ≡ accounts_or none o.homedir files)
unfolding client_of new_client config_of
client_default o acc files none c e = cc
client_default o acc files (some servers) c e = ground arith

build_client-default :
    (o : Options) (acc : Account) (files : HomeFiles) (c : Client)
    → build_client o acc files ≡ some c
    → (c.default_account ≡ acc) × (c.accounts ≡ accounts_or none o.homedir files)
unfolding build_client
build_client-default o acc files c e = client_default o acc files _ c e

explicit_account :
    (op user key salt : Bytes)
    → op ≢ codes "register"
    → user ≢ []
    → key ≢ []
    → build_account op user key salt ≡ some (record { username = user; salt = salt; key = key })
unfolding build_account
explicit_account op user key salt h hu hk =
    ground (arith, bytes_eq_iff op (codes "register"), bytes_eq_iff user [], bytes_eq_iff key [])

account-default :
    (c : Client) (s : Server) (acc : Account)
    → c.default_account ≡ acc
    → acc.username ≢ []
    → account c s ≡ acc
unfolding account
account-default c s acc e h =
    let given : c.default_account.username ≢ [] = λ n. h (sym (ap (λ a. a.username) e) ∙ n) in
    ground (arith, bytes_eq_iff c.default_account.username [])

-- Where a user name and a key are given, a command other than register signs its request to every
-- server with them, whatever the accounts file holds.
pub explicit-account :
    (o : Options) (op : Bytes) (files : HomeFiles) (acc : Account) (c : Client) (s : Server)
    → op ≢ codes "register"
    → o.user ≢ []
    → o.key ≢ []
    → build_account op o.user o.key o.salt ≡ some acc
    → build_client o acc files ≡ some c
    → account c s ≡ record { username = o.user; salt = o.salt; key = o.key }
explicit-account o op files acc c s h hu hk ea ec =
    let given : acc ≡ record { username = o.user; salt = o.salt; key = o.key } =
      some-injective acc _ (sym ea ∙ explicit_account op o.user o.key o.salt h hu hk) in
    account-default c s acc (build_client-default o acc files c ec).0
      (λ n. hu (sym (ap (λ a. a.username) given) ∙ n))
    ∙ given

account-found :
    (c : Client) (s : Server) (acc : Account)
    → c.default_account.username ≡ []
    → lookup (addr s) c.accounts ≡ some acc
    → account c s ≡ acc
unfolding account on_file
account-found c s acc e found =
    rw (found) (ground (arith, bytes_eq_iff c.default_account.username []))

accounts-found :
    (c : Client) (servers : List Server) (acc : Account)
    → c.default_account.username ≡ []
    → All (λ t. lookup (addr t) c.accounts ≡ some acc) servers
    → All (λ t. account c t ≡ acc) servers
accounts-found c [] acc e found = tt
accounts-found c (s ∷ servers) acc e (hs, h) =
    (account-found c s acc e hs, accounts-found c servers acc e h)

client_of_file :
    (o : Options) (files : HomeFiles) (c : Client) (file : Bytes)
    → o.homedir ≢ []
    → files.accounts_file o.homedir ≡ some file
    → build_client o no_account files ≡ some c
    → (c.default_account.username ≡ []) × (c.accounts ≡ load_accounts (some file))
unfolding accounts_or
client_of_file o files c file home opened built =
    let (d, a) = build_client-default o no_account files c built in
    (ap (λ x. x.username) d, ground (arith, bytes_eq_iff o.homedir []))

-- Behind a save that succeeds, register has written what is saved, and exits with 0.
registers :
    (w : World) (homedir : Bytes) (servers : List Server) (acc : Account) (file : Bytes)
    → acc.username ≢ []
    → acc.key ≢ []
    → save_account homedir servers acc w.can_make (w.old_accounts homedir) w.can_write
      ≡ Saved.saved file
    → ((run_register w homedir servers acc.username acc.key acc.salt).status ≡ 0)
      × ((run_register w homedir servers acc.username acc.key acc.salt).accounts ≡ some file)
unfolding run_register register_with registered
registers w homedir servers acc file user key saved =
    rw (bytes_eq_ne acc.username user, bytes_eq_ne acc.key key, saved) (refl, refl)

-- Where the home directory, the user name and the key are not empty, the directory can be made, the
-- old accounts file is missing or can be read, the new one can be written, every server with the
-- account can be stored, and the lines of the new file are below 65536 bytes, register exits with 0;
-- and a client that is built later on that home directory, with the accounts file that register has
-- written there and without a user name and a key of its own, signs its requests to each of those
-- servers with the account.
pub register-account :
    (w : World) (o : Options) (files : HomeFiles) (s : Server) (servers : List Server)
    (acc : Account) (kept : List Bytes) (c : Client)
    → o.homedir ≢ []
    → acc.username ≢ []
    → acc.key ≢ []
    → w.can_make ≡ true
    → w.can_write ≡ true
    → kept_of (s ∷ servers) (w.old_accounts o.homedir) ≡ some kept
    → All (λ t. IsStorable t acc) (s ∷ servers)
    → All IsShort (split (new_file (s ∷ servers) acc kept) b'\n')
    → files.accounts_file o.homedir
      ≡ (run_register w o.homedir (s ∷ servers) acc.username acc.key acc.salt).accounts
    → build_client o no_account files ≡ some c
    → ((run_register w o.homedir (s ∷ servers) acc.username acc.key acc.salt).status ≡ 0)
      × All (λ t. account c t ≡ acc) (s ∷ servers)
register-account w o files s servers acc kept c home user key make write read storable short later
      built =
    let (saved, found) =
      save_account-load_accounts o.homedir s servers acc (w.old_accounts o.homedir) kept home user
        read storable short in
    let file = new_file (s ∷ servers) acc kept in
    let (ok, wrote) =
      registers w o.homedir (s ∷ servers) acc file user key (rw (make, write) saved) in
    let (d, a) = client_of_file o files c file home (later ∙ wrote) built in
    (
      ok,
      accounts-found c (s ∷ servers) acc d
          (subst (λ m. All (λ t. lookup (addr t) m ≡ some acc) (s ∷ servers)) (sym a) found),
    )

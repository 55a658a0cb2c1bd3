-- ===== src/Cli/Options.antt =====
-- cmd/gyzor/main.go: `buildAccount`, `buildClient`, `parseServersArg`; pyzor/client.go: `New`.
use gyzor.Prelude.{
  ℕ, suc, Bool, false, ◌&&◌, List, [], ◌∷◌, Option, none, some, Bytes, bytes_eq, codes,
  if◌then◌else◌,
}
use gyzor.Prelude.Int.{ℤ, pos, negsuc}
use gyzor.Go.Net.{split_host_port}
use gyzor.Go.Numbers.{Parsed, atoi}
use gyzor.Go.Strings.{split, trim_space, contains_byte, index_byte}
use gyzor.Account.Keys.{Account, split_key}
use gyzor.Client.Files.{load_servers, load_accounts}
use gyzor.Client.Query.{Client}
use gyzor.Client.Server.{Server, default_server}
use gyzor.Cli.Env.{Env, env_str, env_int, env_int_or, env_dur, env_bool, default_home}

-- The flags that `run` reads.
pub record Options : Type 0 where
  pub homedir : Bytes
  pub servers_arg : Bytes
  pub timeout : ℤ
  pub r_count : ℤ
  pub wl_count : ℤ
  pub verbose : Bool
  pub user : Bytes
  pub key : Bytes
  pub salt : Bytes
  pub listen : Bytes
  pub unix_sock : Bytes
  pub token : Bytes
  pub max_conc : ℤ
  pub log_stdout : Bool
  pub show_version : Bool

-- The defaults of the flags.
unfoldable pub defaults : Env → Options
defaults env = record {
  homedir = env_str env (codes "GYZOR_HOMEDIR") (default_home env);
  servers_arg = env.getenv (codes "GYZOR_SERVERS");
  timeout = env_dur env (codes "GYZOR_TIMEOUT") (pos 5_000_000_000);
  r_count = env_int env (codes "GYZOR_R_COUNT");
  wl_count = env_int env (codes "GYZOR_WL_COUNT");
  verbose = env_bool env (codes "GYZOR_VERBOSE");
  user = env.getenv (codes "GYZOR_USER");
  key = env.getenv (codes "GYZOR_KEY");
  salt = env.getenv (codes "GYZOR_SALT");
  listen = env_str env (codes "GYZOR_LISTEN") (codes "127.0.0.1:8078");
  unix_sock = env.getenv (codes "GYZOR_UNIX");
  token = env.getenv (codes "GYZOR_TOKEN");
  max_conc = env_int_or env (codes "GYZOR_MAX_CONCURRENT") (pos env.cpus);
  log_stdout = env_bool env (codes "GYZOR_LOG_STDOUT");
  show_version = false;
}

-- `strings.Cut(key, ",")`
unfoldable pub cut_key : Options → Option (Bytes × Bytes) → Options
cut_key o none = record o { salt = o.key; key = [] }
cut_key o (some (s, k)) = record o { salt = s; key = k }

-- A key that is given as `salt,key` is split.
unfoldable pub split_identity : Options → Options
unfolding cut_key
split_identity o =
    if bytes_eq o.salt [] && contains_byte o.key b','
    then cut_key o (split_key o.key (index_byte o.key b','))
    else o

abbrev pub no_account : Account
no_account = record { username = []; salt = []; key = [] }

-- `buildAccount`; `none` is its error.
unfoldable pub build_account : Bytes → Bytes → Bytes → Bytes → Option Account
build_account op user key salt =
    if bytes_eq op (codes "register")
    then some no_account
    else if bytes_eq user [] && bytes_eq key []
    then some no_account
    else if bytes_eq user []
    then none
    else if bytes_eq key []
    then none
    else some (record { username = user; salt = salt; key = key })

-- `splitComma`
unfoldable pub trimmed_parts : List Bytes → List Bytes
trimmed_parts [] = []
trimmed_parts (p ∷ ps) =
    let rest = trimmed_parts ps in if bytes_eq (trim_space p) [] then rest else trim_space p ∷ rest

unfoldable pub split_comma : Bytes → List Bytes
unfolding trimmed_parts
split_comma s = trimmed_parts (split s b',')

unfoldable pub port_of : Bytes → Parsed → Option Server
port_of host p = elim (p.failed) [
  | none ↦ some (record { host = host; port = p.value })
  | some e ↦ none
]

unfoldable pub server_from : Option (Bytes × Bytes) → Option Server
unfolding port_of
server_from none = none
server_from (some (host, port)) = port_of host (atoi port)

-- `splitHostPort`
unfoldable pub server_of : Bytes → Option Server
server_of s = server_from (split_host_port s)

-- An entry and the entries behind it; `none` is the error of one of them.
unfoldable pub with_server : Option Server → Option (List Server) → Option (List Server)
with_server none rest = none
with_server (some s) none = none
with_server (some s) (some servers) = some (s ∷ servers)

-- The loop of `parseServersArg`.
unfoldable pub parse_entries : List Bytes → Option (List Server)
unfolding with_server
parse_entries [] = some []
parse_entries (part ∷ parts) = with_server (server_of part) (parse_entries parts)

unfoldable pub some_servers : Option (List Server) → Option (List Server)
some_servers none = none
some_servers (some []) = none
some_servers (some (s ∷ servers)) = some (s ∷ servers)

-- `parseServersArg`; `none` is its error.
unfoldable pub parse_servers_arg : Bytes → Option (List Server)
unfolding some_servers
parse_servers_arg arg = some_servers (parse_entries (split_comma arg))

-- `Config`, as `buildClient` fills it.
pub record Config : Type 0 where
  pub home : Bytes
  pub servers : List Server
  pub accounts : Option (List (Bytes × Account))
  pub default_account : Account
  pub timeout : ℤ

-- What the files of a home directory hold; `none` is a file that does not open.
pub record HomeFiles : Type 0 where
  pub servers_file : Bytes → Option Bytes
  pub accounts_file : Bytes → Option Bytes

unfoldable pub servers_or : List Server → Bytes → HomeFiles → List Server
servers_or (s ∷ servers) home files = s ∷ servers
servers_or [] home files =
    if bytes_eq home [] then default_server ∷ [] else load_servers (files.servers_file home)

unfoldable pub accounts_or :
    Option (List (Bytes × Account)) → Bytes → HomeFiles → List (Bytes × Account)
accounts_or (some accounts) home files = accounts
accounts_or none home files =
    if bytes_eq home [] then [] else load_accounts (files.accounts_file home)

unfoldable pub timeout_or : ℤ → ℕ
timeout_or (pos ℕ.zero) = 5_000_000_000
timeout_or (pos (suc n)) = suc n
timeout_or (negsuc n) = 5_000_000_000

-- `New`. `LoadServers` gives a server at least, so its own test for none comes to this.
unfoldable pub new_client : Config → HomeFiles → Client
unfolding servers_or accounts_or timeout_or
new_client cfg files = record {
  servers = servers_or cfg.servers cfg.home files;
  accounts = accounts_or cfg.accounts cfg.home files;
  default_account = cfg.default_account;
  timeout = timeout_or cfg.timeout;
}

unfoldable pub config_of : Options → Account → List Server → Config
config_of o acc servers = record {
  home = o.homedir;
  servers = servers;
  accounts = none;
  default_account = acc;
  timeout = o.timeout;
}

unfoldable pub client_of : Options → Account → HomeFiles → Option (List Server) → Option Client
client_of o acc files none = none
client_of o acc files (some servers) = some (new_client (config_of o acc servers) files)

-- `buildClient`; `none` is its error.
unfoldable pub build_client : Options → Account → HomeFiles → Option Client
unfolding client_of
build_client o acc files =
    client_of o acc files
      (if bytes_eq o.servers_arg [] then some [] else parse_servers_arg o.servers_arg)

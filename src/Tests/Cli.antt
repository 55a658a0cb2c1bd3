-- ===== src/Tests/Cli.antt =====
-- Command lines on concrete arguments.
use gyzor.Prelude.{
  ◌≡◌, ◌≢◌, ◌≤◌, ◌↔◌, refl, false, true, inl, [], ◌∷◌, ◌++◌, List, map, none, some, Bytes, bytes_eq,
  codes, length, All, arith,
}
use gyzor.Prelude.Int.{pos}
use gyzor.Go.Net.{split_host_port, plain_host, no_brackets, bracketed}
use gyzor.Go.Numbers.{atoi}
use gyzor.Go.Strings.{split, join, trim_space, index_byte, last_index_byte, contains_byte}
use gyzor.Account.Keys.{split_key}
use gyzor.Account.File.{new_file}
use gyzor.Client.Query.{account}
use gyzor.Client.Server.{Server, default_server, addr}
use gyzor.Client.Verdict.{aggregate}
use gyzor.Client.Verdict.Laws.{IsHit}
use gyzor.Serve.Handlers.{max_body}
use gyzor.Serve.Setup.{run_serve, serve_unix, safety_check, is_loopback_listen, is_loopback_host}
use gyzor.Cli.Addresses.{IsNamed, parse_servers_arg-addrs}
use gyzor.Cli.Env.{Env}
use gyzor.Cli.Identity.{explicit-account, register-account}
use gyzor.Cli.Named.{build_client-named}
use gyzor.Cli.Options.{
  Options, HomeFiles, no_account, split_identity, build_account, build_client, new_client,
  config_of, parse_servers_arg, parse_entries, server_of, server_from, split_comma, defaults,
}
use gyzor.Cli.Run.{
  World, exit, serve_config, serve_exit, dispatch, run_register, run_op, run_parsed, run_rest,
  with_account, with_client, run,
}
use gyzor.Cli.Status.{check-status, run_op-refused}
use gyzor.Cli.Usage.{run-usage}
use gyzor.Tests.Client.{two_servers}
use gyzor.Tests.Daemon.{system}
use gyzor.Tests.Files.{alice, alice-IsStorable, old_file, kept_comment, old_kept, new_file-IsShort}

abbrev pub options : Options
options = record {
  homedir = codes "/home/alice/.pyzor";
  servers_arg = [];
  timeout = pos 5_000_000_000;
  r_count = pos 5;
  wl_count = pos 1;
  verbose = false;
  user = [];
  key = [];
  salt = [];
  listen = codes "127.0.0.1:8078";
  unix_sock = [];
  token = [];
  max_conc = pos 4;
  log_stdout = false;
  show_version = false;
}

abbrev files : HomeFiles
files = record {
  servers_file = λ home. none;
  accounts_file = λ home. some (new_file (default_server ∷ []) alice kept_comment);
}

abbrev env : Env
env = record {
  getenv = λ key. [];
  user_home = some (codes "/home/alice");
  join_path = λ a b. a ++ (b'/' ∷ b);
  parse_duration = λ s. none;
  cpus = 4;
  lower = λ c. c;
}

abbrev pub world : World
world = record {
  env = env;
  parse_flags = λ args o. some (o, args);
  files = files;
  stdin = some (codes "From: a@b.example\n\nhello\n");
  raw_salt = some (codes "12345678901234567890");
  raw_key = none;
  old_accounts = λ home. old_file;
  can_make = true;
  can_write = true;
  check = λ c raw. aggregate two_servers;
  report = λ c raw. true;
  revoke = λ c raw. false;
  ping = λ c. true;
  compute = λ raw. codes "da39a3";
  system = system;
  show_error = λ e. codes "error";
  show_version = codes "dev";
  quote = λ s. b'"' ∷ (s ++ b'"' ∷ []);
}

abbrev signed_options : Options
signed_options = record options { user = codes "alice"; key = codes "22bb"; salt = codes "11aa" }

explicit-account_example :
    account (new_client (config_of signed_options alice []) files) default_server
    ≡ record { username = codes "alice"; salt = codes "11aa"; key = codes "22bb" }
explicit-account_example =
    explicit-account signed_options (codes "check") files alice
      (new_client (config_of signed_options alice []) files) default_server (λ e. cc) (λ e. cc)
      (λ e. cc) (unfold build_account bytes_eq in refl) (unfold build_client bytes_eq in refl)

-- The files of the home directory behind a run of register.
abbrev later_files : HomeFiles
later_files = record {
  servers_file = λ home. none;
  accounts_file = λ home.
      (run_register world home (default_server ∷ []) (codes "alice") (codes "22bb")
        (codes "11aa")).accounts;
}

register-account_example :
    ((run_register world
        (codes "/home/alice/.pyzor")
        (default_server ∷ [])
        (codes "alice")
        (codes "22bb")
        (codes "11aa")).status
      ≡ 0)
    × All
        (λ t. account (new_client (config_of options no_account []) later_files) t ≡ alice)
        (default_server ∷ [])
register-account_example =
    register-account world options later_files default_server [] alice kept_comment
      (new_client (config_of options no_account []) later_files) (λ e. cc) (λ e. cc) (λ e. cc) refl
      refl old_kept (alice-IsStorable, tt) new_file-IsShort refl
      (unfold build_client bytes_eq in refl)

abbrev named_options : Options
named_options = record options { servers_arg = codes " a.example:1234, [::1]:24441,," }

abbrev named : List Server
named =
    record { host = codes "a.example"; port = pos 1234 }
    ∷ record { host = codes "::1"; port = pos 24441 }
    ∷ []

parsed_example : parse_servers_arg (codes " a.example:1234, [::1]:24441,,") ≡ some named
unfolding parse_servers_arg split_comma server_of split trim_space split_host_port last_index_byte
    index_byte contains_byte atoi bytes_eq parse_entries server_from plain_host no_brackets
    bracketed
parsed_example = refl

built :
    build_client named_options no_account files
    ≡ some (new_client (config_of named_options no_account named) files)
unfolding build_client bytes_eq
built = rw (parsed_example) refl

build_client-named_example :
    (map server_of (split_comma (codes " a.example:1234, [::1]:24441,,"))
      ≡ map some (new_client (config_of named_options no_account named) files).servers)
    × ((new_client (config_of named_options no_account named) files).servers ≢ [])
build_client-named_example =
    build_client-named named_options no_account files
      (new_client (config_of named_options no_account named) files) (λ e. cc) built

a-IsNamed : IsNamed (record { host = codes "a.example"; port = pos 1234 })
a-IsNamed = record {
  graphic = omega arith;
  no_comma = omega arith;
  bare = record { no_open = omega arith; no_close = omega arith };
  port_range = omega arith;
}

ipv6-IsNamed : IsNamed (record { host = codes "::1"; port = pos 24441 })
ipv6-IsNamed = record {
  graphic = omega arith;
  no_comma = omega arith;
  bare = record { no_open = omega arith; no_close = omega arith };
  port_range = omega arith;
}

parse_servers_arg-addrs_example : parse_servers_arg (join (map addr named) b',') ≡ some named
parse_servers_arg-addrs_example =
    parse_servers_arg-addrs (record { host = codes "a.example"; port = pos 1234 })
      (record { host = codes "::1"; port = pos 24441 } ∷ []) (a-IsNamed, (ipv6-IsNamed, tt))

unknown : (run world (codes "chekc" ∷ [])).status ≡ 2
unfolding run dispatch build_client build_account bytes_eq split_identity run_op run_parsed defaults
    run_rest with_account contains_byte with_client
unknown = refl

abbrev logging_options : Options
logging_options = record options { log_stdout = true }

-- With its info log on stdout, serve says there where it listens.
serving_lines :
    (serve_exit logging_options (run_serve system (serve_config logging_options))).stdout
    ≡ codes "gyzor: listening on 127.0.0.1:8078" ∷ []
unfolding serve_exit serve_config run_serve serve_unix safety_check is_loopback_listen
    is_loopback_host split_host_port plain_host no_brackets index_byte last_index_byte contains_byte
    bytes_eq
serving_lines = refl

run-usage_example : (run world (codes "chekc" ∷ [])).stdout ≡ []
run-usage_example = run-usage world (codes "chekc" ∷ []) unknown

check-status_example :
    ((dispatch world
        (new_client (config_of options no_account []) files)
        options
        (codes "check")).status
      ≡ 0)
    ↔ ((raw : Bytes) × ((world.stdin ≡ some raw)
          × ((length raw ≤ max_body) × IsHit (pos 5) (pos 1) (aggregate two_servers).servers)))
check-status_example =
    check-status world (new_client (config_of options no_account []) files) options

abbrev half_options : Options
half_options = record options { key = codes "11aa,22bb" }

run_op-refused_example : run_op world (codes "ping") (some (half_options, [])) ≡ exit 2
run_op-refused_example =
    run_op-refused world (codes "ping") half_options
      (record options { salt = codes "11aa"; key = codes "22bb" }) []
      (unfold split_identity split_key contains_byte bytes_eq in refl) (λ e. cc) (λ e. cc)
      (inl (inl (refl, λ e. cc)))

-- ===== src/Cli/Run.antt =====
-- cmd/gyzor/main.go: `run` and `doMessageOp`; cmd/gyzor/register.go: `runGenkey` and `runRegister`.
-- What is written to stdout is kept, as lines, and the accounts file that a command writes; the
-- messages on stderr are not.
use gyzor.Prelude.{
  ℕ, Bool, true, false, ◌||◌, List, [], ◌∷◌, ◌++◌, Option, none, some, Bytes, bytes_eq, codes,
  length, ◌⊎◌, if◌then◌else◌, inl, inr,
}
use gyzor.Prelude.Int.{ℤ, pos}
use gyzor.Go.Numbers.{itoa}
use gyzor.Account.Keys.{Account, gen_key}
use gyzor.Account.File.{FileRead, Saved, save_account}
use gyzor.Client.Query.{Client}
use gyzor.Client.Server.{Server, ServerResult, QueryError, to_string}
use gyzor.Client.Verdict.{CheckResult, hit}
use gyzor.Serve.Handlers.{max_body, read_capped}
use gyzor.Serve.Setup.{ServeConfig, System, Served, run_serve}
use gyzor.Cli.Env.{Env}
use gyzor.Cli.Options.{Options, HomeFiles, split_identity, build_account, build_client, defaults}

-- What a command comes to: its exit status, its lines on stdout, and what it writes into the
-- accounts file, if it does.
pub record Exit : Type 0 where
  pub status : ℕ
  pub stdout : List Bytes
  pub accounts : Option Bytes

-- What the commands do with a client and the operating system.
pub record World : Type 0 where
  pub env : Env
  -- `fs.Parse` with its flags' values so far: the values and the arguments that are left
  pub parse_flags : List Bytes → Options → Option (Options × List Bytes)
  pub files : HomeFiles
  -- all of stdin, if it can be read
  pub stdin : Option Bytes
  -- what `GenKey` reads of random bytes, if it can
  pub raw_salt : Option Bytes
  pub raw_key : Option Bytes
  -- the accounts file of a home directory, and whether `SaveAccount` can make that directory and
  -- write the file
  pub old_accounts : Bytes → FileRead
  pub can_make : Bool
  pub can_write : Bool
  pub check : Client → Bytes → CheckResult
  pub report : Client → Bytes → Bool
  pub revoke : Client → Bytes → Bool
  pub ping : Client → Bool
  pub compute : Bytes → Bytes
  pub system : System
  -- `err.Error()`
  pub show_error : QueryError → Bytes
  pub show_version : Bytes
  -- `%q`
  pub quote : Bytes → Bytes

abbrev pub printed : ℕ → List Bytes → Exit
printed status stdout = record { status = status; stdout = stdout; accounts = none }

unfoldable pub exit : ℕ → Exit
exit status = printed status []

-- The line of a server: `host:port\t(code, 'diag')\tcount\twl`.
unfoldable pub server_line : (QueryError → Bytes) → ServerResult → Bytes
server_line show s = elim (s.err) [
  | some e ↦ to_string s.server ++ (codes "\t(0, '" ++ (show e ++ codes "')"))
  | none ↦
      to_string s.server
      ++ (codes "\t("
          ++ (itoa s.code
              ++ (codes ", '"
                  ++ (s.diag ++ (codes "')\t" ++ (itoa s.count ++ (b'\t' ∷ itoa s.wl_count)))))))
]

unfoldable pub server_lines : (QueryError → Bytes) → List ServerResult → List Bytes
unfolding server_line
server_lines show [] = []
server_lines show (s ∷ srs) = server_line show s ∷ server_lines show srs

-- The exit code of a command that succeeds or fails.
unfoldable pub status_of : Bool → ℕ
status_of true = 0
status_of false = 1

-- `runGenkey`
unfoldable pub run_genkey : Option (Bytes × Bytes) → Exit
unfolding exit
run_genkey none = exit 1
run_genkey (some (salt, key)) = printed 0 (codes "salt,key:" ∷ (salt ++ (b',' ∷ key)) ∷ [])

unfoldable pub identity_lines : Account → List Bytes
identity_lines acc =
    (codes "GYZOR_USER=" ++ acc.username)
    ∷ (codes "GYZOR_SALT=" ++ acc.salt)
    ∷ (codes "GYZOR_KEY=" ++ acc.key)
    ∷ []

unfoldable pub handover_lines : Bool → Account → List Bytes
handover_lines false acc = []
handover_lines true acc =
    codes "register: give this username and key to the pyzord administrator:"
    ∷ (codes "register:   user=" ++ (acc.username ++ (codes " key=" ++ acc.key)))
    ∷ []

unfoldable pub is_message_op : Bytes → Bool
is_message_op op =
    bytes_eq op (codes "check") || bytes_eq op (codes "report") || bytes_eq op (codes "revoke")

-- The configuration that `run` gives to `runServe`.
unfoldable pub serve_config : Options → ServeConfig
serve_config o = record {
  listen = o.listen;
  unix = o.unix_sock;
  token = o.token;
  max_conc = o.max_conc;
  r_count = o.r_count;
  wl_count = o.wl_count;
  log_stdout = o.log_stdout;
  verbose = o.verbose;
}

-- `runServe`'s status, and its info log where that goes to stdout.
unfoldable pub serve_exit : Options → Served → Exit
serve_exit o served = printed served.status (if o.log_stdout then served.info else [])

module _ (w : World) where
  unfoldable pub drawn_key : Option (Bytes × Bytes)
  drawn_key = gen_key w.env.lower w.raw_salt w.raw_key (w.env.getenv (codes "GYZOR_PASSPHRASE"))

  -- `runRegister`, behind the save.
  unfoldable pub registered : Bytes → ℕ → Account → Bool → Saved → Exit
  unfolding exit identity_lines handover_lines
  registered path n acc generated (Saved.failed e) = exit 1
  registered path n acc generated (Saved.saved contents) = record {
    status = 0;
    stdout =
        (codes "register: saved account "
          ++ (w.quote acc.username
              ++ (codes " for " ++ (itoa (pos n) ++ (codes " server(s) to " ++ path)))))
        ∷ codes "register: environment variables for this identity (use instead of the file):"
        ∷ (identity_lines acc ++ handover_lines generated acc);
    accounts = some contents;
  }

  -- `runRegister`, with the salt and the key.
  unfoldable pub register_with : Bytes → List Server → Bytes → Bool → Option (Bytes × Bytes) → Exit
  unfolding exit
  register_with homedir servers user generated none = exit 1
  register_with homedir servers user generated (some (salt, key)) =
      let acc : Account = record { username = user; salt = salt; key = key } in
      registered (w.env.join_path homedir (codes "accounts")) (length servers) acc generated
        (save_account homedir servers acc w.can_make (w.old_accounts homedir) w.can_write)

  -- `runRegister`
  unfoldable pub run_register : Bytes → List Server → Bytes → Bytes → Bytes → Exit
  unfolding exit
  run_register homedir servers user key salt =
      if bytes_eq user []
      then exit 2
      else register_with homedir servers user (bytes_eq key [])
          (if bytes_eq key [] then drawn_key else some (salt, key))

  -- The `check` of `doMessageOp`.
  unfoldable pub check_exit : CheckResult → ℤ → ℤ → Exit
  check_exit res r_count wl_count =
      printed (status_of (hit res r_count wl_count)) (server_lines w.show_error res.servers)

  -- `doMessageOp`
  unfoldable pub do_message_op : Client → Bytes → Bytes → ℤ → ℤ → Exit
  unfolding exit
  do_message_op cli op raw r_count wl_count =
      if bytes_eq op (codes "check")
      then check_exit (w.check cli raw) r_count wl_count
      else if bytes_eq op (codes "report")
      then exit (status_of (w.report cli raw))
      else if bytes_eq op (codes "revoke")
      then exit (status_of (w.revoke cli raw))
      else exit 2

  -- `run` behind the reading of stdin.
  unfoldable pub with_input : Client → Options → Bytes → Bytes ⊎ ℕ → Exit
  unfolding exit
  with_input cli o op (inr status) = exit 2
  with_input cli o op (inl raw) =
      if bytes_eq op (codes "digest")
      then printed 0 (w.compute raw ∷ [])
      else do_message_op cli op raw o.r_count o.wl_count

  -- The dispatch of `run`.
  unfoldable pub dispatch : Client → Options → Bytes → Exit
  unfolding exit is_message_op
  dispatch cli o op =
      if bytes_eq op (codes "register")
      then run_register o.homedir cli.servers o.user o.key o.salt
      else if bytes_eq op (codes "serve")
      then serve_exit o (run_serve w.system (serve_config o))
      else if bytes_eq op (codes "ping")
      then (if w.ping cli then printed 0 (codes "ok" ∷ []) else exit 1)
      else if bytes_eq op (codes "digest") || is_message_op op
      then with_input cli o op (read_capped w.stdin max_body)
      else exit 2

  unfoldable pub with_client : Options → Bytes → Option Client → Exit
  unfolding exit
  with_client o op none = exit 2
  with_client o op (some cli) = dispatch cli o op

  unfoldable pub with_account : Options → Bytes → Option Account → Exit
  unfolding exit
  with_account o op none = exit 2
  with_account o op (some acc) = with_client o op (build_client o acc w.files)

  -- `run` behind the second parse of flags.
  unfoldable pub run_op : Bytes → Option (Options × List Bytes) → Exit
  unfolding exit
  run_op op none = exit 2
  run_op op (some (o0, rest)) =
      let o = split_identity o0 in
      if bytes_eq op (codes "genkey")
      then run_genkey drawn_key
      else with_account o op (build_account op o.user o.key o.salt)

  unfoldable pub run_rest : Options → List Bytes → Exit
  unfolding exit
  run_rest o [] = exit 2
  run_rest o (op ∷ rest) = run_op op (w.parse_flags rest o)

  unfoldable pub run_parsed : Option (Options × List Bytes) → Exit
  unfolding exit
  run_parsed none = exit 2
  run_parsed (some (o, rest)) =
      if o.show_version
      then printed 0 ((codes "gyzor " ++ w.show_version) ∷ [])
      else run_rest o rest

  -- `run`
  unfoldable pub run : List Bytes → Exit
  run args = run_parsed (w.parse_flags args (defaults w.env))

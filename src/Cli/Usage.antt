-- ===== src/Cli/Usage.antt =====
-- Where a command fails for its usage, nothing is printed on stdout.
use gyzor.Prelude.{
  ℕ, ◌≡◌, refl, ◌⊎◌, inl, inr, Bool, true, false, not, ◌||◌, List, [], ◌∷◌, ◌++◌, Option, none,
  some, arith, Bytes, bytes_eq, codes, if◌then◌else◌,
}
use gyzor.Prelude.Int.{ℤ, pos}
use gyzor.Account.Keys.{Account}
use gyzor.Account.File.{Saved}
use gyzor.Client.Query.{Client}
use gyzor.Client.Server.{Server}
use gyzor.Client.Verdict.{CheckResult}
use gyzor.Serve.Handlers.{max_body, read_capped}
use gyzor.Serve.Setup.{
  ServeConfig, Listener, System, Served, safety_check, serve_on, serve_unix, run_serve,
}
use gyzor.Cli.Options.{Options, split_identity, build_client, defaults}
use gyzor.Cli.Run.{
  Exit, World, exit, status_of, serve_config, serve_exit, run_genkey, registered, register_with,
  run_register, check_exit, do_message_op, is_message_op, with_input, dispatch, with_client,
  with_account, run_op, run_rest, run_parsed, run,
}

-- Nothing is printed on stdout with the status 2.
IsQuiet : Exit → Type 0
IsQuiet e = e.status ≡ 2 → e.stdout ≡ []

exit-IsQuiet : (n : ℕ) → IsQuiet (exit n)
unfolding IsQuiet exit
exit-IsQuiet n h = refl

zero-IsQuiet :
    (lines : List Bytes) (file : Option Bytes)
    → IsQuiet (record { status = 0; stdout = lines; accounts = file })
unfolding IsQuiet
zero-IsQuiet lines file h = absurd (omega (arith, h))

if-IsQuiet : (b : Bool) (e f : Exit) → IsQuiet e → IsQuiet f → IsQuiet (if b then e else f)
if-IsQuiet true e f he hf = he
if-IsQuiet false e f he hf = hf

genkey-IsQuiet : (pair : Option (Bytes × Bytes)) → IsQuiet (run_genkey pair)
unfolding run_genkey
genkey-IsQuiet none = exit-IsQuiet 1
genkey-IsQuiet (some (salt, key)) = zero-IsQuiet _ none

-- `runServe` says nothing in its info log with the status 2.
IsSilent : Served → Type 0
IsSilent s = s.status ≡ 2 → s.info ≡ []

if-IsSilent : (b : Bool) (s t : Served) → IsSilent s → IsSilent t → IsSilent (if b then s else t)
if-IsSilent true s t hs ht = hs
if-IsSilent false s t hs ht = ht

module _ (sys : System) where
  -- It opens a listener, or has said nothing.
  on-IsSilent :
      (cfg : ServeConfig) (removed : List Bytes) (ls : List Listener)
      → IsSilent (serve_on sys cfg removed ls)
  unfolding serve_on IsSilent
  on-IsSilent cfg removed [] h = refl
  on-IsSilent cfg removed (l ∷ ls) h = absurd (ground arith)

  failed-IsSilent :
      (ls : List Listener) (removed info : List Bytes)
      → IsSilent
          (record { listeners = ls; slots = pos 0; status = 1; removed = removed; info = info })
  unfolding IsSilent
  failed-IsSilent ls removed info h = absurd (omega (arith, h))

  unix-IsSilent : (cfg : ServeConfig) (ls : List Listener) → IsSilent (serve_unix sys cfg ls)
  unfolding serve_unix
  unix-IsSilent cfg ls = if-IsSilent (bytes_eq cfg.unix []) _ _ (on-IsSilent cfg [] ls) (
      if-IsSilent (sys.listen_unix (cfg.unix ∷ []) cfg.unix) _ _
        (on-IsSilent cfg (cfg.unix ∷ []) (ls ++ (Listener.unix_socket cfg.unix ∷ [])))
        (failed-IsSilent ls (cfg.unix ∷ []) _))

  unsafe-IsSilent :
      IsSilent (record { listeners = []; slots = pos 0; status = 2; removed = []; info = [] })
  unfolding IsSilent
  unsafe-IsSilent h = refl

  run_serve-IsSilent : (cfg : ServeConfig) → IsSilent (run_serve sys cfg)
  unfolding run_serve
  run_serve-IsSilent cfg = if-IsSilent (not (safety_check sys cfg)) _ _ unsafe-IsSilent (
      if-IsSilent (bytes_eq cfg.listen []) _ _ (unix-IsSilent cfg []) (
        if-IsSilent (sys.listen_tcp cfg.listen) _ _
          (unix-IsSilent cfg (Listener.tcp cfg.listen ∷ [])) (failed-IsSilent [] [] _)))

module _ (w : World) where
  registered-IsQuiet :
      (path : Bytes) (n : ℕ) (acc : Account) (generated : Bool) (s : Saved)
      → IsQuiet (registered w path n acc generated s)
  unfolding registered
  registered-IsQuiet path n acc generated (Saved.failed e) = exit-IsQuiet 1
  registered-IsQuiet path n acc generated (Saved.saved contents) = zero-IsQuiet _ (some contents)

  check-IsQuiet : (res : CheckResult) (r wl : ℤ) → IsQuiet (check_exit w res r wl)
  unfolding check_exit status_of IsQuiet
  check-IsQuiet res r wl = λ e. absurd (ground arith)

  message-IsQuiet :
      (cli : Client) (op raw : Bytes) (r wl : ℤ) → IsQuiet (do_message_op w cli op raw r wl)
  unfolding do_message_op
  message-IsQuiet cli op raw r wl =
      if-IsQuiet (bytes_eq op (codes "check")) _ _ (check-IsQuiet (w.check cli raw) r wl) (
        if-IsQuiet (bytes_eq op (codes "report")) _ _ (exit-IsQuiet (status_of (w.report cli raw)))
          (if-IsQuiet (bytes_eq op (codes "revoke")) _ _
            (exit-IsQuiet (status_of (w.revoke cli raw))) (exit-IsQuiet 2)))

  input-IsQuiet :
      (cli : Client) (o : Options) (op : Bytes) (input : Bytes ⊎ ℕ)
      → IsQuiet (with_input w cli o op input)
  unfolding with_input
  input-IsQuiet cli o op (inr status) = exit-IsQuiet 2
  input-IsQuiet cli o op (inl raw) =
      if-IsQuiet (bytes_eq op (codes "digest")) _ _ (zero-IsQuiet _ none)
        (message-IsQuiet cli op raw o.r_count o.wl_count)

  key-IsQuiet :
      (homedir : Bytes) (servers : List Server) (user : Bytes) (generated : Bool)
      (pair : Option (Bytes × Bytes))
      → IsQuiet (register_with w homedir servers user generated pair)
  unfolding register_with
  key-IsQuiet homedir servers user generated none = exit-IsQuiet 1
  key-IsQuiet homedir servers user generated (some (salt, key)) =
      registered-IsQuiet _ _ _ generated _

  register-IsQuiet :
      (homedir : Bytes) (servers : List Server) (user key salt : Bytes)
      → IsQuiet (run_register w homedir servers user key salt)
  unfolding run_register
  register-IsQuiet homedir servers user key salt =
      if-IsQuiet (bytes_eq user []) _ _ (exit-IsQuiet 2)
        (key-IsQuiet homedir servers user (bytes_eq key []) _)

  serve-IsQuiet : (o : Options) → IsQuiet (serve_exit o (run_serve w.system (serve_config o)))
  unfolding serve_exit IsQuiet IsSilent
  serve-IsQuiet o h = ground (arith, run_serve-IsSilent w.system (serve_config o) h)

  dispatch-IsQuiet : (cli : Client) (o : Options) (op : Bytes) → IsQuiet (dispatch w cli o op)
  unfolding dispatch
  dispatch-IsQuiet cli o op =
      if-IsQuiet (bytes_eq op (codes "register")) _ _
        (register-IsQuiet o.homedir cli.servers o.user o.key o.salt)
        (if-IsQuiet (bytes_eq op (codes "serve")) _ _ (serve-IsQuiet o) (
          if-IsQuiet (bytes_eq op (codes "ping")) _ _
            (if-IsQuiet (w.ping cli) _ _ (zero-IsQuiet _ none) (exit-IsQuiet 1))
            (if-IsQuiet (bytes_eq op (codes "digest") || is_message_op op) _ _
              (input-IsQuiet cli o op (read_capped w.stdin max_body)) (exit-IsQuiet 2))))

  client-IsQuiet : (o : Options) (op : Bytes) (c : Option Client) → IsQuiet (with_client w o op c)
  unfolding with_client
  client-IsQuiet o op none = exit-IsQuiet 2
  client-IsQuiet o op (some cli) = dispatch-IsQuiet cli o op

  account-IsQuiet :
      (o : Options) (op : Bytes) (a : Option Account) → IsQuiet (with_account w o op a)
  unfolding with_account
  account-IsQuiet o op none = exit-IsQuiet 2
  account-IsQuiet o op (some acc) = client-IsQuiet o op (build_client o acc w.files)

  op-IsQuiet : (op : Bytes) (p : Option (Options × List Bytes)) → IsQuiet (run_op w op p)
  unfolding run_op
  op-IsQuiet op none = exit-IsQuiet 2
  op-IsQuiet op (some (o, rest)) =
      if-IsQuiet (bytes_eq op (codes "genkey")) _ _ (genkey-IsQuiet _)
        (account-IsQuiet (split_identity o) op _)

  rest-IsQuiet : (o : Options) (rest : List Bytes) → IsQuiet (run_rest w o rest)
  unfolding run_rest
  rest-IsQuiet o [] = exit-IsQuiet 2
  rest-IsQuiet o (op ∷ rest) = op-IsQuiet op (w.parse_flags rest o)

  parsed-IsQuiet : (p : Option (Options × List Bytes)) → IsQuiet (run_parsed w p)
  unfolding run_parsed
  parsed-IsQuiet none = exit-IsQuiet 2
  parsed-IsQuiet (some (o, rest)) =
      if-IsQuiet o.show_version _ _ (zero-IsQuiet _ none) (rest-IsQuiet o rest)

-- A run of the command line that exits with 2 writes nothing to stdout, also where the info log of
-- serve goes there.
pub run-usage : (w : World) (args : List Bytes) → (run w args).status ≡ 2 → (run w args).stdout ≡ []
unfolding run IsQuiet
run-usage w args = parsed-IsQuiet w (w.parse_flags args (defaults w.env))

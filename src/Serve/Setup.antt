-- ===== src/Serve/Setup.antt =====
-- cmd/gyzor/serve.go: `serveConfig`, `safetyCheck`, `isLoopbackListen` and `runServe`. The operating
-- system is an argument. The lines of the info log are kept; those of the error log, on stderr, are
-- not.
pub mod Exposed
use gyzor.Prelude.{
  ℕ, Bool, true, false, ◌&&◌, ◌||◌, not, List, [], ◌∷◌, ◌++◌, map, Option, none, some, Bytes,
  bytes_eq, codes, if◌then◌else◌,
}
use gyzor.Prelude.Int.{ℤ, pos, ltb_ℤ}
use gyzor.Go.Net.{split_host_port}

-- `serveConfig`
pub record ServeConfig : Type 0 where
  pub listen : Bytes
  pub unix : Bytes
  pub token : Bytes
  pub max_conc : ℤ
  pub r_count : ℤ
  pub wl_count : ℤ
  pub log_stdout : Bool
  pub verbose : Bool

pub data Listener : Type 0 where
  tcp unix_socket : Bytes → Listener

-- What `runServe` asks the operating system.
pub record System : Type 0 where
  -- `net.ParseIP` gives an address, and it is a loopback one
  pub is_loopback_ip : Bytes → Bool
  pub listen_tcp : Bytes → Bool
  -- `net.Listen` on a Unix socket, behind the removals of these paths
  pub listen_unix : List Bytes → Bytes → Bool
  -- what the access log says while it serves, with its prefix
  pub access_lines : List Listener → List Bytes
  -- whether the first error of `Serve` is nil or `http.ErrServerClosed`
  pub closes : List Listener → Bool

-- The listeners that a run of `runServe` opens, with how many slots it serves, its exit status, the paths it asks to be
-- removed, and the lines of its info log.
pub record Served : Type 0 where
  pub listeners : List Listener
  pub slots : ℤ
  pub status : ℕ
  pub removed : List Bytes
  pub info : List Bytes

-- The lines of the info log, with the logger's prefix.
unfoldable pub listening_line : Listener → Bytes
listening_line (Listener.tcp address) = codes "gyzor: listening on " ++ address
listening_line (Listener.unix_socket path) = codes "gyzor: listening on unix " ++ path

unfoldable pub repo_lines : Bool → List Bytes
repo_lines false = []
repo_lines true = codes "gyzor: repo: https://github.com/myguard-labs/gyzor" ∷ []

abbrev pub host_of : Bytes → Option (Bytes × Bytes) → Bytes
host_of address none = address
host_of address (some (host, port)) = host

module _ (sys : System) where
  unfoldable pub is_loopback_host : Bytes → Bool
  is_loopback_host host =
      if bytes_eq host []
      then false
      else if bytes_eq host (codes "localhost")
      then true
      else sys.is_loopback_ip host

  -- `isLoopbackListen`
  unfoldable pub is_loopback_listen : Bytes → Bool
  is_loopback_listen address = is_loopback_host (host_of address (split_host_port address))

  -- `safetyCheck`; false is its error.
  unfoldable pub safety_check : ServeConfig → Bool
  safety_check cfg =
      if not (bytes_eq cfg.token []) || bytes_eq cfg.listen []
      then true
      else is_loopback_listen cfg.listen

  -- `cfg.maxConc < 1`
  unfoldable pub slots_of : ℤ → ℤ
  slots_of max_conc = if ltb_ℤ max_conc (pos 1) then pos 8 else max_conc

  -- `runServe` gives up, with the listeners it has opened so far.
  abbrev given_up : ℕ → List Bytes → List Listener → Served
  given_up status removed ls = record {
    listeners = ls;
    slots = pos 0;
    status = status;
    removed = removed;
    info = map listening_line ls;
  }

  -- `runServe` with its listeners.
  unfoldable pub serve_on : ServeConfig → List Bytes → List Listener → Served
  unfolding repo_lines listening_line
  serve_on cfg removed [] = given_up 2 removed []
  serve_on cfg removed (l ∷ ls) = record {
    listeners = l ∷ ls;
    slots = slots_of cfg.max_conc;
    status = if sys.closes (l ∷ ls) then 0 else 1;
    removed = removed;
    info = map listening_line (l ∷ ls) ++ (repo_lines cfg.verbose ++ sys.access_lines (l ∷ ls));
  }

  -- `runServe` with the TCP listener; the error of `os.Remove` is not looked at.
  unfoldable pub serve_unix : ServeConfig → List Listener → Served
  unfolding serve_on
  serve_unix cfg ls =
      if bytes_eq cfg.unix []
      then serve_on cfg [] ls
      else if sys.listen_unix (cfg.unix ∷ []) cfg.unix
      then serve_on cfg (cfg.unix ∷ []) (ls ++ (Listener.unix_socket cfg.unix ∷ []))
      else given_up 1 (cfg.unix ∷ []) ls

  -- `runServe`
  unfoldable pub run_serve : ServeConfig → Served
  run_serve cfg =
      if not (safety_check cfg)
      then given_up 2 [] []
      else if bytes_eq cfg.listen []
      then serve_unix cfg []
      else if sys.listen_tcp cfg.listen
      then serve_unix cfg (Listener.tcp cfg.listen ∷ [])
      else given_up 1 [] []

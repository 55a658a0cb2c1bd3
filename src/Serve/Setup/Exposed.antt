-- ===== src/Serve/Setup/Exposed.antt =====
-- Where the daemon listens without a token.
use gyzor.Prelude.{
  ◌≡◌, ◌≢◌, ◌⊎◌, inl, inr, Bool, true, false, List, [], ◌∷◌, ◌++◌, Bytes, bytes_eq, bytes_eq_iff,
  codes, arith, Bool-cases, All, All-append, if◌then◌else◌,
}
use gyzor.Go.Net.{split_host_port}
use gyzor.Prelude.Int.{pos}
use gyzor.Serve.Setup.{
  ServeConfig, Listener, System, Served, host_of, is_loopback_host, is_loopback_listen,
  safety_check, serve_on, serve_unix, run_serve,
}

module _ (sys : System) where
  -- A listener that only this machine reaches: a Unix socket, or a TCP address whose host is there
  -- and is localhost or a loopback address.
  abbrev pub IsLocal : Listener → Type 0
  IsLocal (Listener.unix_socket path) = Unit
  IsLocal (Listener.tcp address) =
      let host = host_of address (split_host_port address) in
      (host ≢ []) × ((host ≡ codes "localhost") ⊎ (sys.is_loopback_ip host ≡ true))

  loopback-host :
      (host : Bytes)
      → is_loopback_host sys host ≡ true
      → (host ≢ []) × ((host ≡ codes "localhost") ⊎ (sys.is_loopback_ip host ≡ true))
  unfolding is_loopback_host
  loopback-host host h = ground (arith, bytes_eq_iff host [], bytes_eq_iff host (codes "localhost"))

  safe-IsLocal :
      (cfg : ServeConfig)
      → cfg.token ≡ []
      → cfg.listen ≢ []
      → safety_check sys cfg ≡ true
      → IsLocal (Listener.tcp cfg.listen)
  unfolding safety_check is_loopback_listen
  safe-IsLocal cfg open_token given h =
      loopback-host (host_of cfg.listen (split_host_port cfg.listen))
        (ground (arith, bytes_eq_iff cfg.token [], bytes_eq_iff cfg.listen []))

  abbrev IsHere : Served → Type 0
  IsHere s = All IsLocal s.listeners

  if-IsHere : (b : Bool) (s t : Served) → IsHere s → IsHere t → IsHere (if b then s else t)
  if-IsHere true s t hs ht = hs
  if-IsHere false s t hs ht = ht

  tcp-IsHere :
      (cfg : ServeConfig)
      → cfg.token ≡ []
      → safety_check sys cfg ≡ true
      → All IsLocal (Listener.tcp cfg.listen ∷ []) ⊎ (cfg.listen ≡ [])
  tcp-IsHere cfg open_token safe = elim (Bool-cases (bytes_eq cfg.listen [])) [
    | inl off ↦ inr ((bytes_eq_iff cfg.listen []).0 off)
    | inr on ↦
        inl (safe-IsLocal cfg open_token (λ e. ground (arith, bytes_eq_iff cfg.listen [])) safe, tt)
  ]

  on-IsLocal :
      (cfg : ServeConfig) (removed : List Bytes) (ls : List Listener)
      → All IsLocal ls
      → All IsLocal (serve_on sys cfg removed ls).listeners
  unfolding serve_on
  on-IsLocal cfg removed [] h = tt
  on-IsLocal cfg removed (l ∷ ls) h = h

  unix-IsLocal :
      (cfg : ServeConfig) (ls : List Listener)
      → All IsLocal ls
      → All IsLocal (serve_unix sys cfg ls).listeners
  unfolding serve_unix
  unix-IsLocal cfg ls h = if-IsHere (bytes_eq cfg.unix []) _ _ (on-IsLocal cfg [] ls h) (
      if-IsHere (sys.listen_unix (cfg.unix ∷ []) cfg.unix) _ _
        (on-IsLocal cfg (cfg.unix ∷ []) (ls ++ (Listener.unix_socket cfg.unix ∷ []))
          (All-append IsLocal ls (Listener.unix_socket cfg.unix ∷ []) h (tt, tt)))
        h)

  safe-IsHere :
      (cfg : ServeConfig)
      → cfg.token ≡ []
      → safety_check sys cfg ≡ true
      → IsHere (
          if bytes_eq cfg.listen []
          then serve_unix sys cfg []
          else if sys.listen_tcp cfg.listen
          then serve_unix sys cfg (Listener.tcp cfg.listen ∷ [])
          else record { listeners = []; slots = pos 0; status = 1; removed = []; info = [] })
  safe-IsHere cfg open_token safe = elim (tcp-IsHere cfg open_token safe) [
    | inl here ↦ if-IsHere (bytes_eq cfg.listen []) _ _ (unix-IsLocal cfg [] tt) (
        if-IsHere (sys.listen_tcp cfg.listen) _ _
          (unix-IsLocal cfg (Listener.tcp cfg.listen ∷ []) here) tt)
    | inr off ↦ rw ((bytes_eq_iff cfg.listen []).1 off) (unix-IsLocal cfg [] tt)
  ]

  -- Without a token, the daemon listens on nothing but Unix sockets and TCP addresses whose host is
  -- there and is localhost or a loopback address.
  pub run_serve-IsLocal :
      (cfg : ServeConfig) → cfg.token ≡ [] → All IsLocal (run_serve sys cfg).listeners
  unfolding run_serve
  run_serve-IsLocal cfg open_token = elim (Bool-cases (safety_check sys cfg)) [
    | inr unsafe ↦ rw (unsafe) tt
    | inl safe ↦ rw (safe) (safe-IsHere cfg open_token safe)
  ]

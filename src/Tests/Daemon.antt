-- ===== src/Tests/Daemon.antt =====
-- The daemon's set-up, gate and histogram on concrete values.
use gyzor.Prelude.{
  inl, inr, ℕ, ◌+◌, ◌<◌, ◌≤◌, ◌≡◌, ◌⊎◌, refl, true, false, List, [], ◌∷◌, ◌++◌, map, Bytes,
  bytes_eq, codes, leb, All, arith, if◌then◌else◌,
}
use gyzor.Prelude.Int.{pos}
use gyzor.Go.Net.{split_host_port, plain_host, no_brackets}
use gyzor.Go.Strings.{index_byte, last_index_byte, contains_byte}
use gyzor.Client.Fanout.Family.{total}
use gyzor.Serve.Gate.{Phase, Gate, GateStep, GateRun, enter, refuse, begin, then_step}
use gyzor.Serve.Gate.Bounded.{in_handler, gate-decides}
use gyzor.Serve.Latency.{Floats, bounds}
use gyzor.Serve.Latency.Cumulative.{Ascends, IsAscending, at_most, observe_all, observe_all-Ascends}
use gyzor.Client.Verdict.{aggregate}
use gyzor.Go.Strings.{has_prefix}
use gyzor.Serve.Handlers.{Answer, presented}
use gyzor.Serve.Routes.{Daemon, Reply, Serving, route}
use gyzor.Serve.Routes.Guarded.{route-stranger}
use gyzor.Tests.Serve.{zeros, request, spam_server}
use gyzor.Serve.Setup.{
  ServeConfig, Listener, System, safety_check, is_loopback_listen, is_loopback_host, serve_unix,
  run_serve,
}
use gyzor.Serve.Setup.Exposed.{IsLocal, run_serve-IsLocal}

-- Seconds, counted in thousandths.
abbrev thousandths : Bytes → ℕ
thousandths s =
    if bytes_eq s (codes ".005")
    then 5
    else if bytes_eq s (codes ".01")
    then 10
    else if bytes_eq s (codes ".025")
    then 25
    else if bytes_eq s (codes ".05")
    then 50
    else if bytes_eq s (codes ".1")
    then 100
    else if bytes_eq s (codes ".25")
    then 250
    else if bytes_eq s (codes ".5")
    then 500
    else if bytes_eq s (codes "1")
    then 1000
    else if bytes_eq s (codes "2.5")
    then 2500
    else if bytes_eq s (codes "5")
    then 5000
    else if bytes_eq s (codes "10")
    then 10000
    else 0

abbrev floats : Floats ℕ
floats = record { literal = thousandths; le = leb; plus = λ a b. a + b; format = λ n. codes "x" }

leb_trans : (x a b : ℕ) → leb x a ≡ true → leb a b ≡ true → leb x b ≡ true
leb_trans x a b h g = ground arith

bounds_ascend :
    ◌≡◌ {A = List ℕ}
      (bounds floats)
      (5 ∷ 10 ∷ 25 ∷ 50 ∷ 100 ∷ 250 ∷ 500 ∷ 1000 ∷ 2500 ∷ 5000 ∷ 10000 ∷ [])
unfolding bounds bytes_eq
bounds_ascend = refl

ascending :
    IsAscending floats (5 ∷ 10 ∷ 25 ∷ 50 ∷ 100 ∷ 250 ∷ 500 ∷ 1000 ∷ 2500 ∷ 5000 ∷ 10000 ∷ [])
ascending = (refl, (refl, (refl, (refl, (refl, (refl, (refl, (refl, (refl, (refl, tt))))))))))

observe_all-Ascends_example :
    ((observe_all floats (20 ∷ 3 ∷ [])).counts
      ≡ map (λ b. at_most floats b (20 ∷ 3 ∷ [])) (bounds floats))
    × ((observe_all floats (20 ∷ 3 ∷ [])).count ≡ 2)
    × Ascends (
        (observe_all floats (20 ∷ 3 ∷ [])).counts
        ++ ((observe_all floats (20 ∷ 3 ∷ [])).count ∷ []))
observe_all-Ascends_example =
    observe_all-Ascends floats (20 ∷ 3 ∷ []) (omega arith) leb_trans (rw (bounds_ascend) ascending)

-- One slot, and two requests: the first is in its handler when the second comes.
abbrev full : (g : Gate) × GateRun 2 1 g
full = (_, then_step begin (enter 0 (omega arith) refl (omega arith)))

abbrev second : (h : Gate) × GateStep 2 1 full.0 h
second = (_, refuse 1 (omega arith) refl (omega arith))

gate-decides_example :
    (total in_handler 2 second.0.phases ≤ 1)
    × (((second.0.phases 1 ≡ Phase.handling) × (total in_handler 2 full.0.phases < 1))
        ⊎ ((second.0.phases 1 ≡ Phase.busy) × (total in_handler 2 full.0.phases ≡ 1)))
gate-decides_example = gate-decides 2 1 full.0 second.0 1 full.1 second.1 refl (λ e. cc)

abbrev pub system : System
system = record {
  is_loopback_ip = λ host. bytes_eq host (codes "127.0.0.1");
  listen_tcp = λ address. true;
  listen_unix = λ removed path. true;
  access_lines = λ ls. [];
  closes = λ ls. true;
}

abbrev config : ServeConfig
config = record {
  listen = codes "127.0.0.1:8078";
  unix = codes "/run/gyzor.sock";
  token = [];
  max_conc = pos 4;
  r_count = pos 5;
  wl_count = pos 0;
  log_stdout = false;
  verbose = false;
}

-- Both listeners are opened.
listeners_open :
    (run_serve system config).listeners
    ≡ Listener.tcp (codes "127.0.0.1:8078") ∷ Listener.unix_socket (codes "/run/gyzor.sock") ∷ []
unfolding run_serve serve_unix safety_check is_loopback_listen is_loopback_host split_host_port
    plain_host no_brackets index_byte last_index_byte contains_byte bytes_eq
listeners_open = refl

run_serve-IsLocal_example : All (IsLocal system) (run_serve system config).listeners
run_serve-IsLocal_example = run_serve-IsLocal system config refl

abbrev daemon : Daemon ℕ
daemon = record {
  counters = zeros;
  latency = record { counts = []; sum = 0; count = 0 };
  sem = 0;
  log = [];
}

abbrev serving : Serving
serving = record {
  token = codes "other";
  slots = 4;
  r_count = pos 5;
  wl_count = pos 0;
  verbose = false;
  check = λ b. aggregate (spam_server b);
  report = λ b. true;
  revoke = λ b. true;
}

wrong_token : presented request ≡ codes "s3cret"
unfolding presented has_prefix bytes_eq
wrong_token = refl

route-stranger_example :
    route floats serving 20 (codes "20.0ms") (codes "/report") daemon request
    ≡ (daemon, Reply.answer (Answer.refused 401))
route-stranger_example =
    route-stranger floats serving 20 (codes "20.0ms") (codes "/report") daemon request
      (inr (inl refl)) (λ e. cc) (rw (wrong_token) (λ e. cc))

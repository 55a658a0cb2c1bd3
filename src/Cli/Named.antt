-- ===== src/Cli/Named.antt =====
-- The servers that `--servers` names.
use gyzor.Prelude.{
  ◌≡◌, ◌≢◌, refl, ap, ◌∙◌, List, [], ◌∷◌, map, Option, none, some, arith, Bytes, bytes_eq_iff,
}
use mathlib.Core.Option.{some-injective}
use gyzor.Account.Keys.{Account}
use gyzor.Client.Query.{Client}
use gyzor.Client.Server.{Server}
use gyzor.Cli.Options.{
  Options, HomeFiles, build_client, client_of, new_client, config_of, servers_or, server_of,
  with_server, parse_entries, parse_servers_arg, some_servers, split_comma,
}

with_server-some :
    (m : Option Server) (r : Option (List Server)) (ms : List (Option Server))
    (servers : List Server)
    → ((ss : List Server) → r ≡ some ss → ms ≡ map some ss)
    → with_server m r ≡ some servers
    → m ∷ ms ≡ map some servers
unfolding with_server
with_server-some none r ms servers h e = absurd cc
with_server-some (some s) none ms servers h e = absurd cc
with_server-some (some s) (some ss) ms servers h e =
    ap (◌∷◌ (some s)) (h ss refl) ∙ ap (map some) (some-injective (s ∷ ss) servers e)

-- Every entry gives a server, in order.
parse_entries-servers :
    (parts : List Bytes) (servers : List Server)
    → parse_entries parts ≡ some servers
    → map server_of parts ≡ map some servers
unfolding parse_entries
parse_entries-servers [] servers e = ap (map some) (some-injective [] servers e)
parse_entries-servers (part ∷ parts) servers e =
    with_server-some (server_of part) (parse_entries parts) (map server_of parts) servers
      (parse_entries-servers parts) e

some_servers-some :
    (r : Option (List Server)) (servers : List Server)
    → some_servers r ≡ some servers
    → (r ≡ some servers) × (servers ≢ [])
unfolding some_servers
some_servers-some none servers e = absurd cc
some_servers-some (some []) servers e = absurd cc
some_servers-some (some (s ∷ ss)) servers e =
    let same : s ∷ ss ≡ servers = some-injective (s ∷ ss) servers e in (e, λ n. cc)

client_of-servers :
    (o : Options) (acc : Account) (files : HomeFiles) (r : Option (List Server)) (c : Client)
    → client_of o acc files (some_servers r) ≡ some c
    → some_servers r ≡ some c.servers
unfolding client_of some_servers new_client config_of servers_or
client_of-servers o acc files none c e = absurd cc
client_of-servers o acc files (some []) c e = absurd cc
client_of-servers o acc files (some (s ∷ ss)) c e =
    ap (λ (x : Client). some x.servers)
      (some-injective (new_client (config_of o acc (s ∷ ss)) files) c e)

client_named :
    (o : Options) (acc : Account) (files : HomeFiles) (c : Client)
    → o.servers_arg ≢ []
    → build_client o acc files ≡ some c
    → client_of o acc files (some_servers (parse_entries (split_comma o.servers_arg))) ≡ some c
unfolding build_client parse_servers_arg
client_named o acc files c h e = ground (arith, bytes_eq_iff o.servers_arg [])

-- Where a client is built from a value of --servers that is not empty, its servers are those of the
-- value's entries, one for each, in their order, and there is one at least.
pub build_client-named :
    (o : Options) (acc : Account) (files : HomeFiles) (c : Client)
    → o.servers_arg ≢ []
    → build_client o acc files ≡ some c
    → (map server_of (split_comma o.servers_arg) ≡ map some c.servers) × (c.servers ≢ [])
build_client-named o acc files c h e =
    let entries = parse_entries (split_comma o.servers_arg) in
    let (parsed, ne) =
      some_servers-some entries c.servers
        (client_of-servers o acc files entries c (client_named o acc files c h e)) in
    (parse_entries-servers (split_comma o.servers_arg) c.servers parsed, ne)

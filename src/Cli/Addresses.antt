-- ===== src/Cli/Addresses.antt =====
-- Addresses of servers, joined by commas, are read back as the servers.
use gyzor.Prelude.{
  ℕ, suc, ◌≡◌, ◌≢◌, refl, ap, ◌∙◌, Bool, true, false, List, [], ◌∷◌, ◌++◌, map, append_assoc, some,
  arith, Bytes, bytes_eq_iff, All, All-append, Lacks, ◌⊎◌, inl, inr, if◌then◌else◌,
}
use gyzor.Prelude.Int.{ℤ, pos, negsuc}
use gyzor.Go.Net.{split_host_port}
use gyzor.Go.Net.Laws.{IsBare, split_host_port-plain, split_host_port-bracketed}
use gyzor.Go.Numbers.{itoa, digits}
use gyzor.Go.Numbers.Laws.{IsDigit, digits-IsDigit, InRange, atoi-itoa}
use gyzor.Go.Strings.{split, join, contains_byte, contains_byte-Lacks}
use gyzor.Go.Strings.Laws.{IsGraphic, split_at_sep, split_whole, trim_space-IsGraphic}
use gyzor.Client.Files.Lines.{append-ne}
use gyzor.Client.Server.{Server, addr}
use gyzor.Cli.Options.{
  server_of, server_from, port_of, with_server, parse_entries, parse_servers_arg, some_servers,
  split_comma, trimmed_parts,
}

-- A server whose address can stand in the value of --servers: a host of visible ASCII without
-- commas and brackets, and a port in range.
pub record IsNamed (s : Server) : Type 0 where
  pub graphic : All IsGraphic s.host
  pub no_comma : Lacks b',' s.host
  pub bare : IsBare s.host
  pub port_range : InRange s.port

-- A text that has no meaning in an address or a list of them.
record IsWord (s : Bytes) : Type 0 where
  graphic : All IsGraphic s
  bare : IsBare s
  no_colon : Lacks b':' s
  no_comma : Lacks b',' s

IsWord-cons : (c : ℕ) (s : Bytes) → (c ≡ b'-') ⊎ IsDigit c → IsWord s → IsWord (c ∷ s)
IsWord-cons c s hc h = record {
  graphic = (ground arith, h.graphic);
  bare = record {
    no_open = (ground arith, h.bare.no_open);
    no_close = (ground arith, h.bare.no_close);
  };
  no_colon = (ground arith, h.no_colon);
  no_comma = (ground arith, h.no_comma);
}

digits-IsWord : (s : Bytes) → All IsDigit s → IsWord s
digits-IsWord [] h = record {
  graphic = tt;
  bare = record { no_open = tt; no_close = tt };
  no_colon = tt;
  no_comma = tt;
}
digits-IsWord (c ∷ s) (hc, h) = IsWord-cons c s (inr hc) (digits-IsWord s h)

port-IsWord : (z : ℤ) → IsWord (itoa z)
unfolding itoa
port-IsWord (pos n) = digits-IsWord (digits n) (digits-IsDigit n)
port-IsWord (negsuc n) =
    IsWord-cons b'-' (digits (suc n)) (inl refl)
      (digits-IsWord (digits (suc n)) (digits-IsDigit (suc n)))

module _ (s : Server) (h : IsNamed s) where
  port_text : IsWord (itoa s.port)
  port_text = port-IsWord s.port

  port_read : server_from (some (s.host, itoa s.port)) ≡ some s
  unfolding server_from port_of
  port_read = rw (atoi-itoa s.port h.port_range) refl

  -- The address, by whether the host has a colon.
  split-addr :
      (b : Bool)
      → contains_byte s.host b':' ≡ b
      → split_host_port
          ((if b then b'[' ∷ (s.host ++ b']' ∷ []) else s.host) ++ (b':' ∷ itoa s.port))
        ≡ some (s.host, itoa s.port)
  split-addr true e =
      ap (λ t. split_host_port (b'[' ∷ t)) (append_assoc s.host (b']' ∷ []) (b':' ∷ itoa s.port))
      ∙ split_host_port-bracketed s.host (itoa s.port) h.bare port_text.bare port_text.no_colon
  split-addr false e =
      split_host_port-plain s.host (itoa s.port) h.bare port_text.bare
        (contains_byte-Lacks s.host b':' e) port_text.no_colon

  server_of-addr : server_of (addr s) ≡ some s
  unfolding server_of addr
  server_of-addr = ap server_from (split-addr (contains_byte s.host b':') refl) ∙ port_read

  host_part : (b : Bool) → All IsGraphic (if b then b'[' ∷ (s.host ++ b']' ∷ []) else s.host)
  host_part true =
      (omega arith, All-append IsGraphic s.host (b']' ∷ []) h.graphic (omega arith, tt))
  host_part false = h.graphic

  host_comma : (b : Bool) → Lacks b',' (if b then b'[' ∷ (s.host ++ b']' ∷ []) else s.host)
  host_comma true =
      (omega arith, All-append (λ c. c ≢ b',') s.host (b']' ∷ []) h.no_comma (omega arith, tt))
  host_comma false = h.no_comma

  addr-IsGraphic : All IsGraphic (addr s)
  unfolding addr
  addr-IsGraphic =
      All-append IsGraphic _ (b':' ∷ itoa s.port) (host_part (contains_byte s.host b':'))
        (omega arith, port_text.graphic)

  addr-Lacks : Lacks b',' (addr s)
  unfolding addr
  addr-Lacks =
      All-append (λ c. c ≢ b',') _ (b':' ∷ itoa s.port) (host_comma (contains_byte s.host b':'))
        (omega arith, port_text.no_comma)

  addr-there : addr s ≢ []
  unfolding addr
  addr-there = append-ne _ (b':' ∷ itoa s.port) (λ e. cc)

split-join :
    (l : Bytes) (ls : List Bytes) (sep : ℕ)
    → All (Lacks sep) (l ∷ ls)
    → split (join (l ∷ ls) sep) sep ≡ l ∷ ls
unfolding join
split-join l [] sep (hl, h) = split_whole l sep hl
split-join l (k ∷ ls) sep (hl, h) =
    split_at_sep l (join (k ∷ ls) sep) sep hl ∙ ap (◌∷◌ l) (split-join k ls sep h)

IsAddr : Bytes → Type 0
IsAddr a = All IsGraphic a × (a ≢ [])

trimmed_parts-addrs : (ps : List Bytes) → All IsAddr ps → trimmed_parts ps ≡ ps
unfolding trimmed_parts IsAddr
trimmed_parts-addrs [] h = refl
trimmed_parts-addrs (p ∷ ps) ((g, ne), h) =
    rw (trim_space-IsGraphic p g, trimmed_parts-addrs ps h) (ground (arith, bytes_eq_iff p []))

parse_entries-addrs :
    (servers : List Server) → All IsNamed servers → parse_entries (map addr servers) ≡ some servers
unfolding parse_entries with_server
parse_entries-addrs [] h = refl
parse_entries-addrs (s ∷ servers) (hs, h) =
    rw (server_of-addr s hs, parse_entries-addrs servers h) refl

addrs :
    (servers : List Server)
    → All IsNamed servers
    → All IsAddr (map addr servers) × All (Lacks b',') (map addr servers)
unfolding IsAddr
addrs [] h = (tt, tt)
addrs (s ∷ servers) (hs, h) =
    let (a, l) = addrs servers h in
    (((addr-IsGraphic s hs, addr-there s hs), a), (addr-Lacks s hs, l))

-- Of the addresses of servers, joined by commas, where there is one at least, every host is visible
-- ASCII without commas and brackets and every port is in range, parseServersArg gives the servers
-- back, in their order, with hosts that have colons too.
pub parse_servers_arg-addrs :
    (s : Server) (servers : List Server)
    → All IsNamed (s ∷ servers)
    → parse_servers_arg (join (map addr (s ∷ servers)) b',') ≡ some (s ∷ servers)
unfolding parse_servers_arg split_comma some_servers
parse_servers_arg-addrs s servers h =
    let (a, l) = addrs (s ∷ servers) h in
    ap (λ ps. some_servers (parse_entries (trimmed_parts ps)))
      (split-join (addr s) (map addr servers) b',' l)
    ∙ ap (λ ps. some_servers (parse_entries ps)) (trimmed_parts-addrs (map addr (s ∷ servers)) a)
    ∙ ap some_servers (parse_entries-addrs (s ∷ servers) h)

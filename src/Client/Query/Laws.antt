-- ===== src/Client/Query/Laws.antt =====
-- What a query lets through, and what it leaves in the address cache.
use gyzor.Prelude.{
  ℕ, ◌+◌, ◌<◌, ◌≤◌, ◌≡◌, ◌≢◌, ◌⊎◌, inl, inr, refl, ◌∙◌, true, false, Option, none, some, Bytes,
  bytes_eq, bytes_eq_iff, codes, ltb, if◌then◌else◌, arith, Bool-cases, Option-cases,
}
use gyzor.Prelude.Int.{ℤ, pos, eqb_ℤ_iff}
use gyzor.Go.Maps.{lookup, insert, lookup-insert, lookup-delete}
use gyzor.Go.Numbers.{atoi}
use gyzor.Message.Request.{Request, op}
use gyzor.Message.Response.{
  Response, required_keys, parse_response, validate, require_counts, code, field,
}
use gyzor.Message.Checks.{HasKeys, IsAnswer, IsCount, validate_iff, require_counts_iff}
use gyzor.Client.Server.{Server, addr, QueryError}
use gyzor.Client.Query.{
  Client, Net, Cache, cached, addr_ttl, resolve_anew, resolve, invalidate_addr, Outcome,
  accept_counts, accept_reply, exchange, query,
}

-- What the client relies on in a reply.
abbrev pub Trusted : Bytes → ℤ → Response → Type 0
Trusted op_name thread r =
    HasKeys required_keys r
    × IsAnswer thread (atoi (field (codes "Thread") r))
    × ((op_name ≡ codes "check")
        → code r ≡ pos 200
        → IsCount (lookup (codes "Count") r) × IsCount (lookup (codes "WL-Count") r))

accept_counts-checked :
    (op_name : Bytes) (r r' : Response)
    → accept_counts op_name r ≡ Outcome.answered r'
    → (r ≡ r') × ((op_name ≡ codes "check") → code r ≡ pos 200 → require_counts r ≡ none)
unfolding accept_counts
accept_counts-checked op_name r r' e =
    ground (arith, bytes_eq_iff op_name (codes "check"), eqb_ℤ_iff (code r) (pos 200))

accept_reply-Trusted :
    (op_name : Bytes) (thread : ℤ) (o : Option Bytes) (r : Response)
    → accept_reply op_name thread o ≡ Outcome.answered r
    → Trusted op_name thread r
unfolding accept_reply
accept_reply-Trusted op_name thread none r e = cc
accept_reply-Trusted op_name thread (some datagram) r e =
    let p = parse_response datagram in
    elim (Option-cases (validate thread p)) [
      | inr (bad, h) ↦ cc (rw (accept_reply, h) at e)
      | inl valid ↦
          let (same, counts) = accept_counts-checked op_name p r (rw (accept_reply, valid) at e) in
          let (keys, answer) = (validate_iff thread p).0 valid in
          rw (← same) (keys, answer, (λ o c. (require_counts_iff p).0 (counts o c)))
    ]

-- The socket did not open, or did not take the packet.
abbrev pub IsSocketFailure : Outcome → Type 0
IsSocketFailure o =
    (o ≡ Outcome.failed QueryError.dial_failed) ⊎ (o ≡ Outcome.failed QueryError.send_failed)

accept_reply-received :
    (op_name : Bytes) (thread : ℤ) (o : Option Bytes)
    → ¬ IsSocketFailure (accept_reply op_name thread o)
unfolding accept_reply accept_counts
accept_reply-received op_name thread none bad = ground arith
accept_reply-received op_name thread (some datagram) bad = ground arith

bytes_eq_ne : (a b : Bytes) → a ≢ b → bytes_eq a b ≡ false
bytes_eq_ne a b ne = ground (arith, bytes_eq_iff a b)

module _ {Addr : Type 0} where
  exchange-Trusted :
      (cache : Cache Addr) (s : Server) (op_name : Bytes) (thread : ℤ) (packet : Bytes)
      (net : Net Addr) (a : Option Addr) (r : Response)
      → (exchange cache s op_name thread packet net a).1 ≡ Outcome.answered r
      → Trusted op_name thread r
  unfolding exchange
  exchange-Trusted cache s op_name thread packet net none r e = cc
  exchange-Trusted cache s op_name thread packet net (some a) r e =
      elim (Bool-cases (net.dialed a)) [
        | inr no_dial ↦ cc (rw no_dial at e)
        | inl dial ↦ elim (Bool-cases (net.sent a packet)) [
          | inr unsent ↦ cc (rw (dial, unsent) at e)
          | inl sent ↦
              accept_reply-Trusted op_name thread (net.reply a packet) r (rw (dial, sent) at e)
        ]
      ]

  -- A query returns a reply only if it is complete, its thread is the one drawn for the request or
  -- below 1024, and, for a `check` with code 200, both counts are numbers. Whatever the network
  -- sends, nothing else is taken for an answer.
  pub query-Trusted :
      (lower : ℕ → ℕ) (c : Client) (cache : Cache Addr) (s : Server) (req : Request)
      (net : Net Addr) (thread seconds : ℤ) (now : ℕ) (r : Response)
      → (query lower c cache s req net thread seconds now).1 ≡ Outcome.answered r
      → Trusted (op req) thread r
  unfolding query
  query-Trusted lower c cache s req net thread seconds now r e =
      exchange-Trusted _ s (op req) thread _ net _ r e

  -- An entry that has not expired is used as it is, whatever the resolver would say.
  cached-resolve :
      (cache : Cache Addr) (s : Server) (now : ℕ) (answer : Option Addr) {a : Addr}
      → cached cache (addr s) now ≡ some a
      → resolve cache s now answer ≡ (cache, some a)
  unfolding resolve
  cached-resolve cache s now answer h = rw (resolve, h)

  uncached-resolve :
      (cache : Cache Addr) (s : Server) (now : ℕ) (answer : Option Addr)
      → cached cache (addr s) now ≡ none
      → resolve cache s now answer ≡ resolve_anew cache (addr s) now answer
  unfolding resolve
  uncached-resolve cache s now answer h = rw (resolve, h)

  -- What the cache says of a server whose address was resolved at the time `now`.
  cached-insert :
      (cache : Cache Addr) (key : Bytes) (a : Addr) (expires later : ℕ)
      → cached (insert key (record { address = a; expires = expires }) cache) key later
        ≡ (if ltb later expires then some a else none)
  unfolding cached
  cached-insert cache key a expires later =
      let same : bytes_eq key key ≡ true = (bytes_eq_iff key key).1 refl in
      rw (cached, lookup-insert, same)

  -- A resolved address is cached for the next 30 seconds and no longer: before they are over the
  -- resolver is not asked again, and from then on it is.
  pub resolve-resolve :
      (cache : Cache Addr) (s : Server) (now later : ℕ) (a : Addr) (answer : Option Addr)
      → cached cache (addr s) now ≡ none
      → (let cache' = (resolve cache s now (some a)).0 in
          ((later < now + addr_ttl) → resolve cache' s later answer ≡ (cache', some a))
          × ((now + addr_ttl ≤ later)
              → resolve cache' s later answer ≡ resolve_anew cache' (addr s) later answer))
  unfolding resolve_anew
  resolve-resolve cache s now later a answer h = rw (uncached-resolve cache s now (some a) h) (
    (λ fresh.
        cached-resolve _ s later answer
          (cached-insert cache (addr s) a (now + addr_ttl) later ∙ ground arith)),
    (λ stale.
        uncached-resolve _ s later answer
          (cached-insert cache (addr s) a (now + addr_ttl) later ∙ ground arith)),
  )

  lookup-resolve_anew :
      (cache : Cache Addr) (k : Bytes) (now : ℕ) (answer : Option Addr) (key : Bytes)
      → k ≢ key
      → lookup key (resolve_anew cache k now answer).0 ≡ lookup key cache
  unfolding resolve_anew
  lookup-resolve_anew cache k now none key ne = refl
  lookup-resolve_anew cache k now (some a) key ne = rw (lookup-insert, bytes_eq_ne k key ne)

  lookup-resolve :
      (cache : Cache Addr) (s : Server) (now : ℕ) (answer : Option Addr) (key : Bytes)
      → addr s ≢ key
      → lookup key (resolve cache s now answer).0 ≡ lookup key cache
  lookup-resolve cache s now answer key ne = elim (Option-cases (cached cache (addr s) now)) [
    | inl miss ↦
        rw (uncached-resolve cache s now answer miss)
          (lookup-resolve_anew cache (addr s) now answer key ne)
    | inr (a, found) ↦ rw (cached-resolve cache s now answer found)
  ]

  lookup-invalidate :
      (cache : Cache Addr) (s : Server)
      → (lookup (addr s) (invalidate_addr cache s) ≡ none)
        × ((key : Bytes) → addr s ≢ key → lookup key (invalidate_addr cache s) ≡ lookup key cache)
  unfolding invalidate_addr
  lookup-invalidate cache s = (
    rw (lookup-delete, (bytes_eq_iff (addr s) (addr s)).1 refl),
    (λ key ne. rw (lookup-delete, bytes_eq_ne (addr s) key ne)),
  )

  exchange-cache :
      (cache : Cache Addr) (s : Server) (op_name : Bytes) (thread : ℤ) (packet : Bytes)
      (net : Net Addr) (a : Option Addr)
      → (let after = exchange cache s op_name thread packet net a in
          (IsSocketFailure after.1 → lookup (addr s) after.0 ≡ none)
          × ((key : Bytes) → addr s ≢ key → lookup key after.0 ≡ lookup key cache))
  unfolding exchange
  exchange-cache cache s op_name thread packet net none = ((λ bad. ground arith), (λ key ne. refl))
  exchange-cache cache s op_name thread packet net (some a) =
      let (gone, others) = lookup-invalidate cache s in
      elim (Bool-cases (net.dialed a)) [
        | inr no_dial ↦ rw no_dial ((λ bad. gone), others)
        | inl dial ↦ elim (Bool-cases (net.sent a packet)) [
          | inr unsent ↦ rw (dial, unsent) ((λ bad. gone), others)
          | inl sent ↦
              rw (dial, sent)
                (
                  (λ bad. absurd (accept_reply-received op_name thread (net.reply a packet) bad)),
                  (λ key ne. refl),
                )
        ]
      ]

  -- After a query the cached address of the server is gone if the socket did not open or did not
  -- take the packet, and the cached addresses of all other servers are what they were.
  pub query-cache :
      (lower : ℕ → ℕ) (c : Client) (cache : Cache Addr) (s : Server) (req : Request)
      (net : Net Addr) (thread seconds : ℤ) (now : ℕ)
      → (let after = query lower c cache s req net thread seconds now in
          (IsSocketFailure after.1 → lookup (addr s) after.0 ≡ none)
          × ((key : Bytes) → addr s ≢ key → lookup key after.0 ≡ lookup key cache))
  unfolding query
  query-cache lower c cache s req net thread seconds now =
      let resolved = resolve cache s now net.resolved in
      let (gone, others) = exchange-cache resolved.0 s (op req) thread _ net resolved.1 in
      (gone, (λ key ne. others key ne ∙ lookup-resolve cache s now net.resolved key ne))

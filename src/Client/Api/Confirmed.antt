-- ===== src/Client/Api/Confirmed.antt =====
-- What a verdict of the client rests on, from the replies of the servers up.
use gyzor.Prelude.{
  List, ℕ, zero, suc, ◌<◌, ◌≡◌, refl, inl, inr, true, false, Bytes, codes, length, arith, All,
}
use mathlib.Core.Path.{subst}
use gyzor.Prelude.Int.{ℤ, pos, ◌<ℤ◌, ◌≤ℤ◌}
use gyzor.Go.Maps.{lookup}
use gyzor.Go.Numbers.{atoi}
use gyzor.Message.Checks.{HasKeys, IsAnswer, IsCount}
use gyzor.Message.Request.{Request, op, new_request, generate_thread}
use gyzor.Message.Response.{Response, required_keys, code, field}
use gyzor.Client.Api.{Attempt, nth_server, outcome_of, query_all, check_digest}
use gyzor.Client.Fanout.Order.{collect-returned}
use gyzor.Client.Fanout.{Main, Fan, Run, collect}
use gyzor.Client.Query.Laws.{Trusted, query-Trusted}
use gyzor.Client.Query.{Client, Outcome, server_result}
use gyzor.Client.Server.{Server, ServerResult}
use gyzor.Client.Verdict.Laws.{Answers, Any, IsHit, tally_all-servers, hit_iff}
use gyzor.Client.Verdict.{aggregate, hit}

All-collect :
    (P : ServerResult → Type 0) (n : ℕ) (g : ℕ → ServerResult)
    → All P (collect n g)
    → (i : ℕ) → i < n
    → P (g i)
unfolding collect
All-collect P zero g h i lt = absurd (omega (arith, lt))
All-collect P (suc n) g (h0, h) zero lt = h0
All-collect P (suc n) g (h0, h) (suc i) lt = All-collect P n (λ j. g (suc j)) h i (omega arith)

Any-collect :
    (P : ServerResult → Type 0) (n : ℕ) (g : ℕ → ServerResult)
    → Any P (collect n g)
    → (i : ℕ) × ((i < n) × P (g i))
unfolding collect
Any-collect P zero g h = elim h [ ]
Any-collect P (suc n) g (inl h) = (0, (omega arith, h))
Any-collect P (suc n) g (inr h) =
    let (i, (lt, p)) = Any-collect P n (λ j. g (suc j)) h in (suc i, (omega arith, p))

-- A query's outcome is a reply that the client relies on: it has all fields, answers the thread of
-- the request or is below 1024, its code is 200 and both counts are numbers.
pub record IsConfirmed (thread : ℤ) (o : Outcome) : Type 0 where
  pub reply : Response
  pub answers : o ≡ Outcome.answered reply
  pub keys : HasKeys required_keys reply
  pub thread_ok : IsAnswer thread (atoi (field (codes "Thread") reply))
  pub code_ok : code reply ≡ pos 200
  pub count_ok : IsCount (lookup (codes "Count") reply)
  pub wl_count_ok : IsCount (lookup (codes "WL-Count") reply)

answered_result :
    (s : Server) (o : Outcome)
    → Answers (server_result s o)
    → (reply : Response) × ((o ≡ Outcome.answered reply) × (code reply ≡ pos 200))
unfolding server_result
answered_result s (Outcome.failed e) (failed, ok) = absurd cc
answered_result s (Outcome.answered reply) (failed, ok) = (reply, (refl, ok))

module _ (lower : ℕ → ℕ) (c : Client) {Addr : Type 0} (attempts : ℕ → Attempt Addr) where
  check_op : (digest : Bytes) → op (new_request (codes "check") digest false) ≡ codes "check"
  unfolding op new_request
  check_op digest = ground arith

  outcome-Trusted :
      (req : Request) (i : ℕ) (reply : Response)
      → outcome_of lower c attempts req i ≡ Outcome.answered reply
      → Trusted (op req) (generate_thread (attempts i).drawn) reply
  unfolding outcome_of
  outcome-Trusted req i reply e =
      let a = attempts i in
      query-Trusted lower c a.cache (nth_server lower c i) req a.net (generate_thread a.drawn)
        a.seconds a.now reply e

  outcome-IsConfirmed :
      (digest : Bytes) (i : ℕ)
      → Answers (
          server_result
            (nth_server lower c i)
            (outcome_of lower c attempts (new_request (codes "check") digest false) i))
      → IsConfirmed
          (generate_thread (attempts i).drawn)
          (outcome_of lower c attempts (new_request (codes "check") digest false) i)
  outcome-IsConfirmed digest i h =
      let (reply, (e, ok)) = answered_result _ _ h in
      let (keys, thread, counts) =
        outcome-Trusted (new_request (codes "check") digest false) i reply e in
      let (count, wl) = counts (check_op digest) ok in
      record {
        reply = reply;
        answers = e;
        keys = keys;
        thread_ok = thread;
        code_ok = ok;
        count_ok = count;
        wl_count_ok = wl;
      }

  -- The outcomes of the queries of a check.
  abbrev pub check_outcome : Bytes → ℕ → Outcome
  check_outcome digest = outcome_of lower c attempts (new_request (codes "check") digest false)

  -- The i-th server's query in a check ended in a confirmed reply with a whitelist count that is not
  -- above its threshold.
  abbrev pub IsClear : Bytes → ℤ → ℕ → Type 0
  IsClear digest w i =
      IsConfirmed (generate_thread (attempts i).drawn) (check_outcome digest i)
      × ((server_result (nth_server lower c i) (check_outcome digest i)).wl_count ≤ℤ w)

  -- The report count of some server in a check is above its threshold.
  abbrev pub IsReported : Bytes → ℤ → Type 0
  IsReported digest r =
      (j : ℕ) × ((j < length c.servers)
        × (r <ℤ (server_result (nth_server lower c j) (check_outcome digest j)).count))

  IsHit-IsClear :
      (digest : Bytes) (r w : ℤ) (i : ℕ)
      → IsHit r w (
          collect
            (length c.servers)
            (λ j. server_result (nth_server lower c j) (check_outcome digest j)))
      → i < length c.servers
      → IsClear digest w i × IsReported digest r
  IsHit-IsClear digest r w i (answers, wl, above) lt =
      let result : ℕ → ServerResult =
        λ j. server_result (nth_server lower c j) (check_outcome digest j) in
      (
        (
          outcome-IsConfirmed digest i (All-collect Answers (length c.servers) result answers i lt),
          All-collect (λ sr. sr.wl_count ≤ℤ w) (length c.servers) result wl i lt,
        ),
        Any-collect (λ sr. r <ℤ sr.count) (length c.servers) result above,
      )

  hit-servers : (srs : List ServerResult) (r w : ℤ) → hit (aggregate srs) r w ≡ true → IsHit r w srs
  unfolding aggregate
  hit-servers srs r w h =
      subst (IsHit r w) (tally_all-servers srs _) ((hit_iff (aggregate srs) r w).0 h)

  -- A hit of CheckDigest: every server is clear, and one reported.
  pub check_digest-IsClear :
      (digest : Bytes) (r w : ℤ) (i : ℕ)
      → hit (check_digest lower c attempts digest) r w ≡ true
      → i < length c.servers
      → IsClear digest w i × IsReported digest r
  unfolding check_digest query_all
  check_digest-IsClear digest r w i h lt = IsHit-IsClear digest r w i (hit-servers _ r w h) lt

  -- Where queryAll has returned from a check, whatever the order in which its goroutines ran and
  -- whatever the network sent, and the verdict on its results is a hit, every server's own query
  -- ended in a confirmed reply, no server's whitelist count is above its threshold, and the report
  -- count of one server is above its own.
  pub hit-IsConfirmed :
      (digest : Bytes) (r w : ℤ) (k : ℕ) (f : Fan) (i : ℕ)
      → Run (length c.servers) (nth_server lower c) (check_outcome digest) k f
      → f.main ≡ Main.returned
      → hit (aggregate (collect (length c.servers) f.results)) r w ≡ true
      → i < length c.servers
      → IsClear digest w i × IsReported digest r
  hit-IsConfirmed digest r w k f i run back h lt =
      IsHit-IsClear digest r w i
        (subst (IsHit r w)
          (collect-returned (length c.servers) (nth_server lower c) (check_outcome digest) k f run
            back)
          (hit-servers (collect (length c.servers) f.results) r w h))
        lt

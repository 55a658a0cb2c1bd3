-- ===== src/Client/Fanout/Order.antt =====
-- What `queryAll` returns, and how many queries are open at once.
use gyzor.Prelude.{ℕ, zero, suc, ◌≤◌, ◌<◌, ◌≡◌, refl, ap₂, ◌∷◌, arith}
use gyzor.Client.Query.{Outcome, server_result}
use gyzor.Client.Server.{Server, ServerResult}
use gyzor.Client.Fanout.Family.{total}
use gyzor.Client.Fanout.Invariant.{in_flight, Run-Inv}
use gyzor.Client.Fanout.Progress.{returned-finished}
use gyzor.Client.Fanout.{max_fanout, Main, Fan, Run, collect}

collect_ext :
    (n : ℕ) (f g : ℕ → ServerResult) → ((i : ℕ) → i < n → f i ≡ g i) → collect n f ≡ collect n g
unfolding collect
collect_ext zero f g h = refl
collect_ext (suc n) f g h =
    ap₂ ◌∷◌ (h 0 (omega arith))
      (collect_ext n (λ i. f (suc i)) (λ i. g (suc i)) (λ i lt. h (suc i) (omega arith)))

module _ (n : ℕ) (server : ℕ → Server) (outcome : ℕ → Outcome) where
  -- Where queryAll has returned, its slice holds for each server, in the order of the servers, the
  -- result of that server's query, in whatever order the queries ended.
  pub collect-returned :
      (k : ℕ) (f : Fan)
      → Run n server outcome k f
      → f.main ≡ Main.returned
      → collect n f.results ≡ collect n (λ i. server_result (server i) (outcome i))
  collect-returned k f r e =
      let v = Run-Inv n server outcome r in
      collect_ext n f.results (λ i. server_result (server i) (outcome i))
        (λ i lt. v.written i (rw (returned-finished n server outcome f v e i lt) refl))

  -- In every state of queryAll at most 16 goroutines are between their start and the receive from
  -- the semaphore, so at most 16 queries are open.
  pub in_flight-le :
      (k : ℕ) (f : Fan) → Run n server outcome k f → total in_flight n f.workers ≤ max_fanout
  in_flight-le k f r = let v = Run-Inv n server outcome r in omega (arith, v.sem_count, v.sem_bound)

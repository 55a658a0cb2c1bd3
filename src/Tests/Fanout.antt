-- ===== src/Tests/Fanout.antt =====
-- Runs of `queryAll` for two servers, with their goroutines interleaved.
use gyzor.Prelude.{ℕ, ◌+◌, ◌*◌, ◌≤◌, ◌≡◌, ◌↔◌, refl, codes, arith}
use gyzor.Prelude.Int.{pos}
use gyzor.Client.Query.{Outcome, server_result}
use gyzor.Client.Server.{Server, QueryError}
use gyzor.Client.Fanout.Family.{total}
use gyzor.Client.Fanout.Invariant.{in_flight}
use gyzor.Client.Fanout.Order.{collect-returned, in_flight-le}
use gyzor.Client.Fanout.Progress.{no_deadlock, length_of_runs}
use gyzor.Client.Fanout.{
  max_fanout, Main, Fan, Step, add, loop_end, send, go, store, release, done, wait, Run, start,
  next, collect,
}

abbrev servers : ℕ → Server
servers i = record { host = codes "127.0.0.1"; port = pos (24441 + i) }

abbrev outcomes : ℕ → Outcome
outcomes i = Outcome.failed QueryError.read_failed

abbrev both_open : (f : Fan) × Run 2 servers outcomes 6 f
both_open = (
  _,
  next
      (next
        (next
          (next (next (next start (add 0 refl (omega arith))) (send 0 refl (omega arith)))
            (go 0 refl))
          (add 1 refl (omega arith)))
        (send 1 refl (omega arith)))
      (go 1 refl),
)

-- The second query ends first.
abbrev whole : (f : Fan) × Run 2 servers outcomes 14 f
whole =
    let open_run = both_open.1 in
    (
      _,
      next
          (next
            (next
              (next
                (next
                  (next (next (next open_run (store 1 refl)) (store 0 refl))
                    (release 1 refl (omega arith)))
                  (loop_end 2 refl (omega arith)))
                (done 1 refl))
              (release 0 refl (omega arith)))
            (done 0 refl))
          (wait refl refl),
    )

no_deadlock_example : (g : Fan) × Step 2 servers outcomes both_open.0 g
no_deadlock_example = no_deadlock 2 servers outcomes 6 both_open.0 both_open.1 (λ e. cc)

length_of_runs_example :
    (14 ≤ 6 * 2 + 2) × ((whole.0.main ≡ Main.returned) ↔ (◌≡◌ {A = ℕ} 14 (6 * 2 + 2)))
length_of_runs_example = length_of_runs 2 servers outcomes 14 whole.0 whole.1

collect-returned_example :
    collect 2 whole.0.results ≡ collect 2 (λ i. server_result (servers i) (outcomes i))
collect-returned_example = collect-returned 2 servers outcomes 14 whole.0 whole.1 refl

in_flight-le_example : total in_flight 2 both_open.0.workers ≤ max_fanout
in_flight-le_example = in_flight-le 2 servers outcomes 6 both_open.0 both_open.1

both_in_flight : total in_flight 2 both_open.0.workers ≡ 2
unfolding total
both_in_flight = refl

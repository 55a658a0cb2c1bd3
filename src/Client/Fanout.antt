-- ===== src/Client/Fanout.antt =====
-- pyzor/client.go: `queryAll`, a loop that starts a goroutine for each server, under a semaphore of
-- `maxFanout` and a wait group, as steps that interleave in any order. What the query of the i-th
-- server gives is the argument `outcome`.
pub mod Family
pub mod Invariant
pub mod Progress
pub mod Order
use gyzor.Prelude.{ℕ, zero, suc, ◌+◌, ◌-◌, ◌≤◌, ◌<◌, ◌≡◌, List, [], ◌∷◌, ◌==◌, if◌then◌else◌}
use gyzor.Prelude.Int.{pos}
use gyzor.Client.Query.{Outcome, server_result}
use gyzor.Client.Server.{Server, ServerResult}
use gyzor.Client.Fanout.Family.{update}
use mathlib.Core.Option.{Option, none, some}

abbrev pub max_fanout : ℕ
max_fanout = 16

-- Where the loop of `queryAll` stands: before `wg.Add`, before the send on the semaphore or before
-- the `go` statement for a server, at `wg.Wait`, or behind it.
pub data Main : Type 0 where
  adding : ℕ → Main
  sending : ℕ → Main
  starting : ℕ → Main
  waiting : Main
  returned : Main

-- A goroutine: not started, in its query, behind the write of its result, behind the receive from
-- the semaphore, behind `wg.Done`.
pub data Worker : Type 0 where
  idle querying stored released finished : Worker

pub record Fan : Type 0 where
  pub main : Main
  pub workers : ℕ → Worker
  pub sem : ℕ
  pub group : ℕ
  pub results : ℕ → ServerResult

-- The zero value of a `ServerResult`, with the zero value of a `Server`.
abbrev pub zero_result : ServerResult
zero_result = record {
  server = record { host = []; port = pos 0 };
  code = pos 0;
  diag = [];
  count = pos 0;
  wl_count = pos 0;
  err = none;
}

abbrev pub init : Fan
init = record {
  main = Main.adding 0;
  workers = λ i. Worker.idle;
  sem = 0;
  group = 0;
  results = λ i. zero_result;
}

-- `n` servers, the i-th of which is `server i`.
module _ (n : ℕ) (server : ℕ → Server) (outcome : ℕ → Outcome) where
  pub data Step : Fan → Fan → Type 0 where
    -- `wg.Add(1)`
    add :
        {f : Fan} (i : ℕ)
        → f.main ≡ Main.adding i
        → i < n
        → Step f (record f { main = Main.sending i; group = f.group + 1 })
    -- the loop is over
    loop_end :
        {f : Fan} (i : ℕ)
        → f.main ≡ Main.adding i
        → n ≤ i
        → Step f (record f { main = Main.waiting })
    -- `sem <- struct{}{}`, which waits while the channel is full
    send :
        {f : Fan} (i : ℕ)
        → f.main ≡ Main.sending i
        → f.sem < max_fanout
        → Step f (record f { main = Main.starting i; sem = f.sem + 1 })
    -- `go func(i, s)`
    go :
        {f : Fan} (i : ℕ)
        → f.main ≡ Main.starting i
        → Step f
            (record f { main = Main.adding (suc i); workers = update f.workers i Worker.querying })
    -- the query of a goroutine ends, and `results[i] = sr`
    store :
        {f : Fan} (i : ℕ)
        → f.workers i ≡ Worker.querying
        → Step f (record f {
          workers = update f.workers i Worker.stored;
          results = update f.results i (server_result (server i) (outcome i));
        })
    -- the deferred `<-sem`, which waits while the channel is empty
    release :
        {f : Fan} (i : ℕ)
        → f.workers i ≡ Worker.stored
        → 0 < f.sem
        → Step f (record f { workers = update f.workers i Worker.released; sem = f.sem - 1 })
    -- the deferred `wg.Done()`
    done :
        {f : Fan} (i : ℕ)
        → f.workers i ≡ Worker.released
        → Step f (record f { workers = update f.workers i Worker.finished; group = f.group - 1 })
    -- `wg.Wait()` returns
    wait :
        {f : Fan} → f.main ≡ Main.waiting → f.group ≡ 0 → Step f (record f { main = Main.returned })

  -- A run of `k` steps.
  pub data Run : ℕ → Fan → Type 0 where
    start : Run 0 init
    next : {k : ℕ} {f g : Fan} → Run k f → Step f g → Run (suc k) g

-- The slice that `queryAll` returns.
unfoldable pub collect : ℕ → (ℕ → ServerResult) → List ServerResult
collect zero results = []
collect (suc n) results = results 0 ∷ collect n (λ i. results (suc i))

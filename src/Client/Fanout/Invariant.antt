-- ===== src/Client/Fanout/Invariant.antt =====
-- What holds in every state of `queryAll`: the counters say what the goroutines do.
use gyzor.Prelude.{ℕ, ◌+◌, ◌≤◌, ◌<◌, ◌≡◌, refl, Bool, true, false, arith}
use gyzor.Client.Query.{Outcome, server_result}
use gyzor.Client.Server.{Server}
use gyzor.Client.Fanout.Family.{total, total-update, total-constant}
use gyzor.Client.Fanout.{
  max_fanout, Main, Worker, Fan, init, Step, add, loop_end, send, go, store, release, done, wait,
  Run, start, next,
}

-- Whether a goroutine counts in the semaphore, and in the wait group.
abbrev pub in_flight : Worker → ℕ
in_flight Worker.querying = 1
in_flight Worker.stored = 1
in_flight w = 0

abbrev pub unfinished : Worker → ℕ
unfinished Worker.querying = 1
unfinished Worker.stored = 1
unfinished Worker.released = 1
unfinished w = 0

abbrev pub is_started : Worker → Bool
is_started Worker.idle = false
is_started w = true

abbrev pub has_result : Worker → Bool
has_result Worker.idle = false
has_result Worker.querying = false
has_result w = true

-- What the loop itself counts in the semaphore and in the wait group.
abbrev pub loop_sem : Main → ℕ
loop_sem (Main.starting i) = 1
loop_sem m = 0

abbrev pub loop_group : Main → ℕ
loop_group (Main.sending i) = 1
loop_group (Main.starting i) = 1
loop_group m = 0

module _ (n : ℕ) where
  -- How many goroutines are started.
  abbrev pub launched : Main → ℕ
  launched (Main.adding i) = i
  launched (Main.sending i) = i
  launched (Main.starting i) = i
  launched m = n

  abbrev pub IsIndex : Main → Type 0
  IsIndex (Main.adding i) = i ≤ n
  IsIndex (Main.sending i) = i < n
  IsIndex (Main.starting i) = i < n
  IsIndex m = 0 ≤ n

module _ (n : ℕ) (server : ℕ → Server) (outcome : ℕ → Outcome) where
  pub record Inv (f : Fan) : Type 0 where
    pub index : IsIndex n f.main
    pub started : (j : ℕ) → is_started (f.workers j) ≡ true → j < launched n f.main
    pub running : (j : ℕ) → j < launched n f.main → is_started (f.workers j) ≡ true
    pub sem_count : f.sem ≡ total in_flight n f.workers + loop_sem f.main
    pub sem_bound : f.sem ≤ max_fanout
    pub group_count : f.group ≡ total unfinished n f.workers + loop_group f.main
    pub written :
        (j : ℕ)
        → has_result (f.workers j) ≡ true
        → f.results j ≡ server_result (server j) (outcome j)
    pub over : f.main ≡ Main.returned → f.group ≡ 0

  launched-le : (m : Main) → IsIndex n m → launched n m ≤ n
  launched-le m h = ground arith

  pub below : (f : Fan) (i : ℕ) → Inv f → is_started (f.workers i) ≡ true → i < n
  below f i v s = omega (arith, launched-le f.main v.index, v.started i s)

  init-Inv : Inv init
  init-Inv = record {
    index = omega arith;
    started = λ j e. cc;
    running = λ j lt. absurd (omega arith);
    sem_count = omega (arith, total-constant in_flight n Worker.idle refl);
    sem_bound = omega arith;
    group_count = omega (arith, total-constant unfinished n Worker.idle refl);
    written = λ j e. cc;
    over = λ e. cc;
  }

  pub Step-Inv : {f g : Fan} → Step n server outcome f g → Inv f → Inv g
  Step-Inv {f} (add i e lt) v = record {
    index = lt;
    started = λ j s. ground (arith, v.started j);
    running = λ j s. ground (arith, v.running j);
    sem_count = ground (arith, v.sem_count);
    sem_bound = v.sem_bound;
    group_count = ground (arith, v.group_count);
    written = v.written;
    over = λ o. cc;
  }
  Step-Inv {f} (loop_end i e ge) v = record {
    index = omega arith;
    started = λ j s. ground (arith, v.started j, v.index);
    running = λ j s. ground (arith, v.running j);
    sem_count = ground (arith, v.sem_count);
    sem_bound = v.sem_bound;
    group_count = ground (arith, v.group_count);
    written = v.written;
    over = λ o. cc;
  }
  Step-Inv {f} (send i e lt) v = record {
    index = ground (arith, v.index);
    started = λ j s. ground (arith, v.started j);
    running = λ j s. ground (arith, v.running j);
    sem_count = ground (arith, v.sem_count);
    sem_bound = omega arith;
    group_count = ground (arith, v.group_count);
    written = v.written;
    over = λ o. cc;
  }
  Step-Inv {f} (go i e) v = record {
    index = ground (arith, v.index);
    started = λ j s. ground (arith, v.started j);
    running = λ j s. ground (arith, v.running j);
    sem_count = ground (
      arith,
      v.sem_count,
      v.index,
      v.started i,
      total-update in_flight n f.workers i Worker.querying,
    );
    sem_bound = v.sem_bound;
    group_count = ground (
      arith,
      v.group_count,
      v.index,
      v.started i,
      total-update unfinished n f.workers i Worker.querying,
    );
    written = λ j s. ground (arith, v.written j);
    over = λ o. cc;
  }
  Step-Inv {f} (store i e) v =
      let lt = below f i v (ground arith) in
      record {
        index = v.index;
        started = λ j s. ground (arith, v.started j);
        running = λ j s. ground (arith, v.running j);
        sem_count =
            ground (arith, v.sem_count, total-update in_flight n f.workers i Worker.stored lt);
        sem_bound = v.sem_bound;
        group_count =
            ground (arith, v.group_count, total-update unfinished n f.workers i Worker.stored lt);
        written = λ j s. ground (arith, v.written j);
        over = v.over;
      }
  Step-Inv {f} (release i e held) v =
      let lt = below f i v (ground arith) in
      record {
        index = v.index;
        started = λ j s. ground (arith, v.started j);
        running = λ j s. ground (arith, v.running j);
        sem_count =
            ground (arith, v.sem_count, total-update in_flight n f.workers i Worker.released lt);
        sem_bound = omega (arith, v.sem_bound);
        group_count =
            ground (arith, v.group_count, total-update unfinished n f.workers i Worker.released lt);
        written = λ j s. ground (arith, v.written j);
        over = v.over;
      }
  Step-Inv {f} (done i e) v =
      let lt = below f i v (ground arith) in
      record {
        index = v.index;
        started = λ j s. ground (arith, v.started j);
        running = λ j s. ground (arith, v.running j);
        sem_count =
            ground (arith, v.sem_count, total-update in_flight n f.workers i Worker.finished lt);
        sem_bound = v.sem_bound;
        group_count =
            ground (arith, v.group_count, total-update unfinished n f.workers i Worker.finished lt);
        written = λ j s. ground (arith, v.written j);
        over = λ o. omega (arith, v.over o);
      }
  Step-Inv {f} (wait e none) v = record {
    index = omega arith;
    started = λ j s. ground (arith, v.started j);
    running = λ j s. ground (arith, v.running j);
    sem_count = ground (arith, v.sem_count);
    sem_bound = v.sem_bound;
    group_count = ground (arith, v.group_count);
    written = v.written;
    over = λ o. none;
  }

  pub Run-Inv : {k : ℕ} {f : Fan} → Run n server outcome k f → Inv f
  Run-Inv start = init-Inv
  Run-Inv (next r st) = Step-Inv st (Run-Inv r)

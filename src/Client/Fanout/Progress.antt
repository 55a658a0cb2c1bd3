-- ===== src/Client/Fanout/Progress.antt =====
-- `queryAll` does not deadlock, and it ends.
use gyzor.Prelude.{
  ℕ, suc, ◌+◌, ◌-◌, ◌*◌, ◌≤◌, ◌<◌, ◌≡◌, ◌≢◌, ◌↔◌, refl, arith, ◌==◌, ltb, Bool-cases, inl, inr,
}
use gyzor.Client.Query.{Outcome}
use gyzor.Client.Server.{Server}
use gyzor.Client.Fanout.Family.{
  total, total-update, total-zero, total-each, total-pos, weight-le-total,
}
use gyzor.Client.Fanout.Invariant.{in_flight, unfinished, IsIndex, Inv, below, Run-Inv}
use gyzor.Client.Fanout.{
  max_fanout, Main, Worker, Fan, Step, add, loop_end, send, go, store, release, done, wait, Run,
  start, next,
}

module _ (n : ℕ) (server : ℕ → Server) (outcome : ℕ → Outcome) where
  CanStep : Fan → Type 0
  CanStep f = (g : Fan) × Step n server outcome f g

  sem-pos :
      (f : Fan) (i : ℕ) → Inv n server outcome f → i < n → f.workers i ≡ Worker.stored → 0 < f.sem
  sem-pos f i v lt e = ground (arith, v.sem_count, weight-le-total in_flight n f.workers i lt)

  worker_step :
      (f : Fan) (i : ℕ) (w : Worker)
      → Inv n server outcome f
      → i < n
      → f.workers i ≡ w
      → 0 < unfinished w
      → CanStep f
  unfolding CanStep
  worker_step f i Worker.idle v lt e h = absurd (omega arith)
  worker_step f i Worker.querying v lt e h = (_, store i e)
  worker_step f i Worker.stored v lt e h = (_, release i e (sem-pos f i v lt e))
  worker_step f i Worker.released v lt e h = (_, done i e)
  worker_step f i Worker.finished v lt e h = absurd (omega arith)

  in_flight-le-unfinished : (w : Worker) → 0 < in_flight w → 0 < unfinished w
  in_flight-le-unfinished w h = ground arith

  main_step :
      (f : Fan) (m : Main) → Inv n server outcome f → f.main ≡ m → m ≢ Main.returned → CanStep f
  unfolding CanStep
  main_step f (Main.adding i) v e h = elim (Bool-cases (ltb i n)) [
    | inl more ↦ (_, add i e (ground arith))
    | inr over ↦ (_, loop_end i e (ground arith))
  ]
  main_step f (Main.sending i) v e h = elim (Bool-cases (ltb f.sem max_fanout)) [
    | inl free ↦ (_, send i e (ground arith))
    | inr full ↦
        let (j, lt, pos) = total-pos in_flight n f.workers (ground (arith, v.sem_count)) in
        worker_step f j (f.workers j) v lt refl (in_flight-le-unfinished (f.workers j) pos)
  ]
  main_step f (Main.starting i) v e h = (_, go i e)
  main_step f Main.waiting v e h = elim (Bool-cases (f.group == 0)) [
    | inl none ↦ (_, wait e (ground arith))
    | inr some ↦
        let (j, lt, pos) = total-pos unfinished n f.workers (ground (arith, v.group_count)) in
        worker_step f j (f.workers j) v lt refl pos
  ]
  main_step f Main.returned v e h = absurd (h refl)

  -- In every state that queryAll can reach and in which it has not returned, some step is possible:
  -- the semaphore and the wait group do not deadlock.
  pub no_deadlock :
      (k : ℕ) (f : Fan)
      → Run n server outcome k f
      → f.main ≢ Main.returned
      → (g : Fan) × Step n server outcome f g
  unfolding CanStep
  no_deadlock k f r h = main_step f f.main (Run-Inv n server outcome r) refl h

  -- The steps that are left to the loop, and to a goroutine.
  abbrev loop_left : Main → ℕ
  loop_left (Main.adding i) = 3 * (n - i) + 2
  loop_left (Main.sending i) = 3 * (n - i) + 1
  loop_left (Main.starting i) = 3 * (n - i)
  loop_left Main.waiting = 1
  loop_left Main.returned = 0

  abbrev worker_left : Worker → ℕ
  worker_left Worker.idle = 3
  worker_left Worker.querying = 3
  worker_left Worker.stored = 2
  worker_left Worker.released = 1
  worker_left Worker.finished = 0

  steps_left : Fan → ℕ
  steps_left f = loop_left f.main + total worker_left n f.workers

  steps_left-Step :
      {f g : Fan}
      → Inv n server outcome f
      → Step n server outcome f g
      → suc (steps_left g) ≡ steps_left f
  unfolding steps_left
  steps_left-Step {f} v (add i e lt) = ground arith
  steps_left-Step {f} v (loop_end i e ge) = ground (arith, v.index)
  steps_left-Step {f} v (send i e lt) = ground arith
  steps_left-Step {f} v (go i e) =
      ground (arith, v.index, v.started i, total-update worker_left n f.workers i Worker.querying)
  steps_left-Step {f} v (store i e) = ground (
    arith,
    total-update worker_left n f.workers i Worker.stored
        (below n server outcome f i v (ground arith)),
  )
  steps_left-Step {f} v (release i e pos) = ground (
    arith,
    total-update worker_left n f.workers i Worker.released
        (below n server outcome f i v (ground arith)),
  )
  steps_left-Step {f} v (done i e) = ground (
    arith,
    total-update worker_left n f.workers i Worker.finished
        (below n server outcome f i v (ground arith)),
  )
  steps_left-Step {f} v (wait e none) = ground arith

  total-three : (k : ℕ) → total worker_left k (λ i. Worker.idle) ≡ 3 * k
  total-three k = total-each worker_left k Worker.idle

  steps_left-Run : {k : ℕ} {f : Fan} → Run n server outcome k f → k + steps_left f ≡ 6 * n + 2
  unfolding steps_left
  steps_left-Run start = omega (arith, total-three n)
  steps_left-Run (next {f = f} {g = g} r st) =
      omega (arith, steps_left-Run r, steps_left-Step (Run-Inv n server outcome r) st)

  pub returned-finished :
      (f : Fan)
      → Inv n server outcome f
      → f.main ≡ Main.returned
      → (i : ℕ) → i < n
      → f.workers i ≡ Worker.finished
  returned-finished f v e i lt =
      ground
        (arith, v.group_count, v.over e, v.running i, weight-le-total unfinished n f.workers i lt)

  none_left : (f : Fan) → Inv n server outcome f → f.main ≡ Main.returned → steps_left f ≡ 0
  unfolding steps_left
  none_left f v e = rw e (
      rw (total-zero worker_left n f.workers (λ i lt. rw (returned-finished f v e i lt) refl))
        (omega arith))

  has_returned : (m : Main) → IsIndex n m → loop_left m ≡ 0 → m ≡ Main.returned
  has_returned m h e = ground arith

  -- Every run of queryAll for n servers has at most 6 n + 2 steps, whatever the order in which the
  -- goroutines run, and it has returned just where it has made 6 n + 2.
  pub length_of_runs :
      (k : ℕ) (f : Fan)
      → Run n server outcome k f
      → (k ≤ 6 * n + 2) × ((f.main ≡ Main.returned) ↔ (k ≡ 6 * n + 2))
  unfolding steps_left
  length_of_runs k f r =
      let v = Run-Inv n server outcome r in
      let left : k + steps_left f ≡ 6 * n + 2 = steps_left-Run r in
      (
        omega (arith, left),
        (
          (λ e. omega (arith, left, none_left f v e)),
          (λ e. has_returned f.main v.index (omega (arith, left))),
        ),
      )

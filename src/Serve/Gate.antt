-- ===== src/Serve/Gate.antt =====
-- cmd/gyzor/serve.go: the gate of `runServe`, a semaphore of `maxConc` that requests take without
-- waiting, as steps that interleave in any order. A request is its number.
pub mod Bounded
use gyzor.Prelude.{ℕ, zero, suc, ◌+◌, ◌-◌, ◌≤◌, ◌<◌, ◌≡◌, ◌==◌, if◌then◌else◌}
use gyzor.Client.Fanout.Family.{update}

-- A request: not there yet, in the handler, behind the handler and its deferred receive, or refused
-- with the status 503.
pub data Phase : Type 0 where
  coming handling served busy : Phase

pub record Gate : Type 0 where
  pub phases : ℕ → Phase
  pub sem : ℕ

abbrev pub idle_gate : Gate
idle_gate = record { phases = λ i. Phase.coming; sem = 0 }

-- `n` requests at most, and a channel of `max` slots.
module _ (n max : ℕ) where
  pub data GateStep : Gate → Gate → Type 0 where
    -- `case sem <- struct{}{}`
    enter :
        {g : Gate} (i : ℕ)
        → i < n
        → g.phases i ≡ Phase.coming
        → g.sem < max
        → GateStep g (record g { phases = update g.phases i Phase.handling; sem = g.sem + 1 })
    -- `default`, while the channel is full
    refuse :
        {g : Gate} (i : ℕ)
        → i < n
        → g.phases i ≡ Phase.coming
        → max ≤ g.sem
        → GateStep g (record g { phases = update g.phases i Phase.busy })
    -- `next` returns or panics, and the deferred `<-sem`, which waits while the channel is empty
    leave :
        {g : Gate} (i : ℕ)
        → i < n
        → g.phases i ≡ Phase.handling
        → 0 < g.sem
        → GateStep g (record g { phases = update g.phases i Phase.served; sem = g.sem - 1 })

  pub data GateRun : Gate → Type 0 where
    begin : GateRun idle_gate
    then_step : {g h : Gate} → GateRun g → GateStep g h → GateRun h

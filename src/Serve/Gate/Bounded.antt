-- ===== src/Serve/Gate/Bounded.antt =====
-- How many requests the gate lets through at once, and when it refuses one.
use gyzor.Prelude.{ℕ, ◌≤◌, ◌<◌, ◌≡◌, ◌≢◌, refl, ◌⊎◌, inl, inr, arith}
use gyzor.Client.Fanout.Family.{total, total-update, total-constant}
use gyzor.Serve.Gate.{Phase, Gate, GateStep, GateRun, enter, refuse, leave, begin, then_step}

-- A request that is in its handler.
abbrev pub in_handler : Phase → ℕ
in_handler Phase.handling = 1
in_handler p = 0

module _ (n max : ℕ) where
  record GateInv (g : Gate) : Type 0 where
    counted : g.sem ≡ total in_handler n g.phases
    bounded : g.sem ≤ max

  step-GateInv : {g h : Gate} → GateStep n max g h → GateInv g → GateInv h
  step-GateInv {g} (enter i lt e room) v = record {
    counted = ground (arith, v.counted, total-update in_handler n g.phases i Phase.handling lt);
    bounded = omega arith;
  }
  step-GateInv {g} (refuse i lt e full) v = record {
    counted = ground (arith, v.counted, total-update in_handler n g.phases i Phase.busy lt);
    bounded = v.bounded;
  }
  step-GateInv {g} (leave i lt e some) v = record {
    counted = ground (arith, v.counted, total-update in_handler n g.phases i Phase.served lt);
    bounded = omega (arith, v.bounded);
  }

  run-GateInv : {g : Gate} → GateRun n max g → GateInv g
  run-GateInv begin = record {
    counted = omega (arith, total-constant in_handler n Phase.coming refl);
    bounded = omega arith;
  }
  run-GateInv (then_step r s) = step-GateInv s (run-GateInv r)

  -- What one step does to the request i.
  decision :
      (g h : Gate) (i : ℕ)
      → GateInv g
      → GateStep n max g h
      → g.phases i ≡ Phase.coming
      → h.phases i ≢ Phase.coming
      → ((h.phases i ≡ Phase.handling) × (g.sem < max))
        ⊎ ((h.phases i ≡ Phase.busy) × (g.sem ≡ max))
  decision g h i v (enter j lt e room) c moved = inl (ground arith)
  decision g h i v (refuse j lt e full) c moved = inr (ground (arith, v.bounded))
  decision g h i v (leave j lt e some) c moved = absurd (ground arith)

  -- In whatever order the requests come and end: at most max of them are in their handlers, and a
  -- request that comes is let into its handler just where fewer than max are in theirs, and refused
  -- as busy just where max are.
  pub gate-decides :
      (g h : Gate) (i : ℕ)
      → GateRun n max g
      → GateStep n max g h
      → g.phases i ≡ Phase.coming
      → h.phases i ≢ Phase.coming
      → (total in_handler n h.phases ≤ max)
        × (((h.phases i ≡ Phase.handling) × (total in_handler n g.phases < max))
            ⊎ ((h.phases i ≡ Phase.busy) × (total in_handler n g.phases ≡ max)))
  gate-decides g h i run step c moved =
      let v = run-GateInv run in
      let after = step-GateInv step v in
      (
        omega (arith, after.counted, after.bounded),
        rw (← v.counted) (decision g h i v step c moved),
      )

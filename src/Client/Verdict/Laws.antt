-- ===== src/Client/Verdict/Laws.antt =====
-- The verdict over several servers.
use gyzor.Prelude.{
  ℕ, ◌≡◌, ◌↔◌, ◌⊎◌, inl, inr, refl, ap, ◌∙◌, Bool, true, false, not, ◌&&◌, List, [], ◌∷◌, none,
  if◌then◌else◌, arith, All, Bool-cases,
}
use gyzor.Prelude.Int.{ℤ, pos, ltb_ℤ, ◌<ℤ◌, ◌≤ℤ◌}
use gyzor.Client.Server.{ServerResult}
use gyzor.Client.Verdict.{
  CheckResult, rejects, tally, tally_all, aggregate, scan_hit, hit_servers, hit, none_rejects,
  broadcast_ok, all_ok,
}

-- The server answered, and with code 200.
abbrev pub Answers : ServerResult → Type 0
Answers sr = (sr.err ≡ none) × (sr.code ≡ pos 200)

abbrev pub Any {ℓ} : {A : Type ℓ} → (A → Type 0) → List A → Type 0
Any P [] = ⊥
Any P (x ∷ xs) = P x ⊎ Any P xs

rejects-Answers : (sr : ServerResult) → (rejects sr ≡ false) ↔ Answers sr
unfolding rejects
rejects-Answers sr = ground arith

module _ (r w : ℤ) where
  scan_hit_iff :
      (srs : List ServerResult) (found : Bool)
      → (scan_hit r w srs found ≡ true) ↔ (
          All Answers srs
          × All (λ (sr : ServerResult). sr.wl_count ≤ℤ w) srs
          × ((found ≡ true) ⊎ Any (λ (sr : ServerResult). r <ℤ sr.count) srs))
  unfolding scan_hit
  scan_hit_iff [] found = ground arith
  scan_hit_iff (sr ∷ srs) found =
      ground
        (arith, rejects-Answers sr, scan_hit_iff srs (if ltb_ℤ r sr.count then true else found))

-- What a hit means: every server answered with code 200, none has a whitelist count above `w`, and
-- one has a report count above `r`.
abbrev pub IsHit : ℤ → ℤ → List ServerResult → Type 0
IsHit r w srs =
    All Answers srs
    × All (λ (sr : ServerResult). sr.wl_count ≤ℤ w) srs
    × Any (λ (sr : ServerResult). r <ℤ sr.count) srs

hit_servers_iff : (r w : ℤ) (srs : List ServerResult) → (hit_servers r w srs ≡ true) ↔ IsHit r w srs
unfolding hit_servers
hit_servers_iff r w [] = ground arith
hit_servers_iff r w (sr ∷ srs) = ground (arith, scan_hit_iff r w (sr ∷ srs) false)

-- `Hit` is true just where every server answered with code 200, none has a whitelist count above
-- `wlCount`, and one has a report count above `rCount`.
pub hit_iff : (res : CheckResult) (r w : ℤ) → (hit res r w ≡ true) ↔ IsHit r w res.servers
unfolding hit
hit_iff res r w = hit_servers_iff r w res.servers

-- The counts of an aggregation, from any state of its loop.
abbrev pub IsMax : (ServerResult → ℤ) → ℤ → ℤ → List ServerResult → Type 0
IsMax f start top srs =
    (start ≤ℤ top)
    × All (λ (sr : ServerResult). Answers sr → f sr ≤ℤ top) srs
    × ((top ≡ start) ⊎ Any (λ (sr : ServerResult). Answers sr × (f sr ≡ top)) srs)

tally_all-count :
    (srs : List ServerResult) (res : CheckResult)
    → IsMax (λ sr. sr.count) res.count (tally_all srs res).count srs
unfolding tally_all tally
tally_all-count [] res = ground arith
tally_all-count (sr ∷ srs) res =
    ground (arith, rejects-Answers sr, tally_all-count srs (tally sr res))

tally_all-whitelist :
    (srs : List ServerResult) (res : CheckResult)
    → IsMax (λ sr. sr.wl_count) res.whitelist (tally_all srs res).whitelist srs
unfolding tally_all tally
tally_all-whitelist [] res = ground arith
tally_all-whitelist (sr ∷ srs) res =
    ground (arith, rejects-Answers sr, tally_all-whitelist srs (tally sr res))

pub tally_all-servers :
    (srs : List ServerResult) (res : CheckResult) → (tally_all srs res).servers ≡ res.servers
unfolding tally_all tally
tally_all-servers [] res = refl
tally_all-servers (sr ∷ srs) res = ground (arith, tally_all-servers srs (tally sr res))

-- The counts that `CheckDigest` returns are maxima over the servers that answered with code 200,
-- and never sums: each such count is at most the result, and the result is one of them or 0.
pub aggregate-IsMax :
    (srs : List ServerResult)
    → IsMax (λ sr. sr.count) (pos 0) (aggregate srs).count srs
      × IsMax (λ sr. sr.wl_count) (pos 0) (aggregate srs).whitelist srs
unfolding aggregate
aggregate-IsMax srs = (tally_all-count srs _, tally_all-whitelist srs _)

module _ (r w : ℤ) (sr : ServerResult) (res : CheckResult) (kept : rejects sr ≡ false) where
  wl_count-tally : sr.wl_count ≤ℤ (tally sr res).whitelist
  unfolding tally
  wl_count-tally = rw kept (ground arith)

  whitelist-tally : sr.wl_count ≤ℤ w → res.whitelist ≤ℤ w → (tally sr res).whitelist ≤ℤ w
  unfolding tally
  whitelist-tally a b = rw kept (ground arith)

  count-tally :
      (if ltb_ℤ r sr.count then true else ltb_ℤ r res.count) ≡ ltb_ℤ r (tally sr res).count
  unfolding tally
  count-tally = rw kept (ground arith)

and_false : (a b : Bool) → false ≡ (a && b && not true)
and_false a b = ground arith

-- The loop of `Hit` against the loop of `CheckDigest`.
scan_hit-tally_all :
    (r w : ℤ) (srs : List ServerResult) (res : CheckResult)
    → res.whitelist ≤ℤ w
    → scan_hit r w srs (ltb_ℤ r res.count) ≡ (
        none_rejects srs
        && ltb_ℤ r (tally_all srs res).count
        && not (ltb_ℤ w (tally_all srs res).whitelist))
unfolding scan_hit tally_all none_rejects
scan_hit-tally_all r w [] res h = ground arith
scan_hit-tally_all r w (sr ∷ srs) res h = elim (Bool-cases (rejects sr)) [
  | inl bad ↦ rw bad (ground arith)
  | inr kept ↦ rw kept (elim (Bool-cases (ltb_ℤ w sr.wl_count)) [
    | inl listed ↦
        let over : ltb_ℤ w (tally_all srs (tally sr res)).whitelist ≡ true =
          ground
            (arith, wl_count-tally r w sr res kept, (tally_all-whitelist srs (tally sr res)).0) in
        rw (listed, over)
          (and_false (none_rejects srs) (ltb_ℤ r (tally_all srs (tally sr res)).count))
    | inr unlisted ↦
        rw (unlisted, count-tally r w sr res kept)
          (scan_hit-tally_all r w srs (tally sr res)
            (whitelist-tally r w sr res kept (ground arith) h))
  ])
]

servers_verdict :
    (srs all : List ServerResult) (r w : ℕ)
    → (let top = tally_all srs (record { count = pos 0; whitelist = pos 0; servers = all }) in
        hit_servers (pos r) (pos w) srs
        ≡ (broadcast_ok srs && ltb_ℤ (pos r) top.count && not (ltb_ℤ (pos w) top.whitelist)))
unfolding hit_servers broadcast_ok
servers_verdict [] all r w = refl
servers_verdict (sr ∷ srs) all r w =
    let low : false ≡ ltb_ℤ (pos r) (pos 0) = ground arith in
    ap (λ found. scan_hit (pos r) (pos w) (sr ∷ srs) found) low
    ∙ scan_hit-tally_all (pos r) (pos w) (sr ∷ srs)
        (record { count = pos 0; whitelist = pos 0; servers = all }) (omega arith)

-- With thresholds that are not negative, the verdict of `Hit` on the result of `CheckDigest` is
-- that all servers are OK, that the returned count is above the report threshold, and that the
-- returned whitelist count is not above the whitelist threshold.
pub hit-aggregate :
    (srs : List ServerResult) (r w : ℕ)
    → hit (aggregate srs) (pos r) (pos w) ≡ (
        all_ok (aggregate srs)
        && ltb_ℤ (pos r) (aggregate srs).count
        && not (ltb_ℤ (pos w) (aggregate srs).whitelist))
unfolding hit all_ok aggregate
hit-aggregate srs r w = rw tally_all-servers (servers_verdict srs srs r w)
